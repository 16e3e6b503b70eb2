-- ===== src/Pages/Extend.antt =====
-- Columns of src/tree_store/btree_base.rs in parts, and one more entry at the end of a column.
use redbx.Prelude.{
  ℕ, ◌+◌, ◌*◌, ◌^◌, ◌≤◌, ◌<◌, ◌≡◌, refl, sym, ap, ◌∙◌, List, [], ◌∷◌, ◌++◌, Option, none, some,
  arith, length, length-append, ok, subst, true, ltb,
}
use mathlib.Core.List.{append_assoc, append-nil}
use redbx.Prelude.Word.{u32_size}
use redbx.Prelude.Bytes.{to_le, write, length-to_le}
use redbx.Prelude.Memory.{At, Only, Only-refl, write-Only, At-append, At-move}
use redbx.Pages.Column.{pointers, flat, ends, offsets, column, Fits, Width, write_end}
use redbx.Pages.Ends.{length-column}

pub pointers-le : (fixed : Option ℕ) {m n : ℕ} → m ≤ n → pointers fixed m ≤ pointers fixed n
pointers-le none h = omega arith
pointers-le (some f) h = omega arith

pub pointers-add :
    (fixed : Option ℕ) (m n : ℕ) → pointers fixed (m + n) ≡ pointers fixed m + pointers fixed n
pointers-add none m n = omega arith
pointers-add (some f) m n = omega arith

pub flat-append : (xs ys : List (List ℕ)) → flat (xs ++ ys) ≡ flat xs ++ flat ys
flat-append [] ys = refl
flat-append (x ∷ xs) ys = rw (flat-append xs ys) (sym (append_assoc x (flat xs) (flat ys)))

offsets-ends-append :
    (start : ℕ) (xs ys : List (List ℕ))
    → offsets (ends start (xs ++ ys))
      ≡ offsets (ends start xs) ++ offsets (ends (start + length (flat xs)) ys)
offsets-ends-append start [] ys = ap (λ n. offsets (ends n ys)) (omega arith)
offsets-ends-append start (x ∷ xs) ys =
    let e : start + length x + length (flat xs) ≡ start + length (x ++ flat xs) =
      omega (arith, length-append x (flat xs)) in
    ap (λ b. to_le 4 (start + length x) ++ b) (offsets-ends-append (start + length x) xs ys)
    ∙ ap
        (λ n.
          to_le 4 (start + length x)
          ++ (offsets (ends (start + length x) xs) ++ offsets (ends n ys)))
        e
    ∙ sym (append_assoc (to_le 4 (start + length x)) _ _)

-- The stored end offsets of a column in two parts.
pub column-append :
    (fixed : Option ℕ) (start : ℕ) (xs ys : List (List ℕ))
    → column fixed start (xs ++ ys)
      ≡ column fixed start xs ++ column fixed (start + length (flat xs)) ys
column-append none start xs ys = offsets-ends-append start xs ys
column-append (some f) start xs ys = refl

pub Fits-append :
    (fixed : Option ℕ) (xs : List (List ℕ)) (x : List ℕ)
    → Fits fixed xs
    → Width fixed x
    → Fits fixed (xs ++ (x ∷ []))
Fits-append none [] x f w = tt
Fits-append none (y ∷ xs) x f w = tt
Fits-append (some f) [] x fits w = (w, tt)
Fits-append (some f) (y ∷ xs) x fits w = (fits.0, Fits-append (some f) xs x fits.1 w)

-- The end offset of one more entry is written behind those of the others.
pub write_end-column :
    (fixed : Option ℕ) (at start : ℕ) (xs : List (List ℕ)) (x page : List ℕ)
    → At page at (column fixed start xs)
    → at + pointers fixed (length xs + 1) ≤ length page
    → start + length (flat xs) + length x < 2 ^ 32
    → (after : List ℕ) × (write_end fixed
          (at + 4 * length xs)
          (start + length (flat xs) + length x)
          page
        ≡ ok after)
      × At after at (column fixed start (xs ++ (x ∷ [])))
      × Only page (at + pointers fixed (length xs)) (at + pointers fixed (length xs + 1)) after
unfolding write_end
write_end-column (some f) at start xs x page stored room small =
    (page, refl, stored, Only-refl page _ _)
write_end-column none at start xs x page stored room small =
    let end = start + length (flat xs) + length x in
    let fits : ltb end u32_size ≡ true = ground arith in
    let (after, e, there, only) =
      write-Only (at + 4 * length xs) (to_le 4 end) page (omega (arith, length-to_le 4 end)) in
    let size = length-column none start xs in
    let both =
      At-append (column none start xs) (to_le 4 end) (only.below stored (omega arith))
        (At-move (omega arith) there) in
    let whole : column none start xs ++ to_le 4 end ≡ column none start (xs ++ (x ∷ [])) =
      ap (λ b. column none start xs ++ b) (sym (append-nil (to_le 4 end)))
      ∙ sym (column-append none start xs (x ∷ [])) in
    (
      after,
      rw fits e,
      subst (λ b. At after at b) whole both,
      record {
        size = only.size;
        below = only.below;
        above = λ a h. only.above a (omega (arith, length-to_le 4 end));
      },
    )

pub length-flat_one :
    (xs : List (List ℕ)) (x : List ℕ) → length (flat (xs ++ (x ∷ []))) ≡ length (flat xs) + length x
length-flat_one xs x =
    ap length (flat-append xs (x ∷ []) ∙ ap (λ b. flat xs ++ b) (append-nil x))
    ∙ length-append (flat xs) x

pub At-flat_one :
    {page : List ℕ} (at : ℕ) (xs : List (List ℕ)) (x : List ℕ)
    → At page at (flat xs)
    → At page (at + length (flat xs)) x
    → At page at (flat (xs ++ (x ∷ [])))
At-flat_one {page} at xs x before here =
    subst (λ b. At page at b)
      (sym (flat-append xs (x ∷ []) ∙ ap (λ b. flat xs ++ b) (append-nil x)))
      (At-append (flat xs) x before here)

-- Only the bytes from `a` up to `b` and those from `c` up to `d` differ.
pub record OnlyTwo (page : List ℕ) (a b c d : ℕ) (after : List ℕ) : Type 0 where
  pub size : length after ≡ length page
  pub low : {s : ℕ} {xs : List ℕ} → At page s xs → s + length xs ≤ a → At after s xs
  pub between : {s : ℕ} {xs : List ℕ} → At page s xs → b ≤ s → s + length xs ≤ c → At after s xs
  pub high : {s : ℕ} {xs : List ℕ} → At page s xs → d ≤ s → At after s xs

-- One more entry in a column: its end offset, if one is stored, and then its bytes.
pub column_grows :
    (fixed : Option ℕ) (at start : ℕ) (xs : List (List ℕ)) (x page : List ℕ)
    → At page at (column fixed start xs)
    → At page start (flat xs)
    → at + pointers fixed (length xs + 1) ≤ start
    → start + length (flat xs) + length x ≤ length page
    → start + length (flat xs) + length x < 2 ^ 32
    → (ended after : List ℕ) × (write_end fixed
          (at + 4 * length xs)
          (start + length (flat xs) + length x)
          page
        ≡ ok ended)
      × (write (start + length (flat xs)) x ended ≡ ok after)
      × At after at (column fixed start (xs ++ (x ∷ [])))
      × At after start (flat (xs ++ (x ∷ [])))
      × OnlyTwo page
          (at + pointers fixed (length xs))
          (at + pointers fixed (length xs + 1))
          (start + length (flat xs))
          (start + length (flat xs) + length x)
          after
column_grows fixed at start xs x page stored bytes room space small =
    let (ended, e, column_there, o) =
      write_end-column fixed at start xs x page stored (omega arith) small in
    let (after, f, here, p) =
      write-Only (start + length (flat xs)) x ended (omega (arith, o.size)) in
    let more : pointers fixed (length xs) ≤ pointers fixed (length xs + 1) =
      pointers-le fixed (omega arith) in
    let column_size : length (column fixed start (xs ++ (x ∷ [])))
        ≡ pointers fixed (length xs + 1) =
      length-column fixed start (xs ++ (x ∷ []))
      ∙ ap (pointers fixed) (length-append xs (x ∷ [])) in
    (
      ended,
      after,
      e,
      f,
      p.below column_there (omega arith),
      At-flat_one start xs x (p.below (o.above bytes (omega arith)) (omega arith)) here,
      record {
        size = omega (arith, o.size, p.size);
        low = λ a h. p.below (o.below a h) (omega arith);
        between = λ a h k. p.below (o.above a h) k;
        high = λ a h. p.above (o.above a (omega arith)) h;
      },
    )
