-- ===== src/Pages/Leaf/Built.antt =====
-- A page that the builder of src/tree_store/btree_base.rs fills is a leaf page of the entries.
use redbx.Prelude.{
  ℕ, ◌+◌, ◌-◌, ◌^◌, ◌≤◌, ◌<◌, ◌≡◌, refl, sym, ap, ◌∙◌, subst, List, [], ◌∷◌, ◌++◌, Option, none,
  some, arith, length, length-append, ok, true, ltb, ◌==◌,
}
use native.Mathlib.Nat.{zero-add}
use mathlib.Core.List.{append_assoc, append-nil, map-append}
use redbx.Prelude.Word.{sub64}
use redbx.Prelude.Bytes.{to_le, length-to_le}
use redbx.Prelude.Memory.{At, write-Only}
use redbx.Pages.Column.{pointers, flat, column, Fits, Width}
use redbx.Pages.Extend.{length-flat_one}
use redbx.Pages.Leaf.Layout.{Entry, keys, values, section, leaf, Holds, IsLeaf}
use redbx.Pages.Leaf.Raw.{raw_new, raw_key_section_start, finish, required_bytes}
use redbx.Pages.Leaf.Append.{builder, raw_key_end_lem}
use redbx.Pages.Leaf.Grow.{HasRoom, append-Holds}
use redbx.Pages.Leaf.Build.{append_all, fill}

-- Entries that can stand on one page.
pub record IsContent (fk fv : Option ℕ) (entries : List Entry) : Type 0 where
  pub filled : 0 < length entries
  pub few : length entries < 65536
  pub key_fits : Fits fk (keys entries)
  pub value_fits : Fits fv (values entries)
  pub small :
      section fk fv (length entries) + length (flat (keys entries)) + length (flat (values entries))
      < 2 ^ 32

pub column_empty : (fixed : Option ℕ) (start : ℕ) → column fixed start [] ≡ []
column_empty none start = refl
column_empty (some f) start = refl

pub Fits-empty : (fixed : Option ℕ) → Fits fixed []
Fits-empty none = tt
Fits-empty (some f) = tt

pub At_empty : {page : List ℕ} {s : ℕ} → s ≤ length page → At page s []
At_empty h = record { inside = omega arith; same = λ i l. elim l [ ] }

raw_new-Holds :
    (page : List ℕ) (fk fv : Option ℕ) (n k : ℕ)
    → n < 65536
    → section fk fv n + k ≤ length page
    → section fk fv n + k < 2 ^ 32
    → (after : List ℕ) × (raw_new page n fk fv k ≡ ok (builder after fk fv n k 0))
      × Holds after fk fv n k []
      × (length after ≡ length page)
unfolding raw_new
raw_new-Holds page fk fv n k few room small =
    let (p, e, kind, o) = write-Only 0 (leaf ∷ []) page (omega arith) in
    let (q, f, count, r) = write-Only 2 (to_le 2 n) p (omega (arith, length-to_le 2 n, o.size)) in
    let fits : ltb n 65536 ≡ true = ground arith in
    (
      q,
      rw (e, fits, f) refl,
      record {
        kind = r.below kind (omega arith);
        count = count;
        few = few;
        key_ends =
            subst (At q 4) (sym (column_empty fk (section fk fv n)))
              (At_empty (omega (arith, o.size, r.size)));
        value_ends =
            subst (At q (4 + pointers fk n)) (sym (column_empty fv (section fk fv n + k)))
              (At_empty (omega (arith, o.size, r.size)));
        key_data = At_empty (omega (arith, o.size, r.size));
        value_data = At_empty (omega (arith, o.size, r.size));
        key_fits = Fits-empty fk;
        value_fits = Fits-empty fv;
        small = omega arith;
        enough = omega arith;
      },
      omega (arith, o.size, r.size),
    )

pub first-Fits :
    (fixed : Option ℕ) (x : List ℕ) (xs : List (List ℕ)) → Fits fixed (x ∷ xs) → Width fixed x
first-Fits none x xs f = tt
first-Fits (some w) x xs f = f.0

pub rest-Fits :
    (fixed : Option ℕ) (x : List ℕ) (xs : List (List ℕ)) → Fits fixed (x ∷ xs) → Fits fixed xs
rest-Fits none x [] f = tt
rest-Fits none x (y ∷ xs) f = tt
rest-Fits (some w) x xs f = f.1

pub keys_one :
    (entries : List Entry) (key value : List ℕ)
    → length (flat (keys (entries ++ ((key, value) ∷ []))))
      ≡ length (flat (keys entries)) + length key
keys_one entries key value =
    ap (λ l. length (flat l)) (map-append (λ (e : Entry). e.0) entries ((key, value) ∷ []))
    ∙ length-flat_one (keys entries) key

pub values_one :
    (entries : List Entry) (key value : List ℕ)
    → length (flat (values (entries ++ ((key, value) ∷ []))))
      ≡ length (flat (values entries)) + length value
values_one entries key value =
    ap (λ l. length (flat l)) (map-append (λ (e : Entry). e.1) entries ((key, value) ∷ []))
    ∙ length-flat_one (values entries) value

-- All entries are appended to those that the page holds.
append_all-Holds :
    (fk fv : Option ℕ) (n k : ℕ) (page : List ℕ) (done todo : List Entry)
    → Holds page fk fv n k done
    → length done + length todo ≤ n
    → Fits fk (keys todo)
    → Fits fv (values todo)
    → length (flat (keys done)) + length (flat (keys todo)) ≤ k
    → section fk fv n + k + length (flat (values done)) + length (flat (values todo)) ≤ length page
    → section fk fv n + k + length (flat (values done)) + length (flat (values todo)) < 2 ^ 32
    → (after : List ℕ) × (append_all (builder page fk fv n k (length done)) todo
        ≡ ok (builder after fk fv n k (length done + length todo)))
      × Holds after fk fv n k (done ++ todo)
      × (length after ≡ length page)
unfolding append_all
append_all-Holds fk fv n k page done [] h slots a b c d e = (
  page,
  ap (λ m. ok (builder page fk fv n k m)) (omega arith),
  subst (Holds page fk fv n k) (sym (append-nil done)) h,
  refl,
)
append_all-Holds fk fv n k page done ((key, value) ∷ todo) h slots a b c d e =
    let both = length-append key (flat (keys todo)) in
    let two = length-append value (flat (values todo)) in
    let room : HasRoom page fk fv n k done key value = record {
      slot = omega arith;
      key_width = first-Fits fk key (keys todo) a;
      value_width = first-Fits fv value (values todo) b;
      key_bytes = omega arith;
      value_bytes = omega arith;
      in_u32 = omega arith;
    } in
    let (p, f, held, size) = append-Holds fk fv key value h room in
    let one = length-append done ((key, value) ∷ []) in
    let more_keys = keys_one done key value in
    let more_values = values_one done key value in
    let (q, g, whole, same) =
      append_all-Holds fk fv n k p (done ++ ((key, value) ∷ [])) todo held (omega arith)
        (rest-Fits fk key (keys todo) a) (rest-Fits fv value (values todo) b) (omega arith)
        (omega arith) (omega arith) in
    let counted : length done + 1 ≡ length (done ++ ((key, value) ∷ [])) = omega arith in
    (
      q,
      rw f (
          ap (λ m. append_all (builder p fk fv n k m) todo) counted
          ∙ g
          ∙ ap (λ m. ok (builder q fk fv n k m)) (omega arith)),
      subst (Holds q fk fv n k) (append_assoc done ((key, value) ∷ []) todo) whole,
      omega arith,
    )

-- The checks at the end pass once all entries are there.
finish-IsLeaf :
    {page : List ℕ} (fk fv : Option ℕ) (entries : List Entry)
    → IsLeaf page fk fv entries
    → 0 < length entries
    → finish (builder page fk fv (length entries) (length (flat (keys entries))) (length entries))
      ≡ ok page
unfolding finish raw_key_section_start
finish-IsLeaf fk fv entries h filled =
    let n = length entries in
    let last : sub64 n 1 ≡ n - 1 = omega (arith, h.few) in
    let all : (n == n) ≡ true = ground arith in
    let end = section fk fv n + length (flat (keys entries)) in
    let reached : (end == end) ≡ true = ground arith in
    rw (all, last, raw_key_end_lem fk fv (n - 1) h (omega arith) n, reached) refl

fill_steps :
    (page : List ℕ) {p q : List ℕ} (fk fv : Option ℕ) (n k : ℕ) (entries : List Entry)
    → raw_new page n fk fv k ≡ ok (builder p fk fv n k 0)
    → append_all (builder p fk fv n k 0) entries ≡ ok (builder q fk fv n k (0 + n))
    → finish (builder q fk fv n k n) ≡ ok q
    → fill fk fv n k entries page ≡ ok q
unfolding fill
fill_steps page {p} {q} fk fv n k entries e f g =
    rw (e, f) (ap (λ m. finish (builder q fk fv n k m)) (zero-add n) ∙ g)

-- A page that is large enough is filled, whatever it held, and is then a leaf page of the entries.
pub fill-IsLeaf :
    (page : List ℕ) (fk fv : Option ℕ) (entries : List Entry)
    → IsContent fk fv entries
    → required_bytes
        (length entries)
        (length (flat (keys entries)) + length (flat (values entries)))
        fk
        fv
      ≤ length page
    → (after : List ℕ) × (fill fk fv (length entries) (length (flat (keys entries))) entries page
        ≡ ok after)
      × IsLeaf after fk fv entries
      × (length after ≡ length page)
unfolding required_bytes
fill-IsLeaf page fk fv entries c enough =
    let n = length entries in
    let k = length (flat (keys entries)) in
    let (p, e, start, size) =
      raw_new-Holds page fk fv n k c.few (omega arith) (omega (arith, c.small)) in
    let (q, f, whole, same) =
      append_all-Holds fk fv n k p [] entries start (omega arith) c.key_fits c.value_fits
        (omega arith) (omega arith) (omega (arith, c.small)) in
    (
      q,
      fill_steps page fk fv n k entries e f (finish-IsLeaf fk fv entries whole c.filled),
      whole,
      omega arith,
    )
