-- ===== src/Prelude/Memory.antt =====
-- Byte strings that stand at an offset of a page, and what a write does to them.
use redbx.Prelude.Tests.{leb}
use Prim.Native.Nat.{ℕ, zero, suc, ◌+◌, ◌-◌, ◌≤◌, ◌<◌}
use mathlib.Core.Path.{◌≡◌, refl, sym, ap, subst, ◌∙◌}
use mathlib.Core.List.{List, [], ◌∷◌, ◌++◌}
use mathlib.Core.Bool.{true}
use mathlib.Core.Option.{some}
use native.Mathlib.Nat.{suc-add, zero-add, add_assoc}
use native.Mathlib.Decide.{dec_lt}
use native.Mathlib.Omega.{arith}
use redbx.Prelude.Lists.{length, get_elem?, length-append}
use redbx.Prelude.Panics.{Outcome, ok, ◌>>◌, check}
use redbx.Prelude.Bytes.{take_bytes, skip_bytes, slice, overwrite, write}

-- `page[start..end]`
unfoldable pub range : ℕ → ℕ → List ℕ → Outcome (List ℕ)
range start end page = do check (leb start end); slice start (end - start) page

-- `bytes` stand in the page at `offset`.
pub record At (page : List ℕ) (offset : ℕ) (bytes : List ℕ) : Type 0 where
  pub inside : offset + length bytes ≤ length page
  pub same : (i : ℕ) → i < length bytes → get_elem? page (offset + i) ≡ get_elem? bytes i

-- `after` is `page` with `bytes` written at `offset`.
pub record Wrote (page : List ℕ) (offset : ℕ) (bytes after : List ℕ) : Type 0 where
  pub size : length after ≡ length page
  pub here : (i : ℕ) → i < length bytes → get_elem? after (offset + i) ≡ get_elem? bytes i
  pub before : (i : ℕ) → i < offset → get_elem? after i ≡ get_elem? page i
  pub beyond : (i : ℕ) → offset + length bytes ≤ i → get_elem? after i ≡ get_elem? page i

overwrite-Wrote :
    (bytes page : List ℕ)
    → length bytes ≤ length page
    → (after : List ℕ) × (overwrite bytes page ≡ ok after) × Wrote page 0 bytes after
unfolding overwrite
overwrite-Wrote [] page h = (
  page,
  refl,
  record { size = refl; here = λ i l. elim l [ ]; before = λ i l. refl; beyond = λ i l. refl },
)
overwrite-Wrote (x ∷ xs) [] h = absurd (omega arith)
overwrite-Wrote (x ∷ xs) (b ∷ page) h =
    let (after, e, w) = overwrite-Wrote xs page (omega arith) in
    (
      x ∷ after,
      rw e refl,
      record {
        size = ap suc w.size;
        here = here_cons x w;
        before = λ i l. absurd (omega arith);
        beyond = beyond_cons x b w;
      },
    )
  where
    here_cons :
        (x : ℕ) {xs page after : List ℕ}
        → Wrote page 0 xs after
        → (i : ℕ) → i < suc (length xs)
        → get_elem? (x ∷ after) (0 + i) ≡ get_elem? (x ∷ xs) i
    here_cons x w zero l = refl
    here_cons x {after = after} w (suc i) l =
        ap (get_elem? (x ∷ after)) (zero-add (suc i))
        ∙ ap (get_elem? after) (sym (zero-add i))
        ∙ w.here i (omega arith)

    beyond_cons :
        (x b : ℕ) {xs page after : List ℕ}
        → Wrote page 0 xs after
        → (i : ℕ) → 0 + suc (length xs) ≤ i
        → get_elem? (x ∷ after) i ≡ get_elem? (b ∷ page) i
    beyond_cons x b w zero l = absurd (omega arith)
    beyond_cons x b w (suc i) l = w.beyond i (omega arith)

module _ {n : ℕ} (b : ℕ) {xs page after : List ℕ} (w : Wrote page n xs after) where
  here_later : (i : ℕ) → i < length xs → get_elem? (b ∷ after) (suc n + i) ≡ get_elem? xs i
  here_later i l = ap (get_elem? (b ∷ after)) (suc-add n i) ∙ w.here i l

  before_later : (i : ℕ) → i < suc n → get_elem? (b ∷ after) i ≡ get_elem? (b ∷ page) i
  before_later zero l = refl
  before_later (suc i) l = w.before i (omega arith)

  beyond_later : (i : ℕ) → suc n + length xs ≤ i → get_elem? (b ∷ after) i ≡ get_elem? (b ∷ page) i
  beyond_later zero l = absurd (omega arith)
  beyond_later (suc i) l = w.beyond i (omega arith)

-- A write inside the page returns, and changes its own bytes only.
pub write-Wrote :
    (offset : ℕ) (bytes page : List ℕ)
    → offset + length bytes ≤ length page
    → (after : List ℕ) × (write offset bytes page ≡ ok after) × Wrote page offset bytes after
unfolding write
write-Wrote zero bytes page h = overwrite-Wrote bytes page (omega arith)
write-Wrote (suc n) bytes [] h = absurd (omega arith)
write-Wrote (suc n) bytes (b ∷ page) h =
    let (after, e, w) = write-Wrote n bytes page (omega arith) in
    (
      b ∷ after,
      rw e refl,
      record {
        size = ap suc w.size;
        here = here_later b w;
        before = before_later b w;
        beyond = beyond_later b w;
      },
    )

take_bytes-At :
    (bytes page : List ℕ)
    → length bytes ≤ length page
    → ((i : ℕ) → i < length bytes → get_elem? page i ≡ get_elem? bytes i)
    → take_bytes (length bytes) page ≡ ok bytes
unfolding take_bytes
take_bytes-At [] page h same = refl
take_bytes-At (x ∷ xs) [] h same = absurd (omega arith)
take_bytes-At (x ∷ xs) (b ∷ page) h same =
    let first : some b ≡ some x = same 0 (omega arith) in
    let e : b ≡ x = cc in
    rw (e, take_bytes-At xs page (omega arith) (λ i l. same (suc i) (omega arith))) refl

slice-same :
    (start : ℕ) (bytes page : List ℕ)
    → start + length bytes ≤ length page
    → ((i : ℕ) → i < length bytes → get_elem? page (start + i) ≡ get_elem? bytes i)
    → slice start (length bytes) page ≡ ok bytes
unfolding slice skip_bytes
slice-same zero bytes page h same =
    take_bytes-At bytes page (omega arith)
      (λ i l. ap (get_elem? page) (sym (zero-add i)) ∙ same i l)
slice-same (suc n) bytes [] h same = absurd (omega arith)
slice-same (suc n) bytes (b ∷ page) h same =
    slice-same n bytes page (omega arith)
      (λ i l. ap (get_elem? (b ∷ page)) (sym (suc-add n i)) ∙ same i l)

-- Bytes that stand in the page are what a slice of their length reads.
pub slice-At :
    {page : List ℕ} {start : ℕ} {bytes : List ℕ} {n : ℕ}
    → At page start bytes
    → length bytes ≡ n
    → slice start n page ≡ ok bytes
slice-At {page} {start} {bytes} at e =
    ap (λ k. slice start k page) (sym e) ∙ slice-same start bytes page at.inside at.same

pub range-At :
    {page : List ℕ} {start end : ℕ} {bytes : List ℕ}
    → At page start bytes
    → start + length bytes ≡ end
    → range start end page ≡ ok bytes
unfolding range
range-At {page} {start} {end} {bytes} at e =
    let ordered : leb start end ≡ true = ground arith in rw ordered (slice-At at (omega arith))

-- What a write leaves alone, and what it brings.
module _ {page after : List ℕ} {offset : ℕ} {bytes : List ℕ}
    (w : Wrote page offset bytes after) where
  pub At-before :
      {start : ℕ} {xs : List ℕ} → At page start xs → start + length xs ≤ offset → At after start xs
  At-before at h = record {
    inside = omega (arith, at.inside, w.size);
    same = λ i l. w.before _ (omega arith) ∙ at.same i l;
  }

  pub At-beyond :
      {start : ℕ} {xs : List ℕ}
      → At page start xs
      → offset + length bytes ≤ start
      → At after start xs
  At-beyond at h = record {
    inside = omega (arith, at.inside, w.size);
    same = λ i l. w.beyond _ (omega arith) ∙ at.same i l;
  }

  pub At-here : offset + length bytes ≤ length page → At after offset bytes
  At-here h = record { inside = omega (arith, w.size); same = w.here }

get_elem?-append_left :
    (xs ys : List ℕ) (i : ℕ) → i < length xs → get_elem? (xs ++ ys) i ≡ get_elem? xs i
get_elem?-append_left [] ys i h = elim h [ ]
get_elem?-append_left (x ∷ xs) ys zero h = refl
get_elem?-append_left (x ∷ xs) ys (suc i) h = get_elem?-append_left xs ys i (omega arith)

get_elem?-append_right :
    (xs ys : List ℕ) (i : ℕ) → get_elem? (xs ++ ys) (length xs + i) ≡ get_elem? ys i
get_elem?-append_right [] ys i = ap (get_elem? ys) (zero-add i)
get_elem?-append_right (x ∷ xs) ys i =
    ap (get_elem? (x ∷ xs ++ ys)) (suc-add (length xs) i) ∙ get_elem?-append_right xs ys i

module _ {page : List ℕ} {start : ℕ} (xs ys : List ℕ) where
  pub At-left : At page start (xs ++ ys) → At page start xs
  At-left at = record {
    inside = omega (arith, at.inside, length-append xs ys);
    same = λ i l. at.same i (omega (arith, length-append xs ys)) ∙ get_elem?-append_left xs ys i l;
  }

  pub At-right : At page start (xs ++ ys) → At page (start + length xs) ys
  At-right at = record {
    inside = omega (arith, at.inside, length-append xs ys);
    same = λ i l.
        ap (get_elem? page) (add_assoc start (length xs) i)
        ∙ at.same (length xs + i) (omega (arith, length-append xs ys))
        ∙ get_elem?-append_right xs ys i;
  }

  pub At-append : At page start xs → At page (start + length xs) ys → At page start (xs ++ ys)
  At-append at next = record {
    inside = omega (arith, next.inside, length-append xs ys);
    same = λ i l. elim (dec_lt i (length xs)) [
      | yes h ↦ at.same i h ∙ sym (get_elem?-append_left xs ys i h)
      | no h ↦
          let e : i ≡ length xs + (i - length xs) = omega arith in
          let f : start + i ≡ start + length xs + (i - length xs) = omega arith in
          ap (get_elem? page) f
          ∙ next.same (i - length xs) (omega (arith, length-append xs ys))
          ∙ sym (get_elem?-append_right xs ys (i - length xs))
          ∙ ap (get_elem? (xs ++ ys)) (sym e)
    ];
  }

pub At-move : {page : List ℕ} {s t : ℕ} {xs : List ℕ} → s ≡ t → At page s xs → At page t xs
At-move {page} {s} {t} {xs} e at = subst (λ k. At page k xs) e at

-- There are bytes at every range inside the page.
prefix_of :
    (n : ℕ) (page : List ℕ) → n ≤ length page → (xs : List ℕ) × (length xs ≡ n) × At page 0 xs
prefix_of zero page h = ([], refl, record { inside = omega arith; same = λ i l. elim l [ ] })
prefix_of (suc n) [] h = absurd (omega arith)
prefix_of (suc n) (b ∷ page) h =
    let (xs, e, at) = prefix_of n page (omega arith) in
    (b ∷ xs, ap suc e, record { inside = omega (arith, at.inside); same = first at })
  where
    first :
        {xs page : List ℕ}
        → At page 0 xs
        → (i : ℕ) → i < suc (length xs)
        → get_elem? (b ∷ page) (0 + i) ≡ get_elem? (b ∷ xs) i
    first at zero l = refl
    first {xs} {page} at (suc i) l =
        ap (get_elem? (b ∷ page)) (zero-add (suc i))
        ∙ ap (get_elem? page) (sym (zero-add i))
        ∙ at.same i (omega arith)

pub bytes_of :
    (start n : ℕ) (page : List ℕ)
    → start + n ≤ length page
    → (xs : List ℕ) × (length xs ≡ n) × At page start xs
bytes_of zero n page h = prefix_of n page (omega arith)
bytes_of (suc start) n [] h =
    ([], omega arith, record { inside = omega arith; same = λ i l. elim l [ ] })
bytes_of (suc start) n (b ∷ page) h =
    let (xs, e, at) = bytes_of start n page (omega arith) in
    (
      xs,
      e,
      record {
        inside = omega (arith, at.inside);
        same = λ i l. ap (get_elem? (b ∷ page)) (suc-add start i) ∙ at.same i l;
      },
    )

-- Only the bytes from `low` up to `high` differ.
pub record Only (page : List ℕ) (low high : ℕ) (after : List ℕ) : Type 0 where
  pub size : length after ≡ length page
  pub below : {s : ℕ} {xs : List ℕ} → At page s xs → s + length xs ≤ low → At after s xs
  pub above : {s : ℕ} {xs : List ℕ} → At page s xs → high ≤ s → At after s xs

pub Only-refl : (page : List ℕ) (low high : ℕ) → Only page low high page
Only-refl page low high = record { size = refl; below = λ at h. at; above = λ at h. at }

-- A write inside the page returns, the bytes stand where they were written, and no others changed.
pub write-Only :
    (offset : ℕ) (bytes page : List ℕ)
    → offset + length bytes ≤ length page
    → (after : List ℕ) × (write offset bytes page ≡ ok after)
      × At after offset bytes
      × Only page offset (offset + length bytes) after
write-Only offset bytes page h =
    let (after, e, w) = write-Wrote offset bytes page h in
    (
      after,
      e,
      At-here w h,
      record { size = w.size; below = λ at l. At-before w at l; above = λ at l. At-beyond w at l },
    )
