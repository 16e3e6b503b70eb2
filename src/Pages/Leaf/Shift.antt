-- ===== src/Pages/Leaf/Shift.antt =====
-- The loops of `LeafMutator` of src/tree_store/btree_base.rs that move end offsets.
use redbx.Prelude.{
  ℕ, zero, suc, ◌+◌, ◌-◌, ◌*◌, ◌^◌, ◌≤◌, ◌<◌, ◌≡◌, refl, sym, ap, ◌∙◌, subst, List, [], ◌∷◌, Option,
  none, some, arith, length, ok, ltb, true,
}
use native.Mathlib.Nat.{add_assoc}
use mathlib.Core.List.{append-nil}
use redbx.Prelude.Word.{u32_size}
use redbx.Prelude.Bytes.{to_le, length-to_le, from_le-to_le}
use redbx.Prelude.Memory.{At, Only, Only-refl, write-Only, slice-At, At-left, At-right, At-move}
use redbx.Pages.Column.{pointers, ends, offsets, column}
use redbx.Pages.Leaf.{new}
use redbx.Pages.Leaf.Mutator.{ℤ, pos, neg, add_delta, update_end, update_key_end, update_value_end}

-- The change takes end offsets of entries that began at `s` to those of entries that begin at `t`.
abbrev pub Shifts : ℤ → ℕ → ℕ → Type 0
Shifts delta s t = (m : ℕ) → t + m < 2 ^ 32 → add_delta (s + m) delta ≡ some (t + m)

pub neg-Shifts : (d s t : ℕ) → s ≡ t + d → Shifts (neg d) s t
neg-Shifts zero s t e m h =
    let n : s + m + 0 ≡ t + m = omega arith in
    let fits : ltb (t + m) u32_size ≡ true = ground arith in rw (n, fits) refl
neg-Shifts (suc d) s t e m h =
    let there : ltb d (s + m) ≡ true = ground arith in
    let n : s + m - (d + 1) ≡ t + m = omega arith in
    let fits : ltb (t + m) u32_size ≡ true = ground arith in rw (there, n, fits) refl

pub pos-Shifts : (d s t : ℕ) → t ≡ s + d → Shifts (pos d) s t
pos-Shifts d s t e m h =
    let n : s + m + d ≡ t + m = omega arith in
    let fits : ltb (t + m) u32_size ≡ true = ground arith in rw (n, fits) refl

pub Shifts-add : (delta : ℤ) (s t n : ℕ) → Shifts delta s t → Shifts delta (s + n) (t + n)
Shifts-add delta s t n h m l =
    ap (λ k. add_delta k delta) (add_assoc s n m)
    ∙ h (n + m) (omega arith)
    ∙ ap some (sym (add_assoc t n m))

-- One stored offset is changed.
update_end-At :
    (page : List ℕ) (at e f : ℕ) (delta : ℤ)
    → At page at (to_le 4 e)
    → e < 2 ^ 32
    → add_delta e delta ≡ some f
    → (after : List ℕ) × (update_end at delta page ≡ ok after)
      × At after at (to_le 4 f)
      × Only page at (at + 4) after
unfolding update_end
update_end-At page at e f delta stored small change =
    let inside = stored.inside in
    let (after, g, there, only) =
      write-Only at (to_le 4 f) page (omega (arith, length-to_le 4 f, length-to_le 4 e)) in
    (
      after,
      rw (slice-At stored (length-to_le 4 e), from_le-to_le 4 e (omega arith), change) g,
      there,
      record {
        size = only.size;
        below = only.below;
        above = λ a h. only.above a (omega (arith, length-to_le 4 f));
      },
    )

-- What a change of the first end offset of a column does.
pub record FirstShifted (fixed : Option ℕ) (page : List ℕ) (at t s : ℕ) (x : List ℕ)
    (xs : List (List ℕ)) (after : List ℕ) : Type 0 where
  pub first : At after at (column fixed t (x ∷ []))
  pub later : At after (at + pointers fixed 1) (column fixed (s + length x) xs)
  pub only : Only page at (at + pointers fixed 1) after

first_shifted :
    (page : List ℕ) (at s t : ℕ) (delta : ℤ) (x : List ℕ) (xs : List (List ℕ))
    → At page at (column none s (x ∷ xs))
    → Shifts delta s t
    → s + length x < 2 ^ 32
    → t + length x < 2 ^ 32
    → (after : List ℕ) × (update_end at delta page ≡ ok after)
      × FirstShifted none page at t s x xs after
first_shifted page at s t delta x xs stored shifts u v =
    let first = to_le 4 (s + length x) in
    let rest = offsets (ends (s + length x) xs) in
    let (after, e, there, o) =
      update_end-At page at (s + length x) (t + length x) delta (At-left first rest stored) u
        (shifts (length x) v) in
    let size = length-to_le 4 (s + length x) in
    (
      after,
      e,
      record {
        first = subst (At after at) (sym (append-nil (to_le 4 (t + length x)))) there;
        later = o.above (At-move (omega arith) (At-right first rest stored)) (omega arith);
        only = o;
      },
    )

not_shifted :
    (f : ℕ) (page : List ℕ) (at s t : ℕ) (x : List ℕ) (xs : List (List ℕ))
    → at ≤ length page
    → FirstShifted (some f) page at t s x xs page
not_shifted f page at s t x xs h = record {
  first = record { inside = omega arith; same = λ i l. elim l [ ] };
  later = record { inside = omega arith; same = λ i l. elim l [ ] };
  only = Only-refl page at (at + 0);
}

pub key_end_shifted :
    (fk : Option ℕ) (page : List ℕ) (i s t : ℕ) (delta : ℤ) (x : List ℕ) (xs : List (List ℕ))
    → At page (4 + pointers fk i) (column fk s (x ∷ xs))
    → Shifts delta s t
    → s + length x < 2 ^ 32
    → t + length x < 2 ^ 32
    → (after : List ℕ) × (update_key_end fk i delta page ≡ ok after)
      × FirstShifted fk page (4 + pointers fk i) t s x xs after
unfolding update_key_end
key_end_shifted (some f) page i s t delta x xs stored shifts u v =
    (page, refl, not_shifted f page (4 + 0) s t x xs (omega (arith, stored.inside)))
key_end_shifted none page i s t delta x xs stored shifts u v =
    first_shifted page (4 + 4 * i) s t delta x xs stored shifts u v

pub value_end_shifted :
    (fk fv : Option ℕ) (page : List ℕ) (n i s t : ℕ) (delta : ℤ) (x : List ℕ) (xs : List (List ℕ))
    → At page 2 (to_le 2 n)
    → n < 65536
    → At page (4 + pointers fk n + pointers fv i) (column fv s (x ∷ xs))
    → Shifts delta s t
    → s + length x < 2 ^ 32
    → t + length x < 2 ^ 32
    → (after : List ℕ) × (update_value_end fk fv i delta page ≡ ok after)
      × FirstShifted fv page (4 + pointers fk n + pointers fv i) t s x xs after
unfolding update_value_end new
value_end_shifted fk (some f) page n i s t delta x xs count few stored shifts u v =
    (page, refl, not_shifted f page (4 + pointers fk n + 0) s t x xs (omega (arith, stored.inside)))
value_end_shifted fk none page n i s t delta x xs count few stored shifts u v =
    let (after, e, r) =
      first_shifted page (4 + pointers fk n + 4 * i) s t delta x xs stored shifts u v in
    let place : 4 + 4 * i + pointers fk n ≡ 4 + pointers fk n + 4 * i = omega arith in
    (
      after,
      value_end_step fk page n i delta count few (ap (λ o. update_end o delta page) place ∙ e),
      r,
    )
  where
    value_end_step :
        (fk : Option ℕ) (page : List ℕ) (n i : ℕ) (delta : ℤ) {after : List ℕ}
        → At page 2 (to_le 2 n)
        → n < 65536
        → update_end (4 + 4 * i + pointers fk n) delta page ≡ ok after
        → update_value_end fk none i delta page ≡ ok after
    value_end_step fk page n i delta count few e =
        rw (slice-At count (length-to_le 2 n), from_le-to_le 2 n (omega arith)) e
