-- ===== src/Pages/Leaf/ShiftAll.antt =====
-- The whole loop of `LeafMutator` of src/tree_store/btree_base.rs that moves end offsets.
use redbx.Prelude.{
  ℕ, suc, ◌+◌, ◌^◌, ◌≤◌, ◌<◌, ◌≡◌, refl, sym, ap, subst, List, [], ◌∷◌, ◌++◌, Option, none, some,
  arith, length, length-append, length-map, ok,
}
use redbx.Prelude.Bytes.{to_le, length-to_le}
use redbx.Prelude.Memory.{At, At-append, At-move}
use redbx.Pages.Column.{pointers, flat, column}
use redbx.Pages.Ends.{length-column}
use redbx.Pages.Extend.{column-append, OnlyTwo, pointers-add, pointers-le}
use redbx.Pages.Leaf.Layout.{Entry, keys, values}
use redbx.Pages.Leaf.Mutator.{ℤ, update_ends}
use redbx.Pages.Leaf.Shift.{Shifts, Shifts-add, key_end_shifted, value_end_shifted}

-- The columns of end offsets of some entries from index `i` on, moved; nothing else differs.
pub record AllShifted (fk fv : Option ℕ) (n : ℕ) (page : List ℕ) (i m t w : ℕ) (es : List Entry)
    (after : List ℕ) : Type 0 where
  pub key_ends : At after (4 + pointers fk i) (column fk t (keys es))
  pub value_ends : At after (4 + pointers fk n + pointers fv i) (column fv w (values es))
  pub only :
      OnlyTwo page
        (4 + pointers fk i)
        (4 + pointers fk (i + m))
        (4 + pointers fk n + pointers fv i)
        (4 + pointers fk n + pointers fv (i + m))
        after

-- The first cell of a column and the others, together.
column_joined :
    (fixed : Option ℕ) {page : List ℕ} (at t : ℕ) (x : List ℕ) (xs : List (List ℕ))
    → At page at (column fixed t (x ∷ []))
    → At page (at + pointers fixed 1) (column fixed (t + length x) xs)
    → At page at (column fixed t (x ∷ xs))
column_joined fixed {page} at t x xs first later =
    let size = length-column fixed t (x ∷ []) in
    let start : t + length x ≡ t + length (x ++ []) = omega (arith, length-append x []) in
    subst (At page at) (sym (column-append fixed t (x ∷ []) xs)) (
      At-append (column fixed t (x ∷ [])) (column fixed (t + length (x ++ [])) xs) first (
        subst (λ s. At page (at + length (column fixed t (x ∷ []))) (column fixed s xs)) start
          (At-move (omega arith) later)))

column_start : (fixed : Option ℕ) (s u : ℕ) → column fixed s [] ≡ column fixed u []
column_start none s u = refl
column_start (some f) s u = refl

module _ (fk fv : Option ℕ) (n : ℕ) (few : n < 65536) (for_key for_value : ℤ) where
  pub update_ends-AllShifted :
      (page : List ℕ) (i s t u w : ℕ) (es : List Entry)
      → At page 2 (to_le 2 n)
      → i + length es ≤ n
      → At page (4 + pointers fk i) (column fk s (keys es))
      → At page (4 + pointers fk n + pointers fv i) (column fv u (values es))
      → Shifts for_key s t
      → Shifts for_value u w
      → s + length (flat (keys es)) < 2 ^ 32
      → t + length (flat (keys es)) < 2 ^ 32
      → u + length (flat (values es)) < 2 ^ 32
      → w + length (flat (values es)) < 2 ^ 32
      → (after : List ℕ) × (update_ends fk fv i (length es) (ok for_key) (ok for_value) page
          ≡ ok after)
        × AllShifted fk fv n page i (length es) t w es after
  unfolding update_ends
  update_ends-AllShifted page i s t u w [] count room ks vs hk hv a b c d = (
    page,
    refl,
    record {
      key_ends = subst (At page (4 + pointers fk i)) (column_start fk s t) ks;
      value_ends = subst (At page (4 + pointers fk n + pointers fv i)) (column_start fv u w) vs;
      only = record { size = refl; low = λ x h. x; between = λ x h k. x; high = λ x h. x };
    },
  )
  update_ends-AllShifted page i s t u w ((key, value) ∷ es) count room ks vs hk hv a b c d =
      let lk = length-append key (flat (keys es)) in
      let lv = length-append value (flat (values es)) in
      let two = length-to_le 2 n in
      let pk = pointers-add fk i 1 in
      let pv = pointers-add fv i 1 in
      let qk = pointers-add fk (i + 1) (length es) in
      let qv = pointers-add fv (i + 1) (length es) in
      let same : i + suc (length es) ≡ i + 1 + length es = omega arith in
      let top = pointers-le fk {m = i + 1 + length es} {n = n} (omega arith) in
      let ck = length-column fk t (key ∷ []) in
      let cv = length-column fv w (value ∷ []) in
      let ck' = length-column fk (s + length key) (keys es) in
      let sk = pointers_length fk es in
      let cw = length-column fv u (values ((key, value) ∷ es)) in
      let (p, e, x) =
        key_end_shifted fk page i s t for_key key (keys es) ks hk (omega arith) (omega arith) in
      let (q, f, y) =
        value_end_shifted fk fv p n i u w for_value value (values es)
          (x.only.below count (omega arith)) few (x.only.above vs (omega arith)) hv (omega arith)
          (omega arith) in
      let (r, g, z) =
        update_ends-AllShifted q (i + 1) (s + length key) (t + length key) (u + length value)
          (w + length value) es (y.only.below (x.only.below count (omega arith)) (omega arith))
          (omega arith) (y.only.below (At-move (omega arith) x.later) (omega arith))
          (At-move (omega arith) y.later) (Shifts-add for_key s t (length key) hk)
          (Shifts-add for_value u w (length value) hv) (omega arith) (omega arith) (omega arith)
          (omega arith) in
      (
        r,
        rw (e, f) g,
        record {
          key_ends =
              column_joined fk (4 + pointers fk i) t key (keys es)
                (z.only.low (y.only.below x.first (omega arith)) (omega arith))
                (At-move (omega arith) z.key_ends);
          value_ends =
              column_joined fv (4 + pointers fk n + pointers fv i) w value (values es)
                (z.only.between y.first (omega arith) (omega arith))
                (At-move (omega arith) z.value_ends);
          only = rw same (record {
            size = omega (arith, z.only.size, x.only.size, y.only.size);
            low = λ h l. z.only.low (y.only.below (x.only.below h l) (omega arith)) (omega arith);
            between = λ h l k.
                z.only.between (y.only.below (x.only.above h (omega arith)) (omega arith))
                  (omega arith) (omega arith);
            high = λ h l.
                z.only.high (y.only.above (x.only.above h (omega arith)) (omega arith))
                  (omega arith);
          });
        },
      )
    where
      pointers_length :
          (fixed : Option ℕ) (es : List Entry)
          → pointers fixed (length (keys es)) ≡ pointers fixed (length es)
      pointers_length fixed es = ap (pointers fixed) (length-map (λ (e : Entry). e.0) es)
