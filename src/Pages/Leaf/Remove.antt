-- ===== src/Pages/Leaf/Remove.antt =====
-- The end offsets and the count of a leaf page of src/tree_store/btree_base.rs before the moves of
-- `LeafMutator::remove`.
use redbx.Prelude.{ℕ, ◌+◌, ◌≡◌, ap, ◌∙◌, List, [], ◌∷◌, Option, arith, length, length-map, ok}
use redbx.Prelude.Bytes.{to_le, write, length-to_le}
use redbx.Prelude.Memory.{At, write-Only, At-move}
use redbx.Pages.Column.{pointers, flat, column}
use redbx.Pages.Ends.{length-column}
use redbx.Pages.Extend.{pointers-add}
use redbx.Pages.Leaf.Layout.{Entry, keys, values, leaf, IsLeaf}
use redbx.Pages.Leaf.Mutator.{neg, pointer_size, update_ends}
use redbx.Pages.Leaf.Shift.{neg-Shifts}
use redbx.Pages.Leaf.ShiftAll.{update_ends-AllShifted}
use redbx.Pages.Leaf.Parts.{Around, IsLeaf-Around, all_of, start_of, middle_of}
use redbx.Pages.Leaf.Rejoin.{rest_of, new_start, new_middle}
use redbx.Pages.Leaf.Sizes.{sizes, pointers-zero}

module _ (fk fv : Option ℕ) (before : List Entry) (key value : List ℕ) (behind : List Entry) where
  abbrev pub shrink : ℕ
  shrink = pointer_size fk + pointer_size fv

  -- The page after the two loops and the new count, before the moves.
  pub record IsShifted (page after : List ℕ) : Type 0 where
    pub around :
        Around after fk fv
          (length (all_of fk fv before key value behind))
          (start_of fk fv before key value behind)
          (middle_of fk fv before key value behind)
          (new_start fk fv before behind)
          (new_start fk fv before behind + length (flat (keys before)))
          (new_middle fk fv before behind)
          (new_middle fk fv before behind + length (flat (values before)))
          before
          key
          value
          behind
    pub kind : At after 0 (leaf ∷ [])
    pub count : At after 2 (to_le 2 (length (rest_of fk fv before behind)))
    pub size : length after ≡ length page

  pub shifted :
      (page : List ℕ)
      → IsLeaf page fk fv (all_of fk fv before key value behind)
      → (p1 p2 p3 : List ℕ) × (update_ends fk fv 0
            (length before)
            (ok (neg shrink))
            (ok (neg (shrink + length key)))
            page
          ≡ ok p1)
        × (update_ends fk fv
              (length before + 1)
              (length behind)
              (ok (neg (shrink + length key)))
              (ok (neg (shrink + length key + length value)))
              p1
            ≡ ok p2)
        × (write 2 (to_le 2 (length (rest_of fk fv before behind))) p2 ≡ ok p3)
        × IsShifted page p3
  shifted page h =
      let z = sizes fk fv before key value behind in
      let n = length (all_of fk fv before key value behind) in
      let start = start_of fk fv before key value behind in
      let middle = middle_of fk fv before key value behind in
      let start' = new_start fk fv before behind in
      let middle' = new_middle fk fv before behind in
      let small = h.small in
      let two = length-to_le 2 n in
      let s1 : start ≡ start' + shrink = omega (arith, z.key_pointers, z.value_pointers) in
      let s2 : middle ≡ middle' + (shrink + length key) =
        omega (arith, z.key_bytes, z.rest_key_bytes) in
      let a = IsLeaf-Around fk fv before key value behind h in
      let k0 = pointers-zero fk in
      let v0 = pointers-zero fv in
      let (p1, e1, r1) =
        update_ends-AllShifted fk fv n h.few (neg shrink) (neg (shrink + length key)) page 0 start
          start' middle middle' before h.count (omega (arith, z.n))
          (At-move (omega arith) a.keys_before) (At-move (omega arith) a.values_before)
          (neg-Shifts shrink start start' s1) (neg-Shifts (shrink + length key) middle middle' s2)
          (omega (arith, z.key_bytes)) (omega (arith, z.key_bytes)) (omega (arith, z.value_bytes))
          (omega (arith, z.value_bytes)) in
      let i0k : pointers fk (0 + length before) ≡ pointers fk (length before) =
        ap (pointers fk) (omega arith) in
      let i0v : pointers fv (0 + length before) ≡ pointers fv (length before) =
        ap (pointers fv) (omega arith) in
      let i1k = pointers-add fk (length before + 1) (length behind) in
      let i1v = pointers-add fv (length before + 1) (length behind) in
      let lkb : length (column fk (start + length (flat (keys before)) + length key) (keys behind))
          ≡ pointers fk (length behind) =
        length-column fk _ (keys behind)
        ∙ ap (pointers fk) (length-map (λ (e : Entry). e.0) behind) in
      let lka : length (column fk start' (keys before)) ≡ pointers fk (length before) =
        length-column fk start' (keys before)
        ∙ ap (pointers fk) (length-map (λ (e : Entry). e.0) before) in
      let lva : length (column fv middle' (values before)) ≡ pointers fv (length before) =
        length-column fv middle' (values before)
        ∙ ap (pointers fv) (length-map (λ (e : Entry). e.1) before) in
      let (p2, e2, r2) =
        update_ends-AllShifted fk fv n h.few (neg (shrink + length key))
          (neg (shrink + length key + length value)) p1 (length before + 1)
          (start + length (flat (keys before)) + length key) (start' + length (flat (keys before)))
          (middle + length (flat (values before)) + length value)
          (middle' + length (flat (values before))) behind (r1.only.low h.count (omega arith))
          (omega (arith, z.n))
          (r1.only.between a.keys_behind (omega (arith, z.key_pointers_next))
            (omega (arith, z.key_pointers_parts)))
          (r1.only.high a.values_behind (omega (arith, z.value_pointers_next)))
          (neg-Shifts (shrink + length key) _ _ (omega arith))
          (neg-Shifts (shrink + length key + length value) _ _ (omega arith))
          (omega (arith, z.key_bytes)) (omega (arith, z.key_bytes)) (omega (arith, z.value_bytes))
          (omega (arith, z.value_bytes)) in
      let (p3, e3, count, o) = write-Only 2 (to_le 2 (length (rest_of fk fv before behind))) p2 (
        omega (
          arith,
          h.count.inside,
          r1.only.size,
          r2.only.size,
          length-to_le 2 (length (rest_of fk fv before behind)),
        )) in
      let w = length-to_le 2 (length (rest_of fk fv before behind)) in
      let np = z.key_pointers_next in
      let nv = z.value_pointers_next in
      let pk = z.key_pointers_parts in
      let pv = z.value_pointers_parts in
      let ke = z.key_bytes in
      (
        p1,
        p2,
        p3,
        e1,
        e2,
        e3,
        record {
          around = record {
            keys_before =
                o.above (r2.only.low (At-move (omega arith) r1.key_ends) (omega arith))
                  (omega arith);
            keys_behind = o.above r2.key_ends (omega arith);
            values_before =
                o.above
                  (r2.only.between (At-move (omega arith) r1.value_ends) (omega arith)
                    (omega arith))
                  (omega arith);
            values_behind = o.above r2.value_ends (omega arith);
            key_data_before =
                o.above (r2.only.high (r1.only.high a.key_data_before (omega arith)) (omega arith))
                  (omega arith);
            key_data_behind =
                o.above (r2.only.high (r1.only.high a.key_data_behind (omega arith)) (omega arith))
                  (omega arith);
            value_data_before =
                o.above
                  (r2.only.high (r1.only.high a.value_data_before (omega arith)) (omega arith))
                  (omega arith);
            value_data_behind =
                o.above
                  (r2.only.high (r1.only.high a.value_data_behind (omega arith)) (omega arith))
                  (omega arith);
          };
          kind =
              o.below (r2.only.low (r1.only.low h.kind (omega arith)) (omega arith)) (omega arith);
          count = count;
          size = omega (arith, o.size, r1.only.size, r2.only.size);
        },
      )
