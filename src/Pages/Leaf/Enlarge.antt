-- ===== src/Pages/Leaf/Enlarge.antt =====
-- The end offsets and the count of a leaf page of src/tree_store/btree_base.rs before the moves of
-- `LeafMutator::insert`.
use redbx.Prelude.{
  ℕ, ◌+◌, ◌^◌, ◌<◌, ◌≡◌, ap, ◌∙◌, List, [], ◌∷◌, Option, arith, length, length-map, ok,
}
use redbx.Prelude.Bytes.{to_le, write, length-to_le}
use redbx.Prelude.Memory.{At, write-Only, At-move}
use redbx.Pages.Column.{pointers, flat, column}
use redbx.Pages.Ends.{length-column}
use redbx.Pages.Extend.{pointers-add}
use redbx.Pages.Leaf.Layout.{Entry, keys, values, leaf, IsLeaf}
use redbx.Pages.Leaf.Mutator.{pos, pointer_size, update_ends}
use redbx.Pages.Leaf.Shift.{pos-Shifts}
use redbx.Pages.Leaf.ShiftAll.{update_ends-AllShifted}
use redbx.Pages.Leaf.Parts.{all_of, start_of, middle_of}
use redbx.Pages.Leaf.Rejoin.{rest_of, new_start, new_middle}
use redbx.Pages.Leaf.Sizes.{sizes, pointers-zero}
use redbx.Pages.Leaf.Halves.{Halves, IsLeaf-Halves}

module _ (fk fv : Option ℕ) (before : List Entry) (key value : List ℕ) (behind : List Entry) where
  -- The page after the two loops and the new count, before the moves.
  pub record IsEnlarged (page after : List ℕ) : Type 0 where
    pub halves :
        Halves fk fv before behind after
          (start_of fk fv before key value behind)
          (start_of fk fv before key value behind + length (flat (keys before)) + length key)
          (middle_of fk fv before key value behind)
          (middle_of fk fv before key value behind + length (flat (values before)) + length value)
    pub kind : At after 0 (leaf ∷ [])
    pub count : At after 2 (to_le 2 (length (all_of fk fv before key value behind)))
    pub size : length after ≡ length page

  abbrev pub grow : ℕ
  grow = pointer_size fk + pointer_size fv

  pub enlarged :
      (page : List ℕ)
      → IsLeaf page fk fv (rest_of fk fv before behind)
      → middle_of fk fv before key value behind
          + length (flat (values (all_of fk fv before key value behind)))
        < 2 ^ 32
      → (p1 p2 p3 : List ℕ) × (update_ends fk fv 0
            (length before)
            (ok (pos grow))
            (ok (pos (grow + length key)))
            page
          ≡ ok p1)
        × (update_ends fk fv
              (length before)
              (length behind)
              (ok (pos (grow + length key)))
              (ok (pos (grow + length key + length value)))
              p1
            ≡ ok p2)
        × (write 2 (to_le 2 (length (all_of fk fv before key value behind))) p2 ≡ ok p3)
        × IsEnlarged page p3
  enlarged page h small =
      let z = sizes fk fv before key value behind in
      let n = length (rest_of fk fv before behind) in
      let start = start_of fk fv before key value behind in
      let middle = middle_of fk fv before key value behind in
      let s = new_start fk fv before behind in
      let u = new_middle fk fv before behind in
      let i = length before in
      let two = length-to_le 2 n in
      let old = h.small in
      let kb = z.key_bytes in
      let vb = z.value_bytes in
      let rk = z.rest_key_bytes in
      let rv = z.rest_value_bytes in
      let lf = z.fewer in
      let dk = z.key_pointers in
      let dv = z.value_pointers in
      let pk = z.key_pointers_parts in
      let pv = z.value_pointers_parts in
      let np = z.key_pointers_next in
      let nv = z.value_pointers_next in
      let a = IsLeaf-Halves fk fv before behind h in
      let k0 = pointers-zero fk in
      let v0 = pointers-zero fv in
      let (p1, e1, r1) =
        update_ends-AllShifted fk fv n h.few (pos grow) (pos (grow + length key)) page 0 s start u
          middle before h.count (omega arith) (At-move (omega arith) a.keys_before)
          (At-move (omega arith) a.values_before) (pos-Shifts grow s start (omega arith))
          (pos-Shifts (grow + length key) u middle (omega arith)) (omega arith) (omega arith)
          (omega arith) (omega arith) in
      let i0k : pointers fk (0 + i) ≡ pointers fk i = ap (pointers fk) (omega arith) in
      let i0v : pointers fv (0 + i) ≡ pointers fv i = ap (pointers fv) (omega arith) in
      let i1k = pointers-add fk i (length behind) in
      let i1v = pointers-add fv i (length behind) in
      let lkb : length (column fk (s + length (flat (keys before))) (keys behind))
          ≡ pointers fk (length behind) =
        length-column fk _ (keys behind)
        ∙ ap (pointers fk) (length-map (λ (e : Entry). e.0) behind) in
      let lka : length (column fk start (keys before)) ≡ pointers fk i =
        length-column fk start (keys before)
        ∙ ap (pointers fk) (length-map (λ (e : Entry). e.0) before) in
      let lva : length (column fv middle (values before)) ≡ pointers fv i =
        length-column fv middle (values before)
        ∙ ap (pointers fv) (length-map (λ (e : Entry). e.1) before) in
      let (p2, e2, r2) =
        update_ends-AllShifted fk fv n h.few (pos (grow + length key))
          (pos (grow + length key + length value)) p1 i (s + length (flat (keys before)))
          (start + length (flat (keys before)) + length key) (u + length (flat (values before)))
          (middle + length (flat (values before)) + length value) behind
          (r1.only.low h.count (omega arith)) (omega arith)
          (r1.only.between a.keys_behind (omega arith) (omega arith))
          (r1.only.high a.values_behind (omega arith))
          (pos-Shifts (grow + length key) _ _ (omega arith))
          (pos-Shifts (grow + length key + length value) _ _ (omega arith)) (omega arith)
          (omega arith) (omega arith) (omega arith) in
      let w = length-to_le 2 (length (all_of fk fv before key value behind)) in
      let (p3, e3, count, o) =
        write-Only 2 (to_le 2 (length (all_of fk fv before key value behind))) p2
          (omega (arith, h.count.inside, r1.only.size, r2.only.size)) in
      (
        p1,
        p2,
        p3,
        e1,
        e2,
        e3,
        record {
          halves = record {
            keys_before =
                o.above (r2.only.low (At-move (omega arith) r1.key_ends) (omega arith))
                  (omega arith);
            keys_behind = o.above r2.key_ends (omega arith);
            values_before =
                o.above
                  (r2.only.between (At-move (omega arith) r1.value_ends) (omega arith)
                    (omega arith))
                  (omega arith);
            values_behind = o.above r2.value_ends (omega arith);
            key_data_before =
                o.above (r2.only.high (r1.only.high a.key_data_before (omega arith)) (omega arith))
                  (omega arith);
            key_data_behind =
                o.above (r2.only.high (r1.only.high a.key_data_behind (omega arith)) (omega arith))
                  (omega arith);
            value_data_before =
                o.above
                  (r2.only.high (r1.only.high a.value_data_before (omega arith)) (omega arith))
                  (omega arith);
            value_data_behind =
                o.above
                  (r2.only.high (r1.only.high a.value_data_behind (omega arith)) (omega arith))
                  (omega arith);
          };
          kind =
              o.below (r2.only.low (r1.only.low h.kind (omega arith)) (omega arith)) (omega arith);
          count = count;
          size = omega (arith, o.size, r1.only.size, r2.only.size);
        },
      )
