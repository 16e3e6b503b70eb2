-- ===== src/Pages/Leaf/Removed.antt =====
-- `LeafMutator::remove` of src/tree_store/btree_base.rs takes one entry off the page.
use redbx.Prelude.{
  ℕ, ◌+◌, ◌-◌, ◌*◌, ◌<◌, ◌≡◌, ap, ◌∙◌, List, ◌∷◌, ◌++◌, Option, some, arith, length, length-append,
  length-map, ok,
}
use redbx.Prelude.Word.{sub64}
use redbx.Prelude.Bytes.{to_le, write, length-to_le}
use redbx.Prelude.Memory.{At-append, At-move}
use redbx.Pages.Column.{pointers, flat}
use redbx.Pages.Ends.{length-column}
use redbx.Pages.Leaf.{key_start, key_end, value_start, value_end}
use redbx.Pages.Leaf.Layout.{Entry, keys, values, IsLeaf}
use redbx.Pages.Leaf.Reads.{
  leaf_of, new-Holds, key_start-IsLeaf, key_end-IsLeaf, value_start-IsLeaf, value_end-IsLeaf,
}
use redbx.Pages.Leaf.Mutator.{neg, pointer_size, update_ends, remove}
use redbx.Pages.Leaf.Close.{close_gaps}
use redbx.Pages.Leaf.Parts.{all_of, start_of, middle_of}
use redbx.Pages.Leaf.Rejoin.{
  new_start, new_middle, joined-IsLeaf, ends_keys_before, ends_keys_behind, ends_values_before,
  ends_values_behind,
}
use redbx.Pages.Leaf.Remove.{shifted}
use redbx.Pages.Leaf.Sizes.{sizes}
use redbx.Pages.Leaf.RemoveSteps.{
  remove_steps, copy_at, pointers_size, upto_before, upto_with, upto_last, rest-Fits,
}

module _ (fk fv : Option ℕ) (before : List Entry) (key value : List ℕ) (behind : List Entry) where
  -- The offsets that `remove` reads.
  record Offsets (page : List ℕ) : Type 0 where
    key_starts :
        key_start (leaf_of page fk fv (all_of fk fv before key value behind)) (length before)
        ≡ some (start_of fk fv before key value behind + length (flat (keys before)))
    key_ends :
        key_end (leaf_of page fk fv (all_of fk fv before key value behind)) (length before)
        ≡ some (start_of fk fv before key value behind + length (flat (keys before)) + length key)
    value_starts :
        value_start (leaf_of page fk fv (all_of fk fv before key value behind)) (length before)
        ≡ some (middle_of fk fv before key value behind + length (flat (values before)))
    value_ends :
        value_end (leaf_of page fk fv (all_of fk fv before key value behind)) (length before)
        ≡ some
            (middle_of fk fv before key value behind + length (flat (values before)) + length value)
    last_end :
        value_end
          (leaf_of page fk fv (all_of fk fv before key value behind))
          (length (all_of fk fv before key value behind) - 1)
        ≡ some (
            middle_of fk fv before key value behind
            + length (flat (values (all_of fk fv before key value behind))))

  offsets :
      {page : List ℕ} → IsLeaf page fk fv (all_of fk fv before key value behind) → Offsets page
  offsets {page} h =
      let all = all_of fk fv before key value behind in
      let n = (sizes fk fv before key value behind).n in
      let k1 = upto_before (λ (e : Entry). e.0) before (key, value) behind in
      let k2 = upto_with (λ (e : Entry). e.0) before (key, value) behind in
      let v1 = upto_before (λ (e : Entry). e.1) before (key, value) behind in
      let v2 = upto_with (λ (e : Entry). e.1) before (key, value) behind in
      let v3 = upto_last (λ (e : Entry). e.1) all (omega arith) in
      let i = length before in
      record {
        key_starts = key_start-IsLeaf all fk fv i h (omega arith) ∙ ap some (omega arith);
        key_ends = key_end-IsLeaf all fk fv i h (omega arith) ∙ ap some (omega arith);
        value_starts =
            value_start-IsLeaf all fk fv i h (omega arith) (omega arith) ∙ ap some (omega arith);
        value_ends = value_end-IsLeaf all fk fv i h (omega arith) ∙ ap some (omega arith);
        last_end =
            value_end-IsLeaf all fk fv (length all - 1) h (omega arith) ∙ ap some (omega arith);
      }

  -- On a leaf page with an entry and at least one other, `remove` of the entry's index returns, and
  -- the page is then a leaf page of the other entries, of the same size.
  pub remove-IsLeaf :
      (page : List ℕ)
      → IsLeaf page fk fv (before ++ ((key, value) ∷ behind))
      → 0 < length (before ++ behind)
      → (after : List ℕ) × (remove fk fv (length before) page ≡ ok after)
        × IsLeaf after fk fv (before ++ behind)
        × (length after ≡ length page)
  remove-IsLeaf page h others =
      let z = sizes fk fv before key value behind in
      let n = length (before ++ ((key, value) ∷ behind)) in
      let i = length before in
      let start = start_of fk fv before key value behind in
      let middle = middle_of fk fv before key value behind in
      let start' = new_start fk fv before behind in
      let middle' = new_middle fk fv before behind in
      let (p1, p2, p3, u1, u2, w, r) = shifted fk fv before key value behind page h in
      let a = r.around in
      let ekb = ends_keys_before fk fv before behind in
      let ekr = ends_keys_behind fk fv before behind in
      let evb = ends_values_before fk fv before behind in
      let evr = ends_values_behind fk fv before behind in
      let lka : length ekb ≡ pointers fk i =
        length-column fk start' (keys before)
        ∙ ap (pointers fk) (length-map (λ (e : Entry). e.0) before) in
      let lkb : length ekr ≡ pointers fk (length behind) =
        length-column fk _ (keys behind)
        ∙ ap (pointers fk) (length-map (λ (e : Entry). e.0) behind) in
      let lva : length evb ≡ pointers fv i =
        length-column fv middle' (values before)
        ∙ ap (pointers fv) (length-map (λ (e : Entry). e.1) before) in
      let lvb : length evr ≡ pointers fv (length behind) =
        length-column fv _ (values behind)
        ∙ ap (pointers fv) (length-map (λ (e : Entry). e.1) behind) in
      let l1 = length-append ekr evb in
      let l2 = length-append evr (flat (keys before)) in
      let l3 = length-append (flat (keys behind)) (flat (values before)) in
      let np = z.key_pointers_next in
      let nv = z.value_pointers_next in
      let pk = z.key_pointers_parts in
      let pv = z.value_pointers_parts in
      let dk = z.key_pointers in
      let dv = z.value_pointers in
      let kb = z.key_bytes in
      let vb = z.value_bytes in
      let rk = z.rest_key_bytes in
      let rv = z.rest_value_bytes in
      let ln = z.n in
      let lf = z.fewer in
      let small = h.small in
      let m1 = 4 + pointers fk (i + 1) in
      let m2 = 4 + pointers fk n + pointers fv (i + 1) in
      let m3 = start + length (flat (keys before)) + length key in
      let m4 = middle + length (flat (values before)) + length value in
      let (p4, p5, p6, p7, c1, c2, c3, c4, closed) =
        close_gaps p3 4 ekb (ekr ++ evb) (evr ++ flat (keys before))
          (flat (keys behind) ++ flat (values before)) (flat (values behind)) m1 m2 m3 m4
          a.keys_before (At-append ekr evb a.keys_behind (At-move (omega arith) a.values_before))
          (At-append evr (flat (keys before)) a.values_behind
            (At-move (omega arith) a.key_data_before))
          (At-append (flat (keys behind)) (flat (values before)) a.key_data_behind
            (At-move (omega arith) a.value_data_before))
          a.value_data_behind (omega arith) (omega arith) (omega arith) (omega arith) in
      let x = offsets h in
      let s1 = pointers_size fk (i + 1) in
      let s2 = pointers_size fk n in
      let s3 = pointers_size fv i in
      let s4 = pointers_size fk i in
      let s5 = pointers_size fv (i + 1) in
      let kf = start + length (flat (keys before)) in
      let vf = middle + length (flat (values before)) in
      let lv = middle + length (flat (values (before ++ ((key, value) ∷ behind)))) in
      let kp = pointer_size fk in
      let vp = pointer_size fv in
      let e1 = 4 + kp * n + vp * i in
      let b2 = 4 + kp * n + vp * (i + 1) in
      let t1 : sub64 e1 (4 + kp * (i + 1)) ≡ length (ekr ++ evb) = omega arith in
      let t2 : sub64 kf b2 ≡ length (evr ++ flat (keys before)) = omega arith in
      let t3 : sub64 vf (kf + length key) ≡ length (flat (keys behind) ++ flat (values before)) =
        omega arith in
      let rounds : n - (i + 1) ≡ length behind = omega arith in
      let one_less : n - 1 ≡ length (before ++ behind) = omega arith in
      (
        p7,
        remove_steps fk fv page i n kf (length key) vf (length value) lv (new-Holds h) (omega arith)
            (omega arith) h.few x.key_starts x.key_ends x.value_starts x.value_ends x.last_end
            (omega arith) (omega arith) u1
            (ap
                (λ m.
                  update_ends fk fv (i + 1) m (ok (neg (kp + vp + length key)))
                    (ok (neg (kp + vp + length key + length value))) p1)
                rounds
              ∙ u2)
            (ap (λ m. write 2 (to_le 2 m) p2) one_less ∙ w)
            (copy_at p3 (omega arith) (omega arith) (omega arith) c1)
            (copy_at p4 (omega arith) (omega arith) (omega arith) c2)
            (copy_at p5 (omega arith) (omega arith) (omega arith) c3)
            (copy_at p6 (omega arith) (omega arith) (omega arith) c4),
        joined-IsLeaf fk fv before behind (closed.below r.kind (omega arith))
            (closed.below r.count (omega (arith, length-to_le 2 (length (before ++ behind)))))
            closed.whole (rest-Fits fk (λ e. e.0) before (key, value) behind h.key_fits)
            (rest-Fits fv (λ e. e.1) before (key, value) behind h.value_fits) (omega (arith, h.few))
            (omega arith),
        omega (arith, closed.size, r.size),
      )
