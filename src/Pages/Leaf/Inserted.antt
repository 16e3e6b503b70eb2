-- ===== src/Pages/Leaf/Inserted.antt =====
-- `LeafMutator::insert` of src/tree_store/btree_base.rs puts an entry between those of the page.
use redbx.Prelude.{
  ◌++◌, true, ℕ, ◌+◌, ◌-◌, ◌^◌, ◌≤◌, ◌<◌, ◌≡◌, refl, sym, ap, ◌∙◌, List, [], ◌∷◌, Option, some,
  arith, length, length-map, ok, false,
}
use redbx.Prelude.Word.{sub64}
use redbx.PageNumber.{PageNumber}
use redbx.Prelude.Bytes.{to_le, write, length-to_le}
use redbx.Prelude.Memory.{At-move}
use redbx.Pages.Column.{pointers, flat, Fits, write_end}
use redbx.Pages.Ends.{length-column}
use redbx.Pages.Leaf.{key_start, key_end, value_start, value_end}
use redbx.Pages.Leaf.Layout.{Entry, keys, values, IsLeaf}
use redbx.Pages.Leaf.Reads.{
  leaf_of, new-Holds, key_start-IsLeaf, key_end-IsLeaf, value_start-IsLeaf, value_end-IsLeaf,
}
use redbx.Pages.Leaf.Mutator.{pos, pointer_size, update_ends}
use redbx.Pages.Leaf.Insert.{insert, sufficient_insert_inplace_space}
use redbx.Pages.Leaf.Parts.{all_of, start_of, middle_of}
use redbx.Pages.Leaf.Rejoin.{rest_of, new_middle}
use redbx.Pages.Leaf.Sizes.{sizes}
use redbx.Pages.Leaf.RemoveSteps.{pointers_size, copy_at, upto_last}
use redbx.Pages.Leaf.Open.{open_gaps}
use redbx.Pages.Leaf.Enlarge.{grow, enlarged}
use redbx.Pages.Leaf.Around.{key_start_of, value_start_of, spread-IsLeaf}
use redbx.Pages.Leaf.InsertSteps.{insert_steps, sufficient_room}
use redbx.Pages.Leaf.Places.{
  from3, from4, b, c, d, places, opening, to1, to2, to3, to4, entries-Fits, upto_here,
}

module _ (fk fv : Option ℕ) (before : List Entry) (key value : List ℕ) (behind : List Entry) where
  -- The offsets that `insert` reads.
  record Offsets (page : List ℕ) : Type 0 where
    last_key :
        key_end
          (leaf_of page fk fv (rest_of fk fv before behind))
          (sub64 (length (rest_of fk fv before behind)) 1)
        ≡ some (new_middle fk fv before behind)
    last_value :
        value_end
          (leaf_of page fk fv (rest_of fk fv before behind))
          (sub64 (length (rest_of fk fv before behind)) 1)
        ≡ some (from4 fk fv before key value behind + length (flat (values behind)))
    key_here :
        key_start (leaf_of page fk fv (rest_of fk fv before behind)) (length before)
        ≡ some (from3 fk fv before key value behind)
    value_here :
        value_start (leaf_of page fk fv (rest_of fk fv before behind)) (length before)
        ≡ some (from4 fk fv before key value behind)

  offsets :
      {page : List ℕ}
      → IsLeaf page fk fv (rest_of fk fv before behind)
      → 0 < length (rest_of fk fv before behind)
      → Offsets page
  offsets {page} h some_pair =
      let rest = rest_of fk fv before behind in
      let n = length rest in
      let rv = (sizes fk fv before key value behind).rest_value_bytes in
      let rn = (sizes fk fv before key value behind).fewer in
      let few = h.few in
      let k1 = upto_here (λ (e : Entry). e.0) before behind in
      let v1 = upto_here (λ (e : Entry). e.1) before behind in
      let v2 = upto_last (λ (e : Entry). e.1) rest some_pair in
      let k2 = upto_last (λ (e : Entry). e.0) rest some_pair in
      let last : sub64 n 1 ≡ n - 1 = omega arith in
      let leaf = leaf_of page fk fv rest in
      record {
        last_key =
            ap (key_end leaf) last
            ∙ key_end-IsLeaf rest fk fv (n - 1) h (omega arith)
            ∙ ap some (omega arith);
        last_value =
            ap (value_end leaf) last
            ∙ value_end-IsLeaf rest fk fv (n - 1) h (omega arith)
            ∙ ap some (omega arith);
        key_here =
            key_start-IsLeaf rest fk fv (length before) h (omega arith) ∙ ap some (omega arith);
        value_here =
            value_start-IsLeaf rest fk fv (length before) h some_pair (omega arith)
            ∙ ap some (omega arith);
      }

  -- With room for the pair, in the sizes of the page that is to be.
  inserted-IsLeaf :
      (page : List ℕ)
      → IsLeaf page fk fv (rest_of fk fv before behind)
      → 0 < length (rest_of fk fv before behind)
      → length (rest_of fk fv before behind) + 1 < 65536
      → Fits fk (key ∷ [])
      → Fits fv (value ∷ [])
      → middle_of fk fv before key value behind
          + length (flat (values (all_of fk fv before key value behind)))
        ≤ length page
      → length page < 2 ^ 32
      → (after : List ℕ) × (insert fk fv (length before) false key value page ≡ ok after)
        × IsLeaf after fk fv (all_of fk fv before key value behind)
        × (length after ≡ length page)
  inserted-IsLeaf page h some_pair few kf vf room page_small =
      let z = sizes fk fv before key value behind in
      let n = length (rest_of fk fv before behind) in
      let i = length before in
      let (q1, q2, q3, u1, u2, w, r) =
        enlarged fk fv before key value behind page h (omega arith) in
      let p = places fk fv before key value behind in
      let bs = p.b_size in
      let cs = p.c_size in
      let ds = p.d_size in
      let ks = p.keys_split in
      let vs = p.values_split in
      let an = z.n in
      let rn = z.fewer in
      let kb = z.key_bytes in
      let vb = z.value_bytes in
      let rk = z.rest_key_bytes in
      let rv = z.rest_value_bytes in
      let dk = z.key_pointers in
      let dv = z.value_pointers in
      let rs = r.size in
      let (p4, p5, p6, p7, p8, p9, p10, p11, c1, w1, c2, w2, c3, w3, c4, w4, o) =
        open_gaps fk fv q3 (b fk fv before key value behind) (c fk fv before key value behind)
          (d fk fv before key value behind) (flat (values behind)) key value
          (key_start_of fk fv before key value behind)
          (value_start_of fk fv before key value behind) (to1 fk fv before key value behind)
          (to2 fk fv before key value behind) (to3 fk fv before key value behind)
          (to4 fk fv before key value behind) (opening fk fv before key value behind r)
          (omega arith) refl refl refl (omega arith) (omega arith) (omega arith) (omega arith)
          (omega arith) (omega arith) in
      let s1 = pointers_size fk n in
      let s2 = pointers_size fv i in
      let s3 = pointers_size fk i in
      let x = offsets h some_pair in
      let d1 : (from4 fk fv before key value behind)
            + pointer_size fk
            + pointer_size fv
            + length key
            + length value
          ≡ (to4 fk fv before key value behind) =
        omega arith in
      let d1' : value_start_of fk fv before key value behind + length value
          ≡ (from4 fk fv before key value behind)
            + pointer_size fk
            + pointer_size fv
            + length key
            + length value =
        omega arith in
      let d3' : key_start_of fk fv before key value behind + length key
          ≡ (to3 fk fv before key value behind) =
        omega arith in
      let rounds : n - i ≡ length behind = omega arith in
      let one_more : n + 1 ≡ length (all_of fk fv before key value behind) = omega arith in
      (
        p11,
        insert_steps fk fv page i n (new_middle fk fv before behind)
            (from3 fk fv before key value behind)
            (from4 fk fv before key value behind + length (flat (values behind)))
            (from4 fk fv before key value behind)
            ((to4 fk fv before key value behind) - length value) (to3 fk fv before key value behind)
            ((to3 fk fv before key value behind) - length key) (to2 fk fv before key value behind)
            ((to2 fk fv before key value behind) - pointer_size fv)
            (to1 fk fv before key value behind)
            ((to1 fk fv before key value behind) - pointer_size fk) key value (new-Holds h)
            (omega arith) few x.last_key x.last_value x.key_here x.value_here (omega arith) u1
            (ap
                (λ m.
                  update_ends fk fv i m (ok (pos (grow fk fv before key value behind + length key)))
                    (ok (pos (grow fk fv before key value behind + length key + length value))) q1)
                rounds
              ∙ u2)
            (ap (λ m. write 2 (to_le 2 m) q2) one_more ∙ w) (omega arith) (omega arith)
            (omega arith) (omega arith) (omega arith) (omega arith) (omega arith) (omega arith)
            (omega arith) (copy_at q3 refl (omega arith) d1 c1) w1
            (copy_at p5 refl (omega arith) refl c2) w2
            (copy_at p7 (omega arith) (omega arith) refl c3)
            (ap (λ m. write_end fv ((to2 fk fv before key value behind) - pointer_size fv) m p8)
                (sym d1')
              ∙ w3)
            (copy_at p9 (omega arith) (omega arith) refl c4)
            (ap (λ m. write_end fk ((to1 fk fv before key value behind) - pointer_size fk) m p10)
                (sym d3')
              ∙ w4),
        spread-IsLeaf fk fv before key value behind (o.kept r.kind (omega arith))
            (o.kept r.count
              (omega (arith, length-to_le 2 (length (all_of fk fv before key value behind)))))
            (o.kept r.halves.keys_before (
              omega (
                arith,
                length-column fk (start_of fk fv before key value behind) (keys before),
                ap (pointers fk) (length-map (λ (e : Entry). e.0) before),
              )))
            (At-move (omega arith) o.whole)
            (entries-Fits fk (λ e. e.0) before (key, value) behind h.key_fits kf)
            (entries-Fits fv (λ e. e.1) before (key, value) behind h.value_fits vf) (omega arith)
            (omega arith),
        omega (arith, o.size),
      )

  -- On a leaf page of fewer than 2^32 bytes, with at least one and fewer than 65535 entries, where
  -- `sufficient_insert_inplace_space` says yes to a new pair of the fixed sizes, `insert` of the pair
  -- returns, and the page is then a leaf page of the entries with the pair in its place, of the same
  -- size.
  pub insert-IsLeaf :
      (number : PageNumber) (page : List ℕ)
      → IsLeaf page fk fv (before ++ behind)
      → 0 < length (before ++ behind)
      → length (before ++ behind) + 1 < 65536
      → Fits fk (key ∷ [])
      → Fits fv (value ∷ [])
      → length page < 2 ^ 32
      → sufficient_insert_inplace_space fk fv number page (length before) false key value ≡ ok true
      → (after : List ℕ) × (insert fk fv (length before) false key value page ≡ ok after)
        × IsLeaf after fk fv (before ++ ((key, value) ∷ behind))
        × (length after ≡ length page)
  insert-IsLeaf number page h some_pair few kf vf small says =
      let z = sizes fk fv before key value behind in
      let x = offsets h some_pair in
      let inside = h.value_data.inside in
      let kb = z.key_bytes in
      let vb = z.value_bytes in
      let rk = z.rest_key_bytes in
      let rv = z.rest_value_bytes in
      let dk = z.key_pointers in
      let dv = z.value_pointers in
      let l =
        sufficient_room fk fv number page (length before) (length (before ++ behind)) _ key value
          (new-Holds h) x.last_value (omega arith) small says in
      inserted-IsLeaf page h some_pair few kf vf (omega arith) small
