-- ===== src/Pages/Leaf/Around.antt =====
-- A leaf page of src/tree_store/btree_base.rs from the parts that `LeafMutator::insert` leaves side by
-- side.
use redbx.Prelude.{
  ℕ, ◌+◌, ◌^◌, ◌<◌, ◌≡◌, sym, ap, ◌∙◌, subst, List, [], ◌∷◌, ◌++◌, Option, arith, length,
  length-append, length-map,
}
use mathlib.Core.List.{map-append}
use redbx.Prelude.Bytes.{to_le}
use redbx.Prelude.Memory.{At, At-left, At-right, At-append, At-move}
use redbx.Pages.Column.{pointers, flat, column, Fits}
use redbx.Pages.Ends.{length-column}
use redbx.Pages.Extend.{column-append, flat-append, pointers-add}
use redbx.Pages.Leaf.Layout.{Entry, keys, values, leaf, IsLeaf}
use redbx.Pages.Leaf.Parts.{all_of, start_of, middle_of, column-later}
use redbx.Pages.Leaf.Sizes.{sizes}

-- A column from what stands before an entry, the entry's own end offset, and what stands behind it.
column_around :
    (fixed : Option ℕ) {page : List ℕ} (at s : ℕ) (xs : List (List ℕ)) (x : List ℕ)
    (ys : List (List ℕ))
    → At page at (column fixed s xs)
    → At page (at + pointers fixed (length xs)) (column fixed (s + length (flat xs)) (x ∷ []))
    → At page
        (at + pointers fixed (length xs + 1))
        (column fixed (s + length (flat xs) + length x) ys)
    → At page at (column fixed s (xs ++ (x ∷ ys)))
column_around fixed {page} at s xs x ys a b c =
    let here = s + length (flat xs) in
    let size = length-column fixed s xs in
    let one = length-column fixed here (x ∷ []) in
    let next = pointers-add fixed (length xs) 1 in
    let behind =
      At-append (column fixed here (x ∷ [])) (column fixed (here + length x) ys) b
        (At-move (omega arith) c) in
    subst (At page at) (sym (column-append fixed s xs (x ∷ ys))) (
      At-append (column fixed s xs) (column fixed here (x ∷ ys)) a (
        At-move (omega arith) (
          subst (At page (at + pointers fixed (length xs))) (sym (column-later fixed here x ys))
            behind)))

flat_around :
    {page : List ℕ} (at : ℕ) (xs : List (List ℕ)) (x : List ℕ) (ys : List (List ℕ))
    → At page at (flat xs)
    → At page (at + length (flat xs)) x
    → At page (at + length (flat xs) + length x) (flat ys)
    → At page at (flat (xs ++ (x ∷ ys)))
flat_around {page} at xs x ys a b c =
    subst (At page at) (sym (flat-append xs (x ∷ ys)))
      (At-append (flat xs) (x ++ flat ys) a (At-append x (flat ys) b c))

module _ (fk fv : Option ℕ) (before : List Entry) (key value : List ℕ) (behind : List Entry) where
  abbrev pub key_start_of : ℕ
  key_start_of = start_of fk fv before key value behind + length (flat (keys before))

  abbrev pub value_start_of : ℕ
  value_start_of = middle_of fk fv before key value behind + length (flat (values before))

  abbrev pub part_b : List ℕ
  part_b =
      column fk (key_start_of + length key) (keys behind)
      ++ column fv (middle_of fk fv before key value behind) (values before)

  abbrev pub part_c : List ℕ
  part_c = column fv (value_start_of + length value) (values behind) ++ flat (keys before)

  abbrev pub part_d : List ℕ
  part_d = flat (keys behind) ++ flat (values before)

  -- What stands from the end offset of the inserted key on.
  abbrev pub spread : List ℕ
  spread =
      column fk key_start_of (key ∷ [])
      ++ (part_b
          ++ (column fv value_start_of (value ∷ [])
              ++ (part_c ++ (key ++ (part_d ++ (value ++ flat (values behind)))))))

  pub spread-IsLeaf :
      {page : List ℕ}
      → At page 0 (leaf ∷ [])
      → At page 2 (to_le 2 (length (all_of fk fv before key value behind)))
      → At page 4 (column fk (start_of fk fv before key value behind) (keys before))
      → At page (4 + pointers fk (length before)) spread
      → Fits fk (keys (all_of fk fv before key value behind))
      → Fits fv (values (all_of fk fv before key value behind))
      → length (all_of fk fv before key value behind) < 65536
      → middle_of fk fv before key value behind
          + length (flat (values (all_of fk fv before key value behind)))
        < 2 ^ 32
      → IsLeaf page fk fv (all_of fk fv before key value behind)
  spread-IsLeaf {page} kind count first whole kf vf few small =
      let z = sizes fk fv before key value behind in
      let n = length (all_of fk fv before key value behind) in
      let start = start_of fk fv before key value behind in
      let middle = middle_of fk fv before key value behind in
      let x = column fk key_start_of (key ∷ []) in
      let y = column fv value_start_of (value ∷ []) in
      let e = flat (values behind) in
      let r7 = value ++ e in
      let r6 = part_d ++ r7 in
      let r5 = key ++ r6 in
      let r4 = part_c ++ r5 in
      let r3 = y ++ r4 in
      let r2 = part_b ++ r3 in
      let w2 = At-right x r2 whole in
      let w3 = At-right part_b r3 w2 in
      let w4 = At-right y r4 w3 in
      let w5 = At-right part_c r5 w4 in
      let w6 = At-right key r6 w5 in
      let w7 = At-right part_d r7 w6 in
      let b = At-left part_b r3 w2 in
      let c = At-left part_c r5 w4 in
      let d = At-left part_d r7 w6 in
      let kB = column fk (key_start_of + length key) (keys behind) in
      let vA = column fv middle (values before) in
      let vB = column fv (value_start_of + length value) (values behind) in
      let lx : length x ≡ pointers fk 1 = length-column fk key_start_of (key ∷ []) in
      let ly : length y ≡ pointers fv 1 = length-column fv value_start_of (value ∷ []) in
      let lkb : length kB ≡ pointers fk (length behind) =
        length-column fk _ (keys behind)
        ∙ ap (pointers fk) (length-map (λ (e : Entry). e.0) behind) in
      let lva : length vA ≡ pointers fv (length before) =
        length-column fv middle (values before)
        ∙ ap (pointers fv) (length-map (λ (e : Entry). e.1) before) in
      let lvb : length vB ≡ pointers fv (length behind) =
        length-column fv _ (values behind)
        ∙ ap (pointers fv) (length-map (λ (e : Entry). e.1) behind) in
      let mk : pointers fk (length (keys before)) ≡ pointers fk (length before) =
        ap (pointers fk) (length-map (λ (e : Entry). e.0) before) in
      let mv : pointers fv (length (values before)) ≡ pointers fv (length before) =
        ap (pointers fv) (length-map (λ (e : Entry). e.1) before) in
      let mk1 : pointers fk (length (keys before) + 1) ≡ pointers fk (length before + 1) =
        ap (λ m. pointers fk (m + 1)) (length-map (λ (e : Entry). e.0) before) in
      let mv1 : pointers fv (length (values before) + 1) ≡ pointers fv (length before + 1) =
        ap (λ m. pointers fv (m + 1)) (length-map (λ (e : Entry). e.1) before) in
      let sb = length-append kB vA in
      let sc = length-append vB (flat (keys before)) in
      let sd = length-append (flat (keys behind)) (flat (values before)) in
      let ak = pointers-add fk (length before) 1 in
      let av = pointers-add fv (length before) 1 in
      let pk = z.key_pointers_parts in
      let pv = z.value_pointers_parts in
      let kb = z.key_bytes in
      let ks = map-append (λ (e : Entry). e.0) before ((key, value) ∷ behind) in
      let vs = map-append (λ (e : Entry). e.1) before ((key, value) ∷ behind) in
      record {
        kind = kind;
        count = count;
        few = few;
        key_ends =
            subst (λ l. At page 4 (column fk start l)) (sym ks)
              (column_around fk 4 start (keys before) key (keys behind) first
                (At-move (omega arith) (At-left x r2 whole))
                (At-move (omega arith) (At-left kB vA b)));
        value_ends =
            subst (λ l. At page (4 + pointers fk n) (column fv middle l)) (sym vs)
              (column_around fv (4 + pointers fk n) middle (values before) value (values behind)
                (At-move (omega arith) (At-right kB vA b)) (At-move (omega arith) (At-left y r4 w3))
                (At-move (omega arith) (At-left vB (flat (keys before)) c)));
        key_data =
            subst (λ l. At page start (flat l)) (sym ks)
              (flat_around start (keys before) key (keys behind)
                (At-move (omega arith) (At-right vB (flat (keys before)) c))
                (At-move (omega arith) (At-left key r6 w5))
                (At-move (omega arith) (At-left (flat (keys behind)) (flat (values before)) d)));
        value_data =
            subst (λ l. At page middle (flat l)) (sym vs)
              (flat_around middle (values before) value (values behind)
                (At-move (omega arith) (At-right (flat (keys behind)) (flat (values before)) d))
                (At-move (omega arith) (At-left value e w7))
                (At-move (omega arith) (At-right value e w7)));
        key_fits = kf;
        value_fits = vf;
        small = small;
        enough = omega arith;
      }
