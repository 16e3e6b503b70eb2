-- ===== src/Pages/Leaf/Rejoin.antt =====
-- A leaf page of src/tree_store/btree_base.rs whose parts stand side by side.
use redbx.Prelude.{
  ℕ, ◌+◌, ◌^◌, ◌<◌, ◌≡◌, sym, ap, ◌∙◌, subst, List, [], ◌∷◌, ◌++◌, Option, arith, length,
  length-append, length-map,
}
use mathlib.Core.List.{map-append}
use redbx.Prelude.Bytes.{to_le}
use redbx.Prelude.Memory.{At, At-left, At-right, At-append, At-move}
use redbx.Pages.Column.{pointers, flat, column, Fits}
use redbx.Pages.Ends.{length-column}
use redbx.Pages.Extend.{column-append, flat-append, pointers-add}
use redbx.Pages.Leaf.Layout.{Entry, keys, values, section, leaf, IsLeaf}
use redbx.Pages.Leaf.Parts.{length-flat-append}

-- Two columns of end offsets make one.
column_joined :
    (fixed : Option ℕ) {page : List ℕ} (at s : ℕ) (xs ys : List (List ℕ))
    → At page at (column fixed s xs)
    → At page (at + length (column fixed s xs)) (column fixed (s + length (flat xs)) ys)
    → At page at (column fixed s (xs ++ ys))
column_joined fixed {page} at s xs ys a b =
    subst (At page at) (sym (column-append fixed s xs ys))
      (At-append (column fixed s xs) (column fixed (s + length (flat xs)) ys) a b)

flat_joined :
    {page : List ℕ} (at : ℕ) (xs ys : List (List ℕ))
    → At page at (flat xs)
    → At page (at + length (flat xs)) (flat ys)
    → At page at (flat (xs ++ ys))
flat_joined {page} at xs ys a b =
    subst (At page at) (sym (flat-append xs ys)) (At-append (flat xs) (flat ys) a b)

module _ (fk fv : Option ℕ) (before behind : List Entry) where
  abbrev pub rest_of : List Entry
  rest_of = before ++ behind

  abbrev pub new_start : ℕ
  new_start = section fk fv (length rest_of)

  abbrev pub new_middle : ℕ
  new_middle = new_start + length (flat (keys rest_of))

  abbrev pub ends_keys_before : List ℕ
  ends_keys_before = column fk new_start (keys before)

  abbrev pub ends_keys_behind : List ℕ
  ends_keys_behind = column fk (new_start + length (flat (keys before))) (keys behind)

  abbrev pub ends_values_before : List ℕ
  ends_values_before = column fv new_middle (values before)

  abbrev pub ends_values_behind : List ℕ
  ends_values_behind = column fv (new_middle + length (flat (values before))) (values behind)

  -- The parts in the order in which the moves bring them together.
  abbrev pub joined : List ℕ
  joined =
      (((ends_keys_before ++ (ends_keys_behind ++ ends_values_before))
          ++ (ends_values_behind ++ flat (keys before)))
        ++ (flat (keys behind) ++ flat (values before)))
      ++ flat (values behind)

  pub joined-IsLeaf :
      {page : List ℕ}
      → At page 0 (leaf ∷ [])
      → At page 2 (to_le 2 (length rest_of))
      → At page 4 joined
      → Fits fk (keys rest_of)
      → Fits fv (values rest_of)
      → length rest_of < 65536
      → new_middle + length (flat (values rest_of)) < 2 ^ 32
      → IsLeaf page fk fv rest_of
  joined-IsLeaf {page} kind count whole kf vf few small =
      let a = ends_keys_before in
      let b = ends_keys_behind ++ ends_values_before in
      let c = ends_values_behind ++ flat (keys before) in
      let d = flat (keys behind) ++ flat (values before) in
      let e = flat (values behind) in
      let abcd = At-left (((a ++ b) ++ c) ++ d) e whole in
      let abc = At-left ((a ++ b) ++ c) d abcd in
      let ab = At-left (a ++ b) c abc in
      let at_b = At-right a b ab in
      let at_c = At-right (a ++ b) c abc in
      let at_d = At-right ((a ++ b) ++ c) d abcd in
      let at_e = At-right (((a ++ b) ++ c) ++ d) e whole in
      let ks = map-append (λ (e : Entry). e.0) before behind in
      let vs = map-append (λ (e : Entry). e.1) before behind in
      let total = length-append before behind in
      let pk : pointers fk (length rest_of)
          ≡ pointers fk (length before) + pointers fk (length behind) =
        ap (pointers fk) total ∙ pointers-add fk (length before) (length behind) in
      let pv : pointers fv (length rest_of)
          ≡ pointers fv (length before) + pointers fv (length behind) =
        ap (pointers fv) total ∙ pointers-add fv (length before) (length behind) in
      let l1 : length ends_keys_before ≡ pointers fk (length before) =
        length-column fk new_start (keys before)
        ∙ ap (pointers fk) (length-map (λ (e : Entry). e.0) before) in
      let l2 : length ends_keys_behind ≡ pointers fk (length behind) =
        length-column fk _ (keys behind)
        ∙ ap (pointers fk) (length-map (λ (e : Entry). e.0) behind) in
      let l3 : length ends_values_before ≡ pointers fv (length before) =
        length-column fv new_middle (values before)
        ∙ ap (pointers fv) (length-map (λ (e : Entry). e.1) before) in
      let l4 : length ends_values_behind ≡ pointers fv (length behind) =
        length-column fv _ (values behind)
        ∙ ap (pointers fv) (length-map (λ (e : Entry). e.1) behind) in
      let sb = length-append ends_keys_behind ends_values_before in
      let sc = length-append ends_values_behind (flat (keys before)) in
      let sd = length-append (flat (keys behind)) (flat (values before)) in
      let sab = length-append a b in
      let sabc = length-append (a ++ b) c in
      let sabcd = length-append ((a ++ b) ++ c) d in
      let bytes : length (flat (keys rest_of))
          ≡ length (flat (keys before)) + length (flat (keys behind)) =
        ap (λ l. length (flat l)) ks ∙ length-flat-append (keys before) (keys behind) in
      record {
        kind = kind;
        count = count;
        few = few;
        key_ends =
            subst (λ l. At page 4 (column fk new_start l)) (sym ks)
              (column_joined fk 4 new_start (keys before) (keys behind) (At-left a b ab)
                (At-left ends_keys_behind ends_values_before at_b));
        value_ends =
            subst (λ l. At page (4 + pointers fk (length rest_of)) (column fv new_middle l))
              (sym vs)
              (column_joined fv (4 + pointers fk (length rest_of)) new_middle (values before)
                (values behind)
                (At-move (omega arith) (At-right ends_keys_behind ends_values_before at_b))
                (At-move (omega arith) (At-left ends_values_behind (flat (keys before)) at_c)));
        key_data =
            subst (λ l. At page new_start (flat l)) (sym ks)
              (flat_joined new_start (keys before) (keys behind)
                (At-move (omega arith) (At-right ends_values_behind (flat (keys before)) at_c))
                (At-move (omega arith) (At-left (flat (keys behind)) (flat (values before)) at_d)));
        value_data =
            subst (λ l. At page new_middle (flat l)) (sym vs)
              (flat_joined new_middle (values before) (values behind)
                (At-move (omega arith) (At-right (flat (keys behind)) (flat (values before)) at_d))
                (At-move (omega arith) at_e));
        key_fits = kf;
        value_fits = vf;
        small = small;
        enough = omega arith;
      }
