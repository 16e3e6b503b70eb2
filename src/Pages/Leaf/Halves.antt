-- ===== src/Pages/Leaf/Halves.antt =====
-- The parts of a leaf page of src/tree_store/btree_base.rs before and behind a place.
use redbx.Prelude.{ℕ, ◌+◌, ap, subst, List, ◌++◌, Option, arith, length, length-map}
use mathlib.Core.List.{map-append}
use redbx.Prelude.Memory.{At, At-left, At-right, At-move}
use redbx.Pages.Column.{pointers, flat, column}
use redbx.Pages.Ends.{length-column}
use redbx.Pages.Extend.{column-append, flat-append}
use redbx.Pages.Leaf.Layout.{Entry, keys, values, IsLeaf}
use redbx.Pages.Leaf.Rejoin.{rest_of, new_start, new_middle}

column_halves :
    (fixed : Option ℕ) {page : List ℕ} (at s : ℕ) (xs ys : List (List ℕ))
    → At page at (column fixed s (xs ++ ys))
    → At page at (column fixed s xs)
      × At page (at + pointers fixed (length xs)) (column fixed (s + length (flat xs)) ys)
column_halves fixed {page} at s xs ys stored =
    let both = subst (At page at) (column-append fixed s xs ys) stored in
    (
      At-left (column fixed s xs) (column fixed (s + length (flat xs)) ys) both,
      At-move (omega (arith, length-column fixed s xs))
          (At-right (column fixed s xs) (column fixed (s + length (flat xs)) ys) both),
    )

flat_halves :
    {page : List ℕ} (at : ℕ) (xs ys : List (List ℕ))
    → At page at (flat (xs ++ ys))
    → At page at (flat xs) × At page (at + length (flat xs)) (flat ys)
flat_halves {page} at xs ys stored =
    let both = subst (At page at) (flat-append xs ys) stored in
    (At-left (flat xs) (flat ys) both, At-right (flat xs) (flat ys) both)

module _ (fk fv : Option ℕ) (before behind : List Entry) where
  -- The parts of a page, with columns of end offsets that begin at `s` and `u` before a place and go on
  -- with `t` and `w` behind it.
  pub record Halves (page : List ℕ) (s t u w : ℕ) : Type 0 where
    pub keys_before : At page 4 (column fk s (keys before))
    pub keys_behind : At page (4 + pointers fk (length before)) (column fk t (keys behind))
    pub values_before :
        At page
          (4 + pointers fk (length (rest_of fk fv before behind)))
          (column fv u (values before))
    pub values_behind :
        At page
          (4 + pointers fk (length (rest_of fk fv before behind)) + pointers fv (length before))
          (column fv w (values behind))
    pub key_data_before : At page (new_start fk fv before behind) (flat (keys before))
    pub key_data_behind :
        At page (new_start fk fv before behind + length (flat (keys before))) (flat (keys behind))
    pub value_data_before : At page (new_middle fk fv before behind) (flat (values before))
    pub value_data_behind :
        At page
          (new_middle fk fv before behind + length (flat (values before)))
          (flat (values behind))

  pub IsLeaf-Halves :
      {page : List ℕ}
      → IsLeaf page fk fv (rest_of fk fv before behind)
      → Halves page
          (new_start fk fv before behind)
          (new_start fk fv before behind + length (flat (keys before)))
          (new_middle fk fv before behind)
          (new_middle fk fv before behind + length (flat (values before)))
  IsLeaf-Halves {page} h =
      let s = new_start fk fv before behind in
      let u = new_middle fk fv before behind in
      let n = length (rest_of fk fv before behind) in
      let ks = map-append (λ (e : Entry). e.0) before behind in
      let vs = map-append (λ (e : Entry). e.1) before behind in
      let (ka, kb) =
        column_halves fk 4 s (keys before) (keys behind)
          (subst (λ l. At page 4 (column fk s l)) ks h.key_ends) in
      let (va, vb) =
        column_halves fv (4 + pointers fk n) u (values before) (values behind)
          (subst (λ l. At page (4 + pointers fk n) (column fv u l)) vs h.value_ends) in
      let (dka, dkb) =
        flat_halves s (keys before) (keys behind) (subst (λ l. At page s (flat l)) ks h.key_data) in
      let (dva, dvb) =
        flat_halves u (values before) (values behind)
          (subst (λ l. At page u (flat l)) vs h.value_data) in
      record {
        keys_before = ka;
        keys_behind =
            At-move (ap (λ m. 4 + pointers fk m) (length-map (λ (e : Entry). e.0) before)) kb;
        values_before = va;
        values_behind =
            At-move
              (ap (λ m. 4 + pointers fk n + pointers fv m) (length-map (λ (e : Entry). e.1) before))
              vb;
        key_data_before = dka;
        key_data_behind = dkb;
        value_data_before = dva;
        value_data_behind = dvb;
      }
