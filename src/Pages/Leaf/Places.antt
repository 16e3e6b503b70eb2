-- ===== src/Pages/Leaf/Places.antt =====
-- Where the parts of a leaf page of src/tree_store/btree_base.rs stand before and after the moves of
-- `LeafMutator::insert`.
use redbx.Prelude.{
  ℕ, ◌+◌, ◌≡◌, refl, sym, ap, ◌∙◌, subst, List, [], ◌∷◌, ◌++◌, map, Option, none, some, arith,
  length, length-append, length-map,
}
use mathlib.Core.List.{map-append}
use redbx.Prelude.Memory.{At-append, At-move}
use redbx.Pages.Column.{pointers, flat, column, upto, Fits}
use redbx.Pages.Ends.{length-column}
use redbx.Pages.Extend.{pointers-add}
use redbx.Pages.Leaf.Layout.{Entry, keys, values}
use redbx.Pages.Leaf.Mutator.{pointer_size}
use redbx.Pages.Leaf.Parts.{middle_of}
use redbx.Pages.Leaf.Rejoin.{rest_of, new_start, new_middle}
use redbx.Pages.Leaf.Sizes.{sizes}
use redbx.Pages.Leaf.Open.{Opening}
use redbx.Pages.Leaf.Enlarge.{IsEnlarged}
use redbx.Pages.Leaf.Around.{key_start_of, value_start_of, part_b, part_c, part_d}

-- A pair of the fixed sizes keeps those of the entries.
with-Fits :
    (fixed : Option ℕ) (xs : List (List ℕ)) (x : List ℕ) (ys : List (List ℕ))
    → Fits fixed (xs ++ ys)
    → Fits fixed (x ∷ [])
    → Fits fixed (xs ++ (x ∷ ys))
with-Fits none [] x ys h g = tt
with-Fits none (y ∷ xs) x ys h g = tt
with-Fits (some f) [] x ys h g = (g.0, h)
with-Fits (some f) (y ∷ xs) x ys h g = (h.0, with-Fits (some f) xs x ys h.1 g)

pub entries-Fits :
    (fixed : Option ℕ) (f : Entry → List ℕ) (before : List Entry) (e : Entry) (behind : List Entry)
    → Fits fixed (map f (before ++ behind))
    → Fits fixed (f e ∷ [])
    → Fits fixed (map f (before ++ (e ∷ behind)))
entries-Fits fixed f before e behind h g =
    subst (Fits fixed) (sym (map-append f before (e ∷ behind))) (
      with-Fits fixed (map f before) (f e) (map f behind)
        (subst (Fits fixed) (map-append f before behind) h) g)

-- The bytes of the entries before a place.
pub upto_here :
    (f : Entry → List ℕ) (before behind : List Entry)
    → upto (length before) (map f (before ++ behind)) ≡ length (flat (map f before))
upto_here f [] behind = refl
upto_here f (b ∷ before) behind =
    omega (arith, upto_here f before behind, length-append (f b) (flat (map f before)))

module _ (fk fv : Option ℕ) (before : List Entry) (key value : List ℕ) (behind : List Entry) where
  abbrev pub from1 : ℕ
  from1 = 4 + pointers fk (length before)

  abbrev pub from2 : ℕ
  from2 = 4 + pointers fk (length (rest_of fk fv before behind)) + pointers fv (length before)

  abbrev pub from3 : ℕ
  from3 = new_start fk fv before behind + length (flat (keys before))

  abbrev pub from4 : ℕ
  from4 = new_middle fk fv before behind + length (flat (values before))

  abbrev pub b : List ℕ
  b = part_b fk fv before key value behind

  abbrev pub c : List ℕ
  c = part_c fk fv before key value behind

  abbrev pub d : List ℕ
  d = part_d fk fv before key value behind

  -- The sizes of the parts, and so where they stand.
  pub record Places : Type 0 where
    pub b_size : length b ≡ pointers fk (length behind) + pointers fv (length before)
    pub c_size : length c ≡ pointers fv (length behind) + length (flat (keys before))
    pub d_size : length d ≡ length (flat (keys behind)) + length (flat (values before))
    pub keys_split :
        pointers fk (length (rest_of fk fv before behind))
        ≡ pointers fk (length before) + pointers fk (length behind)
    pub values_split :
        pointers fv (length (rest_of fk fv before behind))
        ≡ pointers fv (length before) + pointers fv (length behind)

  pub places : Places
  places =
      let z = sizes fk fv before key value behind in
      let few = z.fewer in
      let key_map = λ (l : List Entry). ap (pointers fk) (length-map (λ (e : Entry). e.0) l) in
      let value_map = λ (l : List Entry). ap (pointers fv) (length-map (λ (e : Entry). e.1) l) in
      record {
        b_size =
            length-append (column fk _ (keys behind)) (column fv _ (values before))
            ∙ omega (
              arith,
              length-column fk (key_start_of fk fv before key value behind + length key)
                  (keys behind),
              key_map behind,
              length-column fv (middle_of fk fv before key value behind) (values before),
              value_map before,
            );
        c_size =
            length-append (column fv _ (values behind)) (flat (keys before))
            ∙ omega (
              arith,
              length-column fv (value_start_of fk fv before key value behind + length value)
                  (values behind),
              value_map behind,
            );
        d_size = length-append (flat (keys behind)) (flat (values before));
        keys_split = ap (pointers fk) few ∙ pointers-add fk (length before) (length behind);
        values_split = ap (pointers fv) few ∙ pointers-add fv (length before) (length behind);
      }

  -- The parts that move, as they stand after the two loops.
  pub opening :
      {page after : List ℕ}
      → IsEnlarged fk fv before key value behind page after
      → Opening after from1 from2 from3 from4 b c d (flat (values behind))
  opening {page} {after} r =
      let z = sizes fk fv before key value behind in
      let p = places in
      let bs = p.b_size in
      let cs = p.c_size in
      let ds = p.d_size in
      let ks = p.keys_split in
      let vs = p.values_split in
      let rk = z.rest_key_bytes in
      let a = r.halves in
      let lk =
        length-column fk (key_start_of fk fv before key value behind + length key) (keys behind)
        ∙ ap (pointers fk) (length-map (λ (e : Entry). e.0) behind) in
      let lv =
        length-column fv (value_start_of fk fv before key value behind + length value)
          (values behind)
        ∙ ap (pointers fv) (length-map (λ (e : Entry). e.1) behind) in
      record {
        first =
            At-append (column fk _ (keys behind)) (column fv _ (values before)) a.keys_behind
              (At-move (omega arith) a.values_before);
        second =
            At-append (column fv _ (values behind)) (flat (keys before)) a.values_behind
              (At-move (omega arith) a.key_data_before);
        third =
            At-append (flat (keys behind)) (flat (values before)) a.key_data_behind
              (At-move (omega arith) a.value_data_before);
        fourth = a.value_data_behind;
        order1 = omega arith;
        order2 = omega arith;
        order3 = omega arith;
      }

  abbrev pub to1 : ℕ
  to1 = from1 + pointer_size fk

  abbrev pub to2 : ℕ
  to2 = to1 + length b + pointer_size fv

  abbrev pub to3 : ℕ
  to3 = to2 + length c + length key

  abbrev pub to4 : ℕ
  to4 = to3 + length d + length value
