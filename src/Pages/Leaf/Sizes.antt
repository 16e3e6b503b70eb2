-- ===== src/Pages/Leaf/Sizes.antt =====
-- The bytes of a leaf page of src/tree_store/btree_base.rs with an entry and without it.
use redbx.Prelude.{
  ℕ, ◌+◌, ◌≡◌, refl, ap, ◌∙◌, List, ◌∷◌, Option, none, some, arith, length, length-append,
}
use mathlib.Core.List.{map-append}
use redbx.Pages.Column.{pointers, flat}
use redbx.Pages.Extend.{pointers-add}
use redbx.Pages.Leaf.Layout.{Entry, keys, values}
use redbx.Pages.Leaf.Mutator.{pointer_size}
use redbx.Pages.Leaf.Parts.{all_of, length-flat_around, length-flat-append}
use redbx.Pages.Leaf.Rejoin.{rest_of}

pub pointers-zero : (fixed : Option ℕ) → pointers fixed 0 ≡ 0
pointers-zero none = refl
pointers-zero (some f) = refl

pub pointers-one : (fixed : Option ℕ) → pointers fixed 1 ≡ pointer_size fixed
pointers-one none = refl
pointers-one (some f) = refl

module _ (fk fv : Option ℕ) (before : List Entry) (key value : List ℕ) (behind : List Entry) where
  -- The sizes with the entry and without it.
  pub record Sizes : Type 0 where
    pub n : length (all_of fk fv before key value behind) ≡ length before + 1 + length behind
    pub fewer : length (rest_of fk fv before behind) ≡ length before + length behind
    pub key_bytes :
        length (flat (keys (all_of fk fv before key value behind)))
        ≡ length (flat (keys before)) + length key + length (flat (keys behind))
    pub value_bytes :
        length (flat (values (all_of fk fv before key value behind)))
        ≡ length (flat (values before)) + length value + length (flat (values behind))
    pub rest_key_bytes :
        length (flat (keys (rest_of fk fv before behind)))
        ≡ length (flat (keys before)) + length (flat (keys behind))
    pub rest_value_bytes :
        length (flat (values (rest_of fk fv before behind)))
        ≡ length (flat (values before)) + length (flat (values behind))
    pub key_pointers :
        pointers fk (length (all_of fk fv before key value behind))
        ≡ pointers fk (length (rest_of fk fv before behind)) + pointer_size fk
    pub value_pointers :
        pointers fv (length (all_of fk fv before key value behind))
        ≡ pointers fv (length (rest_of fk fv before behind)) + pointer_size fv
    pub key_pointers_parts :
        pointers fk (length (all_of fk fv before key value behind))
        ≡ pointers fk (length before + 1) + pointers fk (length behind)
    pub value_pointers_parts :
        pointers fv (length (all_of fk fv before key value behind))
        ≡ pointers fv (length before + 1) + pointers fv (length behind)
    pub key_pointers_next :
        pointers fk (length before + 1) ≡ pointers fk (length before) + pointer_size fk
    pub value_pointers_next :
        pointers fv (length before + 1) ≡ pointers fv (length before) + pointer_size fv

  pub sizes : Sizes
  sizes =
      let all = length-append before ((key, value) ∷ behind) in
      let rest = length-append before behind in
      let n : length (all_of fk fv before key value behind) ≡ length before + 1 + length behind =
        omega arith in
      let one_more : length (all_of fk fv before key value behind)
          ≡ length (rest_of fk fv before behind) + 1 =
        omega arith in
      record {
        n = n;
        fewer = rest;
        key_bytes =
            ap (λ l. length (flat l))
              (map-append (λ (e : Entry). e.0) before ((key, value) ∷ behind))
            ∙ length-flat_around (keys before) key (keys behind);
        value_bytes =
            ap (λ l. length (flat l))
              (map-append (λ (e : Entry). e.1) before ((key, value) ∷ behind))
            ∙ length-flat_around (values before) value (values behind);
        rest_key_bytes =
            ap (λ l. length (flat l)) (map-append (λ (e : Entry). e.0) before behind)
            ∙ length-flat-append (keys before) (keys behind);
        rest_value_bytes =
            ap (λ l. length (flat l)) (map-append (λ (e : Entry). e.1) before behind)
            ∙ length-flat-append (values before) (values behind);
        key_pointers =
            ap (pointers fk) one_more
            ∙ omega
                (arith, pointers-add fk (length (rest_of fk fv before behind)) 1, pointers-one fk);
        value_pointers =
            ap (pointers fv) one_more
            ∙ omega
                (arith, pointers-add fv (length (rest_of fk fv before behind)) 1, pointers-one fv);
        key_pointers_parts =
            ap (pointers fk) n ∙ pointers-add fk (length before + 1) (length behind);
        value_pointers_parts =
            ap (pointers fv) n ∙ pointers-add fv (length before + 1) (length behind);
        key_pointers_next = omega (arith, pointers-add fk (length before) 1, pointers-one fk);
        value_pointers_next = omega (arith, pointers-add fv (length before) 1, pointers-one fv);
      }
