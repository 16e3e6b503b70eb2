-- ===== src/Pages/Leaf/Split.antt =====
-- `build` and `build_split` of src/tree_store/btree_base.rs: what stands on the pages that they give.
use redbx.Prelude.{
  ℕ, zero, suc, ◌<◌, List, [], ◌∷◌, map, Option, none, some, arith, length, take, drop, length-take,
  length-drop,
}
use redbx.Pages.Column.{Fits}
use redbx.Pages.Ends.{upto-le}
use redbx.Pages.Extend.{pointers-le}
use redbx.Pages.Leaf.Layout.{Entry, keys, values}
use redbx.Pages.Leaf.Built.{IsContent}
use redbx.Pages.Leaf.BuildLaws.{upto-take, upto-drop}

Fits-take :
    (fixed : Option ℕ) (f : Entry → List ℕ) (n : ℕ) (es : List Entry)
    → Fits fixed (map f es)
    → Fits fixed (map f (take n es))
Fits-take none f zero es h = tt
Fits-take none f (suc n) [] h = tt
Fits-take none f (suc n) (e ∷ es) h = tt
Fits-take (some w) f zero es h = tt
Fits-take (some w) f (suc n) [] h = tt
Fits-take (some w) f (suc n) (e ∷ es) h = (h.0, Fits-take (some w) f n es h.1)

Fits-none : (xs : List (List ℕ)) → Fits none xs
Fits-none [] = tt
Fits-none (x ∷ xs) = tt

Fits-drop :
    (fixed : Option ℕ) (f : Entry → List ℕ) (n : ℕ) (es : List Entry)
    → Fits fixed (map f es)
    → Fits fixed (map f (drop n es))
Fits-drop none f n es h = Fits-none (map f (drop n es))
Fits-drop (some w) f zero es h = h
Fits-drop (some w) f (suc n) [] h = tt
Fits-drop (some w) f (suc n) (e ∷ es) h = Fits-drop (some w) f n es h.1

-- Both parts of the entries of a page can stand on a page.
module _ {fk fv : Option ℕ} (d : ℕ) (entries : List Entry) (c : IsContent fk fv entries) (l : 0 < d)
    (r : d < length entries) where
  pub IsContent-take : IsContent fk fv (take d entries)
  IsContent-take =
      let n = length-take d entries (omega arith) in
      let lk = upto-le (keys entries) d in
      let lv = upto-le (values entries) d in
      let pk = pointers-le fk {m = length (take d entries)} {n = length entries} (omega arith) in
      let pv = pointers-le fv {m = length (take d entries)} {n = length entries} (omega arith) in
      record {
        filled = omega arith;
        few = omega (arith, c.few);
        key_fits = Fits-take fk (λ e. e.0) d entries c.key_fits;
        value_fits = Fits-take fv (λ e. e.1) d entries c.value_fits;
        small =
            omega (arith, c.small, upto-take (λ e. e.0) d entries, upto-take (λ e. e.1) d entries);
      }

  pub IsContent-drop : IsContent fk fv (drop d entries)
  IsContent-drop =
      let n = length-drop d entries in
      let lk = upto-drop (λ e. e.0) d entries in
      let lv = upto-drop (λ e. e.1) d entries in
      let pk = pointers-le fk {m = length (drop d entries)} {n = length entries} (omega arith) in
      let pv = pointers-le fv {m = length (drop d entries)} {n = length entries} (omega arith) in
      record {
        filled = omega arith;
        few = omega (arith, c.few);
        key_fits = Fits-drop fk (λ e. e.0) d entries c.key_fits;
        value_fits = Fits-drop fv (λ e. e.1) d entries c.value_fits;
        small = omega (arith, c.small);
      }
