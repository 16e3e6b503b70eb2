-- ===== src/Pages/Branch/Split.antt =====
-- `build_split` of `BranchBuilder` of src/tree_store/btree_base.rs gives two branch pages.
use redbx.Prelude.{
  ℕ, zero, suc, ◌+◌, ◌-◌, ◌/◌, ◌≤◌, ◌≡◌, refl, sym, ap, ◌∙◌, subst, true, List, [], ◌∷◌, Option,
  none, some, arith, length, length-append, Outcome, ok, ◌>>=◌, get_elem?, take, drop,
  get_elem?-some, length-take, length-drop, take_all, ◌==◌, leb,
}
use redbx.Prelude.Word.{sub64}
use redbx.PageNumber.{PageNumber}
use redbx.Pages.Column.{flat, Fits}
use redbx.Pages.Extend.{pointers-le}
use redbx.Pages.Branch.Raw.{
  Child, BranchBuilder, required_bytes, PageMut, fill_page, key_bytes, split_done, split_rest,
  build_split,
}
use redbx.Pages.Branch.Layout.{AllChildren}
use redbx.Pages.Branch.Built.{IsContent}
use redbx.Pages.Branch.Store.{Stores, IsReady, IsEnough, fill_page-Stores, key_bytes-flat}

flat_around :
    (keys : List (List ℕ)) (d : ℕ) {key : List ℕ}
    → get_elem? keys d ≡ some key
    → length (flat keys)
      ≡ length (flat (take d keys)) + length key + length (flat (drop (d + 1) keys))
flat_around [] d e = cc
flat_around (k ∷ keys) zero {key} e =
    let same : k ≡ key = cc in
    let n = ap length same in
    let up : drop (0 + 1) (k ∷ keys) ≡ keys = refl in omega (arith, length-append k (flat keys))
flat_around (k ∷ keys) (suc d) {key} e =
    let up : suc d + 1 ≡ suc (d + 1) = omega arith in
    let rest = ap (λ m. length (flat (drop m (k ∷ keys)))) up in
    omega (
      arith,
      flat_around keys d e,
      length-append k (flat keys),
      length-append k (flat (take d keys)),
    )

Fits-take : (fk : Option ℕ) (n : ℕ) (xs : List (List ℕ)) → Fits fk xs → Fits fk (take n xs)
Fits-take none zero xs f = tt
Fits-take none (suc n) [] f = tt
Fits-take none (suc n) (x ∷ xs) f = tt
Fits-take (some w) zero xs f = tt
Fits-take (some w) (suc n) [] f = tt
Fits-take (some w) (suc n) (x ∷ xs) f = (f.0, Fits-take (some w) n xs f.1)

Fits-drop : (fk : Option ℕ) (n : ℕ) (xs : List (List ℕ)) → Fits fk xs → Fits fk (drop n xs)
Fits-drop none zero xs f = f
Fits-drop none (suc n) [] f = tt
Fits-drop none (suc n) (x ∷ []) f = Fits-drop none n [] tt
Fits-drop none (suc n) (x ∷ y ∷ xs) f = Fits-drop none n (y ∷ xs) tt
Fits-drop (some w) zero xs f = f
Fits-drop (some w) (suc n) [] f = tt
Fits-drop (some w) (suc n) (x ∷ xs) f = Fits-drop (some w) n xs f.1

AllChildren-drop : (n : ℕ) (cs : List Child) → AllChildren cs → AllChildren (drop n cs)
AllChildren-drop zero cs a = a
AllChildren-drop (suc n) [] a = tt
AllChildren-drop (suc n) (c ∷ cs) a = AllChildren-drop n cs a.1

-- The pages of a split: the first has the keys before the one in the middle, with the children around
-- them, and the second those behind it. The key in the middle divides them and is on neither page.
pub record IsSplit (b : BranchBuilder) (first key second : List ℕ) : Type 0 where
  pub division_key : get_elem? b.keys (length b.keys / 2) ≡ some key
  pub first_page :
      Stores first b.fixed_key_size
        (take (length b.keys / 2) b.keys)
        (take (length b.keys / 2 + 1) b.children)
  pub second_page :
      Stores second b.fixed_key_size
        (drop (length b.keys / 2 + 1) b.keys)
        (drop (length b.keys / 2 + 1) b.children)

-- Both halves can stand on a page.
module _ (b : BranchBuilder) (r : IsReady b) (three : 3 ≤ length b.keys) {key : List ℕ}
    (middle : get_elem? b.keys (length b.keys / 2) ≡ some key) where
  first-IsContent : IsContent b.fixed_key_size (take (length b.keys / 2) b.keys) b.children
  first-IsContent =
      let c = r.content in
      let d = length b.keys / 2 in
      let n = length-take d b.keys (omega arith) in
      let p =
        pointers-le b.fixed_key_size {m = length (take d b.keys)} {n = length b.keys}
          (omega arith) in
      record {
        filled = omega arith;
        few = omega (arith, c.few);
        key_fits = Fits-take b.fixed_key_size d b.keys c.key_fits;
        enough = omega (arith, r.one_more);
        fits = c.fits;
        small = omega (arith, c.small, flat_around b.keys d middle);
      }

  second-IsContent :
      IsContent b.fixed_key_size
        (drop (length b.keys / 2 + 1) b.keys)
        (drop (length b.keys / 2 + 1) b.children)
  second-IsContent =
      let c = r.content in
      let d = length b.keys / 2 in
      let n = length-drop (d + 1) b.keys in
      let m = length-drop (d + 1) b.children in
      let p =
        pointers-le b.fixed_key_size {m = length (drop (d + 1) b.keys)} {n = length b.keys}
          (omega arith) in
      record {
        filled = omega arith;
        few = omega (arith, c.few);
        key_fits = Fits-drop b.fixed_key_size (d + 1) b.keys c.key_fits;
        enough = omega (arith, r.one_more);
        fits = AllChildren-drop (d + 1) b.children c.fits;
        small = omega (arith, c.small, flat_around b.keys d middle);
      }

module _ {State : Type 0} (allocate : State → ℕ → Option (PageMut × State))
    (enough : IsEnough allocate) where
  pub data SplitBuilt (b : BranchBuilder)
      : Outcome (Option ((PageMut × List ℕ × PageMut) × State)) → Type 0 where
    not_split : (state : State) (n : ℕ) → allocate state n ≡ none → SplitBuilt b (ok none)
    split :
        (number other : PageNumber) (first key second : List ℕ) (next : State)
        → IsSplit b first key second
        → SplitBuilt b (ok (some (((number, first), key, (other, second)), next)))

  module _ (b : BranchBuilder) (r : IsReady b) (three : 3 ≤ length b.keys) {key : List ℕ}
      (middle : get_elem? b.keys (length b.keys / 2) ≡ some key) where
    abbrev at : ℕ
    at = length b.keys / 2

    second_page :
        (number : PageNumber) (first : List ℕ) (next : State) (size : ℕ)
        (o : Option (PageMut × State))
        → Stores first b.fixed_key_size (take at b.keys) (take (at + 1) b.children)
        → length (flat (drop (at + 1) b.keys)) ≡ size
        → allocate next (required_bytes (length b.keys - at - 1) size b.fixed_key_size) ≡ o
        → SplitBuilt b (
            fill_page allocate b.fixed_key_size
              (length b.keys - at - 1)
              (drop (at + 1) b.keys)
              (drop (at + 1) b.children)
              o
            >>= split_done allocate (number, first) key)
    second_page number first next size none s e f = not_split next _ f
    second_page number first next size (some (page, last)) s e f =
        let n : length (drop (at + 1) b.keys) ≡ length b.keys - at - 1 =
          length-drop (at + 1) b.keys ∙ omega arith in
        let (bytes, g, stored) =
          fill_page-Stores allocate enough b.fixed_key_size (length b.keys - at - 1) size
            (drop (at + 1) b.keys) (drop (at + 1) b.children) next
            (second-IsContent b r three middle) n e f in
        let all =
          take_all (length b.keys - at - 1 + 1) (drop (at + 1) b.children)
            (omega (arith, length-drop (at + 1) b.children, r.one_more)) in
        subst (SplitBuilt b) (sym (ap (λ o. o >>= split_done allocate (number, first) key) g)) (
          split number page.0 first key bytes last (record {
            division_key = middle;
            first_page = s;
            second_page = subst (Stores bytes b.fixed_key_size (drop (at + 1) b.keys)) all stored;
          }))

    first_page :
        (state : State) (size : ℕ) (o : Option (PageMut × State))
        → length (flat (drop (at + 1) b.keys)) ≡ size
        → allocate state (required_bytes at (key_bytes (take at b.keys)) b.fixed_key_size) ≡ o
        → SplitBuilt b (
            fill_page allocate b.fixed_key_size at (take at b.keys) b.children o
            >>= split_rest allocate b at key size)
    first_page state size none e f = not_split state _ f
    first_page state size (some (page, next)) e f =
        let (bytes, g, stored) =
          fill_page-Stores allocate enough b.fixed_key_size at (key_bytes (take at b.keys))
            (take at b.keys) b.children state (first-IsContent b r three middle)
            (length-take at b.keys (omega arith)) (sym (key_bytes-flat (take at b.keys))) f in
        subst (SplitBuilt b) (sym (ap (λ o. o >>= split_rest allocate b at key size) g))
          (second_page page.0 bytes next size _ stored e refl)

  -- A builder of at least three keys, with the conditions of `build`, is split without a panic. The
  -- result is the error of an `allocate`, or two pages: the first reads back the keys before the one in
  -- the middle and the children around them, the second the keys behind it with theirs, and that key
  -- is handed out between them.
  pub build_branch_split-SplitBuilt :
      (b : BranchBuilder) (state : State)
      → IsReady b
      → 3 ≤ length b.keys
      → SplitBuilt b (build_split allocate b state)
  unfolding build_split
  build_branch_split-SplitBuilt b state r three =
      let one = r.one_more in
      let checked : (length b.children == length b.keys + 1) ≡ true = ground arith in
      let split_three : leb 3 (length b.keys) ≡ true = ground arith in
      let (key, middle) = get_elem?-some b.keys (length b.keys / 2) (omega arith) in
      let size : length (flat (drop (length b.keys / 2 + 1) b.keys))
          ≡ sub64 (sub64 b.total_key_bytes (key_bytes (take (length b.keys / 2) b.keys)))
              (length key) =
        omega (
          arith,
          r.total,
          r.content.small,
          flat_around b.keys (length b.keys / 2) middle,
          key_bytes-flat (take (length b.keys / 2) b.keys),
        ) in
      rw (checked, split_three, middle) (first_page b r three middle state _ _ size refl)
