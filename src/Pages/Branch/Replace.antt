-- ===== src/Pages/Branch/Replace.antt =====
-- `BranchMutator::write_child_page` of src/tree_store/btree_base.rs replaces one child of a page.
use redbx.Prelude.{
  ℕ, zero, suc, ◌+◌, ◌*◌, ◌<◌, ◌≡◌, refl, sym, ap, ◌∙◌, subst, List, [], ◌∷◌, map, Option, some,
  arith, length, length-map, length-set, ok, set,
}
use redbx.Prelude.Bytes.{to_le, length-to_le, from_le-to_le}
use redbx.Prelude.Memory.{At, Only, write-Only, slice-At, At-left, At-right, At-append, At-move}
use redbx.PageNumber
use redbx.PageNumber.{PageNumber}
use redbx.Pages.Column.{flat, Fits, upto}
use redbx.Pages.Ends.{Fits-upto}
use redbx.Pages.Branch.Raw.{Child, write_child_page}
use redbx.Pages.Branch.Layout.{
  IsBranch, checksums, numbers, IsChild, AllChildren, Fits-checksums, Fits-numbers,
  length-to_le_bytes,
}
use redbx.Pages.Branch.Writes.{flat_fixed}

map-set {ℓ κ} :
    {A : Type ℓ} {B : Type κ} (f : A → B) (xs : List A) (i : ℕ) (x : A)
    → map f (set xs i x) ≡ set (map f xs) i (f x)
map-set f [] i x = refl
map-set f (y ∷ xs) zero x = refl
map-set f (y ∷ xs) (suc i) x = ap (λ l. f y ∷ l) (map-set f xs i x)

AllChildren-set :
    (cs : List Child) (i : ℕ) (c : Child) → AllChildren cs → IsChild c → AllChildren (set cs i c)
AllChildren-set [] i c a h = tt
AllChildren-set (d ∷ cs) zero c a h = (h, a.1)
AllChildren-set (d ∷ cs) (suc i) c a h = (a.0, AllChildren-set cs i c a.1 h)

-- One cell of a column of cells of a fixed size is written over.
cell_replaced :
    (w : ℕ) (at : ℕ) (xs : List (List ℕ)) (i : ℕ) (x : List ℕ) {page after : List ℕ}
    → At page at (flat xs)
    → Fits (some w) xs
    → i < length xs
    → length x ≡ w
    → At after (at + upto i xs) x
    → Only page (at + upto i xs) (at + upto i xs + w) after
    → At after at (flat (set xs i x))
cell_replaced w at [] i x stored f l e here o = elim l [ ]
cell_replaced w at (y ∷ xs) zero x stored f l e here o =
    let width = f.0 in
    At-append x (flat xs) (At-move (omega arith) here)
      (At-move (omega arith) (o.above (At-right y (flat xs) stored) (omega arith)))
cell_replaced w at (y ∷ xs) (suc i) x {page} {after} stored f l e here o =
    let width = f.0 in
    let place : at + (length y + upto i xs) ≡ at + length y + upto i xs = omega arith in
    At-append y (flat (set xs i x)) (o.below (At-left y (flat xs) stored) (omega arith)) (
      cell_replaced w (at + length y) xs i x (At-right y (flat xs) stored) f.1 (omega arith) e
        (At-move place here) (subst (λ p. Only page p (p + w) after) place o))

-- Writing a child in place of another returns, and the page is then a branch page of the same keys with
-- that child replaced.
pub write_child_page-IsBranch :
    (page : List ℕ) (fk : Option ℕ) (keys : List (List ℕ)) (children : List Child) (i : ℕ)
    (c : Child)
    → IsBranch page fk keys children
    → i < length children
    → IsChild c
    → (after : List ℕ) × (write_child_page i c page ≡ ok after)
      × IsBranch after fk keys (set children i c)
      × (length after ≡ length page)
unfolding write_child_page
write_child_page-IsBranch page fk keys children i c h l fits =
    let n = length keys in
    let one = h.one_more in
    let k = h.holds in
    let inside = k.key_ends.inside in
    let l16 = length-to_le 16 c.1 in
    let l8 = length-to_le_bytes c.0 in
    let two = length-to_le 2 n in
    let ls = length-map (λ (c : Child). to_le 16 c.1) children in
    let ln = length-map (λ (c : Child). PageNumber.to_le_bytes c.0) children in
    let us = Fits-upto 16 (checksums children) i (Fits-checksums children) (omega arith) in
    let un = Fits-upto 8 (numbers children) i (Fits-numbers children) (omega arith) in
    let all_sums = flat_fixed 16 (checksums children) (Fits-checksums children) ls in
    let all_numbers = flat_fixed 8 (numbers children) (Fits-numbers children) ln in
    let (p, e, sum, o) = write-Only (8 + 16 * i) (to_le 16 c.1) page (omega arith) in
    let count = o.below k.count (omega arith) in
    let (q, f, number, r) =
      write-Only (8 + 16 * (n + 1) + 8 * i) (PageNumber.to_le_bytes c.0) p
        (omega (arith, o.size)) in
    let at_sum : 8 + 16 * i ≡ 8 + upto i (checksums children) = omega arith in
    let at_number : 8 + 16 * (n + 1) + 8 * i ≡ 8 + 16 * (n + 1) + upto i (numbers children) =
      omega arith in
    let sums =
      cell_replaced 16 8 (checksums children) i (to_le 16 c.1) k.sums (Fits-checksums children)
        (omega arith) l16 (At-move at_sum sum) (only_moved at_sum (omega arith) o) in
    let pages =
      cell_replaced 8 (8 + 16 * (n + 1)) (numbers children) i (PageNumber.to_le_bytes c.0)
        (o.above k.pages (omega arith)) (Fits-numbers children) (omega arith) l8
        (At-move at_number number) (only_moved at_number (omega arith) r) in
    (
      q,
      rw (e, slice-At count two, from_le-to_le 2 n (omega (arith, k.few))) f,
      record {
        holds = record {
          kind = r.below (o.below k.kind (omega arith)) (omega arith);
          count = r.below count (omega arith);
          few = k.few;
          sums =
              r.below
                (subst (λ l. At p 8 (flat l))
                  (sym (map-set (λ (c : Child). to_le 16 c.1) children i c)) sums)
                (omega (arith, more_sums children i c));
          pages =
              subst (λ l. At q (8 + 16 * (n + 1)) (flat l))
                (sym (map-set (λ (c : Child). PageNumber.to_le_bytes c.0) children i c)) pages;
          key_ends = r.above (o.above k.key_ends (omega arith)) (omega arith);
          key_data = r.above (o.above k.key_data (omega arith)) (omega arith);
          key_fits = k.key_fits;
          small = k.small;
        };
        one_more = length-set children i c ∙ one;
        fits = AllChildren-set children i c h.fits fits;
      },
      omega (arith, o.size, r.size),
    )
  where
    only_moved :
        {page after : List ℕ} {a b a' b' : ℕ}
        → a ≡ a'
        → b ≡ b'
        → Only page a b after
        → Only page a' b' after
    only_moved {page} {after} {a} {b} {a'} {b'} e f o =
        subst (λ x. Only page x b' after) e (subst (λ y. Only page a y after) f o)

    more_sums :
        (children : List Child) (i : ℕ) (c : Child)
        → length (flat (checksums (set children i c))) ≡ 16 * length children
    more_sums children i c =
        flat_fixed 16 (checksums (set children i c)) (Fits-checksums (set children i c))
          (length-map (λ (c : Child). to_le 16 c.1) (set children i c) ∙ length-set children i c)
