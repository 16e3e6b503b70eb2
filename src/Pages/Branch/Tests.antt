-- ===== src/Pages/Branch/Tests.antt =====
-- Branch pages of src/tree_store/btree_base.rs, built, searched and changed.
use redbx.Prelude.{
  ℕ, zero, suc, ◌+◌, ◌<◌, ◌≡◌, refl, ap, arith, Bool, ok, some, Option, none, List, [], ◌∷◌,
  replicate, length, length-replicate, get_elem?, set, subst,
}
use Prim.Native.Nat.{Ordering, compare}
use redbx.Prelude.Bytes.{from_le}
use redbx.PageNumber.{PageNumber}
use redbx.Pages.Search.{IsOrder, Ascends, Place}
use redbx.Pages.Branch.{child_for_key}
use redbx.Pages.Branch.Raw.{
  Child, BranchBuilder, PageMut, required_bytes, fill, build, build_split, write_child_page,
}
use redbx.Pages.Branch.Layout.{IsBranch, IsChild, AllChildren}
use redbx.Pages.Branch.Reads.{branch_of, child_for_key-Place}
use redbx.Pages.Branch.Built.{IsContent, fill-IsBranch}
use redbx.Pages.Branch.Store.{IsEnough, IsReady, Built, build_branch-Built}
use redbx.Pages.Branch.Split.{SplitBuilt, build_branch_split-SplitBuilt}
use redbx.Pages.Branch.Replace.{write_child_page-IsBranch}

abbrev number : ℕ → PageNumber
number n = record { region = 0; page_index = n; page_order = 0 }

abbrev child : ℕ → Child
child n = (number n, n + 100)

abbrev branch_keys : List (List ℕ)
branch_keys = (1 ∷ 0 ∷ []) ∷ (2 ∷ 0 ∷ []) ∷ (3 ∷ 1 ∷ []) ∷ []

abbrev branch_children : List Child
branch_children = child 4 ∷ child 5 ∷ child 6 ∷ child 7 ∷ []

-- A page of just the bytes that are asked for.
abbrev allocate_page : ℕ → ℕ → Option (PageMut × ℕ)
allocate_page state n = some ((number 3, replicate n 0), state + 1)

allocate_page-IsEnough : IsEnough allocate_page
allocate_page-IsEnough state n number memory next e =
    let same : replicate n 0 ≡ memory = cc in
    omega (arith, length-replicate {A = ℕ} n 0, ap length same)

child-IsChild : (n : ℕ) → n < 256 → IsChild (child n)
child-IsChild n h =
    (record { region = omega arith; order = omega arith; index = omega arith }, omega arith)

children-AllChildren : AllChildren branch_children
children-AllChildren = (
  child-IsChild 4 (omega arith),
  (
    child-IsChild 5 (omega arith),
    (child-IsChild 6 (omega arith), (child-IsChild 7 (omega arith), tt)),
  ),
)

content : IsContent none branch_keys branch_children
content = record {
  filled = omega arith;
  few = omega arith;
  key_fits = tt;
  enough = omega arith;
  fits = children-AllChildren;
  small = omega arith;
}

abbrev branch_builder : BranchBuilder
branch_builder = record {
  children = branch_children;
  keys = branch_keys;
  total_key_bytes = 6;
  fixed_key_size = none;
}

builder-IsReady : IsReady branch_builder
builder-IsReady = record { total = refl; one_more = refl; content = content }

build_branch-Built_example :
    Built allocate_page allocate_page-IsEnough branch_builder 0
      (build allocate_page branch_builder 0)
build_branch-Built_example =
    build_branch-Built allocate_page allocate_page-IsEnough branch_builder 0 builder-IsReady

build_branch_split-SplitBuilt_example :
    SplitBuilt allocate_page allocate_page-IsEnough branch_builder
      (build_split allocate_page branch_builder 0)
build_branch_split-SplitBuilt_example =
    build_branch_split-SplitBuilt allocate_page allocate_page-IsEnough branch_builder 0
      builder-IsReady (omega arith)

-- The page that holds the keys and children.
branch_filled :
    (after : List ℕ) × (fill none 3 branch_keys branch_children (replicate 122 0) ≡ ok after)
    × IsBranch after none branch_keys branch_children
    × (length after ≡ 122)
unfolding required_bytes
branch_filled =
    fill-IsBranch (replicate 122 0) none branch_keys branch_children content (omega arith)

-- Keys compared as numbers.
abbrev by_number : List ℕ → List ℕ → Ordering
by_number a b = compare (from_le a) (from_le b)

by_number-IsOrder : IsOrder by_number
by_number-IsOrder = record {
  before = λ q a b h k. ground arith;
  beyond = λ q a b h k. ground arith;
}

ordered :
    {x y a b : List ℕ}
    → some x ≡ some a
    → some y ≡ some b
    → by_number x y ≡ Ordering.lt
    → by_number a b ≡ Ordering.lt
ordered {x} {y} {a} {b} e f h =
    let p : x ≡ a = cc in
    let q : y ≡ b = cc in
    subst (λ v. by_number a v ≡ Ordering.lt) q (subst (λ u. by_number u y ≡ Ordering.lt) p h)

keys-Ascends : Ascends by_number branch_keys
unfolding from_le
keys-Ascends zero zero a b l e f = absurd (omega arith)
keys-Ascends zero (suc zero) a b l e f = ordered e f refl
keys-Ascends zero (suc (suc zero)) a b l e f = ordered e f refl
keys-Ascends zero (suc (suc (suc j))) a b l e f = cc
keys-Ascends (suc zero) zero a b l e f = absurd (omega arith)
keys-Ascends (suc zero) (suc zero) a b l e f = absurd (omega arith)
keys-Ascends (suc zero) (suc (suc zero)) a b l e f = ordered e f refl
keys-Ascends (suc zero) (suc (suc (suc j))) a b l e f = cc
keys-Ascends (suc (suc zero)) zero a b l e f = absurd (omega arith)
keys-Ascends (suc (suc zero)) (suc zero) a b l e f = absurd (omega arith)
keys-Ascends (suc (suc zero)) (suc (suc zero)) a b l e f = absurd (omega arith)
keys-Ascends (suc (suc zero)) (suc (suc (suc j))) a b l e f = cc
keys-Ascends (suc (suc (suc i))) j a b l e f = cc

child_for_key-Place_example :
    (i : ℕ) × (found : Bool) × (c : Child) × (child_for_key by_number
        (branch_of branch_filled.0 none branch_keys)
        (2 ∷ 0 ∷ [])
      ≡ ok (i, c.0))
    × (get_elem? branch_children i ≡ some c)
    × Place by_number branch_keys (2 ∷ 0 ∷ []) (i, found)
child_for_key-Place_example =
    child_for_key-Place branch_keys branch_children none branch_filled.2 by_number (2 ∷ 0 ∷ [])
      by_number-IsOrder keys-Ascends

write_child_page-IsBranch_example :
    (after : List ℕ) × (write_child_page 2 (child 9) branch_filled.0 ≡ ok after)
    × IsBranch after none branch_keys (set branch_children 2 (child 9))
    × (length after ≡ length branch_filled.0)
write_child_page-IsBranch_example =
    write_child_page-IsBranch branch_filled.0 none branch_keys branch_children 2 (child 9)
      branch_filled.2 (omega arith) (child-IsChild 9 (omega arith))
