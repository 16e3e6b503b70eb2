-- ===== src/Pages/Tests.antt =====
-- Pages of src/tree_store/btree_base.rs, built and changed.
use redbx.Prelude.{
  true, ◌++◌, ◌≤◌, ℕ, zero, suc, ◌+◌, ◌≡◌, refl, ap, arith, Bool, false, ok, some, none, Option,
  List, [], ◌∷◌, ◌>>=◌, replicate, length, length-replicate, subst,
}
use Prim.Native.Nat.{Ordering, compare}
use redbx.Prelude.Bytes.{from_le, to_le, write, overwrite, slice, skip_bytes, take_bytes}
use redbx.Prelude.Memory.{range}
use redbx.Prelude.Moves.{copy_within}
use redbx.Pages.Column.{get_u32, write_end}
use redbx.Pages.Leaf.Raw.{
  raw_new, append, key_offset, value_offset, raw_key_section_start, raw_key_end, raw_value_end,
  finish, required_bytes,
}
use redbx.PageNumber.{PageNumber}
use redbx.Pages.Search.{IsOrder, Ascends, Place}
use redbx.Pages.Leaf.Layout.{Entry, keys, IsLeaf}
use redbx.Pages.Leaf.Reads.{leaf_of}
use redbx.Pages.Leaf.Build.{LeafBuilder, PageMut, build, build_split, fill, append_all}
use redbx.Pages.Leaf.Built.{IsContent, fill-IsLeaf}
use redbx.Pages.Leaf.Store.{IsEnough, Built, SplitBuilt, build-Built}
use redbx.Pages.Leaf.SplitLaws.{build_split-SplitBuilt}
use redbx.Pages.Leaf.Find.{position, find_key, Lookup, position-Place, find_key-Lookup}
use redbx.Pages.Leaf
use redbx.Pages.Leaf.Mutator.{remove, update_ends, update_end, update_key_end, update_value_end}
use redbx.Pages.Leaf.Insert.{insert, insert_pair, sufficient_insert_inplace_space}
use redbx.Pages.Leaf.Inserted.{insert-IsLeaf}
use redbx.Pages.Leaf.Removed.{remove-IsLeaf}

abbrev first_page : PageNumber
first_page = record { region = 0; page_index = 3; page_order = 0 }

-- A page of just the bytes that are asked for.
abbrev allocate : ℕ → ℕ → Option (PageMut × ℕ)
allocate state n = some ((first_page, replicate n 0), state + 1)

allocate-IsEnough : IsEnough allocate
allocate-IsEnough state n number memory next e =
    let same : replicate n 0 ≡ memory = cc in
    omega (arith, length-replicate {A = ℕ} n 0, ap length same)

-- Keys compared as numbers.
abbrev by_number : List ℕ → List ℕ → Ordering
by_number a b = compare (from_le a) (from_le b)

by_number-IsOrder : IsOrder by_number
by_number-IsOrder = record {
  before = λ q a b h k. ground arith;
  beyond = λ q a b h k. ground arith;
}

-- Three pairs with keys of two bytes and values of any size.
abbrev pairs : List Entry
pairs = (1 ∷ 0 ∷ [], 7 ∷ []) ∷ (2 ∷ 0 ∷ [], []) ∷ (3 ∷ 1 ∷ [], 8 ∷ 9 ∷ []) ∷ []

abbrev builder : LeafBuilder
builder = record {
  pairs = pairs;
  fixed_key_size = some 2;
  fixed_value_size = none;
  total_key_bytes = 6;
  total_value_bytes = 3;
}

pairs-IsContent : IsContent (some 2) none pairs
pairs-IsContent = record {
  filled = omega arith;
  few = omega arith;
  key_fits = (refl, (refl, (refl, tt)));
  value_fits = tt;
  small = omega arith;
}

build-Built_example : Built allocate allocate-IsEnough builder 0 (build allocate builder 0)
build-Built_example =
    build-Built allocate allocate-IsEnough builder 0
      (record { key_bytes = refl; value_bytes = refl }) pairs-IsContent

build_split-SplitBuilt_example :
    SplitBuilt allocate allocate-IsEnough builder (build_split allocate builder 0)
build_split-SplitBuilt_example =
    build_split-SplitBuilt allocate allocate-IsEnough builder
      (record { key_bytes = refl; value_bytes = refl }) pairs-IsContent 0 (omega arith)

-- The page that the builder fills.
abbrev page : List ℕ
page =
    1 ∷ 0 ∷ 3 ∷ 0 ∷ 23 ∷ 0 ∷ 0 ∷ 0 ∷ 23 ∷ 0 ∷ 0 ∷ 0 ∷ 25 ∷ 0 ∷ 0 ∷ 0 ∷ 1 ∷ 0 ∷ 2 ∷ 0 ∷ 3 ∷ 1 ∷ 7 ∷ 8
    ∷ 9 ∷ []

page_built : fill (some 2) none 3 6 pairs (replicate 25 0) ≡ ok page
unfolding fill raw_new write overwrite to_le append_all append key_offset value_offset write_end
    raw_key_section_start raw_key_end raw_value_end get_u32 slice skip_bytes take_bytes from_le
    finish
page_built = refl

-- The same in memory with room for more.
abbrev large_page : List ℕ
large_page = page ++ replicate 15 0

large_page_built : fill (some 2) none 3 6 pairs (replicate 40 0) ≡ ok large_page
unfolding fill raw_new write overwrite to_le append_all append key_offset value_offset write_end
    raw_key_section_start raw_key_end raw_value_end get_u32 slice skip_bytes take_bytes from_le
    finish
large_page_built = refl

filled-IsLeaf :
    (memory : List ℕ) {filled : List ℕ}
    → 25 ≤ length memory
    → fill (some 2) none 3 6 pairs memory ≡ ok filled
    → IsLeaf filled (some 2) none pairs
unfolding required_bytes
filled-IsLeaf memory {filled} room built =
    let (after, e, h, size) =
      fill-IsLeaf memory (some 2) none pairs pairs-IsContent (omega arith) in
    let same : after ≡ filled = cc in subst (λ p. IsLeaf p (some 2) none pairs) same h

page-IsLeaf : IsLeaf page (some 2) none pairs
page-IsLeaf = filled-IsLeaf (replicate 25 0) (omega arith) page_built

large_page-IsLeaf : IsLeaf large_page (some 2) none pairs
large_page-IsLeaf = filled-IsLeaf (replicate 40 0) (omega arith) large_page_built

ordered :
    {x y a b : List ℕ}
    → some x ≡ some a
    → some y ≡ some b
    → by_number x y ≡ Ordering.lt
    → by_number a b ≡ Ordering.lt
ordered {x} {y} {a} {b} e f h =
    let p : x ≡ a = cc in
    let q : y ≡ b = cc in
    subst (λ v. by_number a v ≡ Ordering.lt) q (subst (λ u. by_number u y ≡ Ordering.lt) p h)

pairs-Ascends : Ascends by_number (keys pairs)
unfolding from_le
pairs-Ascends zero zero a b l e f = absurd (omega arith)
pairs-Ascends zero (suc zero) a b l e f = ordered e f refl
pairs-Ascends zero (suc (suc zero)) a b l e f = ordered e f refl
pairs-Ascends zero (suc (suc (suc j))) a b l e f = cc
pairs-Ascends (suc zero) zero a b l e f = absurd (omega arith)
pairs-Ascends (suc zero) (suc zero) a b l e f = absurd (omega arith)
pairs-Ascends (suc zero) (suc (suc zero)) a b l e f = ordered e f refl
pairs-Ascends (suc zero) (suc (suc (suc j))) a b l e f = cc
pairs-Ascends (suc (suc zero)) zero a b l e f = absurd (omega arith)
pairs-Ascends (suc (suc zero)) (suc zero) a b l e f = absurd (omega arith)
pairs-Ascends (suc (suc zero)) (suc (suc zero)) a b l e f = absurd (omega arith)
pairs-Ascends (suc (suc zero)) (suc (suc (suc j))) a b l e f = cc
pairs-Ascends (suc (suc (suc i))) j a b l e f = cc

-- A key that is there, and one that is not.
position-Place_example :
    (r : ℕ × Bool) × (position by_number (leaf_of page (some 2) none pairs) (2 ∷ 0 ∷ []) ≡ ok r)
    × Place by_number (keys pairs) (2 ∷ 0 ∷ []) r
position-Place_example =
    position-Place by_number by_number-IsOrder (some 2) none pairs page-IsLeaf pairs-Ascends
      (2 ∷ 0 ∷ [])

find_key-Lookup_example :
    (o : Option ℕ) × (find_key by_number (leaf_of page (some 2) none pairs) (9 ∷ 0 ∷ []) ≡ ok o)
    × Lookup by_number (keys pairs) (9 ∷ 0 ∷ []) o
find_key-Lookup_example =
    find_key-Lookup by_number by_number-IsOrder (some 2) none pairs page-IsLeaf pairs-Ascends
      (9 ∷ 0 ∷ [])

-- The second pair is removed.
remove-IsLeaf_example :
    (after : List ℕ) × (remove (some 2) none 1 page ≡ ok after)
    × IsLeaf after (some 2) none ((1 ∷ 0 ∷ [], 7 ∷ []) ∷ (3 ∷ 1 ∷ [], 8 ∷ 9 ∷ []) ∷ [])
    × (length after ≡ 25)
remove-IsLeaf_example =
    remove-IsLeaf (some 2) none ((1 ∷ 0 ∷ [], 7 ∷ []) ∷ []) (2 ∷ 0 ∷ []) []
      ((3 ∷ 1 ∷ [], 8 ∷ 9 ∷ []) ∷ []) page page-IsLeaf (omega arith)

-- There is room for a pair of three bytes and an end offset.
has_room :
    sufficient_insert_inplace_space
      (some 2)
      none
      first_page
      large_page
      1
      false
      (1 ∷ 9 ∷ [])
      (5 ∷ [])
    ≡ ok true
unfolding sufficient_insert_inplace_space Leaf.new Leaf.total_length Leaf.value_end range skip_bytes
    take_bytes from_le get_u32 slice
has_room = refl

-- The pair is inserted behind the first one.
insert-IsLeaf_example :
    (after : List ℕ) × (insert (some 2) none 1 false (1 ∷ 9 ∷ []) (5 ∷ []) large_page ≡ ok after)
    × IsLeaf after (some 2) none (
        (1 ∷ 0 ∷ [], 7 ∷ [])
        ∷ (1 ∷ 9 ∷ [], 5 ∷ [])
        ∷ (2 ∷ 0 ∷ [], [])
        ∷ (3 ∷ 1 ∷ [], 8 ∷ 9 ∷ [])
        ∷ [])
    × (length after ≡ 40)
insert-IsLeaf_example =
    insert-IsLeaf (some 2) none ((1 ∷ 0 ∷ [], 7 ∷ []) ∷ []) (1 ∷ 9 ∷ []) (5 ∷ [])
      ((2 ∷ 0 ∷ [], []) ∷ (3 ∷ 1 ∷ [], 8 ∷ 9 ∷ []) ∷ []) first_page large_page large_page-IsLeaf
      (omega arith) (omega arith) (refl, tt) tt (omega arith) has_room

-- A pair is removed and inserted again.
inserted_again :
    (remove (some 2) none 1 page >>= insert (some 2) none 1 false (2 ∷ 0 ∷ []) []) ≡ ok page
unfolding remove insert insert_pair update_ends update_end update_key_end update_value_end Leaf.new
    Leaf.key_start Leaf.key_end Leaf.key_section_start Leaf.value_start Leaf.value_end
    Leaf.total_length range copy_within write overwrite slice skip_bytes take_bytes to_le from_le
    get_u32 write_end
inserted_again = refl
