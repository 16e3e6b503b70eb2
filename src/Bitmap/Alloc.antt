-- ===== src/Bitmap/Alloc.antt =====
-- What `find_first_unset` and `alloc` of `BtreeBitmap` of src/tree_store/page_store/bitmap.rs answer on
-- a sound bitmap.
use redbx.Prelude.{
  ℕ, suc, ◌-◌, ◌<◌, ◌≡◌, refl, ap, sym, ◌∙◌, subst, List, [], ◌∷◌, arith, length, Option, none,
  some, ok,
}
use redbx.Bitmap.{BtreeBitmap, find_first_unset, alloc}
use redbx.Bitmap.Group.{U64GroupedBitmap}
use redbx.Bitmap.Group.Reads.{bit_at}
use redbx.Bitmap.Tree.{level_at}
use redbx.Bitmap.Search.{Answer, IsLeast, leaf_of, find_first_unset_lem}
use redbx.Bitmap.Changes.{IsSound, IsChanged, leaf_level, set_bit-IsChanged}

leaf_of-level_at :
    (root : U64GroupedBitmap) (levels : List U64GroupedBitmap)
    → leaf_of root levels ≡ level_at (root ∷ levels) (length levels)
unfolding leaf_of level_at
leaf_of-level_at root [] = refl
leaf_of-level_at root (level ∷ levels) = leaf_of-level_at level levels

search_levels :
    (heights : List U64GroupedBitmap)
    → IsSound (record { heights = heights })
    → (r : Option ℕ) × (find_first_unset (record { heights = heights }) ≡ ok r)
      × Answer (level_at heights (length heights - 1)) r
unfolding level_at
search_levels [] s = let some_level = s.some_level in absurd (omega arith)
search_levels (root ∷ levels) s =
    let (r, returns, answer) =
      find_first_unset_lem root levels s.tree (let root_small = s.root in root_small) in
    let last : suc (length levels) - 1 ≡ length levels = omega arith in
    (
      r,
      returns,
      subst (λ g. Answer g r)
          (leaf_of-level_at root levels ∙ ap (level_at (root ∷ levels)) (sym last)) answer,
    )

-- The search of a sound bitmap returns: with the least unset id, which is below the length, or with
-- nothing when every id is set.
pub find_first_unset-Answer :
    (m : BtreeBitmap)
    → IsSound m
    → (r : Option ℕ) × (find_first_unset m ≡ ok r) × Answer (leaf_level m) r
find_first_unset-Answer m s = search_levels m.heights s

-- What `alloc` answers, and leaves.
pub data Allocated (m : BtreeBitmap) : Option ℕ → BtreeBitmap → Type 0 where
  full : ((i : ℕ) → i < (leaf_level m).len → bit_at (leaf_level m) i ≡ 1) → Allocated m none m
  taken :
      (b : ℕ) (m' : BtreeBitmap)
      → IsLeast (leaf_level m) b
      → IsChanged m m' b 1
      → Allocated m (some b) m'

alloc_found :
    (m : BtreeBitmap) (r : Option ℕ)
    → IsSound m
    → find_first_unset m ≡ ok r
    → Answer (leaf_level m) r
    → (m' : BtreeBitmap) × (alloc m ≡ ok (r, m')) × Allocated m r m'
unfolding alloc
alloc_found m none s found (Answer.all_set set_bits) = (m, rw found refl, Allocated.full set_bits)
alloc_found m (some _) s found (Answer.unset_at b least) =
    let (m', returns, changed) = set_bit-IsChanged m b s least.inside in
    (m', rw (found, returns) refl, Allocated.taken b m' least changed)

-- An allocation from a sound bitmap returns. It takes the least unset id, sets it and no other and
-- leaves a sound bitmap; or it answers nothing and changes nothing, when every id is set.
pub alloc-Allocated :
    (m : BtreeBitmap)
    → IsSound m
    → (r : Option ℕ) × (m' : BtreeBitmap) × (alloc m ≡ ok (r, m')) × Allocated m r m'
alloc-Allocated m s =
    let (r, found, answer) = find_first_unset-Answer m s in
    let (m', returns, allocated) = alloc_found m r s found answer in (r, m', returns, allocated)
