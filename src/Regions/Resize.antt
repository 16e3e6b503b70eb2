-- ===== src/Regions/Resize.antt =====
-- `Allocators::resize_to` of src/tree_store/page_store/region.rs.
use redbx.Prelude.{
  ℕ, zero, suc, ◌+◌, ◌-◌, none, some, List, [], ◌∷◌, ◌++◌, Outcome, ok, ◌>>=◌, ◌>>◌, check, unwrap,
  if◌then◌else◌, ltb, leb, ◌==◌, length, get_elem?, set,
}
use redbx.Prelude.Word.{add32}
use redbx.Buddy
use redbx.Buddy.{BuddyAllocator}
use redbx.Buddy.Resize as BuddyResize
use redbx.Layout
use redbx.Layout.{DatabaseLayout}
use redbx.Layout.Region.{RegionLayout}
use redbx.Regions
use redbx.Regions.{RegionTracker, Allocators, mark_free, mark_full, resize_tracker}

unfoldable pub last_region_of : DatabaseLayout → RegionLayout
last_region_of l = elim l.trailing_partial_region [
  | none ↦ l.full_region_layout
  | some trailing ↦ trailing
]

unfoldable pub take_regions : ℕ → List BuddyAllocator → List BuddyAllocator
take_regions zero allocators = []
take_regions (suc n) [] = []
take_regions (suc n) (a ∷ allocators) = a ∷ take_regions n allocators

-- The loop that drops the removed regions from the tracker.
unfoldable pub drop_regions : ℕ → ℕ → RegionTracker → Outcome RegionTracker
drop_regions zero i tracker = ok tracker
drop_regions (suc regions) i tracker = do
  tracker' ← mark_full tracker 0 i
  drop_regions regions (i + 1) tracker'

unfoldable pub shrink_to : DatabaseLayout → Allocators → Outcome Allocators
shrink_to l a = do
  let count = Layout.num_regions l
  tracker ← drop_regions (length a.region_allocators - count) count a.region_tracker
  check (leb count (length a.region_allocators))
  let kept = take_regions count a.region_allocators
  allocator ← unwrap (get_elem? kept (length kept - 1))
  allocators ←
      if ltb (last_region_of l).num_pages allocator.len
      then (do
        allocator' ← BuddyResize.resize allocator (last_region_of l).num_pages
        ok (set kept (length kept - 1) allocator'))
      else ok kept
  ok (record { region_tracker = tracker; region_allocators = allocators })

unfoldable pub grow_region : DatabaseLayout → ℕ → Allocators → Outcome Allocators
grow_region l i a = do
  new_region ← Layout.region_layout l i
  allocator ← unwrap (get_elem? a.region_allocators i)
  check (leb allocator.len new_region.num_pages)
  if new_region.num_pages == allocator.len then ok a else (do
    allocator' ← BuddyResize.resize allocator new_region.num_pages
    found ← Buddy.highest_free_order allocator'
    highest_free ← unwrap found
    tracker ← mark_free a.region_tracker highest_free i
    ok (record {
      region_tracker = tracker;
      region_allocators = set a.region_allocators i allocator';
    }))

unfoldable pub add_region : DatabaseLayout → ℕ → Allocators → Outcome Allocators
add_region l i a = do
  new_region ← Layout.region_layout l i
  allocator ← Buddy.new new_region.num_pages l.full_region_layout.num_pages
  found ← Buddy.highest_free_order allocator
  highest_free ← unwrap found
  tracked ← Regions.len a.region_tracker
  tracker ←
      if leb tracked i then resize_tracker a.region_tracker (add32 i 1) else ok a.region_tracker
  tracker' ← mark_free tracker highest_free i
  ok (record {
    region_tracker = tracker';
    region_allocators = a.region_allocators ++ (allocator ∷ []);
  })

-- The loop over the regions when growing, from region `i` on.
unfoldable pub grow_regions : ℕ → ℕ → ℕ → DatabaseLayout → Allocators → Outcome Allocators
grow_regions zero i old_num_regions l a = ok a
grow_regions (suc regions) i old_num_regions l a = do
  a' ← if ltb i old_num_regions then grow_region l i a else add_region l i a
  grow_regions regions (i + 1) old_num_regions l a'

unfoldable pub grow_to : DatabaseLayout → Allocators → Outcome Allocators
grow_to l a = grow_regions (Layout.num_regions l) 0 (length a.region_allocators) l a

unfoldable pub resize_to : Allocators → DatabaseLayout → Outcome Allocators
resize_to a l =
    let count = Layout.num_regions l in
    if ltb count (length a.region_allocators)
    then shrink_to l a
    else if count == length a.region_allocators
    then (do
      allocator ← unwrap (get_elem? a.region_allocators (length a.region_allocators - 1))
      if ltb (last_region_of l).num_pages allocator.len
          then shrink_to l a
          else if (last_region_of l).num_pages == allocator.len
          then ok a
          else grow_to l a)
    else grow_to l a
