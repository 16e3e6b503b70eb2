-- ===== src/Regions.antt =====
-- src/tree_store/page_store/region.rs: which regions may have a free page of each order, and the
-- buddy allocator of each region.
pub mod Resize
pub mod Marks
mod Tests
use Prim.Native.Nat.{bit_xor}
use redbx.Prelude.{
  ℕ, zero, suc, ◌+◌, ◌-◌, ◌*◌, Option, none, some, List, [], ◌∷◌, ◌++◌, Outcome, ok, panic, ◌>>=◌,
  ◌>>◌, check, unwrap, ltb, length, get_elem?, set, replicate, max, true,
}
use redbx.Prelude.Bytes.{to_le, from_le, slice}
use redbx.Prelude.Word.{u32_size, add32}
use redbx.Bitmap
use redbx.Bitmap.{BtreeBitmap, concat}
use redbx.Buddy
use redbx.Buddy.{BuddyAllocator, max_max_page_order}
use redbx.Buddy.Serialize as Serialize
use redbx.Layout
use redbx.Layout.{DatabaseLayout}

abbrev pub max_regions : ℕ
max_regions = 0x100000

abbrev pub initial_regions : ℕ
initial_regions = 1000

pub record RegionTracker : Type 0 where
  pub order_trackers : List BtreeBitmap

unfoldable pub new_tracker : ℕ → ℕ → RegionTracker
new_tracker regions orders = record {
  order_trackers = replicate orders (Bitmap.new regions max_regions);
}

-- The serialized trackers; a length past `u32` panics.
unfoldable pub tracker_vecs : List BtreeBitmap → Outcome (List (List ℕ))
tracker_vecs [] = ok []
tracker_vecs (order ∷ orders) = do
  bytes ← Bitmap.to_vec order
  check (ltb (length bytes) u32_size)
  rest ← tracker_vecs orders
  ok (bytes ∷ rest)

unfoldable pub lens_to_vec : List (List ℕ) → List ℕ
lens_to_vec [] = []
lens_to_vec (bytes ∷ vecs) = to_le 4 (length bytes) ++ lens_to_vec vecs

unfoldable pub to_vec : RegionTracker → Outcome (List ℕ)
to_vec t = do
  check (ltb (length t.order_trackers) u32_size)
  vecs ← tracker_vecs t.order_trackers
  ok (to_le 4 (length t.order_trackers) ++ lens_to_vec vecs ++ concat vecs)

-- The first loop of `from_bytes`: the lengths, and where the trackers start.
unfoldable pub parse_lens : ℕ → ℕ → List ℕ → Outcome (List ℕ × ℕ)
parse_lens zero start page = ok ([], start)
parse_lens (suc orders) start page = do
  bytes ← slice start 4 page
  rest ← parse_lens orders (start + 4) page
  ok (from_le bytes ∷ rest.0, rest.1)

-- The second loop of `from_bytes`.
unfoldable pub parse_trackers : List ℕ → ℕ → List ℕ → Outcome (List BtreeBitmap)
parse_trackers [] start page = ok []
parse_trackers (allocator_len ∷ lens) start page = do
  bytes ← slice start allocator_len page
  tracker ← Bitmap.from_bytes bytes
  rest ← parse_trackers lens (start + allocator_len) page
  ok (tracker ∷ rest)

unfoldable pub from_bytes : List ℕ → Outcome RegionTracker
from_bytes page = do
  orders ← slice 0 4 page
  lens ← parse_lens (from_le orders) 4 page
  trackers ← parse_trackers lens.0 lens.1 page
  ok (record { order_trackers = trackers })

unfoldable pub find_free : RegionTracker → ℕ → Outcome (Option ℕ)
find_free t order = do
  tracker ← unwrap (get_elem? t.order_trackers order)
  Bitmap.find_first_unset tracker

-- The loop of `mark_free`, over `orders` trackers from order `i` on.
unfoldable pub clear_orders : ℕ → ℕ → ℕ → List BtreeBitmap → Outcome (List BtreeBitmap)
clear_orders zero i region trackers = ok trackers
clear_orders (suc orders) i region trackers = do
  tracker ← unwrap (get_elem? trackers i)
  tracker' ← Bitmap.clear tracker region
  clear_orders orders (i + 1) region (set trackers i tracker')

unfoldable pub mark_free : RegionTracker → ℕ → ℕ → Outcome RegionTracker
mark_free t order region = do
  trackers ← clear_orders (order + 1) 0 region t.order_trackers
  ok (record { order_trackers = trackers })

-- The loop of `mark_full`.
unfoldable pub set_orders : ℕ → ℕ → ℕ → List BtreeBitmap → Outcome (List BtreeBitmap)
set_orders zero i region trackers = ok trackers
set_orders (suc orders) i region trackers = do
  tracker ← unwrap (get_elem? trackers i)
  tracker' ← Bitmap.set_bit tracker region
  set_orders orders (i + 1) region (set trackers i tracker')

unfoldable pub mark_full : RegionTracker → ℕ → ℕ → Outcome RegionTracker
mark_full t order region = do
  check (ltb order (length t.order_trackers))
  trackers ← set_orders (length t.order_trackers - order) order region t.order_trackers
  ok (record { order_trackers = trackers })

unfoldable pub resize_trackers : List BtreeBitmap → ℕ → Outcome (List BtreeBitmap)
resize_trackers [] new_capacity = ok []
resize_trackers (order ∷ orders) new_capacity = do
  order' ← Bitmap.resize order new_capacity true
  orders' ← resize_trackers orders new_capacity
  ok (order' ∷ orders')

unfoldable pub resize_tracker : RegionTracker → ℕ → Outcome RegionTracker
resize_tracker t new_capacity = do
  trackers ← resize_trackers t.order_trackers new_capacity
  ok (record { order_trackers = trackers })

unfoldable pub len : RegionTracker → Outcome ℕ
len t = do tracker ← unwrap (get_elem? t.order_trackers 0); Bitmap.len tracker

pub record Allocators : Type 0 where
  pub region_tracker : RegionTracker
  pub region_allocators : List BuddyAllocator

-- The loop of `new`, over `regions` regions from region `i` on.
unfoldable pub add_regions : ℕ → ℕ → DatabaseLayout → Allocators → Outcome Allocators
add_regions zero i layout a = ok a
add_regions (suc regions) i layout a = do
  region_layout ← Layout.region_layout layout i
  allocator ← Buddy.new region_layout.num_pages layout.full_region_layout.num_pages
  tracker ← mark_free a.region_tracker allocator.max_order i
  add_regions regions (i + 1) layout (record {
    region_tracker = tracker;
    region_allocators = a.region_allocators ++ (allocator ∷ []);
  })

unfoldable pub new : DatabaseLayout → Outcome Allocators
new layout =
    let regions = max initial_regions (Layout.num_regions layout) in
    add_regions (Layout.num_regions layout) 0 layout (record {
      region_tracker = new_tracker regions (max_max_page_order + 1);
      region_allocators = [];
    })

unfoldable pub hash_regions : (List ℕ → ℕ) → ℕ → List BuddyAllocator → Outcome ℕ
hash_regions checksum result [] = ok result
hash_regions checksum result (allocator ∷ allocators) = do
  h ← Serialize.xxh3_hash checksum allocator
  hash_regions checksum (bit_xor result h) allocators

-- `xxh3_hash`, with the checksum as an argument. The region tracker does not count.
unfoldable pub xxh3_hash : (List ℕ → ℕ) → Allocators → Outcome ℕ
xxh3_hash checksum a = hash_regions checksum 0 a.region_allocators
