-- ===== src/Buddy.antt =====
-- src/tree_store/page_store/buddy_allocator.rs: one bitmap of free pages for each order. A bit is
-- unset where a page is free at that order. The debug assertions are not part of the model.
pub mod Alloc
pub mod Orders
pub mod Cover
pub mod Fresh
pub mod Once
pub mod Built
mod Tests
pub mod Serialize
pub mod Resize
use Prim.Native.Nat.{bit_xor}
use redbx.Prelude.{
  ℕ, zero, suc, ◌+◌, ◌-◌, ◌*◌, ◌/◌, ◌%◌, ◌^◌, Bool, true, false, not, Option, none, some, List, [],
  ◌∷◌, Outcome, ok, panic, ◌>>=◌, ◌>>◌, check, unwrap, if◌then◌else◌, ltb, leb, ◌==◌, length,
  get_elem?, set, min, ◌&&◌,
}
use redbx.Prelude.Word.{u32_size, add32, sub32, mul32}
use redbx.Bitmap
use redbx.Bitmap.{BtreeBitmap}

abbrev pub max_max_page_order : ℕ
max_max_page_order = 20

-- 32 less the leading zeros of a `u32`: the fuel is its number of bits.
unfoldable pub bit_length : ℕ → ℕ → ℕ
bit_length zero x = 0
bit_length (suc fuel) x = let rest = bit_length fuel (x / 2) in if x == 0 then 0 else suc rest

unfoldable pub trailing_zeros : ℕ → ℕ → ℕ
trailing_zeros zero x = 0
trailing_zeros (suc fuel) x =
    let rest = trailing_zeros fuel (x / 2) in if x % 2 == 1 then 0 else suc rest

unfoldable pub calculate_usable_order : ℕ → Outcome ℕ
calculate_usable_order pages = do
  check (ltb 0 pages)
  ok (min max_max_page_order (bit_length 32 pages - 1))

unfoldable pub next_higher_order : ℕ → ℕ
next_higher_order page_number = page_number / 2

unfoldable pub buddy_page : ℕ → ℕ
buddy_page page_number = bit_xor page_number 1

pub record BuddyAllocator : Type 0 where
  pub free : List BtreeBitmap
  pub len : ℕ
  pub max_order : ℕ

-- `2u32.pow(order)`
abbrev pub order_size_of : ℕ → ℕ
order_size_of order = 2 ^ order % u32_size

unfoldable pub get_order_free : List BtreeBitmap → ℕ → Outcome BtreeBitmap
get_order_free free order = unwrap (get_elem? free order)

unfoldable pub clear_at : List BtreeBitmap → ℕ → ℕ → Outcome (List BtreeBitmap)
clear_at free order page = do
  allocator ← get_order_free free order
  allocator' ← Bitmap.clear allocator page
  ok (set free order allocator')

unfoldable pub set_at : List BtreeBitmap → ℕ → ℕ → Outcome (List BtreeBitmap)
set_at free order page = do
  allocator ← get_order_free free order
  allocator' ← Bitmap.set_bit allocator page
  ok (set free order allocator')

-- The loop of `new` that builds the bitmaps, one for each order.
unfoldable pub bitmaps : ℕ → ℕ → ℕ → List BtreeBitmap
bitmaps zero pages capacity = []
bitmaps (suc orders) pages capacity =
    Bitmap.new pages capacity
    ∷ bitmaps orders (next_higher_order pages) (next_higher_order capacity)

-- `while processed + order_size <= limit`: `step` on each page of the order in turn. A round
-- processes at least one page, so `limit` rounds are enough.
unfoldable pub cover_order :
    (List BtreeBitmap → ℕ → ℕ → Outcome (List BtreeBitmap))
    → ℕ
    → ℕ
    → ℕ
    → ℕ
    → List BtreeBitmap
    → Outcome (List BtreeBitmap × ℕ)
cover_order step zero order limit processed free = ok (free, processed)
cover_order step (suc fuel) order limit processed free =
    if leb (add32 processed (order_size_of order)) limit
    then (do
      free' ← step free order (processed / order_size_of order)
      cover_order step fuel order limit (add32 processed (order_size_of order)) free')
    else ok (free, processed)

-- `for order in (0..=max_order).rev()` around that loop: the orders below `orders`.
unfoldable pub cover :
    (List BtreeBitmap → ℕ → ℕ → Outcome (List BtreeBitmap))
    → ℕ
    → ℕ
    → ℕ
    → List BtreeBitmap
    → Outcome (List BtreeBitmap × ℕ)
cover step zero limit processed free = ok (free, processed)
cover step (suc order) limit processed free = do
  r ← cover_order step limit order limit processed free
  cover step order limit r.1 r.0

unfoldable pub new : ℕ → ℕ → Outcome BuddyAllocator
new num_pages max_page_capacity = do
  max_order ← calculate_usable_order max_page_capacity
  r ←
      cover clear_at (max_order + 1) num_pages 0
        (bitmaps (max_order + 1) num_pages max_page_capacity)
  check (r.1 == num_pages)
  ok (record { free = r.0; len = num_pages; max_order = max_order })

-- The search of `highest_free_order`, over the orders below `orders`, the highest first.
unfoldable pub highest_below : List BtreeBitmap → ℕ → Outcome (Option ℕ)
highest_below free zero = ok none
highest_below free (suc order) = do
  allocator ← get_order_free free order
  unset ← Bitmap.has_unset allocator
  if unset then ok (some order) else highest_below free order

unfoldable pub highest_free_order : BuddyAllocator → Outcome (Option ℕ)
highest_free_order a = highest_below a.free (a.max_order + 1)

-- The loop of `count_free_pages`, over `orders` orders from `order` on.
unfoldable pub count_orders : ℕ → ℕ → ℕ → List BtreeBitmap → Outcome ℕ
count_orders zero order pages free = ok pages
count_orders (suc orders) order pages free = do
  allocator ← get_order_free free order
  unset ← Bitmap.count_unset allocator
  count_orders orders (order + 1) (add32 pages (mul32 unset (order_size_of order))) free

unfoldable pub count_free_pages : BuddyAllocator → Outcome ℕ
count_free_pages a = count_orders (a.max_order + 1) 0 0 a.free

unfoldable pub count_allocated_pages : BuddyAllocator → Outcome ℕ
count_allocated_pages a = do free_pages ← count_free_pages a; ok (sub32 a.len free_pages)

-- Whether the page is within the order's bitmap and free there.
unfoldable pub is_free_at : List BtreeBitmap → ℕ → ℕ → Outcome Bool
is_free_at free order page = do
  allocator ← get_order_free free order
  len ← Bitmap.len allocator
  if ltb page len then (Bitmap.get allocator page >>= λ used. ok (not used)) else ok false

-- The loop of `find_free_order`, over `orders` orders from `order` on.
unfoldable pub find_order : ℕ → ℕ → ℕ → List BtreeBitmap → Outcome (Option ℕ)
find_order zero order page free = ok none
find_order (suc orders) order page free = do
  found ← is_free_at free order page
  if found then ok (some order) else find_order orders (order + 1) (next_higher_order page) free

unfoldable pub find_free_order : BuddyAllocator → ℕ → Outcome (Option ℕ)
find_free_order a page = find_order (a.max_order + 1) 0 page a.free

-- The loop of `trailing_free_pages`: `next_page` shrinks each round, so `len` rounds are enough.
unfoldable pub trailing_loop : ℕ → BuddyAllocator → ℕ → ℕ → Outcome ℕ
trailing_loop zero a next_page free_pages = ok free_pages
trailing_loop (suc fuel) a next_page free_pages = do
  found ← find_free_order a next_page
  elim found [
    | none ↦ ok free_pages
    | some order ↦
        let free_pages' = add32 free_pages (order_size_of order) in
        if ltb next_page (order_size_of order)
        then ok free_pages'
        else trailing_loop fuel a (next_page - order_size_of order) free_pages'
  ]

unfoldable pub trailing_free_pages : BuddyAllocator → Outcome ℕ
trailing_free_pages a = trailing_loop a.len a (sub32 a.len 1) 0
