-- ===== src/Buddy/Resize.antt =====
-- `resize` of src/tree_store/page_store/buddy_allocator.rs.
use redbx.Prelude.{
  ℕ, zero, suc, ◌+◌, ◌/◌, true, not, ◌||◌, List, [], ◌∷◌, Outcome, ok, ◌>>=◌, ◌>>◌, check,
  if◌then◌else◌, ltb, leb, ◌==◌,
}
use redbx.Prelude.Word.{add32}
use redbx.Bitmap
use redbx.Bitmap.{BtreeBitmap}
use redbx.Buddy.{BuddyAllocator, next_higher_order, trailing_zeros, order_size_of, cover}
use redbx.Buddy.Alloc.{free_inner, record_alloc_inner}

unfoldable pub resize_orders : List BtreeBitmap → ℕ → Outcome (List BtreeBitmap)
resize_orders [] pages_for_order = ok []
resize_orders (order ∷ orders) pages_for_order = do
  order' ← Bitmap.resize order pages_for_order true
  orders' ← resize_orders orders (next_higher_order pages_for_order)
  ok (order' ∷ orders')

-- The first loop of growing: pages are freed until the next is aligned to `max_order`. A round
-- processes at least one page, so `new_size` rounds are enough. An order of 32 has size 0, and
-- the division by it panics.
unfoldable pub align_free : ℕ → ℕ → ℕ → ℕ → List BtreeBitmap → Outcome (List BtreeBitmap × ℕ)
align_free zero max_order new_size processed free = ok (free, processed)
align_free (suc fuel) max_order new_size processed free =
    let order = trailing_zeros 32 processed in
    if leb new_size processed then ok (free, processed) else (do
      check (not (order_size_of order == 0))
      if leb max_order order || ltb new_size (add32 processed (order_size_of order))
          then ok (free, processed)
          else (do
            free' ← free_inner max_order free order (processed / order_size_of order)
            align_free fuel max_order new_size (add32 processed (order_size_of order)) free'))

-- The first loop of shrinking, which tests the order before it divides.
unfoldable pub align_alloc : ℕ → ℕ → ℕ → ℕ → List BtreeBitmap → Outcome (List BtreeBitmap × ℕ)
align_alloc zero max_order len processed free = ok (free, processed)
align_alloc (suc fuel) max_order len processed free =
    let order = trailing_zeros 32 processed in
    if leb len processed || leb max_order order then ok (free, processed) else (do
      check (not (order_size_of order == 0))
      if ltb len (add32 processed (order_size_of order)) then ok (free, processed) else (do
        free' ← record_alloc_inner free order (processed / order_size_of order)
        align_alloc fuel max_order len (add32 processed (order_size_of order)) free'))

unfoldable pub grow : BuddyAllocator → ℕ → Outcome BuddyAllocator
grow a new_size = do
  resized ← resize_orders a.free new_size
  aligned ← align_free new_size a.max_order new_size a.len resized
  r ← cover (free_inner a.max_order) (a.max_order + 1) new_size aligned.1 aligned.0
  check (r.1 == new_size)
  ok (record { free = r.0; len = new_size; max_order = a.max_order })

unfoldable pub shrink : BuddyAllocator → ℕ → Outcome BuddyAllocator
shrink a new_size = do
  aligned ← align_alloc a.len a.max_order a.len new_size a.free
  r ← cover record_alloc_inner (a.max_order + 1) a.len aligned.1 aligned.0
  check (r.1 == a.len)
  resized ← resize_orders r.0 new_size
  ok (record { free = resized; len = new_size; max_order = a.max_order })

unfoldable pub resize : BuddyAllocator → ℕ → Outcome BuddyAllocator
resize a new_size = if ltb a.len new_size then grow a new_size else shrink a new_size
