-- ===== src/Buddy/Alloc.antt =====
-- Allocating, recording and freeing pages of src/tree_store/page_store/buddy_allocator.rs. The
-- recursion of the source climbs the orders: it is given the number of orders still above.
use redbx.Prelude.{
  ℕ, zero, suc, ◌+◌, ◌-◌, true, Option, none, some, List, Outcome, ok, panic, ◌>>=◌, ◌>>◌, check,
  if◌then◌else◌, ltb, leb, ◌==◌, length, set,
}
use redbx.Prelude.Word.{add32, mul32}
use redbx.Bitmap
use redbx.Bitmap.{BtreeBitmap}
use redbx.Buddy.{BuddyAllocator, next_higher_order, buddy_page, get_order_free, clear_at, set_at}

-- `alloc_inner` with `orders` orders left, none of them when the order is past `max_order`.
unfoldable pub alloc_from : ℕ → ℕ → List BtreeBitmap → Outcome (Option ℕ × List BtreeBitmap)
alloc_from zero order free = ok (none, free)
alloc_from (suc orders) order free = do
  allocator ← get_order_free free order
  r ← Bitmap.alloc allocator
  elim r.0 [
    | some x ↦ ok (some x, set free order r.1)
    | none ↦ (do
      upper ← alloc_from orders (order + 1) free
      elim upper.0 [
        | none ↦ ok (none, upper.1)
        | some upper_page ↦ (do
          free' ← clear_at upper.1 order (add32 (mul32 upper_page 2) 1)
          ok (some (mul32 upper_page 2), free'))
      ])
  ]

unfoldable pub alloc_inner : BuddyAllocator → ℕ → Outcome (Option ℕ × BuddyAllocator)
alloc_inner a order = do
  r ← alloc_from (a.max_order + 1 - order) order a.free
  ok (r.0, record a { free = r.1 })

abbrev pub alloc : BuddyAllocator → ℕ → Outcome (Option ℕ × BuddyAllocator)
alloc = alloc_inner

-- `record_alloc_inner` with `orders` bitmaps from `order` on; an order past them panics.
unfoldable pub record_from : ℕ → List BtreeBitmap → ℕ → ℕ → Outcome (List BtreeBitmap)
record_from zero free page_number order = panic
record_from (suc orders) free page_number order = do
  allocator ← get_order_free free order
  used ← Bitmap.get allocator page_number
  if used
      then (do
        let upper_page = next_higher_order page_number
        free' ← record_from orders free upper_page (order + 1)
        if mul32 upper_page 2 == page_number
            then clear_at free' order (add32 (mul32 upper_page 2) 1)
            else clear_at free' order (mul32 upper_page 2))
      else set_at free order page_number

unfoldable pub record_alloc_inner : List BtreeBitmap → ℕ → ℕ → Outcome (List BtreeBitmap)
record_alloc_inner free order page_number = record_from (length free - order) free page_number order

unfoldable pub record_alloc : BuddyAllocator → ℕ → ℕ → Outcome BuddyAllocator
record_alloc a page_number order = do
  check (leb order a.max_order)
  free ← record_alloc_inner a.free order page_number
  ok (record a { free = free })

-- `free_inner` with `orders` bitmaps from `order` on; an order past them panics.
unfoldable pub free_from : ℕ → ℕ → List BtreeBitmap → ℕ → ℕ → Outcome (List BtreeBitmap)
free_from zero max_order free page_number order = panic
free_from (suc orders) max_order free page_number order =
    if order == max_order then clear_at free order page_number else (do
      allocator ← get_order_free free order
      len ← Bitmap.len allocator
      unmerged ←
          (if leb len (buddy_page page_number)
            then ok true
            else Bitmap.get allocator (buddy_page page_number))
      if unmerged then clear_at free order page_number else (do
        free' ← set_at free order (buddy_page page_number)
        free_from orders max_order free' (next_higher_order page_number) (order + 1)))

unfoldable pub free_inner : ℕ → List BtreeBitmap → ℕ → ℕ → Outcome (List BtreeBitmap)
free_inner max_order free order page_number =
    free_from (length free - order) max_order free page_number order

unfoldable pub free_page : BuddyAllocator → ℕ → ℕ → Outcome BuddyAllocator
free_page a page_number order = do
  free ← free_inner a.max_order a.free order page_number
  ok (record a { free = free })

-- The best candidate of `alloc_lowest` so far: the page, its order, and its index at the order asked for.
pub record Best : Type 0 where
  pub page : ℕ
  pub order : ℕ
  pub index_at_order : ℕ

-- The first loop of `alloc_lowest`, over `orders` orders from `i` on.
unfoldable pub improve : ℕ → ℕ → ℕ → Best → BuddyAllocator → Outcome (Best × BuddyAllocator)
improve zero i multiplier best a = ok (best, a)
improve (suc orders) i multiplier best a = do
  r ← alloc_inner a i
  elim r.0 [
    | none ↦ improve orders (i + 1) (mul32 multiplier 2) best r.1
    | some index ↦
        if ltb (mul32 index multiplier) best.index_at_order
        then (do
          a' ← free_page r.1 best.page best.order
          improve orders (i + 1) (mul32 multiplier 2)
              (record { page = index; order = i; index_at_order = mul32 index multiplier }) a')
        else (do a' ← free_page r.1 index i; improve orders (i + 1) (mul32 multiplier 2) best a')
  ]

-- The second loop of `alloc_lowest`: the page is split `orders` times, down to the order asked for.
unfoldable pub split_down : ℕ → ℕ → ℕ → List BtreeBitmap → Outcome (ℕ × List BtreeBitmap)
split_down zero page order free = ok (page, free)
split_down (suc orders) page order free = do
  free' ← clear_at free (order - 1) (add32 (mul32 page 2) 1)
  split_down orders (mul32 page 2) (order - 1) free'

unfoldable pub alloc_lowest : BuddyAllocator → ℕ → Outcome (Option ℕ × BuddyAllocator)
alloc_lowest a order = do
  first ← alloc_inner a order
  elim first.0 [
    | none ↦ ok (none, first.1)
    | some page ↦ (do
      let best : Best = record { page = page; order = order; index_at_order = page }
      r ← improve (a.max_order - order) (order + 1) 2 best first.1
      split ← split_down (r.0.order - order) r.0.page r.0.order r.1.free
      check (split.0 == r.0.index_at_order)
      ok (some split.0, record r.1 { free = split.1 }))
  ]
