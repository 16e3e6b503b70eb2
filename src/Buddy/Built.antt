-- ===== src/Buddy/Built.antt =====
-- The allocator that `new` of src/tree_store/page_store/buddy_allocator.rs builds.
use redbx.Prelude.{
  ℕ, ◌+◌, ◌-◌, ◌/◌, ◌^◌, ◌<◌, ◌≤◌, ◌≡◌, refl, ap, sym, ◌∙◌, subst, List, arith, length, some,
  Outcome, ok, ◌>>=◌, ◌>>◌, check, get_elem?, get_elem?-some, ◌&&◌, Bool, Bool-cases, inl, inr,
  ◌==◌, ltb, leb, true, min,
}
use redbx.Prelude.Word.{u32_size}
use redbx.Bitmap
use redbx.Bitmap.{BtreeBitmap}
use redbx.Bitmap.Changes.{IsSound, leaf_level}
use redbx.Buddy.{
  BuddyAllocator, bitmaps, get_order_free, clear_at, cover, new, calculate_usable_order, bit_length,
  max_max_page_order,
}
use redbx.Buddy.Orders.{IsOrders, IsOrders-same, all_set, bitmaps-IsOrder, length-bitmaps}
use redbx.Bitmap.Changes.{leaf_eq, get-bit_at}
use redbx.Buddy.{is_free_at}
use redbx.Buddy.Fresh.{first_free, staged, cover-exact}
use redbx.Buddy.Once.{Held, held, Held-once}

-- What the read of a block says.
abbrev pub free_block : ℕ → ℕ → ℕ → ℕ → Bool
free_block max_order pages order page =
    ltb page (pages / 2 ^ order) && leb (first_free max_order pages order) page

is_free_at-read :
    (max_order pages orders order page : ℕ) (free : List BtreeBitmap)
    → IsOrders pages orders (staged (first_free max_order pages) 0) free
    → order < orders
    → is_free_at free order page ≡ ok (free_block max_order pages order page)
unfolding is_free_at get_order_free Bitmap.len
is_free_at-read max_order pages orders order page free w lt =
    let size = w.size in
    let (m, at) = get_elem?-some free order (omega arith) in
    let o = w.each order m at in
    elim (Bool-cases (ltb page (pages / 2 ^ order))) [
      | inl inside ↦
          let within : page < pages / 2 ^ order = ground arith in
          rw
            (
              at,
              leaf_eq m o.sound,
              o.len,
              inside,
              get-bit_at m page o.sound (subst (λ k. page < k) (sym o.len) within),
              o.marks page within,
            )
            (ground arith)
      | inr past ↦ rw (at, leaf_eq m o.sound, o.len, past) refl
    ]

-- An allocator as `new` builds it: a sound bitmap for each order, with an id for each whole block. At the
-- highest order all blocks are free, and at another one those behind the last pair. Each page stands in
-- a free block of exactly one order.
pub record IsAllocator (num_pages : ℕ) (a : BuddyAllocator) : Type 0 where
  pub len : a.len ≡ num_pages
  pub max_order : a.max_order ≤ 20
  pub size : length a.free ≡ a.max_order + 1
  pub sound : (j : ℕ) (m : BtreeBitmap) → get_elem? a.free j ≡ some m → IsSound m
  pub lens :
      (j : ℕ) (m : BtreeBitmap)
      → get_elem? a.free j ≡ some m
      → (leaf_level m).len ≡ num_pages / 2 ^ j
  pub blocks :
      (j p : ℕ)
      → j ≤ a.max_order
      → is_free_at a.free j p ≡ ok (free_block a.max_order num_pages j p)
  pub once :
      (q : ℕ)
      → q < num_pages
      → (j : ℕ) × (j ≤ a.max_order)
        × (is_free_at a.free j (q / 2 ^ j) ≡ ok true)
        × ((k : ℕ) → k ≤ a.max_order → is_free_at a.free k (q / 2 ^ k) ≡ ok true → k ≡ j)

free_block-Held :
    (max_order pages q j : ℕ)
    → free_block max_order pages j (q / 2 ^ j) ≡ true
    → Held max_order pages q j
free_block-Held max_order pages q j e = (ground (arith, e), ground (arith, e))

Held-free_block :
    (max_order pages q j : ℕ)
    → Held max_order pages q j
    → free_block max_order pages j (q / 2 ^ j) ≡ true
Held-free_block max_order pages q j h = ground (arith, h)

orders-IsAllocator :
    (max_order pages : ℕ) (free : List BtreeBitmap)
    → max_order ≤ 20
    → IsOrders pages (max_order + 1) (staged (first_free max_order pages) 0) free
    → IsAllocator pages (record { free = free; len = pages; max_order = max_order })
orders-IsAllocator max_order pages free le w =
    let read = λ (j p : ℕ) (l : j ≤ max_order).
      is_free_at-read max_order pages (max_order + 1) j p free w (omega arith) in
    record {
      len = refl;
      max_order = le;
      size = w.size;
      sound = λ j m e. let o = w.each j m e in o.sound;
      lens = λ j m e. let o = w.each j m e in o.len;
      blocks = read;
      once = λ q lt.
          let (j, l, h) = held max_order pages q lt in
          (
            j,
            l,
            read j (q / 2 ^ j) l ∙ ap ok (Held-free_block max_order pages q j h),
            λ k lk e.
                let both = sym (read k (q / 2 ^ k) lk) ∙ e in
                let yes_free : free_block max_order pages k (q / 2 ^ k) ≡ true = cc in
                Held-once max_order pages q j k l lk h
                  (free_block-Held max_order pages q k yes_free),
          );
    }

new_with : ℕ → ℕ → ℕ → Outcome BuddyAllocator
new_with max_order num_pages max_page_capacity = do
  r ←
      cover clear_at (max_order + 1) num_pages 0
        (bitmaps (max_order + 1) num_pages max_page_capacity)
  check (r.1 == num_pages)
  ok (record { free = r.0; len = num_pages; max_order = max_order })

checked :
    (max_order num_pages capacity : ℕ) (r : List BtreeBitmap × ℕ)
    → cover clear_at (max_order + 1) num_pages 0 (bitmaps (max_order + 1) num_pages capacity) ≡ ok r
    → (r.1 == num_pages) ≡ true
    → new_with max_order num_pages capacity
      ≡ ok (record { free = r.0; len = num_pages; max_order = max_order })
unfolding new_with
checked max_order num_pages capacity r returns all = rw (returns, all) refl

new_eq :
    (num_pages capacity : ℕ)
    → ltb 0 capacity ≡ true
    → new num_pages capacity
      ≡ new_with (min max_max_page_order (bit_length 32 capacity - 1)) num_pages capacity
unfolding new calculate_usable_order new_with
new_eq num_pages capacity some_capacity = rw some_capacity refl

new_with-IsAllocator :
    (max_order num_pages capacity : ℕ)
    → max_order ≤ 20
    → num_pages ≤ capacity
    → capacity + 128 ≤ u32_size
    → num_pages + 2 ^ 20 < u32_size
    → (a : BuddyAllocator) × (new_with max_order num_pages capacity ≡ ok a)
      × IsAllocator num_pages a
unfolding new_with
new_with-IsAllocator max_order num_pages capacity le fits small room =
    let first = first_free max_order num_pages in
    let made : IsOrders num_pages (max_order + 1) all_set
        (bitmaps (max_order + 1) num_pages capacity) =
      record {
        size = length-bitmaps (max_order + 1) num_pages capacity;
        each = bitmaps-IsOrder (max_order + 1) num_pages capacity fits small;
      } in
    let (r, returns, w, exact) =
      cover-exact max_order num_pages (max_order + 1) (omega arith) le room (max_order + 1) 0
        (bitmaps (max_order + 1) num_pages capacity) (IsOrders-same (λ j i lt _. ground arith) made)
        (omega arith)
        (λ b e. let top : (b == max_order) ≡ true = ground arith in rw top (omega arith))
        (omega arith) in
    let all : (r.1 == num_pages) ≡ true = let e = exact (omega arith) in ground arith in
    (
      record { free = r.0; len = num_pages; max_order = max_order },
      checked max_order num_pages capacity r returns all,
      orders-IsAllocator max_order num_pages r.0 le w,
    )

-- For a capacity that is not 0 and leaves 128 below `u32`'s range, and at most that many pages, with 2^20
-- to spare, `new` returns, and `is_free_at` reads that at the highest order all blocks are free, at
-- another order those behind the last pair of blocks, and no others: each page stands in a free block of
-- exactly one order. Each order has a sound bitmap with an id for each whole block of the order.
pub new-IsAllocator :
    (num_pages capacity : ℕ)
    → 0 < capacity
    → num_pages ≤ capacity
    → capacity + 128 ≤ u32_size
    → num_pages + 2 ^ 20 < u32_size
    → (a : BuddyAllocator) × (new num_pages capacity ≡ ok a) × IsAllocator num_pages a
unfolding new calculate_usable_order new_with
new-IsAllocator num_pages capacity pos fits small room =
    let some_capacity : ltb 0 capacity ≡ true = ground arith in
    let (a, returns, w) =
      new_with-IsAllocator (min max_max_page_order (bit_length 32 capacity - 1)) num_pages capacity
        (omega arith) fits small room in
    (a, new_eq num_pages capacity some_capacity ∙ returns, w)
