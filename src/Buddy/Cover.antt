-- ===== src/Buddy/Cover.antt =====
-- How `new` of src/tree_store/page_store/buddy_allocator.rs covers the pages with free blocks.
use native.Mathlib.Nat.{suc-mul, le-div_iff_mul-le, div-mul-le_self, add-div_right}
use redbx.Prelude.{
  ℕ, zero, suc, ◌+◌, ◌/◌, ◌^◌, ◌<◌, ◌≤◌, ◌≡◌, refl, ap, ◌∙◌, List, arith, ok, if◌then◌else◌, ◌&&◌,
  ◌*◌, Bool-cases, inl, inr, ◌==◌, ltb, leb, true,
}
use redbx.Prelude.Bits.{pow_pos}
use redbx.Prelude.Word.{u32_size, add32}
use redbx.Bitmap.{BtreeBitmap}
use redbx.PageNumber.RoundTrip.{pow_order-le}
use redbx.Buddy.{order_size_of, clear_at, cover_order}
use redbx.Buddy.Orders.{IsOrders, IsOrders-same, without, clear_at-IsOrders}

order_size-exact : (order : ℕ) → order ≤ 20 → order_size_of order ≡ 2 ^ order
order_size-exact order le = omega (arith, pow_order-le order le)

-- The bits with those of the blocks from `from` up to `upto` of one order cleared.
abbrev pub between : (ℕ → ℕ → ℕ) → ℕ → ℕ → ℕ → ℕ → ℕ → ℕ
between bits order from upto j i = if order == j && (leb from i && ltb i upto) then 0 else bits j i

between_none : (bits : ℕ → ℕ → ℕ) (order from j i : ℕ) → bits j i ≡ between bits order from from j i
between_none bits order from j i = ground arith

between_more :
    (bits : ℕ → ℕ → ℕ) (order from upto j i : ℕ)
    → from < upto
    → between (without bits order from) order (from + 1) upto j i ≡ between bits order from upto j i
between_more bits order from upto j i lt = ground arith

-- The loop over one order returns: it clears the blocks from where it starts, and stops less than a block
-- before the end.
pub record IsCovered (pages orders : ℕ) (bits : ℕ → ℕ → ℕ) (order processed : ℕ)
    (r : List BtreeBitmap × ℕ) : Type 0 where
  pub bitmaps_kept :
      IsOrders pages orders (between bits order (processed / 2 ^ order) (r.1 / 2 ^ order)) r.0
  pub aligned : r.1 / 2 ^ order * 2 ^ order ≡ r.1
  pub within : r.1 ≤ pages
  pub onward : processed ≤ r.1
  pub stopped : pages < r.1 + 2 ^ order

block_inside :
    (pages size processed : ℕ)
    → 0 < size
    → processed + size ≤ pages
    → processed / size < pages / size
block_inside pages size processed pos le =
    (le-div_iff_mul-le {k = size} {x = suc (processed / size)} {y = pages} pos).1
      (omega (arith, suc-mul (processed / size) size, div-mul-le_self processed size))

-- One round of the loop, and the last one.
cover_order-more :
    (pages order fuel processed : ℕ) (free free' : List BtreeBitmap)
    → order_size_of order ≡ 2 ^ order
    → add32 processed (2 ^ order) ≡ processed + 2 ^ order
    → leb (processed + 2 ^ order) pages ≡ true
    → clear_at free order (processed / 2 ^ order) ≡ ok free'
    → cover_order clear_at (suc fuel) order pages processed free
      ≡ cover_order clear_at fuel order pages (processed + 2 ^ order) free'
unfolding cover_order
cover_order-more pages order fuel processed free free' size sum more returns =
    rw (size, sum, more, returns) refl

pub cover_order-IsCovered :
    (pages orders : ℕ) (bits : ℕ → ℕ → ℕ) (order fuel processed : ℕ) (free : List BtreeBitmap)
    → IsOrders pages orders bits free
    → order < orders
    → order ≤ 20
    → pages + 2 ^ 20 < u32_size
    → processed / 2 ^ order * 2 ^ order ≡ processed
    → processed ≤ pages
    → pages ≤ processed + fuel
    → (r : List BtreeBitmap × ℕ) × (cover_order clear_at fuel order pages processed free ≡ ok r)
      × IsCovered pages orders bits order processed r
unfolding cover_order
cover_order-IsCovered pages orders bits order zero processed free w lt le room whole within enough =
    (
      (free, processed),
      refl,
      record {
        bitmaps_kept =
            IsOrders-same (λ j i _ _. between_none bits order (processed / 2 ^ order) j i) w;
        aligned = whole;
        within = within;
        onward = omega arith;
        stopped = omega (arith, pow_pos order);
      },
    )
cover_order-IsCovered pages orders bits order (suc fuel) processed free w lt le room whole within
      enough =
    let size = order_size-exact order le in
    let small = pow_order-le order le in
    let pos = pow_pos order in
    let sum : add32 processed (2 ^ order) ≡ processed + 2 ^ order = omega arith in
    let here = processed / 2 ^ order in
    elim (Bool-cases (leb (processed + 2 ^ order) pages)) [
      | inl more ↦
          let fits : processed + 2 ^ order ≤ pages = ground arith in
          let next : (processed + 2 ^ order) / 2 ^ order ≡ here + 1 = add-div_right processed pos in
          let (free', returns, w') =
            clear_at-IsOrders pages orders bits order here free w lt
              (block_inside pages (2 ^ order) processed pos fits) in
          let whole' : (processed + 2 ^ order) / 2 ^ order * 2 ^ order ≡ processed + 2 ^ order =
            ap (λ n. n * 2 ^ order) next ∙ omega (arith, suc-mul here (2 ^ order)) in
          let (r, rest, c) =
            cover_order-IsCovered pages orders (without bits order here) order fuel
              (processed + 2 ^ order) free' w' lt le room whole' fits (omega arith) in
          let onward = c.onward in
          let passed = block_inside r.1 (2 ^ order) processed pos onward in
          (
            r,
            cover_order-more pages order fuel processed free free' size sum more returns ∙ rest,
            record {
              bitmaps_kept =
                  IsOrders-same
                    (λ j i _ _.
                      ap (λ n. between (without bits order here) order n (r.1 / 2 ^ order) j i) next
                      ∙ between_more bits order here (r.1 / 2 ^ order) j i passed)
                    c.bitmaps_kept;
              aligned = c.aligned;
              within = c.within;
              onward = omega arith;
              stopped = c.stopped;
            },
          )
      | inr last ↦ (
        (free, processed),
        rw (size, sum, last) refl,
        record {
          bitmaps_kept = IsOrders-same (λ j i _ _. between_none bits order here j i) w;
          aligned = whole;
          within = within;
          onward = omega arith;
          stopped = ground arith;
        },
      )
    ]
