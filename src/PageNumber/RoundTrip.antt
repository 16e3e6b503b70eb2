-- ===== src/PageNumber/RoundTrip.antt =====
-- What `from_le_bytes` reads from what `to_le_bytes` wrote.
use Prim.Native.Nat.{bit_and}
use native.Mathlib.Nat.{add-mul-mod_self_left, mod-eq_of_lt}
use redbx.Prelude.{
  ℕ, zero, suc, ◌+◌, ◌-◌, ◌*◌, ◌/◌, ◌%◌, ◌^◌, ◌<◌, ◌≤◌, ◌≡◌, refl, ap, ◌∙◌, Bool, true, ◌&&◌, ok,
  arith, ◌==◌, ==_iff, leb, leb→le, lt→ltb,
}
use redbx.Prelude.Word.{u32_size, u64_size}
use redbx.Prelude.Bits.{or_disjoint, and_ones, and_ones_right}
use redbx.Prelude.Bytes.{from_le-to_le}
use redbx.PageNumber.{PageNumber, packed, to_le_bytes, unpacked, from_le_bytes}

-- A page of a region: a region has room for 2^20 pages of order 0.
pub record IsPage (p : PageNumber) : Type 0 where
  pub region : p.region < 2 ^ 20
  pub order : p.page_order ≤ 20
  pub index : p.page_index < 2 ^ (20 - p.page_order)

-- Two facts about the orders, checked one by one.
all_below : ℕ → (ℕ → Bool) → Bool
all_below zero p = true
all_below (suc n) p = p n && all_below n p

all_below_at : (n : ℕ) (p : ℕ → Bool) (x : ℕ) → all_below n p ≡ true → x < n → p x ≡ true
unfolding all_below
all_below_at zero p x h lt = absurd (omega arith)
all_below_at (suc n) p x h lt = ground (arith, all_below_at n p x)

pub mask_lem : (o : ℕ) → o ≤ 20 → 0xFFFFF / 2 ^ o ≡ 2 ^ (20 - o) - 1
unfolding all_below
mask_lem o h =
    (==_iff _ _).0 (all_below_at 21 (λ o. 0xFFFFF / 2 ^ o == 2 ^ (20 - o) - 1) o refl (omega arith))

pub order_lem : (o : ℕ) → o ≤ 20 → 2 ^ (20 - o) * 2 ^ o ≡ 2 ^ 20
unfolding all_below
order_lem o h =
    (==_iff _ _).0 (all_below_at 21 (λ o. 2 ^ (20 - o) * 2 ^ o == 2 ^ 20) o refl (omega arith))

pub pow-le : (o : ℕ) → o ≤ 20 → 2 ^ (20 - o) ≤ 2 ^ 20
unfolding all_below
pow-le o h = leb→le _ _ (all_below_at 21 (λ o. leb (2 ^ (20 - o)) (2 ^ 20)) o refl (omega arith))

pub pow_order-le : (o : ℕ) → o ≤ 20 → 2 ^ o ≤ 2 ^ 20
unfolding all_below
pow_order-le o h = leb→le _ _ (all_below_at 21 (λ o. leb (2 ^ o) (2 ^ 20)) o refl (omega arith))

-- The three fields stand side by side.
pub packed_lem :
    (p : PageNumber)
    → IsPage p
    → packed p ≡ p.page_index + p.region * 2 ^ 20 + p.page_order * 2 ^ 59
unfolding packed
packed_lem p h =
    let small = pow-le p.page_order h.order in
    let index : bit_and 0xFFFFF p.page_index ≡ p.page_index =
      and_ones 20 p.page_index ∙ omega (arith, h.index) in
    let region : bit_and 0xFFFFF p.region ≡ p.region =
      and_ones 20 p.region ∙ omega (arith, h.region) in
    let order : bit_and 0b11111 p.page_order ≡ p.page_order =
      and_ones 5 p.page_order ∙ omega (arith, h.order) in
    let low : p.region * 2 ^ 20 % u64_size ≡ p.region * 2 ^ 20 = omega (arith, h.region) in
    let high : p.page_order * 2 ^ 59 % u64_size ≡ p.page_order * 2 ^ 59 = omega (arith, h.order) in
    rw
      (
        index,
        region,
        order,
        low,
        high,
        or_disjoint 20 p.page_index p.region (omega (arith, h.index)),
      )
      (or_disjoint 59 (p.page_index + p.region * 2 ^ 20) p.page_order
        (omega (arith, h.index, h.region)))

packed_small : (p : PageNumber) → IsPage p → packed p < 256 ^ 8
packed_small p h =
    let small = pow-le p.page_order h.order in
    omega (arith, packed_lem p h, h.index, h.region, h.order)

unpacked-packed : (p : PageNumber) → IsPage p → unpacked (packed p) ≡ ok p
unfolding unpacked
unpacked-packed p h =
    let small = pow-le p.page_order h.order in
    let m = 2 ^ (20 - p.page_order) in
    let sum = packed_lem p h in
    let order : packed p / 2 ^ 59 % 256 ≡ p.page_order =
      omega (arith, sum, h.index, h.region, h.order) in
    let above = 2 ^ p.page_order * (p.region + p.page_order * 2 ^ 39) in
    let split : packed p ≡ p.page_index + m * above = omega (
      arith,
      sum,
      ap (λ z. z * (p.region + p.page_order * 2 ^ 39)) (order_lem p.page_order h.order),
    ) in
    let index : bit_and (packed p) (m - 1) ≡ p.page_index =
      and_ones_right (20 - p.page_order) (packed p)
      ∙ ap (λ z. z % m) split
      ∙ add-mul-mod_self_left p.page_index m above
      ∙ mod-eq_of_lt h.index in
    let region : bit_and (packed p / 2 ^ 20) 0xFFFFF ≡ p.region =
      and_ones_right 20 (packed p / 2 ^ 20) ∙ omega (arith, sum, h.index, h.region, h.order) in
    rw (
      order,
      mask_lem p.page_order h.order,
      index,
      region,
      lt→ltb p.page_index u32_size (omega (arith, h.index)),
    )

-- The stored bytes of a page number whose region, order and index are in range are read back as that
-- page number.
pub from_le_bytes-to_le_bytes : (p : PageNumber) → IsPage p → from_le_bytes (to_le_bytes p) ≡ ok p
unfolding from_le_bytes to_le_bytes
from_le_bytes-to_le_bytes p h =
    rw (from_le-to_le 8 (packed p) (packed_small p h)) (unpacked-packed p h)
