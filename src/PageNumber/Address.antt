-- ===== src/PageNumber/Address.antt =====
-- Where pages lie in the file, and the order of their addresses.
use Prim.Native.Nat.{compare, Ordering}
use native.Mathlib.Nat.{mul-le-mul_right}
use redbx.Prelude.{
  ℕ, suc, ◌+◌, ◌-◌, ◌*◌, ◌%◌, ◌^◌, ◌<◌, ◌≤◌, ◌≡◌, ap, sym, ◌∙◌, ok, arith, ◌⊎◌, inl, inr,
}
use redbx.Prelude.Word.{u32_size, u64_size, mul32}
use redbx.Prelude.Bits.{pow_pos}
use redbx.PageNumber.{PageNumber, cmp, page_size_bytes, address_range}
use redbx.PageNumber.RoundTrip.{IsPage, order_lem, pow_order-le}

-- How the file is cut: the sizes that `address_range` is called with.
pub record Cut : Type 0 where
  pub data_section_offset : ℕ
  pub region_size : ℕ
  pub region_pages_start : ℕ
  pub page_size : ℕ

-- The first order-0 page of a page, and the one after its last.
abbrev pub first_page : PageNumber → ℕ
first_page p = p.page_index * 2 ^ p.page_order

abbrev pub after_page : PageNumber → ℕ
after_page p = p.page_index * 2 ^ p.page_order + 2 ^ p.page_order

abbrev pub start_address : Cut → PageNumber → ℕ
start_address c p =
    (address_range p c.data_section_offset c.region_size c.region_pages_start c.page_size).0

abbrev pub end_address : Cut → PageNumber → ℕ
end_address c p =
    (address_range p c.data_section_offset c.region_size c.region_pages_start c.page_size).1

-- The page lies in its region, and its region in a file whose addresses fit a `u64`.
pub record Within (c : Cut) (p : PageNumber) : Type 0 where
  pub page : IsPage p
  pub page_size : 0 < c.page_size
  pub inside : c.region_pages_start + after_page p * c.page_size ≤ c.region_size
  pub file : c.data_section_offset + (p.region + 1) * c.region_size < u64_size

module _ (c : Cut) (p : PageNumber) (h : Within c p) where
  -- In range nothing wraps: the addresses in exact arithmetic.
  pub size_exact : page_size_bytes p c.page_size ≡ 2 ^ p.page_order * c.page_size
  unfolding page_size_bytes
  size_exact =
      let pages : 1 * 2 ^ p.page_order % u64_size ≡ 2 ^ p.page_order =
        omega (arith, pow_order-le p.page_order h.page.order) in
      rw pages (omega (arith, h.inside, h.file))

  pub start_exact :
      start_address c p
      ≡ c.data_section_offset
        + p.region * c.region_size
        + (c.region_pages_start + first_page p * c.page_size)
  unfolding address_range
  start_exact = rw size_exact (omega (arith, h.inside, h.file))

  pub end_exact : end_address c p ≡ start_address c p + 2 ^ p.page_order * c.page_size
  unfolding address_range
  end_exact = rw size_exact (omega (arith, h.inside, h.file))

  size_pos : 0 < 2 ^ p.page_order * c.page_size
  size_pos = omega (
    arith,
    mul-le-mul_right {m = 1} {n = 2 ^ p.page_order} c.page_size (pow_pos p.page_order),
    h.page_size,
  )

  first_page_small : after_page p ≤ 2 ^ 20
  first_page_small =
      let bound =
        mul-le-mul_right {m = suc p.page_index} {n = 2 ^ (20 - p.page_order)} (2 ^ p.page_order)
          h.page.index in
      omega (arith, bound, order_lem p.page_order h.page.order)

compare-mul_pos : (a b k : ℕ) → 0 < k → compare (a * k) (b * k) ≡ compare a b
compare-mul_pos a b k pos =
    ground (arith, mul-le-mul_right {m = suc a} {n = b} k, mul-le-mul_right {m = suc b} {n = a} k)

compare-add : (a b k : ℕ) → compare (k + a) (k + b) ≡ compare a b
compare-add a b k = ground arith

module _ (c : Cut) (p q : PageNumber) (hp : Within c p) (hq : Within c q) where
  -- A page of an earlier region ends before a page of a later one begins.
  regions_apart : p.region < q.region → end_address c p ≤ start_address c q
  regions_apart lt =
      rw (end_exact c p hp, start_exact c p hp, start_exact c q hq)
        (omega
          (arith, hp.inside, mul-le-mul_right {m = suc p.region} {n = q.region} c.region_size lt))

  -- Pages of one region that share no order-0 page share no byte.
  pages_apart :
      p.region ≡ q.region → after_page p ≤ first_page q → end_address c p ≤ start_address c q
  pages_apart same le =
      rw (end_exact c p hp, start_exact c p hp, start_exact c q hq)
        (omega (
          arith,
          ap (λ r. r * c.region_size) same,
          mul-le-mul_right {m = after_page p} {n = first_page q} c.page_size le,
        ))

  -- Where both pages lie within their regions of the file, a page that lies before another, in an earlier region or in earlier order-0 pages of the same
  -- region, ends in the file before the other begins.
  pub address_range_disjoint :
      (p.region < q.region) ⊎ ((p.region ≡ q.region) × (after_page p ≤ first_page q))
      → end_address c p ≤ start_address c q
  address_range_disjoint (inl lt) = regions_apart lt
  address_range_disjoint (inr (same, le)) = pages_apart same le

  same_region :
      p.region ≡ q.region
      → compare (first_page p) (first_page q) ≡ compare (start_address c p) (start_address c q)
  same_region same =
      let base = c.data_section_offset + p.region * c.region_size in
      let base' : c.data_section_offset + q.region * c.region_size ≡ base =
        omega (arith, ap (λ r. r * c.region_size) same) in
      rw (start_exact c p hp, start_exact c q hq, base')
        (sym (
          compare-add (c.region_pages_start + first_page p * c.page_size)
            (c.region_pages_start + first_page q * c.page_size) base
          ∙ compare-add (first_page p * c.page_size) (first_page q * c.page_size)
              c.region_pages_start
          ∙ compare-mul_pos (first_page p) (first_page q) c.page_size hp.page_size))

  starts_apart : p.region < q.region → start_address c p < start_address c q
  starts_apart lt = omega (arith, regions_apart lt, end_exact c p hp, size_pos c p hp)

cmp-cases :
    (p q : PageNumber) (o : Ordering)
    → first_page p < u32_size
    → first_page q < u32_size
    → cmp p q ≡ ok o
    → ((p.region < q.region) × (o ≡ Ordering.lt))
      ⊎ ((p.region ≡ q.region) × (o ≡ compare (first_page p) (first_page q)))
      ⊎ ((q.region < p.region) × (o ≡ Ordering.gt))
unfolding cmp
cmp-cases p q o small small' e =
    let exact : mul32 p.page_index (2 ^ p.page_order) ≡ first_page p = omega arith in
    let exact' : mul32 q.page_index (2 ^ q.page_order) ≡ first_page q = omega arith in
    ground (arith, exact, exact')

-- Where both pages lie within their regions of the file, their comparison, if it does not panic, is
-- that of the addresses at which they start.
pub cmp-start_address :
    (c : Cut) (p q : PageNumber) (o : Ordering)
    → Within c p
    → Within c q
    → cmp p q ≡ ok o
    → o ≡ compare (start_address c p) (start_address c q)
cmp-start_address c p q o hp hq e =
    elim (cmp-cases p q o (omega (arith, first_page_small c p hp))
      (omega (arith, first_page_small c q hq)) e) [
        | inl (lt, less) ↦ ground (arith, starts_apart c p q hp hq lt)
        | inr (inl (same, o_eq)) ↦ o_eq ∙ same_region c p q hp hq same
        | inr (inr (gt, greater)) ↦ ground (arith, starts_apart c q p hq hp gt)
      ]
