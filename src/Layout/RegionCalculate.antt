-- ===== src/Layout/RegionCalculate.antt =====
-- `RegionLayout::calculate` of src/tree_store/page_store/layout.rs and the room that it leaves.
use redbx.Prelude.{
  ℕ, ◌+◌, ◌*◌, ◌/◌, ◌%◌, ◌<◌, ◌≤◌, ◌≡◌, refl, ap, true, false, Option, none, some, ok, arith,
  if◌then◌else◌, inl, inr, ◌⊎◌, leb, lt→ltb, le→leb, ◌==◌, Bool-cases,
}
use redbx.Prelude.Word.{u32_size, u64_size, mul64}
use native.Mathlib.Nat.{mul-div_left, mod-lt, div-add-mod', lt_of_mul-lt-mul_left, mul-le-mul}
use redbx.Layout.Region
use redbx.Layout.Region.{RegionLayout, div, rem, round_up_to_multiple_of}

-- The region asked for: what it copies, and that its pages hold the bytes with less than a page
-- to spare.
pub record Holds (desired page_capacity header page : ℕ) (r : RegionLayout) : Type 0 where
  pub header_pages : r.header_pages ≡ header
  pub page_size : r.page_size ≡ page
  pub pages : r.num_pages ≤ page_capacity
  pub enough : desired ≤ Region.usable_bytes r
  pub tight : Region.usable_bytes r < desired + page

-- How many pages hold the bytes.
pages_for : ℕ → ℕ → ℕ
pages_for desired page = if desired % page == 0 then desired / page else desired / page + 1

-- Either the bytes fill whole pages, or one more page is begun.
pages_for-cases :
    (desired page : ℕ)
    → (((desired % page == 0) ≡ true) × (pages_for desired page ≡ desired / page))
      ⊎ (((desired % page == 0) ≡ false) × (pages_for desired page ≡ desired / page + 1))
unfolding pages_for
pages_for-cases desired page = elim (Bool-cases (desired % page == 0)) [
  | inl whole ↦ inl (whole, rw whole)
  | inr part ↦ inr (part, rw part)
]

pages_for_bounds :
    (desired page : ℕ)
    → 0 < page
    → (desired ≤ pages_for desired page * page) × (pages_for desired page * page < desired + page)
pages_for_bounds desired page pos =
    let split : desired / page * page + desired % page ≡ desired = div-add-mod' desired page in
    let small = mod-lt desired {m = page} pos in
    elim (pages_for-cases desired page) [
      | inl (whole, e) ↦
          let zero_rest : desired % page ≡ 0 = ground arith in omega (arith, ap (λ k. k * page) e)
      | inr (part, e) ↦
          let some_rest : 0 < desired % page = ground arith in omega (arith, ap (λ k. k * page) e)
    ]

rounded :
    (desired page : ℕ)
    → 0 < page
    → desired + page < u64_size
    → round_up_to_multiple_of desired page ≡ ok (pages_for desired page * page)
unfolding round_up_to_multiple_of rem
rounded desired page pos room =
    let split : desired / page * page + desired % page ≡ desired = div-add-mod' desired page in
    let small = mod-lt desired {m = page} pos in
    let nonzero : (page == 0) ≡ false = ground arith in
    rw nonzero (elim (pages_for-cases desired page) [
      | inl (whole, e) ↦
          let zero_rest : desired % page ≡ 0 = ground arith in
          rw whole (ap ok (omega (arith, ap (λ k. k * page) e)))
      | inr (part, e) ↦ rw part (ap ok (omega (arith, ap (λ k. k * page) e)))
    ])

pub product_small : (a b : ℕ) → a < u32_size → b < u32_size → a * b < u64_size
product_small a b p q =
    let bound =
      mul-le-mul {n₁ = a} {m₁ = b} {n₂ = 4294967295} {m₂ = 4294967295} (omega arith)
        (omega arith) in
    omega arith

abbrev pub usable_of : Option RegionLayout → ℕ
usable_of none = 0
usable_of (some r) = Region.usable_bytes r

-- A region for at most the bytes of a full one is made.
pub calculate-Holds :
    (desired capacity header page : ℕ)
    → 0 < page
    → page < u32_size
    → capacity < u32_size
    → desired ≤ capacity * page
    → desired + page < u64_size
    → (r : RegionLayout) × (Region.calculate desired capacity header page ≡ ok r)
      × Holds desired capacity header page r
unfolding Region.calculate Region.usable_bytes div
calculate-Holds desired capacity header page pos small capacity_small fits room =
    let n = pages_for desired page in
    let (enough, tight) = pages_for_bounds desired page pos in
    let product = product_small capacity page capacity_small small in
    let within : leb desired (mul64 capacity page) ≡ true = le→leb _ _ (omega arith) in
    let back : n * page / page ≡ n = mul-div_left n pos in
    let nonzero : (page == 0) ≡ false = ground arith in
    let few : n ≤ capacity =
      omega (arith, lt_of_mul-lt-mul_left page {m = n} {n = capacity + 1} (omega arith)) in
    let exact : mul64 page n ≡ n * page = omega arith in
    (
      record { num_pages = n; header_pages = header; page_size = page },
      rw (within, rounded desired page pos room, nonzero, back, lt→ltb n u32_size (omega arith)),
      record {
        header_pages = refl;
        page_size = refl;
        pages = few;
        enough = rw exact enough;
        tight = rw exact tight;
      },
    )
