-- ===== src/Layout/Region.antt =====
-- `RegionLayout` of src/tree_store/page_store/layout.rs. A panic is `panic`; a conversion that cannot
-- lose anything, such as `u64::from`, is left out.
use redbx.Prelude.{
  ℕ, ◌/◌, ◌%◌, Outcome, ok, panic, ◌>>=◌, ◌>>◌, check, unwrap, if◌then◌else◌, ltb, leb, ◌==◌,
}
use redbx.Prelude.Word.{add64, sub64, mul64, to_u32}

-- `a / b` and `a % b` panic at 0.
unfoldable pub div : ℕ → ℕ → Outcome ℕ
div a b = if b == 0 then panic else ok (a / b)

unfoldable pub rem : ℕ → ℕ → Outcome ℕ
rem a b = if b == 0 then panic else ok (a % b)

unfoldable pub round_up_to_multiple_of : ℕ → ℕ → Outcome ℕ
round_up_to_multiple_of value multiple = do
  r ← rem value multiple
  ok (if r == 0 then value else sub64 (add64 value multiple) r)

pub record RegionLayout : Type 0 where
  pub num_pages : ℕ
  -- where the data pages start
  pub header_pages : ℕ
  pub page_size : ℕ

unfoldable pub new : ℕ → ℕ → ℕ → Outcome RegionLayout
new num_pages header_pages page_size = do
  check (ltb 0 num_pages)
  ok (record { num_pages = num_pages; header_pages = header_pages; page_size = page_size })

unfoldable pub calculate : ℕ → ℕ → ℕ → ℕ → Outcome RegionLayout
unfolding round_up_to_multiple_of
calculate desired_usable_bytes page_capacity region_header_pages page_size = do
  check (leb desired_usable_bytes (mul64 page_capacity page_size))
  rounded ← round_up_to_multiple_of desired_usable_bytes page_size
  quotient ← div rounded page_size
  num_pages ← unwrap (to_u32 quotient)
  ok (record { num_pages = num_pages; header_pages = region_header_pages; page_size = page_size })

unfoldable pub usable_bytes : RegionLayout → ℕ
usable_bytes r = mul64 r.page_size r.num_pages

unfoldable pub data_section : RegionLayout → ℕ × ℕ
unfolding usable_bytes
data_section r =
    let header_bytes = mul64 r.header_pages r.page_size in
    (header_bytes, add64 header_bytes (usable_bytes r))

unfoldable pub len : RegionLayout → ℕ
unfolding usable_bytes
len r = add64 (mul64 r.header_pages r.page_size) (usable_bytes r)
