-- ===== src/Layout/Sizes.antt =====
-- The sizes and addresses of a layout in exact arithmetic.
use redbx.Prelude.{
  ℕ, ◌+◌, ◌*◌, ◌<◌, ◌≤◌, ◌≡◌, ap, Option, none, some, ok, arith, if◌then◌else◌, subst, lt→ltb, suc,
  zero,
}
use redbx.Prelude.Map.{is_some}
use redbx.Prelude.Word.{u32_size, u64_size, add64, mul64}
use native.Mathlib.Nat.{mul-le-mul_right}
use redbx.Layout.Region.{RegionLayout}
use redbx.Layout.Region
use redbx.Layout.{DatabaseLayout, num_regions, region_base_address, region_layout}

-- What the fields of a region can be: `u32` numbers, and at least one page.
pub record IsRegion (r : RegionLayout) : Type 0 where
  pub pages : (0 < r.num_pages) × (r.num_pages < u32_size)
  pub header : r.header_pages < u32_size
  pub page : (0 < r.page_size) × (r.page_size < u32_size)

-- The bytes of a region, and of its pages, in exact arithmetic.
abbrev pub data_bytes : RegionLayout → ℕ
data_bytes r = r.page_size * r.num_pages

abbrev pub region_bytes : RegionLayout → ℕ
region_bytes r = r.header_pages * r.page_size + r.page_size * r.num_pages

pub len-region_bytes :
    (r : RegionLayout) → IsRegion r → region_bytes r < u64_size → Region.len r ≡ region_bytes r
unfolding Region.len
len-region_bytes r h fits = omega arith

abbrev pub trailing_bytes : Option RegionLayout → ℕ
trailing_bytes none = 0
trailing_bytes (some r) = region_bytes r

-- Super-header, full regions, trailing region.
abbrev pub layout_bytes : DatabaseLayout → ℕ
layout_bytes l =
    l.full_region_layout.page_size
    + l.num_full_regions * region_bytes l.full_region_layout
    + trailing_bytes l.trailing_partial_region

-- The trailing region has the header and page size of the full ones, and no more pages.
abbrev pub IsTrailing : RegionLayout → Option RegionLayout → Type 0
IsTrailing full none = Unit
IsTrailing full (some r) =
    (0 < r.num_pages)
    × (r.num_pages ≤ full.num_pages)
    × (r.header_pages ≡ full.header_pages)
    × (r.page_size ≡ full.page_size)

abbrev pub SomeRegion : ℕ → Option RegionLayout → Type 0
SomeRegion n none = 0 < n
SomeRegion n (some r) = Unit

-- A layout whose file fits a `u64` and that has a region.
pub record IsLayout (l : DatabaseLayout) : Type 0 where
  pub full : IsRegion l.full_region_layout
  pub trailing : IsTrailing l.full_region_layout l.trailing_partial_region
  pub regions : l.num_full_regions + 1 < u32_size
  pub inhabited : SomeRegion l.num_full_regions l.trailing_partial_region
  pub fits : layout_bytes l < u64_size

module _ (l : DatabaseLayout) (h : IsLayout l) where
  -- The number of regions, in exact arithmetic.
  abbrev pub region_count : ℕ
  region_count = l.num_full_regions + (if is_some l.trailing_partial_region then 1 else 0)

  pub num_regions-region_count : num_regions l ≡ region_count
  unfolding num_regions
  num_regions-region_count = ground (arith, h.regions)

  pub full_len :
      (k : ℕ)
      → k < l.num_full_regions
      → Region.len l.full_region_layout ≡ region_bytes l.full_region_layout
  full_len k lt = len-region_bytes l.full_region_layout h.full (
      grind (
        arith,
        mul-le-mul_right {m = 1} {n = l.num_full_regions} (region_bytes l.full_region_layout),
      ))

  address_lem :
      (r : ℕ)
      → r ≤ l.num_full_regions
      → add64 l.full_region_layout.page_size (mul64 r (Region.len l.full_region_layout))
        ≡ l.full_region_layout.page_size + r * region_bytes l.full_region_layout
  address_lem zero le = omega (arith, h.full.page)
  address_lem (suc k) le =
      let bytes = region_bytes l.full_region_layout in
      let bound = mul-le-mul_right {m = suc k} {n = l.num_full_regions} bytes le in
      rw (full_len k le) (omega (arith, h.fits))

  -- Region `r` starts after the super-header and `r` full regions, at an address that does not wrap.
  pub region_base_address_lem :
      (r : ℕ)
      → r < region_count
      → region_base_address l r
        ≡ ok (l.full_region_layout.page_size + r * region_bytes l.full_region_layout)
  unfolding region_base_address
  region_base_address_lem r lt =
      rw (num_regions-region_count, lt→ltb r region_count lt, address_lem r (ground arith))

  -- Region `r` is a full one, or the trailing one if it is the last.
  pub region_layout_full :
      (r : ℕ) → r < l.num_full_regions → region_layout l r ≡ ok l.full_region_layout
  unfolding region_layout
  region_layout_full r lt = rw num_regions-region_count (ground arith)

  pub region_layout_trailing :
      (t : RegionLayout)
      → l.trailing_partial_region ≡ some t
      → region_layout l l.num_full_regions ≡ ok t
  unfolding region_layout
  region_layout_trailing t e = rw num_regions-region_count (ground arith)

  pub IsTrailing-at :
      (t : RegionLayout)
      → l.trailing_partial_region ≡ some t
      → IsTrailing l.full_region_layout (some t)
  IsTrailing-at t e = subst (IsTrailing l.full_region_layout) e h.trailing

  -- The trailing region is a region, and its bytes fit.
  pub trailing-IsRegion :
      (t : RegionLayout)
      → l.trailing_partial_region ≡ some t
      → IsRegion t × (region_bytes t < u64_size)
  trailing-IsRegion t e =
      let (pos, le, header, page) = IsTrailing-at t e in
      let full = h.full in
      (
        record {
          pages = (pos, omega (arith, full.pages));
          header = omega (arith, full.header);
          page = omega (arith, full.page);
        },
        omega (arith, h.fits, ap trailing_bytes e),
      )
