-- ===== src/Layout.antt =====
-- `DatabaseLayout` of src/tree_store/page_store/layout.rs: some full regions, and perhaps a shorter
-- last one. `Region` is `RegionLayout`.
pub mod Region
pub mod Sizes
pub mod Tiling
pub mod Recalculate
pub mod RegionCalculate
pub mod Calculate
pub mod Shrink
mod Tests
use Region.{RegionLayout, div}
use redbx.Prelude.{
  ℕ, ◌*◌, ◌/◌, ◌%◌, Bool, true, false, not, Option, none, some, Outcome, ok, panic, ◌>>=◌, ◌>>◌,
  check, unwrap, if◌then◌else◌, ltb, leb, ◌==◌,
}
use redbx.Prelude.Map.{is_some}
use redbx.Prelude.Word.{add32, sub32, add64, sub64, mul64, to_u32}

pub record DatabaseLayout : Type 0 where
  pub full_region_layout : RegionLayout
  pub num_full_regions : ℕ
  pub trailing_partial_region : Option RegionLayout

unfoldable pub new : ℕ → RegionLayout → Option RegionLayout → DatabaseLayout
new full_regions full_region trailing_region = record {
  full_region_layout = full_region;
  num_full_regions = full_regions;
  trailing_partial_region = trailing_region;
}

unfoldable pub reduce_last_region : DatabaseLayout → ℕ → Outcome DatabaseLayout
reduce_last_region l pages = elim l.trailing_partial_region [
  | some trailing ↦ do
    check (leb pages trailing.num_pages)
    let left = sub32 trailing.num_pages pages
    ok (record l {
      trailing_partial_region =
          if left == 0 then none else some (record trailing { num_pages = left });
    })
  | none ↦
      let full = l.full_region_layout in
      let l' : DatabaseLayout = record l { num_full_regions = sub32 l.num_full_regions 1 } in
      if ltb pages full.num_pages
      then (do
        trailing ← Region.new (sub32 full.num_pages pages) full.header_pages full.page_size
        ok (record l' { trailing_partial_region = some trailing }))
      else ok l'
]

-- The trailing region of `recalculate`, when the rest of the file has room for one.
unfoldable pub recalculate_trailing : ℕ → ℕ → ℕ → ℕ → Outcome (Option RegionLayout)
recalculate_trailing remaining region_header_pages region_max_data_pages page_size = do
  remaining' ← unwrap (to_u32 (sub64 remaining (mul64 region_header_pages page_size)))
  data_pages ← div remaining' page_size
  check (ltb data_pages region_max_data_pages)
  trailing ← Region.new data_pages region_header_pages page_size
  ok (some trailing)

unfoldable pub recalculate : ℕ → ℕ → ℕ → ℕ → Outcome DatabaseLayout
recalculate file_len region_header_pages region_max_data_pages page_size = do
  let remaining = sub64 file_len page_size
  let full_region_size = mul64 (add64 region_header_pages region_max_data_pages) page_size
  full_regions ← div remaining full_region_size
  let remaining' = sub64 remaining (mul64 full_regions full_region_size)
  trailing ←
      if leb (mul64 (add64 region_header_pages 1) page_size) remaining'
      then recalculate_trailing remaining' region_header_pages region_max_data_pages page_size
      else ok none
  full_layout ← Region.new region_max_data_pages region_header_pages page_size
  full_regions' ← unwrap (to_u32 full_regions)
  ok (record {
    full_region_layout = full_layout;
    num_full_regions = full_regions';
    trailing_partial_region = trailing;
  })

-- The multi region case of `calculate`.
unfoldable pub calculate_regions : RegionLayout → ℕ → ℕ → ℕ → ℕ → Outcome DatabaseLayout
calculate_regions full desired_usable_bytes page_capacity region_header_pages page_size = do
  full_regions ← div desired_usable_bytes (Region.usable_bytes full)
  let remaining = sub64 desired_usable_bytes (mul64 full_regions (Region.usable_bytes full))
  check (ltb 0 full_regions)
  trailing ←
      if ltb 0 remaining
      then (do
        region ← Region.calculate remaining page_capacity region_header_pages page_size
        check (region.header_pages == full.header_pages)
        ok (some region))
      else ok none
  full_regions' ← unwrap (to_u32 full_regions)
  ok (record {
    full_region_layout = full;
    num_full_regions = full_regions';
    trailing_partial_region = trailing;
  })

unfoldable pub calculate : ℕ → ℕ → ℕ → ℕ → Outcome DatabaseLayout
calculate desired_usable_bytes page_capacity region_header_pages page_size = do
  full ← Region.new page_capacity region_header_pages page_size
  if leb desired_usable_bytes (Region.usable_bytes full)
      then (do
        region ← Region.calculate desired_usable_bytes page_capacity region_header_pages page_size
        ok (record {
          full_region_layout = full;
          num_full_regions = 0;
          trailing_partial_region = some region;
        }))
      else calculate_regions full desired_usable_bytes page_capacity region_header_pages page_size

unfoldable pub num_regions : DatabaseLayout → ℕ
num_regions l =
    if is_some l.trailing_partial_region then add32 l.num_full_regions 1 else l.num_full_regions

unfoldable pub region_base_address : DatabaseLayout → ℕ → Outcome ℕ
region_base_address l region = do
  check (ltb region (num_regions l))
  ok (add64 l.full_region_layout.page_size (mul64 region (Region.len l.full_region_layout)))

unfoldable pub region_layout : DatabaseLayout → ℕ → Outcome RegionLayout
region_layout l region = do
  check (ltb region (num_regions l))
  if region == l.num_full_regions then unwrap l.trailing_partial_region else ok l.full_region_layout

unfoldable pub len : DatabaseLayout → Outcome ℕ
len l = do
  let last = sub32 (num_regions l) 1
  base ← region_base_address l last
  region ← region_layout l last
  ok (add64 base (Region.len region))

unfoldable pub usable_bytes : DatabaseLayout → ℕ
usable_bytes l =
    let trailing : ℕ = elim l.trailing_partial_region [
      | none ↦ 0
      | some r ↦ Region.usable_bytes r
    ] in
    add64 (mul64 l.num_full_regions (Region.usable_bytes l.full_region_layout)) trailing
