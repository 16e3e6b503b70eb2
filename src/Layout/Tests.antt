-- ===== src/Layout/Tests.antt =====
-- Layouts of a database with 4 KiB pages, and the theorems at them.
use redbx.Prelude.{◌+◌, ◌*◌, ◌≡◌, refl, none, some, ok, panic, ◌>>=◌, arith}
use redbx.Layout.Region
use redbx.Layout.Region.{RegionLayout}
use redbx.Layout.{
  DatabaseLayout, reduce_last_region, recalculate_trailing, recalculate, calculate_regions,
  calculate, num_regions, region_base_address, region_layout, len, usable_bytes,
}
use redbx.Layout.Sizes.{IsLayout, layout_bytes}
use redbx.Layout.Tiling.{region_end, region_base_address-region_end, len-layout_bytes}
use redbx.Layout.Recalculate.{recalculate-len}
use redbx.Layout.Shrink.{Reduced, reduce_last_region-Reduced}

program : Unit {0}
unfolding Region.div Region.rem Region.round_up_to_multiple_of Region.new Region.calculate
    Region.usable_bytes Region.len reduce_last_region recalculate_trailing recalculate
    calculate_regions calculate num_regions region_base_address region_layout len usable_bytes
program = tt

abbrev full : RegionLayout
full = record { num_pages = 1000; header_pages = 1; page_size = 4096 }

-- Two full regions of 1000 pages and one of 10.
abbrev three : DatabaseLayout
three = record {
  full_region_layout = full;
  num_full_regions = 2;
  trailing_partial_region = some (record full { num_pages = 10 });
}

three-calculate : calculate (8232955) 1000 1 4096 ≡ ok three
unfolding program
three-calculate = refl

three-recalculate : recalculate (2014 * 4096) 1 1000 4096 ≡ ok three
unfolding program
three-recalculate = refl

three_len : len three ≡ ok (2014 * 4096)
unfolding program
three_len = refl

three_out_of_range : region_base_address three 3 ≡ panic
unfolding program
three_out_of_range = refl

-- Taking off more pages than the trailing region has panics; without one the excess is ignored.
reduce_too_many :
    (reduce_last_region three 11 ≡ panic)
    × (reduce_last_region (record three { trailing_partial_region = none }) 2000
        ≡ ok (record three { num_full_regions = 1; trailing_partial_region = none }))
unfolding program
reduce_too_many = (refl, refl)

three-IsLayout : IsLayout three
three-IsLayout = record {
  full = omega arith;
  trailing = (omega arith, omega arith, refl, refl);
  regions = omega arith;
  inhabited = tt;
  fits = omega arith;
}

region_base_address-region_end_example : region_base_address three (1 + 1) ≡ region_end three 1
region_base_address-region_end_example =
    region_base_address-region_end three three-IsLayout 1 (omega arith)

len-layout_bytes_example : len three ≡ ok (layout_bytes three)
len-layout_bytes_example = len-layout_bytes three three-IsLayout

recalculate-len_example : (do n ← len three; recalculate n 1 1000 4096) ≡ ok three
recalculate-len_example =
    recalculate-len three three-IsLayout (omega arith) (omega arith) (omega arith)

reduce_last_region-Reduced_example :
    (l : DatabaseLayout) × (reduce_last_region three 10 ≡ ok l) × Reduced 10 three l
reduce_last_region-Reduced_example =
    reduce_last_region-Reduced three 10 three-IsLayout (omega arith)
