-- ===== src/PageNumber/Tests.antt =====
-- Page numbers of src/tree_store/page_store/base.rs on small inputs.
use Prim.Native.Nat.{compare, Ordering}
use redbx.Prelude.{◌*◌, ◌≤◌, ◌≡◌, refl, arith, ok, inr}
use redbx.PageNumber.{PageNumber, to_le_bytes, from_le_bytes, cmp}
use redbx.PageNumber.RoundTrip.{IsPage, from_le_bytes-to_le_bytes}
use redbx.PageNumber.Address.{
  Cut, Within, start_address, end_address, address_range_disjoint, cmp-start_address,
}

abbrev small_page : PageNumber
small_page = record { region = 3; page_index = 5; page_order = 0 }

-- Pages 8 to 11 of the same region.
abbrev large_page : PageNumber
large_page = record { region = 3; page_index = 2; page_order = 2 }

abbrev cut : Cut
cut = record {
  data_section_offset = 4096;
  region_size = 4096 * 1024;
  region_pages_start = 4096;
  page_size = 4096;
}

small_page-IsPage : IsPage small_page
small_page-IsPage = record { region = omega arith; order = omega arith; index = omega arith }

large_page-IsPage : IsPage large_page
large_page-IsPage = record { region = omega arith; order = omega arith; index = omega arith }

small_page-Within : Within cut small_page
small_page-Within = record {
  page = small_page-IsPage;
  page_size = omega arith;
  inside = omega arith;
  file = omega arith;
}

large_page-Within : Within cut large_page
large_page-Within = record {
  page = large_page-IsPage;
  page_size = omega arith;
  inside = omega arith;
  file = omega arith;
}

from_le_bytes-to_le_bytes_example : from_le_bytes (to_le_bytes large_page) ≡ ok large_page
from_le_bytes-to_le_bytes_example = from_le_bytes-to_le_bytes large_page large_page-IsPage

small_before_large : cmp small_page large_page ≡ ok Ordering.lt
unfolding cmp
small_before_large = refl

cmp-start_address_example :
    Ordering.lt ≡ compare (start_address cut small_page) (start_address cut large_page)
cmp-start_address_example =
    cmp-start_address cut small_page large_page Ordering.lt small_page-Within large_page-Within
      small_before_large

address_range_disjoint_example : end_address cut small_page ≤ start_address cut large_page
address_range_disjoint_example =
    address_range_disjoint cut small_page large_page small_page-Within large_page-Within
      (inr (refl, omega arith))
