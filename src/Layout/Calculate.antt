-- ===== src/Layout/Calculate.antt =====
-- `DatabaseLayout::calculate` of src/tree_store/page_store/layout.rs and the room that it leaves.
use redbx.Prelude.{ℕ, ◌+◌, ◌<◌, ◌≤◌, ◌≡◌, ◌>>=◌, ◌>>◌}
use redbx.Layout.Region
use redbx.Layout.Region.{rem, round_up_to_multiple_of}
use redbx.Layout.{DatabaseLayout, usable_bytes}

-- What `calculate` returns: the full regions copy the arguments, and the layout has the desired
-- bytes with less than a page to spare.
pub record Fits (desired page_capacity header page : ℕ) (l : DatabaseLayout) : Type 0 where
  pub full_region_layout :
      l.full_region_layout
      ≡ record { num_pages = page_capacity; header_pages = header; page_size = page }
  pub enough : desired ≤ usable_bytes l
  pub tight : usable_bytes l < desired + page
