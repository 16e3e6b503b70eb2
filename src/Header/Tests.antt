-- ===== src/Header/Tests.antt =====
-- A database header of src/tree_store/page_store/header.rs on a small input.
use redbx.Prelude.{
  ℕ, ◌%◌, ◌^◌, ◌<◌, ◌≡◌, refl, arith, List, replicate, ok, ◌>>=◌, none, some, Bool, true, false,
  ◌⊎◌, inr,
}
use redbx.Prelude.Bytes.{from_le}
use redbx.Layout.{DatabaseLayout}
use redbx.Header.Sizes.{IsTail, layout-set_layout}
use redbx.Header.{
  layout, set_layout, DatabaseHeader, HeaderRepairInfo, to_bytes, from_bytes,
  pick_primary_for_repair,
}
use redbx.Header.Slot.{TransactionHeader, DatabaseError, slot_to_bytes, slot_from_bytes}
use redbx.Header.Slot.Roots.{IsRoots}
use redbx.Header.Slot.RoundTrip.{IsSlot, slot_from_bytes-slot_to_bytes}
use redbx.Header.Repair.{Picked, pick_primary_for_repair-Picked}
use redbx.Header.RoundTrip.{IsHeader, from_bytes-to_bytes}

-- A checksum of 128 bits.
abbrev checksum : List ℕ → ℕ
checksum bytes = from_le bytes % 256 ^ 16

checksum-fits : (bytes : List ℕ) → checksum bytes < 256 ^ 16
checksum-fits bytes = omega arith

abbrev old_slot : TransactionHeader
old_slot = record { version = 3; user_root = none; system_root = none; transaction_id = 8 }

abbrev new_slot : TransactionHeader
new_slot = record {
  version = 3;
  user_root = some (record {
    root = record { region = 1; page_index = 6; page_order = 0 };
    checksum = 0x1234567890ABCDEF1234;
    length = 42;
  });
  system_root = none;
  transaction_id = 9;
}

-- The primary is the older slot.
abbrev header : DatabaseHeader
header = record {
  primary = 0;
  recovery_required = true;
  two_phase_commit = false;
  page_size = 4096;
  region_header_pages = 10;
  region_max_data_pages = 1000;
  full_regions = 2;
  trailing_partial_region_pages = 300;
  salt = replicate 16 77;
  slot0 = old_slot;
  slot1 = new_slot;
}

abbrev sound : HeaderRepairInfo
sound = record {
  invalid_magic_number = false;
  primary_corrupted = false;
  secondary_corrupted = false;
}

old_slot-IsSlot : IsSlot old_slot
old_slot-IsSlot = record {
  version = refl;
  user_root = IsRoots.no_root;
  system_root = IsRoots.no_root;
  transaction_id = omega arith;
}

new_slot-IsSlot : IsSlot new_slot
new_slot-IsSlot = record {
  version = refl;
  user_root = IsRoots.a_root _ (record {
    page = record { region = omega arith; order = omega arith; index = omega arith };
    checksum = omega arith;
    length_fits = omega arith;
  });
  system_root = IsRoots.no_root;
  transaction_id = omega arith;
}

header-IsHeader : IsHeader header
header-IsHeader = record {
  primary = omega arith;
  page_size = omega arith;
  header_pages = omega arith;
  data_pages = omega arith;
  full_regions = omega arith;
  trailing_pages = omega arith;
  salt = refl;
  slot0 = old_slot-IsSlot;
  slot1 = new_slot-IsSlot;
}

slot_from_bytes-slot_to_bytes_example :
    (slot_to_bytes checksum new_slot >>= slot_from_bytes checksum) ≡ ok (inr (new_slot, false))
slot_from_bytes-slot_to_bytes_example =
    slot_from_bytes-slot_to_bytes checksum new_slot checksum-fits new_slot-IsSlot

from_bytes-to_bytes_example :
    (to_bytes checksum header true >>= from_bytes checksum) ≡ ok (inr (header, sound))
from_bytes-to_bytes_example = from_bytes-to_bytes checksum header checksum-fits header-IsHeader

pick_primary_for_repair-Picked_example :
    (r : DatabaseError ⊎ (Bool × DatabaseHeader)) × (pick_primary_for_repair header sound ≡ ok r)
    × Picked header sound r
pick_primary_for_repair-Picked_example = pick_primary_for_repair-Picked header sound (omega arith)

-- The file has grown by a region, and the trailing region is shorter.
abbrev grown : DatabaseLayout
grown = record {
  full_region_layout = record { num_pages = 1000; header_pages = 10; page_size = 4096 };
  num_full_regions = 3;
  trailing_partial_region = some (record { num_pages = 20; header_pages = 10; page_size = 4096 });
}

layout-set_layout_example :
    (h' : DatabaseHeader) × (set_layout header grown ≡ ok h') × (layout h' ≡ ok grown)
layout-set_layout_example = layout-set_layout header grown (record {
  some_pages = omega arith;
  full = refl;
  trailing = IsTail.a_tail _ (omega arith) refl refl;
})
