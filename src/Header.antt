-- ===== src/Header.antt =====
-- The database header of src/tree_store/page_store/header.rs, with its two commit slots, and
-- `BtreeHeader` of src/tree_store/btree_base.rs. The checksum is an argument of what uses it.
pub mod Slot
pub mod Repair
pub mod Sizes
pub mod Fields
pub mod Writes
pub mod RoundTrip
mod Tests
use Prim.Native.Nat.{bit_and, bit_or, bit_xor}
use redbx.Prelude.{
  ℕ, zero, suc, ◌+◌, Bool, true, false, not, ◌&&◌, Option, none, some, List, [], ◌∷◌, ◌++◌, Outcome,
  ok, panic, ◌>>=◌, ◌>>◌, check, unwrap, if◌then◌else◌, ltb, ◌==◌, length, get_elem?, set,
  replicate, ◌⊎◌, inl, inr,
}
use redbx.Prelude.Bytes.{to_le, from_le, slice, write}
use redbx.Layout
use redbx.Layout.{DatabaseLayout}
use redbx.Layout.Region as Region
use redbx.Layout.Region.{RegionLayout}
use redbx.Header.Slot.{
  DatabaseError, TransactionHeader, slot_new, slot_to_bytes, slot_from_bytes, transaction_size,
}

abbrev pub magicnumber : List ℕ
magicnumber = 114 ∷ 100 ∷ 98 ∷ 120 ∷ 0x1A ∷ 0x0A ∷ 0xA9 ∷ 0x0D ∷ 0x0A ∷ []

abbrev pub god_byte_offset : ℕ
god_byte_offset = 9

abbrev pub page_size_offset : ℕ
page_size_offset = 12

abbrev pub region_header_pages_offset : ℕ
region_header_pages_offset = 16

abbrev pub region_max_data_pages_offset : ℕ
region_max_data_pages_offset = 20

abbrev pub num_full_regions_offset : ℕ
num_full_regions_offset = 24

abbrev pub trailing_region_data_pages_offset : ℕ
trailing_region_data_pages_offset = 28

abbrev pub salt_offset : ℕ
salt_offset = 32

abbrev pub transaction_0_offset : ℕ
transaction_0_offset = 80

abbrev pub transaction_1_offset : ℕ
transaction_1_offset = 208

abbrev pub db_header_size : ℕ
db_header_size = 336

abbrev pub primary_bit : ℕ
primary_bit = 1

abbrev pub recovery_required_bit : ℕ
recovery_required_bit = 2

abbrev pub two_phase_commit_bit : ℕ
two_phase_commit_bit = 4

abbrev pub encrypted : ℕ
encrypted = 8

pub record HeaderRepairInfo : Type 0 where
  pub invalid_magic_number : Bool
  pub primary_corrupted : Bool
  pub secondary_corrupted : Bool

pub record DatabaseHeader : Type 0 where
  pub primary : ℕ
  pub recovery_required : Bool
  pub two_phase_commit : Bool
  pub page_size : ℕ
  pub region_header_pages : ℕ
  pub region_max_data_pages : ℕ
  pub full_regions : ℕ
  pub trailing_partial_region_pages : ℕ
  pub salt : List ℕ
  pub slot0 : TransactionHeader
  pub slot1 : TransactionHeader

unfoldable pub new : DatabaseLayout → ℕ → Option (List ℕ) → DatabaseHeader
new l transaction_id salt = record {
  primary = 0;
  recovery_required = true;
  two_phase_commit = false;
  page_size = l.full_region_layout.page_size;
  region_header_pages = l.full_region_layout.header_pages;
  region_max_data_pages = l.full_region_layout.num_pages;
  full_regions = l.num_full_regions;
  trailing_partial_region_pages = elim l.trailing_partial_region [
    | none ↦ 0
    | some x ↦ x.num_pages
  ];
  salt = elim salt [ none ↦ replicate 16 0 | some bytes ↦ bytes ];
  slot0 = slot_new transaction_id;
  slot1 = slot_new transaction_id;
}

unfoldable pub layout : DatabaseHeader → Outcome DatabaseLayout
layout h = do
  full ← Region.new h.region_max_data_pages h.region_header_pages h.page_size
  trailing ←
      if ltb 0 h.trailing_partial_region_pages
      then (do
        region ← Region.new h.trailing_partial_region_pages h.region_header_pages h.page_size
        ok (some region))
      else ok none
  ok (Layout.new h.full_regions full trailing)

-- `==` of `RegionLayout`
unfoldable pub same_region : RegionLayout → RegionLayout → Bool
same_region a b =
    (a.num_pages == b.num_pages)
    && (a.header_pages == b.header_pages)
    && (a.page_size == b.page_size)

unfoldable pub set_layout : DatabaseHeader → DatabaseLayout → Outcome DatabaseHeader
set_layout h l = do
  current ← layout h
  check (same_region current.full_region_layout l.full_region_layout)
  elim l.trailing_partial_region [
    | none ↦ ok (record h { trailing_partial_region_pages = 0; full_regions = l.num_full_regions })
    | some trailing ↦ do
      check (trailing.header_pages == h.region_header_pages)
      check (trailing.page_size == h.page_size)
      ok (record h {
        trailing_partial_region_pages = trailing.num_pages;
        full_regions = l.num_full_regions;
      })
  ]

-- `transaction_slots[i]`
unfoldable pub slot : DatabaseHeader → ℕ → Outcome TransactionHeader
slot h zero = ok h.slot0
slot h (suc zero) = ok h.slot1
slot h (suc (suc i)) = panic

unfoldable pub primary_slot : DatabaseHeader → Outcome TransactionHeader
primary_slot h = slot h h.primary

unfoldable pub secondary_slot : DatabaseHeader → Outcome TransactionHeader
secondary_slot h = slot h (bit_xor h.primary 1)

unfoldable pub swap_primary_slot : DatabaseHeader → DatabaseHeader
swap_primary_slot h = record h { primary = bit_xor h.primary 1 }

-- The flag of the answer says whether the original primary was picked.
unfoldable pub pick_primary_for_repair :
    DatabaseHeader → HeaderRepairInfo → Outcome (DatabaseError ⊎ (Bool × DatabaseHeader))
pick_primary_for_repair h info =
    if h.two_phase_commit
    then ok (if info.primary_corrupted then inl DatabaseError.corrupted else inr (true, h))
    else if info.primary_corrupted
    then ok (
        if info.secondary_corrupted
        then inl DatabaseError.corrupted
        else inr (false, swap_primary_slot h))
    else (do
      secondary ← secondary_slot h
      primary ← primary_slot h
      let secondary_newer = ltb primary.transaction_id secondary.transaction_id
      ok (
          inr (
            if secondary_newer && not info.secondary_corrupted
            then (false, swap_primary_slot h)
            else (true, h))))

-- The god byte that `to_bytes` writes.
unfoldable pub god_byte : DatabaseHeader → ℕ
god_byte h =
    let start = h.primary in
    let recovery = if h.recovery_required then bit_or start recovery_required_bit else start in
    let commit = if h.two_phase_commit then bit_or recovery two_phase_commit_bit else recovery in
    bit_or commit encrypted

unfoldable pub to_bytes : (List ℕ → ℕ) → DatabaseHeader → Bool → Outcome (List ℕ)
to_bytes checksum h include_magic_number = do
  magic ←
      if include_magic_number
      then write 0 magicnumber (replicate db_header_size 0)
      else ok (replicate db_header_size 0)
  check (ltb h.primary 256)
  god ← write god_byte_offset (god_byte h ∷ []) magic
  size ← write page_size_offset (to_le 4 h.page_size) god
  pages ← write region_header_pages_offset (to_le 4 h.region_header_pages) size
  data_pages ← write region_max_data_pages_offset (to_le 4 h.region_max_data_pages) pages
  full ← write num_full_regions_offset (to_le 4 h.full_regions) data_pages
  trailing ← write trailing_region_data_pages_offset (to_le 4 h.trailing_partial_region_pages) full
  salted ← write salt_offset h.salt trailing
  bytes0 ← slot_to_bytes checksum h.slot0
  first ← write transaction_0_offset bytes0 salted
  bytes1 ← slot_to_bytes checksum h.slot1
  write transaction_1_offset bytes1 first

unfoldable pub get_u32 : ℕ → List ℕ → Outcome ℕ
get_u32 offset bytes = do field ← slice offset 4 bytes; ok (from_le field)

-- `==` of byte arrays
unfoldable pub same_bytes : List ℕ → List ℕ → Bool
same_bytes [] [] = true
same_bytes [] (y ∷ ys) = false
same_bytes (x ∷ xs) [] = false
same_bytes (x ∷ xs) (y ∷ ys) = (x == y) && same_bytes xs ys

unfoldable pub from_bytes :
    (List ℕ → ℕ) → List ℕ → Outcome (DatabaseError ⊎ (DatabaseHeader × HeaderRepairInfo))
from_bytes checksum bytes = do
  magic ← slice 0 9 bytes
  god ← unwrap (get_elem? bytes god_byte_offset)
  let primary = if bit_and god primary_bit == 0 then 0 else 1
  page_size ← get_u32 page_size_offset bytes
  region_header_pages ← get_u32 region_header_pages_offset bytes
  region_max_data_pages ← get_u32 region_max_data_pages_offset bytes
  full_regions ← get_u32 num_full_regions_offset bytes
  trailing ← get_u32 trailing_region_data_pages_offset bytes
  salt ← slice salt_offset 16 bytes
  bytes0 ← slice transaction_0_offset transaction_size bytes
  parsed0 ← slot_from_bytes checksum bytes0
  elim parsed0 [
    | inl error ↦ ok (inl error)
    | inr s0 ↦ do
      bytes1 ← slice transaction_1_offset transaction_size bytes
      parsed1 ← slot_from_bytes checksum bytes1
      elim parsed1 [
        | inl error ↦ ok (inl error)
        | inr s1 ↦ ok (
            inr (
              record {
                primary = primary;
                recovery_required = not (bit_and god recovery_required_bit == 0);
                two_phase_commit = not (bit_and god two_phase_commit_bit == 0);
                page_size = page_size;
                region_header_pages = region_header_pages;
                region_max_data_pages = region_max_data_pages;
                full_regions = full_regions;
                trailing_partial_region_pages = trailing;
                salt = salt;
                slot0 = s0.0;
                slot1 = s1.0;
              },
              record {
                invalid_magic_number = not (same_bytes magic magicnumber);
                primary_corrupted = if primary == 0 then s0.1 else s1.1;
                secondary_corrupted = if primary == 0 then s1.1 else s0.1;
              },
            ))
      ]
  ]
