-- ===== src/Header/Slot.antt =====
-- `TransactionHeader` of src/tree_store/page_store/header.rs, a commit slot, and `BtreeHeader` of
-- src/tree_store/btree_base.rs, which it stores.
pub mod Roots
pub mod Fields
pub mod RoundTrip
use redbx.Prelude.{
  ℕ, zero, suc, ◌+◌, Bool, true, false, not, ◌||◌, Option, none, some, List, [], ◌∷◌, ◌++◌, Outcome,
  ok, panic, ◌>>=◌, ◌>>◌, check, unwrap, if◌then◌else◌, ◌==◌, get_elem?, replicate, ◌⊎◌, inl, inr,
}
use redbx.Prelude.Bytes.{to_le, from_le, slice, write, take_bytes}
use redbx.PageNumber
use redbx.PageNumber.{PageNumber}

pub record BtreeHeader : Type 0 where
  pub root : PageNumber
  pub checksum : ℕ
  pub length : ℕ

unfoldable pub btree_to_le_bytes : BtreeHeader → Outcome (List ℕ)
btree_to_le_bytes h = do
  root ← write 0 (PageNumber.to_le_bytes h.root) (replicate 32 0)
  checksum ← write 8 (to_le 16 h.checksum) root
  write 24 (to_le 8 h.length) checksum

unfoldable pub btree_from_le_bytes : List ℕ → Outcome BtreeHeader
btree_from_le_bytes bytes = do
  root_bytes ← slice 0 8 bytes
  root ← PageNumber.from_le_bytes root_bytes
  checksum ← slice 8 16 bytes
  length ← slice 24 8 bytes
  ok (record { root = root; checksum = from_le checksum; length = from_le length })

-- What `from_bytes` refuses: an old file format, or one it does not know.
pub data DatabaseError : Type 0 where
  upgrade_required : ℕ → DatabaseError
  corrupted : DatabaseError

abbrev pub file_format_version1 : ℕ
file_format_version1 = 1

abbrev pub file_format_version2 : ℕ
file_format_version2 = 2

abbrev pub file_format_version3 : ℕ
file_format_version3 = 3

abbrev pub transaction_size : ℕ
transaction_size = 128

abbrev pub version_offset : ℕ
version_offset = 0

abbrev pub user_root_non_null_offset : ℕ
user_root_non_null_offset = 1

abbrev pub system_root_non_null_offset : ℕ
system_root_non_null_offset = 2

abbrev pub user_root_offset : ℕ
user_root_offset = 8

abbrev pub system_root_offset : ℕ
system_root_offset = 40

abbrev pub transaction_id_offset : ℕ
transaction_id_offset = 104

abbrev pub slot_checksum_offset : ℕ
slot_checksum_offset = 112

pub record TransactionHeader : Type 0 where
  pub version : ℕ
  pub user_root : Option BtreeHeader
  pub system_root : Option BtreeHeader
  pub transaction_id : ℕ

unfoldable pub slot_new : ℕ → TransactionHeader
slot_new transaction_id = record {
  version = file_format_version3;
  user_root = none;
  system_root = none;
  transaction_id = transaction_id;
}

-- A root of the slot, if its flag says that there is one.
unfoldable pub read_root : ℕ → ℕ → List ℕ → Outcome (Option BtreeHeader)
read_root flag_offset offset bytes = do
  flag ← unwrap (get_elem? bytes flag_offset)
  if flag == 0 then ok none else (do
    root_bytes ← slice offset 32 bytes
    root ← btree_from_le_bytes root_bytes
    ok (some root))

-- The flag of the answer says whether the checksum does not match.
unfoldable pub slot_from_bytes :
    (List ℕ → ℕ) → List ℕ → Outcome (DatabaseError ⊎ (TransactionHeader × Bool))
slot_from_bytes xxh3_checksum bytes = do
  version ← unwrap (get_elem? bytes version_offset)
  if (version == file_format_version1) || (version == file_format_version2)
      then ok (inl (DatabaseError.upgrade_required version))
      else if not (version == file_format_version3)
      then ok (inl DatabaseError.corrupted)
      else (do
        stored ← slice slot_checksum_offset 16 bytes
        covered ← take_bytes slot_checksum_offset bytes
        user_root ← read_root user_root_non_null_offset user_root_offset bytes
        system_root ← read_root system_root_non_null_offset system_root_offset bytes
        id_bytes ← slice transaction_id_offset 8 bytes
        ok (
            inr (
              record {
                version = version;
                user_root = user_root;
                system_root = system_root;
                transaction_id = from_le id_bytes;
              },
              not (from_le stored == xxh3_checksum covered),
            )))

-- A root, if there is one, and its flag.
unfoldable pub write_root : ℕ → ℕ → Option BtreeHeader → List ℕ → Outcome (List ℕ)
write_root flag_offset offset none bytes = ok bytes
write_root flag_offset offset (some root) bytes = do
  flagged ← write flag_offset (1 ∷ []) bytes
  root_bytes ← btree_to_le_bytes root
  write offset root_bytes flagged

unfoldable pub slot_to_bytes : (List ℕ → ℕ) → TransactionHeader → Outcome (List ℕ)
slot_to_bytes xxh3_checksum h = do
  check (h.version == file_format_version3)
  versioned ← write version_offset (h.version ∷ []) (replicate transaction_size 0)
  user ← write_root user_root_non_null_offset user_root_offset h.user_root versioned
  system ← write_root system_root_non_null_offset system_root_offset h.system_root user
  numbered ← write transaction_id_offset (to_le 8 h.transaction_id) system
  covered ← take_bytes slot_checksum_offset numbered
  write slot_checksum_offset (to_le 16 (xxh3_checksum covered)) numbered
