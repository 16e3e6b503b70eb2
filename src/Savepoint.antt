-- ===== src/Savepoint.antt =====
-- `SerializedSavepoint` of src/tree_store/page_store/savepoint.rs: the stored bytes of a savepoint.
pub mod RoundTrip
mod Tests
use redbx.Prelude.{
  ℕ, zero, suc, ◌+◌, Bool, true, false, ◌||◌, Option, none, some, List, [], ◌∷◌, ◌++◌, Outcome, ok,
  panic, ◌>>=◌, ◌>>◌, check, unwrap, if◌then◌else◌, ◌==◌, length, get_elem?, replicate,
}
use redbx.Prelude.Bytes.{to_le, from_le, slice}
use redbx.Header.Slot.{BtreeHeader, btree_to_le_bytes, btree_from_le_bytes, file_format_version3}

-- A savepoint, less its link to the transaction tracker.
pub record Savepoint : Type 0 where
  pub version : ℕ
  pub id : ℕ
  pub transaction_id : ℕ
  pub user_root : Option BtreeHeader
  pub ephemeral : Bool

unfoldable pub new_ephemeral : ℕ → ℕ → ℕ → Option BtreeHeader → Savepoint
new_ephemeral version id transaction_id user_root = record {
  version = version;
  id = id;
  transaction_id = transaction_id;
  user_root = user_root;
  ephemeral = true;
}

unfoldable pub set_persistent : Savepoint → Savepoint
set_persistent s = record s { ephemeral = false }

unfoldable pub root_bytes : Option BtreeHeader → Outcome (List ℕ)
root_bytes none = ok (0 ∷ replicate 32 0)
root_bytes (some header) = do bytes ← btree_to_le_bytes header; ok (1 ∷ bytes)

unfoldable pub from_savepoint : Savepoint → Outcome (List ℕ)
from_savepoint s = do
  check (s.version == file_format_version3)
  root ← root_bytes s.user_root
  ok ((s.version ∷ []) ++ (to_le 8 s.id ++ (to_le 8 s.transaction_id ++ root)))

unfoldable pub to_savepoint : List ℕ → Outcome Savepoint
to_savepoint bytes = do
  version ← unwrap (get_elem? bytes 0)
  check (version == file_format_version3)
  id ← slice 1 8 bytes
  transaction_id ← slice 9 8 bytes
  not_null ← unwrap (get_elem? bytes 17)
  check ((not_null == 0) || (not_null == 1))
  user_root ←
      if not_null == 1
      then (do
        header_bytes ← slice 18 32 bytes
        header ← btree_from_le_bytes header_bytes
        ok (some header))
      else ok none
  check (length bytes == 50)
  ok (record {
    version = version;
    id = from_le id;
    transaction_id = from_le transaction_id;
    user_root = user_root;
    ephemeral = false;
  })
