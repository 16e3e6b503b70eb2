-- ===== src/Savepoint/Tests.antt =====
-- A savepoint of src/tree_store/page_store/savepoint.rs, stored and read back.
use redbx.Prelude.{◌≡◌, refl, arith, ok, ◌>>=◌, some, true}
use redbx.Savepoint.{Savepoint, from_savepoint, to_savepoint, set_persistent}
use redbx.Header.Slot.Roots.{IsRoots}
use redbx.Savepoint.RoundTrip.{IsStorable, to_savepoint-from_savepoint}

abbrev savepoint : Savepoint
savepoint = record {
  version = 3;
  id = 7;
  transaction_id = 300;
  user_root = some (record {
    root = record { region = 1; page_index = 6; page_order = 0 };
    checksum = 0x1234567890ABCDEF1234;
    length = 42;
  });
  ephemeral = true;
}

savepoint-IsStorable : IsStorable savepoint
savepoint-IsStorable = record {
  version = refl;
  id = omega arith;
  transaction_id = omega arith;
  user_root = IsRoots.a_root _ (record {
    page = record { region = omega arith; order = omega arith; index = omega arith };
    checksum = omega arith;
    length_fits = omega arith;
  });
}

to_savepoint-from_savepoint_example :
    (from_savepoint savepoint >>= to_savepoint) ≡ ok (set_persistent savepoint)
to_savepoint-from_savepoint_example = to_savepoint-from_savepoint savepoint savepoint-IsStorable
