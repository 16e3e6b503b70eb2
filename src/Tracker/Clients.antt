-- ===== src/Tracker/Clients.antt =====
-- The tracker under its clients: write transactions, read transactions, savepoints and commits, in
-- any order of calls. A read transaction, a savepoint handle and a pending non-durable commit each
-- hold one reference.
pub mod Values
pub mod Invariant
pub mod Transactions
pub mod Savepoints
pub mod Safety
pub mod Writers
use redbx.Prelude.{
  ℕ, ◌+◌, ◌<◌, ◌≤◌, ◌≡◌, Option, none, some, List, [], ◌∷◌, ◌++◌, Outcome, ok, panic, length,
}
use redbx.Prelude.Map.{find, IsSorted}
use redbx.Prelude.Word.{u64_size}
use redbx.Tracker.{
  State, start_write_transaction, end_write_transaction, clear_pending_non_durable_commits,
  mark_unprocessed_non_durable_commit, register_non_durable_commit, restore_savepoint_counter_state,
  register_persistent_savepoint, register_read_transaction, deallocate_read_transaction,
  allocate_savepoint, deallocate_savepoint, forget_savepoint, invalidate_savepoints_after,
}
use redbx.Tracker.Counts.{values}

pub record World : Type 0 where
  pub state : State
  -- the transactions of the live read transactions
  pub readers : List ℕ
  -- the savepoints that are not yet dropped, valid or not
  pub handles : List (ℕ × ℕ)

-- Everyone who holds a reference.
abbrev pub holders : World → List ℕ
holders w = values w.handles ++ (w.readers ++ values w.state.pending_non_durable_commits)

-- There is room for one more reference.
abbrev pub HasRoom : World → Type 0
HasRoom w = length (holders w) + 1 < u64_size

pub data Step : World → World → Type 0 where
  start_write :
      (w : World) (s : State) (id : ℕ)
      → w.state.next_transaction_id + 1 < u64_size
      → start_write_transaction w.state ≡ some (s, id)
      → Step w (record w { state = s })
  end_write :
      (w : World) (s : State) (id : ℕ)
      → end_write_transaction w.state id ≡ ok s
      → Step w (record w { state = s })
  start_read :
      (w : World) (id : ℕ)
      → HasRoom w
      → Step w
          (record w { state = (register_read_transaction w.state id).0; readers = id ∷ w.readers })
  end_read :
      (w : World) (s : State) (id : ℕ) (before after : List ℕ)
      → w.readers ≡ before ++ (id ∷ after)
      → deallocate_read_transaction w.state id ≡ ok s
      → Step w (record w { state = s; readers = before ++ after })
  commit_non_durable :
      (w : World) (id ancestor : ℕ)
      → HasRoom w
      → find id w.state.pending_non_durable_commits ≡ none
      → Step w (record w { state = register_non_durable_commit w.state id ancestor })
  commit_durable :
      (w : World) (s : State)
      → clear_pending_non_durable_commits w.state ≡ ok s
      → Step w (record w { state = s })
  process_freed :
      (w : World) (id : ℕ)
      → Step w (record w { state = mark_unprocessed_non_durable_commit w.state id })
  -- the savepoint takes over the reference of a read transaction
  take_savepoint :
      (w : World) (t : ℕ) (before after : List ℕ)
      → w.state.next_savepoint_id + 1 < u64_size
      → w.readers ≡ before ++ (t ∷ after)
      → Step w (record {
        state = (allocate_savepoint w.state t).0;
        readers = before ++ after;
        handles = ((allocate_savepoint w.state t).1, t) ∷ w.handles;
      })
  restore_counter :
      (w : World) (s : State) (id : ℕ)
      → restore_savepoint_counter_state w.state id ≡ ok s
      → Step w (record w { state = s })
  load_savepoint :
      (w : World) (id t : ℕ)
      → HasRoom w
      → id ≤ w.state.next_savepoint_id
      → Step w (record w {
        state = register_persistent_savepoint w.state id t;
        handles = (id, t) ∷ w.handles;
      })
  drop_savepoint :
      (w : World) (s : State) (id t : ℕ) (before after : List (ℕ × ℕ))
      → w.handles ≡ before ++ ((id, t) ∷ after)
      → deallocate_savepoint w.state id t ≡ ok s
      → Step w (record w { state = s; handles = before ++ after })
  -- the first half of such a drop, with other calls before the second: the reference is then like that
  -- of a read transaction, and `end_read` is the second half
  begin_drop :
      (w : World) (id t : ℕ) (before after : List (ℕ × ℕ))
      → w.handles ≡ before ++ ((id, t) ∷ after)
      → Step w (record {
        state = forget_savepoint w.state id;
        readers = t ∷ w.readers;
        handles = before ++ after;
      })
  invalidate :
      (w : World) (id : ℕ) → Step w (record w { state = invalidate_savepoints_after w.state id })

pub data Reach (start : World) : World → Type 0 where
  here : Reach start start
  next : {v w : World} → Reach start v → Step v w → Reach start w
