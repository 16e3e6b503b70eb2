-- ===== src/Tracker/Tests.antt =====
-- Runs of the tracker, and the theorems at concrete states.
use redbx.Prelude.{◌<◌, ◌≡◌, refl, none, some, [], ◌∷◌, ok, arith}
use redbx.Prelude.Map.{find, insert, erase}
use redbx.Tracker.{
  State, new, start_write_transaction, end_write_transaction, add_reference, drop_reference,
  drop_references, clear_pending_non_durable_commits, register_non_durable_commit,
  register_read_transaction, deallocate_read_transaction, allocate_savepoint, deallocate_savepoint,
  is_valid_savepoint, keep_until, invalidate_savepoints_after, oldest_live_read_transaction,
  oldest_live_read_nondurable_transaction, first_pending,
}
use redbx.Tracker.Clients.{World, Step, Reach}
use redbx.Tracker.Clients.Safety.{
  opened, Reach-Inv, Kept, valid_savepoint-Kept, reader-Kept, deallocate_read_transaction_returns,
  deallocate_savepoint_returns, clear_pending_non_durable_commits_returns,
}
use redbx.Tracker.Clients.Invariant.{Inv}
use redbx.Tracker.Clients.Writers.{start_write_transaction_increases}

program : Unit {0}
unfolding find insert erase new start_write_transaction end_write_transaction add_reference
    drop_reference drop_references clear_pending_non_durable_commits register_non_durable_commit
    register_read_transaction deallocate_read_transaction allocate_savepoint deallocate_savepoint
    is_valid_savepoint keep_until invalidate_savepoints_after oldest_live_read_transaction
    oldest_live_read_nondurable_transaction first_pending opened
program = tt

-- Two readers of transaction 3, one of which became a savepoint, and a non-durable commit 5 on 4.
abbrev busy : World
busy = record {
  state = record {
    next_savepoint_id = 1;
    live_read_transactions = (3, 2) ∷ (4, 1) ∷ [];
    next_transaction_id = 4;
    live_write_transaction = none;
    valid_savepoints = (1, 3) ∷ [];
    pending_non_durable_commits = (5, 4) ∷ [];
    unprocessed_freed_non_durable_commits = (5, tt) ∷ [];
  };
  readers = 3 ∷ [];
  handles = (1, 3) ∷ [];
}

abbrev w1 : World
w1 = record (opened 4) {
  state = (register_read_transaction (opened 4).state 3).0;
  readers = 3 ∷ [];
}

abbrev w2 : World
w2 = record w1 { state = (register_read_transaction w1.state 3).0; readers = 3 ∷ 3 ∷ [] }

abbrev w3 : World
w3 = record {
  state = (allocate_savepoint w2.state 3).0;
  readers = 3 ∷ [];
  handles = ((allocate_savepoint w2.state 3).1, 3) ∷ [];
}

abbrev w4 : World
w4 = record w3 { state = register_non_durable_commit w3.state 5 4 }

w4-busy : w4 ≡ busy
unfolding program
w4-busy = refl

busy-Reach : Reach (opened 4) busy
unfolding program
busy-Reach =
    Reach.next
      (Reach.next
        (Reach.next (Reach.next Reach.here (Step.start_read (opened 4) 3 (omega arith)))
          (Step.start_read w1 3 (omega arith)))
        (Step.take_savepoint w2 3 [] (3 ∷ []) (omega arith) refl))
      (Step.commit_non_durable w3 5 4 (omega arith) refl)

oldest_nondurable : oldest_live_read_nondurable_transaction busy.state ≡ none
unfolding program
oldest_nondurable = refl

drop_twice :
    deallocate_savepoint (invalidate_savepoints_after busy.state 0) 1 3
    ≡ ok
        (record busy.state { live_read_transactions = (3, 1) ∷ (4, 1) ∷ []; valid_savepoints = [] })
unfolding program
drop_twice = refl

busy-Inv : Inv busy
busy-Inv = Reach-Inv 4 busy-Reach

valid_savepoint-Kept_example : Kept 3 (oldest_live_read_transaction busy.state)
unfolding find
valid_savepoint-Kept_example = valid_savepoint-Kept 4 1 3 busy-Reach refl

reader-Kept_example : Kept 3 (oldest_live_read_transaction busy.state)
reader-Kept_example = reader-Kept 4 3 [] [] busy-Reach refl

deallocate_read_transaction_returns_example :
    (s : State) × (deallocate_read_transaction busy.state 3 ≡ ok s)
deallocate_read_transaction_returns_example =
    deallocate_read_transaction_returns 4 3 [] [] busy-Reach refl

deallocate_savepoint_returns_example : (s : State) × (deallocate_savepoint busy.state 1 3 ≡ ok s)
deallocate_savepoint_returns_example = deallocate_savepoint_returns 4 1 3 [] [] busy-Reach refl

clear_pending_non_durable_commits_returns_example :
    (s : State) × (clear_pending_non_durable_commits busy.state ≡ ok s)
    × (s.pending_non_durable_commits ≡ [])
clear_pending_non_durable_commits_returns_example =
    clear_pending_non_durable_commits_returns 4 busy-Reach

abbrev writing : State
writing = record busy.state { next_transaction_id = 5; live_write_transaction = some 5 }

abbrev written : State
written = record writing { live_write_transaction = none }

abbrev writing_again : State
writing_again = record writing { next_transaction_id = 6; live_write_transaction = some 6 }

start_write_transaction_increases_example : 5 < 6
unfolding program
start_write_transaction_increases_example =
    start_write_transaction_increases busy (record busy { state = written }) writing writing_again 5
      6 refl
      (Reach.next Reach.here (Step.end_write (record busy { state = writing }) written 5 refl)) refl
      (omega arith)
