-- ===== src/Tracker/Shapes.antt =====
-- What the tracker's calls leave when they succeed.
use redbx.Prelude.{
  ℕ, ◌+◌, ◌≡◌, none, some, List, [], ◌∷◌, ok, arith, if◌then◌else◌, leb, ◌%◌, >>=-eq-ok,
}
use redbx.Prelude.Map.{Above, find, IsSorted}
use redbx.Prelude.Word.{u64_size}
use redbx.Tracker.{
  State, start_write_transaction, end_write_transaction, clear_pending_non_durable_commits,
  restore_savepoint_counter_state, deallocate_read_transaction, keep_until, drop_reference,
  drop_references,
}

pub find-keep_until :
    (id k : ℕ) (m : List (ℕ × ℕ)) → find k (keep_until id m) ≡ (if leb k id then find k m else none)
unfolding find keep_until
find-keep_until id k [] = ground arith
find-keep_until id k ((j, v) ∷ m) = ground (arith, find-keep_until id k m)

keep_until-Above : (n id : ℕ) (m : List (ℕ × ℕ)) → Above n m → Above n (keep_until id m)
unfolding keep_until
keep_until-Above n id [] s = tt
keep_until-Above n id ((j, v) ∷ m) s = ground (arith, keep_until-Above n id m)

pub keep_until-IsSorted : (id : ℕ) (m : List (ℕ × ℕ)) → IsSorted m → IsSorted (keep_until id m)
unfolding keep_until
keep_until-IsSorted id [] s = tt
keep_until-IsSorted id ((j, v) ∷ m) s =
    ground (arith, keep_until-IsSorted id m, keep_until-Above j id m)

-- What a call that succeeds leaves.
pub start_write_shape :
    (s : State) {s' : State} {id : ℕ}
    → start_write_transaction s ≡ some (s', id)
    → s' ≡ record s {
      next_transaction_id = (s.next_transaction_id + 1) % u64_size;
      live_write_transaction = some ((s.next_transaction_id + 1) % u64_size);
    }
unfolding start_write_transaction
start_write_shape s e = ground arith

pub end_write_shape :
    (s : State) (id : ℕ) {s' : State}
    → end_write_transaction s id ≡ ok s'
    → s' ≡ record s { live_write_transaction = none }
unfolding end_write_transaction
end_write_shape s id e = ground arith

pub deallocate_read_shape :
    (s : State) (id : ℕ) {s' : State}
    → deallocate_read_transaction s id ≡ ok s'
    → (m : List (ℕ × ℕ)) × (drop_reference s.live_read_transactions id ≡ ok m)
      × (record s { live_read_transactions = m } ≡ s')
unfolding deallocate_read_transaction
deallocate_read_shape s id e =
    let (m, step, rest) = >>=-eq-ok (drop_reference s.live_read_transactions id) _ e in
    (m, step, cc)

pub clear_pending_shape :
    (s : State) {s' : State}
    → clear_pending_non_durable_commits s ≡ ok s'
    → (m : List (ℕ × ℕ)) × (drop_references s.live_read_transactions s.pending_non_durable_commits
        ≡ ok m)
      × (record s { live_read_transactions = m; pending_non_durable_commits = [] } ≡ s')
unfolding clear_pending_non_durable_commits
clear_pending_shape s e =
    let (m, step, rest) =
      >>=-eq-ok (drop_references s.live_read_transactions s.pending_non_durable_commits) _ e in
    (m, step, cc)

pub restore_counter_shape :
    (s : State) (id : ℕ) {s' : State}
    → restore_savepoint_counter_state s id ≡ ok s'
    → (s.valid_savepoints ≡ []) × (record s { next_savepoint_id = id } ≡ s')
unfolding restore_savepoint_counter_state
restore_counter_shape s id e = ground arith
