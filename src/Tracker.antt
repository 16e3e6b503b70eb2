-- ===== src/Tracker.antt =====
-- `TransactionTracker` of src/transaction_tracker.rs. A call takes the lock for its whole body, so it
-- is one function from the state to the state; a `TransactionId` or `SavepointId` is its `u64`. The
-- `BTreeSet` is a map to `Unit`.
pub mod Counts
pub mod Shapes
pub mod Clients
mod Tests
use redbx.Prelude.{
  ℕ, zero, suc, Bool, true, false, not, Option, none, some, List, [], ◌∷◌, Outcome, ok, panic,
  ◌>>=◌, if◌then◌else◌, leb, ◌==◌,
}
use redbx.Prelude.Map.{find, insert, erase, first, is_some, contains}
use redbx.Prelude.Word.{add64, sub64}

pub record State : Type 0 where
  pub next_savepoint_id : ℕ
  pub live_read_transactions : List (ℕ × ℕ)
  pub next_transaction_id : ℕ
  pub live_write_transaction : Option ℕ
  pub valid_savepoints : List (ℕ × ℕ)
  pub pending_non_durable_commits : List (ℕ × ℕ)
  pub unprocessed_freed_non_durable_commits : List (ℕ × Unit {0})

unfoldable pub new : ℕ → State
new next_transaction_id = record {
  next_savepoint_id = 0;
  live_read_transactions = [];
  next_transaction_id = next_transaction_id;
  live_write_transaction = none;
  valid_savepoints = [];
  pending_non_durable_commits = [];
  unprocessed_freed_non_durable_commits = [];
}

-- `TransactionId::next` and `SavepointId::next`.
abbrev pub next : ℕ → ℕ
next id = add64 id 1

-- `none` while a write transaction is live: the caller waits on the condition variable.
unfoldable pub start_write_transaction : State → Option (State × ℕ)
start_write_transaction s = elim s.live_write_transaction [
  | some id ↦ none
  | none ↦
      let id = next s.next_transaction_id in
      some (record s { next_transaction_id = id; live_write_transaction = some id }, id)
]

unfoldable pub end_write_transaction : State → ℕ → Outcome State
end_write_transaction s id = elim s.live_write_transaction [
  | none ↦ panic
  | some live ↦ if live == id then ok (record s { live_write_transaction = none }) else panic
]

-- `entry(id).and_modify(|x| *x += 1).or_insert(1)`
unfoldable pub add_reference : List (ℕ × ℕ) → ℕ → List (ℕ × ℕ)
add_reference m id = elim (find id m) [
  | none ↦ insert id 1 m
  | some count ↦ insert id (add64 count 1) m
]

-- The decrement that `deallocate_read_transaction` and `clear_pending_non_durable_commits` make: an
-- entry that reaches 0 goes.
unfoldable pub drop_reference : List (ℕ × ℕ) → ℕ → Outcome (List (ℕ × ℕ))
drop_reference m id = elim (find id m) [
  | none ↦ panic
  | some count ↦
      let count' = sub64 count 1 in ok (if count' == 0 then erase id m else insert id count' m)
]

unfoldable pub drop_references : List (ℕ × ℕ) → List (ℕ × ℕ) → Outcome (List (ℕ × ℕ))
drop_references m [] = ok m
drop_references m ((id, durable_ancestor) ∷ ids) = do
  m' ← drop_reference m durable_ancestor
  drop_references m' ids

unfoldable pub clear_pending_non_durable_commits : State → Outcome State
clear_pending_non_durable_commits s = do
  live ← drop_references s.live_read_transactions s.pending_non_durable_commits
  ok (record s { live_read_transactions = live; pending_non_durable_commits = [] })

unfoldable pub is_unprocessed_non_durable_commit : State → ℕ → Bool
is_unprocessed_non_durable_commit s id = contains id s.unprocessed_freed_non_durable_commits

unfoldable pub mark_unprocessed_non_durable_commit : State → ℕ → State
mark_unprocessed_non_durable_commit s id = record s {
  unprocessed_freed_non_durable_commits = erase id s.unprocessed_freed_non_durable_commits;
}

abbrev pub first_key {ℓ} : {V : Type ℓ} → List (ℕ × V) → Option ℕ
first_key [] = none
first_key ((k, v) ∷ m) = some k

unfoldable pub oldest_unprocessed_non_durable_commit : State → Option ℕ
oldest_unprocessed_non_durable_commit s = first_key s.unprocessed_freed_non_durable_commits

unfoldable pub register_non_durable_commit : State → ℕ → ℕ → State
register_non_durable_commit s id durable_ancestor = record s {
  live_read_transactions = add_reference s.live_read_transactions durable_ancestor;
  pending_non_durable_commits = insert id durable_ancestor s.pending_non_durable_commits;
  unprocessed_freed_non_durable_commits = insert id tt s.unprocessed_freed_non_durable_commits;
}

unfoldable pub restore_savepoint_counter_state : State → ℕ → Outcome State
restore_savepoint_counter_state s next_savepoint = elim s.valid_savepoints [
  | [] ↦ ok (record s { next_savepoint_id = next_savepoint })
  | _ ↦ panic
]

-- The savepoint is given by its id and its transaction id.
unfoldable pub register_persistent_savepoint : State → ℕ → ℕ → State
register_persistent_savepoint s id transaction_id = record s {
  live_read_transactions = add_reference s.live_read_transactions transaction_id;
  valid_savepoints = insert id transaction_id s.valid_savepoints;
}

-- `id` is what `mem.get_last_committed_transaction_id()` returns under the lock.
unfoldable pub register_read_transaction : State → ℕ → State × ℕ
register_read_transaction s id =
    (record s { live_read_transactions = add_reference s.live_read_transactions id }, id)

unfoldable pub deallocate_read_transaction : State → ℕ → Outcome State
deallocate_read_transaction s id = do
  live ← drop_reference s.live_read_transactions id
  ok (record s { live_read_transactions = live })

unfoldable pub any_savepoint_exists : State → Bool
any_savepoint_exists s = elim s.valid_savepoints [ [] ↦ false | _ ↦ true ]

unfoldable pub allocate_savepoint : State → ℕ → State × ℕ
allocate_savepoint s transaction_id =
    let id = next s.next_savepoint_id in
    (
      record s {
        next_savepoint_id = id;
        valid_savepoints = insert id transaction_id s.valid_savepoints;
      },
      id,
    )

-- The first half of `deallocate_savepoint`, after which it lets go of the lock.
abbrev pub forget_savepoint : State → ℕ → State
forget_savepoint s savepoint = record s { valid_savepoints = erase savepoint s.valid_savepoints }

unfoldable pub deallocate_savepoint : State → ℕ → ℕ → Outcome State
unfolding deallocate_read_transaction
deallocate_savepoint s savepoint transaction =
    deallocate_read_transaction (forget_savepoint s savepoint) transaction

unfoldable pub is_valid_savepoint : State → ℕ → Bool
is_valid_savepoint s id = contains id s.valid_savepoints

-- `retain(|x, _| *x <= id)`
unfoldable pub keep_until : ℕ → List (ℕ × ℕ) → List (ℕ × ℕ)
keep_until id [] = []
keep_until id ((x, t) ∷ m) = if leb x id then (x, t) ∷ keep_until id m else keep_until id m

unfoldable pub invalidate_savepoints_after : State → ℕ → State
invalidate_savepoints_after s id = record s { valid_savepoints = keep_until id s.valid_savepoints }

unfoldable pub oldest_savepoint : State → Option (ℕ × ℕ)
oldest_savepoint s = first s.valid_savepoints

unfoldable pub oldest_live_read_transaction : State → Option ℕ
oldest_live_read_transaction s = first_key s.live_read_transactions

-- The loop of `oldest_live_read_nondurable_transaction` over the keys.
unfoldable pub first_pending : List (ℕ × ℕ) → List (ℕ × ℕ) → Option ℕ
first_pending pending [] = none
first_pending pending ((id, count) ∷ m) =
    if contains id pending then some id else first_pending pending m

unfoldable pub oldest_live_read_nondurable_transaction : State → Option ℕ
oldest_live_read_nondurable_transaction s =
    first_pending s.pending_non_durable_commits s.live_read_transactions
