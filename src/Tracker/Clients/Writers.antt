-- ===== src/Tracker/Clients/Writers.antt =====
-- Write transactions one after another.
use redbx.Prelude.{ℕ, ◌+◌, ◌<◌, ◌≤◌, ◌≡◌, some, arith, ap, ◌%◌}
use redbx.Prelude.Word.{u64_size}
use redbx.Tracker.{
  State, start_write_transaction, mark_unprocessed_non_durable_commit, register_non_durable_commit,
  register_persistent_savepoint, register_read_transaction, allocate_savepoint,
  invalidate_savepoints_after, deallocate_savepoint,
}
use redbx.Tracker.Shapes.{
  start_write_shape, end_write_shape, deallocate_read_shape, clear_pending_shape,
  restore_counter_shape,
}
use redbx.Tracker.Clients.{World, Step, Reach}

abbrev counter : State → ℕ
counter s = s.next_transaction_id

-- The counter of write transactions never falls.
Step-le : {u w : World} → Step u w → counter u.state ≤ counter w.state
unfolding mark_unprocessed_non_durable_commit register_non_durable_commit
    register_persistent_savepoint register_read_transaction allocate_savepoint
    invalidate_savepoints_after deallocate_savepoint
Step-le (Step.start_write w s id room e) = omega (arith, ap counter (start_write_shape w.state e))
Step-le (Step.end_write w s id e) = omega (arith, ap counter (end_write_shape w.state id e))
Step-le (Step.start_read w id room) = omega arith
Step-le (Step.end_read w s id xs ys at e) =
    let (m, step, shape) = deallocate_read_shape w.state id e in omega (arith, ap counter shape)
Step-le (Step.commit_non_durable w id a room fresh) = omega arith
Step-le (Step.commit_durable w s e) =
    let (m, step, shape) = clear_pending_shape w.state e in omega (arith, ap counter shape)
Step-le (Step.process_freed w id) = omega arith
Step-le (Step.take_savepoint w t xs ys room at) = omega arith
Step-le (Step.restore_counter w s id e) =
    let (empty, shape) = restore_counter_shape w.state id e in omega (arith, ap counter shape)
Step-le (Step.load_savepoint w id t room below) = omega arith
Step-le (Step.drop_savepoint w s id t xs ys at e) =
    let (m, step, shape) = deallocate_read_shape _ t e in omega (arith, ap counter shape)
Step-le (Step.begin_drop w id t xs ys at) = omega arith
Step-le (Step.invalidate w id) = omega arith

Reach-le : {u w : World} → Reach u w → counter u.state ≤ counter w.state
Reach-le Reach.here = omega arith
Reach-le (Reach.next r st) = omega (arith, Reach-le r, Step-le st)

started_id :
    (s : State) {s' : State} {id : ℕ}
    → start_write_transaction s ≡ some (s', id)
    → id ≡ (s.next_transaction_id + 1) % u64_size
unfolding start_write_transaction
started_id s e = ground arith

-- A write transaction has a greater id than every write transaction before it, whatever calls lie
-- between, as long as the counter does not wrap.
pub start_write_transaction_increases :
    (u w : World) (s t : State) (id id' : ℕ)
    → start_write_transaction u.state ≡ some (s, id)
    → Reach (record u { state = s }) w
    → start_write_transaction w.state ≡ some (t, id')
    → w.state.next_transaction_id + 1 < u64_size
    → id < id'
start_write_transaction_increases u w s t id id' e r e' room = omega (
  arith,
  started_id u.state e,
  ap counter (start_write_shape u.state e),
  Reach-le r,
  started_id w.state e',
)
