-- ===== src/Tracker/Clients/Transactions.antt =====
-- The calls for read transactions, write transactions and commits and the invariant.
use redbx.Prelude.{ℕ, ◌≡◌, none, some, List, [], ◌∷◌, ◌++◌, ok, sym, subst}
use redbx.Prelude.Map.{find}
use redbx.Tracker.{
  State, start_write_transaction, end_write_transaction, clear_pending_non_durable_commits,
  mark_unprocessed_non_durable_commit, register_non_durable_commit, register_read_transaction,
  deallocate_read_transaction,
}
use redbx.Tracker.Shapes.{
  start_write_shape, end_write_shape, deallocate_read_shape, clear_pending_shape,
}
use redbx.Tracker.Counts.{values, Represents, drop_references-keeps}
use redbx.Tracker.Clients.{World, HasRoom}
use redbx.Tracker.Clients.Values.{
  OneMore-reader, OneMore-pending, Represents-come, Represents-go, pending_first,
}
use redbx.Tracker.Clients.Invariant.{Inv}

module _ (w : World) (v : Inv w) where
  pub start_write-Inv :
      (s : State) (id : ℕ)
      → start_write_transaction w.state ≡ some (s, id)
      → Inv (record w { state = s })
  start_write-Inv s id e =
      subst (λ s. Inv (record w { state = s })) (sym (start_write_shape w.state e))
        (record {
          counts = v.counts;
          sorted = v.sorted;
          handled = v.handled;
          issued = v.issued;
          writer = λ i p. cc;
        })

  pub end_write-Inv :
      (s : State) (id : ℕ) → end_write_transaction w.state id ≡ ok s → Inv (record w { state = s })
  end_write-Inv s id e =
      subst (λ s. Inv (record w { state = s })) (sym (end_write_shape w.state id e))
        (record {
          counts = v.counts;
          sorted = v.sorted;
          handled = v.handled;
          issued = v.issued;
          writer = λ i p. cc;
        })

  pub start_read-Inv :
      (id : ℕ)
      → HasRoom w
      → Inv
          (record w { state = (register_read_transaction w.state id).0; readers = id ∷ w.readers })
  unfolding register_read_transaction
  start_read-Inv id room = record {
    counts =
        Represents-come
          (OneMore-reader id (values w.handles) [] w.readers
            (values w.state.pending_non_durable_commits))
          v.counts room;
    sorted = v.sorted;
    handled = v.handled;
    issued = v.issued;
    writer = v.writer;
  }

  pub end_read-Inv :
      (s : State) (id : ℕ) (before after : List ℕ)
      → w.readers ≡ before ++ (id ∷ after)
      → deallocate_read_transaction w.state id ≡ ok s
      → Inv (record w { state = s; readers = before ++ after })
  end_read-Inv s id before after at e =
      let (m, step, shape) = deallocate_read_shape w.state id e in
      subst (λ s. Inv (record w { state = s; readers = before ++ after })) shape
        (record {
          counts =
              Represents-go
                (OneMore-reader id (values w.handles) before after
                  (values w.state.pending_non_durable_commits))
                (subst
                  (λ r.
                    Represents
                      (values w.handles ++ (r ++ values w.state.pending_non_durable_commits))
                      w.state.live_read_transactions)
                  at v.counts)
                step;
          sorted = v.sorted;
          handled = v.handled;
          issued = v.issued;
          writer = v.writer;
        })

  pub commit_non_durable-Inv :
      (id ancestor : ℕ)
      → HasRoom w
      → find id w.state.pending_non_durable_commits ≡ none
      → Inv (record w { state = register_non_durable_commit w.state id ancestor })
  unfolding register_non_durable_commit
  commit_non_durable-Inv id ancestor room fresh = record {
    counts =
        Represents-come
          (OneMore-pending id ancestor (values w.handles) w.readers
            w.state.pending_non_durable_commits fresh)
          v.counts room;
    sorted = v.sorted;
    handled = v.handled;
    issued = v.issued;
    writer = v.writer;
  }

  pub commit_durable-Inv :
      (s : State) → clear_pending_non_durable_commits w.state ≡ ok s → Inv (record w { state = s })
  commit_durable-Inv s e =
      let (m, step, shape) = clear_pending_shape w.state e in
      subst (λ s. Inv (record w { state = s })) shape
        (record {
          counts =
              drop_references-keeps w.state.pending_non_durable_commits _
                w.state.live_read_transactions
                (pending_first (values w.handles) w.readers _ v.counts) step;
          sorted = v.sorted;
          handled = v.handled;
          issued = v.issued;
          writer = v.writer;
        })

  pub process_freed-Inv :
      (id : ℕ) → Inv (record w { state = mark_unprocessed_non_durable_commit w.state id })
  unfolding mark_unprocessed_non_durable_commit
  process_freed-Inv id = record {
    counts = v.counts;
    sorted = v.sorted;
    handled = v.handled;
    issued = v.issued;
    writer = v.writer;
  }
