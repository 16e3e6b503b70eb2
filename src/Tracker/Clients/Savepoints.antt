-- ===== src/Tracker/Clients/Savepoints.antt =====
-- The calls for savepoints and the invariant.
use redbx.Prelude.{
  ℕ, ◌+◌, ◌<◌, ◌≤◌, ◌≡◌, some, List, ◌∷◌, ◌++◌, ok, arith, ◌==◌, subst, sym, ◌∙◌, inl, inr, ◌%◌,
  Bool-cases,
}
use redbx.Prelude.Map.{find, erase, find-insert, find-erase, insert-IsSorted, erase-IsSorted}
use redbx.Prelude.Word.{u64_size}
use redbx.Tracker.{
  State, restore_savepoint_counter_state, register_persistent_savepoint, allocate_savepoint,
  deallocate_savepoint, forget_savepoint, new, invalidate_savepoints_after,
}
use redbx.Tracker.Shapes.{
  find-keep_until, keep_until-IsSorted, deallocate_read_shape, restore_counter_shape,
}
use redbx.Tracker.Counts.{values, Represents, Represents-perm, add_reference-Represents}
use redbx.Tracker.Clients.{World, holders, HasRoom}
use redbx.Tracker.Clients.Values.{
  OneMore-reader, OneMore-handle, Represents-go, count_middle, length_middle,
}
use redbx.Tracker.Clients.Invariant.{Has, Inv, Has-drop}

module _ (w : World) (v : Inv w) where
  pub take_savepoint-Inv :
      (t : ℕ) (before after : List ℕ)
      → w.state.next_savepoint_id + 1 < u64_size
      → w.readers ≡ before ++ (t ∷ after)
      → Inv (record {
        state = (allocate_savepoint w.state t).0;
        readers = before ++ after;
        handles = ((allocate_savepoint w.state t).1, t) ∷ w.handles;
      })
  unfolding allocate_savepoint
  take_savepoint-Inv t before after room at =
      let id = (w.state.next_savepoint_id + 1) % u64_size in
      record {
        counts =
            Represents-perm
              (λ u.
                (OneMore-reader t (values w.handles) before after
                    (values w.state.pending_non_durable_commits)).counts
                  u)
              (omega (
                arith,
                (OneMore-reader t (values w.handles) before after
                    (values w.state.pending_non_durable_commits)).size,
              ))
              (subst
                (λ r.
                  Represents (values w.handles ++ (r ++ values w.state.pending_non_durable_commits))
                    w.state.live_read_transactions)
                at v.counts);
        sorted = insert-IsSorted id t w.state.valid_savepoints v.sorted;
        handled = λ i u found. elim (Bool-cases (id == i)) [
          | inl new ↦ inl (ground (arith, find-insert id i t w.state.valid_savepoints))
          | inr old ↦
              inr (v.handled i u (ground (arith, find-insert id i t w.state.valid_savepoints)))
        ];
        issued = λ i u found. ground (
          arith,
          find-insert id i t w.state.valid_savepoints,
          λ (p : find i w.state.valid_savepoints ≡ some u). v.issued i u p,
        );
        writer = v.writer;
      }

  pub restore_counter-Inv :
      (s : State) (id : ℕ)
      → restore_savepoint_counter_state w.state id ≡ ok s
      → Inv (record w { state = s })
  unfolding find
  restore_counter-Inv s id e =
      let (empty, shape) = restore_counter_shape w.state id e in
      subst (λ s. Inv (record w { state = s })) shape
        (record {
          counts = v.counts;
          sorted = v.sorted;
          handled = v.handled;
          issued = λ i u found. ground arith;
          writer = v.writer;
        })

  pub load_savepoint-Inv :
      (id t : ℕ)
      → HasRoom w
      → id ≤ w.state.next_savepoint_id
      → Inv (record w {
        state = register_persistent_savepoint w.state id t;
        handles = (id, t) ∷ w.handles;
      })
  unfolding register_persistent_savepoint
  load_savepoint-Inv id t room below = record {
    counts = add_reference-Represents (holders w) w.state.live_read_transactions t v.counts room;
    sorted = insert-IsSorted id t w.state.valid_savepoints v.sorted;
    handled = λ i u found. elim (Bool-cases (id == i)) [
      | inl new ↦ inl (ground (arith, find-insert id i t w.state.valid_savepoints))
      | inr old ↦ inr (v.handled i u (ground (arith, find-insert id i t w.state.valid_savepoints)))
    ];
    issued = λ i u found. ground (
      arith,
      find-insert id i t w.state.valid_savepoints,
      λ (p : find i w.state.valid_savepoints ≡ some u). v.issued i u p,
    );
    writer = v.writer;
  }

  pub drop_savepoint-Inv :
      (s : State) (id t : ℕ) (before after : List (ℕ × ℕ))
      → w.handles ≡ before ++ ((id, t) ∷ after)
      → deallocate_savepoint w.state id t ≡ ok s
      → Inv (record w { state = s; handles = before ++ after })
  unfolding deallocate_savepoint
  drop_savepoint-Inv s id t before after at e =
      let st : State = record w.state { valid_savepoints = erase id w.state.valid_savepoints } in
      let (m, step, shape) = deallocate_read_shape st t e in
      subst (λ s. Inv (record w { state = s; handles = before ++ after })) shape
        (record {
          counts =
              Represents-go
                (OneMore-handle id t before after
                  (w.readers ++ values w.state.pending_non_durable_commits))
                (subst
                  (λ h.
                    Represents
                      (values h ++ (w.readers ++ values w.state.pending_non_durable_commits))
                      w.state.live_read_transactions)
                  at v.counts)
                step;
          sorted = erase-IsSorted id w.state.valid_savepoints v.sorted;
          handled = λ i u found.
              Has-drop i u id t before after
                (ground (arith, find-erase id i w.state.valid_savepoints))
                (subst (Has i u) at
                  (v.handled i u (ground (arith, find-erase id i w.state.valid_savepoints))));
          issued =
              λ i u found. v.issued i u (ground (arith, find-erase id i w.state.valid_savepoints));
          writer = v.writer;
        })

  pub begin_drop-Inv :
      (id t : ℕ) (before after : List (ℕ × ℕ))
      → w.handles ≡ before ++ ((id, t) ∷ after)
      → Inv (record {
        state = forget_savepoint w.state id;
        readers = t ∷ w.readers;
        handles = before ++ after;
      })
  begin_drop-Inv id t before after at =
      let pending = values w.state.pending_non_durable_commits in
      let rest = w.readers ++ pending in
      let o = OneMore-handle id t before after rest in
      record {
        counts =
            Represents-perm
              (λ u. o.counts u ∙ sym (count_middle u t (values (before ++ after)) rest))
              (omega (arith, o.size, length_middle t (values (before ++ after)) rest))
              (subst (λ h. Represents (values h ++ rest) w.state.live_read_transactions) at
                v.counts);
        sorted = erase-IsSorted id w.state.valid_savepoints v.sorted;
        handled = λ i u found.
            Has-drop i u id t before after
              (ground (arith, find-erase id i w.state.valid_savepoints))
              (subst (Has i u) at
                (v.handled i u (ground (arith, find-erase id i w.state.valid_savepoints))));
        issued =
            λ i u found. v.issued i u (ground (arith, find-erase id i w.state.valid_savepoints));
        writer = v.writer;
      }

  pub invalidate-Inv : (id : ℕ) → Inv (record w { state = invalidate_savepoints_after w.state id })
  unfolding invalidate_savepoints_after
  invalidate-Inv id = record {
    counts = v.counts;
    sorted = keep_until-IsSorted id w.state.valid_savepoints v.sorted;
    handled =
        λ i u found. v.handled i u (ground (arith, find-keep_until id i w.state.valid_savepoints));
    issued =
        λ i u found. v.issued i u (ground (arith, find-keep_until id i w.state.valid_savepoints));
    writer = v.writer;
  }
