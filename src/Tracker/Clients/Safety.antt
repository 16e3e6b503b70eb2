-- ===== src/Tracker/Clients/Safety.antt =====
-- The invariant of the tracker under its clients, and what it gives its clients.
use redbx.Prelude.{
  ℕ, ◌<◌, ◌≤◌, ◌≡◌, refl, Option, none, some, List, [], ◌∷◌, ◌++◌, ok, arith, ap, subst, inl, inr,
}
use redbx.Prelude.Map.{find, erase}
use redbx.Tracker.{
  oldest_live_read_transaction, State, clear_pending_non_durable_commits,
  deallocate_read_transaction, deallocate_savepoint, new,
}
use redbx.Tracker.Counts.{
  count, IsOldest, All-count, count-append, oldest_live_read_transaction-IsOldest,
  drop_reference-Represents, drop_references-Represents, values, Represents, Represents-perm,
}
use redbx.Tracker.Clients.{World, holders, Step, Reach}
use redbx.Tracker.Clients.Values.{count_middle, OneMore-reader, OneMore-handle, pending_first}
use redbx.Tracker.Clients.Invariant.{Has, Inv}
use redbx.Tracker.Clients.Transactions.{
  start_write-Inv, end_write-Inv, start_read-Inv, end_read-Inv, commit_non_durable-Inv,
  commit_durable-Inv, process_freed-Inv,
}
use redbx.Tracker.Clients.Savepoints.{
  take_savepoint-Inv, restore_counter-Inv, load_savepoint-Inv, drop_savepoint-Inv, begin_drop-Inv,
  invalidate-Inv,
}

-- Every call of the tracker keeps the invariant.
pub Step-Inv : {u w : World} → Step u w → Inv u → Inv w
Step-Inv (Step.start_write w s id room e) v = start_write-Inv w v s id e
Step-Inv (Step.end_write w s id e) v = end_write-Inv w v s id e
Step-Inv (Step.start_read w id room) v = start_read-Inv w v id room
Step-Inv (Step.end_read w s id xs ys at e) v = end_read-Inv w v s id xs ys at e
Step-Inv (Step.commit_non_durable w id a room fresh) v = commit_non_durable-Inv w v id a room fresh
Step-Inv (Step.commit_durable w s e) v = commit_durable-Inv w v s e
Step-Inv (Step.process_freed w id) v = process_freed-Inv w v id
Step-Inv (Step.take_savepoint w t xs ys room at) v = take_savepoint-Inv w v t xs ys room at
Step-Inv (Step.restore_counter w s id e) v = restore_counter-Inv w v s id e
Step-Inv (Step.load_savepoint w id t room below) v = load_savepoint-Inv w v id t room below
Step-Inv (Step.drop_savepoint w s id t xs ys at e) v = drop_savepoint-Inv w v s id t xs ys at e
Step-Inv (Step.begin_drop w id t xs ys at) v = begin_drop-Inv w v id t xs ys at
Step-Inv (Step.invalidate w id) v = invalidate-Inv w v id

-- The tracker of a database that was just opened.
unfoldable pub opened : ℕ → World
opened next_transaction_id = record { state = new next_transaction_id; readers = []; handles = [] }

opened-Inv : (n : ℕ) → Inv (opened n)
unfolding opened new find
opened-Inv n = record {
  counts = record { sorted = tt; counted = λ t. refl; small = omega arith };
  sorted = tt;
  handled = λ i u found. cc;
  issued = λ i u found. cc;
  writer = λ i e. cc;
}

pub Reach-Inv : (n : ℕ) {w : World} → Reach (opened n) w → Inv w
Reach-Inv n Reach.here = opened-Inv n
Reach-Inv n (Reach.next r st) = Step-Inv st (Reach-Inv n r)

count_of_Has :
    (id t : ℕ) (hs : List (ℕ × ℕ)) (r : List ℕ) → Has id t hs → 0 < count t (values hs ++ r)
count_of_Has id t [] r h = absurd h
count_of_Has id t ((i, u) ∷ hs) r (inl e) = ground arith
count_of_Has id t ((i, u) ∷ hs) r (inr h) = ground (arith, count_of_Has id t hs r h)

-- The transaction is live, and the oldest live transaction is no later.
abbrev pub Kept : ℕ → Option ℕ → Type 0
Kept t none = ⊥
Kept t (some oldest) = oldest ≤ t

Kept-of : (t : ℕ) (o : Option ℕ) (hs : List ℕ) → IsOldest o hs → 0 < count t hs → Kept t o
Kept-of t none hs old held = absurd (ground (arith, ap (count t) old))
Kept-of t (some u) hs old held = All-count u t hs old.1 held

-- Whatever calls came before, the transaction of every valid savepoint is still counted as live:
-- the oldest live read transaction is no later than it.
pub valid_savepoint-Kept :
    (n : ℕ) {w : World} (id t : ℕ)
    → Reach (opened n) w
    → find id w.state.valid_savepoints ≡ some t
    → Kept t (oldest_live_read_transaction w.state)
valid_savepoint-Kept n {w} id t r found =
    let v = Reach-Inv n r in
    Kept-of t (oldest_live_read_transaction w.state) (holders w)
      (oldest_live_read_transaction-IsOldest w.state (holders w) v.counts)
      (count_of_Has id t w.handles _ (v.handled id t found))

-- Whatever calls came before, a read transaction that has not ended is still counted as live: the
-- oldest live read transaction is no later than it.
pub reader-Kept :
    (n : ℕ) {w : World} (t : ℕ) (before after : List ℕ)
    → Reach (opened n) w
    → w.readers ≡ before ++ (t ∷ after)
    → Kept t (oldest_live_read_transaction w.state)
reader-Kept n {w} t before after r at =
    let v = Reach-Inv n r in
    Kept-of t (oldest_live_read_transaction w.state) (holders w)
      (oldest_live_read_transaction-IsOldest w.state (holders w) v.counts)
      (ground (
        arith,
        count-append t (values w.handles) (w.readers ++ values w.state.pending_non_durable_commits),
        count-append t w.readers (values w.state.pending_non_durable_commits),
        ap (count t) at,
        count_middle t t before after,
      ))

deallocate_read_ok :
    (s : State) (t : ℕ) (less : List ℕ)
    → Represents (t ∷ less) s.live_read_transactions
    → (s' : State) × (deallocate_read_transaction s t ≡ ok s')
unfolding deallocate_read_transaction
deallocate_read_ok s t less r =
    let (m, e, r') = drop_reference-Represents less s.live_read_transactions t r in
    (record s { live_read_transactions = m }, rw e)

-- Whatever calls came before, the end of a live read transaction does not panic.
pub deallocate_read_transaction_returns :
    (n : ℕ) {w : World} (t : ℕ) (before after : List ℕ)
    → Reach (opened n) w
    → w.readers ≡ before ++ (t ∷ after)
    → (s : State) × (deallocate_read_transaction w.state t ≡ ok s)
deallocate_read_transaction_returns n {w} t before after r at =
    let p = values w.state.pending_non_durable_commits in
    let o = OneMore-reader t (values w.handles) before after p in
    deallocate_read_ok w.state t (values w.handles ++ ((before ++ after) ++ p)) (
      Represents-perm o.counts (omega (arith, o.size)) (
        subst (λ rs. Represents (values w.handles ++ (rs ++ p)) w.state.live_read_transactions) at
          (Reach-Inv n r).counts))

-- Whatever calls came before, dropping a live savepoint does not panic, also if the savepoint was
-- invalidated before.
pub deallocate_savepoint_returns :
    (n : ℕ) {w : World} (id t : ℕ) (before after : List (ℕ × ℕ))
    → Reach (opened n) w
    → w.handles ≡ before ++ ((id, t) ∷ after)
    → (s : State) × (deallocate_savepoint w.state id t ≡ ok s)
unfolding deallocate_savepoint
deallocate_savepoint_returns n {w} id t before after r at =
    let rest = w.readers ++ values w.state.pending_non_durable_commits in
    let o = OneMore-handle id t before after rest in
    deallocate_read_ok (record w.state { valid_savepoints = erase id w.state.valid_savepoints }) t
      (values (before ++ after) ++ rest)
      (Represents-perm o.counts (omega (arith, o.size)) (
        subst (λ hs. Represents (values hs ++ rest) w.state.live_read_transactions) at
          (Reach-Inv n r).counts))

-- Whatever calls came before, a durable commit can clear the pending commits without a panic, and
-- then no commit is pending.
pub clear_pending_non_durable_commits_returns :
    (n : ℕ) {w : World}
    → Reach (opened n) w
    → (s : State) × (clear_pending_non_durable_commits w.state ≡ ok s)
      × (s.pending_non_durable_commits ≡ [])
unfolding clear_pending_non_durable_commits
clear_pending_non_durable_commits_returns n {w} r =
    let st = w.state in
    let (m, e, r') =
      drop_references-Represents st.pending_non_durable_commits _ st.live_read_transactions
        (pending_first (values w.handles) w.readers _ (Reach-Inv n r).counts) in
    (record st { live_read_transactions = m; pending_non_durable_commits = [] }, rw e, refl)
