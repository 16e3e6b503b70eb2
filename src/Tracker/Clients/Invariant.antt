-- ===== src/Tracker/Clients/Invariant.antt =====
-- What holds of the tracker and its clients between two calls.
use redbx.Prelude.{ℕ, ◌≤◌, ◌≡◌, some, List, [], ◌∷◌, ◌++◌, ◌⊎◌, inl, inr, ◌≢◌}
use redbx.Prelude.Map.{find, IsSorted}
use redbx.Tracker.Counts.{Represents}
use redbx.Tracker.Clients.{World, holders}

-- The savepoint is among the handles.
abbrev pub Has : ℕ → ℕ → List (ℕ × ℕ) → Type 0
Has id t [] = ⊥
Has id t ((i, u) ∷ hs) = ((id ≡ i) × (t ≡ u)) ⊎ Has id t hs

pub record Inv (w : World) : Type 0 where
  pub counts : Represents (holders w) w.state.live_read_transactions
  pub sorted : IsSorted w.state.valid_savepoints
  pub handled : (id t : ℕ) → find id w.state.valid_savepoints ≡ some t → Has id t w.handles
  pub issued :
      (id t : ℕ) → find id w.state.valid_savepoints ≡ some t → id ≤ w.state.next_savepoint_id
  pub writer :
      (id : ℕ) → w.state.live_write_transaction ≡ some id → id ≡ w.state.next_transaction_id

pub Has-drop :
    (id t i u : ℕ) (xs ys : List (ℕ × ℕ))
    → id ≢ i
    → Has id t (xs ++ ((i, u) ∷ ys))
    → Has id t (xs ++ ys)
Has-drop id t i u [] ys ne (inl e) = absurd (ne e.0)
Has-drop id t i u [] ys ne (inr h) = h
Has-drop id t i u (x ∷ xs) ys ne (inl e) = inl e
Has-drop id t i u (x ∷ xs) ys ne (inr h) = inr (Has-drop id t i u xs ys ne h)
