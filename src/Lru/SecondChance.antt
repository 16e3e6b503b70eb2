-- ===== src/Lru/SecondChance.antt =====
-- Which entry `pop_lowest_priority` of src/tree_store/page_store/lru_cache.rs picks.
use redbx.Prelude.{
  ℕ, zero, suc, ◌+◌, ◌≤◌, ◌≡◌, ◌≢◌, refl, sym, ◌∙◌, Bool, true, false, Option, none, some, List, [],
  ◌∷◌, ◌++◌, arith, length, length-append, ==_refl, Option-cases, inl, inr,
}
use redbx.Prelude.Map.{find, insert, find-insert}
use redbx.Lru.{Lru, pop_round, pop_loop, flagged, pop_lowest_priority}
use redbx.Lru.Invariant.{IsValid, drop-IsValid, rotate-IsValid}
use redbx.Lru.Eviction.{flagged-insert}

-- The key is not in the list.
abbrev pub Absent : ℕ → List ℕ → Type 0
Absent k [] = Unit
Absent k (x ∷ q) = (k ≢ x) × Absent k q

-- No key stands twice.
abbrev pub Distinct : List ℕ → Type 0
Distinct [] = Unit
Distinct (x ∷ q) = Absent x q × Distinct q

Absent-back : (k x : ℕ) (q : List ℕ) → k ≢ x → Absent k q → Absent k (q ++ (x ∷ []))
Absent-back k x [] ne a = (ne, tt)
Absent-back k x (y ∷ q) ne a = (a.0, Absent-back k x q ne a.1)

Distinct-back : (x : ℕ) (q : List ℕ) → Absent x q → Distinct q → Distinct (q ++ (x ∷ []))
Distinct-back x [] a d = (tt, tt)
Distinct-back x (y ∷ q) a d = (Absent-back y x q (λ e. a.0 (sym e)) d.0, Distinct-back x q a.1 d.1)

module _ {ℓ} {T : Type ℓ} where
  -- The first cached key of the queue whose flag is clear.
  abbrev pub unread : Option (T × Bool) → Option ℕ → ℕ → Option ℕ
  unread (some (v, false)) rest k = some k
  unread (some (v, true)) rest k = rest
  unread none rest k = rest

  abbrev pub first_unread : List (ℕ × (T × Bool)) → List ℕ → Option ℕ
  first_unread m [] = none
  first_unread m (k ∷ q) = unread (find k m) (first_unread m q) k

  -- The key of what an eviction returned.
  abbrev pub evicted : Option (Lru T × Option (ℕ × T)) → Option ℕ
  evicted (some (c, some (k, v))) = some k
  evicted (some (c, none)) = none
  evicted none = none

  first_unread-insert :
      (m : List (ℕ × (T × Bool))) (k : ℕ) (e : T × Bool) (q : List ℕ)
      → Absent k q
      → first_unread (insert k e m) q ≡ first_unread m q
  first_unread-insert m k e [] a = refl
  first_unread-insert m k e (x ∷ q) a =
      ground (arith, find-insert k x e m, first_unread-insert m k e q)

  first_unread_back :
      (m : List (ℕ × (T × Bool))) (x k : ℕ) (q : List ℕ)
      → first_unread m q ≡ some k
      → first_unread m (q ++ (x ∷ [])) ≡ some k
  first_unread_back m x k [] e = cc
  first_unread_back m x k (y ∷ q) e = ground (arith, first_unread_back m x k q)

  pop_loop-evicted :
      (fuel : ℕ) (c : Lru T) (q : List ℕ) (victim : ℕ)
      → c.lru_queue ≡ q
      → length q + flagged c.cache ≤ fuel
      → IsValid c
      → Distinct q
      → first_unread c.cache q ≡ some victim
      → evicted (pop_round (pop_loop fuel) c q) ≡ some victim
  unfolding pop_round pop_loop
  pop_loop-evicted fuel c [] victim e m h d u = cc
  pop_loop-evicted zero c (k ∷ q) victim e m h d u = absurd (omega arith)
  pop_loop-evicted (suc fuel) c (k ∷ q) victim e m h d u = elim (Option-cases (find k c.cache)) [
    | inl gone ↦
        rw (gone, pop_round)
          (pop_loop-evicted fuel (record c { lru_queue = q }) q victim refl (omega arith)
            (drop-IsValid c k q e gone h) d.1 (rw gone at u))
    | inr ((v, true), live) ↦
        let m' = insert k (v, false) c.cache in
        rw (live, pop_round)
          (pop_loop-evicted fuel (record { cache = m'; lru_queue = q ++ (k ∷ []) }) (q ++ (k ∷ []))
            victim refl
            (omega (arith, length-append q (k ∷ []), flagged-insert k v c.cache h.sorted live))
            (rotate-IsValid c k q (v, false) e h) (Distinct-back k q d.0 d.1)
            (first_unread_back m' k victim q
              (first_unread-insert c.cache k (v, false) q d.0 ∙ (rw live at u))))
    | inr ((v, false), live) ↦ rw (live, pop_round) (rw live at u)
  ]

  -- On a valid cache whose queue holds no key twice, the eviction takes the first queued entry
  -- whose second-chance flag is clear, if there is one.
  pub pop_lowest_priority-first_unread :
      (c : Lru T) (victim : ℕ)
      → IsValid c
      → Distinct c.lru_queue
      → first_unread c.cache c.lru_queue ≡ some victim
      → evicted (pop_lowest_priority c) ≡ some victim
  unfolding pop_lowest_priority
  pop_lowest_priority-first_unread c victim h d u =
      pop_loop-evicted (length c.lru_queue + flagged c.cache) c c.lru_queue victim refl
        (omega arith) h d u

  pub pop_loop_duplicate :
      (n : ℕ) (c : Lru T) (k : ℕ) (v : T) (q : List ℕ)
      → c.lru_queue ≡ k ∷ k ∷ q
      → find k c.cache ≡ some (v, true)
      → evicted (pop_loop (suc (suc n)) c) ≡ some k
  unfolding pop_loop pop_round
  pop_loop_duplicate n c k v q e live =
      rw (e, pop_round, live) (rw (find-insert k k (v, false) c.cache, pop_round, ==_refl k))
