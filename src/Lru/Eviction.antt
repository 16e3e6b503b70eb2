-- ===== src/Lru/Eviction.antt =====
-- What a client sees of the cache: a partial map, and which entry an eviction takes.
use redbx.Prelude.{
  ℕ, zero, suc, ◌+◌, ◌≤◌, ◌≡◌, refl, ap, ◌∙◌, sym, inl, inr, Bool, true, false, Option, none, some,
  List, [], ◌∷◌, ◌++◌, arith, length, length-append, if◌then◌else◌, ◌==◌, Option-cases, subst,
}
use redbx.Prelude.Map.{find, insert, erase, IsSorted, find-insert, find-erase, find-Above}
use redbx.Lru.{Lru, value_of, pop_round, pop_loop, flagged, pop_lowest_priority}
use redbx.Lru.Invariant.{Listed, IsValid, drop-IsValid, rotate-IsValid, erase-IsValid}

module _ {ℓ} {T : Type ℓ} where
  -- Clearing a flag that is set leaves one flag fewer.
  pub flagged-insert :
      (k : ℕ) (v : T) (m : List (ℕ × (T × Bool)))
      → IsSorted m
      → find k m ≡ some (v, true)
      → flagged (insert k (v, false) m) + 1 ≡ flagged m
  unfolding flagged find insert
  flagged-insert k v [] s e = cc
  flagged-insert k v ((j, (w, f)) ∷ m) s e = ground (arith, flagged-insert k v m, find-Above j k m)

  -- The partial map that the cache stands for.
  abbrev pub stored : Lru T → ℕ → Option T
  stored c k = value_of (find k c.cache)

  -- What an eviction did: nothing was stored, or one entry is gone and all others are as before.
  abbrev pub Popped : Lru T → Lru T × Option (ℕ × T) → Type ℓ
  Popped c (c', none) = IsValid c' × ((j : ℕ) → stored c j ≡ none)
  Popped c (c', some (k, v)) =
      IsValid c'
      × (stored c k ≡ some v)
      × ((j : ℕ) → stored c' j ≡ (if k == j then none else stored c j))

  Popped-cong :
      (c d : Lru T) (r : Lru T × Option (ℕ × T))
      → ((j : ℕ) → stored d j ≡ stored c j)
      → Popped d r
      → Popped c r
  Popped-cong c d (c', none) same p = (p.0, λ j. sym (same j) ∙ p.1 j)
  Popped-cong c d (c', some (k, v)) same p =
      (p.0, sym (same k) ∙ p.1, λ j. p.2 j ∙ ap (λ o. if k == j then none else o) (same j))

  -- A change of flag is not seen.
  stored-insert_flag :
      (c : Lru T) (k : ℕ) (v : T) (f g : Bool) (q : List ℕ) (j : ℕ)
      → find k c.cache ≡ some (v, f)
      → stored (record { cache = insert k (v, g) c.cache; lru_queue = q }) j ≡ stored c j
  stored-insert_flag c k v f g q j e = ground (arith, find-insert k j (v, g) c.cache)

  -- With an empty queue nothing is stored.
  unlisted-stored : (c : Lru T) → c.lru_queue ≡ [] → IsValid c → (j : ℕ) → stored c j ≡ none
  unlisted-stored c e h j = elim (Option-cases (find j c.cache)) [
    | inl gone ↦ rw gone
    | inr (x, here) ↦ absurd (subst (Listed j) e (h.queued j x here))
  ]

  -- An entry that goes: the map loses its key and nothing else.
  stored-erase :
      (c : Lru T) (k : ℕ) (q : List ℕ) (j : ℕ)
      → stored (record { cache = erase k c.cache; lru_queue = q }) j
        ≡ (if k == j then none else stored c j)
  stored-erase c k q j = ground (arith, find-erase k j c.cache)

  pop_loop-Popped :
      (fuel : ℕ) (c : Lru T) (q : List ℕ)
      → c.lru_queue ≡ q
      → length q + flagged c.cache ≤ fuel
      → IsValid c
      → (r : Lru T × Option (ℕ × T)) × (pop_round (pop_loop fuel) c q ≡ some r) × Popped c r
  unfolding pop_round pop_loop
  pop_loop-Popped fuel c [] e m h = ((c, none), refl, (h, unlisted-stored c e h))
  pop_loop-Popped zero c (k ∷ q) e m h = absurd (omega arith)
  pop_loop-Popped (suc fuel) c (k ∷ q) e m h = elim (Option-cases (find k c.cache)) [
    | inl gone ↦
        let d : Lru T = record c { lru_queue = q } in
        rw (gone, pop_round)
          (pop_loop-Popped fuel d q refl (omega arith) (drop-IsValid c k q e gone h))
    | inr ((v, true), live) ↦
        let d : Lru T = record { cache = insert k (v, false) c.cache; lru_queue = q ++ (k ∷ []) } in
        let (r, run, p) =
          pop_loop-Popped fuel d (q ++ (k ∷ [])) refl
            (omega (arith, length-append q (k ∷ []), flagged-insert k v c.cache h.sorted live))
            (rotate-IsValid c k q (v, false) e h) in
        (
          r,
          rw (live, pop_round) run,
          Popped-cong c d r (λ j. stored-insert_flag c k v true false (q ++ (k ∷ [])) j live) p,
        )
    | inr ((v, false), live) ↦ (
      (record { cache = erase k c.cache; lru_queue = q }, some (k, v)),
      rw (live, pop_round),
      (
        drop-IsValid (record c { cache = erase k c.cache }) k q e
            (ground (arith, find-erase k k c.cache)) (erase-IsValid c k h),
        rw live,
        stored-erase c k q,
      ),
    )
  ]

  -- On a valid cache the eviction loop ends. It returns nothing exactly when nothing is stored;
  -- else it returns a stored entry, after which that key is gone, every other key reads as before,
  -- and the cache is valid.
  pub pop_lowest_priority_lem :
      (c : Lru T)
      → IsValid c
      → (r : Lru T × Option (ℕ × T)) × (pop_lowest_priority c ≡ some r) × Popped c r
  unfolding pop_lowest_priority
  pop_lowest_priority_lem c h =
      pop_loop-Popped (length c.lru_queue + flagged c.cache) c c.lru_queue refl (omega arith) h
