-- ===== src/Lru/Contents.antt =====
-- `insert`, `get` and `remove` of the cache against a partial map.
use redbx.Prelude.{
  ℕ, ◌≡◌, refl, true, false, none, some, List, [], ◌∷◌, arith, if◌then◌else◌, ◌==◌, Option-cases,
  inl, inr,
}
use redbx.Prelude.Map.{find, erase, find-insert, find-erase}
use redbx.Lru.{Lru, insert_value, cycle_queue, cycle, remove, get}
use redbx.Lru.Eviction.{stored}

module _ {ℓ} {T : Type ℓ} where
  -- `insert` returns what was stored at the key, and changes the map at that key only.
  pub insert_value-stored :
      (c : Lru T) (k : ℕ) (v : T)
      → ((insert_value c k v).1 ≡ stored c k)
        × ((j : ℕ) → stored (insert_value c k v).0 j ≡ (if k == j then some v else stored c j))
  unfolding insert_value
  insert_value-stored c k v = (refl, λ j. ground (arith, find-insert k j (v, false) c.cache))

  -- `get` returns what is stored at the key, and changes nothing that a read can see.
  pub get-stored :
      (c : Lru T) (k : ℕ)
      → ((get c k).1 ≡ stored c k) × ((j : ℕ) → stored (get c k).0 j ≡ stored c j)
  unfolding get
  get-stored c k = (
    ground arith,
    λ j. elim (Option-cases (find k c.cache)) [
      | inl e ↦ rw (e, get)
      | inr ((v, f), e) ↦ ground (arith, find-insert k j (v, true) c.cache)
    ],
  )

  cycle_queue-stored : (c : Lru T) (q : List ℕ) (j : ℕ) → stored (cycle_queue c q) j ≡ stored c j
  unfolding cycle_queue
  cycle_queue-stored c [] j = refl
  cycle_queue-stored c (k ∷ q) j = elim (Option-cases (find k c.cache)) [
    | inl e ↦ rw (e, cycle_queue)
    | inr ((v, f), e) ↦ ground (arith, find-insert k j (v, false) c.cache)
  ]

  cycle-stored : (c : Lru T) (j : ℕ) → stored (cycle c) j ≡ stored c j
  unfolding cycle
  cycle-stored c j = cycle_queue-stored c c.lru_queue j

  -- `remove` returns what was stored at the key and forgets that key only, also where it cycles
  -- the queue.
  pub remove-stored :
      (c : Lru T) (k : ℕ)
      → ((remove c k).1 ≡ stored c k)
        × ((j : ℕ) → stored (remove c k).0 j ≡ (if k == j then none else stored c j))
  unfolding remove
  remove-stored c k = (
    ground arith,
    λ j. elim (Option-cases (find k c.cache)) [
      | inl e ↦ ground arith
      | inr ((v, f), e) ↦
          let c' : Lru T = record c { cache = erase k c.cache } in
          ground (arith, find-erase k j c.cache, cycle-stored c' j, cycle-stored (cycle c') j)
    ],
  )
