-- ===== src/Lru/Invariant.antt =====
-- What holds of the cache between two calls.
use redbx.Prelude.{
  ℕ, ◌≡◌, refl, ◌≢◌, ◌⊎◌, inl, inr, Bool, true, false, none, some, List, [], ◌∷◌, ◌++◌, arith,
  length, Bool-cases, subst, ◌*◌, ltb, Option-cases,
}
use redbx.Prelude.Map.{
  find, insert, erase, IsSorted, find-insert, find-erase, insert-IsSorted, erase-IsSorted,
}
use redbx.Lru.{Lru, insert_value, cycle_queue, cycle, remove, get}

-- The key stands in the queue.
abbrev pub Listed : ℕ → List ℕ → Type 0
Listed k [] = ⊥
Listed k (x ∷ q) = (k ≡ x) ⊎ Listed k q

pub Listed-append : (k : ℕ) (q r : List ℕ) → Listed k q → Listed k (q ++ r)
Listed-append k [] r h = absurd h
Listed-append k (x ∷ q) r (inl e) = inl e
Listed-append k (x ∷ q) r (inr h) = inr (Listed-append k q r h)

pub Listed-back : (k x : ℕ) (q : List ℕ) → k ≡ x → Listed k (q ++ (x ∷ []))
Listed-back k x [] e = inl e
Listed-back k x (y ∷ q) e = inr (Listed-back k x q e)

-- Every key of the cache stands in the queue, so that it can be evicted.
pub record IsValid {ℓ} {T : Type ℓ} (c : Lru T) : Type ℓ where
  pub sorted : IsSorted c.cache
  pub queued : (k : ℕ) (e : T × Bool) → find k c.cache ≡ some e → Listed k c.lru_queue

pub Listed-rotate : (k j : ℕ) (q : List ℕ) → Listed j (k ∷ q) → Listed j (q ++ (k ∷ []))
Listed-rotate k j q (inl e) = Listed-back j k q e
Listed-rotate k j q (inr h) = Listed-append j q (k ∷ []) h

Listed-tail : (k j : ℕ) (q : List ℕ) → j ≢ k → Listed j (k ∷ q) → Listed j q
Listed-tail k j q ne (inl e) = absurd (ne e)
Listed-tail k j q ne (inr h) = h

module _ {ℓ} {T : Type ℓ} where
  -- A write at a listed key, with a queue that lost no key.
  pub insert-IsValid :
      (c : Lru T) (k : ℕ) (e : T × Bool) (q : List ℕ)
      → IsValid c
      → ((j : ℕ) → Listed j c.lru_queue → Listed j q)
      → Listed k q
      → IsValid (record { cache = insert k e c.cache; lru_queue = q })
  insert-IsValid c k e q h keep here = record {
    sorted = insert-IsSorted k e c.cache h.sorted;
    queued = λ j x found. ground (
      arith,
      find-insert k j e c.cache,
      λ (p : find j c.cache ≡ some x). keep j (h.queued j x p),
    );
  }

  pub erase-IsValid :
      (c : Lru T) (k : ℕ) → IsValid c → IsValid (record c { cache = erase k c.cache })
  erase-IsValid c k h = record {
    sorted = erase-IsSorted k c.cache h.sorted;
    queued = λ j x found. h.queued j x (ground (arith, find-erase k j c.cache));
  }

  -- The front of the queue may go if it is not cached.
  pub drop-IsValid :
      (c : Lru T) (k : ℕ) (q : List ℕ)
      → c.lru_queue ≡ k ∷ q
      → find k c.cache ≡ none
      → IsValid c
      → IsValid (record c { lru_queue = q })
  drop-IsValid c k q e gone h = record {
    sorted = h.sorted;
    queued = λ j x found. Listed-tail k j q (λ same. cc) (subst (Listed j) e (h.queued j x found));
  }

  -- The front of the queue may go to the back.
  pub rotate-IsValid :
      (c : Lru T) (k : ℕ) (q : List ℕ) (e : T × Bool)
      → c.lru_queue ≡ k ∷ q
      → IsValid c
      → IsValid (record { cache = insert k e c.cache; lru_queue = q ++ (k ∷ []) })
  rotate-IsValid c k q x e h =
      insert-IsValid c k x (q ++ (k ∷ [])) h (λ j l. Listed-rotate k j q (subst (Listed j) e l))
        (Listed-back k k q refl)

  -- `insert` keeps the invariant.
  pub insert_value-IsValid :
      (c : Lru T) (k : ℕ) (v : T) → IsValid c → IsValid (insert_value c k v).0
  unfolding insert_value
  insert_value-IsValid c k v h = elim (Option-cases (find k c.cache)) [
    | inl e ↦ rw e (
        insert-IsValid c k (v, false) (c.lru_queue ++ (k ∷ [])) h
          (λ j. Listed-append j c.lru_queue (k ∷ [])) (Listed-back k k c.lru_queue refl))
    | inr ((w, f), e) ↦
        rw e (insert-IsValid c k (v, false) c.lru_queue h (λ j l. l) (h.queued k (w, f) e))
  ]

  -- `get` keeps the invariant.
  pub get-IsValid : (c : Lru T) (k : ℕ) → IsValid c → IsValid (get c k).0
  unfolding get
  get-IsValid c k h = elim (Option-cases (find k c.cache)) [
    | inl e ↦ rw (e, get) h
    | inr ((v, f), e) ↦
        rw (e, get) (insert-IsValid c k (v, true) c.lru_queue h (λ j l. l) (h.queued k (v, f) e))
  ]

  cycle_queue-IsValid :
      (c : Lru T) (q : List ℕ) → c.lru_queue ≡ q → IsValid c → IsValid (cycle_queue c q)
  unfolding cycle_queue
  cycle_queue-IsValid c [] e h = h
  cycle_queue-IsValid c (k ∷ q) e h = elim (Option-cases (find k c.cache)) [
    | inl gone ↦ rw (gone, cycle_queue) (drop-IsValid c k q e gone h)
    | inr ((v, f), live) ↦ rw (live, cycle_queue) (rotate-IsValid c k q (v, false) e h)
  ]

  cycle-IsValid : (c : Lru T) → IsValid c → IsValid (cycle c)
  unfolding cycle
  cycle-IsValid c h = cycle_queue-IsValid c c.lru_queue refl h

  -- `remove` keeps the invariant, whether or not it cycles the queue.
  pub remove-IsValid : (c : Lru T) (k : ℕ) → IsValid c → IsValid (remove c k).0
  unfolding remove
  remove-IsValid c k h = elim (Option-cases (find k c.cache)) [
    | inl e ↦ rw (e, remove) h
    | inr ((v, f), e) ↦
        let c' : Lru T = record c { cache = erase k c.cache } in
        let v' = erase-IsValid c k h in
        rw (e, remove)
          (elim (Bool-cases (ltb (2 * length c'.cache) (length c'.lru_queue))) [
            | inl t ↦ rw t (cycle-IsValid (cycle c') (cycle-IsValid c' v'))
            | inr t ↦ rw t v'
          ])
  ]

  -- `insert`, `get` and `remove` on a valid cache leave a valid cache, also where `remove` cycles the
  -- queue.
  pub operations-IsValid :
      (c : Lru T) (k : ℕ) (v : T)
      → IsValid c
      → IsValid (insert_value c k v).0 × IsValid (get c k).0 × IsValid (remove c k).0
  operations-IsValid c k v h =
      (insert_value-IsValid c k v h, get-IsValid c k h, remove-IsValid c k h)
