-- ===== src/Lru/Reinsert.antt =====
-- A key of the cache of src/tree_store/page_store/lru_cache.rs that is removed, inserted again and read.
use redbx.Prelude.{
  ℕ, zero, suc, ◌+◌, ◌*◌, ◌<◌, ◌≤◌, ◌≡◌, ◌≢◌, refl, ◌∙◌, ap, Bool, true, false, none, some, List,
  [], ◌∷◌, ◌++◌, arith, length, length-append, ltb,
}
use mathlib.Core.List.{append_assoc}
use redbx.Prelude.Map.{find, insert, erase, find-insert, find-erase}
use redbx.Lru.{Lru, pop_round, pop_loop, flagged, pop_lowest_priority, insert_value, remove, get}
use redbx.Lru.SecondChance.{Absent, Distinct, evicted, pop_loop_duplicate}

module _ {ℓ} {T : Type ℓ} where
  -- Each of the keys is stored, with its second-chance flag set.
  abbrev pub AllRead : List (ℕ × (T × Bool)) → List ℕ → Type ℓ
  AllRead m [] = Unit
  AllRead m (x ∷ q) = ((v : T) × (find x m ≡ some (v, true))) × AllRead m q

  -- A map that agrees at the keys.
  AllRead-same :
      (m m' : List (ℕ × (T × Bool))) (k : ℕ) (q : List ℕ)
      → ((j : ℕ) → k ≢ j → find j m' ≡ find j m)
      → Absent k q
      → AllRead m q
      → AllRead m' q
  AllRead-same m m' k [] same a h = tt
  AllRead-same m m' k (x ∷ q) same a ((v, e), h) =
      ((v, same x a.0 ∙ e), AllRead-same m m' k q same a.1 h)

  length-erase_le : (x : ℕ) (m : List (ℕ × (T × Bool))) → length (erase x m) ≤ length m
  unfolding erase
  length-erase_le x [] = omega arith
  length-erase_le x ((j, e) ∷ m) = ground (arith, length-erase_le x m)

  length-erase :
      (x : ℕ) (e : T × Bool) (m : List (ℕ × (T × Bool)))
      → find x m ≡ some e
      → length (erase x m) + 1 ≤ length m
  unfolding find erase
  length-erase x e [] h = cc
  length-erase x e ((j, d) ∷ m) h = ground (arith, length-erase x e m, length-erase_le x m)

  -- Different keys that are stored are at most as many as the entries.
  length-AllRead :
      (q : List ℕ) (m : List (ℕ × (T × Bool))) → Distinct q → AllRead m q → length q ≤ length m
  length-AllRead [] m d h = omega arith
  length-AllRead (x ∷ q) m d ((v, e), h) =
      let rest =
        length-AllRead q (erase x m) d.1
          (AllRead-same m (erase x m) x q (λ j ne. find-erase x j m ∙ ground arith) d.0 h) in
      omega (arith, length-erase x (v, true) m e)

  -- The loop clears the flags of the keys before the two, and then takes the key that stands twice.
  pop_loop-twice :
      (front : List ℕ) (n : ℕ) (c : Lru T) (k : ℕ) (v : T) (rest : List ℕ)
      → c.lru_queue ≡ front ++ (k ∷ k ∷ rest)
      → AllRead c.cache front
      → Distinct front
      → Absent k front
      → find k c.cache ≡ some (v, true)
      → length front + 2 ≤ n
      → evicted (pop_loop n c) ≡ some k
  unfolding pop_loop pop_round
  pop_loop-twice front zero c k v rest e h d a live enough = absurd (omega arith)
  pop_loop-twice [] (suc zero) c k v rest e h d a live enough = absurd (omega arith)
  pop_loop-twice [] (suc (suc n)) c k v rest e h d a live enough =
      pop_loop_duplicate n c k v rest e live
  pop_loop-twice (x ∷ front) (suc n) c k v rest e ((w, read), h) d a live enough =
      let cache = insert x (w, false) c.cache in
      let q = front ++ (k ∷ k ∷ rest) in
      rw (e, pop_round, read)
        (pop_loop-twice front n (record { cache = cache; lru_queue = q ++ (x ∷ []) }) k v
          (rest ++ (x ∷ [])) (append_assoc front (k ∷ k ∷ rest) (x ∷ []))
          (AllRead-same c.cache cache x front
            (λ j ne. find-insert x j (w, false) c.cache ∙ ground arith) d.0 h)
          d.1 a.1 (find-insert x k (w, false) c.cache ∙ ground (arith, a.0)) (omega arith))

  -- The key is removed, inserted again, and read.
  abbrev pub reinserted : Lru T → ℕ → T → Lru T
  reinserted c k v = (get (insert_value (remove c k).0 k v).0 k).0

  remove_uncycled :
      (c : Lru T) (k : ℕ) (e : T × Bool)
      → find k c.cache ≡ some e
      → ltb (2 * length (erase k c.cache)) (length c.lru_queue) ≡ false
      → (remove c k).0 ≡ record c { cache = erase k c.cache }
  unfolding remove
  remove_uncycled c k (v, f) stored still = rw (stored, remove, still) refl

  insert_value_new :
      (c : Lru T) (k : ℕ) (v : T)
      → find k c.cache ≡ none
      → (insert_value c k v).0
        ≡ record { cache = insert k (v, false) c.cache; lru_queue = c.lru_queue ++ (k ∷ []) }
  unfolding insert_value
  insert_value_new c k v gone = rw gone refl

  get_stored :
      (c : Lru T) (k : ℕ) (v : T) (f : Bool)
      → find k c.cache ≡ some (v, f)
      → (get c k).0 ≡ record c { cache = insert k (v, true) c.cache }
  unfolding get
  get_stored c k v f stored = rw (stored, get) refl

  reinserted_lem :
      (c : Lru T) (front : List ℕ) (k : ℕ) (e : T × Bool) (v : T)
      → c.lru_queue ≡ front ++ (k ∷ [])
      → find k c.cache ≡ some e
      → length front + 1 ≤ 2 * length (erase k c.cache)
      → reinserted c k v ≡ record {
        cache = insert k (v, true) (insert k (v, false) (erase k c.cache));
        lru_queue = front ++ (k ∷ k ∷ []);
      }
  reinserted_lem c front k e v queue stored few =
      let size = length-append front (k ∷ []) in
      let bytes = ap length queue in
      let still : ltb (2 * length (erase k c.cache)) (length c.lru_queue) ≡ false =
        ground (arith, size, bytes) in
      let gone : find k (erase k c.cache) ≡ none = find-erase k k c.cache ∙ ground arith in
      let back : find k (insert k (v, false) (erase k c.cache)) ≡ some (v, false) =
        find-insert k k (v, false) (erase k c.cache) ∙ ground arith in
      let twice : c.lru_queue ++ (k ∷ []) ≡ front ++ (k ∷ k ∷ []) =
        ap (λ q. q ++ (k ∷ [])) queue ∙ append_assoc front (k ∷ []) (k ∷ []) in
      let removed : Lru T = record c { cache = erase k c.cache } in
      let inserted : Lru T = record {
        cache = insert k (v, false) (erase k c.cache);
        lru_queue = c.lru_queue ++ (k ∷ []);
      } in
      ap (λ (d : Lru T). (get (insert_value d k v).0 k).0) (remove_uncycled c k e stored still)
      ∙ ap (λ (d : Lru T). (get d k).0) (insert_value_new removed k v gone)
      ∙ get_stored inserted k v false back
      ∙ ap {B = Lru T}
          (λ (q : List ℕ). record {
            cache = insert k (v, true) (insert k (v, false) (erase k c.cache));
            lru_queue = q;
          })
          twice

  -- Where no key stands twice in the queue, and all keys before the last one are stored and were read:
  -- if the last key is removed, inserted again and read, the next eviction takes it, and none of
  -- those that were read before it.
  pub pop_lowest_priority-reinserted :
      (c : Lru T) (front : List ℕ) (k : ℕ) (e : T × Bool) (v : T)
      → c.lru_queue ≡ front ++ (k ∷ [])
      → 0 < length front
      → Distinct front
      → Absent k front
      → AllRead c.cache front
      → find k c.cache ≡ some e
      → evicted (pop_lowest_priority (reinserted c k v)) ≡ some k
  unfolding pop_lowest_priority
  pop_lowest_priority-reinserted c front k e v queue some_key d a h stored =
      let m = erase k c.cache in
      let m' = insert k (v, true) (insert k (v, false) m) in
      let same : (j : ℕ) → k ≢ j → find j m' ≡ find j c.cache = λ j ne.
        find-insert k j (v, true) (insert k (v, false) m)
        ∙ ground (arith, find-insert k j (v, false) m, find-erase k j c.cache) in
      let left =
        length-AllRead front m d
          (AllRead-same c.cache m k front (λ j ne. find-erase k j c.cache ∙ ground arith) a h) in
      let after : Lru T = record { cache = m'; lru_queue = front ++ (k ∷ k ∷ []) } in
      let size = length-append front (k ∷ k ∷ []) in
      rw (reinserted_lem c front k e v queue stored (omega arith)) (
        pop_loop-twice front (suc (length (front ++ (k ∷ k ∷ [])) + flagged m')) after k v [] refl
          (AllRead-same c.cache m' k front same a h) d a
          (find-insert k k (v, true) (insert k (v, false) m) ∙ ground arith) (omega arith))
