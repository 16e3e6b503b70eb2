-- ===== src/Lru.antt =====
-- The second-chance cache of src/tree_store/page_store/lru_cache.rs. `cache` is the hash map from a
-- key to its value and its second-chance flag, whose order nothing observes; `lru_queue` is the
-- `VecDeque`, front first. A method that takes `&self` and stores to a flag returns the new state.
pub mod Invariant
pub mod Eviction
pub mod Contents
pub mod SecondChance
pub mod Reinsert
mod Tests
use redbx.Prelude.{
  ℕ, zero, suc, ◌+◌, ◌*◌, Bool, true, false, Option, none, some, List, [], ◌∷◌, ◌++◌, map, length,
  if◌then◌else◌, ltb,
}
use redbx.Prelude.Map.{find, insert, erase, is_some}

pub record Lru {ℓ} (T : Type ℓ) : Type ℓ where
  pub cache : List (ℕ × (T × Bool))
  pub lru_queue : List ℕ

module _ {ℓ} {T : Type ℓ} where
  unfoldable pub new : Lru T
  new = record { cache = []; lru_queue = [] }

  unfoldable pub len : Lru T → ℕ
  len c = length c.cache

  abbrev pub value_of : Option (T × Bool) → Option T
  value_of none = none
  value_of (some (v, flag)) = some v

  -- `self.cache.insert` returns the value that it replaces; a new key goes to the back of the queue.
  unfoldable pub insert_value : Lru T → ℕ → T → Lru T × Option T
  insert_value c key value =
      let result = value_of (find key c.cache) in
      let cache' = insert key (value, false) c.cache in
      (
        if is_some result
            then record c { cache = cache' }
            else record { cache = cache'; lru_queue = c.lru_queue ++ (key ∷ []) },
        result,
      )

  unfoldable pub cycle_queue : Lru T → List ℕ → Lru T
  cycle_queue c [] = c
  cycle_queue c (k ∷ q) = elim (find k c.cache) [
    | none ↦ record c { lru_queue = q }
    | some (v, flag) ↦ record { cache = insert k (v, false) c.cache; lru_queue = q ++ (k ∷ []) }
  ]

  -- One round of the loop of `remove`: the front of the queue goes to the back with its flag
  -- cleared if it is cached, and is dropped if it is not.
  unfoldable pub cycle : Lru T → Lru T
  unfolding cycle_queue
  cycle c = cycle_queue c c.lru_queue

  unfoldable pub remove : Lru T → ℕ → Lru T × Option T
  unfolding cycle
  remove c key = elim (find key c.cache) [
    | none ↦ (c, none)
    | some (value, flag) ↦
        let c' : Lru T = record c { cache = erase key c.cache } in
        (
          if ltb (2 * length c'.cache) (length c'.lru_queue) then cycle (cycle c') else c',
          some value,
        )
  ]

  -- `get` and `get_mut`: both set the flag.
  unfoldable pub get : Lru T → ℕ → Lru T × Option T
  get c key = elim (find key c.cache) [
    | none ↦ (c, none)
    | some (value, flag) ↦ (record c { cache = insert key (value, true) c.cache }, some value)
  ]

  unfoldable pub iter : Lru T → List (ℕ × T)
  iter c = map (λ e. (e.0, e.1.0)) c.cache

  -- The body of the loop of `pop_lowest_priority`; `again` is the next round.
  unfoldable pub pop_round :
      (Lru T → Option (Lru T × Option (ℕ × T))) → Lru T → List ℕ → Option (Lru T × Option (ℕ × T))
  pop_round again c [] = some (c, none)
  pop_round again c (k ∷ q) = elim (find k c.cache) [
    | none ↦ again (record c { lru_queue = q })
    | some (v, true) ↦
        again (record { cache = insert k (v, false) c.cache; lru_queue = q ++ (k ∷ []) })
    | some (v, false) ↦ some (record { cache = erase k c.cache; lru_queue = q }, some (k, v))
  ]

  -- The loop; `none` means that the fuel ran out.
  unfoldable pub pop_loop : ℕ → Lru T → Option (Lru T × Option (ℕ × T))
  unfolding pop_round
  pop_loop zero c = none
  pop_loop (suc fuel) c = pop_round (pop_loop fuel) c c.lru_queue

  -- How many entries carry the second-chance flag.
  unfoldable pub flagged : List (ℕ × (T × Bool)) → ℕ
  flagged [] = 0
  flagged ((k, (v, flag)) ∷ m) = (if flag then 1 else 0) + flagged m

  -- A round drops an element of the queue or clears a flag, so this much fuel is enough.
  unfoldable pub pop_lowest_priority : Lru T → Option (Lru T × Option (ℕ × T))
  unfolding pop_loop flagged
  pop_lowest_priority c = pop_loop (suc (length c.lru_queue + flagged c.cache)) c

  unfoldable pub clear : Lru T → Lru T
  clear c = record { cache = []; lru_queue = [] }
