-- ===== src/Lru/Tests.antt =====
-- Runs of the cache, and the theorems at concrete caches.
use redbx.Prelude.{ℕ, ◌≡◌, refl, true, false, Option, some, [], ◌∷◌, arith}
use redbx.Prelude.Map.{find, insert, erase}
use redbx.Lru.{
  Lru, new, len, insert_value, remove, get, flagged, pop_round, pop_loop, pop_lowest_priority,
  cycle,
}
use redbx.Lru.Invariant.{IsValid, operations-IsValid}
use redbx.Lru.Eviction.{Popped, pop_lowest_priority_lem}
use redbx.Lru.SecondChance.{evicted, pop_lowest_priority-first_unread}
use redbx.Lru.Reinsert.{reinserted, pop_lowest_priority-reinserted}

program : Unit {0}
unfolding find insert erase new len insert_value remove get flagged pop_round pop_loop
    pop_lowest_priority cycle
program = tt

-- 5 and 7 are cached, 5 was read, and 9 is a stale element of the queue.
abbrev two : Lru ℕ
two = record { cache = (5, (50, true)) ∷ (7, (70, false)) ∷ []; lru_queue = 9 ∷ 5 ∷ 7 ∷ [] }

-- 5 stands twice in the queue.
abbrev twice : Lru ℕ
twice = record { cache = (5, (50, true)) ∷ (7, (70, false)) ∷ []; lru_queue = 5 ∷ 5 ∷ 7 ∷ [] }

evicts_unread :
    pop_lowest_priority two
    ≡ some (record { cache = (5, (50, false)) ∷ []; lru_queue = 5 ∷ [] }, some (7, 70))
unfolding program
evicts_unread = refl

evicts_twice : evicted (pop_lowest_priority twice) ≡ some 5
unfolding program
evicts_twice = refl

fresh_insert :
    (insert_value {T = ℕ} new 3 30).0 ≡ record { cache = (3, (30, false)) ∷ []; lru_queue = 3 ∷ [] }
unfolding program
fresh_insert = refl

-- The queue is longer than twice the cache, so `remove` drops the stale 9 and turns 5 over.
remove_cycles : (remove two 7).0 ≡ record { cache = (5, (50, false)) ∷ []; lru_queue = 7 ∷ 5 ∷ [] }
unfolding program
remove_cycles = refl

two-IsValid : IsValid two
unfolding find
two-IsValid = record { sorted = omega arith; queued = λ k e found. ground arith }

-- 5 was read. 7 is removed, inserted again and read, and the eviction takes it.
abbrev one_read : Lru ℕ
one_read = record { cache = (5, (50, true)) ∷ (7, (70, false)) ∷ []; lru_queue = 5 ∷ 7 ∷ [] }

pop_lowest_priority-reinserted_example :
    evicted (pop_lowest_priority (reinserted one_read 7 71)) ≡ some 7
unfolding find
pop_lowest_priority-reinserted_example =
    pop_lowest_priority-reinserted one_read (5 ∷ []) 7 (70, false) 71 refl (omega arith) (tt, tt)
      ((λ e. absurd (omega (arith, e))), tt) ((50, refl), tt) refl

pop_lowest_priority_lem_example :
    (r : Lru ℕ × Option (ℕ × ℕ)) × (pop_lowest_priority two ≡ some r) × Popped two r
pop_lowest_priority_lem_example = pop_lowest_priority_lem two two-IsValid

pop_lowest_priority-first_unread_example : evicted (pop_lowest_priority two) ≡ some 7
unfolding find
pop_lowest_priority-first_unread_example =
    pop_lowest_priority-first_unread two 7 two-IsValid (omega arith) refl

operations-IsValid_example :
    IsValid (insert_value two 7 80).0 × IsValid (get two 7).0 × IsValid (remove two 7).0
operations-IsValid_example = operations-IsValid two 7 80 two-IsValid
