-- ===== src/Prelude/Map.antt =====
-- Maps from numbers, as association lists in the order of the keys (`BTreeMap`; a `HashMap` whose
-- order nothing observes).
use Prim.Native.Nat.{ℕ, ◌≤◌, ◌<◌}
use mathlib.Core.Path.{◌≡◌, refl}
use mathlib.Core.Bool.{Bool, true, false}
use mathlib.Core.List.{List, [], ◌∷◌}
use mathlib.Core.Option.{Option, none, some}
use native.Mathlib.Omega.{arith}
use redbx.Prelude.Tests.{ltb, ◌==◌, if◌then◌else◌}

-- Every key of the map is above `n`.
abbrev pub Above {ℓ} : {V : Type ℓ} → ℕ → List (ℕ × V) → Type 0
Above n [] = Unit
Above n ((j, w) ∷ m) = (n < j) × Above n m

-- The keys strictly ascend, so no key stands twice.
abbrev pub IsSorted {ℓ} : {V : Type ℓ} → List (ℕ × V) → Type 0
IsSorted [] = Unit
IsSorted ((j, w) ∷ m) = Above j m × IsSorted m

abbrev pub is_some {ℓ} : {A : Type ℓ} → Option A → Bool
is_some none = false
is_some (some a) = true

module _ {ℓ} {V : Type ℓ} where
  unfoldable pub find : ℕ → List (ℕ × V) → Option V
  find k [] = none
  find k ((j, w) ∷ m) = if j == k then some w else find k m

  unfoldable pub insert : ℕ → V → List (ℕ × V) → List (ℕ × V)
  insert k v [] = (k, v) ∷ []
  insert k v ((j, w) ∷ m) =
      if ltb k j then (k, v) ∷ (j, w) ∷ m else if k == j then (k, v) ∷ m else (j, w) ∷ insert k v m

  unfoldable pub erase : ℕ → List (ℕ × V) → List (ℕ × V)
  erase k [] = []
  erase k ((j, w) ∷ m) = if j == k then erase k m else (j, w) ∷ erase k m

  abbrev pub contains : ℕ → List (ℕ × V) → Bool
  contains k m = is_some (find k m)

  -- `first_key_value`, and the head of an iteration over the keys.
  abbrev pub first : List (ℕ × V) → Option (ℕ × V)
  first [] = none
  first (e ∷ m) = some e

  -- A read after an insertion.
  pub find-insert :
      (k j : ℕ) (v : V) (m : List (ℕ × V))
      → find j (insert k v m) ≡ (if k == j then some v else find j m)
  unfolding find insert
  find-insert k j v [] = refl
  find-insert k j v ((i, w) ∷ m) = ground (arith, find-insert k j v m)

  -- A read after an erasure.
  pub find-erase :
      (k j : ℕ) (m : List (ℕ × V)) → find j (erase k m) ≡ (if k == j then none else find j m)
  unfolding find erase
  find-erase k j [] = ground arith
  find-erase k j ((i, w) ∷ m) = ground (arith, find-erase k j m)

  Above-le : (i j : ℕ) (m : List (ℕ × V)) → i ≤ j → Above j m → Above i m
  Above-le i j [] h a = tt
  Above-le i j ((k, w) ∷ m) h a = (omega arith, Above-le i j m h a.1)

  Above-insert : (n k : ℕ) (v : V) (m : List (ℕ × V)) → n < k → Above n m → Above n (insert k v m)
  unfolding insert
  Above-insert n k v [] h a = (h, tt)
  Above-insert n k v ((i, w) ∷ m) h a = ground (arith, Above-insert n k v m)

  Above-erase : (n k : ℕ) (m : List (ℕ × V)) → Above n m → Above n (erase k m)
  unfolding erase
  Above-erase n k [] a = tt
  Above-erase n k ((i, w) ∷ m) a = ground (arith, Above-erase n k m)

  pub insert-IsSorted : (k : ℕ) (v : V) (m : List (ℕ × V)) → IsSorted m → IsSorted (insert k v m)
  unfolding insert
  insert-IsSorted k v [] s = (tt, tt)
  insert-IsSorted k v ((i, w) ∷ m) s =
      ground (arith, insert-IsSorted k v m, Above-insert i k v m, Above-le k i m)

  pub erase-IsSorted : (k : ℕ) (m : List (ℕ × V)) → IsSorted m → IsSorted (erase k m)
  unfolding erase
  erase-IsSorted k [] s = tt
  erase-IsSorted k ((i, w) ∷ m) s = ground (arith, erase-IsSorted k m, Above-erase i k m)

  Above-find : (n k : ℕ) (v : V) (m : List (ℕ × V)) → Above n m → find k m ≡ some v → n < k
  unfolding find
  Above-find n k v [] a e = cc
  Above-find n k v ((i, w) ∷ m) a e = ground (arith, Above-find n k v m)

  pub find-Above : (n k : ℕ) (m : List (ℕ × V)) → Above n m → k ≤ n → find k m ≡ none
  unfolding find
  find-Above n k [] a h = refl
  find-Above n k ((i, w) ∷ m) a h = ground (arith, find-Above n k m)

  -- The first entry of a sorted map is the one with the least key.
  pub first_least :
      (m : List (ℕ × V)) (e : ℕ × V) (k : ℕ) (v : V)
      → IsSorted m
      → first m ≡ some e
      → find k m ≡ some v
      → e.0 ≤ k
  unfolding find
  first_least [] e k v s p q = cc
  first_least ((i, w) ∷ m) e k v s p q = ground (arith, Above-find i k v m)
