-- ===== src/Tracker/Counts.antt =====
-- The reference counts of `live_read_transactions` against the list of their holders.
use redbx.Prelude.{
  ℕ, zero, suc, ◌+◌, ◌-◌, ◌%◌, ◌≤◌, ◌<◌, ◌≡◌, refl, ◌∙◌, sym, ap, Option, none, some, List, [], ◌∷◌,
  ◌++◌, ok, panic, arith, length, if◌then◌else◌, ◌==◌, Option-cases, inl, inr, Bool-cases, subst,
}
use redbx.Prelude.Map.{
  find, first, insert, erase, IsSorted, find-insert, find-erase, insert-IsSorted, erase-IsSorted,
  first_least,
}
use redbx.Prelude.Word.{u64_size, sub64}
use redbx.Tracker.{
  add_reference, drop_reference, drop_references, first_key, oldest_live_read_transaction, State,
}

-- How many holders a transaction has.
abbrev pub count : ℕ → List ℕ → ℕ
count t [] = 0
count t (x ∷ xs) = (if x == t then 1 else 0) + count t xs

abbrev pub positive : ℕ → Option ℕ
positive zero = none
positive (suc n) = some (suc n)

-- The map counts the holders of each transaction, and has no entry where there are none. There are
-- fewer holders than a `u64` can count.
pub record Represents (holders : List ℕ) (m : List (ℕ × ℕ)) : Type 0 where
  pub sorted : IsSorted m
  pub counted : (t : ℕ) → find t m ≡ positive (count t holders)
  pub small : length holders < u64_size

pub count-le-length : (t : ℕ) (xs : List ℕ) → count t xs ≤ length xs
count-le-length t [] = omega arith
count-le-length t (x ∷ xs) = ground (arith, count-le-length t xs)

pub count-append : (t : ℕ) (xs ys : List ℕ) → count t (xs ++ ys) ≡ count t xs + count t ys
count-append t [] ys = omega arith
count-append t (x ∷ xs) ys = ground (arith, count-append t xs ys)

-- Only the counts matter.
pub Represents-perm :
    {xs ys : List ℕ} {m : List (ℕ × ℕ)}
    → ((t : ℕ) → count t xs ≡ count t ys)
    → length ys ≤ length xs
    → Represents xs m
    → Represents ys m
Represents-perm same le r = record {
  sorted = r.sorted;
  counted = λ t. r.counted t ∙ ap positive (same t);
  small = omega (arith, r.small);
}

ok-injective {ℓ} : {A : Type ℓ} {a b : A} → ok a ≡ ok b → a ≡ b
ok-injective e = cc

positive-none : (n : ℕ) → positive n ≡ none → n ≡ 0
positive-none zero e = refl
positive-none (suc n) e = cc

positive-some : (n : ℕ) {k : ℕ} → positive n ≡ some k → (n ≡ k) × (0 < k)
positive-some zero e = cc
positive-some (suc n) e = ground arith

positive_of_pos : (n : ℕ) → 0 < n → positive n ≡ some n
positive_of_pos zero h = absurd (omega arith)
positive_of_pos (suc n) h = refl

-- One more holder is one more reference.
pub add_reference-Represents :
    (holders : List ℕ) (m : List (ℕ × ℕ)) (id : ℕ)
    → Represents holders m
    → length holders + 1 < u64_size
    → Represents (id ∷ holders) (add_reference m id)
unfolding add_reference
add_reference-Represents holders m id r small = elim (Option-cases (find id m)) [
  | inl e ↦
      let zero_holders = positive-none (count id holders) (sym (r.counted id) ∙ e) in
      rw (e, add_reference)
        (record {
          sorted = insert-IsSorted id 1 m r.sorted;
          counted = λ t.
              ground
                (arith, find-insert id t 1 m, r.counted t, positive_of_pos (1 + count t holders));
          small = omega arith;
        })
  | inr (n, e) ↦
      let some_holders = positive-some (count id holders) (sym (r.counted id) ∙ e) in
      rw (e, add_reference)
        (record {
          sorted = insert-IsSorted id _ m r.sorted;
          counted = λ t. ground (
            arith,
            find-insert id t ((n + 1) % u64_size) m,
            r.counted t,
            count-le-length id holders,
            positive_of_pos (1 + count t holders),
          );
          small = omega arith;
        })
]

-- A holder that leaves takes one reference, and its entry if it was the last; the call does not
-- panic.
pub drop_reference-Represents :
    (holders : List ℕ) (m : List (ℕ × ℕ)) (id : ℕ)
    → Represents (id ∷ holders) m
    → (m' : List (ℕ × ℕ)) × (drop_reference m id ≡ ok m') × Represents holders m'
unfolding drop_reference
drop_reference-Represents holders m id r = elim (Option-cases (find id m)) [
  | inl e ↦
      absurd (ground (arith, positive-none (count id (id ∷ holders)) (sym (r.counted id) ∙ e)))
  | inr (n, e) ↦
      let some_holders = positive-some (count id (id ∷ holders)) (sym (r.counted id) ∙ e) in
      let n' = sub64 n 1 in
      let less : n' ≡ n - 1 = omega (arith, count-le-length id (id ∷ holders)) in
      rw (e, drop_reference)
        (elim (Bool-cases (n' == 0)) [
          | inl last ↦ (
            erase id m,
            rw last,
            record {
              sorted = erase-IsSorted id m r.sorted;
              counted = λ t. ground (arith, find-erase id t m, r.counted t);
              small = omega arith;
            },
          )
          | inr more ↦ (
            insert id n' m,
            rw more,
            record {
              sorted = insert-IsSorted id n' m r.sorted;
              counted = λ t.
                  ground
                    (arith, find-insert id t n' m, r.counted t, positive_of_pos (count t holders));
              small = omega arith;
            },
          )
        ])
]

pub drop_reference-keeps :
    (holders : List ℕ) (m : List (ℕ × ℕ)) (id : ℕ) {m' : List (ℕ × ℕ)}
    → Represents (id ∷ holders) m
    → drop_reference m id ≡ ok m'
    → Represents holders m'
drop_reference-keeps holders m id r e =
    let (m1, e1, r1) = drop_reference-Represents holders m id r in
    subst (Represents holders) (ok-injective (sym e1 ∙ e)) r1

-- A transaction without a holder cannot be released: the `unwrap` panics.
pub drop_reference_panic :
    (holders : List ℕ) (m : List (ℕ × ℕ)) (id : ℕ)
    → Represents holders m
    → count id holders ≡ 0
    → drop_reference m id ≡ panic
unfolding drop_reference
drop_reference_panic holders m id r none_left = ground (arith, r.counted id)

-- Each pending commit holds its durable ancestor, and each savepoint its transaction.
abbrev pub values : List (ℕ × ℕ) → List ℕ
values [] = []
values ((k, v) ∷ m) = v ∷ values m

-- The loop of `clear_pending_non_durable_commits` gives all of them up.
pub drop_references-Represents :
    (ids : List (ℕ × ℕ)) (holders : List ℕ) (m : List (ℕ × ℕ))
    → Represents (values ids ++ holders) m
    → (m' : List (ℕ × ℕ)) × (drop_references m ids ≡ ok m') × Represents holders m'
unfolding drop_references
drop_references-Represents [] holders m r = (m, refl, r)
drop_references-Represents ((id, ancestor) ∷ ids) holders m r =
    let (m1, step, r1) = drop_reference-Represents (values ids ++ holders) m ancestor r in
    let (m2, rest, r2) = drop_references-Represents ids holders m1 r1 in (m2, rw step rest, r2)

pub drop_references-keeps :
    (ids : List (ℕ × ℕ)) (holders : List ℕ) (m : List (ℕ × ℕ)) {m' : List (ℕ × ℕ)}
    → Represents (values ids ++ holders) m
    → drop_references m ids ≡ ok m'
    → Represents holders m'
drop_references-keeps ids holders m r e =
    let (m1, e1, r1) = drop_references-Represents ids holders m r in
    subst (Represents holders) (ok-injective (sym e1 ∙ e)) r1

first_key-first :
    (m : List (ℕ × ℕ)) (t : ℕ)
    → first_key m ≡ some t
    → (n : ℕ) × (first m ≡ some (t, n)) × (find t m ≡ some n)
unfolding find
first_key-first [] t e = cc
first_key-first ((k, n) ∷ m) t e = (n, ground arith, ground arith)

first_key-none : (m : List (ℕ × ℕ)) (t : ℕ) → first_key m ≡ none → find t m ≡ none
unfolding find
first_key-none [] t e = refl
first_key-none ((k, n) ∷ m) t e = cc

-- What the oldest of the holders is.
abbrev pub All {ℓ} : {A : Type ℓ} → (A → Type 0) → List A → Type 0
All P [] = Unit
All P (x ∷ xs) = P x × All P xs

abbrev pub IsOldest : Option ℕ → List ℕ → Type 0
IsOldest none holders = holders ≡ []
IsOldest (some t) holders = (0 < count t holders) × All (λ u. t ≤ u) holders

All-of_count : (t : ℕ) (xs : List ℕ) → ((u : ℕ) → 0 < count u xs → t ≤ u) → All (λ u. t ≤ u) xs
All-of_count t [] h = tt
All-of_count t (x ∷ xs) h = (h x (ground arith), All-of_count t xs (λ u p. h u (ground arith)))

pub All-count : (t u : ℕ) (xs : List ℕ) → All (λ v. t ≤ v) xs → 0 < count u xs → t ≤ u
All-count t u [] a h = absurd (omega arith)
All-count t u (x ∷ xs) a h = ground (arith, All-count t u xs)

nil_of_count : (xs : List ℕ) → ((u : ℕ) → count u xs ≡ 0) → xs ≡ []
nil_of_count [] h = refl
nil_of_count (x ∷ xs) h = absurd (ground (arith, h x))

IsOldest-of :
    (m : List (ℕ × ℕ)) (holders : List ℕ) (o : Option ℕ)
    → first_key m ≡ o
    → Represents holders m
    → IsOldest o holders
IsOldest-of m holders none e r =
    nil_of_count holders
      (λ u. positive-none (count u holders) (sym (r.counted u) ∙ first_key-none m u e))
IsOldest-of m holders (some t) e r =
    let (n, head, found) = first_key-first m t e in
    (
      omega (arith, positive-some (count t holders) (sym (r.counted t) ∙ found)),
      All-of_count t holders (λ u held.
          first_least m (t, n) u (count u holders) r.sorted head
            (r.counted u ∙ positive_of_pos (count u holders) held)),
    )

-- Where the reference counts are those of the holders, `oldest_live_read_transaction` returns a held
-- transaction that is no later than any other, or nothing, and then none is held.
pub oldest_live_read_transaction-IsOldest :
    (s : State) (holders : List ℕ)
    → Represents holders s.live_read_transactions
    → IsOldest (oldest_live_read_transaction s) holders
unfolding oldest_live_read_transaction
oldest_live_read_transaction-IsOldest s holders r =
    IsOldest-of s.live_read_transactions holders _ refl r
