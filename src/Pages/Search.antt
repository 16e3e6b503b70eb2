-- ===== src/Pages/Search.antt =====
-- The binary searches of src/tree_store/btree_base.rs. The loops of `LeafAccessor::position` and of
-- `BranchAccessor::child_for_key` are the same but for how they read a key.
use redbx.Prelude.{
  ℕ, zero, suc, ◌+◌, ◌-◌, ◌/◌, ◌≤◌, ◌<◌, ◌≡◌, inl, inr, refl, ap, ◌∙◌, subst, Bool, true, false,
  List, some, arith, length, Outcome, ok, panic, ◌>>=◌, if◌then◌else◌, ltb, get_elem?,
  get_elem?-some, get_elem?-lt, Bool-cases,
}
use Prim.Native.Nat.{Ordering}
use native.Mathlib.Decide.{dec_lt}

-- The three cases of a comparison.
abbrev pub by_order {ℓ} : {A : Type ℓ} → Ordering → A → A → A → A
by_order Ordering.lt less equal greater = less
by_order Ordering.eq less equal greater = equal
by_order Ordering.gt less equal greater = greater

module _ (compare : List ℕ → List ℕ → Ordering) (key_at : ℕ → Outcome (List ℕ))
    (query : List ℕ) where
  -- The rounds from the bounds on; with no fuel left there is no result.
  unfoldable pub search_loop : ℕ → ℕ → ℕ → Outcome (ℕ × Bool)
  search_loop zero low high = panic
  search_loop (suc fuel) low high =
      let mid = (low + high) / 2 in
      let left = search_loop fuel low mid in
      let right = search_loop fuel (mid + 1) high in
      if ltb low high
      then (do key ← key_at mid; by_order (compare query key) left (ok (mid, true)) right)
      else ok (low, false)

-- What a search relies on of the order of keys: it is transitive.
pub record IsOrder (compare : List ℕ → List ℕ → Ordering) : Type 0 where
  pub before :
      (q a b : List ℕ)
      → compare q a ≡ Ordering.lt
      → compare a b ≡ Ordering.lt
      → compare q b ≡ Ordering.lt
  pub beyond :
      (q a b : List ℕ)
      → compare q b ≡ Ordering.gt
      → compare a b ≡ Ordering.lt
      → compare q a ≡ Ordering.gt

-- The keys ascend.
abbrev pub Ascends : (List ℕ → List ℕ → Ordering) → List (List ℕ) → Type 0
Ascends compare keys =
    (i j : ℕ) (a b : List ℕ)
    → i < j
    → get_elem? keys i ≡ some a
    → get_elem? keys j ≡ some b
    → compare a b ≡ Ordering.lt

-- The place of a query among the keys: at an equal one, or between those below it and those above.
pub data Place (compare : List ℕ → List ℕ → Ordering) (keys : List (List ℕ)) (query : List ℕ)
    : ℕ × Bool → Type 0 where
  hit :
      (i : ℕ) (key : List ℕ)
      → get_elem? keys i ≡ some key
      → compare query key ≡ Ordering.eq
      → Place compare keys query (i, true)
  miss :
      (i : ℕ)
      → i ≤ length keys
      → ((j : ℕ) (key : List ℕ)
          → j < i
          → get_elem? keys j ≡ some key
          → compare query key ≡ Ordering.gt)
      → ((j : ℕ) (key : List ℕ)
          → i ≤ j
          → get_elem? keys j ≡ some key
          → compare query key ≡ Ordering.lt)
      → Place compare keys query (i, false)

module _ (compare : List ℕ → List ℕ → Ordering) (order : IsOrder compare) (keys : List (List ℕ))
    (ascends : Ascends compare keys) (key_at : ℕ → Outcome (List ℕ))
    (reads : (i : ℕ) (key : List ℕ) → get_elem? keys i ≡ some key → key_at i ≡ ok key)
    (query : List ℕ) where
  -- All keys below the low bound are smaller than the query, and those from the high bound on larger.
  record IsBetween (low high : ℕ) : Type 0 where
    ordered : low ≤ high
    inside : high ≤ length keys
    smaller :
        (j : ℕ) (key : List ℕ)
        → j < low
        → get_elem? keys j ≡ some key
        → compare query key ≡ Ordering.gt
    larger :
        (j : ℕ) (key : List ℕ)
        → high ≤ j
        → get_elem? keys j ≡ some key
        → compare query key ≡ Ordering.lt

  lower_half :
      {low high : ℕ} (mid : ℕ) (key : List ℕ)
      → low ≤ mid
      → mid < high
      → IsBetween low high
      → get_elem? keys mid ≡ some key
      → compare query key ≡ Ordering.lt
      → IsBetween low mid
  lower_half mid key l h b e less = record {
    ordered = l;
    inside = omega (arith, b.inside);
    smaller = b.smaller;
    larger = λ j k at here. elim (dec_lt mid j) [
      | yes later ↦ order.before query key k less (ascends mid j key k later e here)
      | no same ↦
          let i : j ≡ mid = omega arith in
          let f : get_elem? keys j ≡ some key = ap (get_elem? keys) i ∙ e in
          let k_eq : key ≡ k = cc in subst (λ x. compare query x ≡ Ordering.lt) k_eq less
    ];
  }

  upper_half :
      {low high : ℕ} (mid : ℕ) (key : List ℕ)
      → low ≤ mid
      → mid < high
      → IsBetween low high
      → get_elem? keys mid ≡ some key
      → compare query key ≡ Ordering.gt
      → IsBetween (mid + 1) high
  upper_half mid key l h b e more = record {
    ordered = omega arith;
    inside = b.inside;
    smaller = λ j k at here. elim (dec_lt j mid) [
      | yes earlier ↦ order.beyond query k key more (ascends j mid k key earlier here e)
      | no same ↦
          let i : j ≡ mid = omega arith in
          let f : get_elem? keys j ≡ some key = ap (get_elem? keys) i ∙ e in
          let k_eq : key ≡ k = cc in subst (λ x. compare query x ≡ Ordering.gt) k_eq more
    ];
    larger = b.larger;
  }

  abbrev Found : Outcome (ℕ × Bool) → Type 0
  Found o = (r : ℕ × Bool) × (o ≡ ok r) × Place compare keys query r

  by_order-Found :
      (mid : ℕ) (key : List ℕ) (left right : Outcome (ℕ × Bool)) (o : Ordering)
      → compare query key ≡ o
      → get_elem? keys mid ≡ some key
      → (compare query key ≡ Ordering.lt → Found left)
      → (compare query key ≡ Ordering.gt → Found right)
      → Found (by_order o left (ok (mid, true)) right)
  by_order-Found mid key left right Ordering.lt e there l r = l e
  by_order-Found mid key left right Ordering.eq e there l r =
      ((mid, true), refl, hit mid key there e)
  by_order-Found mid key left right Ordering.gt e there l r = r e

  search_loop-Found :
      (fuel low high : ℕ)
      → high - low < fuel
      → IsBetween low high
      → Found (search_loop compare key_at query fuel low high)
  unfolding search_loop
  search_loop-Found zero low high f b = elim f [ ]
  search_loop-Found (suc fuel) low high f b = elim (Bool-cases (ltb low high)) [
    | inr e ↦ rw e (stop low high b (ground (arith, b.ordered)))
    | inl e ↦
        let less : low < high = ground arith in
        let mid = (low + high) / 2 in
        let (key, there) = get_elem?-some keys mid (omega (arith, b.inside)) in
        rw (e, reads mid key there)
          (by_order-Found mid key _ _ (compare query key) refl there
            (λ c.
              search_loop-Found fuel low mid (omega arith)
                (lower_half mid key (omega arith) (omega arith) b there c))
            (λ c.
              search_loop-Found fuel (mid + 1) high (omega arith)
                (upper_half mid key (omega arith) (omega arith) b there c)))
  ]
    where
      stop : (low high : ℕ) → IsBetween low high → low ≡ high → Found (ok (low, false))
      stop low high b e = (
        (low, false),
        refl,
        miss low (omega (arith, b.inside)) b.smaller
            (λ j key l here. b.larger j key (omega arith) here),
      )

  -- A search over all keys ends with the place of the query, if it has one more round than keys.
  pub search-Place :
      (r : ℕ × Bool) × (search_loop compare key_at query (length keys + 1) 0 (length keys) ≡ ok r)
      × Place compare keys query r
  search-Place = search_loop-Found (length keys + 1) 0 (length keys) (omega arith) (record {
    ordered = omega arith;
    inside = omega arith;
    smaller = λ j key l here. absurd (omega arith);
    larger = λ j key l here. absurd (omega (arith, get_elem?-lt keys j here));
  })
