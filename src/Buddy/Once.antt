-- ===== src/Buddy/Once.antt =====
-- Each page stands in one of the free blocks of src/tree_store/page_store/buddy_allocator.rs that
-- `new` makes, and in one only.
use native.Mathlib.Nat.{pow-suc, div-div-eq-div-mul}
use redbx.Prelude.{
  ℕ, zero, suc, ◌-◌, ◌+◌, ◌*◌, ◌/◌, ◌^◌, ◌<◌, ◌≤◌, ◌≡◌, refl, ap, sym, ◌∙◌, subst, arith,
  Bool-cases, inl, inr, ◌==◌, ltb, true, false,
}
use redbx.Buddy.Fresh.{first_free}

halved : (q k : ℕ) → q / 2 ^ suc k ≡ q / 2 ^ k / 2
halved q k = sym (div-div-eq-div-mul q (2 ^ k) 2 ∙ ap (λ d. q / d) (sym (pow-suc 2 k)))

-- The block of the page at an order is one of the free ones.
abbrev pub Held : ℕ → ℕ → ℕ → ℕ → Type 0
Held max_order pages q j = (q / 2 ^ j < pages / 2 ^ j) × (first_free max_order pages j ≤ q / 2 ^ j)

module _ (max_order pages q : ℕ) where
  -- Blocks that end behind the pages lie in blocks that do.
  outside : (m d : ℕ) → pages / 2 ^ m ≤ q / 2 ^ m → pages / 2 ^ (d + m) ≤ q / 2 ^ (d + m)
  outside m zero h = let same : 0 + m ≡ m = omega arith in rw same h
  outside m (suc d) h =
      let up : suc d + m ≡ suc (d + m) = omega arith in
      let rest = outside m d h in rw (up, halved pages (d + m), halved q (d + m)) (omega arith)

  first_free-lower :
      (j : ℕ) → j < max_order → first_free max_order pages j ≡ 2 * (pages / 2 ^ suc j)
  first_free-lower j h =
      let lower : (j == max_order) ≡ false = ground arith in
      let up : j + 1 ≡ suc j = omega arith in rw lower (ap (λ k. 2 * (pages / 2 ^ k)) up)

  first_free-top : first_free max_order pages max_order ≡ 0
  first_free-top = let top : (max_order == max_order) ≡ true = ground arith in rw top refl

  held_here :
      (k : ℕ)
      → k ≤ max_order
      → (k < max_order → pages / 2 ^ suc k ≤ q / 2 ^ suc k)
      → first_free max_order pages k ≤ q / 2 ^ k
  held_here k le above = elim (Bool-cases (ltb k max_order)) [
    | inl lower ↦
        let lt : k < max_order = ground arith in
        let past = above lt in rw (first_free-lower k lt) (omega (arith, halved q k))
    | inr top ↦
        let e : k ≡ max_order = ground arith in
        rw (ap (first_free max_order pages) e ∙ first_free-top) (omega arith)
  ]

  -- From an order whose block above ends behind the pages, downwards.
  search :
      (k : ℕ)
      → k ≤ max_order
      → (k < max_order → pages / 2 ^ suc k ≤ q / 2 ^ suc k)
      → q < pages
      → (j : ℕ) × (j ≤ max_order) × Held max_order pages q j
  search zero le above inside = (0, omega arith, (omega arith, held_here 0 le above))
  search (suc k) le above inside = elim (Bool-cases (ltb (q / 2 ^ suc k) (pages / 2 ^ suc k))) [
    | inl within ↦ (suc k, le, (ground arith, held_here (suc k) le above))
    | inr past ↦ search k (omega arith) (λ _. ground arith) inside
  ]

  pub held : q < pages → (j : ℕ) × (j ≤ max_order) × Held max_order pages q j
  held inside = search max_order (omega arith) (λ h. absurd (omega arith)) inside

  not_both :
      (j k : ℕ)
      → j < k
      → k ≤ max_order
      → first_free max_order pages j ≤ q / 2 ^ j
      → q / 2 ^ k < pages / 2 ^ k
      → k ≡ j
  not_both j k lt le behind inside =
      let low = first_free-lower j (omega arith) in
      let past : pages / 2 ^ suc j ≤ q / 2 ^ suc j = omega (arith, halved q j) in
      let d = k - suc j in
      let e : d + suc j ≡ k = omega arith in
      let far = outside (suc j) d past in
      let there : pages / 2 ^ k ≤ q / 2 ^ k = subst (λ m. pages / 2 ^ m ≤ q / 2 ^ m) e far in
      absurd (omega arith)

  pub Held-once :
      (j k : ℕ)
      → j ≤ max_order
      → k ≤ max_order
      → Held max_order pages q j
      → Held max_order pages q k
      → k ≡ j
  Held-once j k lj lk h g = elim (Bool-cases (ltb j k)) [
    | inl below ↦ not_both j k (ground arith) lk h.1 g.0
    | inr rest ↦ elim (Bool-cases (ltb k j)) [
      | inl above ↦ sym (not_both k j (ground arith) lj g.1 h.0)
      | inr equal ↦ ground arith
    ]
  ]
