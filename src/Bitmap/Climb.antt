-- ===== src/Bitmap/Climb.antt =====
-- What the loop of `update_to_root`, and the operations that end with it, do to a whole
-- `BtreeBitmap` of src/tree_store/page_store/bitmap.rs.
use redbx.Prelude.{
  ℕ, zero, suc, ◌/◌, ◌<◌, ◌≡◌, ◌≢◌, refl, ap, sym, ◌∙◌, subst, List, arith, ◌==◌, length, Bool,
  true, false, Bool-cases, ok, inl, inr, set, length-set,
}
use redbx.Bitmap.{climb, update_level}
use redbx.Bitmap.Word.{u64_max}
use redbx.Bitmap.Group.{U64GroupedBitmap}
use redbx.Bitmap.Group.Reads.{word_at}
use redbx.Bitmap.Tree.{IsTree, IsLevel, IsSummary, level_at, level_at-set, level_at-set_other}
use redbx.Bitmap.Update.{
  IsSummaryBut, IsRound, IsRound-full, IsRound-open, change-IsLevel, changed-IsSummaryBut,
}

-- All is well but at word `e` of the level below `h`, which the level at `h` does not sum up yet.
pub record IsPending (levels : List U64GroupedBitmap) (h e : ℕ) (full : Bool) : Type 0 where
  pub inner : suc h < length levels
  pub level : (j : ℕ) → j < length levels → IsLevel (level_at levels j)
  pub summary :
      (j : ℕ)
      → j ≢ h
      → suc j < length levels
      → IsSummary (level_at levels j) (level_at levels (suc j))
  pub but : IsSummaryBut e (level_at levels h) (level_at levels (suc h))
  pub flag : full ≡ (word_at (level_at levels (suc h)).words e == u64_max)
  pub entry : e < (level_at levels h).len

-- One round: the level at `h` is replaced by one that sums up the level below.
round :
    (levels : List U64GroupedBitmap) (h e : ℕ) (full : Bool)
    → IsPending levels h e full
    → (p' : U64GroupedBitmap) × (flag : Bool) × (update_level h e full levels
        ≡ ok (set levels h p', flag))
      × IsRound e (level_at levels (suc h)) (level_at levels h) p' flag
round levels h e true pending =
    let inner = pending.inner in
    IsRound-full levels h e (level_at levels (suc h)) (omega arith) (pending.level h (omega arith))
      pending.but pending.entry (let flag = pending.flag in ground arith)
round levels h e false pending =
    let inner = pending.inner in
    IsRound-open levels h e (level_at levels (suc h)) (omega arith) (pending.level h (omega arith))
      pending.but pending.entry (let flag = pending.flag in ground arith)

module _ (levels : List U64GroupedBitmap) (h e : ℕ) (full : Bool)
    (pending : IsPending levels h e full) (p' : U64GroupedBitmap) (flag : Bool)
    (done : IsRound e (level_at levels (suc h)) (level_at levels h) p' flag) where
  inside : h < length levels
  inside = let inner = pending.inner in omega arith

  new-IsLevel : (j : ℕ) → j < length levels → IsLevel (level_at (set levels h p') j)
  new-IsLevel j lt = elim (Bool-cases (h == j)) [
    | inl same ↦
        let e' : h ≡ j = ground arith in
        subst (λ k. IsLevel (level_at (set levels h p') k)) e'
          (subst IsLevel (sym (level_at-set levels h p' inside)) (
            change-IsLevel (level_at levels h) p' e done.value pending.entry
              (pending.level h inside) done.change))
    | inr other ↦
        let apart : h ≢ j = ground arith in
        subst IsLevel (sym (level_at-set_other levels h j p' apart)) (pending.level j lt)
  ]

  -- The pairs of levels above and below, but for the one that the round leaves pending.
  new-IsSummary :
      (j : ℕ)
      → suc j ≢ h
      → suc j < length levels
      → IsSummary (level_at (set levels h p') j) (level_at (set levels h p') (suc j))
  new-IsSummary j ne lt =
      let below = level_at-set_other levels h (suc j) p' (λ eq. ne (sym eq)) in
      elim (Bool-cases (h == j)) [
        | inl same ↦
            let e' : h ≡ j = ground arith in
            let below' = level_at-set_other levels h (suc h) p' (λ eq. absurd (omega arith)) in
            subst
              (λ k. IsSummary (level_at (set levels h p') k) (level_at (set levels h p') (suc k)))
              e' (rw (below', level_at-set levels h p' inside) done.summary)
        | inr other ↦
            let apart : h ≢ j = ground arith in
            rw (below, level_at-set_other levels h j p' apart)
              (pending.summary j (λ eq. apart (sym eq)) lt)
      ]

-- After the round at the root, all is well.
root_done :
    (levels : List U64GroupedBitmap) (e : ℕ) (full : Bool)
    → IsPending levels 0 e full
    → (p' : U64GroupedBitmap) (flag : Bool)
    → IsRound e (level_at levels 1) (level_at levels 0) p' flag
    → IsTree (set levels 0 p')
root_done levels e full pending p' flag done = record {
  level = λ j lt.
      new-IsLevel levels 0 e full pending p' flag done j
        (subst (λ n. j < n) (length-set levels 0 p') lt);
  summary = λ j lt.
      new-IsSummary levels 0 e full pending p' flag done j (λ eq. absurd (omega arith))
        (subst (λ n. suc j < n) (length-set levels 0 p') lt);
}

-- After a round below the root, the level above is the one that is pending.
above-IsPending :
    (levels : List U64GroupedBitmap) (h e : ℕ) (full : Bool)
    → IsPending levels (suc h) e full
    → (p' : U64GroupedBitmap) (flag : Bool)
    → IsRound e (level_at levels (suc (suc h))) (level_at levels (suc h)) p' flag
    → IsPending (set levels (suc h) p') h (e / 64) flag
above-IsPending levels h e full pending p' flag done =
    let inner = pending.inner in
    let size = length-set levels (suc h) p' in
    let self = level_at-set levels (suc h) p' (omega arith) in
    let above = level_at-set_other levels (suc h) h p' (λ eq. absurd (omega arith)) in
    let summed = pending.summary h (λ eq. absurd (omega arith)) (omega arith) in
    record {
      inner = omega arith;
      level = λ j lt. new-IsLevel levels (suc h) e full pending p' flag done j (omega arith);
      summary = λ j ne lt.
          new-IsSummary levels (suc h) e full pending p' flag done j (λ eq. ne (omega arith))
            (omega arith);
      but =
          rw (self, above)
            (changed-IsSummaryBut (level_at levels h) (level_at levels (suc h)) p' e done.value
              summed done.change);
      flag = rw self done.flag_eq;
      entry = let len = summed.len in let lt = pending.entry in rw above (omega arith);
    }

-- The lengths of the levels after a change of one of them.
pub len_same :
    (levels : List U64GroupedBitmap) (h : ℕ) (p' : U64GroupedBitmap)
    → h < length levels
    → p'.len ≡ (level_at levels h).len
    → (j : ℕ) → (level_at (set levels h p') j).len ≡ (level_at levels j).len
len_same levels h p' lt e j = elim (Bool-cases (h == j)) [
  | inl same ↦
      let e' : h ≡ j = ground arith in
      subst (λ k. (level_at (set levels h p') k).len ≡ (level_at levels k).len) e'
        (ap (λ g. g.len) (level_at-set levels h p' lt) ∙ e)
  | inr other ↦
      let apart : h ≢ j = ground arith in ap (λ g. g.len) (level_at-set_other levels h j p' apart)
]

-- What the loop leaves: a whole tree, with the lengths and the levels below `h` as they were.
pub record IsClimbed (h : ℕ) (levels levels' : List U64GroupedBitmap) : Type 0 where
  pub tree : IsTree levels'
  pub size : length levels' ≡ length levels
  pub lens : (j : ℕ) → (level_at levels' j).len ≡ (level_at levels j).len
  pub below : (j : ℕ) → h < j → level_at levels' j ≡ level_at levels j

-- The loop returns and mends the tree.
pub climb_lem :
    (h e : ℕ) (full : Bool) (levels : List U64GroupedBitmap)
    → IsPending levels h e full
    → (levels' : List U64GroupedBitmap) × (climb h e full levels ≡ ok levels')
      × IsClimbed h levels levels'
unfolding climb
climb_lem zero e full levels pending =
    let (p', flag, returns, done) = round levels 0 e full pending in
    let inner = pending.inner in
    (
      set levels 0 p',
      rw returns refl,
      record {
        tree = root_done levels e full pending p' flag done;
        size = length-set levels 0 p';
        lens = len_same levels 0 p' (omega arith) done.change.len;
        below = λ j lt. level_at-set_other levels 0 j p' (λ eq. absurd (omega arith));
      },
    )
climb_lem (suc h) e full levels pending =
    let (p', flag, returns, done) = round levels (suc h) e full pending in
    let inner = pending.inner in
    let (levels', rest, c) =
      climb_lem h (e / 64) flag (set levels (suc h) p')
        (above-IsPending levels h e full pending p' flag done) in
    (
      levels',
      rw returns rest,
      record {
        tree = c.tree;
        size = c.size ∙ length-set levels (suc h) p';
        lens = λ j. c.lens j ∙ len_same levels (suc h) p' (omega arith) done.change.len j;
        below = λ j lt.
            c.below j (omega arith)
            ∙ level_at-set_other levels (suc h) j p' (λ eq. absurd (omega arith));
      },
    )
