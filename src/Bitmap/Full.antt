-- ===== src/Bitmap/Full.antt =====
-- What `new` of `BtreeBitmap` of src/tree_store/page_store/bitmap.rs builds.
use redbx.Prelude.{
  ℕ, zero, suc, ◌+◌, ◌-◌, ◌*◌, ◌/◌, ◌%◌, ◌^◌, ◌<◌, ◌≤◌, ◌≡◌, refl, ap, sym, ◌∙◌, List, [], ◌∷◌,
  arith, length, Bool-cases, inl, inr, leb, replicate, ltb,
}
use native.Mathlib.Nat.{pow-suc}
use redbx.Prelude.Word.{u32_size}
use redbx.Bitmap.{BtreeBitmap, build, new, new_fuel}
use redbx.Bitmap.Word.{u64_max, bit-ones_max}
use redbx.Bitmap.Group.{U64GroupedBitmap, new_full, required_words}
use redbx.Bitmap.Group.Reads.{word_at, bit_at, IsCovered}
use redbx.Bitmap.Tree.{IsTree, IsLevel, IsSummary, level_at}
use redbx.Bitmap.Changes.{IsSound, leaf_level}

length-replicate : (n x : ℕ) → length (replicate n x) ≡ n
length-replicate zero x = refl
length-replicate (suc n) x = ap suc (length-replicate n x)

word_at-replicate : (n x i : ℕ) → i < n → word_at (replicate n x) i ≡ x
unfolding word_at
word_at-replicate zero x i h = absurd (omega arith)
word_at-replicate (suc n) x zero h = refl
word_at-replicate (suc n) x (suc i) h = word_at-replicate n x i (omega arith)

word_at-past : (n x i : ℕ) → n ≤ i → word_at (replicate n x) i ≡ 0
unfolding word_at
word_at-past zero x i h = refl
word_at-past (suc n) x zero h = absurd (omega arith)
word_at-past (suc n) x (suc i) h = word_at-past n x i (omega arith)

-- All bits of a new level are set.
pub new_full-bits :
    (len capacity i : ℕ) → i < 64 * ((capacity + 63) / 64) → bit_at (new_full len capacity) i ≡ 1
unfolding new_full required_words bit_at
new_full-bits len capacity i h =
    rw (word_at-replicate ((capacity + 63) / 64) u64_max (i / 64) (omega arith))
      (bit-ones_max 64 (i % 64) (omega arith))

new_full-IsLevel :
    (len capacity : ℕ)
    → len ≤ capacity
    → capacity + 128 ≤ u32_size
    → IsLevel (new_full len capacity)
unfolding new_full required_words IsCovered
new_full-IsLevel len capacity le small =
    let size = length-replicate ((capacity + 63) / 64) u64_max in
    record {
      covered = omega arith;
      words = λ i. elim (Bool-cases (ltb i ((capacity + 63) / 64))) [
        | inl inside ↦
            rw (word_at-replicate ((capacity + 63) / 64) u64_max i (ground arith)) (omega arith)
        | inr past ↦ rw (word_at-past ((capacity + 63) / 64) u64_max i (ground arith)) (omega arith)
      ];
      padded = λ i from stored. new_full-bits len capacity i (omega arith);
      small = omega arith;
    }

new_full-IsSummary :
    (len capacity : ℕ)
    → len ≤ capacity
    → IsSummary (new_full ((len + 63) / 64) ((capacity + 63) / 64)) (new_full len capacity)
unfolding new_full required_words
new_full-IsSummary len capacity le = record {
  len = refl;
  bits = λ i lt. record {
    full = λ _. word_at-replicate ((capacity + 63) / 64) u64_max i (omega arith);
    vacant = λ h.
        absurd (
          omega (arith, new_full-bits ((len + 63) / 64) ((capacity + 63) / 64) i (omega arith), h));
  };
}

module _ (root : U64GroupedBitmap) (levels : List U64GroupedBitmap) (l : IsLevel root)
    (t : IsTree levels) (s : 0 < length levels → IsSummary root (level_at levels 0)) where
  cons-IsLevel : (j : ℕ) → j < suc (length levels) → IsLevel (level_at (root ∷ levels) j)
  unfolding level_at
  cons-IsLevel zero lt = l
  cons-IsLevel (suc j) lt = t.level j (omega arith)

  cons-IsSummary :
      (j : ℕ)
      → suc j < suc (length levels)
      → IsSummary (level_at (root ∷ levels) j) (level_at (root ∷ levels) (suc j))
  unfolding level_at
  cons-IsSummary zero lt = s (omega arith)
  cons-IsSummary (suc j) lt = t.summary j (omega arith)

  cons-IsTree : IsTree (root ∷ levels)
  cons-IsTree = record { level = cons-IsLevel; summary = cons-IsSummary }

abbrev leaf_of_list : List U64GroupedBitmap → U64GroupedBitmap
leaf_of_list levels = level_at levels (length levels - 1)

leaf-cons :
    (x : U64GroupedBitmap) (levels : List U64GroupedBitmap)
    → 0 < length levels
    → leaf_of_list (x ∷ levels) ≡ leaf_of_list levels
unfolding level_at
leaf-cons x [] h = absurd (omega arith)
leaf-cons x (y ∷ ys) h =
    let outer : suc (suc (length ys)) - 1 ≡ suc (length ys) = omega arith in
    let inner : suc (length ys) - 1 ≡ length ys = omega arith in
    ap (level_at (x ∷ y ∷ ys)) outer ∙ ap (level_at (y ∷ ys)) (sym inner)

-- What the loop of `new` ends with.
record IsBuilt (fuel : ℕ) (start levels : List U64GroupedBitmap) : Type 0 where
  tree : IsTree levels
  some_level : 0 < length levels
  height : length levels ≤ length start + fuel
  root : (level_at levels 0).len ≤ 64
  leaf : leaf_of_list levels ≡ leaf_of_list start

new_full-root :
    (len capacity : ℕ) → len ≤ capacity → capacity ≤ 64 → (new_full len capacity).len ≤ 64
unfolding new_full
new_full-root len capacity le small = omega arith

build_more : (fuel capacity : ℕ) → capacity ≤ 64 ^ suc fuel → 64 < capacity → 0 < fuel
build_more zero capacity enough past = absurd (omega arith)
build_more (suc fuel) capacity enough past = omega arith

-- With fuel for the capacity the loop ends at a root of one word.
build_lem :
    (fuel len capacity : ℕ) (levels : List U64GroupedBitmap)
    → 0 < fuel
    → capacity ≤ 64 ^ fuel
    → len ≤ capacity
    → capacity + 128 ≤ u32_size
    → IsTree levels
    → (0 < length levels → IsSummary (new_full len capacity) (level_at levels 0))
    → IsBuilt fuel (new_full len capacity ∷ levels) (build fuel len capacity levels)
unfolding build level_at
build_lem zero len capacity levels some_fuel enough le small t s = absurd (omega arith)
build_lem (suc fuel) len capacity levels some_fuel enough le small t s =
    let tree =
      cons-IsTree (new_full len capacity) levels (new_full-IsLevel len capacity le small) t s in
    elim (Bool-cases (leb capacity 64)) [
      | inl last ↦ rw last (record {
        tree = tree;
        some_level = omega arith;
        height = omega arith;
        root = new_full-root len capacity le (ground arith);
        leaf = refl;
      })
      | inr more ↦
          let pow = pow-suc 64 fuel in
          let past : 64 < capacity = ground arith in
          let next =
            build_lem fuel ((len + 63) / 64) ((capacity + 63) / 64) (new_full len capacity ∷ levels)
              (build_more fuel capacity enough past) (omega arith) (omega arith) (omega arith) tree
              (λ _. new_full-IsSummary len capacity le) in
          let height = next.height in
          rw more (record {
            tree = next.tree;
            some_level = next.some_level;
            height = omega arith;
            root = next.root;
            leaf =
                next.leaf
                ∙ leaf-cons (new_full ((len + 63) / 64) ((capacity + 63) / 64))
                    (new_full len capacity ∷ levels) (omega arith);
          })
    ]

-- A new bitmap: sound, of the length asked for, and all set.
pub record IsFull (len : ℕ) (m : BtreeBitmap) : Type 0 where
  pub sound : IsSound m
  pub length_eq : (leaf_level m).len ≡ len
  pub all_bits : (i : ℕ) → i < len → bit_at (leaf_level m) i ≡ 1

empty-IsTree : IsTree []
empty-IsTree = record {
  level = λ j lt. absurd (omega arith);
  summary = λ j lt. absurd (omega arith);
}

new_full-len : (len capacity : ℕ) → (new_full len capacity).len ≡ len
unfolding new_full
new_full-len len capacity = refl

-- A new bitmap whose length is at most its capacity, a capacity that leaves 128 below `u32`'s range, is
-- sound: its levels are in step up to a root of one word. It has the length asked for, and all its ids
-- are set.
pub new-IsFull :
    (num_pages capacity : ℕ)
    → num_pages ≤ capacity
    → capacity + 128 ≤ u32_size
    → IsFull num_pages (new num_pages capacity)
unfolding new level_at
new-IsFull num_pages capacity le small =
    let b =
      build_lem new_fuel num_pages capacity [] (omega arith) (omega arith) le small empty-IsTree
        (λ none. absurd (omega arith)) in
    let height = b.height in
    record {
      sound = record {
        tree = b.tree;
        some_level = b.some_level;
        height = omega arith;
        root = b.root;
      };
      length_eq = ap (λ g. g.len) b.leaf ∙ new_full-len num_pages capacity;
      all_bits =
          λ i lt. ap (λ g. bit_at g i) b.leaf ∙ new_full-bits num_pages capacity i (omega arith);
    }
