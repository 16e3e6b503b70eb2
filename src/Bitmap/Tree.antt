-- ===== src/Bitmap/Tree.antt =====
-- What holds of the levels of a `BtreeBitmap` of src/tree_store/page_store/bitmap.rs, the root first.
use redbx.Prelude.{
  ℕ, zero, suc, ◌+◌, ◌*◌, ◌/◌, ◌%◌, ◌<◌, ◌≤◌, ◌≡◌, ◌≢◌, refl, ap, subst, List, [], ◌∷◌, arith,
  length, get_elem?, set, some,
}
use redbx.Prelude.Bits.{bit}
use redbx.Prelude.Word.{u32_size, u64_size}
use redbx.Bitmap.Word.{u64_max, all_set, bit-ones_max}
use redbx.Bitmap.Group.{U64GroupedBitmap}
use redbx.Bitmap.Group.Reads.{word_at, bit_at, IsCovered}

abbrev pub empty_level : U64GroupedBitmap
empty_level = record { len = 0; words = [] }

-- A level, the root's at 0; an empty one past the end.
unfoldable pub level_at : List U64GroupedBitmap → ℕ → U64GroupedBitmap
level_at [] j = empty_level
level_at (x ∷ xs) zero = x
level_at (x ∷ xs) (suc j) = level_at xs j

-- A level on its own: it covers its length, its words are 64 bits, and the bits past the length are set.
pub record IsLevel (g : U64GroupedBitmap) : Type 0 where
  pub covered : IsCovered g
  pub words : (i : ℕ) → word_at g.words i < u64_size
  pub padded : (i : ℕ) → g.len ≤ i → i < 64 * length g.words → bit_at g i ≡ 1
  pub small : g.len + 128 ≤ u32_size

-- Bit `i` of the parent says that word `i` of the child is all set.
pub record IsSummaryAt (parent child : U64GroupedBitmap) (i : ℕ) : Type 0 where
  pub full : bit_at parent i ≡ 1 → word_at child.words i ≡ u64_max
  pub vacant : bit_at parent i ≡ 0 → word_at child.words i ≢ u64_max

pub record IsSummary (parent child : U64GroupedBitmap) : Type 0 where
  pub len : parent.len ≡ (child.len + 63) / 64
  pub bits : (i : ℕ) → i < parent.len → IsSummaryAt parent child i

pub record IsTree (levels : List U64GroupedBitmap) : Type 0 where
  pub level : (j : ℕ) → j < length levels → IsLevel (level_at levels j)
  pub summary :
      (j : ℕ) → suc j < length levels → IsSummary (level_at levels j) (level_at levels (suc j))

pub get_elem?-level_at :
    (levels : List U64GroupedBitmap) (j : ℕ)
    → j < length levels
    → get_elem? levels j ≡ some (level_at levels j)
unfolding level_at
get_elem?-level_at [] j h = absurd (omega arith)
get_elem?-level_at (x ∷ xs) zero h = refl
get_elem?-level_at (x ∷ xs) (suc j) h = get_elem?-level_at xs j (omega arith)

pub level_at-set :
    (levels : List U64GroupedBitmap) (j : ℕ) (g : U64GroupedBitmap)
    → j < length levels
    → level_at (set levels j g) j ≡ g
unfolding level_at
level_at-set [] j g h = absurd (omega arith)
level_at-set (x ∷ xs) zero g h = refl
level_at-set (x ∷ xs) (suc j) g h = level_at-set xs j g (omega arith)

pub level_at-set_other :
    (levels : List U64GroupedBitmap) (j k : ℕ) (g : U64GroupedBitmap)
    → j ≢ k
    → level_at (set levels j g) k ≡ level_at levels k
unfolding level_at
level_at-set_other [] j k g ne = refl
level_at-set_other (x ∷ xs) zero zero g ne = absurd (ne refl)
level_at-set_other (x ∷ xs) zero (suc k) g ne = refl
level_at-set_other (x ∷ xs) (suc j) zero g ne = refl
level_at-set_other (x ∷ xs) (suc j) (suc k) g ne = level_at-set_other xs j k g (λ e. ne (ap suc e))

-- The levels below a level are a tree too.
pub IsTree-tail :
    (root : U64GroupedBitmap) (levels : List U64GroupedBitmap)
    → IsTree (root ∷ levels)
    → IsTree levels
unfolding level_at
IsTree-tail root levels t = record {
  level = λ j h. t.level (suc j) (omega arith);
  summary = λ j h. t.summary (suc j) (omega arith);
}

-- A full word has all its bits set, and a word that has them all is full.
pub word_full :
    (g : U64GroupedBitmap) (e i : ℕ) → word_at g.words e ≡ u64_max → i / 64 ≡ e → bit_at g i ≡ 1
unfolding bit_at
word_full g e i full same = rw (same, full) (bit-ones_max 64 (i % 64) (omega arith))

pub full_word :
    (g : U64GroupedBitmap) (e : ℕ)
    → word_at g.words e < u64_size
    → ((i : ℕ) → 64 * e ≤ i → i < 64 * e + 64 → bit_at g i ≡ 1)
    → word_at g.words e ≡ u64_max
unfolding bit_at
full_word g e h set_bits = all_set 64 (word_at g.words e) h (λ i lt.
    let word : (64 * e + i) / 64 ≡ e = omega arith in
    let index : (64 * e + i) % 64 ≡ i = omega arith in
    subst (λ z. bit (word_at g.words z) i ≡ 1) word
      (subst (λ z. bit (word_at g.words ((64 * e + i) / 64)) z ≡ 1) index
        (set_bits (64 * e + i) (omega arith) (omega arith))))
