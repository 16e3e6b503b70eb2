-- ===== src/Bitmap/Group/Reads.antt =====
-- What the bit reads, sets and clears of `U64GroupedBitmap` do to the bits of the whole group.
use Prim.Native.Nat.{bit_and, bit_or}
use redbx.Prelude.{
  ℕ, zero, suc, ◌+◌, ◌/◌, ◌%◌, ◌<◌, ◌≤◌, ◌≡◌, refl, true, false, not, some, List, [], ◌∷◌, ok,
  if◌then◌else◌, arith, ◌==◌, ◌≢◌, ltb, length, get_elem?, set, length-set, ap, sym, ◌∙◌, inl, inr,
  Bool-cases,
}
use redbx.Prelude.Bits.{bit}
use redbx.Bitmap.Word.{
  u64_max, select_mask, complement, bit-set, bit-clear, and-select_mask, or_lt, and_le,
}
use redbx.Prelude.Word.{u64_size}
use redbx.Bitmap.Group.{U64GroupedBitmap, get, set_bit, clear}

-- The word that holds an index, 0 past the end.
unfoldable pub word_at : List ℕ → ℕ → ℕ
word_at [] i = 0
word_at (x ∷ xs) zero = x
word_at (x ∷ xs) (suc i) = word_at xs i

-- Bit `i` of the group.
unfoldable pub bit_at : U64GroupedBitmap → ℕ → ℕ
bit_at g i = bit (word_at g.words (i / 64)) (i % 64)

pub get_elem?-word_at : (xs : List ℕ) (i : ℕ) → i < length xs → get_elem? xs i ≡ some (word_at xs i)
unfolding word_at
get_elem?-word_at [] i h = absurd (omega arith)
get_elem?-word_at (x ∷ xs) zero h = refl
get_elem?-word_at (x ∷ xs) (suc i) h = get_elem?-word_at xs i (omega arith)

pub word_at-set :
    (xs : List ℕ) (i j y : ℕ)
    → i < length xs
    → word_at (set xs i y) j ≡ (if i == j then y else word_at xs j)
unfolding word_at
word_at-set [] i j y h = absurd (omega arith)
word_at-set (x ∷ xs) zero zero y h = ground arith
word_at-set (x ∷ xs) zero (suc j) y h = ground arith
word_at-set (x ∷ xs) (suc i) zero y h = ground arith
word_at-set (x ∷ xs) (suc i) (suc j) y h = word_at-set xs i j y (omega arith) ∙ ground arith

-- The words hold every bit below the length.
unfoldable pub IsCovered : U64GroupedBitmap → Type 0
IsCovered g = (g.len + 63) / 64 ≤ length g.words

abbrev pub with_word : U64GroupedBitmap → ℕ → ℕ → U64GroupedBitmap
with_word g i y = record g { words = set g.words i y }

pub with_word-IsCovered :
    (g : U64GroupedBitmap) (i y : ℕ) → IsCovered g → IsCovered (with_word g i y)
unfolding IsCovered
with_word-IsCovered g i y h = rw (length-set g.words i y) h

word_read : (g : U64GroupedBitmap) (b : ℕ) → IsCovered g → b < g.len → b / 64 < length g.words
unfolding IsCovered
word_read g b h lt = omega arith

split_index : (b i : ℕ) → (b / 64 == i / 64) ≡ true → (b % 64 == i % 64) ≡ (b == i)
split_index b i e = ground arith

other_index : (b i : ℕ) → (b / 64 == i / 64) ≡ false → (b == i) ≡ false
other_index b i e = ground arith

-- A change of bit `b` of its word is a change of bit `b` of the group.
pub bit_at-with_word :
    (g : U64GroupedBitmap) (b i v y : ℕ)
    → b / 64 < length g.words
    → ((k : ℕ) → k < 64 → bit y k ≡ (if b % 64 == k then v else bit (word_at g.words (b / 64)) k))
    → bit_at (with_word g (b / 64) y) i ≡ (if b == i then v else bit_at g i)
unfolding bit_at
bit_at-with_word g b i v y h bits =
    rw (word_at-set g.words (b / 64) (i / 64) y h) (elim (Bool-cases (b / 64 == i / 64)) [
      | inl same ↦
          let e : b / 64 ≡ i / 64 = ground arith in
          rw same (bits (i % 64) (omega arith) ∙ rw (split_index b i same, e) refl)
      | inr other ↦ rw (other, other_index b i other) refl
    ])

-- Every bit within the length can be read, and the read is of that bit.
pub get_lem :
    (g : U64GroupedBitmap) (b : ℕ) → IsCovered g → b < g.len → get g b ≡ ok (not (bit_at g b == 0))
unfolding get bit_at
get_lem g b h lt =
    let inside : ltb b g.len ≡ true = ground arith in
    rw (inside, get_elem?-word_at g.words (b / 64) (word_read g b h lt))
      (ap (λ z. ok (not z)) (and-select_mask (word_at g.words (b / 64)) (b % 64) (omega arith)))

-- What a successful change of bit `b` to `v` does.
pub record IsChange (g : U64GroupedBitmap) (b v : ℕ) (g' : U64GroupedBitmap) : Type 0 where
  pub bits : (i : ℕ) → bit_at g' i ≡ (if b == i then v else bit_at g i)
  pub others : (j : ℕ) → j ≢ b / 64 → word_at g'.words j ≡ word_at g.words j
  pub len : g'.len ≡ g.len
  pub size : length g'.words ≡ length g.words
  pub small : word_at g.words (b / 64) < u64_size → word_at g'.words (b / 64) < u64_size
  pub covered : IsCovered g'

change :
    (g : U64GroupedBitmap) (b v y : ℕ)
    → IsCovered g
    → b < g.len
    → ((k : ℕ) → k < 64 → bit y k ≡ (if b % 64 == k then v else bit (word_at g.words (b / 64)) k))
    → (word_at g.words (b / 64) < u64_size → y < u64_size)
    → IsChange g b v (with_word g (b / 64) y)
change g b v y h lt bits small = record {
  bits = λ i. bit_at-with_word g b i v y (word_read g b h lt) bits;
  others = λ j ne.
      let apart : (b / 64 == j) ≡ false = ground arith in
      word_at-set g.words (b / 64) j y (word_read g b h lt) ∙ rw apart refl;
  len = refl;
  size = length-set g.words (b / 64) y;
  small = λ lt'.
      rw (word_at-set g.words (b / 64) (b / 64) y (word_read g b h lt)) (ground (arith, small lt'));
  covered = with_word-IsCovered g (b / 64) y h;
}

-- A set within the length returns, sets that bit and no other, and says whether the word is full.
pub set_bit_lem :
    (g : U64GroupedBitmap) (b : ℕ)
    → IsCovered g
    → b < g.len
    → (g' : U64GroupedBitmap) × (set_bit g b ≡ ok (g', word_at g'.words (b / 64) == u64_max))
      × IsChange g b 1 g'
unfolding set_bit
set_bit_lem g b h lt =
    let inside : ltb b g.len ≡ true = ground arith in
    let w = word_at g.words (b / 64) in
    let y = bit_or w (select_mask (b % 64)) in
    let read = get_elem?-word_at g.words (b / 64) (word_read g b h lt) in
    let stored : word_at (set g.words (b / 64) y) (b / 64) ≡ y =
      word_at-set g.words (b / 64) (b / 64) y (word_read g b h lt) ∙ ground arith in
    (
      with_word g (b / 64) y,
      rw (inside, read) (ap (λ z. ok (with_word g (b / 64) y, z == u64_max)) (sym stored)),
      change g b 1 y h lt (λ k hk. bit-set w (b % 64) k (omega arith))
          (λ lt'. or_lt 64 w (select_mask (b % 64)) lt' (omega arith)),
    )

-- A clear within the length returns, and clears that bit and no other.
pub clear_lem :
    (g : U64GroupedBitmap) (b : ℕ)
    → IsCovered g
    → b < g.len
    → (g' : U64GroupedBitmap) × (clear g b ≡ ok g') × IsChange g b 0 g'
unfolding clear
clear_lem g b h lt =
    let inside : ltb b g.len ≡ true = ground arith in
    let w = word_at g.words (b / 64) in
    let y = bit_and w (complement (select_mask (b % 64))) in
    let read = get_elem?-word_at g.words (b / 64) (word_read g b h lt) in
    (
      with_word g (b / 64) y,
      rw (inside, read) refl,
      change g b 0 y h lt (λ k hk. bit-clear w (b % 64) k (omega arith) hk)
          (λ lt'. omega (arith, and_le w (complement (select_mask (b % 64))) w (omega arith))),
    )
