-- ===== src/Bitmap/Group/FirstUnset.antt =====
-- What `first_unset` of `U64GroupedBitmap` finds in the 64-bit group of its start.
use Prim.Native.Nat.{bit_or}
use native.Mathlib.Nat.{pow-suc}
use redbx.Prelude.{
  ℕ, zero, suc, ◌+◌, ◌-◌, ◌/◌, ◌%◌, ◌^◌, ◌<◌, ◌≤◌, ◌≡◌, ◌≢◌, refl, ap, ◌∙◌, inl, inr, true, false,
  Bool-cases, Option, none, some, ok, if◌then◌else◌, arith, ltb, ◌==◌, length,
}
use redbx.Prelude.Bits.{bit, bit-or, bit-le-one, pow_pos}
use redbx.Prelude.Word.{u32_size, add32, sub32}
use redbx.Bitmap.Word.{select_mask, mask_exact, ones, ones-le, bit-ones, bit-ones_lt}
use redbx.Bitmap.Group.{U64GroupedBitmap, first_unset}
use redbx.Bitmap.Group.Reads.{word_at, bit_at, get_elem?-word_at}

-- The bits of a mask of the lowest `k` bits.
bit-low : (k i : ℕ) → bit (2 ^ k - 1) i ≡ (if ltb i k then 1 else 0)
bit-low zero zero = ground arith
bit-low zero (suc i) = bit-low zero i ∙ ground arith
bit-low (suc k) zero =
    let odd : (2 ^ suc k - 1) % 2 ≡ 1 = omega (arith, pow-suc 2 k, pow_pos k) in odd ∙ ground arith
bit-low (suc k) (suc i) =
    let half : (2 ^ suc k - 1) / 2 ≡ 2 ^ k - 1 = omega (arith, pow-suc 2 k, pow_pos k) in
    rw half (bit-low k i ∙ ground arith)

bit-masked :
    (w k i : ℕ) → k < 64 → bit (bit_or w (select_mask k - 1)) i ≡ (if ltb i k then 1 else bit w i)
bit-masked w k i h = rw (mask_exact k h, bit-or, bit-low k i) (ground (arith, bit-le-one w i))

-- The first bit of the start's group that is unset, from the start on; none if they are all set.
pub record IsFirst (g : U64GroupedBitmap) (start b : ℕ) : Type 0 where
  pub from : start ≤ b
  pub inside : b < start - start % 64 + 64
  pub unset : bit_at g b ≡ 0
  pub before : (i : ℕ) → start ≤ i → i < b → bit_at g i ≡ 1

pub data Found (g : U64GroupedBitmap) (start : ℕ) : Option ℕ → Type 0 where
  all : ((i : ℕ) → start ≤ i → i < start - start % 64 + 64 → bit_at g i ≡ 1) → Found g start none
  first : (b : ℕ) → IsFirst g start b → Found g start (some b)

module _ (g : U64GroupedBitmap) (start : ℕ) where
  masked : ℕ
  masked = bit_or (word_at g.words (start / 64)) (select_mask (start % 64) - 1)

  -- A bit of the group from the start on is not masked.
  bit-unmasked :
      (i : ℕ) → start ≤ i → i < start - start % 64 + 64 → bit_at g i ≡ bit masked (i % 64)
  unfolding bit_at masked
  bit-unmasked i from inside =
      let same : i / 64 ≡ start / 64 = omega arith in
      rw (same, bit-masked (word_at g.words (start / 64)) (start % 64) (i % 64) (omega arith))
        (ground arith)

  bit-masked_low : (i : ℕ) → i < start % 64 → bit masked i ≡ 1
  unfolding masked
  bit-masked_low i h =
      bit-masked (word_at g.words (start / 64)) (start % 64) i (omega arith) ∙ ground arith

  masked_from : bit masked (ones 64 masked) ≡ 0 → start % 64 ≤ ones 64 masked
  masked_from zero_bit = elim (Bool-cases (ltb (ones 64 masked) (start % 64))) [
    | inl lower ↦ omega (arith, bit-masked_low (ones 64 masked) (ground arith))
    | inr other ↦ ground arith
  ]

  found :
      Found g start
        (if ones 64 masked == 64 then none else some (start - start % 64 + ones 64 masked))
  found = elim (Bool-cases (ones 64 masked == 64)) [
    | inl full ↦ rw full (
        Found.all (λ i from inside.
          bit-unmasked i from inside ∙ bit-ones_lt 64 masked (i % 64) (ground arith)))
    | inr other ↦
        let lt : ones 64 masked < 64 = ground (arith, ones-le 64 masked) in
        let zero_bit = bit-ones 64 masked lt in
        let low = masked_from zero_bit in
        rw other (
          Found.first (start - start % 64 + ones 64 masked) (record {
            from = omega arith;
            inside = omega arith;
            unset =
                bit-unmasked (start - start % 64 + ones 64 masked) (omega arith) (omega arith)
                ∙ ap (bit masked) {x = (start - start % 64 + ones 64 masked) % 64}
                    {y = ones 64 masked} (omega arith)
                ∙ zero_bit;
            before = λ i from lt'.
                bit-unmasked i from (omega arith) ∙ bit-ones_lt 64 masked (i % 64) (omega arith);
          }))
  ]

-- Where its group is stored, the search of a group that is not empty returns, with the first bit.
pub first_unset_lem :
    (g : U64GroupedBitmap) (start : ℕ)
    → g.len ≢ 0
    → start / 64 < length g.words
    → start + 64 < u32_size
    → (r : Option ℕ) × (first_unset g start (start - start % 64 + 64) ≡ ok r) × Found g start r
unfolding first_unset masked
first_unset_lem g start some_len stored h =
    let ends : (start - start % 64 + 64 == add32 (sub32 start (start % 64)) 64) ≡ true =
      ground arith in
    let len : (g.len == 0) ≡ false = ground arith in
    let e : sub32 (add32 start (ones 64 (masked g start))) (start % 64)
        ≡ start - start % 64 + ones 64 (masked g start) =
      omega (arith, ones-le 64 (masked g start)) in
    (_, rw (ends, len, get_elem?-word_at g.words (start / 64) stored, e) refl, found g start)
