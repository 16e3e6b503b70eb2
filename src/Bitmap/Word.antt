-- ===== src/Bitmap/Word.antt =====
-- The operations of a `u64` that the bitmap uses, and what they do to its bits.
use Prim.Native.Nat.{bit_and, bit_or}
use native.Mathlib.Nat.{pow-suc, mod-eq_of_lt}
use redbx.Prelude.{
  ℕ, zero, suc, ◌+◌, ◌-◌, ◌*◌, ◌/◌, ◌%◌, ◌^◌, ◌<◌, ◌≤◌, ◌≡◌, ap, ◌∙◌, arith, ◌==◌, if◌then◌else◌,
  subst, min, inl, inr, Bool-cases,
}
use redbx.Prelude.Word.{u64_size}
use redbx.Prelude.Bits.{
  bit, bit-or, bit-and, bit-le-one, bit-pow_self, bit-pow_ne, or_digit, and_digit, pow_pos,
  and_zero, zero_and, half_pow,
}

-- `u64::MAX`
abbrev pub u64_max : ℕ
u64_max = u64_size - 1

-- `count_zeros` of the lowest `width` bits.
unfoldable pub zeros : ℕ → ℕ → ℕ
zeros zero x = 0
zeros (suc width) x = (1 - x % 2) + zeros width (x / 2)

-- `trailing_ones` of the lowest `width` bits.
unfoldable pub ones : ℕ → ℕ → ℕ
ones zero x = 0
ones (suc width) x = if x % 2 == 1 then suc (ones width (x / 2)) else 0

-- `1u64 << bit`
abbrev pub select_mask : ℕ → ℕ
select_mask b = 2 ^ b % u64_size

-- `!x`
abbrev pub complement : ℕ → ℕ
complement x = u64_max - x

-- The trailing ones are all set, and the bit after them is not.
pub bit-ones_lt : (w x i : ℕ) → i < ones w x → bit x i ≡ 1
unfolding ones
bit-ones_lt zero x i h = absurd (omega arith)
bit-ones_lt (suc w) x zero h = ground arith
bit-ones_lt (suc w) x (suc i) h = bit-ones_lt w (x / 2) i (ground arith)

pub bit-ones : (w x : ℕ) → ones w x < w → bit x (ones w x) ≡ 0
unfolding ones
bit-ones zero x h = absurd (omega arith)
bit-ones (suc w) x h = ground (arith, bit-ones w (x / 2))

pub ones-le : (w x : ℕ) → ones w x ≤ w
unfolding ones
ones-le zero x = omega arith
ones-le (suc w) x = ground (arith, ones-le w (x / 2))

-- No zero among the lowest bits: every one of them is set.
pub bit-zeros : (w x i : ℕ) → zeros w x ≡ 0 → i < w → bit x i ≡ 1
unfolding zeros
bit-zeros zero x i e h = absurd (omega arith)
bit-zeros (suc w) x zero e h = omega arith
bit-zeros (suc w) x (suc i) e h = bit-zeros w (x / 2) i (omega arith) (omega arith)

-- A number below 2^w with all its bits set is the greatest.
pub all_set : (w x : ℕ) → x < 2 ^ w → ((i : ℕ) → i < w → bit x i ≡ 1) → x ≡ 2 ^ w - 1
all_set zero x h set = omega arith
all_set (suc w) x h set =
    let p = 2 ^ w in
    let double : 2 ^ suc w ≡ p * 2 = pow-suc 2 w in
    let rest : x / 2 ≡ p - 1 =
      all_set w (x / 2) (omega arith) (λ i lt. set (suc i) (omega arith)) in
    omega (arith, set 0 (omega arith), pow_pos w)

pub bit-ones_max : (w i : ℕ) → i < w → bit (2 ^ w - 1) i ≡ 1
bit-ones_max zero i h = absurd (omega arith)
bit-ones_max (suc w) zero h = omega (arith, pow-suc 2 w, pow_pos w)
bit-ones_max (suc w) (suc i) h =
    let half : (2 ^ suc w - 1) / 2 ≡ 2 ^ w - 1 = omega (arith, pow-suc 2 w, pow_pos w) in
    rw half (bit-ones_max w i (omega arith))

pow_lt : (k w : ℕ) → k < w → 2 ^ k < 2 ^ w
pow_lt k zero h = absurd (omega arith)
pow_lt zero (suc w) h = omega (arith, pow-suc 2 w, pow_pos w)
pow_lt (suc k) (suc w) h = omega (arith, pow-suc 2 w, pow-suc 2 k, pow_lt k w (omega arith))

-- The bits of `!(1 << k)`.
bit-complement : (w k i : ℕ) → k < w → i < w → bit (2 ^ w - 1 - 2 ^ k) i ≡ (if k == i then 0 else 1)
bit-complement zero k i hk hi = absurd (omega arith)
bit-complement (suc w) zero zero hk hi = omega (arith, pow-suc 2 w, pow_pos w)
bit-complement (suc w) zero (suc i) hk hi =
    let half : (2 ^ suc w - 1 - 1) / 2 ≡ 2 ^ w - 1 = omega (arith, pow-suc 2 w, pow_pos w) in
    rw half (bit-ones_max w i (omega arith) ∙ ground arith)
bit-complement (suc w) (suc k) zero hk hi =
    let odd : (2 ^ suc w - 1 - 2 ^ suc k) % 2 ≡ 1 =
      omega (arith, pow-suc 2 w, pow-suc 2 k, pow_lt k w (omega arith)) in
    odd ∙ ground arith
bit-complement (suc w) (suc k) (suc i) hk hi =
    let half : (2 ^ suc w - 1 - 2 ^ suc k) / 2 ≡ 2 ^ w - 1 - 2 ^ k =
      omega (arith, pow-suc 2 w, pow-suc 2 k, pow_lt k w (omega arith)) in
    rw half (bit-complement w k i (omega arith) (omega arith) ∙ ground arith)

pub mask_exact : (k : ℕ) → k < 64 → select_mask k ≡ 2 ^ k
mask_exact k h = mod-eq_of_lt (pow_lt k 64 h)

-- `x |= 1 << k` sets bit `k` and no other.
pub bit-set :
    (x k i : ℕ) → k < 64 → bit (bit_or x (select_mask k)) i ≡ (if k == i then 1 else bit x i)
bit-set x k i h =
    rw (mask_exact k h, bit-or)
      (elim (Bool-cases (k == i)) [
        | inl same ↦
            let e : k ≡ i = ground arith in
            rw same (omega (arith, ap (bit (2 ^ k)) e, bit-pow_self k, bit-le-one x i))
        | inr other ↦ rw other (omega (arith, bit-pow_ne k i (λ e. ground arith)))
      ])

-- `x &= !(1 << k)` clears bit `k` and no other.
pub bit-clear :
    (x k i : ℕ)
    → k < 64
    → i < 64
    → bit (bit_and x (complement (select_mask k))) i ≡ (if k == i then 0 else bit x i)
bit-clear x k i h hi =
    rw (mask_exact k h, bit-and) (ground (arith, bit-complement 64 k i h hi, bit-le-one x i))

and_pow : (x k : ℕ) → bit_and x (2 ^ k) ≡ bit x k * 2 ^ k
and_pow x zero = omega (arith, and_digit x 1, and_zero (x / 2) (x / 2) (omega arith))
and_pow x (suc k) =
    let double = pow-suc 2 k in
    let digit =
      subst (λ z. bit_and x (2 ^ suc k) ≡ bit_and (x / 2) z * 2 + min (x % 2) (2 ^ suc k % 2))
        (half_pow k) (and_digit x (2 ^ suc k)) in
    omega (arith, digit, and_pow (x / 2) k, ap (λ z. bit (x / 2) k * z) double)

-- `x & (1 << k) != 0` reads bit `k`.
pub and-select_mask : (x k : ℕ) → k < 64 → (bit_and x (select_mask k) == 0) ≡ (bit x k == 0)
and-select_mask x k h = rw (mask_exact k h, and_pow) (ground (arith, bit-le-one x k, pow_pos k))

-- Words stay words.
pub or_lt : (w x y : ℕ) → x < 2 ^ w → y < 2 ^ w → bit_or x y < 2 ^ w
or_lt zero x y hx hy =
    let ex : x ≡ 0 = omega arith in let ey : y ≡ 0 = omega arith in rw (ex, ey) (omega arith)
or_lt (suc w) x y hx hy = omega (
  arith,
  or_digit x y,
  or_lt w (x / 2) (y / 2) (omega (arith, pow-suc 2 w)) (omega (arith, pow-suc 2 w)),
  pow-suc 2 w,
)

pub and_le : (x y w : ℕ) → x ≤ w → bit_and x y ≤ x
and_le x y zero h = let e : x ≡ 0 = omega arith in rw (e, zero_and y) (omega arith)
and_le x y (suc w) h = omega (arith, and_digit x y, and_le (x / 2) (y / 2) w (omega arith))
