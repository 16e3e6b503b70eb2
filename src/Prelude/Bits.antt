-- ===== src/Prelude/Bits.antt =====
-- The laws of `&` and `|` that the code relies on, for numbers of any width.
use Prim.Native.Nat.{
  ℕ, zero, suc, ◌+◌, ◌-◌, ◌*◌, ◌/◌, ◌%◌, ◌^◌, ◌≤◌, ◌<◌, min, max, bit_and, bit_or, digits, bitwise,
  bit_and-bitwise, bit_or-bitwise,
}
use mathlib.Core.Path.{◌≡◌, refl, ap, ◌∙◌, subst}
use mathlib.Core.Logic.{◌≢◌}
use native.Mathlib.Nat.{le_refl, pow-suc, div-add-mod', mod-lt, add-mul-mod_self_left, mod-eq_of_lt}
use native.Mathlib.Omega.{arith}

-- The library defines the operations digit by digit, on fuel: the fuel makes no difference.
module _ (left : ℕ → ℕ) (op : ℕ → ℕ → ℕ) where
  fuel_irrelevant : (j k x y : ℕ) → x ≤ j → x ≤ k → digits left op j x y ≡ digits left op k x y
  fuel_irrelevant zero zero x y p q = refl
  fuel_irrelevant (suc j) zero zero y p q = refl
  fuel_irrelevant zero (suc k) zero y p q = refl
  fuel_irrelevant (suc j) (suc k) zero y p q = refl
  fuel_irrelevant zero k (suc x) y p q = absurd (omega arith)
  fuel_irrelevant (suc j) zero (suc x) y p q = absurd (omega arith)
  fuel_irrelevant (suc j) (suc k) (suc x) y p q =
      rw (fuel_irrelevant j k (suc x / 2) (y / 2) (omega arith) (omega arith))

  lowest_digit :
      (x y : ℕ)
      → bitwise left op (suc x) y ≡ bitwise left op (suc x / 2) (y / 2) * 2 + op (suc x % 2) (y % 2)
  lowest_digit x y =
      omega (arith, fuel_irrelevant x (suc x / 2) (suc x / 2) (y / 2) (omega arith) (le_refl _))

pub or_digit : (x y : ℕ) → bit_or x y ≡ bit_or (x / 2) (y / 2) * 2 + max (x % 2) (y % 2)
or_digit zero y = simp bit_or-bitwise (omega arith)
or_digit (suc x) y = simp bit_or-bitwise (lowest_digit (λ d. d) max x y)

pub and_digit : (x y : ℕ) → bit_and x y ≡ bit_and (x / 2) (y / 2) * 2 + min (x % 2) (y % 2)
and_digit zero y = simp bit_and-bitwise (omega arith)
and_digit (suc x) y = simp bit_and-bitwise (lowest_digit (λ d. 0) min x y)

-- Bit `i` of `x`, counted from the lowest.
abbrev pub bit : ℕ → ℕ → ℕ
bit x zero = x % 2
bit x (suc i) = bit (x / 2) i

pub bit-or : (x y i : ℕ) → bit (bit_or x y) i ≡ max (bit x i) (bit y i)
bit-or x y zero = omega (arith, or_digit x y)
bit-or x y (suc i) = ap (λ z. bit z i) (omega (arith, or_digit x y)) ∙ bit-or (x / 2) (y / 2) i

pub bit-and : (x y i : ℕ) → bit (bit_and x y) i ≡ min (bit x i) (bit y i)
bit-and x y zero = omega (arith, and_digit x y)
bit-and x y (suc i) = ap (λ z. bit z i) (omega (arith, and_digit x y)) ∙ bit-and (x / 2) (y / 2) i

pub bit-le-one : (x i : ℕ) → bit x i ≤ 1
bit-le-one x zero = omega arith
bit-le-one x (suc i) = bit-le-one (x / 2) i

pub bit-zero : (i : ℕ) → bit 0 i ≡ 0
bit-zero zero = refl
bit-zero (suc i) = bit-zero i

pub half_pow : (k : ℕ) → 2 ^ suc k / 2 ≡ 2 ^ k
half_pow k = rw pow-suc (omega arith)

pub bit-pow_self : (k : ℕ) → bit (2 ^ k) k ≡ 1
bit-pow_self zero = refl
bit-pow_self (suc k) = rw half_pow (bit-pow_self k)

pub bit-pow_ne : (k i : ℕ) → k ≢ i → bit (2 ^ k) i ≡ 0
bit-pow_ne zero zero ne = absurd (ne refl)
bit-pow_ne zero (suc i) ne = bit-zero i
bit-pow_ne (suc k) zero ne = rw pow-suc (omega arith)
bit-pow_ne (suc k) (suc i) ne = rw half_pow (bit-pow_ne k i (λ e. ne (ap suc e)))

pub pow_pos : (k : ℕ) → 0 < 2 ^ k
pow_pos zero = omega arith
pow_pos (suc k) = rw pow-suc (omega (arith, pow_pos k))

zero_or : (y : ℕ) → bit_or 0 y ≡ y
zero_or y = simp bit_or-bitwise

pub zero_and : (y : ℕ) → bit_and 0 y ≡ 0
zero_and y = simp bit_and-bitwise

-- `|` of numbers without a common bit is their sum.
pub or_disjoint : (k a b : ℕ) → a < 2 ^ k → bit_or a (b * 2 ^ k) ≡ a + b * 2 ^ k
or_disjoint zero a b h =
    let none_left : a ≡ 0 = omega arith in rw none_left (zero_or (b * 1) ∙ omega arith)
or_disjoint (suc k) a b h =
    let p = 2 ^ k in
    let double : 2 ^ suc k ≡ p * 2 = pow-suc 2 k in
    let half : b * (p * 2) / 2 ≡ b * p = omega arith in
    let digit : bit_or a (b * (p * 2))
        ≡ bit_or (a / 2) (b * p) * 2 + max (a % 2) (b * (p * 2) % 2) =
      subst (λ z. bit_or a (b * (p * 2)) ≡ bit_or (a / 2) z * 2 + max (a % 2) (b * (p * 2) % 2))
        half (or_digit a (b * (p * 2))) in
    let small : a / 2 < p = omega arith in
    rw double (omega (arith, digit, or_disjoint k (a / 2) b small))

-- `&` with `k` ones keeps the lowest `k` bits.
mod_double : (p a : ℕ) → 0 < p → a % (p * 2) ≡ a / 2 % p * 2 + a % 2
mod_double p a pos =
    let split = div-add-mod' (a / 2) p in
    let small = mod-lt (a / 2) {m = p} pos in
    let rest = a / 2 % p * 2 + a % 2 in
    let whole : a ≡ rest + p * 2 * (a / 2 / p) = omega arith in
    ap (λ z. z % (p * 2)) whole
    ∙ add-mul-mod_self_left rest (p * 2) (a / 2 / p)
    ∙ mod-eq_of_lt (omega arith)

pub and_ones : (k a : ℕ) → bit_and (2 ^ k - 1) a ≡ a % 2 ^ k
and_ones zero a = zero_and a ∙ omega arith
and_ones (suc k) a =
    let p = 2 ^ k in
    let pos : 0 < p = pow_pos k in
    let double : 2 ^ suc k ≡ p * 2 = pow-suc 2 k in
    let half : (p * 2 - 1) / 2 ≡ p - 1 = omega arith in
    let digit =
      subst (λ z. bit_and (p * 2 - 1) a ≡ bit_and z (a / 2) * 2 + min ((p * 2 - 1) % 2) (a % 2))
        half (and_digit (p * 2 - 1) a) in
    rw double (omega (arith, digit, and_ones k (a / 2), mod_double p a pos))

-- The same with the ones on the right.
pub and_zero : (a k : ℕ) → a ≤ k → bit_and a 0 ≡ 0
and_zero zero k h = zero_and 0
and_zero (suc a) zero h = absurd (omega arith)
and_zero (suc a) (suc k) h =
    omega (arith, and_digit (suc a) 0, and_zero (suc a / 2) k (omega arith))

pub and_ones_right : (k a : ℕ) → bit_and a (2 ^ k - 1) ≡ a % 2 ^ k
and_ones_right zero a = and_zero a a (omega arith) ∙ omega arith
and_ones_right (suc k) a =
    let p = 2 ^ k in
    let pos : 0 < p = pow_pos k in
    let double : 2 ^ suc k ≡ p * 2 = pow-suc 2 k in
    let half : (p * 2 - 1) / 2 ≡ p - 1 = omega arith in
    let digit =
      subst (λ z. bit_and a (p * 2 - 1) ≡ bit_and (a / 2) z * 2 + min (a % 2) ((p * 2 - 1) % 2))
        half (and_digit a (p * 2 - 1)) in
    rw double (omega (arith, digit, and_ones_right k (a / 2), mod_double p a pos))
