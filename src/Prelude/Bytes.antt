-- ===== src/Prelude/Bytes.antt =====
-- Little-endian numbers and slices of byte arrays.
use Prim.Native.Nat.{ℕ, zero, suc, ◌+◌, ◌*◌, ◌/◌, ◌%◌, ◌^◌, ◌<◌}
use mathlib.Core.Path.{◌≡◌, refl, ap}
use mathlib.Core.List.{List, [], ◌∷◌, ◌++◌}
use native.Mathlib.Nat.{pow-suc}
use native.Mathlib.Omega.{arith}
use redbx.Prelude.Lists.{length}
use redbx.Prelude.Panics.{Outcome, ok, panic, ◌>>=◌}

-- `n.to_le_bytes()` of a number of `width` bytes.
unfoldable pub to_le : ℕ → ℕ → List ℕ
to_le zero n = []
to_le (suc width) n = n % 256 ∷ to_le width (n / 256)

-- `from_le_bytes`
unfoldable pub from_le : List ℕ → ℕ
from_le [] = 0
from_le (b ∷ bs) = b + 256 * from_le bs

-- The first `n` bytes; a panic if there are fewer.
unfoldable pub take_bytes : ℕ → List ℕ → Outcome (List ℕ)
take_bytes zero bs = ok []
take_bytes (suc n) [] = panic
take_bytes (suc n) (b ∷ bs) = do rest ← take_bytes n bs; ok (b ∷ rest)

-- `data[start..]`
unfoldable pub skip_bytes : ℕ → List ℕ → Outcome (List ℕ)
skip_bytes zero bs = ok bs
skip_bytes (suc n) [] = panic
skip_bytes (suc n) (b ∷ bs) = skip_bytes n bs

-- `data[start..(start + n)]`
unfoldable pub slice : ℕ → ℕ → List ℕ → Outcome (List ℕ)
slice start n bs = do rest ← skip_bytes start bs; take_bytes n rest

-- `copy_from_slice` on the bytes from the start: a panic if they are too few.
unfoldable pub overwrite : List ℕ → List ℕ → Outcome (List ℕ)
overwrite [] bs = ok bs
overwrite (x ∷ xs) [] = panic
overwrite (x ∷ xs) (b ∷ bs) = do rest ← overwrite xs bs; ok (x ∷ rest)

-- `result[start..(start + xs.len())].copy_from_slice(xs)`
unfoldable pub write : ℕ → List ℕ → List ℕ → Outcome (List ℕ)
write zero xs bs = overwrite xs bs
write (suc n) xs [] = panic
write (suc n) xs (b ∷ bs) = do rest ← write n xs bs; ok (b ∷ rest)

pub length-to_le : (width n : ℕ) → length (to_le width n) ≡ width
unfolding to_le
length-to_le zero n = refl
length-to_le (suc width) n = ap suc (length-to_le width (n / 256))

-- A number that fits its bytes comes back.
pub from_le-to_le : (width n : ℕ) → n < 256 ^ width → from_le (to_le width n) ≡ n
unfolding from_le to_le
from_le-to_le zero n h = omega arith
from_le-to_le (suc width) n h =
    let pow = pow-suc 256 width in omega (arith, from_le-to_le width (n / 256) (omega arith))

pub take_bytes-append : (xs ys : List ℕ) → take_bytes (length xs) (xs ++ ys) ≡ ok xs
unfolding take_bytes
take_bytes-append [] ys = refl
take_bytes-append (x ∷ xs) ys = rw (take_bytes-append xs ys)

pub skip_bytes-append : (xs ys : List ℕ) → skip_bytes (length xs) (xs ++ ys) ≡ ok ys
unfolding skip_bytes
skip_bytes-append [] ys = refl
skip_bytes-append (x ∷ xs) ys = skip_bytes-append xs ys
