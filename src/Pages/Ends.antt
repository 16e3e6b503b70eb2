-- ===== src/Pages/Ends.antt =====
-- The columns of a page of src/tree_store/btree_base.rs: where an entry of a column stands and ends.
use redbx.Prelude.{
  ℕ, zero, suc, ◌+◌, ◌*◌, ◌^◌, ◌≤◌, ◌<◌, ◌≡◌, refl, ap, List, [], ◌∷◌, Option, none, some, arith,
  length, get_elem?, length-append, subst,
}
use native.Mathlib.Nat.{add_assoc}
use redbx.Prelude.Bytes.{to_le, length-to_le, from_le-to_le}
use redbx.Prelude.Memory.{At, slice-At, At-left, At-right, At-move}
use redbx.Pages.Column.{get_u32, pointers, flat, ends, offsets, column, Fits, upto}

-- A stored end offset is read back.
pub get_u32-At :
    {page : List ℕ} {start : ℕ} {n : ℕ}
    → At page start (to_le 4 n)
    → n < 2 ^ 32
    → get_u32 start page ≡ some n
unfolding get_u32
get_u32-At {n = n} at h =
    rw (slice-At at (length-to_le 4 n)) (ap some (from_le-to_le 4 n (omega arith)))

pub length-ends : (start : ℕ) (xs : List (List ℕ)) → length (ends start xs) ≡ length xs
length-ends start [] = refl
length-ends start (x ∷ xs) = ap suc (length-ends (start + length x) xs)

pub length-offsets : (es : List ℕ) → length (offsets es) ≡ 4 * length es
length-offsets [] = refl
length-offsets (e ∷ es) =
    omega (arith, length-append (to_le 4 e) (offsets es), length-to_le 4 e, length-offsets es)

pub length-column :
    (fixed : Option ℕ) (start : ℕ) (xs : List (List ℕ))
    → length (column fixed start xs) ≡ pointers fixed (length xs)
length-column none start xs = omega (arith, length-offsets (ends start xs), length-ends start xs)
length-column (some fixed) start xs = refl

-- Each end offset of a column, at its place.
pub At-offsets :
    {page : List ℕ} (at start : ℕ) (xs : List (List ℕ)) (i : ℕ)
    → At page at (offsets (ends start xs))
    → i < length xs
    → At page (at + 4 * i) (to_le 4 (start + upto (suc i) xs))
At-offsets at start [] i stored h = elim h [ ]
At-offsets {page} at start (x ∷ xs) zero stored h =
    let here = At-left (to_le 4 (start + length x)) (offsets (ends (start + length x) xs)) stored in
    let e : start + length x ≡ start + (length x + 0) = omega arith in
    At-move (omega arith) (subst (λ n. At page at (to_le 4 n)) e here)
At-offsets {page} at start (x ∷ xs) (suc i) stored h =
    let first = to_le 4 (start + length x) in
    let later = At-right first (offsets (ends (start + length x) xs)) stored in
    let found = At-offsets (at + length first) (start + length x) xs i later (omega arith) in
    let e : start + length x + upto (suc i) xs ≡ start + (length x + upto (suc i) xs) =
      add_assoc start (length x) (upto (suc i) xs) in
    At-move (omega (arith, length-to_le 4 (start + length x)))
      (subst (λ n. At page (at + length first + 4 * i) (to_le 4 n)) e found)

-- An entry stands after those before it.
pub At-flat :
    {page : List ℕ} (at : ℕ) (xs : List (List ℕ)) (i : ℕ) {x : List ℕ}
    → At page at (flat xs)
    → get_elem? xs i ≡ some x
    → At page (at + upto i xs) x
At-flat at [] i stored e = cc
At-flat {page} at (y ∷ xs) zero {x} stored e =
    let same : y ≡ x = cc in
    At-move (omega arith) (subst (λ b. At page at b) same (At-left y (flat xs) stored))
At-flat at (y ∷ xs) (suc i) stored e =
    At-move (add_assoc at (length y) (upto i xs))
      (At-flat (at + length y) xs i (At-right y (flat xs) stored) e)

pub upto-suc :
    (xs : List (List ℕ)) (i : ℕ) {x : List ℕ}
    → get_elem? xs i ≡ some x
    → upto (suc i) xs ≡ upto i xs + length x
upto-suc [] i e = cc
upto-suc (y ∷ xs) zero {x} e = let same : y ≡ x = cc in rw same (omega arith)
upto-suc (y ∷ xs) (suc i) e = omega (arith, upto-suc xs i e)

pub upto-le : (xs : List (List ℕ)) (i : ℕ) → upto i xs ≤ length (flat xs)
upto-le [] zero = omega arith
upto-le [] (suc i) = omega arith
upto-le (x ∷ xs) zero = omega arith
upto-le (x ∷ xs) (suc i) = omega (arith, length-append x (flat xs), upto-le xs i)

pub upto_all : (xs : List (List ℕ)) → upto (length xs) xs ≡ length (flat xs)
upto_all [] = refl
upto_all (x ∷ xs) = omega (arith, length-append x (flat xs), upto_all xs)

-- Entries of one fixed size end at its multiples.
pub Fits-upto :
    (fixed : ℕ) (xs : List (List ℕ)) (i : ℕ)
    → Fits (some fixed) xs
    → i ≤ length xs
    → upto i xs ≡ fixed * i
Fits-upto fixed [] zero f h = omega arith
Fits-upto fixed [] (suc i) f h = absurd (omega arith)
Fits-upto fixed (x ∷ xs) zero f h = omega arith
Fits-upto fixed (x ∷ xs) (suc i) f h =
    let e = f.0 in grind (arith, Fits-upto fixed xs i f.1 (omega arith))

-- The end of an entry of a column that begins at `start`, by its stored offset.
pub get_u32-offsets :
    {page : List ℕ} (at start : ℕ) (xs : List (List ℕ)) (i : ℕ)
    → At page at (offsets (ends start xs))
    → i < length xs
    → start + length (flat xs) < 2 ^ 32
    → get_u32 (at + 4 * i) page ≡ some (start + upto (suc i) xs)
get_u32-offsets at start xs i stored h small =
    get_u32-At (At-offsets at start xs i stored h) (omega (arith, upto-le xs (suc i)))
