-- ===== src/Prelude/Fields.antt =====
-- Fields that stand side by side in an array: reading and writing one of them.
use Prim.Native.Nat.{ℕ, ◌+◌}
use mathlib.Core.Path.{◌≡◌, refl, ap, sym, ◌∙◌}
use mathlib.Core.List.{List, [], ◌∷◌, ◌++◌}
use native.Mathlib.Nat.{suc-add}
use native.Mathlib.Omega.{arith}
use redbx.Prelude.Lists.{length, get_elem?}
use redbx.Prelude.Panics.{Outcome, ok, panic, ◌>>=◌}
use redbx.Prelude.Bytes.{take_bytes, skip_bytes, slice, overwrite, write, take_bytes-append}

pub slice-here : (xs post : List ℕ) {w : ℕ} → length xs ≡ w → slice 0 w (xs ++ post) ≡ ok xs
unfolding slice skip_bytes
slice-here xs post e = ap (λ n. take_bytes n (xs ++ post)) (sym e) ∙ take_bytes-append xs post

take_bytes-all : (xs : List ℕ) → take_bytes (length xs) xs ≡ ok xs
unfolding take_bytes
take_bytes-all [] = refl
take_bytes-all (x ∷ xs) = rw (take_bytes-all xs) refl

pub slice-last : (xs : List ℕ) {w : ℕ} → length xs ≡ w → slice 0 w xs ≡ ok xs
unfolding slice skip_bytes
slice-last xs e = ap (λ n. take_bytes n xs) (sym e) ∙ take_bytes-all xs

skip_bytes-skip :
    (pre rest : List ℕ) (k : ℕ) → skip_bytes (length pre + k) (pre ++ rest) ≡ skip_bytes k rest
unfolding skip_bytes
skip_bytes-skip [] rest k = ap (λ n. skip_bytes n rest) (omega arith)
skip_bytes-skip (x ∷ pre) rest k = rw (suc-add (length pre) k) (skip_bytes-skip pre rest k)

pub slice-skip :
    (pre rest : List ℕ) {n : ℕ} (k w : ℕ)
    → length pre ≡ n
    → slice (n + k) w (pre ++ rest) ≡ slice k w rest
unfolding slice
slice-skip pre rest k w e =
    ap (λ m. slice (m + k) w (pre ++ rest)) (sym e)
    ∙ ap (λ r. r >>= take_bytes w) (skip_bytes-skip pre rest k)

overwrite-here :
    (xs old post : List ℕ) → length old ≡ length xs → overwrite xs (old ++ post) ≡ ok (xs ++ post)
unfolding overwrite
overwrite-here [] [] post e = refl
overwrite-here [] (o ∷ old) post e = absurd (omega arith)
overwrite-here (x ∷ xs) [] post e = absurd (omega arith)
overwrite-here (x ∷ xs) (o ∷ old) post e = rw (overwrite-here xs old post (omega arith)) refl

pub write-here :
    (xs old post : List ℕ) → length old ≡ length xs → write 0 xs (old ++ post) ≡ ok (xs ++ post)
unfolding write
write-here = overwrite-here

pub write-last : (xs old : List ℕ) → length old ≡ length xs → write 0 xs old ≡ ok xs
unfolding write overwrite
write-last [] [] e = refl
write-last [] (o ∷ old) e = absurd (omega arith)
write-last (x ∷ xs) [] e = absurd (omega arith)
write-last (x ∷ xs) (o ∷ old) e = rw (write-last xs old (omega arith)) refl

ok_again : (o : Outcome (List ℕ)) → o ≡ (o >>= λ r. ok ([] ++ r))
ok_again (ok r) = refl
ok_again panic = refl

pull :
    (o : Outcome (List ℕ)) (pre : List ℕ) (x : ℕ)
    → ((o >>= λ r. ok (pre ++ r)) >>= λ r. ok (x ∷ r)) ≡ (o >>= λ r. ok (x ∷ pre ++ r))
pull (ok r) pre x = refl
pull panic pre x = refl

write-skip_length :
    (pre rest xs : List ℕ) (k : ℕ)
    → write (length pre + k) xs (pre ++ rest) ≡ (write k xs rest >>= λ r. ok (pre ++ r))
unfolding write
write-skip_length [] rest xs k =
    ap (λ n. write n xs rest) (omega arith) ∙ ok_again (write k xs rest)
write-skip_length (x ∷ pre) rest xs k =
    rw (suc-add (length pre) k, write-skip_length pre rest xs k) (pull (write k xs rest) pre x)

pub write-skip :
    (pre rest xs : List ℕ) {n : ℕ} (k : ℕ) {r : List ℕ}
    → length pre ≡ n
    → write k xs rest ≡ ok r
    → write (n + k) xs (pre ++ rest) ≡ ok (pre ++ r)
write-skip pre rest xs k e h =
    ap (λ m. write (m + k) xs (pre ++ rest)) (sym e)
    ∙ write-skip_length pre rest xs k
    ∙ ap (λ o. o >>= λ r. ok (pre ++ r)) h

get_elem?-skip_length :
    (pre rest : List ℕ) (k : ℕ) → get_elem? (pre ++ rest) (length pre + k) ≡ get_elem? rest k
get_elem?-skip_length [] rest k = ap (get_elem? rest) (omega arith)
get_elem?-skip_length (x ∷ pre) rest k =
    rw (suc-add (length pre) k) (get_elem?-skip_length pre rest k)

pub get_elem?-skip :
    (pre rest : List ℕ) {n : ℕ} (k : ℕ)
    → length pre ≡ n
    → get_elem? (pre ++ rest) (n + k) ≡ get_elem? rest k
get_elem?-skip pre rest k e =
    ap (λ m. get_elem? (pre ++ rest) (m + k)) (sym e) ∙ get_elem?-skip_length pre rest k
