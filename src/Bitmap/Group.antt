-- ===== src/Bitmap/Group.antt =====
-- `U64GroupedBitmap` of src/tree_store/page_store/bitmap.rs. An index out of range and a failed
-- `assert!` panic.
pub mod Reads
pub mod FirstUnset
use Prim.Native.Nat.{bit_and, bit_or}
use redbx.Prelude.{
  ℕ, zero, suc, ◌+◌, ◌-◌, ◌*◌, ◌/◌, ◌%◌, Bool, true, false, not, ◌||◌, Option, none, some, List, [],
  ◌∷◌, ◌++◌, Outcome, ok, panic, ◌>>=◌, ◌>>◌, check, unwrap, if◌then◌else◌, ltb, leb, ◌==◌, length,
  get_elem?, set, replicate,
}
use redbx.Prelude.Bytes.{to_le, from_le, take_bytes, skip_bytes, slice}
use redbx.Prelude.Word.{add32, sub32}
use redbx.Bitmap.Word.{u64_max, zeros, ones, select_mask, complement}

pub record U64GroupedBitmap : Type 0 where
  pub len : ℕ
  pub words : List ℕ

-- `elements.div_ceil(64)`
unfoldable pub required_words : ℕ → ℕ
required_words elements = (elements + 63) / 64

unfoldable pub new_full : ℕ → ℕ → U64GroupedBitmap
new_full len capacity = record { len = len; words = replicate (required_words capacity) u64_max }

abbrev pub data_index_of : ℕ → ℕ × ℕ
data_index_of b = (b / 64, b % 64)

unfoldable pub count_unset_words : List ℕ → ℕ
count_unset_words [] = 0
count_unset_words (x ∷ xs) = zeros 64 x + count_unset_words xs

unfoldable pub count_unset : U64GroupedBitmap → ℕ
count_unset g = count_unset_words g.words

unfoldable pub any_unset_words : List ℕ → Bool
any_unset_words [] = false
any_unset_words (x ∷ xs) = ltb 0 (zeros 64 x) || any_unset_words xs

unfoldable pub any_unset : U64GroupedBitmap → Bool
any_unset g = any_unset_words g.words

unfoldable pub first_unset : U64GroupedBitmap → ℕ → ℕ → Outcome (Option ℕ)
first_unset g start_bit end_bit = do
  check (end_bit == add32 (sub32 start_bit (start_bit % 64)) 64)
  if g.len == 0 then ok none else (do
    word ← unwrap (get_elem? g.words (start_bit / 64))
    let mask = select_mask (start_bit % 64) - 1
    let x = ones 64 (bit_or word mask)
    ok (if x == 64 then none else some (sub32 (add32 start_bit x) (start_bit % 64))))

unfoldable pub get : U64GroupedBitmap → ℕ → Outcome Bool
get g b = do
  check (ltb b g.len)
  word ← unwrap (get_elem? g.words (b / 64))
  ok (not (bit_and word (select_mask (b % 64)) == 0))

-- The flag says whether the bit's word is now all set.
unfoldable pub set_bit : U64GroupedBitmap → ℕ → Outcome (U64GroupedBitmap × Bool)
set_bit g b = do
  check (ltb b g.len)
  word ← unwrap (get_elem? g.words (b / 64))
  let word' = bit_or word (select_mask (b % 64))
  ok (record g { words = set g.words (b / 64) word' }, word' == u64_max)

unfoldable pub clear : U64GroupedBitmap → ℕ → Outcome U64GroupedBitmap
clear g b = do
  check (ltb b g.len)
  word ← unwrap (get_elem? g.words (b / 64))
  ok (record g { words = set g.words (b / 64) (bit_and word (complement (select_mask (b % 64)))) })

-- The loop of `resize` over `old_len..new_len`: `rounds` bits from `i` on.
unfoldable pub fill : ℕ → ℕ → Bool → U64GroupedBitmap → Outcome U64GroupedBitmap
fill zero i full g = ok g
fill (suc rounds) i full g = do
  g' ← if full then (set_bit g i >>= λ r. ok r.0) else clear g i
  fill rounds (i + 1) full g'

unfoldable pub resize : U64GroupedBitmap → ℕ → Bool → Outcome U64GroupedBitmap
resize g new_len full =
    let missing = required_words new_len - length g.words in
    let g' : U64GroupedBitmap = record {
      len = new_len;
      words =
          if ltb (length g.words) (required_words new_len)
          then g.words ++ replicate missing (if full then u64_max else 0)
          else g.words;
    } in
    if ltb g.len new_len then fill (new_len - g.len) g.len full g' else ok g'

unfoldable pub words_to_vec : List ℕ → List ℕ
words_to_vec [] = []
words_to_vec (x ∷ xs) = to_le 8 x ++ words_to_vec xs

unfoldable pub to_vec : U64GroupedBitmap → Outcome (List ℕ)
to_vec g = do
  words ← take_bytes (required_words g.len) g.words
  ok (to_le 4 g.len ++ words_to_vec words)

-- The loop of `from_bytes`, over the bytes after the length.
unfoldable pub words_from_bytes : ℕ → List ℕ → Outcome (List ℕ)
words_from_bytes zero bytes = ok []
words_from_bytes (suc words) bytes = do
  first ← take_bytes 8 bytes
  rest ← skip_bytes 8 bytes
  tail ← words_from_bytes words rest
  ok (from_le first ∷ tail)

unfoldable pub from_bytes : List ℕ → Outcome U64GroupedBitmap
from_bytes serialized = do
  head ← take_bytes 4 serialized
  rest ← skip_bytes 4 serialized
  check (length rest % 8 == 0)
  words ← words_from_bytes (length rest / 8) rest
  ok (record { len = from_le head; words = words })

-- `xxh3_hash`, with the checksum as an argument.
unfoldable pub xxh3_hash : (List ℕ → ℕ) → U64GroupedBitmap → Outcome ℕ
xxh3_hash checksum g = if g.len == 0 then ok 0 else (do
  whole ← take_bytes (required_words g.len - 1) g.words
  let last = sub32 g.len 1
  let mask = bit_or (select_mask (last % 64) - 1) (select_mask (last % 64))
  group ← unwrap (get_elem? g.words (last / 64))
  ok (checksum (to_le 4 g.len ++ words_to_vec whole ++ to_le 8 (bit_and group mask))))
