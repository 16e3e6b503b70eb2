-- ===== src/Pages/Leaf/Mutator.antt =====
-- `LeafMutator` of src/tree_store/btree_base.rs: entries are removed and inserted in place. An `isize`
-- is an integer here.
use redbx.Prelude.{
  ℕ, zero, suc, ◌+◌, ◌-◌, ◌*◌, ◌^◌, Option, none, some, List, Outcome, ok, panic, ◌>>=◌, ◌>>◌,
  check, unwrap, if◌then◌else◌, ltb, leb,
}
use redbx.Prelude.Word.{sub64, to_u32}
use redbx.Prelude.Bytes.{to_le, from_le, slice, write}
use redbx.Prelude.Moves.{copy_within}
use redbx.Pages.Column.{pointers, to_u16}
use redbx.Pages.Leaf.{new, key_start, key_end, value_start, value_end}

-- `negsuc n` is -(n + 1).
pub data ℤ : Type 0 where
  pos : ℕ → ℤ
  negsuc : ℕ → ℤ

-- a - b
abbrev pub sub_ℕ : ℕ → ℕ → ℤ
sub_ℕ a b = if leb b a then pos (a - b) else negsuc (b - a - 1)

abbrev pub neg : ℕ → ℤ
neg zero = pos 0
neg (suc n) = negsuc n

-- `isize::try_from(n).unwrap()`
abbrev pub to_isize : ℕ → Outcome ℕ
to_isize n = if ltb n (2 ^ 63) then ok n else panic

-- `(isize::try_from(ptr).unwrap() + delta).try_into().unwrap()`, into a `u32`
abbrev pub add_delta : ℕ → ℤ → Option ℕ
add_delta ptr (pos n) = to_u32 (ptr + n)
add_delta ptr (negsuc n) = if ltb n ptr then to_u32 (ptr - (n + 1)) else none

-- The bytes of one end offset.
abbrev pub pointer_size : Option ℕ → ℕ
pointer_size none = 4
pointer_size (some fixed) = 0

unfoldable pub update_end : ℕ → ℤ → List ℕ → Outcome (List ℕ)
update_end offset delta page = do
  bytes ← slice offset 4 page
  ptr ← unwrap (add_delta (from_le bytes) delta)
  write offset (to_le 4 ptr) page

unfoldable pub update_key_end : Option ℕ → ℕ → ℤ → List ℕ → Outcome (List ℕ)
update_key_end (some fixed) i delta page = ok page
update_key_end none i delta page = update_end (4 + 4 * i) delta page

unfoldable pub update_value_end : Option ℕ → Option ℕ → ℕ → ℤ → List ℕ → Outcome (List ℕ)
update_value_end fixed_key_size (some fixed) i delta page = ok page
update_value_end fixed_key_size none i delta page = do
  accessor ← new page fixed_key_size none
  update_end (4 + 4 * i + pointers fixed_key_size accessor.num_pairs) delta page

module _ (fixed_key_size fixed_value_size : Option ℕ) where
  -- A loop over the end offsets from index `i` on: by how much the ends of keys and of values move.
  unfoldable pub update_ends : ℕ → ℕ → Outcome ℤ → Outcome ℤ → List ℕ → Outcome (List ℕ)
  update_ends i zero key_delta value_delta page = ok page
  update_ends i (suc rounds) key_delta value_delta page = do
    for_key ← key_delta
    with_key ← update_key_end fixed_key_size i for_key page
    for_value ← value_delta
    with_value ← update_value_end fixed_key_size fixed_value_size i for_value with_key
    update_ends (i + 1) rounds key_delta value_delta with_value

  unfoldable pub remove : ℕ → List ℕ → Outcome (List ℕ)
  remove i page = do
    accessor ← new page fixed_key_size fixed_value_size
    let num_pairs = accessor.num_pairs
    check (ltb i num_pairs)
    check (ltb 1 num_pairs)
    key_from ← unwrap (key_start accessor i)
    key_to ← unwrap (key_end accessor i)
    value_from ← unwrap (value_start accessor i)
    value_to ← unwrap (value_end accessor i)
    last_value_end ← unwrap (value_end accessor (num_pairs - 1))
    let pointer_sizes = pointer_size fixed_key_size + pointer_size fixed_value_size
    let key_size = to_isize (sub64 key_to key_from)
    let value_size = to_isize (sub64 value_to value_from)
    before ←
        update_ends 0 i (ok (neg pointer_sizes)) (do k ← key_size; ok (neg (pointer_sizes + k)))
          page
    after ←
        update_ends (i + 1) (num_pairs - (i + 1)) (do k ← key_size; ok (neg (pointer_sizes + k)))
          (do k ← key_size; v ← value_size; ok (neg (pointer_sizes + k + v))) before
    new_num_pairs ← unwrap (to_u16 (num_pairs - 1))
    counted ← write 2 (to_le 2 new_num_pairs) after
    let kp = pointer_size fixed_key_size
    let vp = pointer_size fixed_value_size
    let start1 = 4 + kp * (i + 1)
    let end1 = 4 + kp * num_pairs + vp * i
    let dest1 = 4 + kp * i
    moved1 ← copy_within start1 end1 dest1 counted
    let start2 = 4 + kp * num_pairs + vp * (i + 1)
    let dest2 = dest1 + sub64 end1 start1
    moved2 ← copy_within start2 key_from dest2 moved1
    let dest3 = dest2 + sub64 key_from start2
    moved3 ← copy_within key_to value_from dest3 moved2
    let dest4 = dest3 + sub64 value_from key_to
    copy_within value_to last_value_end dest4 moved3
