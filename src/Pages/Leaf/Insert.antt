-- ===== src/Pages/Leaf/Insert.antt =====
-- `LeafMutator::insert` and `sufficient_insert_inplace_space` of src/tree_store/btree_base.rs.
use redbx.Prelude.{
  ℕ, zero, suc, ◌+◌, ◌-◌, ◌*◌, Bool, false, ◌&&◌, Option, none, some, List, Outcome, ok, panic,
  ◌>>=◌, ◌>>◌, check, unwrap, if◌then◌else◌, ltb, leb, length,
}
use redbx.Prelude.Word.{sub64, to_u32}
use redbx.Prelude.Bytes.{to_le, write}
use redbx.Prelude.Moves.{copy_within}
use redbx.PageNumber.{PageNumber}
use redbx.Pages.Column.{to_u16, write_end}
use redbx.Pages.Leaf.{
  LeafAccessor, new, key_start, key_end, value_start, value_end, value_range, length_of_pairs,
  total_length,
}
use redbx.Pages.Leaf.Mutator.{ℤ, pos, negsuc, sub_ℕ, pointer_size, update_value_end, update_ends}

-- `o.unwrap_or(other)`
abbrev pub unwrap_or : Option ℕ → ℕ → ℕ
unwrap_or none other = other
unwrap_or (some n) other = n

-- `range.map(|(start, end)| end - start).unwrap_or_default()`
abbrev pub length_or_zero : Option (ℕ × ℕ) → ℕ
length_or_zero none = 0
length_or_zero (some (start, end)) = sub64 end start

-- `isize::try_from(n).unwrap() + delta`, as a `usize`
abbrev pub add_isize : ℕ → ℤ → Outcome ℕ
add_isize n (pos d) = ok (n + d)
add_isize n (negsuc d) = if ltb d n then ok (n - (d + 1)) else panic

module _ (fixed_key_size fixed_value_size : Option ℕ) where
  -- The page number gives the order of the page; a large page only takes a pair at its end.
  unfoldable pub sufficient_insert_inplace_space :
      PageNumber → List ℕ → ℕ → Bool → List ℕ → List ℕ → Outcome Bool
  sufficient_insert_inplace_space number page position overwrite new_key new_value = do
    accessor ← new page fixed_key_size fixed_value_size
    (if overwrite
        then (do
          total ← total_length accessor
          let remaining = sub64 (length page) total
          existing ← length_of_pairs accessor position (position + 1)
          ok (leb (length new_key + length new_value) (remaining + existing)))
        else if ltb 0 number.page_order && ltb position accessor.num_pairs
        then ok false
        else (do
          total ← total_length accessor
          let remaining = sub64 (length page) total
          let required_delta =
              length new_key
              + length new_value
              + pointer_size fixed_key_size
              + pointer_size fixed_value_size
          ok (leb required_delta remaining)))

  -- The loop of an overwrite: only the ends of the values change.
  unfoldable pub update_value_ends : ℕ → ℕ → ℤ → List ℕ → Outcome (List ℕ)
  update_value_ends i zero delta page = ok page
  update_value_ends i (suc rounds) delta page = do
    updated ← update_value_end fixed_key_size fixed_value_size i delta page
    update_value_ends (i + 1) rounds delta updated

  -- The value of the pair at `i` is written over, and those behind it move.
  unfoldable pub overwrite_value : LeafAccessor → ℕ → List ℕ → ℕ → ℕ → List ℕ → Outcome (List ℕ)
  overwrite_value accessor i value shift_value_start last_value_end page = do
    let delta = sub_ℕ (length value) (length_or_zero (value_range accessor i))
    updated ← update_value_ends i (accessor.num_pairs - i) delta page
    count ← unwrap (to_u16 accessor.num_pairs)
    counted ← write 2 (to_le 2 count) updated
    dest ← add_isize shift_value_start delta
    moved ← copy_within shift_value_start last_value_end dest counted
    inserted_value_end ← unwrap (to_u32 dest)
    write (sub64 dest (length value)) value moved

  -- The pair is inserted at `i`, and those from `i` on move.
  unfoldable pub insert_pair :
      LeafAccessor → ℕ → List ℕ → List ℕ → ℕ → ℕ → ℕ → List ℕ → Outcome (List ℕ)
  insert_pair accessor i key value shift_key_start shift_value_start last_value_end page = do
    let num_pairs = accessor.num_pairs
    let kp = pointer_size fixed_key_size
    let vp = pointer_size fixed_value_size
    before ←
        update_ends fixed_key_size fixed_value_size 0 i (ok (pos (kp + vp)))
          (ok (pos (kp + vp + length key))) page
    after ←
        update_ends fixed_key_size fixed_value_size i (num_pairs - i)
          (ok (pos (kp + vp + length key))) (ok (pos (kp + vp + length key + length value))) before
    count ← unwrap (to_u16 (num_pairs + 1))
    counted ← write 2 (to_le 2 count) after
    let dest1 = shift_value_start + kp + vp + length key + length value
    moved1 ← copy_within shift_value_start last_value_end dest1 counted
    inserted_value_end ← unwrap (to_u32 dest1)
    let dest2 = sub64 dest1 (length value)
    with_value ← write dest2 value moved1
    let dest3 = sub64 dest2 (sub64 shift_value_start shift_key_start)
    moved2 ← copy_within shift_key_start shift_value_start dest3 with_value
    inserted_key_end ← unwrap (to_u32 dest3)
    let dest4 = sub64 dest3 (length key)
    with_key ← write dest4 key moved2
    let start = 4 + kp * num_pairs + vp * i
    let dest5 = sub64 dest4 (sub64 shift_key_start start)
    moved3 ← copy_within start shift_key_start dest5 with_key
    let dest6 = sub64 dest5 vp
    value_ended ← write_end fixed_value_size dest6 inserted_value_end moved3
    let dest7 = sub64 dest6 (sub64 start (4 + kp * i))
    moved4 ← copy_within (4 + kp * i) start dest7 value_ended
    write_end fixed_key_size (sub64 dest7 kp) inserted_key_end moved4

  unfoldable pub insert : ℕ → Bool → List ℕ → List ℕ → List ℕ → Outcome (List ℕ)
  insert i overwrite key value page = do
    accessor ← new page fixed_key_size fixed_value_size
    existing ← if overwrite then length_of_pairs accessor i (i + 1) else ok 0
    let added =
        if overwrite
        then length key + length value
        else length key + length value + pointer_size fixed_key_size + pointer_size fixed_value_size
    total ← total_length accessor
    check (leb (total + added) (length page + existing))
    last_key_end ← unwrap (key_end accessor (sub64 accessor.num_pairs 1))
    last_value_end ← unwrap (value_end accessor (sub64 accessor.num_pairs 1))
    let shift_index = if overwrite then i + 1 else i
    let shift_key_start = unwrap_or (key_start accessor shift_index) last_key_end
    let shift_value_start = unwrap_or (value_start accessor shift_index) last_value_end
    (if overwrite
        then overwrite_value accessor i value shift_value_start last_value_end page
        else insert_pair accessor i key value shift_key_start shift_value_start last_value_end page)
