-- ===== src/Pages/Leaf.antt =====
-- `LeafAccessor` of src/tree_store/btree_base.rs: the entries of a leaf page.
pub mod Layout
pub mod Reads
pub mod Raw
pub mod Append
pub mod Grow
pub mod Build
pub mod Built
pub mod BuildLaws
pub mod Split
pub mod Store
pub mod SplitLaws
pub mod Find
pub mod Mutator
pub mod Shift
pub mod ShiftAll
pub mod Close
pub mod Parts
pub mod Rejoin
pub mod Sizes
pub mod Remove
pub mod RemoveSteps
pub mod Removed
pub mod Insert
pub mod Open
pub mod Halves
pub mod Enlarge
pub mod Around
pub mod InsertSteps
pub mod Places
pub mod Inserted
use redbx.Prelude.{
  ℕ, zero, suc, ◌+◌, ◌-◌, ◌*◌, Bool, true, false, Option, none, some, List, Outcome, ok, panic,
  ◌>>=◌, ◌>>◌, unwrap, if◌then◌else◌, leb, length,
}
use redbx.Prelude.Word.{sub64}
use redbx.Prelude.Bytes.{from_le, slice}
use redbx.Prelude.Memory.{range}
use redbx.Pages.Column.{◌>>?◌, get_u32, pointers}

pub record LeafAccessor : Type 0 where
  pub page : List ℕ
  pub fixed_key_size : Option ℕ
  pub fixed_value_size : Option ℕ
  pub num_pairs : ℕ

pub record EntryAccessor : Type 0 where
  pub key : List ℕ
  pub value : List ℕ

unfoldable pub new : List ℕ → Option ℕ → Option ℕ → Outcome LeafAccessor
new page fixed_key_size fixed_value_size = do
  count ← slice 2 2 page
  ok (record {
    page = page;
    fixed_key_size = fixed_key_size;
    fixed_value_size = fixed_value_size;
    num_pairs = from_le count;
  })

unfoldable pub key_section_start : LeafAccessor → ℕ
key_section_start a =
    4 + pointers a.fixed_key_size a.num_pairs + pointers a.fixed_value_size a.num_pairs

unfoldable pub key_end : LeafAccessor → ℕ → Option ℕ
key_end a n = if leb a.num_pairs n then none else elim a.fixed_key_size [
  | some fixed ↦ some (key_section_start a + fixed * (n + 1))
  | none ↦ get_u32 (4 + 4 * n) a.page
]

unfoldable pub key_start : LeafAccessor → ℕ → Option ℕ
key_start a zero = some (key_section_start a)
key_start a (suc n) = key_end a n

-- `n.checked_sub(1)`
abbrev pub checked_pred : ℕ → Option ℕ
checked_pred zero = none
checked_pred (suc n) = some n

unfoldable pub value_end : LeafAccessor → ℕ → Option ℕ
value_end a n = if leb a.num_pairs n then none else elim a.fixed_value_size [
  | some fixed ↦
      checked_pred a.num_pairs >>? λ last. key_end a last >>? λ end. some (end + fixed * (n + 1))
  | none ↦ get_u32 (4 + 4 * n + pointers a.fixed_key_size a.num_pairs) a.page
]

unfoldable pub value_start : LeafAccessor → ℕ → Option ℕ
value_start a zero = key_end a (sub64 a.num_pairs 1)
value_start a (suc n) = value_end a n

unfoldable pub value_range : LeafAccessor → ℕ → Option (ℕ × ℕ)
value_range a n = value_start a n >>? λ start. value_end a n >>? λ end. some (start, end)

-- The bytes of the keys from the first index up to the second.
unfoldable pub length_of_keys : LeafAccessor → ℕ → ℕ → Outcome ℕ
length_of_keys a start zero = ok 0
length_of_keys a start (suc last) = do
  end_offset ← unwrap (key_end a last)
  start_offset ← unwrap (key_start a start)
  ok (sub64 end_offset start_offset)

unfoldable pub length_of_values : LeafAccessor → ℕ → ℕ → Outcome ℕ
length_of_values a start zero = ok 0
length_of_values a start (suc last) = do
  end_offset ← unwrap (value_end a last)
  start_offset ← unwrap (value_start a start)
  ok (sub64 end_offset start_offset)

unfoldable pub length_of_pairs : LeafAccessor → ℕ → ℕ → Outcome ℕ
length_of_pairs a start end = do
  values ← length_of_values a start end
  keys ← length_of_keys a start end
  ok (values + keys)

unfoldable pub total_length : LeafAccessor → Outcome ℕ
total_length a = unwrap (value_end a (sub64 a.num_pairs 1))

unfoldable pub key_unchecked : LeafAccessor → ℕ → Outcome (List ℕ)
key_unchecked a n = do
  start ← unwrap (key_start a n)
  end ← unwrap (key_end a n)
  range start end a.page

abbrev pub key_range : LeafAccessor → ℕ → Option (ℕ × ℕ)
key_range a n = key_start a n >>? λ start. key_end a n >>? λ end. some (start, end)

-- The two ranges of an entry, if it has both.
unfoldable pub entry_ranges : LeafAccessor → ℕ → Option ((ℕ × ℕ) × (ℕ × ℕ))
entry_ranges a n = key_range a n >>? λ key. value_range a n >>? λ value. some (key, value)

abbrev pub value_slice : List ℕ → List ℕ → Option (ℕ × ℕ) → Outcome (Option EntryAccessor)
value_slice page key none = ok none
value_slice page key (some (start, end)) = do
  value ← range start end page
  ok (some (record { key = key; value = value }))

-- `entry` slices the key before it looks for the value.
abbrev pub entry_slices : LeafAccessor → ℕ → Option (ℕ × ℕ) → Outcome (Option EntryAccessor)
entry_slices a n none = ok none
entry_slices a n (some (start, end)) = do
  key ← range start end a.page
  value_slice a.page key (value_range a n)

unfoldable pub entry : LeafAccessor → ℕ → Outcome (Option EntryAccessor)
entry a n = entry_slices a n (key_range a n)

unfoldable pub last_entry : LeafAccessor → Outcome EntryAccessor
last_entry a = do found ← entry a (sub64 a.num_pairs 1); unwrap found
