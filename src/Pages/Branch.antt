-- ===== src/Pages/Branch.antt =====
-- `BranchAccessor` of src/tree_store/btree_base.rs: the children and the keys of a branch page. The
-- comparison of keys is a parameter, `K::compare`.
pub mod Raw
pub mod Layout
pub mod Reads
pub mod Writes
pub mod Built
pub mod Store
pub mod Split
pub mod Replace
mod Tests
use redbx.Prelude.{
  ℕ, zero, suc, ◌+◌, ◌*◌, Bool, Option, none, some, List, Outcome, ok, panic, ◌>>=◌, unwrap,
  if◌then◌else◌, leb, length,
}
use Prim.Native.Nat.{Ordering}
use redbx.Prelude.Word.{sub64}
use redbx.Prelude.Bytes.{from_le, slice}
use redbx.Prelude.Memory.{range}
use redbx.PageNumber
use redbx.PageNumber.{PageNumber}
use redbx.Pages.Column.{get_u32, pointers}
use redbx.Pages.Search.{search_loop}

pub record BranchAccessor : Type 0 where
  pub page : List ℕ
  pub num_keys : ℕ
  pub fixed_key_size : Option ℕ

unfoldable pub new : List ℕ → Option ℕ → Outcome BranchAccessor
new page fixed_key_size = do
  count ← slice 2 2 page
  ok (record { page = page; num_keys = from_le count; fixed_key_size = fixed_key_size })

abbrev pub count_children : BranchAccessor → ℕ
count_children a = a.num_keys + 1

-- 8 bytes of a page number and 16 bytes of a checksum for each child.
unfoldable pub key_section_start : BranchAccessor → ℕ
key_section_start a = 8 + (8 + 16) * count_children a + pointers a.fixed_key_size a.num_keys

unfoldable pub key_end : BranchAccessor → ℕ → Option ℕ
key_end a n = elim a.fixed_key_size [
  | some fixed ↦ some (key_section_start a + fixed * (n + 1))
  | none ↦ get_u32 (8 + (8 + 16) * count_children a + 4 * n) a.page
]

unfoldable pub key_offset : BranchAccessor → ℕ → Outcome ℕ
key_offset a zero = ok (key_section_start a)
key_offset a (suc n) = unwrap (key_end a n)

unfoldable pub total_length : BranchAccessor → Outcome ℕ
total_length a = unwrap (key_end a (sub64 a.num_keys 1))

abbrev pub key_slice : List ℕ → ℕ → Option ℕ → Outcome (Option (List ℕ))
key_slice page offset none = ok none
key_slice page offset (some end) = do bytes ← range offset end page; ok (some bytes)

unfoldable pub key : BranchAccessor → ℕ → Outcome (Option (List ℕ))
key a n =
    if leb a.num_keys n
    then ok none
    else (do offset ← key_offset a n; key_slice a.page offset (key_end a n))

unfoldable pub child_checksum : BranchAccessor → ℕ → Outcome (Option ℕ)
child_checksum a n =
    if leb (count_children a) n
    then ok none
    else (do bytes ← slice (8 + 16 * n) 16 a.page; ok (some (from_le bytes)))

unfoldable pub child_page : BranchAccessor → ℕ → Outcome (Option PageNumber)
child_page a n = if leb (count_children a) n then ok none else (do
  bytes ← slice (8 + 16 * count_children a + 8 * n) 8 a.page
  number ← PageNumber.from_le_bytes bytes
  ok (some number))

-- `self.key(n).unwrap()`
unfoldable pub key_at : BranchAccessor → ℕ → Outcome (List ℕ)
key_at a n = do found ← key a n; unwrap found

-- The child whose keys may hold the query, by a binary search.
unfoldable pub child_for_key :
    (List ℕ → List ℕ → Ordering) → BranchAccessor → List ℕ → Outcome (ℕ × PageNumber)
child_for_key compare a query = do
  answer ← search_loop compare (key_at a) query (a.num_keys + 1) 0 a.num_keys
  child ← child_page a answer.0
  number ← unwrap child
  ok (answer.0, number)
