-- ===== src/Pages/Checksum.antt =====
-- `leaf_checksum` and `branch_checksum` of src/tree_store/btree_base.rs, and the copy of a branch page
-- into a builder. The hash is a parameter.
use redbx.Prelude.{
  ℕ, zero, suc, ◌+◌, ◌-◌, Option, none, some, List, Outcome, ok, ◌>>=◌, unwrap, if◌then◌else◌, ltb,
  length,
}
use redbx.Prelude.Memory.{range}
use redbx.Pages.Leaf
use redbx.Pages.Leaf.{LeafAccessor, checked_pred}
use redbx.Pages.Branch
use redbx.Pages.Branch.{BranchAccessor, count_children, child_page, child_checksum, key}
use redbx.Pages.Branch.Raw.{BranchBuilder, push_child, push_key}

-- A checksum, or the error of a page that is corrupted.
pub data Checked : Type 0 where
  checksum : ℕ → Checked
  corrupted : Checked

module _ (xxh3_checksum : List ℕ → ℕ) where
  -- The checksum of the bytes up to an end that was found.
  abbrev pub checked_up_to : List ℕ → Option ℕ → Outcome Checked
  checked_up_to page none = ok corrupted
  checked_up_to page (some end) =
      if ltb (length page) end
      then ok corrupted
      else (do bytes ← range 0 end page; ok (checksum (xxh3_checksum bytes)))

  abbrev pub leaf_end : LeafAccessor → Option ℕ → Option ℕ
  leaf_end accessor none = none
  leaf_end accessor (some last_pair) = Leaf.value_end accessor last_pair

  unfoldable pub leaf_checksum : List ℕ → Option ℕ → Option ℕ → Outcome Checked
  leaf_checksum page fixed_key_size fixed_value_size = do
    accessor ← Leaf.new page fixed_key_size fixed_value_size
    checked_up_to page (leaf_end accessor (checked_pred accessor.num_pairs))

  abbrev pub branch_end : BranchAccessor → Option ℕ → Option ℕ
  branch_end accessor none = none
  branch_end accessor (some last_key) = Branch.key_end accessor last_key

  unfoldable pub branch_checksum : List ℕ → Option ℕ → Outcome Checked
  branch_checksum page fixed_key_size = do
    accessor ← Branch.new page fixed_key_size
    checked_up_to page (branch_end accessor (checked_pred accessor.num_keys))

-- The two loops of `push_all`, from index `i` on.
unfoldable pub push_children : BranchAccessor → ℕ → ℕ → BranchBuilder → Outcome BranchBuilder
push_children a i zero b = ok b
push_children a i (suc rounds) b = do
  child ← child_page a i
  number ← unwrap child
  sum ← child_checksum a i
  found ← unwrap sum
  push_children a (i + 1) rounds (push_child b (number, found))

unfoldable pub push_keys : BranchAccessor → ℕ → ℕ → BranchBuilder → Outcome BranchBuilder
push_keys a i zero b = ok b
push_keys a i (suc rounds) b = do
  found ← key a i
  bytes ← unwrap found
  push_keys a (i + 1) rounds (push_key b bytes)

unfoldable pub push_all : BranchBuilder → BranchAccessor → Outcome BranchBuilder
push_all b a = do
  with_children ← push_children a 0 (count_children a) b
  push_keys a 0 (count_children a - 1) with_children
