-- ===== src/Pages/Leaf/Raw.antt =====
-- `RawLeafBuilder` of src/tree_store/btree_base.rs writes the entries of a leaf page one by one. The
-- poison that a debug build writes over the end offsets first is left out.
use redbx.Prelude.{
  ℕ, zero, suc, ◌+◌, ◌*◌, Option, none, some, List, [], ◌∷◌, Outcome, ok, ◌>>=◌, ◌>>◌, check,
  unwrap, leb, ◌==◌, length,
}
use redbx.Prelude.Word.{sub64}
use redbx.Prelude.Bytes.{to_le, write}
use redbx.Pages.Column.{pointers, get_u32, to_u16, write_end}
use redbx.Pages.Leaf.Layout.{leaf}

pub record RawLeafBuilder : Type 0 where
  pub page : List ℕ
  pub fixed_key_size : Option ℕ
  pub fixed_value_size : Option ℕ
  pub num_pairs : ℕ
  pub provisioned_key_bytes : ℕ
  pub pairs_written : ℕ

unfoldable pub required_bytes : ℕ → ℕ → Option ℕ → Option ℕ → ℕ
required_bytes num_pairs keys_values_bytes key_size value_size =
    4 + pointers key_size num_pairs + pointers value_size num_pairs + keys_values_bytes

unfoldable pub raw_new : List ℕ → ℕ → Option ℕ → Option ℕ → ℕ → Outcome RawLeafBuilder
raw_new page num_pairs fixed_key_size fixed_value_size key_bytes = do
  typed ← write 0 (leaf ∷ []) page
  count ← unwrap (to_u16 num_pairs)
  counted ← write 2 (to_le 2 count) typed
  ok (record {
    page = counted;
    fixed_key_size = fixed_key_size;
    fixed_value_size = fixed_value_size;
    num_pairs = num_pairs;
    provisioned_key_bytes = key_bytes;
    pairs_written = 0;
  })

unfoldable pub raw_key_section_start : RawLeafBuilder → ℕ
raw_key_section_start b =
    4 + pointers b.fixed_key_size b.num_pairs + pointers b.fixed_value_size b.num_pairs

unfoldable pub raw_value_end : RawLeafBuilder → ℕ → Outcome ℕ
raw_value_end b n = elim b.fixed_value_size [
  | some fixed ↦ ok (raw_key_section_start b + b.provisioned_key_bytes + fixed * (n + 1))
  | none ↦ unwrap (get_u32 (4 + 4 * n + pointers b.fixed_key_size b.num_pairs) b.page)
]

unfoldable pub raw_key_end : RawLeafBuilder → ℕ → Outcome ℕ
raw_key_end b n = elim b.fixed_key_size [
  | some fixed ↦ ok (raw_key_section_start b + fixed * (n + 1))
  | none ↦ unwrap (get_u32 (4 + 4 * n) b.page)
]

-- `assert_eq!(width, bytes.len())`, where the width is fixed.
abbrev pub check_width : Option ℕ → List ℕ → Outcome (Unit {0})
check_width none bytes = ok tt
check_width (some width) bytes = check (width == length bytes)

-- Where the next key and the next value go.
unfoldable pub key_offset : RawLeafBuilder → ℕ → Outcome ℕ
key_offset b zero = ok (raw_key_section_start b)
key_offset b (suc last) = raw_key_end b last

unfoldable pub value_offset : RawLeafBuilder → ℕ → Outcome ℕ
value_offset b zero = ok (raw_key_section_start b + b.provisioned_key_bytes)
value_offset b (suc last) = raw_value_end b last

unfoldable pub append : RawLeafBuilder → List ℕ → List ℕ → Outcome RawLeafBuilder
append b key value = do
  check_width b.fixed_key_size key
  check_width b.fixed_value_size value
  key_start ← key_offset b b.pairs_written
  value_start ← value_offset b b.pairs_written
  key_ended ← write_end b.fixed_key_size (4 + 4 * b.pairs_written) (key_start + length key) b.page
  with_key ← write key_start key key_ended
  check (leb (sub64 (key_start + length key) (raw_key_section_start b)) b.provisioned_key_bytes)
  value_ended ←
      write_end b.fixed_value_size (4 + 4 * b.pairs_written + pointers b.fixed_key_size b.num_pairs)
        (value_start + length value) with_key
  with_value ← write value_start value value_ended
  ok (record b { page = with_value; pairs_written = b.pairs_written + 1 })

-- The checks of `drop`.
unfoldable pub finish : RawLeafBuilder → Outcome (List ℕ)
finish b = do
  check (b.pairs_written == b.num_pairs)
  end ← raw_key_end b (sub64 b.num_pairs 1)
  check (raw_key_section_start b + b.provisioned_key_bytes == end)
  ok b.page
