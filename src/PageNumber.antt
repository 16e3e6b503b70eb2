-- ===== src/PageNumber.antt =====
-- `PageNumber` of src/tree_store/page_store/base.rs, in a release build: the `debug_assert!`s are off
-- and `u32` and `u64` arithmetic wraps.
pub mod RoundTrip
pub mod Address
mod Tests
use Prim.Native.Nat.{bit_and, bit_or, compare, Ordering}
use redbx.Prelude.{
  ℕ, ◌+◌, ◌*◌, ◌/◌, ◌%◌, ◌^◌, Bool, true, false, not, ◌||◌, List, Outcome, ok, panic, ◌>>=◌, ◌>>◌,
  check, unwrap, ◌==◌,
}
use redbx.Prelude.Word.{u64_size, mul32, add64, mul64, to_u32}
use redbx.Prelude.Bytes.{to_le, from_le}

pub record PageNumber : Type 0 where
  pub region : ℕ
  pub page_index : ℕ
  pub page_order : ℕ

abbrev pub serialized_size : ℕ
serialized_size = 8

unfoldable pub new : ℕ → ℕ → ℕ → PageNumber
new region page_index page_order = record {
  region = region;
  page_index = page_index;
  page_order = page_order;
}

-- `x << k` on `u64`
abbrev pub shl64 : ℕ → ℕ → ℕ
shl64 x k = x * 2 ^ k % u64_size

-- The 64 bits that are hashed and stored.
unfoldable pub packed : PageNumber → ℕ
packed p =
    let temp = bit_and 0xFFFFF p.page_index in
    let temp' = bit_or temp (shl64 (bit_and 0xFFFFF p.region) 20) in
    bit_or temp' (shl64 (bit_and 0b11111 p.page_order) 59)

unfoldable pub to_le_bytes : PageNumber → List ℕ
to_le_bytes p = to_le 8 (packed p)

unfoldable pub unpacked : ℕ → Outcome PageNumber
unpacked temp = do
  let order = temp / 2 ^ 59 % 256
  index ← unwrap (to_u32 (bit_and temp (0xFFFFF / 2 ^ order)))
  let region = bit_and (temp / 2 ^ 20) 0xFFFFF
  ok (record { region = region; page_index = index; page_order = order })

unfoldable pub from_le_bytes : List ℕ → Outcome PageNumber
from_le_bytes bytes = unpacked (from_le bytes)

-- `Ord::cmp`. It panics on two pages with one start and different orders.
unfoldable pub cmp : PageNumber → PageNumber → Outcome Ordering
cmp p q = elim (compare p.region q.region) [
  | Ordering.lt ↦ ok Ordering.lt
  | Ordering.eq ↦ do
    let self_order0 = mul32 p.page_index (2 ^ p.page_order)
    let other_order0 = mul32 q.page_index (2 ^ q.page_order)
    check (not (self_order0 == other_order0) || (p.page_order == q.page_order))
    ok (compare self_order0 other_order0)
  | Ordering.gt ↦ ok Ordering.gt
]

unfoldable pub page_size_bytes : PageNumber → ℕ → ℕ
page_size_bytes p page_size = mul64 (shl64 1 p.page_order) page_size

-- Start and end of the page in the file.
unfoldable pub address_range : PageNumber → ℕ → ℕ → ℕ → ℕ → ℕ × ℕ
address_range p data_section_offset region_size region_pages_start page_size =
    let regional_start =
      add64 region_pages_start (mul64 p.page_index (page_size_bytes p page_size)) in
    let region_base = mul64 p.region region_size in
    let start = add64 (add64 data_section_offset region_base) regional_start in
    (start, add64 start (page_size_bytes p page_size))
