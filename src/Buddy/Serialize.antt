-- ===== src/Buddy/Serialize.antt =====
-- The byte format and the checksum of src/tree_store/page_store/buddy_allocator.rs.
use Prim.Native.Nat.{bit_xor}
use redbx.Prelude.{
  ℕ, zero, suc, ◌+◌, ◌-◌, ◌*◌, List, [], ◌∷◌, ◌++◌, Outcome, ok, ◌>>=◌, ◌>>◌, check, unwrap, leb,
  ◌==◌, length, get_elem?,
}
use redbx.Prelude.Bytes.{to_le, from_le, slice}
use redbx.Bitmap
use redbx.Bitmap.{BtreeBitmap, end_offsets, concat}
use redbx.Buddy.{BuddyAllocator}

unfoldable pub hash_orders : (List ℕ → ℕ) → ℕ → List BtreeBitmap → Outcome ℕ
hash_orders checksum result [] = ok result
hash_orders checksum result (x ∷ xs) = do
  h ← Bitmap.xxh3_hash checksum x
  hash_orders checksum (bit_xor result h) xs

unfoldable pub xxh3_hash : (List ℕ → ℕ) → BuddyAllocator → Outcome ℕ
xxh3_hash checksum a = hash_orders checksum 0 a.free

unfoldable pub order_vecs : List BtreeBitmap → Outcome (List (List ℕ))
order_vecs [] = ok []
order_vecs (order ∷ orders) = do
  bytes ← Bitmap.to_vec order
  rest ← order_vecs orders
  ok (bytes ∷ rest)

unfoldable pub to_vec : BuddyAllocator → Outcome (List ℕ)
to_vec a = do
  vecs ← order_vecs a.free
  let header = (a.max_order ∷ 0 ∷ 0 ∷ 0 ∷ []) ++ to_le 4 a.len
  let data_offset = length header + (a.max_order + 1) * 4
  ends ← end_offsets data_offset vecs
  check (data_offset == length (header ++ ends))
  ok (header ++ ends ++ concat vecs)

-- The loop of `from_bytes`, once for each order.
unfoldable pub parse_orders : ℕ → ℕ → ℕ → List ℕ → Outcome (List BtreeBitmap)
parse_orders zero metadata data_start bytes = ok []
parse_orders (suc orders) metadata data_start bytes = do
  end_bytes ← slice metadata 4 bytes
  let data_end = from_le end_bytes
  check (leb data_start data_end)
  order_bytes ← slice data_start (data_end - data_start) bytes
  order ← Bitmap.from_bytes order_bytes
  rest ← parse_orders orders (metadata + 4) data_end bytes
  ok (order ∷ rest)

unfoldable pub from_bytes : List ℕ → Outcome BuddyAllocator
from_bytes bytes = do
  max_order ← unwrap (get_elem? bytes 0)
  len_bytes ← slice 4 4 bytes
  free ← parse_orders (max_order + 1) 8 (8 + (max_order + 1) * 4) bytes
  ok (record { free = free; len = from_le len_bytes; max_order = max_order })
