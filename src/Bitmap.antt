-- ===== src/Bitmap.antt =====
-- `BtreeBitmap` of src/tree_store/page_store/bitmap.rs: the levels of a 64-way tree of bitmaps,
-- the root first. A bit of an upper level is set when the whole 64-bit group below it is set.
pub mod Word
pub mod Group
pub mod Tree
pub mod Search
pub mod Update
pub mod Climb
pub mod Changes
pub mod Alloc
pub mod Full
mod Tests
use Prim.Native.Nat.{bit_xor}
use redbx.Prelude.{
  ℕ, zero, suc, ◌+◌, ◌-◌, ◌*◌, ◌/◌, ◌≤◌, Bool, true, false, Option, none, some, List, [], ◌∷◌, ◌++◌,
  Outcome, ok, panic, ◌>>=◌, ◌>>◌, check, unwrap, if◌then◌else◌, ltb, leb, ◌==◌, length, get_elem?,
  set,
}
use redbx.Prelude.Bytes.{to_le, from_le, take_bytes, skip_bytes, slice}
use redbx.Prelude.Word.{u32_size, add32, sub32, mul32, to_u32}
use redbx.Bitmap.Group.{U64GroupedBitmap}

pub record BtreeBitmap : Type 0 where
  pub heights : List U64GroupedBitmap

abbrev pub get_height : BtreeBitmap → ℕ
get_height m = length m.heights

unfoldable pub get_level : BtreeBitmap → ℕ → Outcome U64GroupedBitmap
get_level m i = do check (ltb i (get_height m)); unwrap (get_elem? m.heights i)

unfoldable pub leaf : BtreeBitmap → Outcome U64GroupedBitmap
leaf m = get_level m (sub32 (get_height m) 1)

unfoldable pub count_unset : BtreeBitmap → Outcome ℕ
count_unset m = do level ← leaf m; ok (Group.count_unset level)

unfoldable pub has_unset : BtreeBitmap → Outcome Bool
has_unset m = do level ← leaf m; ok (Group.any_unset level)

unfoldable pub get : BtreeBitmap → ℕ → Outcome Bool
get m i = do level ← leaf m; Group.get level i

unfoldable pub len : BtreeBitmap → Outcome ℕ
len m = do level ← leaf m; ok level.len

-- The loop of `find_first_unset`, over the levels below the one `entry` was found in.
unfoldable pub descend : List U64GroupedBitmap → ℕ → Outcome ℕ
descend [] entry = ok entry
descend (level ∷ levels) entry = do
  found ← Group.first_unset level (mul32 entry 64) (add32 (mul32 entry 64) 64)
  entry' ← unwrap found
  descend levels entry'

abbrev pub levels_below : List U64GroupedBitmap → List U64GroupedBitmap
levels_below [] = []
levels_below (root ∷ levels) = levels

unfoldable pub find_first_unset : BtreeBitmap → Outcome (Option ℕ)
find_first_unset m = do
  root ← get_level m 0
  found ← Group.first_unset root 0 64
  elim found [
    | none ↦ ok none
    | some entry ↦ (do entry' ← descend (levels_below m.heights) entry; ok (some entry'))
  ]

-- One round of the loop of `update_to_root`: the levels, and whether the entry's group is now full.
unfoldable pub update_level :
    ℕ → ℕ → Bool → List U64GroupedBitmap → Outcome (List U64GroupedBitmap × Bool)
update_level parent_height parent_entry full heights = do
  level ← unwrap (get_elem? heights parent_height)
  r ←
      if full
      then Group.set_bit level parent_entry
      else (Group.clear level parent_entry >>= λ g. ok (g, false))
  ok (set heights parent_height r.0, r.1)

-- The loop of `update_to_root`, from the level `parent_height` up.
unfoldable pub climb : ℕ → ℕ → Bool → List U64GroupedBitmap → Outcome (List U64GroupedBitmap)
climb zero parent_entry full heights = do r ← update_level zero parent_entry full heights; ok r.0
climb (suc above) parent_entry full heights = do
  r ← update_level (suc above) parent_entry full heights
  climb above (parent_entry / 64) r.1 r.0

unfoldable pub update_to_root : BtreeBitmap → ℕ → Bool → Outcome BtreeBitmap
update_to_root m i full = if get_height m == 1 then ok m else (do
  heights ← climb (sub32 (get_height m) 2) (i / 64) full m.heights
  ok (record { heights = heights }))

unfoldable pub with_leaf : BtreeBitmap → U64GroupedBitmap → BtreeBitmap
with_leaf m level = record { heights = set m.heights (get_height m - 1) level }

unfoldable pub set_bit : BtreeBitmap → ℕ → Outcome BtreeBitmap
set_bit m i = do level ← leaf m; r ← Group.set_bit level i; update_to_root (with_leaf m r.0) i r.1

unfoldable pub clear : BtreeBitmap → ℕ → Outcome BtreeBitmap
clear m i = do
  level ← leaf m
  level' ← Group.clear level i
  update_to_root (with_leaf m level') i false

-- Returns the first unset id, and sets it.
unfoldable pub alloc : BtreeBitmap → Outcome (Option ℕ × BtreeBitmap)
alloc m = do
  found ← find_first_unset m
  elim found [ none ↦ ok (none, m) | some entry ↦ (do m' ← set_bit m entry; ok (some entry, m')) ]

-- The loop of `new`, from the leaf up; each round keeps what is above it in front. The capacity
-- shrinks 64-fold a round, so a `u32` needs at most six rounds.
unfoldable pub build : ℕ → ℕ → ℕ → List U64GroupedBitmap → List U64GroupedBitmap
build zero num_pages capacity heights = heights
build (suc fuel) num_pages capacity heights =
    let heights' = Group.new_full num_pages capacity ∷ heights in
    let rest = build fuel ((num_pages + 63) / 64) ((capacity + 63) / 64) heights' in
    if leb capacity 64 then heights' else rest

abbrev pub new_fuel : ℕ
new_fuel = 6

unfoldable pub new : ℕ → ℕ → BtreeBitmap
new num_pages capacity = record { heights = build new_fuel num_pages capacity [] }

-- The loop of `resize`, from the leaf up: the levels, resized, and the length the next one up gets.
unfoldable pub resize_levels :
    List U64GroupedBitmap → ℕ → Bool → Outcome (List U64GroupedBitmap × ℕ)
resize_levels [] new_len full = ok ([], new_len)
resize_levels (level ∷ levels) new_len full = do
  r ← resize_levels levels new_len full
  level' ← Group.resize level r.1 full
  ok (level' ∷ r.0, (r.1 + 63) / 64)

unfoldable pub resize : BtreeBitmap → ℕ → Bool → Outcome BtreeBitmap
resize m new_len full = do
  r ← resize_levels m.heights new_len full
  let m' : BtreeBitmap = record { heights = r.0 }
  root ← get_level m' 0
  check (leb root.len 64)
  ok m'

-- `xxh3_hash`, with the checksum as an argument.
unfoldable pub hash_levels : (List ℕ → ℕ) → ℕ → List U64GroupedBitmap → Outcome ℕ
hash_levels checksum result [] = ok result
hash_levels checksum result (level ∷ levels) = do
  h ← Group.xxh3_hash checksum level
  hash_levels checksum (bit_xor result h) levels

unfoldable pub xxh3_hash : (List ℕ → ℕ) → BtreeBitmap → Outcome ℕ
xxh3_hash checksum m = hash_levels checksum 0 m.heights

unfoldable pub level_vecs : List U64GroupedBitmap → Outcome (List (List ℕ))
level_vecs [] = ok []
level_vecs (level ∷ levels) = do
  bytes ← Group.to_vec level
  rest ← level_vecs levels
  ok (bytes ∷ rest)

-- The end of each serialized level: an end past `u32` panics.
unfoldable pub end_offsets : ℕ → List (List ℕ) → Outcome (List ℕ)
end_offsets data_offset [] = ok []
end_offsets data_offset (bytes ∷ vecs) = do
  check (ltb (data_offset + length bytes) u32_size)
  rest ← end_offsets (data_offset + length bytes) vecs
  ok (to_le 4 (data_offset + length bytes) ++ rest)

unfoldable pub concat : List (List ℕ) → List ℕ
concat [] = []
concat (bytes ∷ vecs) = bytes ++ concat vecs

unfoldable pub to_vec : BtreeBitmap → Outcome (List ℕ)
to_vec m = do
  vecs ← level_vecs m.heights
  let data_offset = 4 + length m.heights * 4
  ends ← end_offsets data_offset vecs
  check (data_offset == length (to_le 4 (get_height m) ++ ends))
  ok (to_le 4 (get_height m) ++ ends ++ concat vecs)

-- The loop of `from_bytes`.
unfoldable pub parse_levels : ℕ → ℕ → ℕ → List ℕ → Outcome (List U64GroupedBitmap)
parse_levels zero metadata data_start bytes = ok []
parse_levels (suc height) metadata data_start bytes = do
  end_bytes ← slice metadata 4 bytes
  let data_end = from_le end_bytes
  check (leb data_start data_end)
  level_bytes ← slice data_start (data_end - data_start) bytes
  level ← Group.from_bytes level_bytes
  levels ← parse_levels height (metadata + 4) data_end bytes
  ok (level ∷ levels)

unfoldable pub from_bytes : List ℕ → Outcome BtreeBitmap
from_bytes bytes = do
  head ← slice 0 4 bytes
  let height = from_le head
  heights ← parse_levels height 4 (4 + height * 4) bytes
  ok (record { heights = heights })
