-- ===== src/Header/Slot/RoundTrip.antt =====
-- The stored bytes of a commit slot of src/tree_store/page_store/header.rs, read back.
use redbx.Prelude.{
  ℕ, ◌^◌, ◌<◌, ◌≡◌, refl, List, [], ◌∷◌, ◌++◌, arith, length, ok, ◌>>=◌, replicate, Option, none,
  some, get_elem?, true, false, ◌==◌, inr, ◌||◌,
}
use redbx.Prelude.Bytes.{to_le, slice, write, overwrite, length-to_le, from_le-to_le}
use redbx.Header.Slot.{
  BtreeHeader, TransactionHeader, file_format_version3, read_root, slot_to_bytes, slot_from_bytes,
}
use redbx.Header.Slot.Roots.{IsRoots, length-append, btree_from_le_bytes-root_fields}
use redbx.Header.Slot.Fields.{
  flag_of, field_of, length-field_of, slot_fields, write_user, write_system, write_id, take_covered,
  write_checksum, read_id, read_checksum, user_here, system_here,
}

-- A slot whose fields fit their bytes.
pub record IsSlot (h : TransactionHeader) : Type 0 where
  pub version : h.version ≡ file_format_version3
  pub user_root : IsRoots h.user_root
  pub system_root : IsRoots h.system_root
  pub transaction_id : h.transaction_id < 256 ^ 8

-- The bytes of a slot.
unfoldable pub covered_of : TransactionHeader → List ℕ
covered_of h =
    slot_fields h.version (flag_of h.user_root) (flag_of h.system_root) (field_of h.user_root)
      (field_of h.system_root) (to_le 8 h.transaction_id)

unfoldable pub slot_bytes : (List ℕ → ℕ) → TransactionHeader → List ℕ
slot_bytes checksum h =
    slot_fields h.version (flag_of h.user_root) (flag_of h.system_root) (field_of h.user_root)
      (field_of h.system_root) (to_le 8 h.transaction_id ++ to_le 16 (checksum (covered_of h)))

pub length-slot_bytes :
    (checksum : List ℕ → ℕ) (h : TransactionHeader) → length (slot_bytes checksum h) ≡ 128
unfolding slot_bytes slot_fields
length-slot_bytes checksum h =
    let id = to_le 8 h.transaction_id in
    let sum = to_le 16 (checksum (covered_of h)) in
    omega (
      arith,
      length-append (field_of h.user_root)
          (field_of h.system_root ++ (replicate 32 0 ++ (id ++ sum))),
      length-append (field_of h.system_root) (replicate 32 0 ++ (id ++ sum)),
      length-append id sum,
      length-field_of h.user_root,
      length-field_of h.system_root,
      length-to_le 8 h.transaction_id,
      length-to_le 16 (checksum (covered_of h)),
    )

version_written :
    (version : ℕ)
    → write 0 (version ∷ []) (replicate 128 0)
      ≡ ok (slot_fields version 0 0 (replicate 32 0) (replicate 32 0) (replicate 24 0))
unfolding write overwrite slot_fields
version_written version = refl

pub slot_to_bytes-slot_bytes :
    (checksum : List ℕ → ℕ) (h : TransactionHeader)
    → h.version ≡ file_format_version3
    → slot_to_bytes checksum h ≡ ok (slot_bytes checksum h)
unfolding slot_to_bytes slot_bytes covered_of
slot_to_bytes-slot_bytes checksum h version =
    let u = length-field_of h.user_root in
    let s = length-field_of h.system_root in
    let id = to_le 8 h.transaction_id in
    let l = length-to_le 8 h.transaction_id in
    let current : (h.version == file_format_version3) ≡ true = ground arith in
    rw
      (
        current,
        version_written h.version,
        write_user h.user_root h.version (replicate 32 0) (replicate 24 0),
        write_system h.version (flag_of h.user_root) 0 (field_of h.user_root) u h.system_root
            (replicate 24 0),
        write_id h.version (flag_of h.user_root) (flag_of h.system_root) (field_of h.user_root) u
            (field_of h.system_root) s id l,
        take_covered h.version (flag_of h.user_root) (flag_of h.system_root) (field_of h.user_root)
            u (field_of h.system_root) s id (replicate 16 0) l,
      )
      (write_checksum h.version (flag_of h.user_root) (flag_of h.system_root) (field_of h.user_root)
        u (field_of h.system_root) s id (to_le 16 (checksum (covered_of h))) l
        (length-to_le 16 (checksum (covered_of h))))

read_root-field_of :
    (flag offset : ℕ) (bytes : List ℕ) (o : Option BtreeHeader)
    → IsRoots o
    → get_elem? bytes flag ≡ some (flag_of o)
    → slice offset 32 bytes ≡ ok (field_of o)
    → read_root flag offset bytes ≡ ok o
unfolding read_root flag_of field_of
read_root-field_of flag offset bytes none IsRoots.no_root f b = rw f refl
read_root-field_of flag offset bytes (some _) (IsRoots.a_root h fits) f b =
    rw (f, b, btree_from_le_bytes-root_fields h fits) refl

module _ (checksum : List ℕ → ℕ) (h : TransactionHeader) where
  version_read : get_elem? (slot_bytes checksum h) 0 ≡ some h.version
  unfolding slot_bytes slot_fields
  version_read = refl

  user_flag : get_elem? (slot_bytes checksum h) 1 ≡ some (flag_of h.user_root)
  unfolding slot_bytes slot_fields
  user_flag = refl

  system_flag : get_elem? (slot_bytes checksum h) 2 ≡ some (flag_of h.system_root)
  unfolding slot_bytes slot_fields
  system_flag = refl

-- The bytes of a slot are read back, and their checksum is right.
pub slot_from_bytes-slot_bytes :
    (checksum : List ℕ → ℕ) (h : TransactionHeader)
    → ((bytes : List ℕ) → checksum bytes < 256 ^ 16)
    → IsSlot h
    → slot_from_bytes checksum (slot_bytes checksum h) ≡ ok (inr (h, false))
unfolding slot_from_bytes slot_bytes covered_of
slot_from_bytes-slot_bytes checksum h fits s =
    let current = s.version in
    let old : ((h.version == 1) || (h.version == 2)) ≡ false = rw current refl in
    let known : (h.version == 3) ≡ true = rw current refl in
    let v = h.version in
    let uf = flag_of h.user_root in
    let sf = flag_of h.system_root in
    let u = length-field_of h.user_root in
    let y = length-field_of h.system_root in
    let id = to_le 8 h.transaction_id in
    let l = length-to_le 8 h.transaction_id in
    let sum = checksum (covered_of h) in
    let l' = length-to_le 16 sum in
    let bytes = id ++ to_le 16 sum in
    let user =
      read_root-field_of 1 8 (slot_bytes checksum h) h.user_root s.user_root (user_flag checksum h)
        (user_here v uf sf (field_of h.user_root) u (field_of h.system_root) y bytes) in
    let system =
      read_root-field_of 2 40 (slot_bytes checksum h) h.system_root s.system_root
        (system_flag checksum h)
        (system_here v uf sf (field_of h.user_root) u (field_of h.system_root) y bytes) in
    let right : (sum == sum) ≡ true = ground arith in
    rw
      (
        version_read checksum h,
        old,
        known,
        read_checksum v uf sf (field_of h.user_root) u (field_of h.system_root) y id (to_le 16 sum)
            l l',
        take_covered v uf sf (field_of h.user_root) u (field_of h.system_root) y id (to_le 16 sum)
            l,
        user,
        system,
        read_id v uf sf (field_of h.user_root) u (field_of h.system_root) y id (to_le 16 sum) l,
        from_le-to_le 8 h.transaction_id s.transaction_id,
        from_le-to_le 16 sum (fits (covered_of h)),
        right,
      )
      refl

-- With a checksum of 128 bits, a slot of the current format whose fields fit their bytes is written
-- without a panic, and what is read back is the slot, with a checksum that matches.
pub slot_from_bytes-slot_to_bytes :
    (checksum : List ℕ → ℕ) (h : TransactionHeader)
    → ((bytes : List ℕ) → checksum bytes < 256 ^ 16)
    → IsSlot h
    → (slot_to_bytes checksum h >>= slot_from_bytes checksum) ≡ ok (inr (h, false))
slot_from_bytes-slot_to_bytes checksum h fits s =
    rw (slot_to_bytes-slot_bytes checksum h s.version)
      (slot_from_bytes-slot_bytes checksum h fits s)
