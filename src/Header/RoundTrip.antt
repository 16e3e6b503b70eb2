-- ===== src/Header/RoundTrip.antt =====
-- The stored bytes of the database header of src/tree_store/page_store/header.rs, read back.
use Prim.Native.Nat.{bit_and, bit_or}
use redbx.Prelude.{
  ℕ, zero, suc, ◌^◌, ◌<◌, ◌≤◌, ◌≡◌, refl, List, [], ◌∷◌, ◌++◌, arith, length, ok, ◌>>=◌, replicate,
  some, get_elem?, Bool, true, false, not, ◌==◌, inr, if◌then◌else◌, ltb,
}
use redbx.Prelude.Bytes.{to_le, write, overwrite, length-to_le, from_le-to_le}
use redbx.Header.{DatabaseHeader, magicnumber, god_byte, to_bytes, from_bytes, get_u32, same_bytes}
use redbx.Header.Slot.RoundTrip.{
  IsSlot, slot_bytes, length-slot_bytes, slot_to_bytes-slot_bytes, slot_from_bytes-slot_bytes,
}
use redbx.Header.Fields.{
  Parts, IsLaidOut, blank, parts_bytes, after_sizes, after_salt, read_magic, read_page_size,
  read_header_pages, read_data_pages, read_full_regions, read_trailing_pages, read_salt, read_slot0,
  read_slot1,
}
use redbx.Header.Writes.{
  write_page_size, write_header_pages, write_data_pages, write_full_regions, write_trailing_pages,
  write_salt, write_slot0, write_slot1,
}

-- A header whose fields fit their bytes.
pub record IsHeader (h : DatabaseHeader) : Type 0 where
  pub primary : h.primary ≤ 1
  pub page_size : h.page_size < 256 ^ 4
  pub header_pages : h.region_header_pages < 256 ^ 4
  pub data_pages : h.region_max_data_pages < 256 ^ 4
  pub full_regions : h.full_regions < 256 ^ 4
  pub trailing_pages : h.trailing_partial_region_pages < 256 ^ 4
  pub salt : length h.salt ≡ 16
  pub slot0 : IsSlot h.slot0
  pub slot1 : IsSlot h.slot1

parts : (List ℕ → ℕ) → DatabaseHeader → Parts
parts checksum h = record {
  god = god_byte h;
  page_size = to_le 4 h.page_size;
  header_pages = to_le 4 h.region_header_pages;
  data_pages = to_le 4 h.region_max_data_pages;
  full_regions = to_le 4 h.full_regions;
  trailing_pages = to_le 4 h.trailing_partial_region_pages;
  salt = h.salt;
  slot0 = slot_bytes checksum h.slot0;
  slot1 = slot_bytes checksum h.slot1;
}

magic_written : write 0 magicnumber (replicate 336 0) ≡ ok (magicnumber ++ replicate 327 0)
unfolding write overwrite
magic_written = refl

god_written :
    (god : ℕ) → write 9 (god ∷ []) (magicnumber ++ replicate 327 0) ≡ ok (parts_bytes (blank god))
unfolding write overwrite parts_bytes after_sizes after_salt
god_written god = refl

laid_out :
    (p : Parts)
    → length p.page_size ≡ 4
    → length p.header_pages ≡ 4
    → length p.data_pages ≡ 4
    → length p.full_regions ≡ 4
    → length p.trailing_pages ≡ 4
    → length p.salt ≡ 16
    → length p.slot0 ≡ 128
    → length p.slot1 ≡ 128
    → IsLaidOut p
laid_out p a b c d e f g h = record {
  page_size = a;
  header_pages = b;
  data_pages = c;
  full_regions = d;
  trailing_pages = e;
  salt = f;
  slot0 = g;
  slot1 = h;
}

parts-IsLaidOut :
    (checksum : List ℕ → ℕ) (h : DatabaseHeader) → IsHeader h → IsLaidOut (parts checksum h)
unfolding parts
parts-IsLaidOut checksum h w =
    laid_out _ (length-to_le 4 h.page_size) (length-to_le 4 h.region_header_pages)
      (length-to_le 4 h.region_max_data_pages) (length-to_le 4 h.full_regions)
      (length-to_le 4 h.trailing_partial_region_pages) w.salt (length-slot_bytes checksum h.slot0)
      (length-slot_bytes checksum h.slot1)

-- The writes, one after another, lay the parts side by side.
to_bytes-parts :
    (checksum : List ℕ → ℕ) (h : DatabaseHeader)
    → IsHeader h
    → to_bytes checksum h true ≡ ok (parts_bytes (parts checksum h))
unfolding to_bytes parts
to_bytes-parts checksum h w =
    let small = w.primary in
    let byte : ltb h.primary 256 ≡ true = ground arith in
    let a = length-to_le 4 h.page_size in
    let b = length-to_le 4 h.region_header_pages in
    let c = length-to_le 4 h.region_max_data_pages in
    let d = length-to_le 4 h.full_regions in
    let e = length-to_le 4 h.trailing_partial_region_pages in
    let s0 = length-slot_bytes checksum h.slot0 in
    let p0 = blank (god_byte h) in
    let p1 : Parts = record p0 { page_size = to_le 4 h.page_size } in
    let p2 : Parts = record p1 { header_pages = to_le 4 h.region_header_pages } in
    let p3 : Parts = record p2 { data_pages = to_le 4 h.region_max_data_pages } in
    let p4 : Parts = record p3 { full_regions = to_le 4 h.full_regions } in
    let p5 : Parts = record p4 { trailing_pages = to_le 4 h.trailing_partial_region_pages } in
    let p6 : Parts = record p5 { salt = h.salt } in
    let p7 : Parts = record p6 { slot0 = slot_bytes checksum h.slot0 } in
    rw
      (
        magic_written,
        byte,
        god_written (god_byte h),
        write_page_size p0 (laid_out p0 refl refl refl refl refl refl refl refl) p1.page_size a,
        write_header_pages p1 (laid_out p1 a refl refl refl refl refl refl refl) p2.header_pages b,
        write_data_pages p2 (laid_out p2 a b refl refl refl refl refl refl) p3.data_pages c,
        write_full_regions p3 (laid_out p3 a b c refl refl refl refl refl) p4.full_regions d,
        write_trailing_pages p4 (laid_out p4 a b c d refl refl refl refl) p5.trailing_pages e,
        write_salt p5 (laid_out p5 a b c d e refl refl refl) h.salt w.salt,
        slot_to_bytes-slot_bytes checksum h.slot0 w.slot0.version,
        write_slot0 p6 (laid_out p6 a b c d e w.salt refl refl) p7.slot0 s0,
        slot_to_bytes-slot_bytes checksum h.slot1 w.slot1.version,
      )
      (write_slot1 p7 (laid_out p7 a b c d e w.salt s0 refl) (slot_bytes checksum h.slot1)
        (length-slot_bytes checksum h.slot1))

-- The god byte keeps the slot and the two flags.
god_of : ℕ → Bool → Bool → ℕ
god_of primary recovery commit =
    let flagged = if recovery then bit_or primary 2 else primary in
    bit_or (if commit then bit_or flagged 4 else flagged) 8

god_byte-god_of :
    (h : DatabaseHeader) → god_byte h ≡ god_of h.primary h.recovery_required h.two_phase_commit
unfolding god_byte god_of
god_byte-god_of h = refl

record IsGod (god primary : ℕ) (recovery commit : Bool) : Type 0 where
  slot : (if bit_and god 1 == 0 then 0 else 1) ≡ primary
  recovery_flag : not (bit_and god 2 == 0) ≡ recovery
  commit_flag : not (bit_and god 4 == 0) ≡ commit

god_of-IsGod :
    (primary : ℕ) (recovery commit : Bool)
    → primary ≤ 1
    → IsGod (god_of primary recovery commit) primary recovery commit
unfolding god_of
god_of-IsGod zero true true le = record { slot = refl; recovery_flag = refl; commit_flag = refl }
god_of-IsGod zero true false le = record { slot = refl; recovery_flag = refl; commit_flag = refl }
god_of-IsGod zero false true le = record { slot = refl; recovery_flag = refl; commit_flag = refl }
god_of-IsGod zero false false le = record { slot = refl; recovery_flag = refl; commit_flag = refl }
god_of-IsGod (suc zero) true true le = record {
  slot = refl;
  recovery_flag = refl;
  commit_flag = refl;
}
god_of-IsGod (suc zero) true false le = record {
  slot = refl;
  recovery_flag = refl;
  commit_flag = refl;
}
god_of-IsGod (suc zero) false true le = record {
  slot = refl;
  recovery_flag = refl;
  commit_flag = refl;
}
god_of-IsGod (suc zero) false false le = record {
  slot = refl;
  recovery_flag = refl;
  commit_flag = refl;
}
god_of-IsGod (suc (suc i)) recovery commit le = absurd (omega arith)

either_false : (b : Bool) → (if b then false else false) ≡ false
either_false true = refl
either_false false = refl

same_magic : same_bytes magicnumber magicnumber ≡ true
unfolding same_bytes
same_magic = refl

god_read : (p : Parts) → get_elem? (parts_bytes p) 9 ≡ some p.god
unfolding parts_bytes
god_read p = refl

-- The bytes of the parts are read back field by field.
from_bytes-parts :
    (checksum : List ℕ → ℕ) (h : DatabaseHeader)
    → ((bytes : List ℕ) → checksum bytes < 256 ^ 16)
    → IsHeader h
    → from_bytes checksum (parts_bytes (parts checksum h))
      ≡ ok (
          inr (
            h,
            record {
              invalid_magic_number = false;
              primary_corrupted = false;
              secondary_corrupted = false;
            },
          ))
unfolding from_bytes get_u32 parts
from_bytes-parts checksum h fits w =
    let p = parts checksum h in
    let l = parts-IsLaidOut checksum h w in
    let g = god_of-IsGod h.primary h.recovery_required h.two_phase_commit w.primary in
    rw
      (
        read_magic p l,
        god_read p,
        read_page_size p l,
        read_header_pages p l,
        read_data_pages p l,
        read_full_regions p l,
        read_trailing_pages p l,
        read_salt p l,
        read_slot0 p l,
        slot_from_bytes-slot_bytes checksum h.slot0 fits w.slot0,
        read_slot1 p l,
        slot_from_bytes-slot_bytes checksum h.slot1 fits w.slot1,
        same_magic,
        god_byte-god_of h,
        g.slot,
        g.recovery_flag,
        g.commit_flag,
        from_le-to_le 4 h.page_size w.page_size,
        from_le-to_le 4 h.region_header_pages w.header_pages,
        from_le-to_le 4 h.region_max_data_pages w.data_pages,
        from_le-to_le 4 h.full_regions w.full_regions,
        from_le-to_le 4 h.trailing_partial_region_pages w.trailing_pages,
        either_false (h.primary == 0),
      )
      refl

-- With a checksum of 128 bits, a header whose primary is slot 0 or 1 and whose fields fit their bytes is
-- written without a panic, and what is read back is the header, with the magic number in place and
-- neither slot corrupted.
pub from_bytes-to_bytes :
    (checksum : List ℕ → ℕ) (h : DatabaseHeader)
    → ((bytes : List ℕ) → checksum bytes < 256 ^ 16)
    → IsHeader h
    → (to_bytes checksum h true >>= from_bytes checksum)
      ≡ ok (
          inr (
            h,
            record {
              invalid_magic_number = false;
              primary_corrupted = false;
              secondary_corrupted = false;
            },
          ))
from_bytes-to_bytes checksum h fits w =
    rw (to_bytes-parts checksum h w) (from_bytes-parts checksum h fits w)
