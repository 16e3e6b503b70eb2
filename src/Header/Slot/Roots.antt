-- ===== src/Header/Slot/Roots.antt =====
-- The stored bytes of `BtreeHeader` of src/tree_store/btree_base.rs.
use redbx.Prelude.{
  ℕ, ◌+◌, ◌^◌, ◌<◌, ◌≡◌, refl, sym, ◌∙◌, List, [], ◌∷◌, ◌++◌, arith, length, ok, replicate, Option,
  none, some,
}
use redbx.Prelude.Bytes.{to_le, slice, write, length-to_le, from_le-to_le}
use redbx.Prelude.Fields.{slice-here, slice-last, slice-skip, write-here, write-last, write-skip}
use redbx.PageNumber.{to_le_bytes, packed}
use redbx.PageNumber.RoundTrip.{IsPage, from_le_bytes-to_le_bytes}
use redbx.Header.Slot.{BtreeHeader, btree_to_le_bytes, btree_from_le_bytes}

-- A header whose fields fit their bytes.
pub record IsRoot (h : BtreeHeader) : Type 0 where
  pub page : IsPage h.root
  pub checksum : h.checksum < 256 ^ 16
  pub length_fits : h.length < 256 ^ 8

-- A root, if there is one, fits its bytes.
pub data IsRoots : Option BtreeHeader → Type 0 where
  no_root : IsRoots none
  a_root : (h : BtreeHeader) → IsRoot h → IsRoots (some h)

-- The fields side by side.
unfoldable pub root_fields : BtreeHeader → List ℕ
root_fields h = to_le_bytes h.root ++ (to_le 16 h.checksum ++ to_le 8 h.length)

pub length-append : (xs ys : List ℕ) → length (xs ++ ys) ≡ length xs + length ys
length-append [] ys = omega arith
length-append (x ∷ xs) ys = omega (arith, length-append xs ys)

length-page : (h : BtreeHeader) → length (to_le_bytes h.root) ≡ 8
unfolding to_le_bytes
length-page h = length-to_le 8 (packed h.root)

pub length-root_fields : (h : BtreeHeader) → length (root_fields h) ≡ 32
unfolding root_fields
length-root_fields h = omega (
  arith,
  length-append (to_le_bytes h.root) (to_le 16 h.checksum ++ to_le 8 h.length),
  length-append (to_le 16 h.checksum) (to_le 8 h.length),
  length-page h,
  length-to_le 16 h.checksum,
  length-to_le 8 h.length,
)

-- The three writes lay the fields side by side.
pub btree_to_le_bytes-root_fields : (h : BtreeHeader) → btree_to_le_bytes h ≡ ok (root_fields h)
unfolding btree_to_le_bytes root_fields
btree_to_le_bytes-root_fields h =
    let root : write 0 (to_le_bytes h.root) (replicate 32 0)
        ≡ ok (to_le_bytes h.root ++ replicate 24 0) =
      write-here (to_le_bytes h.root) (replicate 8 0) (replicate 24 0) (sym (length-page h)) in
    let checksum : write 8 (to_le 16 h.checksum) (to_le_bytes h.root ++ replicate 24 0)
        ≡ ok (to_le_bytes h.root ++ (to_le 16 h.checksum ++ replicate 8 0)) =
      write-skip (to_le_bytes h.root) (replicate 24 0) (to_le 16 h.checksum) 0 (length-page h) (
        write-here (to_le 16 h.checksum) (replicate 16 0) (replicate 8 0)
          (sym (length-to_le 16 h.checksum))) in
    let number : write 24 (to_le 8 h.length)
          (to_le_bytes h.root ++ (to_le 16 h.checksum ++ replicate 8 0))
        ≡ ok (to_le_bytes h.root ++ (to_le 16 h.checksum ++ to_le 8 h.length)) =
      write-skip (to_le_bytes h.root) (to_le 16 h.checksum ++ replicate 8 0) (to_le 8 h.length) 16
        (length-page h)
        (write-skip (to_le 16 h.checksum) (replicate 8 0) (to_le 8 h.length) 0
          (length-to_le 16 h.checksum)
          (write-last (to_le 8 h.length) (replicate 8 0) (sym (length-to_le 8 h.length)))) in
    rw (root, checksum, number) refl

pub btree_from_le_bytes-root_fields :
    (h : BtreeHeader) → IsRoot h → btree_from_le_bytes (root_fields h) ≡ ok h
unfolding btree_from_le_bytes root_fields
btree_from_le_bytes-root_fields h fits =
    let page = to_le_bytes h.root in
    let check = to_le 16 h.checksum in
    let number = to_le 8 h.length in
    let root : slice 0 8 (page ++ (check ++ number)) ≡ ok page =
      slice-here page (check ++ number) (length-page h) in
    let checksum : slice 8 16 (page ++ (check ++ number)) ≡ ok check =
      slice-skip page (check ++ number) 0 16 (length-page h)
      ∙ slice-here check number (length-to_le 16 h.checksum) in
    let len : slice 24 8 (page ++ (check ++ number)) ≡ ok number =
      slice-skip page (check ++ number) 16 8 (length-page h)
      ∙ slice-skip check number 0 8 (length-to_le 16 h.checksum)
      ∙ slice-last number (length-to_le 8 h.length) in
    rw
      (
        root,
        from_le_bytes-to_le_bytes h.root fits.page,
        checksum,
        len,
        from_le-to_le 16 h.checksum fits.checksum,
        from_le-to_le 8 h.length fits.length_fits,
      )
      refl
