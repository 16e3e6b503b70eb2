-- ===== src/Header/Slot/Fields.antt =====
-- The fields of a commit slot of src/tree_store/page_store/header.rs side by side: writing and reading
-- each of them.
use redbx.Prelude.{
  ℕ, ◌+◌, ◌≡◌, refl, ap, sym, ◌∙◌, List, [], ◌∷◌, ◌++◌, arith, length, ok, replicate, Option, none,
  some,
}
use redbx.Prelude.Bytes.{slice, skip_bytes, take_bytes, write, overwrite, take_bytes-append}
use redbx.Prelude.Fields.{slice-here, slice-last, slice-skip, write-here, write-last, write-skip}
use redbx.Header.Slot.{BtreeHeader, write_root}
use redbx.Header.Slot.Roots.{
  root_fields, length-append, length-root_fields, btree_to_le_bytes-root_fields,
}

unfoldable pub flag_of : Option BtreeHeader → ℕ
flag_of none = 0
flag_of (some h) = 1

unfoldable pub field_of : Option BtreeHeader → List ℕ
field_of none = replicate 32 0
field_of (some h) = root_fields h

pub length-field_of : (o : Option BtreeHeader) → length (field_of o) ≡ 32
unfolding field_of
length-field_of none = refl
length-field_of (some h) = length-root_fields h

-- The bytes of a slot around its three flags and roots, ending with `rest`.
unfoldable pub slot_fields : ℕ → ℕ → ℕ → List ℕ → List ℕ → List ℕ → List ℕ
slot_fields version user system user_field system_field rest =
    version
    ∷ user
    ∷ system
    ∷ 0
    ∷ 0
    ∷ 0
    ∷ 0
    ∷ 0
    ∷ (user_field ++ (system_field ++ (replicate 32 0 ++ rest)))

pub write_user :
    (o : Option BtreeHeader) (version : ℕ) (system_field rest : List ℕ)
    → write_root 1 8 o (slot_fields version 0 0 (replicate 32 0) system_field rest)
      ≡ ok (slot_fields version (flag_of o) 0 (field_of o) system_field rest)
unfolding write_root slot_fields write overwrite flag_of field_of
write_user none version system_field rest = refl
write_user (some h) version system_field rest =
    rw
      (
        btree_to_le_bytes-root_fields h,
        write-here (root_fields h) (replicate 32 0) (system_field ++ (replicate 32 0 ++ rest))
            (sym (length-root_fields h)),
      )
      refl

pub append_assoc : (xs ys zs : List ℕ) → (xs ++ ys) ++ zs ≡ xs ++ (ys ++ zs)
append_assoc [] ys zs = refl
append_assoc (x ∷ xs) ys zs = ap (λ t. x ∷ t) (append_assoc xs ys zs)

module _ (version user system : ℕ) (user_field : List ℕ) (e : length user_field ≡ 32) where
  pub write_system :
      (o : Option BtreeHeader) (rest : List ℕ)
      → write_root 2 40 o (slot_fields version user 0 user_field (replicate 32 0) rest)
        ≡ ok (slot_fields version user (flag_of o) user_field (field_of o) rest)
  unfolding write_root slot_fields write overwrite flag_of field_of
  write_system none rest = refl
  write_system (some h) rest =
      rw
        (
          btree_to_le_bytes-root_fields h,
          write-skip user_field (replicate 32 0 ++ (replicate 32 0 ++ rest)) (root_fields h) 0 e (
              write-here (root_fields h) (replicate 32 0) (replicate 32 0 ++ rest)
                (sym (length-root_fields h))),
        )
        refl

  module _ (system_field : List ℕ) (e' : length system_field ≡ 32) where
    abbrev pub fields : List ℕ → List ℕ
    fields = slot_fields version user system user_field system_field

    pub write_id :
        (id : List ℕ)
        → length id ≡ 8
        → write 104 id (fields (replicate 24 0)) ≡ ok (fields (id ++ replicate 16 0))
    unfolding slot_fields write
    write_id id h =
        rw
          (write-skip user_field (system_field ++ (replicate 32 0 ++ replicate 24 0)) id 64 e (
            write-skip system_field (replicate 32 0 ++ replicate 24 0) id 32 e' (
              write-skip (replicate 32 0) (replicate 24 0) id 0 refl
                (write-here id (replicate 8 0) (replicate 16 0) (sym h)))))
          refl

    length-fields : (id : List ℕ) → length id ≡ 8 → length (fields id) ≡ 112
    unfolding slot_fields
    length-fields id h = omega (
      arith,
      length-append user_field (system_field ++ (replicate 32 0 ++ id)),
      length-append system_field (replicate 32 0 ++ id),
      e,
      e',
      h,
    )

    fields-append : (id post : List ℕ) → fields (id ++ post) ≡ fields id ++ post
    unfolding slot_fields
    fields-append id post =
        ap (λ t. version ∷ user ∷ system ∷ 0 ∷ 0 ∷ 0 ∷ 0 ∷ 0 ∷ t)
          (ap (λ t. user_field ++ t) (sym (append_assoc system_field (replicate 32 0 ++ id) post))
            ∙ sym (append_assoc user_field (system_field ++ (replicate 32 0 ++ id)) post))

    pub take_covered :
        (id post : List ℕ) → length id ≡ 8 → take_bytes 112 (fields (id ++ post)) ≡ ok (fields id)
    take_covered id post h =
        ap (take_bytes 112) (fields-append id post)
        ∙ ap (λ n. take_bytes n (fields id ++ post)) (sym (length-fields id h))
        ∙ take_bytes-append (fields id) post

    pub write_checksum :
        (id checksum : List ℕ)
        → length id ≡ 8
        → length checksum ≡ 16
        → write 112 checksum (fields (id ++ replicate 16 0)) ≡ ok (fields (id ++ checksum))
    write_checksum id checksum h h' =
        ap (write 112 checksum) (fields-append id (replicate 16 0))
        ∙ write-skip (fields id) (replicate 16 0) checksum 0 (length-fields id h)
            (write-last checksum (replicate 16 0) (sym h'))
        ∙ ap ok (sym (fields-append id checksum))

    read_fields :
        (a b : List ℕ) (k w : ℕ)
        → slice (8 + (32 + (32 + (32 + k)))) w (fields (a ++ b)) ≡ slice k w (a ++ b)
    unfolding slot_fields slice skip_bytes
    read_fields a b k w =
        slice-skip (version ∷ user ∷ system ∷ 0 ∷ 0 ∷ 0 ∷ 0 ∷ 0 ∷ [])
          (user_field ++ (system_field ++ (replicate 32 0 ++ (a ++ b)))) (32 + (32 + (32 + k))) w
          refl
        ∙ slice-skip user_field (system_field ++ (replicate 32 0 ++ (a ++ b))) (32 + (32 + k)) w e
        ∙ slice-skip system_field (replicate 32 0 ++ (a ++ b)) (32 + k) w e'
        ∙ slice-skip (replicate 32 0) (a ++ b) k w refl

    pub read_id :
        (id checksum : List ℕ) → length id ≡ 8 → slice 104 8 (fields (id ++ checksum)) ≡ ok id
    read_id id checksum h = read_fields id checksum 0 8 ∙ slice-here id checksum h

    pub read_checksum :
        (id checksum : List ℕ)
        → length id ≡ 8
        → length checksum ≡ 16
        → slice 112 16 (fields (id ++ checksum)) ≡ ok checksum
    read_checksum id checksum h h' =
        read_fields id checksum 8 16 ∙ slice-skip id checksum 0 16 h ∙ slice-last checksum h'

    pub user_here : (rest : List ℕ) → slice 8 32 (fields rest) ≡ ok user_field
    unfolding slot_fields slice skip_bytes
    user_here rest = slice-here user_field (system_field ++ (replicate 32 0 ++ rest)) e

    pub system_here : (rest : List ℕ) → slice 40 32 (fields rest) ≡ ok system_field
    unfolding slot_fields slice skip_bytes
    system_here rest =
        slice-skip user_field (system_field ++ (replicate 32 0 ++ rest)) 0 32 e
        ∙ slice-here system_field (replicate 32 0 ++ rest) e'
