-- ===== src/Savepoint/RoundTrip.antt =====
-- The stored bytes of a savepoint of src/tree_store/page_store/savepoint.rs, read back.
use redbx.Prelude.{
  ℕ, suc, ◌+◌, ◌^◌, ◌<◌, ◌≡◌, refl, ap, ◌∙◌, List, ◌∷◌, ◌++◌, arith, length, Outcome, ok, ◌>>=◌,
  replicate, Option, none, some, get_elem?, true, false, ◌==◌,
}
use redbx.Prelude.Bytes.{to_le, slice, skip_bytes, length-to_le, from_le-to_le}
use redbx.Prelude.Fields.{slice-here, slice-last, slice-skip, get_elem?-skip}
use redbx.Header.Slot.{BtreeHeader, file_format_version3}
use redbx.Header.Slot.Roots.{
  IsRoots, root_fields, length-append, length-root_fields, btree_to_le_bytes-root_fields,
  btree_from_le_bytes-root_fields,
}
use redbx.Savepoint.{Savepoint, from_savepoint, to_savepoint, root_bytes, set_persistent}

-- A savepoint that can be stored: of the current format, with fields that fit.
pub record IsStorable (s : Savepoint) : Type 0 where
  pub version : s.version ≡ file_format_version3
  pub id : s.id < 256 ^ 8
  pub transaction_id : s.transaction_id < 256 ^ 8
  pub user_root : IsRoots s.user_root

-- The bytes after the two numbers.
tail_of : Option BtreeHeader → List ℕ
tail_of none = 0 ∷ replicate 32 0
tail_of (some h) = 1 ∷ root_fields h

root_bytes-tail_of : (o : Option BtreeHeader) → root_bytes o ≡ ok (tail_of o)
unfolding root_bytes tail_of
root_bytes-tail_of none = refl
root_bytes-tail_of (some h) = rw (btree_to_le_bytes-root_fields h) refl

length-tail_of : (o : Option BtreeHeader) → length (tail_of o) ≡ 33
unfolding tail_of
length-tail_of none = refl
length-tail_of (some h) = ap suc (length-root_fields h)

stored : Savepoint → List ℕ
stored s = s.version ∷ (to_le 8 s.id ++ (to_le 8 s.transaction_id ++ tail_of s.user_root))

from_savepoint-stored : (s : Savepoint) → IsStorable s → from_savepoint s ≡ ok (stored s)
unfolding from_savepoint stored
from_savepoint-stored s h =
    let version = h.version in
    let current : (s.version == file_format_version3) ≡ true = ground arith in
    rw (current, root_bytes-tail_of s.user_root) refl

length-stored : (s : Savepoint) → length (stored s) ≡ 50
unfolding stored
length-stored s = omega (
  arith,
  length-append (to_le 8 s.id) (to_le 8 s.transaction_id ++ tail_of s.user_root),
  length-append (to_le 8 s.transaction_id) (tail_of s.user_root),
  length-to_le 8 s.id,
  length-to_le 8 s.transaction_id,
  length-tail_of s.user_root,
)

module _ (s : Savepoint) where
  skip_two :
      (k w : ℕ)
      → slice (8 + (8 + k)) w (to_le 8 s.id ++ (to_le 8 s.transaction_id ++ tail_of s.user_root))
        ≡ slice k w (tail_of s.user_root)
  skip_two k w =
      slice-skip (to_le 8 s.id) (to_le 8 s.transaction_id ++ tail_of s.user_root) (8 + k) w
        (length-to_le 8 s.id)
      ∙ slice-skip (to_le 8 s.transaction_id) (tail_of s.user_root) k w
          (length-to_le 8 s.transaction_id)

  read_id : slice 1 8 (stored s) ≡ ok (to_le 8 s.id)
  unfolding stored slice skip_bytes
  read_id =
      slice-here (to_le 8 s.id) (to_le 8 s.transaction_id ++ tail_of s.user_root)
        (length-to_le 8 s.id)

  read_transaction_id : slice 9 8 (stored s) ≡ ok (to_le 8 s.transaction_id)
  unfolding stored slice skip_bytes
  read_transaction_id =
      slice-skip (to_le 8 s.id) (to_le 8 s.transaction_id ++ tail_of s.user_root) 0 8
        (length-to_le 8 s.id)
      ∙ slice-here (to_le 8 s.transaction_id) (tail_of s.user_root)
          (length-to_le 8 s.transaction_id)

  read_flag : get_elem? (stored s) 17 ≡ get_elem? (tail_of s.user_root) 0
  unfolding stored
  read_flag =
      get_elem?-skip (to_le 8 s.id) (to_le 8 s.transaction_id ++ tail_of s.user_root) 8
        (length-to_le 8 s.id)
      ∙ get_elem?-skip (to_le 8 s.transaction_id) (tail_of s.user_root) 0
          (length-to_le 8 s.transaction_id)

  read_root : slice 18 32 (stored s) ≡ slice 1 32 (tail_of s.user_root)
  unfolding stored slice skip_bytes
  read_root = skip_two 1 32

root_here : (h : BtreeHeader) → slice 1 32 (1 ∷ root_fields h) ≡ ok (root_fields h)
unfolding slice skip_bytes
root_here h = slice-last (root_fields h) (length-root_fields h)

version_here : (s : Savepoint) → get_elem? (stored s) 0 ≡ some s.version
unfolding stored
version_here s = refl

with_root : Savepoint → Option BtreeHeader → Outcome Savepoint
with_root s o = ok (record s { user_root = o; ephemeral = false })

to_savepoint-stored :
    (s : Savepoint) (o : Option BtreeHeader)
    → s.user_root ≡ o
    → IsStorable s
    → IsRoots o
    → to_savepoint (stored s) ≡ with_root s o
unfolding to_savepoint with_root tail_of
to_savepoint-stored s none e h IsRoots.no_root =
    let version = h.version in
    let current : (s.version == file_format_version3) ≡ true = ground arith in
    let flag : get_elem? (stored s) 17 ≡ some 0 =
      read_flag s ∙ ap (λ o. get_elem? (tail_of o) 0) e in
    rw
      (
        version_here s,
        current,
        read_id s,
        read_transaction_id s,
        flag,
        length-stored s,
        from_le-to_le 8 s.id h.id,
        from_le-to_le 8 s.transaction_id h.transaction_id,
      )
      refl
to_savepoint-stored s (some _) e h (IsRoots.a_root root fits) =
    let version = h.version in
    let current : (s.version == file_format_version3) ≡ true = ground arith in
    let flag : get_elem? (stored s) 17 ≡ some 1 =
      read_flag s ∙ ap (λ o. get_elem? (tail_of o) 0) e in
    let bytes : slice 18 32 (stored s) ≡ ok (root_fields root) =
      read_root s ∙ ap (λ o. slice 1 32 (tail_of o)) e ∙ root_here root in
    rw
      (
        version_here s,
        current,
        read_id s,
        read_transaction_id s,
        flag,
        bytes,
        btree_from_le_bytes-root_fields root fits,
        length-stored s,
        from_le-to_le 8 s.id h.id,
        from_le-to_le 8 s.transaction_id h.transaction_id,
      )
      refl

-- A savepoint of the current format, with numbers and a root that fit their bytes, is stored without
-- a panic, and the stored bytes give it back as a persistent savepoint.
pub to_savepoint-from_savepoint :
    (s : Savepoint) → IsStorable s → (from_savepoint s >>= to_savepoint) ≡ ok (set_persistent s)
unfolding with_root set_persistent
to_savepoint-from_savepoint s h =
    rw (from_savepoint-stored s h) (to_savepoint-stored s s.user_root refl h h.user_root)
