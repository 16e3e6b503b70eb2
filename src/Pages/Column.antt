-- ===== src/Pages/Column.antt =====
-- What the pages of src/tree_store/btree_base.rs share: 32-bit end offsets, which stand in a page when
-- the entries have no fixed size, and columns of entries.
use redbx.Prelude.{
  ℕ, zero, suc, ◌+◌, ◌*◌, ◌≡◌, List, [], ◌∷◌, ◌++◌, Option, none, some, Outcome, ok, panic, length,
  ◌>>=◌, unwrap, if◌then◌else◌, ltb,
}
use redbx.Prelude.Word.{to_u32}
use redbx.Prelude.Bytes.{to_le, from_le, slice, write}

-- `a?`
infixl 5 ◌>>?◌
abbrev pub ◌>>?◌ {ℓ κ} : {A : Type ℓ} {B : Type κ} → Option A → (A → Option B) → Option B
none >>? next = none
some a >>? next = next a

-- `page.get(offset..(offset + 4))?`, read as a 32-bit number.
abbrev pub number_read : Outcome (List ℕ) → Option ℕ
number_read panic = none
number_read (ok bytes) = some (from_le bytes)

unfoldable pub get_u32 : ℕ → List ℕ → Option ℕ
get_u32 offset page = number_read (slice offset 4 page)

-- `u16::try_from(n)`
abbrev pub to_u16 : ℕ → Option ℕ
to_u16 n = if ltb n 65536 then some n else none

-- The end offset of an entry, written where its column stores one.
unfoldable pub write_end : Option ℕ → ℕ → ℕ → List ℕ → Outcome (List ℕ)
write_end (some fixed) offset end page = ok page
write_end none offset end page = do stored ← unwrap (to_u32 end); write offset (to_le 4 stored) page

-- The bytes of `n` end offsets: four each, and none where the size is fixed.
abbrev pub pointers : Option ℕ → ℕ → ℕ
pointers none n = 4 * n
pointers (some fixed) n = 0

-- The bytes of all entries, one after the other.
abbrev pub flat : List (List ℕ) → List ℕ
flat [] = []
flat (x ∷ xs) = x ++ flat xs

-- The end offsets of entries that begin at `start`.
abbrev pub ends : ℕ → List (List ℕ) → List ℕ
ends start [] = []
ends start (x ∷ xs) = (start + length x) ∷ ends (start + length x) xs

-- End offsets as they are stored.
abbrev pub offsets : List ℕ → List ℕ
offsets [] = []
offsets (e ∷ es) = to_le 4 e ++ offsets es

-- The stored end offsets of a column: none where its entries have a fixed size.
abbrev pub column : Option ℕ → ℕ → List (List ℕ) → List ℕ
column none start xs = offsets (ends start xs)
column (some fixed) start xs = []

-- Every entry has the fixed size, where there is one.
abbrev pub Fits : Option ℕ → List (List ℕ) → Type 0
Fits fixed [] = Unit
Fits none (x ∷ xs) = Unit
Fits (some fixed) (x ∷ xs) = (length x ≡ fixed) × Fits (some fixed) xs

-- The bytes of the first `n` entries.
abbrev pub upto : ℕ → List (List ℕ) → ℕ
upto zero xs = 0
upto (suc n) [] = 0
upto (suc n) (x ∷ xs) = length x + upto n xs

-- An entry has the fixed size, where there is one.
abbrev pub Width : Option ℕ → List ℕ → Type 0
Width none x = Unit
Width (some fixed) x = length x ≡ fixed
