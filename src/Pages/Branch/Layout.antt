-- ===== src/Pages/Branch/Layout.antt =====
-- The layout of a branch page of src/tree_store/btree_base.rs, as its comment gives it.
use redbx.Prelude.{
  ℕ, zero, suc, ◌+◌, ◌*◌, ◌^◌, ◌<◌, ◌≡◌, subst, List, [], ◌∷◌, map, Option, some, length, get_elem?,
}
use redbx.Prelude.Bytes.{to_le, length-to_le}
use redbx.Prelude.Memory.{At}
use redbx.PageNumber.{PageNumber, to_le_bytes}
use redbx.PageNumber.RoundTrip.{IsPage}
use redbx.Pages.Column.{pointers, flat, column, Fits}
use redbx.Pages.Branch.Raw.{branch, Child}

-- The stored checksums and the stored page numbers of children.
abbrev pub checksums : List Child → List (List ℕ)
checksums children = map (λ c. to_le 16 c.1) children

abbrev pub numbers : List Child → List (List ℕ)
numbers children = map (λ c. to_le_bytes c.0) children

-- The numbers fit their bytes.
abbrev pub IsChild : Child → Type 0
IsChild c = IsPage c.0 × (c.1 < 256 ^ 16)

abbrev pub AllChildren : List Child → Type 0
AllChildren [] = Unit
AllChildren (c ∷ cs) = IsChild c × AllChildren cs

-- Where the keys begin, on a page of `n` keys.
abbrev pub section : Option ℕ → ℕ → ℕ
section fk n = 8 + 24 * (n + 1) + pointers fk n

-- A page with room for `n` keys holds these keys and children as its first.
pub record Holds (page : List ℕ) (fk : Option ℕ) (n : ℕ) (keys : List (List ℕ))
    (children : List Child) : Type 0 where
  pub kind : At page 0 (branch ∷ [])
  pub count : At page 2 (to_le 2 n)
  pub few : n < 65536
  pub sums : At page 8 (flat (checksums children))
  pub pages : At page (8 + 16 * (n + 1)) (flat (numbers children))
  pub key_ends : At page (8 + 24 * (n + 1)) (column fk (section fk n) keys)
  pub key_data : At page (section fk n) (flat keys)
  pub key_fits : Fits fk keys
  pub small : section fk n + length (flat keys) < 2 ^ 32

-- The page is a branch page of exactly these keys and children, one child more than keys.
pub record IsBranch (page : List ℕ) (fk : Option ℕ) (keys : List (List ℕ)) (children : List Child)
    : Type 0 where
  pub holds : Holds page fk (length keys) keys children
  pub one_more : length children ≡ length keys + 1
  pub fits : AllChildren children

pub Fits-checksums : (cs : List Child) → Fits (some 16) (checksums cs)
Fits-checksums [] = tt
Fits-checksums (c ∷ cs) = (length-to_le 16 c.1, Fits-checksums cs)

pub length-to_le_bytes : (p : PageNumber) → length (to_le_bytes p) ≡ 8
unfolding to_le_bytes
length-to_le_bytes p = length-to_le 8 _

pub Fits-numbers : (cs : List Child) → Fits (some 8) (numbers cs)
Fits-numbers [] = tt
Fits-numbers (c ∷ cs) = (length-to_le_bytes c.0, Fits-numbers cs)

pub AllChildren-get :
    (cs : List Child) (i : ℕ) {c : Child} → AllChildren cs → get_elem? cs i ≡ some c → IsChild c
AllChildren-get [] i a e = cc
AllChildren-get (d ∷ cs) zero {c} a e = let same : d ≡ c = cc in subst IsChild same a.0
AllChildren-get (d ∷ cs) (suc i) a e = AllChildren-get cs i a.1 e
