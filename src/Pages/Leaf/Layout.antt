-- ===== src/Pages/Leaf/Layout.antt =====
-- The layout of a leaf page of src/tree_store/btree_base.rs, as its comment gives it.
use redbx.Prelude.{ℕ, ◌+◌, ◌^◌, ◌≤◌, ◌<◌, List, [], ◌∷◌, map, Option, length}
use redbx.Prelude.Bytes.{to_le}
use redbx.Prelude.Memory.{At}
use redbx.Pages.Column.{pointers, flat, column, Fits}

abbrev pub leaf : ℕ
leaf = 1

abbrev pub Entry : Type 0
Entry = List ℕ × List ℕ

abbrev pub keys : List Entry → List (List ℕ)
keys entries = map (λ e. e.0) entries

abbrev pub values : List Entry → List (List ℕ)
values entries = map (λ e. e.1) entries

-- Where the keys begin, with end offsets for `n` entries.
abbrev pub section : Option ℕ → Option ℕ → ℕ → ℕ
section key_size value_size n = 4 + pointers key_size n + pointers value_size n

-- A page with room for `n` entries and `key_bytes` bytes of keys holds these as its first entries.
pub record Holds (page : List ℕ) (key_size value_size : Option ℕ) (n key_bytes : ℕ)
    (entries : List Entry) : Type 0 where
  pub kind : At page 0 (leaf ∷ [])
  pub count : At page 2 (to_le 2 n)
  pub few : n < 65536
  pub key_ends : At page 4 (column key_size (section key_size value_size n) (keys entries))
  pub value_ends :
      At page
        (4 + pointers key_size n)
        (column value_size (section key_size value_size n + key_bytes) (values entries))
  pub key_data : At page (section key_size value_size n) (flat (keys entries))
  pub value_data : At page (section key_size value_size n + key_bytes) (flat (values entries))
  pub key_fits : Fits key_size (keys entries)
  pub value_fits : Fits value_size (values entries)
  pub small : section key_size value_size n + key_bytes + length (flat (values entries)) < 2 ^ 32
  pub enough : length (flat (keys entries)) ≤ key_bytes

-- The page is a leaf page of exactly these entries.
abbrev pub IsLeaf : List ℕ → Option ℕ → Option ℕ → List Entry → Type 0
IsLeaf page key_size value_size entries =
    Holds page key_size value_size (length entries) (length (flat (keys entries))) entries
