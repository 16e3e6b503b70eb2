-- ===== src/Pages/Branch/Raw.antt =====
-- `RawBranchBuilder`, `BranchBuilder` and `BranchMutator` of src/tree_store/btree_base.rs write branch
-- pages. The poison of a debug build is left out; `mem.allocate` is a parameter.
use redbx.Prelude.{
  ℕ, zero, suc, ◌+◌, ◌-◌, ◌*◌, ◌/◌, Bool, ◌&&◌, Option, none, some, List, [], ◌∷◌, ◌++◌, Outcome,
  ok, panic, ◌>>=◌, ◌>>◌, check, unwrap, if◌then◌else◌, leb, ltb, ◌==◌, length, get_elem?, set,
  take, drop,
}
use redbx.Prelude.Word.{sub64}
use redbx.Prelude.Bytes.{to_le, from_le, slice, write}
use redbx.PageNumber
use redbx.PageNumber.{PageNumber}
use redbx.Pages.Column.{pointers, get_u32, to_u16, write_end}

abbrev pub branch : ℕ
branch = 2

-- A page number and a checksum.
abbrev pub Child : Type 0
Child = PageNumber × ℕ

pub record RawBranchBuilder : Type 0 where
  pub page : List ℕ
  pub fixed_key_size : Option ℕ
  pub num_keys : ℕ
  pub keys_written : ℕ

unfoldable pub required_bytes : ℕ → ℕ → Option ℕ → ℕ
required_bytes num_keys size_of_keys fixed_key_size =
    size_of_keys + (8 + (8 + 16) * (num_keys + 1) + pointers fixed_key_size num_keys)

unfoldable pub raw_new : List ℕ → ℕ → Option ℕ → Outcome RawBranchBuilder
raw_new page num_keys fixed_key_size = do
  check (ltb 0 num_keys)
  typed ← write 0 (branch ∷ []) page
  count ← unwrap (to_u16 num_keys)
  counted ← write 2 (to_le 2 count) typed
  ok (record {
    page = counted;
    fixed_key_size = fixed_key_size;
    num_keys = num_keys;
    keys_written = 0;
  })

-- The checksum and the page number of child `i`, on a page of `num_keys` keys.
unfoldable pub write_child : ℕ → ℕ → Child → List ℕ → Outcome (List ℕ)
write_child num_keys i child page = do
  with_checksum ← write (8 + 16 * i) (to_le 16 child.1) page
  write (8 + 16 * (num_keys + 1) + 8 * i) (PageNumber.to_le_bytes child.0) with_checksum

unfoldable pub write_first_page : RawBranchBuilder → Child → Outcome RawBranchBuilder
write_first_page b child = do
  written ← write_child b.num_keys 0 child b.page
  ok (record b { page = written })

unfoldable pub raw_key_section_start : RawBranchBuilder → ℕ
raw_key_section_start b = 8 + (8 + 16) * (b.num_keys + 1) + pointers b.fixed_key_size b.num_keys

unfoldable pub raw_key_end : RawBranchBuilder → ℕ → Outcome ℕ
raw_key_end b n = elim b.fixed_key_size [
  | some fixed ↦ ok (raw_key_section_start b + fixed * (n + 1))
  | none ↦ unwrap (get_u32 (8 + (8 + 16) * (b.num_keys + 1) + 4 * n) b.page)
]

unfoldable pub data_offset : RawBranchBuilder → ℕ → Outcome ℕ
data_offset b zero = ok (raw_key_section_start b)
data_offset b (suc n) = raw_key_end b n

unfoldable pub write_nth_key : RawBranchBuilder → List ℕ → Child → ℕ → Outcome RawBranchBuilder
write_nth_key b key child n = do
  check (ltb n b.num_keys)
  check (n == b.keys_written)
  with_child ← write_child b.num_keys (n + 1) child b.page
  let started : RawBranchBuilder = record b { keys_written = b.keys_written + 1; page = with_child }
  offset ← data_offset started n
  ended ←
      write_end b.fixed_key_size (8 + (8 + 16) * (b.num_keys + 1) + 4 * n) (offset + length key)
        with_child
  written ← write offset key ended
  ok (record started { page = written })

-- The check of `drop`.
unfoldable pub finish : RawBranchBuilder → Outcome (List ℕ)
finish b = do check (b.keys_written == b.num_keys); ok b.page

pub record BranchBuilder : Type 0 where
  pub children : List Child
  pub keys : List (List ℕ)
  pub total_key_bytes : ℕ
  pub fixed_key_size : Option ℕ

unfoldable pub builder_new : Option ℕ → BranchBuilder
builder_new fixed_key_size = record {
  children = [];
  keys = [];
  total_key_bytes = 0;
  fixed_key_size = fixed_key_size;
}

unfoldable pub replace_child : BranchBuilder → ℕ → Child → Outcome BranchBuilder
replace_child b index child = do
  check (ltb index (length b.children))
  ok (record b { children = set b.children index child })

unfoldable pub push_child : BranchBuilder → Child → BranchBuilder
push_child b child = record b { children = b.children ++ (child ∷ []) }

unfoldable pub push_key : BranchBuilder → List ℕ → BranchBuilder
push_key b key = record b {
  keys = b.keys ++ (key ∷ []);
  total_key_bytes = b.total_key_bytes + length key;
}

unfoldable pub to_single_child : BranchBuilder → Outcome (Option Child)
to_single_child b =
    if ltb 1 (length b.children)
    then ok none
    else (do only ← unwrap (get_elem? b.children 0); ok (some only))

unfoldable pub should_split : BranchBuilder → ℕ → Bool
should_split b page_size =
    let size = required_bytes (length b.keys) b.total_key_bytes b.fixed_key_size in
    ltb page_size size && leb 3 (length b.keys)

-- The keys from index `n` on, each with the child behind it. An index beyond the children panics.
unfoldable pub write_all :
    RawBranchBuilder → ℕ → List (List ℕ) → List Child → Outcome RawBranchBuilder
write_all b n [] children = ok b
write_all b n (key ∷ keys) [] = panic
write_all b n (key ∷ keys) (child ∷ children) = do
  next ← write_nth_key b key child n
  write_all next (n + 1) keys children

-- What is done with a page that was allocated.
unfoldable pub fill : Option ℕ → ℕ → List (List ℕ) → List Child → List ℕ → Outcome (List ℕ)
fill fixed_key_size num_keys keys children page = do
  raw ← raw_new page num_keys fixed_key_size
  first ← unwrap (get_elem? children 0)
  started ← write_first_page raw first
  written ← write_all started 0 keys (drop 1 children)
  finish written

abbrev pub PageMut : Type 0
PageMut = PageNumber × List ℕ

abbrev pub key_bytes : List (List ℕ) → ℕ
key_bytes [] = 0
key_bytes (k ∷ ks) = length k + key_bytes ks

module _ {State : Type 0} (allocate : State → ℕ → Option (PageMut × State)) where
  -- `none` is the error of `allocate`.
  abbrev pub fill_page :
      Option ℕ
      → ℕ
      → List (List ℕ)
      → List Child
      → Option (PageMut × State)
      → Outcome (Option (PageMut × State))
  fill_page fk n keys children none = ok none
  fill_page fk n keys children (some ((number, memory), state)) = do
    page ← fill fk n keys children memory
    ok (some ((number, page), state))

  unfoldable pub build : BranchBuilder → State → Outcome (Option (PageMut × State))
  build b state = do
    check (length b.children == length b.keys + 1)
    fill_page b.fixed_key_size (length b.keys) b.keys b.children
        (allocate state (required_bytes (length b.keys) b.total_key_bytes b.fixed_key_size))

  abbrev pub split_done :
      PageMut
      → List ℕ
      → Option (PageMut × State)
      → Outcome (Option ((PageMut × List ℕ × PageMut) × State))
  split_done page1 division_key none = ok none
  split_done page1 division_key (some (page2, state)) =
      ok (some ((page1, division_key, page2), state))

  abbrev pub split_rest :
      BranchBuilder
      → ℕ
      → List ℕ
      → ℕ
      → Option (PageMut × State)
      → Outcome (Option ((PageMut × List ℕ × PageMut) × State))
  split_rest b division division_key second_size none = ok none
  split_rest b division division_key second_size (some (page1, state)) = do
    let n = length b.keys - division - 1
    built ←
        fill_page b.fixed_key_size n (drop (division + 1) b.keys) (drop (division + 1) b.children)
          (allocate state (required_bytes n second_size b.fixed_key_size))
    split_done page1 division_key built

  unfoldable pub build_split :
      BranchBuilder → State → Outcome (Option ((PageMut × List ℕ × PageMut) × State))
  build_split b state = do
    check (length b.children == length b.keys + 1)
    check (leb 3 (length b.keys))
    let division = length b.keys / 2
    let first_split_key_len = key_bytes (take division b.keys)
    division_key ← unwrap (get_elem? b.keys division)
    let second_split_key_len =
        sub64 (sub64 b.total_key_bytes first_split_key_len) (length division_key)
    built ←
        fill_page b.fixed_key_size division (take division b.keys) b.children
          (allocate state (required_bytes division first_split_key_len b.fixed_key_size))
    split_rest b division division_key second_split_key_len built

-- `BranchMutator`
unfoldable pub mutator_new : List ℕ → Outcome (List ℕ)
mutator_new page = do kind ← unwrap (get_elem? page 0); check (kind == branch); ok page

unfoldable pub write_child_page : ℕ → Child → List ℕ → Outcome (List ℕ)
write_child_page i child page = do
  with_checksum ← write (8 + 16 * i) (to_le 16 child.1) page
  count ← slice 2 2 with_checksum
  write (8 + 16 * (from_le count + 1) + 8 * i) (PageNumber.to_le_bytes child.0) with_checksum
