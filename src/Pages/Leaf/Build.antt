-- ===== src/Pages/Leaf/Build.antt =====
-- `LeafBuilder` of src/tree_store/btree_base.rs: the entries of a page in the making, and the pages
-- that they are built into. `mem.allocate` of the page manager is a parameter.
use redbx.Prelude.{
  ℕ, zero, suc, ◌+◌, ◌-◌, ◌/◌, Bool, false, ◌&&◌, Option, none, some, List, [], ◌∷◌, ◌++◌, Outcome,
  ok, ◌>>=◌, unwrap, if◌then◌else◌, ltb, leb, ◌==◌, length, get_elem?, take, drop,
}
use redbx.Prelude.Word.{sub64}
use redbx.PageNumber.{PageNumber}
use redbx.Pages.Leaf.{LeafAccessor, EntryAccessor, entry}
use redbx.Pages.Leaf.Layout.{Entry}
use redbx.Pages.Leaf.Raw.{RawLeafBuilder, raw_new, required_bytes, append, finish}

pub record LeafBuilder : Type 0 where
  pub pairs : List Entry
  pub fixed_key_size : Option ℕ
  pub fixed_value_size : Option ℕ
  pub total_key_bytes : ℕ
  pub total_value_bytes : ℕ

unfoldable pub builder_required_bytes : LeafBuilder → ℕ → ℕ → ℕ
builder_required_bytes b num_pairs keys_values_bytes =
    required_bytes num_pairs keys_values_bytes b.fixed_key_size b.fixed_value_size

unfoldable pub builder_new : Option ℕ → Option ℕ → LeafBuilder
builder_new fixed_key_size fixed_value_size = record {
  pairs = [];
  fixed_key_size = fixed_key_size;
  fixed_value_size = fixed_value_size;
  total_key_bytes = 0;
  total_value_bytes = 0;
}

unfoldable pub push : LeafBuilder → List ℕ → List ℕ → LeafBuilder
push b key value = record b {
  total_key_bytes = b.total_key_bytes + length key;
  total_value_bytes = b.total_value_bytes + length value;
  pairs = b.pairs ++ ((key, value) ∷ []);
}

-- `Some(except) == Some(i)`
abbrev pub is_except : Option ℕ → ℕ → Bool
is_except none i = false
is_except (some except) i = except == i

-- The rounds of `push_all_except` from index `i` on.
unfoldable pub push_rounds : LeafAccessor → Option ℕ → ℕ → ℕ → LeafBuilder → Outcome LeafBuilder
push_rounds a except i zero b = ok b
push_rounds a except i (suc rounds) b = do
  pushed ← if is_except except i then ok b else (do
    found ← entry a i
    pair ← unwrap found
    ok (push b (EntryAccessor.key pair) (EntryAccessor.value pair)))
  push_rounds a except (i + 1) rounds pushed

unfoldable pub push_all_except : LeafBuilder → LeafAccessor → Option ℕ → Outcome LeafBuilder
push_all_except b a except = push_rounds a except 0 a.num_pairs b

-- 4096 bytes less what the encryption of a leaf takes.
abbrev pub effective_leaf_page_size : ℕ
effective_leaf_page_size = 4096 - 13 - 28

unfoldable pub should_split : LeafBuilder → Bool
should_split b =
    let required_size =
      builder_required_bytes b (length b.pairs) (b.total_key_bytes + b.total_value_bytes) in
    ltb effective_leaf_page_size required_size && ltb 1 (length b.pairs)

unfoldable pub append_all : RawLeafBuilder → List Entry → Outcome RawLeafBuilder
append_all b [] = ok b
append_all b ((key, value) ∷ pairs) = do next ← append b key value; append_all next pairs

-- What is done with a page that was allocated: the entries are written to it.
unfoldable pub fill : Option ℕ → Option ℕ → ℕ → ℕ → List Entry → List ℕ → Outcome (List ℕ)
fill fixed_key_size fixed_value_size num_pairs key_bytes pairs page = do
  raw ← raw_new page num_pairs fixed_key_size fixed_value_size key_bytes
  written ← append_all raw pairs
  finish written

pub record Division : Type 0 where
  pub division : ℕ
  pub first_split_key_bytes : ℕ
  pub first_split_value_bytes : ℕ

-- The loop of `build_split`, which stops at half of the bytes.
unfoldable pub divide : ℕ → List Entry → Division → Division
divide total_size [] d = d
divide total_size ((key, value) ∷ pairs) d =
    let next : Division = record {
      division = d.division + 1;
      first_split_key_bytes = d.first_split_key_bytes + length key;
      first_split_value_bytes = d.first_split_value_bytes + length value;
    } in
    let rest = divide total_size pairs next in
    if leb (total_size / 2) (next.first_split_key_bytes + next.first_split_value_bytes)
    then next
    else rest

unfoldable pub division_of : LeafBuilder → Division
division_of b =
    divide (b.total_key_bytes + b.total_value_bytes) (take (sub64 (length b.pairs) 1) b.pairs)
      (record { division = 0; first_split_key_bytes = 0; first_split_value_bytes = 0 })

-- An allocated page: its number and its memory.
abbrev pub PageMut : Type 0
PageMut = PageNumber × List ℕ

module _ {State : Type 0} (allocate : State → ℕ → Option (PageMut × State)) where
  -- `none` is the error of `allocate`.
  abbrev pub fill_page :
      Option ℕ
      → Option ℕ
      → ℕ
      → ℕ
      → List Entry
      → Option (PageMut × State)
      → Outcome (Option (PageMut × State))
  fill_page fk fv n key_bytes pairs none = ok none
  fill_page fk fv n key_bytes pairs (some ((number, memory), state)) = do
    page ← fill fk fv n key_bytes pairs memory
    ok (some ((number, page), state))

  unfoldable pub build : LeafBuilder → State → Outcome (Option (PageMut × State))
  build b state =
      fill_page b.fixed_key_size b.fixed_value_size (length b.pairs) b.total_key_bytes b.pairs (
        allocate state
          (builder_required_bytes b (length b.pairs) (b.total_key_bytes + b.total_value_bytes)))

  -- The two pages and the last key of the first.
  abbrev pub split_key :
      LeafBuilder
      → Division
      → PageMut
      → Option (PageMut × State)
      → Outcome (Option ((PageMut × List ℕ × PageMut) × State))
  split_key b d page1 none = ok none
  split_key b d page1 (some (page2, state)) = do
    last ← unwrap (get_elem? b.pairs (sub64 d.division 1))
    ok (some ((page1, last.0, page2), state))

  -- The second page.
  abbrev pub split_rest :
      LeafBuilder
      → Division
      → Option (PageMut × State)
      → Outcome (Option ((PageMut × List ℕ × PageMut) × State))
  split_rest b d none = ok none
  split_rest b d (some (page1, state)) = do
    let second = drop d.division b.pairs
    let key_bytes = b.total_key_bytes - d.first_split_key_bytes
    let required_size = builder_required_bytes b (length b.pairs - d.division) (
        b.total_key_bytes + b.total_value_bytes - d.first_split_key_bytes
        - d.first_split_value_bytes)
    built ←
        fill_page b.fixed_key_size b.fixed_value_size (length b.pairs - d.division) key_bytes second
          (allocate state required_size)
    split_key b d page1 built

  unfoldable pub build_split :
      LeafBuilder → State → Outcome (Option ((PageMut × List ℕ × PageMut) × State))
  build_split b state = do
    let d = division_of b
    let required_size =
        builder_required_bytes b d.division (d.first_split_key_bytes + d.first_split_value_bytes)
    built ←
        fill_page b.fixed_key_size b.fixed_value_size d.division d.first_split_key_bytes
          (take d.division b.pairs) (allocate state required_size)
    split_rest b d built
