-- ===== src/Pages/Leaf/Store.antt =====
-- The leaf pages that `build` and `build_split` of src/tree_store/btree_base.rs write, read back.
use redbx.Prelude.{
  ℕ, ◌+◌, ◌-◌, ◌/◌, ◌≤◌, ◌<◌, ◌≡◌, ◌⊎◌, refl, sym, ap, ◌∙◌, subst, List, Option, none, some, arith,
  length, Outcome, ok, get_elem?, take, drop,
}
use redbx.PageNumber.{PageNumber}
use redbx.Pages.Column.{flat, upto}
use redbx.Pages.Leaf.{LeafAccessor, new, entry}
use redbx.Pages.Leaf.Layout.{Entry, keys, values, IsLeaf}
use redbx.Pages.Leaf.Reads.{leaf_of, new-Holds, entry-IsLeaf}
use redbx.Pages.Leaf.Raw.{required_bytes}
use redbx.Pages.Leaf.Built.{IsContent, fill-IsLeaf}
use redbx.Pages.Leaf.BuildLaws.{IsTotal}
use redbx.Pages.Leaf.Build.{LeafBuilder, builder_required_bytes, fill, PageMut, build, fill_page}

-- The accessor of the page has these entries, in this order, and no more.
pub record Stores (page : List ℕ) (fk fv : Option ℕ) (pairs : List Entry) : Type 0 where
  pub accessor : LeafAccessor
  pub opened : new page fk fv ≡ ok accessor
  pub count : accessor.num_pairs ≡ length pairs
  pub entries :
      (i : ℕ) {key value : List ℕ}
      → get_elem? pairs i ≡ some (key, value)
      → entry accessor i ≡ ok (some (record { key = key; value = value }))

pub IsLeaf-Stores :
    {page : List ℕ} (fk fv : Option ℕ) (pairs : List Entry)
    → IsLeaf page fk fv pairs
    → Stores page fk fv pairs
IsLeaf-Stores {page} fk fv pairs h = record {
  accessor = leaf_of page fk fv pairs;
  opened = new-Holds h;
  count = refl;
  entries = λ i e. entry-IsLeaf pairs fk fv i h e;
}

-- `allocate` gives a page of at least the bytes that were asked for, as the page manager does.
abbrev pub IsEnough : {State : Type 0} → (State → ℕ → Option (PageMut × State)) → Type 0
IsEnough {State} allocate =
    (state : State) (n : ℕ) (number : PageNumber) (memory : List ℕ) (next : State)
    → allocate state n ≡ some ((number, memory), next)
    → n ≤ length memory

module _ {State : Type 0} (allocate : State → ℕ → Option (PageMut × State))
    (enough : IsEnough allocate) where
  -- A page for some entries: the error of `allocate`, or a page of these entries.
  pub fill_page-Stores :
      (fk fv : Option ℕ) (n k v : ℕ) (pairs : List Entry) (state : State) {page : PageMut}
      {next : State}
      → IsContent fk fv pairs
      → length pairs ≡ n
      → length (flat (keys pairs)) ≡ k
      → length (flat (values pairs)) ≡ v
      → allocate state (required_bytes n (k + v) fk fv) ≡ some (page, next)
      → (bytes : List ℕ) × (fill_page allocate fk fv n k pairs (some (page, next))
          ≡ ok (some ((page.0, bytes), next)))
        × Stores bytes fk fv pairs
  fill_page-Stores fk fv n k v pairs state {page} {next} c en ek ev e =
      let asked : required_bytes (length pairs)
            (length (flat (keys pairs)) + length (flat (values pairs))) fk fv
          ≡ required_bytes n (k + v) fk fv =
        rw (en, ek, ev) refl in
      let room = enough state (required_bytes n (k + v) fk fv) page.0 page.1 next e in
      let (bytes, f, h, size) = fill-IsLeaf page.1 fk fv pairs c (omega arith) in
      let filled : fill fk fv n k pairs page.1 ≡ ok bytes =
        ap (λ m. fill fk fv m k pairs page.1) (sym en)
        ∙ ap (λ m. fill fk fv (length pairs) m pairs page.1) (sym ek)
        ∙ f in
      (bytes, rw filled refl, IsLeaf-Stores fk fv pairs h)

  abbrev asked_for : LeafBuilder → ℕ
  asked_for b = builder_required_bytes b (length b.pairs) (b.total_key_bytes + b.total_value_bytes)

  -- What `build` gives: the error of `allocate`, or the page that it allocated, with the entries.
  pub data Built (b : LeafBuilder) (state : State)
      : Outcome (Option (PageMut × State)) → Type 0 where
    not_allocated : allocate state (asked_for b) ≡ none → Built b state (ok none)
    built :
        (number : PageNumber) (memory bytes : List ℕ) (next : State)
        → allocate state (asked_for b) ≡ some ((number, memory), next)
        → Stores bytes b.fixed_key_size b.fixed_value_size b.pairs
        → Built b state (ok (some ((number, bytes), next)))

  build_cases :
      (b : LeafBuilder) (state : State) (o : Option (PageMut × State))
      → IsTotal b
      → IsContent b.fixed_key_size b.fixed_value_size b.pairs
      → allocate state (asked_for b) ≡ o
      → Built b state (
          fill_page allocate b.fixed_key_size b.fixed_value_size
            (length b.pairs)
            b.total_key_bytes
            b.pairs
            o)
  unfolding builder_required_bytes
  build_cases b state none t c e = not_allocated e
  build_cases b state (some (page, next)) t c e =
      let (bytes, f, s) =
        fill_page-Stores b.fixed_key_size b.fixed_value_size (length b.pairs) b.total_key_bytes
          b.total_value_bytes b.pairs state c refl (sym t.key_bytes) (sym t.value_bytes) e in
      subst (Built b state) (sym f) (built page.0 page.1 bytes next e s)

  -- A builder whose totals are those of its entries, at least one and fewer than 65536, of the fixed
  -- sizes and within 4 GiB, builds without a panic: the result is the error of `allocate`, or a
  -- page whose accessor reads back the entries in order.
  pub build-Built :
      (b : LeafBuilder) (state : State)
      → IsTotal b
      → IsContent b.fixed_key_size b.fixed_value_size b.pairs
      → Built b state (build allocate b state)
  unfolding build
  build-Built b state t c = build_cases b state _ t c refl

  -- The pages of a split: both hold entries, the first its part of them and the second the rest.
  pub record IsSplit (b : LeafBuilder) (first key second : List ℕ) : Type 0 where
    pub at : ℕ
    pub first_some : 0 < at
    pub second_some : at < length b.pairs
    pub first_page : Stores first b.fixed_key_size b.fixed_value_size (take at b.pairs)
    pub second_page : Stores second b.fixed_key_size b.fixed_value_size (drop at b.pairs)
    pub value : List ℕ
    pub last_of_first : get_elem? b.pairs (at - 1) ≡ some (key, value)
    -- The first page has half of the bytes, or all entries but one, and with fewer it had not.
    pub half :
        ((b.total_key_bytes + b.total_value_bytes) / 2
          ≤ upto at (keys b.pairs) + upto at (values b.pairs))
        ⊎ (at + 1 ≡ length b.pairs)
    pub least :
        (j : ℕ)
        → 0 < j
        → j < at
        → upto j (keys b.pairs) + upto j (values b.pairs)
          < (b.total_key_bytes + b.total_value_bytes) / 2

  pub data SplitBuilt (b : LeafBuilder)
      : Outcome (Option ((PageMut × List ℕ × PageMut) × State)) → Type 0 where
    not_split : (state : State) (n : ℕ) → allocate state n ≡ none → SplitBuilt b (ok none)
    split :
        (number other : PageNumber) (first key second : List ℕ) (next : State)
        → IsSplit b first key second
        → SplitBuilt b (ok (some (((number, first), key, (other, second)), next)))
