-- ===== src/Pages/Branch/Store.antt =====
-- The branch pages that `build` and `build_split` of src/tree_store/btree_base.rs write, read back, and
-- a child replaced in place.
use redbx.Prelude.{
  ℕ, ◌+◌, ◌≤◌, ◌≡◌, refl, sym, ap, ◌∙◌, subst, true, List, [], ◌∷◌, Option, none, some, arith,
  length, length-append, Outcome, ok, get_elem?, take, take_all, ◌==◌,
}
use redbx.PageNumber.{PageNumber}
use redbx.Pages.Column.{flat}
use redbx.Pages.Branch.{BranchAccessor, new, key, child_page, child_checksum}
use redbx.Pages.Branch.Raw.{
  Child, BranchBuilder, required_bytes, fill, PageMut, fill_page, build, key_bytes,
}
use redbx.Pages.Branch.Layout.{IsBranch}
use redbx.Pages.Branch.Reads.{
  branch_of, new-IsBranch, key-IsBranch, child_page-IsBranch, child_checksum-IsBranch,
}
use redbx.Pages.Branch.Built.{IsContent, fill-IsBranch}

-- The accessor of the page has these keys and children, in this order, and no more.
pub record Stores (page : List ℕ) (fk : Option ℕ) (keys : List (List ℕ)) (children : List Child)
    : Type 0 where
  pub accessor : BranchAccessor
  pub opened : new page fk ≡ ok accessor
  pub count : accessor.num_keys ≡ length keys
  pub one_more : length children ≡ length keys + 1
  pub keys_read : (i : ℕ) {k : List ℕ} → get_elem? keys i ≡ some k → key accessor i ≡ ok (some k)
  pub children_read :
      (i : ℕ) {c : Child}
      → get_elem? children i ≡ some c
      → (child_page accessor i ≡ ok (some c.0)) × (child_checksum accessor i ≡ ok (some c.1))

pub IsBranch-Stores :
    {page : List ℕ} (fk : Option ℕ) (keys : List (List ℕ)) (children : List Child)
    → IsBranch page fk keys children
    → Stores page fk keys children
IsBranch-Stores {page} fk keys children h = record {
  accessor = branch_of page fk keys;
  opened = new-IsBranch h;
  count = refl;
  one_more = h.one_more;
  keys_read = λ i e. key-IsBranch keys children fk h i e;
  children_read = λ i e.
      (child_page-IsBranch keys children fk h i e, child_checksum-IsBranch keys children fk h i e);
}

pub key_bytes-flat : (ks : List (List ℕ)) → key_bytes ks ≡ length (flat ks)
key_bytes-flat [] = refl
key_bytes-flat (k ∷ ks) = omega (arith, key_bytes-flat ks, length-append k (flat ks))

-- The conditions of a build: the total is that of the keys, and they can stand on one page.
pub record IsReady (b : BranchBuilder) : Type 0 where
  pub total : b.total_key_bytes ≡ length (flat b.keys)
  pub one_more : length b.children ≡ length b.keys + 1
  pub content : IsContent b.fixed_key_size b.keys b.children

-- `allocate` gives a page of at least the bytes that were asked for, as the page manager does.
abbrev pub IsEnough : {State : Type 0} → (State → ℕ → Option (PageMut × State)) → Type 0
IsEnough {State} allocate =
    (state : State) (n : ℕ) (number : PageNumber) (memory : List ℕ) (next : State)
    → allocate state n ≡ some ((number, memory), next)
    → n ≤ length memory

module _ {State : Type 0} (allocate : State → ℕ → Option (PageMut × State))
    (enough : IsEnough allocate) where
  pub fill_page-Stores :
      (fk : Option ℕ) (n k : ℕ) (keys : List (List ℕ)) (children : List Child) (state : State)
      {page : PageMut} {next : State}
      → IsContent fk keys children
      → length keys ≡ n
      → length (flat keys) ≡ k
      → allocate state (required_bytes n k fk) ≡ some (page, next)
      → (bytes : List ℕ) × (fill_page allocate fk n keys children (some (page, next))
          ≡ ok (some ((page.0, bytes), next)))
        × Stores bytes fk keys (take (n + 1) children)
  fill_page-Stores fk n k keys children state {page} {next} c en ek e =
      let asked : required_bytes (length keys) (length (flat keys)) fk ≡ required_bytes n k fk =
        rw (en, ek) refl in
      let room = enough state (required_bytes n k fk) page.0 page.1 next e in
      let (bytes, f, h, size) = fill-IsBranch page.1 fk keys children c (omega arith) in
      let filled : fill fk n keys children page.1 ≡ ok bytes =
        ap (λ m. fill fk m keys children page.1) (sym en) ∙ f in
      (
        bytes,
        rw filled refl,
        subst (λ m. Stores bytes fk keys (take (m + 1) children)) en (IsBranch-Stores fk keys _ h),
      )

  -- What `build` gives: the error of `allocate`, or the page that it allocated, with all of it.
  pub data Built (b : BranchBuilder) (state : State)
      : Outcome (Option (PageMut × State)) → Type 0 where
    not_allocated :
        allocate state (required_bytes (length b.keys) b.total_key_bytes b.fixed_key_size) ≡ none
        → Built b state (ok none)
    built :
        (number : PageNumber) (memory bytes : List ℕ) (next : State)
        → allocate state (required_bytes (length b.keys) b.total_key_bytes b.fixed_key_size)
          ≡ some ((number, memory), next)
        → Stores bytes b.fixed_key_size b.keys b.children
        → Built b state (ok (some ((number, bytes), next)))

  build_cases :
      (b : BranchBuilder) (state : State) (o : Option (PageMut × State))
      → IsReady b
      → allocate state (required_bytes (length b.keys) b.total_key_bytes b.fixed_key_size) ≡ o
      → Built b state (fill_page allocate b.fixed_key_size (length b.keys) b.keys b.children o)
  build_cases b state none r e = not_allocated e
  build_cases b state (some (page, next)) r e =
      let (bytes, f, s) =
        fill_page-Stores b.fixed_key_size (length b.keys) b.total_key_bytes b.keys b.children state
          r.content refl (sym r.total) e in
      let all = take_all (length b.keys + 1) b.children (omega (arith, r.one_more)) in
      subst (Built b state) (sym f)
        (built page.0 page.1 bytes next e (subst (Stores bytes b.fixed_key_size b.keys) all s))

  -- A builder with one child more than keys, its total that of the keys, at least one key and fewer than
  -- 65536, of the fixed size and within 4 GiB, builds without a panic: the result is the error of
  -- `allocate`, or a page whose accessor reads back the keys, the page numbers and the checksums.
  pub build_branch-Built :
      (b : BranchBuilder) (state : State) → IsReady b → Built b state (build allocate b state)
  unfolding build
  build_branch-Built b state r =
      let one = r.one_more in
      let checked : (length b.children == length b.keys + 1) ≡ true = ground arith in
      rw checked (build_cases b state _ r refl)
