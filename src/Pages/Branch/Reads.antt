-- ===== src/Pages/Branch/Reads.antt =====
-- `BranchAccessor` of src/tree_store/btree_base.rs reads the keys and children that a page holds, and
-- finds the child for a key.
use redbx.Prelude.{
  ℕ, zero, suc, ◌+◌, ◌*◌, ◌≤◌, ◌<◌, ◌≡◌, refl, ap, Bool, true, false, List, Option, none, some,
  arith, length, get_elem?, length-map, get_elem?-map, get_elem?-lt, get_elem?-some, ok, unwrap,
  ◌>>=◌, leb,
}
use Prim.Native.Nat.{Ordering}
use redbx.Prelude.Bytes.{to_le, length-to_le, from_le-to_le}
use redbx.Prelude.Memory.{slice-At, range, range-At, At-move}
use redbx.PageNumber
use redbx.PageNumber.{PageNumber}
use redbx.PageNumber.RoundTrip.{from_le_bytes-to_le_bytes}
use redbx.Pages.Column.{upto}
use redbx.Pages.Ends.{get_u32-offsets, At-flat, upto-suc, Fits-upto}
use redbx.Pages.Search.{search_loop, IsOrder, Ascends, Place, hit, miss, search-Place}
use redbx.Pages.Branch.{
  BranchAccessor, new, key_section_start, key_end, key_offset, key, key_at, child_checksum,
  child_page, child_for_key,
}
use redbx.Pages.Branch.Raw.{Child}
use redbx.Pages.Branch.Layout.{
  IsBranch, section, checksums, numbers, Fits-checksums, Fits-numbers, AllChildren-get,
  length-to_le_bytes,
}

abbrev pub branch_of : List ℕ → Option ℕ → List (List ℕ) → BranchAccessor
branch_of page fk keys = record { page = page; num_keys = length keys; fixed_key_size = fk }

pub new-IsBranch :
    {page : List ℕ} {fk : Option ℕ} {keys : List (List ℕ)} {children : List Child}
    → IsBranch page fk keys children
    → new page fk ≡ ok (branch_of page fk keys)
unfolding new
new-IsBranch {keys = keys} h =
    let n = length keys in
    rw (slice-At h.holds.count (length-to_le 2 n), from_le-to_le 2 n (omega (arith, h.holds.few)))
      refl

module _ {page : List ℕ} (keys : List (List ℕ)) (children : List Child) where
  key_end-IsBranch :
      (fk : Option ℕ) (i : ℕ)
      → IsBranch page fk keys children
      → i < length keys
      → key_end (branch_of page fk keys) i ≡ some (section fk (length keys) + upto (suc i) keys)
  unfolding key_end key_section_start
  key_end-IsBranch none i h l =
      get_u32-offsets (8 + 24 * (length keys + 1)) (section none (length keys)) keys i
        h.holds.key_ends l h.holds.small
  key_end-IsBranch (some f) i h l =
      let e = Fits-upto f keys (suc i) h.holds.key_fits (omega arith) in ground (arith, e)

  key_offset-IsBranch :
      (fk : Option ℕ) (i : ℕ)
      → IsBranch page fk keys children
      → i < length keys
      → key_offset (branch_of page fk keys) i ≡ ok (section fk (length keys) + upto i keys)
  unfolding key_offset key_section_start
  key_offset-IsBranch fk zero h l = ap ok (omega arith)
  key_offset-IsBranch fk (suc i) h l = ap unwrap (key_end-IsBranch fk i h (omega arith))

  module _ (fk : Option ℕ) (h : IsBranch page fk keys children) where
    key_bytes :
        (i : ℕ) {k : List ℕ}
        → get_elem? keys i ≡ some k
        → range
            (section fk (length keys) + upto i keys)
            (section fk (length keys) + upto (suc i) keys)
            page
          ≡ ok k
    key_bytes i e =
        range-At (At-flat (section fk (length keys)) keys i h.holds.key_data e)
          (omega (arith, upto-suc keys i e))

    pub key-IsBranch :
        (i : ℕ) {k : List ℕ}
        → get_elem? keys i ≡ some k
        → key (branch_of page fk keys) i ≡ ok (some k)
    unfolding key
    key-IsBranch i e =
        let l = get_elem?-lt keys i e in
        let within : leb (length keys) i ≡ false = ground arith in
        rw (within, key_offset-IsBranch fk i h l, key_end-IsBranch fk i h l, key_bytes i e) refl

    pub child_checksum-IsBranch :
        (i : ℕ) {c : Child}
        → get_elem? children i ≡ some c
        → child_checksum (branch_of page fk keys) i ≡ ok (some c.1)
    unfolding child_checksum
    child_checksum-IsBranch i {c} e =
        let l = get_elem?-lt children i e in
        let one = h.one_more in
        let within : leb (length keys + 1) i ≡ false = ground arith in
        let place =
          Fits-upto 16 (checksums children) i (Fits-checksums children)
            (omega (arith, length-map (λ (c : Child). to_le 16 c.1) children)) in
        let there = At-move {t = 8 + 16 * i} (omega arith) (
          At-flat 8 (checksums children) i h.holds.sums
            (get_elem?-map (λ (c : Child). to_le 16 c.1) children i e)) in
        let fits = AllChildren-get children i h.fits e in
        rw (within, slice-At there (length-to_le 16 c.1))
          (ap (λ n. ok (some n)) (from_le-to_le 16 c.1 fits.1))

    pub child_page-IsBranch :
        (i : ℕ) {c : Child}
        → get_elem? children i ≡ some c
        → child_page (branch_of page fk keys) i ≡ ok (some c.0)
    unfolding child_page
    child_page-IsBranch i {c} e =
        let l = get_elem?-lt children i e in
        let one = h.one_more in
        let within : leb (length keys + 1) i ≡ false = ground arith in
        let place =
          Fits-upto 8 (numbers children) i (Fits-numbers children)
            (omega (arith, length-map (λ (c : Child). PageNumber.to_le_bytes c.0) children)) in
        let there = At-move {t = 8 + 16 * (length keys + 1) + 8 * i} (omega arith) (
          At-flat (8 + 16 * (length keys + 1)) (numbers children) i h.holds.pages
            (get_elem?-map (λ (c : Child). PageNumber.to_le_bytes c.0) children i e)) in
        let fits = AllChildren-get children i h.fits e in
        rw (within, slice-At there (length-to_le_bytes c.0), from_le_bytes-to_le_bytes c.0 fits.0)
          refl

    -- On a branch page whose keys ascend, `child_for_key` returns a child of the page: the one before a
    -- key that compares equal to the query, or else the one between the keys below the query and
    -- those above it.
    pub child_for_key-Place :
        (compare : List ℕ → List ℕ → Ordering) (query : List ℕ)
        → IsOrder compare
        → Ascends compare keys
        → (i : ℕ) × (found : Bool) × (c : Child) × (child_for_key compare
              (branch_of page fk keys)
              query
            ≡ ok (i, c.0))
          × (get_elem? children i ≡ some c)
          × Place compare keys query (i, found)
    unfolding child_for_key key_at
    child_for_key-Place compare query order ascends =
        let (r, e, p) =
          search-Place compare order keys ascends (key_at (branch_of page fk keys))
            (λ i k there. ap (λ o. o >>= unwrap) (key-IsBranch i there)) query in
        let (c, there) =
          get_elem?-some children r.0 (omega (arith, h.one_more, place-le compare query r p)) in
        (r.0, r.1, c, child_steps compare query r c e (child_page-IsBranch r.0 there), there, p)
      where
        place-le :
            (compare : List ℕ → List ℕ → Ordering) (query : List ℕ) (r : ℕ × Bool)
            → Place compare keys query r
            → r.0 ≤ length keys
        place-le compare query (_, true) (hit i key e c) = omega (arith, get_elem?-lt keys i e)
        place-le compare query (_, false) (miss i l a b) = l

        child_steps :
            (compare : List ℕ → List ℕ → Ordering) (query : List ℕ) (r : ℕ × Bool) (c : Child)
            → search_loop compare
                (key_at (branch_of page fk keys))
                query
                (length keys + 1)
                0
                (length keys)
              ≡ ok r
            → child_page (branch_of page fk keys) r.0 ≡ ok (some c.0)
            → child_for_key compare (branch_of page fk keys) query ≡ ok (r.0, c.0)
        child_steps compare query r c e f = rw (e, f) refl
