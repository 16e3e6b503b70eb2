-- ===== src/Pages/Leaf/Find.antt =====
-- `position` and `find_key` of `LeafAccessor` of src/tree_store/btree_base.rs. The comparison of keys
-- is a parameter, `K::compare`.
use redbx.Prelude.{
  ℕ, zero, suc, ◌+◌, ◌≡◌, ◌≢◌, ◌∙◌, Bool, true, false, List, [], ◌∷◌, Option, none, some, arith,
  Outcome, ok, ◌>>=◌, get_elem?, length-map, ap, sym, refl,
}
use Prim.Native.Nat.{Ordering}
use native.Mathlib.Decide.{dec_lt}
use redbx.Pages.Search.{search_loop, IsOrder, Ascends, Place, hit, miss, search-Place}
use redbx.Pages.Leaf.{LeafAccessor, key_unchecked}
use redbx.Pages.Leaf.Layout.{Entry, keys, IsLeaf}
use redbx.Pages.Leaf.Reads.{leaf_of, key_unchecked-IsLeaf}

module _ (compare : List ℕ → List ℕ → Ordering) where
  -- One round more than there are pairs, to see that the bounds meet.
  unfoldable pub position : LeafAccessor → List ℕ → Outcome (ℕ × Bool)
  position a query = search_loop compare (key_unchecked a) query (a.num_pairs + 1) 0 a.num_pairs

  abbrev pub found_entry : ℕ × Bool → Option ℕ
  found_entry (entry, true) = some entry
  found_entry (entry, false) = none

  unfoldable pub find_key : LeafAccessor → List ℕ → Outcome (Option ℕ)
  find_key a query = do answer ← position a query; ok (found_entry answer)

-- The key of the pair at an index, from the pairs and back.
entry_of :
    (entries : List Entry) (i : ℕ) {key : List ℕ}
    → get_elem? (keys entries) i ≡ some key
    → (value : List ℕ) × (get_elem? entries i ≡ some (key, value))
entry_of [] i e = cc
entry_of ((k, v) ∷ entries) zero {key} e =
    let same : k ≡ key = cc in (v, ap (λ x. some (x, v)) same)
entry_of ((k, v) ∷ entries) (suc i) e = entry_of entries i e

-- What `find_key` says of the keys of a page: the index of one that compares equal, or that there is
-- none.
pub data Lookup (compare : List ℕ → List ℕ → Ordering) (keys : List (List ℕ)) (query : List ℕ)
    : Option ℕ → Type 0 where
  there :
      (i : ℕ) (key : List ℕ)
      → get_elem? keys i ≡ some key
      → compare query key ≡ Ordering.eq
      → Lookup compare keys query (some i)
  absent :
      ((i : ℕ) (key : List ℕ) → get_elem? keys i ≡ some key → compare query key ≢ Ordering.eq)
      → Lookup compare keys query none

module _ (compare : List ℕ → List ℕ → Ordering) (order : IsOrder compare) {page : List ℕ}
    (fk fv : Option ℕ) (entries : List Entry) (h : IsLeaf page fk fv entries)
    (ascends : Ascends compare (keys entries)) (query : List ℕ) where
  -- On a leaf page whose keys ascend, `position` returns: the index of a key that compares equal to
  -- the query, or else the index that separates the keys below the query from those above it.
  pub position-Place :
      (r : ℕ × Bool) × (position compare (leaf_of page fk fv entries) query ≡ ok r)
      × Place compare (keys entries) query r
  unfolding position
  position-Place =
      let (r, e, p) =
        search-Place compare order (keys entries) ascends
          (key_unchecked (leaf_of page fk fv entries))
          (λ i key e.
            let (value, f) = entry_of entries i e in key_unchecked-IsLeaf entries fk fv i h f)
          query in
      let n = length-map (λ (e : Entry). e.0) entries in
      (
        r,
        ap (λ m. search_loop compare (key_unchecked (leaf_of page fk fv entries)) query (m + 1) 0 m)
              (sym n)
            ∙ e,
        p,
      )

  Lookup-of :
      (r : ℕ × Bool)
      → Place compare (keys entries) query r
      → Lookup compare (keys entries) query (found_entry compare r)
  Lookup-of (_, true) (hit i key e c) = there i key e c
  Lookup-of (_, false) (miss i l smaller larger) = absent (λ j key e c. elim (dec_lt j i) [
    | yes below ↦ let g = smaller j key below e in cc
    | no above ↦ let g = larger j key (omega arith) e in cc
  ])

  -- On a leaf page whose keys ascend, `find_key` returns: an index whose key compares equal to the
  -- query, or nothing, and then no key of the page compares equal to it.
  pub find_key-Lookup :
      (o : Option ℕ) × (find_key compare (leaf_of page fk fv entries) query ≡ ok o)
      × Lookup compare (keys entries) query o
  unfolding find_key
  find_key-Lookup =
      let (r, e, p) = position-Place in (found_entry compare r, rw e refl, Lookup-of r p)
