-- ===== src/Pages/Leaf/Reads.antt =====
-- `LeafAccessor` of src/tree_store/btree_base.rs reads the entries that a leaf page holds.
use redbx.Prelude.{
  ℕ, zero, suc, ◌+◌, ◌-◌, ◌*◌, ◌≤◌, ◌<◌, ◌≡◌, refl, sym, ap, ◌∙◌, List, Option, none, some, arith,
  length, get_elem?, length-map, get_elem?-map, get_elem?-lt, ok, false, leb,
}
use redbx.Prelude.Word.{sub64}
use redbx.Prelude.Bytes.{length-to_le, from_le-to_le}
use redbx.Prelude.Memory.{At, slice-At, range, range-At}
use redbx.Pages.Column.{pointers, flat, upto}
use redbx.Pages.Ends.{get_u32-offsets, At-flat, upto-suc, upto_all, Fits-upto}
use redbx.Pages.Leaf.{
  LeafAccessor, new, key_section_start, key_start, key_end, value_start, value_end, value_range,
  checked_pred, entry, key_unchecked,
}
use redbx.Pages.Leaf.Layout.{Entry, keys, values, section, Holds, IsLeaf}

abbrev pub accessor : List ℕ → Option ℕ → Option ℕ → ℕ → LeafAccessor
accessor page fk fv n = record {
  page = page;
  fixed_key_size = fk;
  fixed_value_size = fv;
  num_pairs = n;
}

pub new-Holds :
    {page : List ℕ} {fk fv : Option ℕ} {n k : ℕ} {entries : List Entry}
    → Holds page fk fv n k entries
    → new page fk fv ≡ ok (accessor page fk fv n)
unfolding new
new-Holds {n = n} h =
    rw (slice-At h.count (length-to_le 2 n), from_le-to_le 2 n (omega (arith, h.few))) refl

-- The accessor of a page that holds exactly `entries`.
abbrev pub leaf_of : List ℕ → Option ℕ → Option ℕ → List Entry → LeafAccessor
leaf_of page fk fv entries = accessor page fk fv (length entries)

abbrev pub section_of : Option ℕ → Option ℕ → List Entry → ℕ
section_of fk fv entries = section fk fv (length entries)

module _ {page : List ℕ} (entries : List Entry) where
  pub key_end-IsLeaf :
      (fk fv : Option ℕ) (i : ℕ)
      → IsLeaf page fk fv entries
      → i < length entries
      → key_end (leaf_of page fk fv entries) i
        ≡ some (section_of fk fv entries + upto (suc i) (keys entries))
  unfolding key_end key_section_start
  key_end-IsLeaf none fv i h l =
      let within : leb (length entries) i ≡ false = ground arith in
      rw within (
        get_u32-offsets 4 (section_of none fv entries) (keys entries) i h.key_ends
          (omega (arith, length-map (λ (e : Entry). e.0) entries)) (omega (arith, h.small)))
  key_end-IsLeaf (some f) fv i h l =
      let within : leb (length entries) i ≡ false = ground arith in
      let e =
        Fits-upto f (keys entries) (suc i) h.key_fits
          (omega (arith, length-map (λ (e : Entry). e.0) entries)) in
      rw within (ground (arith, e))

  pub key_start-IsLeaf :
      (fk fv : Option ℕ) (i : ℕ)
      → IsLeaf page fk fv entries
      → i ≤ length entries
      → key_start (leaf_of page fk fv entries) i
        ≡ some (section_of fk fv entries + upto i (keys entries))
  unfolding key_start key_section_start
  key_start-IsLeaf fk fv zero h l = ap some (omega arith)
  key_start-IsLeaf fk fv (suc i) h l = key_end-IsLeaf fk fv i h l

  -- The end of the last key.
  last_key_end :
      (fk fv : Option ℕ) (last : ℕ)
      → IsLeaf page fk fv entries
      → length entries ≡ suc last
      → key_end (leaf_of page fk fv entries) last
        ≡ some (section_of fk fv entries + length (flat (keys entries)))
  last_key_end fk fv last h e =
      let all : upto (suc last) (keys entries) ≡ length (flat (keys entries)) =
        ap (λ n. upto n (keys entries)) (sym e ∙ sym (length-map (λ (e : Entry). e.0) entries))
        ∙ upto_all (keys entries) in
      key_end-IsLeaf fk fv last h (omega arith) ∙ ap (λ n. some (section_of fk fv entries + n)) all

  pub value_end-IsLeaf :
      (fk fv : Option ℕ) (i : ℕ)
      → IsLeaf page fk fv entries
      → i < length entries
      → value_end (leaf_of page fk fv entries) i
        ≡ some (
            section_of fk fv entries + length (flat (keys entries)) + upto (suc i) (values entries))
  unfolding value_end
  value_end-IsLeaf fk none i h l =
      let within : leb (length entries) i ≡ false = ground arith in
      let place : 4 + 4 * i + pointers fk (length entries)
          ≡ 4 + pointers fk (length entries) + 4 * i =
        omega arith in
      rw (within, place)
        (get_u32-offsets (4 + pointers fk (length entries))
          (section_of fk none entries + length (flat (keys entries))) (values entries) i
          h.value_ends (omega (arith, length-map (λ (e : Entry). e.1) entries))
          (omega (arith, h.small)))
  value_end-IsLeaf fk (some f) i h l =
      let within : leb (length entries) i ≡ false = ground arith in
      let m = length entries - 1 in
      let one_more : length entries ≡ suc m = omega arith in
      let last : (checked_pred (length entries)) ≡ some m = ap checked_pred one_more in
      let e =
        Fits-upto f (values entries) (suc i) h.value_fits
          (omega (arith, length-map (λ (e : Entry). e.1) entries)) in
      rw (within, last, last_key_end fk (some f) m h one_more) (ground (arith, e))

  pub value_start-IsLeaf :
      (fk fv : Option ℕ) (i : ℕ)
      → IsLeaf page fk fv entries
      → 0 < length entries
      → i ≤ length entries
      → value_start (leaf_of page fk fv entries) i
        ≡ some (section_of fk fv entries + length (flat (keys entries)) + upto i (values entries))
  unfolding value_start
  value_start-IsLeaf fk fv zero h some_pair l =
      let m = length entries - 1 in
      let last : sub64 (length entries) 1 ≡ m = omega (arith, h.few) in
      rw (last, last_key_end fk fv m h (omega arith)) (ap some (omega arith))
  value_start-IsLeaf fk fv (suc i) h some_pair l = value_end-IsLeaf fk fv i h l

  -- The accessor finds each entry of the page.
  module _ (fk fv : Option ℕ) (i : ℕ) {k v : List ℕ} (h : IsLeaf page fk fv entries)
      (e : get_elem? entries i ≡ some (k, v)) where
    key_here : At page (section_of fk fv entries + upto i (keys entries)) k
    key_here =
        At-flat (section_of fk fv entries) (keys entries) i h.key_data
          (get_elem?-map (λ (e : Entry). e.0) entries i e)

    value_here :
        At page
          (section_of fk fv entries + length (flat (keys entries)) + upto i (values entries))
          v
    value_here =
        At-flat (section_of fk fv entries + length (flat (keys entries))) (values entries) i
          h.value_data (get_elem?-map (λ (e : Entry). e.1) entries i e)

    key_bytes :
        range
          (section_of fk fv entries + upto i (keys entries))
          (section_of fk fv entries + upto (suc i) (keys entries))
          page
        ≡ ok k
    key_bytes =
        range-At key_here (
          omega (arith, upto-suc (keys entries) i (get_elem?-map (λ (e : Entry). e.0) entries i e)))

    value_bytes :
        range
          (section_of fk fv entries + length (flat (keys entries)) + upto i (values entries))
          (section_of fk fv entries + length (flat (keys entries)) + upto (suc i) (values entries))
          page
        ≡ ok v
    value_bytes = range-At value_here (
        omega (arith, upto-suc (values entries) i (get_elem?-map (λ (e : Entry). e.1) entries i e)))

    pub key_unchecked-IsLeaf : key_unchecked (leaf_of page fk fv entries) i ≡ ok k
    unfolding key_unchecked
    key_unchecked-IsLeaf =
        let l = get_elem?-lt entries i e in
        rw (key_start-IsLeaf fk fv i h (omega arith), key_end-IsLeaf fk fv i h l) key_bytes

    pub entry-IsLeaf :
        entry (leaf_of page fk fv entries) i ≡ ok (some (record { key = k; value = v }))
    unfolding entry value_range
    entry-IsLeaf =
        let l = get_elem?-lt entries i e in
        rw
          (
            key_start-IsLeaf fk fv i h (omega arith),
            key_end-IsLeaf fk fv i h l,
            key_bytes,
            value_start-IsLeaf fk fv i h (omega arith) (omega arith),
            value_end-IsLeaf fk fv i h l,
            value_bytes,
          )
          refl
