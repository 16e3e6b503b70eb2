-- ===== src/Pages/Leaf/Append.antt =====
-- `RawLeafBuilder::append` of src/tree_store/btree_base.rs adds one entry to those of the page.
use redbx.Prelude.{
  ℕ, zero, suc, ◌+◌, ◌*◌, ◌≡◌, refl, sym, ap, ◌∙◌, List, [], ◌∷◌, Option, none, some, arith, length,
  length-map, ok, true, ◌==◌,
}
use redbx.Pages.Column.{pointers, flat, Width, upto}
use redbx.Pages.Ends.{get_u32-offsets, upto_all, Fits-upto}
use redbx.Pages.Leaf.Layout.{Entry, keys, values, section, Holds}
use redbx.Pages.Leaf.Raw.{
  RawLeafBuilder, raw_key_section_start, raw_key_end, raw_value_end, key_offset, value_offset,
  check_width,
}

-- A builder that has written some entries.
abbrev pub builder : List ℕ → Option ℕ → Option ℕ → ℕ → ℕ → ℕ → RawLeafBuilder
builder page fk fv n k written = record {
  page = page;
  fixed_key_size = fk;
  fixed_value_size = fv;
  num_pairs = n;
  provisioned_key_bytes = k;
  pairs_written = written;
}

pub upto_length : (xs : List (List ℕ)) {n : ℕ} → length xs ≡ n → upto n xs ≡ length (flat xs)
upto_length xs e = ap (λ n. upto n xs) (sym e) ∙ upto_all xs

flat_empty : (xs : List (List ℕ)) → length xs ≡ 0 → length (flat xs) ≡ 0
flat_empty [] e = refl
flat_empty (x ∷ xs) e = absurd (omega arith)

pub Width-checked : (fixed : Option ℕ) (x : List ℕ) → Width fixed x → check_width fixed x ≡ ok tt
Width-checked none x w = refl
Width-checked (some f) x w = let e : (f == length x) ≡ true = ground arith in rw e refl

module _ {page : List ℕ} {n k : ℕ} {entries : List Entry} where
  -- Where the builder finds the end of the last key and of the last value.
  pub raw_key_end_lem :
      (fk fv : Option ℕ) (last : ℕ)
      → Holds page fk fv n k entries
      → length entries ≡ suc last
      → (written : ℕ)
      → raw_key_end (builder page fk fv n k written) last
        ≡ ok (section fk fv n + length (flat (keys entries)))
  unfolding raw_key_end raw_key_section_start
  raw_key_end_lem none fv last h e written =
      let l : length (keys entries) ≡ suc last = length-map (λ (e : Entry). e.0) entries ∙ e in
      rw
        (get_u32-offsets 4 (section none fv n) (keys entries) last h.key_ends (omega arith)
          (omega (arith, h.small, h.enough)))
        (ap (λ m. ok (section none fv n + m)) (upto_length (keys entries) l))
  raw_key_end_lem (some f) fv last h e written =
      let l : length (keys entries) ≡ suc last = length-map (λ (e : Entry). e.0) entries ∙ e in
      ap (λ m. ok (section (some f) fv n + m))
        (ap (λ m. f * m) (omega arith)
          ∙ sym (Fits-upto f (keys entries) (suc last) h.key_fits (omega arith))
          ∙ upto_length (keys entries) l)

  raw_value_end_lem :
      (fk fv : Option ℕ) (last : ℕ)
      → Holds page fk fv n k entries
      → length entries ≡ suc last
      → (written : ℕ)
      → raw_value_end (builder page fk fv n k written) last
        ≡ ok (section fk fv n + k + length (flat (values entries)))
  unfolding raw_value_end raw_key_section_start
  raw_value_end_lem fk none last h e written =
      let l : length (values entries) ≡ suc last = length-map (λ (e : Entry). e.1) entries ∙ e in
      let place : 4 + 4 * last + pointers fk n ≡ 4 + pointers fk n + 4 * last = omega arith in
      rw
        (
          place,
          get_u32-offsets (4 + pointers fk n) (section fk none n + k) (values entries) last
              h.value_ends (omega arith) (omega (arith, h.small)),
        )
        (ap (λ m. ok (section fk none n + k + m)) (upto_length (values entries) l))
  raw_value_end_lem fk (some f) last h e written =
      let l : length (values entries) ≡ suc last = length-map (λ (e : Entry). e.1) entries ∙ e in
      ap (λ m. ok (section fk (some f) n + k + m))
        (ap (λ m. f * m) (omega arith)
          ∙ sym (Fits-upto f (values entries) (suc last) h.value_fits (omega arith))
          ∙ upto_length (values entries) l)

  pub key_offset_lem :
      (fk fv : Option ℕ) (written : ℕ)
      → Holds page fk fv n k entries
      → length entries ≡ written
      → key_offset (builder page fk fv n k (length entries)) written
        ≡ ok (section fk fv n + length (flat (keys entries)))
  unfolding key_offset raw_key_section_start
  key_offset_lem fk fv zero h e =
      let l = flat_empty (keys entries) (length-map (λ (e : Entry). e.0) entries ∙ e) in
      ap ok (omega arith)
  key_offset_lem fk fv (suc last) h e = raw_key_end_lem fk fv last h e (length entries)

  pub value_offset_lem :
      (fk fv : Option ℕ) (written : ℕ)
      → Holds page fk fv n k entries
      → length entries ≡ written
      → value_offset (builder page fk fv n k (length entries)) written
        ≡ ok (section fk fv n + k + length (flat (values entries)))
  unfolding value_offset raw_key_section_start
  value_offset_lem fk fv zero h e =
      let l = flat_empty (values entries) (length-map (λ (e : Entry). e.1) entries ∙ e) in
      ap ok (omega arith)
  value_offset_lem fk fv (suc last) h e = raw_value_end_lem fk fv last h e (length entries)
