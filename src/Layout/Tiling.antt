-- ===== src/Layout/Tiling.antt =====
-- The addresses of the regions of src/tree_store/page_store/layout.rs, and the end of the file.
use redbx.Prelude.{
  ℕ, suc, ◌+◌, ◌*◌, ◌-◌, ◌<◌, ◌≡◌, ap, some, Outcome, ok, ◌>>=◌, arith, Option-cases, subst, ◌∙◌,
  inl, inr,
}
use redbx.Prelude.Word.{u64_size, add64, sub32}
use native.Mathlib.Nat.{mul-le-mul_right}
use redbx.Layout.Region
use redbx.Layout.Region.{RegionLayout}
use redbx.Layout.{DatabaseLayout, num_regions, region_base_address, region_layout, len}
use redbx.Layout.Sizes.{
  IsLayout, SomeRegion, region_bytes, layout_bytes, trailing_bytes, region_count,
  num_regions-region_count, region_base_address_lem, region_layout_full, region_layout_trailing,
  len-region_bytes, full_len, trailing-IsRegion,
}

-- Where region `r` ends.
abbrev pub region_end : DatabaseLayout → ℕ → Outcome ℕ
region_end l r = do
  base ← region_base_address l r
  region ← region_layout l r
  ok (add64 base (Region.len region))

module _ (l : DatabaseLayout) (h : IsLayout l) where
  full_end :
      (r : ℕ)
      → r < l.num_full_regions
      → region_end l r
        ≡ ok (l.full_region_layout.page_size + suc r * region_bytes l.full_region_layout)
  full_end r lt =
      let bytes = region_bytes l.full_region_layout in
      let bound = mul-le-mul_right {m = suc r} {n = l.num_full_regions} bytes lt in
      rw
        (
          region_base_address_lem l h r (omega arith),
          region_layout_full l h r lt,
          full_len l h r lt,
        )
        (ap ok (omega (arith, h.fits)))

  trailing_end :
      (t : RegionLayout)
      → l.trailing_partial_region ≡ some t
      → region_end l l.num_full_regions ≡ ok (layout_bytes l)
  trailing_end t e =
      let fits : layout_bytes l < u64_size = h.fits in
      let (valid, small) = trailing-IsRegion l h t e in
      rw
        (
          region_base_address_lem l h l.num_full_regions (ground arith),
          region_layout_trailing l h t e,
          e,
        )
        (rw (len-region_bytes t valid small) (ap ok (omega (arith, ap trailing_bytes e))))

  -- In a well-formed layout that fits `u64`, a region that is not the first starts where the one before
  -- it ends.
  pub region_base_address-region_end :
      (r : ℕ) → r + 1 < region_count l h → region_base_address l (r + 1) ≡ region_end l r
  region_base_address-region_end r lt =
      let full : r < l.num_full_regions = ground arith in
      rw (region_base_address_lem l h (r + 1) lt, full_end r full) (ap ok (omega arith))

  -- In a well-formed layout that fits `u64`, `len` is the end of the last region: the super-header, the full regions and the trailing one.
  pub len-layout_bytes : len l ≡ ok (layout_bytes l)
  unfolding len
  len-layout_bytes = elim (Option-cases l.trailing_partial_region) [
    | inl e ↦
        let bytes = region_bytes l.full_region_layout in
        let pos : 0 < l.num_full_regions = subst (SomeRegion l.num_full_regions) e h.inhabited in
        let k = l.num_full_regions - 1 in
        let same : suc k ≡ l.num_full_regions = omega arith in
        let last : sub32 (num_regions l) 1 ≡ k =
          rw num_regions-region_count (rw e (omega (arith, h.regions))) in
        rw last (
          full_end k (omega arith)
          ∙ ap ok (omega (arith, ap (λ n. n * bytes) same, ap trailing_bytes e)))
    | inr (t, e) ↦
        let last : sub32 (num_regions l) 1 ≡ l.num_full_regions =
          rw num_regions-region_count (rw e (omega (arith, h.regions))) in
        rw last (trailing_end t e)
  ]
