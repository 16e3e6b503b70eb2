-- ===== src/Layout/Shrink.antt =====
-- `reduce_last_region` takes pages off the end of the file.
use redbx.Prelude.{
  ℕ, suc, ◌+◌, ◌*◌, ◌-◌, ◌<◌, ◌≤◌, ◌≡◌, refl, ap, Option, none, some, ok, arith, Option-cases,
  Bool-cases, inl, inr, ltb, lt→ltb, le→leb, ltb→lt, ltb→le, subst, ◌==◌,
}
use redbx.Prelude.Word.{sub32}
use redbx.Layout.Region
use redbx.Layout.Region.{RegionLayout}
use redbx.Layout.{DatabaseLayout, reduce_last_region}
use redbx.Layout.Sizes.{IsLayout, IsTrailing, SomeRegion, IsTrailing-at}

-- The pages of the last region.
abbrev pub last_pages : DatabaseLayout → ℕ
last_pages l = elim l.trailing_partial_region [
  | some t ↦ t.num_pages
  | none ↦ l.full_region_layout.num_pages
]

-- All pages of all regions.
abbrev pub trailing_pages : Option RegionLayout → ℕ
trailing_pages none = 0
trailing_pages (some t) = t.num_pages

abbrev pub total_pages : DatabaseLayout → ℕ
total_pages l =
    l.num_full_regions * l.full_region_layout.num_pages + trailing_pages l.trailing_partial_region

-- What the call leaves: exactly the pages that were not taken off, in regions of the same kind.
pub record Reduced (pages : ℕ) (l l' : DatabaseLayout) : Type 0 where
  pub full : l'.full_region_layout ≡ l.full_region_layout
  pub total : total_pages l' + pages ≡ total_pages l
  pub trailing : IsTrailing l'.full_region_layout l'.trailing_partial_region

module _ (l : DatabaseLayout) (pages : ℕ) (h : IsLayout l) where
  reduce_trailing :
      (t : RegionLayout)
      → l.trailing_partial_region ≡ some t
      → pages ≤ t.num_pages
      → (l' : DatabaseLayout) × (reduce_last_region l pages ≡ ok l') × Reduced pages l l'
  unfolding reduce_last_region
  reduce_trailing t e fits =
      let (pos, le, header, page) = IsTrailing-at l h t e in
      let left : sub32 t.num_pages pages ≡ t.num_pages - pages = omega (arith, h.full.pages) in
      elim (Bool-cases (t.num_pages - pages == 0)) [
        | inl gone ↦ (
          record l { trailing_partial_region = none },
          rw (e, le→leb pages t.num_pages fits, left, gone),
          record {
            full = refl;
            total =
                let e' : t.num_pages ≡ pages = ground arith in omega (arith, ap trailing_pages e);
            trailing = tt;
          },
        )
        | inr some_left ↦ (
          record l {
            trailing_partial_region = some (record t { num_pages = t.num_pages - pages });
          },
          rw (e, le→leb pages t.num_pages fits, left, some_left),
          record {
            full = refl;
            total = omega (arith, ap trailing_pages e);
            trailing = (ground arith, omega arith, header, page);
          },
        )
      ]

  reduce_full :
      l.trailing_partial_region ≡ none
      → pages ≤ l.full_region_layout.num_pages
      → (l' : DatabaseLayout) × (reduce_last_region l pages ≡ ok l') × Reduced pages l l'
  unfolding reduce_last_region Region.new
  reduce_full e fits =
      let full = l.full_region_layout in
      let pos : 0 < l.num_full_regions = subst (SomeRegion l.num_full_regions) e h.inhabited in
      let k = l.num_full_regions - 1 in
      let same : suc k ≡ l.num_full_regions = omega arith in
      let count = ap (λ n. n * full.num_pages) same in
      let fewer : sub32 l.num_full_regions 1 ≡ k = omega (arith, h.regions) in
      let left : sub32 full.num_pages pages ≡ full.num_pages - pages =
        omega (arith, h.full.pages) in
      elim (Bool-cases (ltb pages full.num_pages)) [
        | inl more ↦
            let rest_pos : 0 < full.num_pages - pages = omega (arith, ltb→lt _ _ more) in
            (
              record {
                full_region_layout = full;
                num_full_regions = k;
                trailing_partial_region = some (record full { num_pages = full.num_pages - pages });
              },
              rw (e, more, fewer, left, lt→ltb 0 (full.num_pages - pages) rest_pos),
              record {
                full = refl;
                total = omega (arith, ap trailing_pages e);
                trailing = (rest_pos, omega arith, refl, refl);
              },
            )
        | inr all ↦
            let same_pages : pages ≡ full.num_pages = omega (arith, ltb→le _ _ all) in
            (
              record l { num_full_regions = k },
              rw (e, all, fewer),
              record {
                full = refl;
                total = omega (arith, ap trailing_pages e);
                trailing = h.trailing;
              },
            )
      ]

  -- In a well-formed layout, taking off at most the pages of the last region does not panic; all other pages stay, and what
  -- is left of the last region has the header and page size of a full one.
  pub reduce_last_region-Reduced :
      pages ≤ last_pages l
      → (l' : DatabaseLayout) × (reduce_last_region l pages ≡ ok l') × Reduced pages l l'
  reduce_last_region-Reduced fits = elim (Option-cases l.trailing_partial_region) [
    | inl e ↦ reduce_full e (ground arith)
    | inr (t, e) ↦ reduce_trailing t e (ground arith)
  ]
