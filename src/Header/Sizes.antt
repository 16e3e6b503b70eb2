-- ===== src/Header/Sizes.antt =====
-- The layout that the header of src/tree_store/page_store/header.rs keeps.
use redbx.Prelude.{
  ℕ, ◌<◌, ◌≡◌, refl, ap, sym, ◌∙◌, Option, none, some, ok, arith, ltb, ◌==◌, ==_refl, true, false,
  Bool-cases, inl, inr,
}
use redbx.Layout
use redbx.Layout.{DatabaseLayout}
use redbx.Layout.Region as Region
use redbx.Layout.Region.{RegionLayout}
use redbx.Header.{DatabaseHeader, layout, set_layout, same_region}

-- A trailing region of the file that a header describes, if there is one.
pub data IsTail (h : DatabaseHeader) : Option RegionLayout → Type 0 where
  no_tail : IsTail h none
  a_tail :
      (t : RegionLayout)
      → 0 < t.num_pages
      → t.header_pages ≡ h.region_header_pages
      → t.page_size ≡ h.page_size
      → IsTail h (some t)

-- A layout with the regions that the header describes.
pub record IsLayoutOf (h : DatabaseHeader) (l : DatabaseLayout) : Type 0 where
  pub some_pages : 0 < h.region_max_data_pages
  pub full : l.full_region_layout ≡ record {
    num_pages = h.region_max_data_pages;
    header_pages = h.region_header_pages;
    page_size = h.page_size;
  }
  pub trailing : IsTail h l.trailing_partial_region

full_of : DatabaseHeader → RegionLayout
full_of h = record {
  num_pages = h.region_max_data_pages;
  header_pages = h.region_header_pages;
  page_size = h.page_size;
}

tail_of : DatabaseHeader → RegionLayout
tail_of h = record {
  num_pages = h.trailing_partial_region_pages;
  header_pages = h.region_header_pages;
  page_size = h.page_size;
}

-- The layout of a header without a trailing region, and of one with it.
layout-none :
    (h : DatabaseHeader)
    → 0 < h.region_max_data_pages
    → ltb 0 h.trailing_partial_region_pages ≡ false
    → layout h ≡ ok (Layout.new h.full_regions (full_of h) none)
unfolding layout Region.new Layout.new full_of
layout-none h pos e =
    let some_pages : ltb 0 h.region_max_data_pages ≡ true = ground arith in rw (some_pages, e) refl

layout-some :
    (h : DatabaseHeader)
    → 0 < h.region_max_data_pages
    → ltb 0 h.trailing_partial_region_pages ≡ true
    → layout h ≡ ok (Layout.new h.full_regions (full_of h) (some (tail_of h)))
unfolding layout Region.new Layout.new full_of tail_of
layout-some h pos e =
    let some_pages : ltb 0 h.region_max_data_pages ≡ true = ground arith in rw (some_pages, e) refl

-- The full region of the layout that the header holds before the call.
held :
    (h : DatabaseHeader)
    → 0 < h.region_max_data_pages
    → (l : DatabaseLayout) × (layout h ≡ ok l) × (l.full_region_layout ≡ full_of h)
unfolding Layout.new
held h pos = elim (Bool-cases (ltb 0 h.trailing_partial_region_pages)) [
  | inl e ↦ (Layout.new h.full_regions (full_of h) (some (tail_of h)), layout-some h pos e, refl)
  | inr e ↦ (Layout.new h.full_regions (full_of h) none, layout-none h pos e, refl)
]

same_region_refl : (r : RegionLayout) → same_region r r ≡ true
unfolding same_region
same_region_refl r = rw (==_refl r.num_pages, ==_refl r.header_pages, ==_refl r.page_size) refl

module _ (h : DatabaseHeader) (pos : 0 < h.region_max_data_pages) (l : DatabaseLayout)
    (full : l.full_region_layout ≡ full_of h) where
  regions_agree :
      (c : DatabaseLayout)
      → c.full_region_layout ≡ full_of h
      → same_region c.full_region_layout l.full_region_layout ≡ true
  regions_agree c e =
      ap (λ r. same_region r l.full_region_layout) (e ∙ sym full)
      ∙ same_region_refl l.full_region_layout

  set_none :
      l.trailing_partial_region ≡ none
      → set_layout h l
        ≡ ok (record h { trailing_partial_region_pages = 0; full_regions = l.num_full_regions })
  unfolding set_layout
  set_none e = let (c, returns, agree) = held h pos in rw (returns, regions_agree c agree, e) refl

  set_some :
      (t : RegionLayout)
      → l.trailing_partial_region ≡ some t
      → t.header_pages ≡ h.region_header_pages
      → t.page_size ≡ h.page_size
      → set_layout h l
        ≡ ok (record h {
          trailing_partial_region_pages = t.num_pages;
          full_regions = l.num_full_regions;
        })
  unfolding set_layout
  set_some t e header page =
      let (c, returns, agree) = held h pos in
      let header' : (t.header_pages == h.region_header_pages) ≡ true = ground arith in
      let page' : (t.page_size == h.page_size) ≡ true = ground arith in
      rw (returns, regions_agree c agree, e, header', page') refl

-- A layout from its parts.
layout_parts :
    (l : DatabaseLayout) (full : RegionLayout) (o : Option RegionLayout)
    → l.full_region_layout ≡ full
    → l.trailing_partial_region ≡ o
    → Layout.new l.num_full_regions full o ≡ l
unfolding Layout.new
layout_parts l full o e e' =
    ap (λ f. Layout.new l.num_full_regions f o) (sym e)
    ∙ ap (λ t. Layout.new l.num_full_regions l.full_region_layout t) (sym e')

tail_eq :
    (h : DatabaseHeader) (t : RegionLayout) (n : ℕ)
    → t.header_pages ≡ h.region_header_pages
    → t.page_size ≡ h.page_size
    → tail_of (record h { trailing_partial_region_pages = t.num_pages; full_regions = n }) ≡ t
unfolding tail_of
tail_eq h t n header page = cc

read_back :
    (h : DatabaseHeader) (l : DatabaseLayout) (o : Option RegionLayout)
    → IsLayoutOf h l
    → l.trailing_partial_region ≡ o
    → IsTail h o
    → (h' : DatabaseHeader) × (set_layout h l ≡ ok h') × (layout h' ≡ ok l)
unfolding full_of
read_back h l none w e IsTail.no_tail =
    let n = l.num_full_regions in
    let h' : DatabaseHeader = record h { trailing_partial_region_pages = 0; full_regions = n } in
    (
      h',
      set_none h w.some_pages l w.full e,
      layout-none h' w.some_pages refl ∙ ap ok (layout_parts l (full_of h) none w.full e),
    )
read_back h l (some _) w e (IsTail.a_tail t pos header page) =
    let n = l.num_full_regions in
    let h' : DatabaseHeader = record h {
      trailing_partial_region_pages = t.num_pages;
      full_regions = n;
    } in
    (
      h',
      set_some h w.some_pages l w.full t e header page,
      layout-some h' w.some_pages (ground arith)
          ∙ ap (λ r. ok (Layout.new n (full_of h) (some r))) (tail_eq h t n header page)
          ∙ ap ok (layout_parts l (full_of h) (some t) w.full e),
    )

-- A layout with the full region that the header describes, of at least one page, and with no trailing
-- region or one of at least a page that has the same header and page size, is set without a panic, and
-- the header then gives it back.
pub layout-set_layout :
    (h : DatabaseHeader) (l : DatabaseLayout)
    → IsLayoutOf h l
    → (h' : DatabaseHeader) × (set_layout h l ≡ ok h') × (layout h' ≡ ok l)
layout-set_layout h l w = read_back h l l.trailing_partial_region w refl w.trailing
