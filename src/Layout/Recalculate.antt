-- ===== src/Layout/Recalculate.antt =====
-- `DatabaseLayout::recalculate` of src/tree_store/page_store/layout.rs on the length of a file.
use redbx.Prelude.{
  ℕ, suc, ◌+◌, ◌*◌, ◌/◌, ◌<◌, ◌≤◌, ◌≡◌, ◌∙◌, true, false, Option, none, some, ok, ◌>>=◌, arith,
  if◌then◌else◌, Option-cases, inl, inr, ltb, leb, lt→ltb, le→leb, subst,
}
use redbx.Prelude.Word.{u32_size, u64_size, add64, sub64, mul64}
use native.Mathlib.Nat.{mul-le-mul_right, mul-add-div_right, div-eq_of_lt, mul-div_left}
use redbx.Layout.Region
use redbx.Layout.Region.{RegionLayout, div}
use redbx.Layout.{DatabaseLayout, recalculate_trailing, recalculate, len}
use redbx.Layout.Sizes.{
  IsLayout, region_bytes, data_bytes, layout_bytes, trailing_bytes, IsTrailing-at,
}
use redbx.Layout.Tiling.{len-layout_bytes}

-- Dividing the bytes after the super-header by the size of a full region.
div_lem : (n f t : ℕ) → t < f → div (n * f + t) f ≡ ok n
unfolding div
div_lem n f t lt =
    let pos : 0 < f = omega arith in
    let quotient : (n * f + t) / f ≡ n =
      mul-add-div_right pos n t ∙ omega (arith, div-eq_of_lt lt) in
    ground arith

-- The trailing region is strictly shorter than a full one.
abbrev pub IsPartial : RegionLayout → Option RegionLayout → Type 0
IsPartial full none = Unit
IsPartial full (some r) = r.num_pages < full.num_pages

trailing_lem :
    (t : RegionLayout) (max : ℕ)
    → 0 < t.num_pages
    → t.num_pages < max
    → 0 < t.page_size
    → region_bytes t < u64_size
    → data_bytes t < u32_size
    → recalculate_trailing (region_bytes t) t.header_pages max t.page_size ≡ ok (some t)
unfolding recalculate_trailing Region.new div
trailing_lem t max pos lt page small fits =
    let rest : sub64 (region_bytes t) (mul64 t.header_pages t.page_size)
        ≡ t.num_pages * t.page_size =
      omega arith in
    let narrow : ltb (t.num_pages * t.page_size) u32_size ≡ true = lt→ltb _ _ (omega arith) in
    let quotient : t.num_pages * t.page_size / t.page_size ≡ t.num_pages =
      mul-div_left t.num_pages page in
    rw (rest, narrow) (ground arith)

-- The steps of `recalculate`, given what each computes.
recalculate_steps :
    (file h m p rest size n rest' : ℕ) (trailing : Option RegionLayout)
    → sub64 file p ≡ rest
    → mul64 (add64 h m) p ≡ size
    → div rest size ≡ ok n
    → sub64 rest (mul64 n size) ≡ rest'
    → (if leb (mul64 (add64 h 1) p) rest' then recalculate_trailing rest' h m p else ok none)
      ≡ ok trailing
    → 0 < m
    → n < u32_size
    → recalculate file h m p
      ≡ ok (record {
        full_region_layout = record { num_pages = m; header_pages = h; page_size = p };
        num_full_regions = n;
        trailing_partial_region = trailing;
      })
unfolding recalculate Region.new
recalculate_steps file h m p rest size n rest' trailing e1 e2 e3 e4 e5 pos small =
    rw (e1, e2, e3, e4, e5, lt→ltb 0 m pos, lt→ltb n u32_size small)

module _ (l : DatabaseLayout) (h : IsLayout l)
    (full_fits : region_bytes l.full_region_layout < u64_size) where
  abbrev full_size : ℕ
  full_size = region_bytes l.full_region_layout

  abbrev room : ℕ
  room = mul64 (add64 l.full_region_layout.header_pages 1) l.full_region_layout.page_size

  after_header :
      sub64 (layout_bytes l) l.full_region_layout.page_size
      ≡ l.num_full_regions * full_size + trailing_bytes l.trailing_partial_region
  after_header = omega (arith, h.fits)

  size_lem :
      mul64
        (add64 l.full_region_layout.header_pages l.full_region_layout.num_pages)
        l.full_region_layout.page_size
      ≡ full_size
  size_lem =
      let pages : add64 l.full_region_layout.header_pages l.full_region_layout.num_pages
          ≡ l.full_region_layout.header_pages + l.full_region_layout.num_pages =
        omega (arith, h.full.pages, h.full.header) in
      rw pages (omega arith)

  after_regions :
      sub64
        (l.num_full_regions * full_size + trailing_bytes l.trailing_partial_region)
        (mul64 l.num_full_regions full_size)
      ≡ trailing_bytes l.trailing_partial_region
  after_regions = omega (arith, h.fits)

  room_lem : room ≡ (l.full_region_layout.header_pages + 1) * l.full_region_layout.page_size
  room_lem =
      let p = l.full_region_layout.page_size in
      let pages : add64 l.full_region_layout.header_pages 1
          ≡ l.full_region_layout.header_pages + 1 =
        omega (arith, h.full.header) in
      rw pages (
        omega
          (arith, mul-le-mul_right {m = 1} {n = l.full_region_layout.num_pages} p h.full.pages.0))

  room_none : leb room 0 ≡ false
  room_none = rw room_lem (ground (arith, h.full.page))

  module _ (t : RegionLayout) (e : l.trailing_partial_region ≡ some t) where
    room_some : leb room (region_bytes t) ≡ true
    room_some =
        let (pos, le, header, page) = IsTrailing-at l h t e in
        let p = l.full_region_layout.page_size in
        rw (room_lem, ← header, ← page)
          (le→leb _ _ (omega (arith, mul-le-mul_right {m = 1} {n = t.num_pages} t.page_size pos)))

    shorter : t.num_pages < l.full_region_layout.num_pages → region_bytes t < full_size
    shorter lt =
        let (pos, le, header, page) = IsTrailing-at l h t e in
        let wider =
          mul-le-mul_right {m = suc t.num_pages} {n = l.full_region_layout.num_pages}
            l.full_region_layout.page_size lt in
        rw (header, page) (omega (arith, h.full.page))

  size_pos : 0 < full_size
  size_pos = omega (
    arith,
    mul-le-mul_right {m = 1} {n = l.full_region_layout.num_pages} l.full_region_layout.page_size
        h.full.pages.0,
    h.full.page,
  )

  -- The layout comes back if its trailing region does.
  recalculate_from :
      trailing_bytes l.trailing_partial_region < full_size
      → (if leb room (trailing_bytes l.trailing_partial_region)
          then recalculate_trailing
              (trailing_bytes l.trailing_partial_region)
              l.full_region_layout.header_pages
              l.full_region_layout.num_pages
              l.full_region_layout.page_size
          else ok none)
        ≡ ok l.trailing_partial_region
      → recalculate
          (layout_bytes l)
          l.full_region_layout.header_pages
          l.full_region_layout.num_pages
          l.full_region_layout.page_size
        ≡ ok l
  recalculate_from less back =
      recalculate_steps (layout_bytes l) l.full_region_layout.header_pages
        l.full_region_layout.num_pages l.full_region_layout.page_size _ _ l.num_full_regions _ _
        after_header size_lem
        (div_lem l.num_full_regions full_size (trailing_bytes l.trailing_partial_region) less)
        after_regions back h.full.pages.0 (omega (arith, h.regions))

  trailing_back :
      (t : RegionLayout)
      → l.trailing_partial_region ≡ some t
      → t.num_pages < l.full_region_layout.num_pages
      → data_bytes l.full_region_layout ≤ u32_size
      → (if leb room (region_bytes t)
          then recalculate_trailing
              (region_bytes t)
              l.full_region_layout.header_pages
              l.full_region_layout.num_pages
              l.full_region_layout.page_size
          else ok none)
        ≡ ok (some t)
  trailing_back t e lt narrow =
      let (pos, le, header, page) = IsTrailing-at l h t e in
      let less = shorter t e lt in
      let wider =
        mul-le-mul_right {m = suc t.num_pages} {n = l.full_region_layout.num_pages}
          l.full_region_layout.page_size lt in
      rw (room_some t e, ← header, ← page)
        (trailing_lem t l.full_region_layout.num_pages pos lt (omega (arith, h.full.page))
          (omega (arith, less)) (rw page (omega (arith, h.full.page))))

-- A well-formed layout whose trailing region is shorter than a full one, and whose full regions hold at most
-- 4 GiB of pages, is recovered from the length of its file.
pub recalculate-len :
    (l : DatabaseLayout)
    → IsLayout l
    → IsPartial l.full_region_layout l.trailing_partial_region
    → region_bytes l.full_region_layout < u64_size
    → data_bytes l.full_region_layout ≤ u32_size
    → (do
      n ← len l
      recalculate n l.full_region_layout.header_pages l.full_region_layout.num_pages
          l.full_region_layout.page_size)
      ≡ ok l
recalculate-len l h partial full_fits narrow =
    rw (len-layout_bytes l h) (elim (Option-cases l.trailing_partial_region) [
      | inl e ↦
          recalculate_from l h full_fits (rw e (size_pos l h full_fits))
            (rw (e, room_none l h full_fits))
      | inr (t, e) ↦
          let lt = subst (IsPartial l.full_region_layout) e partial in
          recalculate_from l h full_fits (rw e (shorter l h full_fits t e lt))
            (rw e (trailing_back l h full_fits t e lt narrow))
    ])
