-- ===== src/Header/Fields.antt =====
-- The fields of the database header of src/tree_store/page_store/header.rs side by side: writing and
-- reading each of them.
use redbx.Prelude.{ℕ, ◌+◌, ◌≡◌, refl, ◌∙◌, List, [], ◌∷◌, ◌++◌, length, ok, replicate}
use redbx.Prelude.Bytes.{slice, skip_bytes, take_bytes}
use redbx.Prelude.Fields.{slice-here, slice-last, slice-skip}
use redbx.Header.{magicnumber}

-- The fields of the header as they are stored.
pub record Parts : Type 0 where
  pub god : ℕ
  pub page_size : List ℕ
  pub header_pages : List ℕ
  pub data_pages : List ℕ
  pub full_regions : List ℕ
  pub trailing_pages : List ℕ
  pub salt : List ℕ
  pub slot0 : List ℕ
  pub slot1 : List ℕ

unfoldable pub after_salt : Parts → List ℕ
after_salt p = replicate 32 0 ++ (p.slot0 ++ p.slot1)

unfoldable pub after_sizes : Parts → List ℕ
after_sizes p = p.full_regions ++ (p.trailing_pages ++ (p.salt ++ after_salt p))

unfoldable pub parts_bytes : Parts → List ℕ
parts_bytes p =
    114
    ∷ 100
    ∷ 98
    ∷ 120
    ∷ 0x1A
    ∷ 0x0A
    ∷ 0xA9
    ∷ 0x0D
    ∷ 0x0A
    ∷ p.god
    ∷ 0
    ∷ 0
    ∷ (p.page_size ++ (p.header_pages ++ (p.data_pages ++ after_sizes p)))

-- Each field has its length.
pub record IsLaidOut (p : Parts) : Type 0 where
  pub page_size : length p.page_size ≡ 4
  pub header_pages : length p.header_pages ≡ 4
  pub data_pages : length p.data_pages ≡ 4
  pub full_regions : length p.full_regions ≡ 4
  pub trailing_pages : length p.trailing_pages ≡ 4
  pub salt : length p.salt ≡ 16
  pub slot0 : length p.slot0 ≡ 128
  pub slot1 : length p.slot1 ≡ 128

-- The header before its fields are written.
abbrev pub blank : ℕ → Parts
blank god = record {
  god = god;
  page_size = replicate 4 0;
  header_pages = replicate 4 0;
  data_pages = replicate 4 0;
  full_regions = replicate 4 0;
  trailing_pages = replicate 4 0;
  salt = replicate 16 0;
  slot0 = replicate 128 0;
  slot1 = replicate 128 0;
}

module _ (p : Parts) (l : IsLaidOut p) where
  skip_sizes :
      (k w : ℕ) → slice (12 + (4 + (4 + (4 + k)))) w (parts_bytes p) ≡ slice k w (after_sizes p)
  unfolding parts_bytes slice skip_bytes
  skip_sizes k w =
      slice-skip (114 ∷ 100 ∷ 98 ∷ 120 ∷ 0x1A ∷ 0x0A ∷ 0xA9 ∷ 0x0D ∷ 0x0A ∷ p.god ∷ 0 ∷ 0 ∷ [])
        (p.page_size ++ (p.header_pages ++ (p.data_pages ++ after_sizes p))) (4 + (4 + (4 + k))) w
        refl
      ∙ slice-skip p.page_size (p.header_pages ++ (p.data_pages ++ after_sizes p)) (4 + (4 + k)) w
          l.page_size
      ∙ slice-skip p.header_pages (p.data_pages ++ after_sizes p) (4 + k) w l.header_pages
      ∙ slice-skip p.data_pages (after_sizes p) k w l.data_pages

  skip_regions :
      (k w : ℕ) → slice (4 + (4 + k)) w (after_sizes p) ≡ slice k w (p.salt ++ after_salt p)
  unfolding after_sizes
  skip_regions k w =
      slice-skip p.full_regions (p.trailing_pages ++ (p.salt ++ after_salt p)) (4 + k) w
        l.full_regions
      ∙ slice-skip p.trailing_pages (p.salt ++ after_salt p) k w l.trailing_pages

  skip_salt :
      (k w : ℕ) → slice (16 + (32 + k)) w (p.salt ++ after_salt p) ≡ slice k w (p.slot0 ++ p.slot1)
  unfolding after_salt
  skip_salt k w =
      slice-skip p.salt (replicate 32 0 ++ (p.slot0 ++ p.slot1)) (32 + k) w l.salt
      ∙ slice-skip (replicate 32 0) (p.slot0 ++ p.slot1) k w refl

  pub read_magic : slice 0 9 (parts_bytes p) ≡ ok magicnumber
  unfolding parts_bytes slice skip_bytes take_bytes
  read_magic = refl

  pub read_page_size : slice 12 4 (parts_bytes p) ≡ ok p.page_size
  unfolding parts_bytes slice skip_bytes
  read_page_size =
      slice-here p.page_size (p.header_pages ++ (p.data_pages ++ after_sizes p)) l.page_size

  pub read_header_pages : slice 16 4 (parts_bytes p) ≡ ok p.header_pages
  unfolding parts_bytes slice skip_bytes
  read_header_pages =
      slice-skip p.page_size (p.header_pages ++ (p.data_pages ++ after_sizes p)) 0 4 l.page_size
      ∙ slice-here p.header_pages (p.data_pages ++ after_sizes p) l.header_pages

  pub read_data_pages : slice 20 4 (parts_bytes p) ≡ ok p.data_pages
  unfolding parts_bytes slice skip_bytes
  read_data_pages =
      slice-skip p.page_size (p.header_pages ++ (p.data_pages ++ after_sizes p)) 4 4 l.page_size
      ∙ slice-skip p.header_pages (p.data_pages ++ after_sizes p) 0 4 l.header_pages
      ∙ slice-here p.data_pages (after_sizes p) l.data_pages

  pub read_full_regions : slice 24 4 (parts_bytes p) ≡ ok p.full_regions
  unfolding after_sizes
  read_full_regions =
      skip_sizes 0 4
      ∙ slice-here p.full_regions (p.trailing_pages ++ (p.salt ++ after_salt p)) l.full_regions

  pub read_trailing_pages : slice 28 4 (parts_bytes p) ≡ ok p.trailing_pages
  unfolding after_sizes
  read_trailing_pages =
      skip_sizes 4 4
      ∙ slice-skip p.full_regions (p.trailing_pages ++ (p.salt ++ after_salt p)) 0 4 l.full_regions
      ∙ slice-here p.trailing_pages (p.salt ++ after_salt p) l.trailing_pages

  pub read_salt : slice 32 16 (parts_bytes p) ≡ ok p.salt
  read_salt = skip_sizes 8 16 ∙ skip_regions 0 16 ∙ slice-here p.salt (after_salt p) l.salt

  pub read_slot0 : slice 80 128 (parts_bytes p) ≡ ok p.slot0
  read_slot0 =
      skip_sizes 56 128 ∙ skip_regions 48 128 ∙ skip_salt 0 128 ∙ slice-here p.slot0 p.slot1 l.slot0

  pub read_slot1 : slice 208 128 (parts_bytes p) ≡ ok p.slot1
  read_slot1 =
      skip_sizes 184 128
      ∙ skip_regions 176 128
      ∙ skip_salt 128 128
      ∙ slice-skip p.slot0 p.slot1 0 128 l.slot0
      ∙ slice-last p.slot1 l.slot1
