-- ===== src/Header/Writes.antt =====
-- Writing each field of the database header of src/tree_store/page_store/header.rs.
use redbx.Prelude.{ℕ, ◌+◌, ◌≡◌, refl, sym, ◌∙◌, List, [], ◌∷◌, ◌++◌, length, ok, replicate}
use redbx.Prelude.Bytes.{write}
use redbx.Prelude.Fields.{write-here, write-last, write-skip}
use redbx.Header.Fields.{Parts, IsLaidOut, parts_bytes, after_sizes, after_salt}

module _ (p : Parts) (l : IsLaidOut p) (x : List ℕ) where
  in_sizes :
      (k : ℕ) {r : List ℕ}
      → write k x (after_sizes p) ≡ ok r
      → write (12 + (4 + (4 + (4 + k)))) x (parts_bytes p)
        ≡ ok (
            114
            ∷ 100
            ∷ 98
            ∷ 120
            ∷ 0x1A
            ∷ 0x0A
            ∷ 0xA9
            ∷ 0x0D
            ∷ 0x0A
            ∷ p.god
            ∷ 0
            ∷ 0
            ∷ (p.page_size ++ (p.header_pages ++ (p.data_pages ++ r))))
  unfolding parts_bytes
  in_sizes k h =
      write-skip (114 ∷ 100 ∷ 98 ∷ 120 ∷ 0x1A ∷ 0x0A ∷ 0xA9 ∷ 0x0D ∷ 0x0A ∷ p.god ∷ 0 ∷ 0 ∷ [])
        (p.page_size ++ (p.header_pages ++ (p.data_pages ++ after_sizes p))) x (4 + (4 + (4 + k)))
        refl
        (write-skip p.page_size (p.header_pages ++ (p.data_pages ++ after_sizes p)) x (4 + (4 + k))
          l.page_size
          (write-skip p.header_pages (p.data_pages ++ after_sizes p) x (4 + k) l.header_pages
            (write-skip p.data_pages (after_sizes p) x k l.data_pages h)))

  in_salt :
      (k : ℕ) {r : List ℕ}
      → write k x (p.salt ++ after_salt p) ≡ ok r
      → write (4 + (4 + k)) x (after_sizes p) ≡ ok (p.full_regions ++ (p.trailing_pages ++ r))
  unfolding after_sizes
  in_salt k h =
      write-skip p.full_regions (p.trailing_pages ++ (p.salt ++ after_salt p)) x (4 + k)
        l.full_regions (write-skip p.trailing_pages (p.salt ++ after_salt p) x k l.trailing_pages h)

  in_slots :
      (k : ℕ) {r : List ℕ}
      → write k x (p.slot0 ++ p.slot1) ≡ ok r
      → write (16 + (32 + k)) x (p.salt ++ after_salt p) ≡ ok (p.salt ++ (replicate 32 0 ++ r))
  unfolding after_salt
  in_slots k h =
      write-skip p.salt (replicate 32 0 ++ (p.slot0 ++ p.slot1)) x (32 + k) l.salt
        (write-skip (replicate 32 0) (p.slot0 ++ p.slot1) x k refl h)

  pub write_page_size :
      length x ≡ 4 → write 12 x (parts_bytes p) ≡ ok (parts_bytes (record p { page_size = x }))
  unfolding parts_bytes write after_sizes after_salt
  write_page_size e =
      rw
        (write-here x p.page_size (p.header_pages ++ (p.data_pages ++ after_sizes p))
          (l.page_size ∙ sym e))
        refl

  pub write_header_pages :
      length x ≡ 4 → write 16 x (parts_bytes p) ≡ ok (parts_bytes (record p { header_pages = x }))
  unfolding parts_bytes write after_sizes after_salt
  write_header_pages e =
      rw
        (write-skip p.page_size (p.header_pages ++ (p.data_pages ++ after_sizes p)) x 0 l.page_size
          (write-here x p.header_pages (p.data_pages ++ after_sizes p) (l.header_pages ∙ sym e)))
        refl

  pub write_data_pages :
      length x ≡ 4 → write 20 x (parts_bytes p) ≡ ok (parts_bytes (record p { data_pages = x }))
  unfolding parts_bytes write after_sizes after_salt
  write_data_pages e =
      rw
        (write-skip p.page_size (p.header_pages ++ (p.data_pages ++ after_sizes p)) x 4 l.page_size
          (write-skip p.header_pages (p.data_pages ++ after_sizes p) x 0 l.header_pages
            (write-here x p.data_pages (after_sizes p) (l.data_pages ∙ sym e))))
        refl

  pub write_full_regions :
      length x ≡ 4 → write 24 x (parts_bytes p) ≡ ok (parts_bytes (record p { full_regions = x }))
  unfolding parts_bytes after_sizes after_salt
  write_full_regions e = in_sizes 0 (
      write-here x p.full_regions (p.trailing_pages ++ (p.salt ++ after_salt p))
        (l.full_regions ∙ sym e))

  pub write_trailing_pages :
      length x ≡ 4 → write 28 x (parts_bytes p) ≡ ok (parts_bytes (record p { trailing_pages = x }))
  unfolding parts_bytes after_sizes after_salt
  write_trailing_pages e = in_sizes 4 (
      write-skip p.full_regions (p.trailing_pages ++ (p.salt ++ after_salt p)) x 0 l.full_regions
        (write-here x p.trailing_pages (p.salt ++ after_salt p) (l.trailing_pages ∙ sym e)))

  pub write_salt :
      length x ≡ 16 → write 32 x (parts_bytes p) ≡ ok (parts_bytes (record p { salt = x }))
  unfolding parts_bytes after_sizes after_salt
  write_salt e = in_sizes 8 (in_salt 0 (write-here x p.salt (after_salt p) (l.salt ∙ sym e)))

  pub write_slot0 :
      length x ≡ 128 → write 80 x (parts_bytes p) ≡ ok (parts_bytes (record p { slot0 = x }))
  unfolding parts_bytes after_sizes after_salt
  write_slot0 e =
      in_sizes 56 (in_salt 48 (in_slots 0 (write-here x p.slot0 p.slot1 (l.slot0 ∙ sym e))))

  pub write_slot1 :
      length x ≡ 128 → write 208 x (parts_bytes p) ≡ ok (parts_bytes (record p { slot1 = x }))
  unfolding parts_bytes after_sizes after_salt
  write_slot1 e = in_sizes 184 (
      in_salt 176 (
        in_slots 128
          (write-skip p.slot0 p.slot1 x 0 l.slot0 (write-last x p.slot1 (l.slot1 ∙ sym e)))))
