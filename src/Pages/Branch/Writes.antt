-- ===== src/Pages/Branch/Writes.antt =====
-- One more child and one more key on a branch page of src/tree_store/btree_base.rs.
use redbx.Prelude.{
  ℕ, zero, suc, ◌+◌, ◌*◌, ◌^◌, ◌≤◌, ◌<◌, ◌≡◌, refl, sym, ap, ◌∙◌, subst, true, ltb, ◌==◌, List, [],
  ◌∷◌, ◌++◌, Option, none, some, arith, length, length-map, length-append, ok,
}
use mathlib.Core.List.{map-append}
use redbx.Prelude.Bytes.{to_le, write, length-to_le}
use redbx.Prelude.Memory.{At, write-Only, At-move}
use redbx.PageNumber
use redbx.PageNumber.{PageNumber}
use redbx.Pages.Column.{pointers, flat, Fits, Width, upto, write_end}
use redbx.Pages.Ends.{get_u32-offsets, upto_all, Fits-upto}
use redbx.Pages.Extend.{pointers-le, At-flat_one, column_grows, length-flat_one, Fits-append}
use redbx.Pages.Branch.Raw.{
  Child, RawBranchBuilder, write_child, raw_key_section_start, raw_key_end, data_offset,
  write_nth_key,
}
use redbx.Pages.Branch.Layout.{
  Holds, section, checksums, numbers, Fits-checksums, Fits-numbers, length-to_le_bytes,
}

abbrev pub raw : List ℕ → Option ℕ → ℕ → ℕ → RawBranchBuilder
raw page fk n written = record {
  page = page;
  fixed_key_size = fk;
  num_keys = n;
  keys_written = written;
}

-- The bytes of cells of a fixed size.
pub flat_fixed :
    (w : ℕ) (xs : List (List ℕ)) {n : ℕ}
    → Fits (some w) xs
    → length xs ≡ n
    → length (flat xs) ≡ w * n
flat_fixed w xs fits e =
    sym (upto_all xs) ∙ Fits-upto w xs (length xs) fits (omega arith) ∙ ap (λ n. w * n) e

module _ {page : List ℕ} (fk : Option ℕ) {n : ℕ} {keys : List (List ℕ)} {cs : List Child}
    (c : Child) where
  pub write_child-Holds :
      Holds page fk n keys cs
      → length cs ≤ n
      → (after : List ℕ) × (write_child n (length cs) c page ≡ ok after)
        × Holds after fk n keys (cs ++ (c ∷ []))
        × (length after ≡ length page)
  unfolding write_child
  write_child-Holds h room =
      let sums : length (flat (checksums cs)) ≡ 16 * length cs =
        flat_fixed 16 (checksums cs) (Fits-checksums cs)
          (length-map (λ (c : Child). to_le 16 c.1) cs) in
      let pages : length (flat (numbers cs)) ≡ 8 * length cs =
        flat_fixed 8 (numbers cs) (Fits-numbers cs)
          (length-map (λ (c : Child). PageNumber.to_le_bytes c.0) cs) in
      let inside = h.key_ends.inside in
      let l16 = length-to_le 16 c.1 in
      let l8 = length-to_le_bytes c.0 in
      let two = length-to_le 2 n in
      let (p1, e1, sum, o1) = write-Only (8 + 16 * length cs) (to_le 16 c.1) page (omega arith) in
      let (p2, e2, number, o2) =
        write-Only (8 + 16 * (n + 1) + 8 * length cs) (PageNumber.to_le_bytes c.0) p1
          (omega (arith, o1.size)) in
      let more_sums : checksums cs ++ (to_le 16 c.1 ∷ []) ≡ checksums (cs ++ (c ∷ [])) =
        sym (map-append (λ (c : Child). to_le 16 c.1) cs (c ∷ [])) in
      let more_numbers : numbers cs ++ (PageNumber.to_le_bytes c.0 ∷ [])
          ≡ numbers (cs ++ (c ∷ [])) =
        sym (map-append (λ (c : Child). PageNumber.to_le_bytes c.0) cs (c ∷ [])) in
      (
        p2,
        rw (e1, e2) refl,
        record {
          kind = o2.below (o1.below h.kind (omega arith)) (omega arith);
          count = o2.below (o1.below h.count (omega arith)) (omega arith);
          few = h.few;
          sums =
              subst (λ l. At p2 8 (flat l)) more_sums
                (At-flat_one 8 (checksums cs) (to_le 16 c.1)
                  (o2.below (o1.below h.sums (omega arith)) (omega arith))
                  (At-move (omega arith) (o2.below sum (omega arith))));
          pages =
              subst (λ l. At p2 (8 + 16 * (n + 1)) (flat l)) more_numbers
                (At-flat_one (8 + 16 * (n + 1)) (numbers cs) (PageNumber.to_le_bytes c.0)
                  (o2.below (o1.above h.pages (omega arith)) (omega arith))
                  (At-move (omega arith) number));
          key_ends = o2.above (o1.above h.key_ends (omega arith)) (omega arith);
          key_data = o2.above (o1.above h.key_data (omega arith)) (omega arith);
          key_fits = h.key_fits;
          small = h.small;
        },
        omega (arith, o1.size, o2.size),
      )

module _ {page : List ℕ} {n : ℕ} {keys : List (List ℕ)} {cs : List Child} where
  data_offset_lem :
      (fk : Option ℕ) (m written : ℕ)
      → Holds page fk n keys cs
      → length keys ≡ m
      → data_offset (raw page fk n written) m ≡ ok (section fk n + length (flat keys))
  unfolding data_offset raw_key_end raw_key_section_start
  data_offset_lem fk zero written h e = ap ok (omega (arith, flat_none keys e))
    where
      flat_none : (xs : List (List ℕ)) → length xs ≡ 0 → length (flat xs) ≡ 0
      flat_none [] e = refl
      flat_none (x ∷ xs) e = absurd (omega arith)
  data_offset_lem none (suc m) written h e =
      rw
        (get_u32-offsets (8 + 24 * (n + 1)) (section none n) keys m h.key_ends (omega arith)
          h.small)
        (ap (λ k. ok (section none n + k)) (ap (λ k. upto k keys) (sym e) ∙ upto_all keys))
  data_offset_lem (some f) (suc m) written h e =
      let all = ap (λ k. upto k keys) (sym e) ∙ upto_all keys in
      let fixed = Fits-upto f keys (suc m) h.key_fits (omega arith) in ground (arith, all, fixed)

-- A place for one more key, and its size.
pub record HasRoom (page : List ℕ) (fk : Option ℕ) (n : ℕ) (keys : List (List ℕ)) (key : List ℕ)
    : Type 0 where
  pub slot : length keys < n
  pub width : Width fk key
  pub bytes : section fk n + length (flat keys) + length key ≤ length page
  pub in_u32 : section fk n + length (flat keys) + length key < 2 ^ 32

-- A key behind the others.
key-Holds :
    {page : List ℕ} (fk : Option ℕ) {n : ℕ} {keys : List (List ℕ)} {cs : List Child} (key : List ℕ)
    → Holds page fk n keys cs
    → length cs ≤ n + 1
    → HasRoom page fk n keys key
    → (ended after : List ℕ) × (write_end fk
          (8 + 24 * (n + 1) + 4 * length keys)
          (section fk n + length (flat keys) + length key)
          page
        ≡ ok ended)
      × (write (section fk n + length (flat keys)) key ended ≡ ok after)
      × Holds after fk n (keys ++ (key ∷ [])) cs
      × (length after ≡ length page)
key-Holds fk {n} {keys} {cs} key h few r =
    let sums : length (flat (checksums cs)) ≡ 16 * length cs =
      flat_fixed 16 (checksums cs) (Fits-checksums cs)
        (length-map (λ (c : Child). to_le 16 c.1) cs) in
    let pages : length (flat (numbers cs)) ≡ 8 * length cs =
      flat_fixed 8 (numbers cs) (Fits-numbers cs)
        (length-map (λ (c : Child). PageNumber.to_le_bytes c.0) cs) in
    let two = length-to_le 2 n in
    let slots : pointers fk (length keys + 1) ≤ pointers fk n =
      pointers-le fk (omega (arith, r.slot)) in
    let (ended, after, e, f, ends, bytes, o) =
      column_grows fk (8 + 24 * (n + 1)) (section fk n) keys key _ h.key_ends h.key_data
        (omega arith) r.bytes r.in_u32 in
    (
      ended,
      after,
      e,
      f,
      record {
        kind = o.low h.kind (omega arith);
        count = o.low h.count (omega arith);
        few = h.few;
        sums = o.low h.sums (omega arith);
        pages = o.low h.pages (omega arith);
        key_ends = ends;
        key_data = bytes;
        key_fits = Fits-append fk keys key h.key_fits r.width;
        small = omega (arith, length-flat_one keys key, r.in_u32);
      },
      o.size,
    )

pub write_nth_key-Holds :
    (page : List ℕ) (fk : Option ℕ) {n : ℕ} {keys : List (List ℕ)} {cs : List Child} (key : List ℕ)
    (c : Child)
    → Holds page fk n keys cs
    → length cs ≡ length keys + 1
    → HasRoom page fk n keys key
    → (after : List ℕ) × (write_nth_key (raw page fk n (length keys)) key c (length keys)
        ≡ ok (raw after fk n (length keys + 1)))
      × Holds after fk n (keys ++ (key ∷ [])) (cs ++ (c ∷ []))
      × (length after ≡ length page)
unfolding write_nth_key
write_nth_key-Holds page fk {n} {keys} {cs} key c h one_more r =
    let (p, e, g, size) = write_child-Holds fk c h (omega (arith, r.slot)) in
    let room : HasRoom p fk n keys key = record {
      slot = r.slot;
      width = r.width;
      bytes = omega (arith, r.bytes);
      in_u32 = r.in_u32;
    } in
    let (ended, after, f, w, held, same) =
      key-Holds fk key g (omega (arith, r.slot, length-append cs (c ∷ []))) room in
    (
      after,
      key_steps page fk n (length keys) (length (flat keys)) (length cs) key c r.slot one_more e
          (data_offset_lem fk (length keys) (length keys + 1) g refl) f w,
      held,
      omega arith,
    )
  where
    key_steps :
        (page : List ℕ) (fk : Option ℕ) (n m bytes at : ℕ) {p ended after : List ℕ} (key : List ℕ)
        (c : Child)
        → m < n
        → at ≡ m + 1
        → write_child n at c page ≡ ok p
        → data_offset (raw p fk n (m + 1)) m ≡ ok (section fk n + bytes)
        → write_end fk (8 + 24 * (n + 1) + 4 * m) (section fk n + bytes + length key) p ≡ ok ended
        → write (section fk n + bytes) key ended ≡ ok after
        → write_nth_key (raw page fk n m) key c m ≡ ok (raw after fk n (m + 1))
    key_steps page fk n m bytes at key c l place e o f w =
        let slot : ltb m n ≡ true = ground arith in
        let next : (m == m) ≡ true = ground arith in
        let child : write_child n (m + 1) c page ≡ ok _ =
          ap (λ i. write_child n i c page) (sym place) ∙ e in
        rw (slot, next, child, o, f, w) refl
