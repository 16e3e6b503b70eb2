-- ===== src/Pages/Leaf/Grow.antt =====
-- One more entry on a leaf page of src/tree_store/btree_base.rs: `append` in whole.
use redbx.Prelude.{
  ℕ, ◌+◌, ◌*◌, ◌^◌, ◌≤◌, ◌<◌, ◌≡◌, refl, sym, ap, ◌∙◌, subst, List, [], ◌∷◌, ◌++◌, Option, arith,
  length, length-map, length-append, ok, true, leb,
}
use mathlib.Core.List.{map-append}
use redbx.Prelude.Word.{sub64}
use redbx.Prelude.Bytes.{write, length-to_le}
use redbx.Prelude.Memory.{At}
use redbx.Pages.Column.{pointers, flat, column, Fits, Width, write_end}
use redbx.Pages.Ends.{length-column}
use redbx.Pages.Extend.{pointers-le, Fits-append, column_grows, length-flat_one}
use redbx.Pages.Leaf.Layout.{Entry, keys, values, section, Holds}
use redbx.Pages.Leaf.Raw.{raw_key_section_start, key_offset, value_offset, append}
use redbx.Pages.Leaf.Append.{builder, Width-checked, key_offset_lem, value_offset_lem}

-- What `append` asks for: a place for the entry among those of the page, and the sizes.
pub record HasRoom (page : List ℕ) (fk fv : Option ℕ) (n k : ℕ) (entries : List Entry)
    (key value : List ℕ) : Type 0 where
  pub slot : length entries < n
  pub key_width : Width fk key
  pub value_width : Width fv value
  pub key_bytes : length (flat (keys entries)) + length key ≤ k
  pub value_bytes :
      section fk fv n + k + length (flat (values entries)) + length value ≤ length page
  pub in_u32 : section fk fv n + k + length (flat (values entries)) + length value < 2 ^ 32

-- `append`, from what its steps do.
append_steps :
    (page : List ℕ) {key_ended with_key value_ended after : List ℕ} (fk fv : Option ℕ) {n k : ℕ}
    (m ks vs : ℕ) (key value : List ℕ)
    → Width fk key
    → Width fv value
    → key_offset (builder page fk fv n k m) m ≡ ok (section fk fv n + ks)
    → value_offset (builder page fk fv n k m) m ≡ ok (section fk fv n + k + vs)
    → write_end fk (4 + 4 * m) (section fk fv n + ks + length key) page ≡ ok key_ended
    → write (section fk fv n + ks) key key_ended ≡ ok with_key
    → ks + length key ≤ k
    → section fk fv n + k < 2 ^ 32
    → write_end fv (4 + pointers fk n + 4 * m) (section fk fv n + k + vs + length value) with_key
      ≡ ok value_ended
    → write (section fk fv n + k + vs) value value_ended ≡ ok after
    → append (builder page fk fv n k m) key value ≡ ok (builder after fk fv n k (m + 1))
unfolding append raw_key_section_start
append_steps page fk fv {n} {k} m ks vs key value wk wv ok1 ok2 e1 e2 h small e3 e4 =
    let place : 4 + 4 * m + pointers fk n ≡ 4 + pointers fk n + 4 * m = omega arith in
    let inside : leb (sub64 (section fk fv n + ks + length key) (section fk fv n)) k ≡ true =
      ground arith in
    rw (Width-checked fk key wk, Width-checked fv value wv, ok1, ok2, e1, e2, inside, place, e3, e4)
      refl

module _ {page : List ℕ} (fk fv : Option ℕ) {n k : ℕ} {entries : List Entry} (key value : List ℕ)
    (h : Holds page fk fv n k entries) (r : HasRoom page fk fv n k entries key value) where
  -- The entry is written behind the others, which stay.
  pub append-Holds :
      (after : List ℕ) × (append (builder page fk fv n k (length entries)) key value
        ≡ ok (builder after fk fv n k (length entries + 1)))
      × Holds after fk fv n k (entries ++ ((key, value) ∷ []))
      × (length after ≡ length page)
  append-Holds =
      let m = length entries in
      let start = section fk fv n in
      let lk = length-map (λ (e : Entry). e.0) entries in
      let lv = length-map (λ (e : Entry). e.1) entries in
      let ck = length-column fk start (keys entries) in
      let cv = length-column fv (start + k) (values entries) in
      let pk : pointers fk (length (keys entries) + 1) ≤ pointers fk n =
        pointers-le fk (omega (arith, r.slot)) in
      let pv : pointers fv (length (values entries) + 1) ≤ pointers fv n =
        pointers-le fv (omega (arith, r.slot)) in
      let qk : pointers fk (length (keys entries)) ≤ pointers fk (length (keys entries) + 1) =
        pointers-le fk (omega arith) in
      let qv : pointers fv (length (values entries)) ≤ pointers fv (length (values entries) + 1) =
        pointers-le fv (omega arith) in
      let (p1, p2, e1, e2, key_ends, key_data, o) =
        column_grows fk 4 start (keys entries) key page h.key_ends h.key_data (omega arith)
          (omega (arith, r.key_bytes, r.value_bytes)) (omega (arith, r.key_bytes, r.in_u32)) in
      let (p3, p4, e3, e4, value_ends, value_data, q) =
        column_grows fv (4 + pointers fk n) (start + k) (values entries) value p2
          (o.between h.value_ends (omega arith) (omega arith))
          (o.high h.value_data (omega (arith, r.key_bytes))) (omega arith)
          (omega (arith, r.value_bytes, o.size)) (omega (arith, r.in_u32)) in
      let ck' =
        length-column fk start (keys entries ++ (key ∷ []))
        ∙ ap (pointers fk) (length-append (keys entries) (key ∷ [])) in
      let all_keys : keys entries ++ (key ∷ []) ≡ keys (entries ++ ((key, value) ∷ [])) =
        sym (map-append (λ (e : Entry). e.0) entries ((key, value) ∷ [])) in
      let all_values : values entries ++ (value ∷ []) ≡ values (entries ++ ((key, value) ∷ [])) =
        sym (map-append (λ (e : Entry). e.1) entries ((key, value) ∷ [])) in
      (
        p4,
        append_steps page fk fv (length entries) (length (flat (keys entries)))
            (length (flat (values entries))) key value r.key_width r.value_width
            (key_offset_lem fk fv (length entries) h refl)
            (value_offset_lem fk fv (length entries) h refl)
            (ap
                (λ l.
                  write_end fk (4 + 4 * l) (start + length (flat (keys entries)) + length key) page)
                (sym lk)
              ∙ e1)
            e2 r.key_bytes (omega (arith, r.in_u32))
            (ap
                (λ l.
                  write_end fv (4 + pointers fk n + 4 * l)
                    (start + k + length (flat (values entries)) + length value) p2)
                (sym lv)
              ∙ e3)
            e4,
        record {
          kind = q.low (o.low h.kind (omega arith)) (omega arith);
          count =
              q.low (o.low h.count (omega (arith, length-to_le 2 n)))
                (omega (arith, length-to_le 2 n));
          few = h.few;
          key_ends =
              subst (λ l. At p4 4 (column fk start l)) all_keys (q.low key_ends (omega arith));
          value_ends =
              subst (λ l. At p4 (4 + pointers fk n) (column fv (start + k) l)) all_values
                value_ends;
          key_data =
              subst (λ l. At p4 start (flat l)) all_keys
                (q.between key_data (omega arith)
                  (omega (arith, length-flat_one (keys entries) key, r.key_bytes)));
          value_data = subst (λ l. At p4 (start + k) (flat l)) all_values value_data;
          key_fits =
              subst (Fits fk) all_keys (Fits-append fk (keys entries) key h.key_fits r.key_width);
          value_fits =
              subst (Fits fv) all_values
                (Fits-append fv (values entries) value h.value_fits r.value_width);
          small =
              subst (λ l. start + k + length (flat l) < 2 ^ 32) all_values
                (omega (arith, length-flat_one (values entries) value, r.in_u32));
          enough =
              subst (λ l. length (flat l) ≤ k) all_keys
                (omega (arith, length-flat_one (keys entries) key, r.key_bytes));
        },
        omega (arith, o.size, q.size),
      )
