-- ===== src/Pages/Leaf/Parts.antt =====
-- A leaf page of src/tree_store/btree_base.rs around one of its entries: the parts before and behind
-- it, taken apart and put together without it.
use redbx.Prelude.{
  ℕ, ◌+◌, ◌≡◌, ap, ◌∙◌, subst, List, [], ◌∷◌, ◌++◌, Option, none, some, arith, length,
  length-append, length-map,
}
use mathlib.Core.List.{map-append}
use redbx.Prelude.Memory.{At, At-left, At-right, At-move}
use redbx.Pages.Column.{pointers, flat, column, Fits}
use redbx.Pages.Ends.{length-column}
use redbx.Pages.Extend.{column-append, flat-append, pointers-add}
use redbx.Pages.Leaf.Layout.{Entry, keys, values, section, IsLeaf}

-- The offset at which the column goes on behind an entry.
pub column-later :
    (fixed : Option ℕ) (s : ℕ) (x : List ℕ) (ys : List (List ℕ))
    → column fixed s (x ∷ ys) ≡ column fixed s (x ∷ []) ++ column fixed (s + length x) ys
column-later fixed s x ys =
    column-append fixed s (x ∷ []) ys
    ∙ ap (λ m. column fixed s (x ∷ []) ++ column fixed m ys) (omega (arith, length-append x []))

pub column_parts :
    (fixed : Option ℕ) {page : List ℕ} (at s : ℕ) (xs : List (List ℕ)) (x : List ℕ)
    (ys : List (List ℕ))
    → At page at (column fixed s (xs ++ (x ∷ ys)))
    → At page at (column fixed s xs)
      × At page
          (at + pointers fixed (length xs + 1))
          (column fixed (s + length (flat xs) + length x) ys)
column_parts fixed {page} at s xs x ys stored =
    let here = s + length (flat xs) in
    let both = subst (At page at) (column-append fixed s xs (x ∷ ys)) stored in
    let behind =
      subst (At page (at + length (column fixed s xs))) (column-later fixed here x ys)
        (At-right (column fixed s xs) (column fixed here (x ∷ ys)) both) in
    let sizes = pointers-add fixed (length xs) 1 in
    (
      At-left (column fixed s xs) (column fixed here (x ∷ ys)) both,
      At-move (omega (arith, length-column fixed s xs, length-column fixed here (x ∷ [])))
          (At-right (column fixed here (x ∷ [])) (column fixed (here + length x) ys) behind),
    )

pub flat_parts :
    {page : List ℕ} (at : ℕ) (xs : List (List ℕ)) (x : List ℕ) (ys : List (List ℕ))
    → At page at (flat (xs ++ (x ∷ ys)))
    → At page at (flat xs) × At page (at + length (flat xs) + length x) (flat ys)
flat_parts {page} at xs x ys stored =
    let both = subst (At page at) (flat-append xs (x ∷ ys)) stored in
    (
      At-left (flat xs) (x ++ flat ys) both,
      At-right x (flat ys) (At-right (flat xs) (x ++ flat ys) both),
    )

pub length-flat_around :
    (xs : List (List ℕ)) (x : List ℕ) (ys : List (List ℕ))
    → length (flat (xs ++ (x ∷ ys))) ≡ length (flat xs) + length x + length (flat ys)
length-flat_around xs x ys =
    ap length (flat-append xs (x ∷ ys))
    ∙ omega (arith, length-append (flat xs) (x ++ flat ys), length-append x (flat ys))

pub length-flat-append :
    (xs ys : List (List ℕ)) → length (flat (xs ++ ys)) ≡ length (flat xs) + length (flat ys)
length-flat-append xs ys = ap length (flat-append xs ys) ∙ length-append (flat xs) (flat ys)

pub Fits-without :
    (fixed : Option ℕ) (xs : List (List ℕ)) (x : List ℕ) (ys : List (List ℕ))
    → Fits fixed (xs ++ (x ∷ ys))
    → Fits fixed (xs ++ ys)
Fits-without none [] x ys f = Fits-none ys
  where
    Fits-none : (xs : List (List ℕ)) → Fits none xs
    Fits-none [] = tt
    Fits-none (x ∷ xs) = tt
Fits-without none (y ∷ xs) x ys f = tt
Fits-without (some w) [] x ys f = f.1
Fits-without (some w) (y ∷ xs) x ys f = (f.0, Fits-without (some w) xs x ys f.1)

-- The parts of a page with columns of end offsets before and behind an entry, as they stand before the
-- gaps are closed.
pub record Around (page : List ℕ) (fk fv : Option ℕ) (n start middle s t u w : ℕ)
    (before : List Entry) (key value : List ℕ) (behind : List Entry) : Type 0 where
  pub keys_before : At page 4 (column fk s (keys before))
  pub keys_behind : At page (4 + pointers fk (length before + 1)) (column fk t (keys behind))
  pub values_before : At page (4 + pointers fk n) (column fv u (values before))
  pub values_behind :
      At page (4 + pointers fk n + pointers fv (length before + 1)) (column fv w (values behind))
  pub key_data_before : At page start (flat (keys before))
  pub key_data_behind :
      At page (start + length (flat (keys before)) + length key) (flat (keys behind))
  pub value_data_before : At page middle (flat (values before))
  pub value_data_behind :
      At page (middle + length (flat (values before)) + length value) (flat (values behind))

module _ (fk fv : Option ℕ) (before : List Entry) (key value : List ℕ) (behind : List Entry) where
  -- The entries with the one in the middle, and where the values begin.
  abbrev pub all_of : List Entry
  all_of = before ++ ((key, value) ∷ behind)

  abbrev pub start_of : ℕ
  start_of = section fk fv (length all_of)

  abbrev pub middle_of : ℕ
  middle_of = start_of + length (flat (keys all_of))

  pub IsLeaf-Around :
      {page : List ℕ}
      → IsLeaf page fk fv all_of
      → Around page fk fv
          (length all_of)
          start_of
          middle_of
          start_of
          (start_of + length (flat (keys before)) + length key)
          middle_of
          (middle_of + length (flat (values before)) + length value)
          before
          key
          value
          behind
  IsLeaf-Around {page} h =
      let ks = map-append (λ (e : Entry). e.0) before ((key, value) ∷ behind) in
      let vs = map-append (λ (e : Entry). e.1) before ((key, value) ∷ behind) in
      let lk = length-map (λ (e : Entry). e.0) before in
      let lv = length-map (λ (e : Entry). e.1) before in
      let (ka, kb) =
        column_parts fk 4 start_of (keys before) key (keys behind)
          (subst (λ l. At page 4 (column fk start_of l)) ks h.key_ends) in
      let (va, vb) =
        column_parts fv (4 + pointers fk (length all_of)) middle_of (values before) value
          (values behind)
          (subst (λ l. At page (4 + pointers fk (length all_of)) (column fv middle_of l)) vs
            h.value_ends) in
      let (dka, dkb) =
        flat_parts start_of (keys before) key (keys behind)
          (subst (λ l. At page start_of (flat l)) ks h.key_data) in
      let (dva, dvb) =
        flat_parts middle_of (values before) value (values behind)
          (subst (λ l. At page middle_of (flat l)) vs h.value_data) in
      record {
        keys_before = ka;
        keys_behind = At-move (ap (λ m. 4 + pointers fk (m + 1)) lk) kb;
        values_before = va;
        values_behind =
            At-move (ap (λ m. 4 + pointers fk (length all_of) + pointers fv (m + 1)) lv) vb;
        key_data_before = dka;
        key_data_behind = dkb;
        value_data_before = dva;
        value_data_behind = dvb;
      }
