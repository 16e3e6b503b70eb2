-- ===== src/Pages/Leaf/SplitLaws.antt =====
-- `build_split` of src/tree_store/btree_base.rs gives two leaf pages.
use redbx.Prelude.{
  ℕ, zero, suc, ◌+◌, ◌-◌, ◌/◌, ◌≤◌, ◌<◌, ◌≡◌, ◌⊎◌, inl, inr, refl, sym, ap, ◌∙◌, subst, List, [],
  ◌∷◌, map, Option, none, some, arith, length, ok, ◌>>=◌, get_elem?, take, drop, get_elem?-some,
  length-take, length-drop,
}
use redbx.Prelude.Word.{sub64}
use redbx.PageNumber.{PageNumber}
use redbx.Pages.Column.{upto}
use redbx.Pages.Leaf.Layout.{Entry, keys, values}
use redbx.Pages.Leaf.Raw.{required_bytes}
use redbx.Pages.Leaf.Built.{IsContent}
use redbx.Pages.Leaf.BuildLaws.{IsTotal, Divided, divide-Divided, upto-take, upto-drop}
use redbx.Pages.Leaf.Split.{IsContent-take, IsContent-drop}
use redbx.Pages.Leaf.Store.{Stores, IsEnough, fill_page-Stores, SplitBuilt, not_split, split}
use redbx.Pages.Leaf.Build.{
  LeafBuilder, builder_required_bytes, PageMut, Division, division_of, build_split, fill_page,
  split_rest, split_key,
}

upto-take_more :
    (f : Entry → List ℕ) (j n : ℕ) (es : List Entry)
    → j ≤ n
    → upto j (map f (take n es)) ≡ upto j (map f es)
upto-take_more f zero n es h = refl
upto-take_more f (suc j) zero es h = absurd (omega arith)
upto-take_more f (suc j) (suc n) [] h = refl
upto-take_more f (suc j) (suc n) (e ∷ es) h =
    ap (λ m. length (f e) + m) (upto-take_more f j n es (omega arith))

-- Where a builder of two entries or more is divided.
record IsDivision (b : LeafBuilder) (d : Division) : Type 0 where
  first_some : 0 < d.division
  second_some : d.division < length b.pairs
  key_bytes : d.first_split_key_bytes ≡ upto d.division (keys b.pairs)
  value_bytes : d.first_split_value_bytes ≡ upto d.division (values b.pairs)
  half :
      ((b.total_key_bytes + b.total_value_bytes) / 2
        ≤ upto d.division (keys b.pairs) + upto d.division (values b.pairs))
      ⊎ (d.division + 1 ≡ length b.pairs)
  least :
      (j : ℕ)
      → 0 < j
      → j < d.division
      → upto j (keys b.pairs) + upto j (values b.pairs)
        < (b.total_key_bytes + b.total_value_bytes) / 2

division_of-IsDivision :
    (b : LeafBuilder) → 1 < length b.pairs → length b.pairs < 65536 → IsDivision b (division_of b)
unfolding division_of
division_of-IsDivision b two few =
    let m = length b.pairs - 1 in
    let e : sub64 (length b.pairs) 1 ≡ m = omega arith in
    let zeros : Division = record {
      division = 0;
      first_split_key_bytes = 0;
      first_split_value_bytes = 0;
    } in
    let all_but_one = length-take m b.pairs (omega arith) in
    let r = divide-Divided (b.total_key_bytes + b.total_value_bytes) (take m b.pairs) zeros in
    let same : zeros.division + r.taken ≡ r.taken = omega arith in rw e (divided r all_but_one)
  where
    divided :
        {d : Division}
        → Divided
            (b.total_key_bytes + b.total_value_bytes)
            (take (length b.pairs - 1) b.pairs)
            (record { division = 0; first_split_key_bytes = 0; first_split_value_bytes = 0 })
            d
        → length (take (length b.pairs - 1) b.pairs) ≡ length b.pairs - 1
        → IsDivision b d
    divided {d} r e =
        let t : d.division ≡ r.taken = omega (arith, r.division) in
        let k =
          upto-take_more (λ (e : Entry). e.0) r.taken (length b.pairs - 1) b.pairs
            (omega (arith, r.within)) in
        let v =
          upto-take_more (λ (e : Entry). e.1) r.taken (length b.pairs - 1) b.pairs
            (omega (arith, r.within)) in
        let kt : upto r.taken (keys b.pairs) ≡ upto d.division (keys b.pairs) =
          ap (λ n. upto n (keys b.pairs)) (sym t) in
        let vt : upto r.taken (values b.pairs) ≡ upto d.division (values b.pairs) =
          ap (λ n. upto n (values b.pairs)) (sym t) in
        record {
          first_some = omega (arith, r.some_taken (omega arith));
          second_some = omega (arith, r.within);
          key_bytes = omega (arith, r.key_bytes);
          value_bytes = omega (arith, r.value_bytes);
          half = elim r.half [
            | inl h ↦ inl (omega (arith, r.key_bytes, r.value_bytes))
            | inr h ↦ inr (omega arith)
          ];
          least = λ j a l. omega (
            arith,
            r.least j a (omega arith),
            upto-take_more (λ (e : Entry). e.0) j (length b.pairs - 1) b.pairs
                (omega (arith, r.within)),
            upto-take_more (λ (e : Entry). e.1) j (length b.pairs - 1) b.pairs
                (omega (arith, r.within)),
          );
        }

module _ {State : Type 0} (allocate : State → ℕ → Option (PageMut × State))
    (enough : IsEnough allocate) (b : LeafBuilder) (t : IsTotal b)
    (c : IsContent b.fixed_key_size b.fixed_value_size b.pairs) where
  second_page :
      (d : Division) (number : PageNumber) (first : List ℕ) (next : State)
      (o : Option (PageMut × State))
      → IsDivision b d
      → Stores first b.fixed_key_size b.fixed_value_size (take d.division b.pairs)
      → allocate next (
          required_bytes
            (length b.pairs - d.division)
            (b.total_key_bytes + b.total_value_bytes - d.first_split_key_bytes
              - d.first_split_value_bytes)
            b.fixed_key_size
            b.fixed_value_size)
        ≡ o
      → SplitBuilt allocate enough b (
          fill_page allocate b.fixed_key_size b.fixed_value_size
            (length b.pairs - d.division)
            (b.total_key_bytes - d.first_split_key_bytes)
            (drop d.division b.pairs)
            o
          >>= split_key allocate b d (number, first))
  second_page d number first next none v s e = not_split next _ e
  second_page d number first next (some (page, last)) v s e =
      let k = upto-drop (λ (e : Entry). e.0) d.division b.pairs in
      let w = upto-drop (λ (e : Entry). e.1) d.division b.pairs in
      let rest : b.total_key_bytes
            - d.first_split_key_bytes
            + (b.total_value_bytes - d.first_split_value_bytes)
          ≡ b.total_key_bytes + b.total_value_bytes - d.first_split_key_bytes
            - d.first_split_value_bytes =
        omega (arith, t.key_bytes, t.value_bytes, v.key_bytes, v.value_bytes) in
      let (bytes, f, stored) =
        fill_page-Stores allocate enough b.fixed_key_size b.fixed_value_size
          (length b.pairs - d.division) (b.total_key_bytes - d.first_split_key_bytes)
          (b.total_value_bytes - d.first_split_value_bytes) (drop d.division b.pairs) next
          (IsContent-drop d.division b.pairs c v.first_some v.second_some)
          (length-drop d.division b.pairs) (omega (arith, t.key_bytes, v.key_bytes))
          (omega (arith, t.value_bytes, v.value_bytes))
          (ap
              (λ m. allocate next (
                required_bytes (length b.pairs - d.division) m b.fixed_key_size b.fixed_value_size))
              rest
            ∙ e) in
      let ((key, value), there) =
        get_elem?-some b.pairs (d.division - 1) (omega (arith, v.second_some)) in
      let last_at : sub64 d.division 1 ≡ d.division - 1 =
        omega (arith, v.first_some, v.second_some, c.few) in
      let found : get_elem? b.pairs (sub64 d.division 1) ≡ some (key, value) =
        ap (get_elem? b.pairs) last_at ∙ there in
      subst (SplitBuilt allocate enough b)
        (sym (
          ap (λ r. r >>= split_key allocate b d (number, first)) f
          ∙ key_found d (number, first) (page.0, bytes) last found))
        (split number page.0 first key bytes last (record {
          at = d.division;
          first_some = v.first_some;
          second_some = v.second_some;
          first_page = s;
          second_page = stored;
          value = value;
          last_of_first = there;
          half = v.half;
          least = v.least;
        }))
    where
      key_found :
          (d : Division) (page1 page2 : PageMut) (last : State) {key value : List ℕ}
          → get_elem? b.pairs (sub64 d.division 1) ≡ some (key, value)
          → split_key allocate b d page1 (some (page2, last))
            ≡ ok (some ((page1, key, page2), last))
      key_found d page1 page2 last e = rw e refl

  first_page :
      (d : Division) (state : State) (o : Option (PageMut × State))
      → IsDivision b d
      → allocate state (
          required_bytes d.division
            (d.first_split_key_bytes + d.first_split_value_bytes)
            b.fixed_key_size
            b.fixed_value_size)
        ≡ o
      → SplitBuilt allocate enough b (
          fill_page allocate b.fixed_key_size b.fixed_value_size d.division d.first_split_key_bytes
            (take d.division b.pairs)
            o
          >>= split_rest allocate b d)
  unfolding builder_required_bytes
  first_page d state none v e = not_split state _ e
  first_page d state (some (page, next)) v e =
      let (bytes, f, stored) =
        fill_page-Stores allocate enough b.fixed_key_size b.fixed_value_size d.division
          d.first_split_key_bytes d.first_split_value_bytes (take d.division b.pairs) state
          (IsContent-take d.division b.pairs c v.first_some v.second_some)
          (length-take d.division b.pairs (omega (arith, v.second_some)))
          (upto-take (λ (e : Entry). e.0) d.division b.pairs ∙ sym v.key_bytes)
          (upto-take (λ (e : Entry). e.1) d.division b.pairs ∙ sym v.value_bytes) e in
      subst (SplitBuilt allocate enough b) (sym (ap (λ r. r >>= split_rest allocate b d) f))
        (second_page d page.0 bytes next _ v stored refl)

  -- A builder of at least two entries, with the conditions of `build`, is split without a panic. The
  -- result is the error of an `allocate`, or two pages: the first reads back a first part of the
  -- entries and the second the others, neither is empty, and the key between them is the last key of
  -- the first. The first part has half of the bytes of all entries, unless it is all but the last
  -- entry, and no shorter part has.
  pub build_split-SplitBuilt :
      (state : State)
      → 1 < length b.pairs
      → SplitBuilt allocate enough b (build_split allocate b state)
  unfolding build_split builder_required_bytes
  build_split-SplitBuilt state two =
      first_page (division_of b) state _ (division_of-IsDivision b two c.few) refl
