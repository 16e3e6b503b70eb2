-- ===== src/Pages/Leaf/BuildLaws.antt =====
-- `build` and `build_split` of src/tree_store/btree_base.rs: what stands on the pages that they give.
use redbx.Prelude.{
  ℕ, zero, suc, ◌+◌, ◌/◌, ◌≤◌, ◌<◌, ◌≡◌, ◌⊎◌, inl, inr, refl, sym, ap, ◌∙◌, List, [], ◌∷◌, map,
  Option, arith, length, length-append, leb, take, drop, Bool-cases,
}
use redbx.Pages.Column.{flat, upto}
use redbx.Pages.Leaf.Layout.{Entry, keys, values}
use redbx.Pages.Leaf.Built.{keys_one, values_one}
use redbx.Pages.Leaf.Build.{LeafBuilder, builder_new, push, Division, divide}

-- The totals of a builder are those of its entries.
pub record IsTotal (b : LeafBuilder) : Type 0 where
  pub key_bytes : b.total_key_bytes ≡ length (flat (keys b.pairs))
  pub value_bytes : b.total_value_bytes ≡ length (flat (values b.pairs))

pub builder_new-IsTotal : (fk fv : Option ℕ) → IsTotal (builder_new fk fv)
unfolding builder_new
builder_new-IsTotal fk fv = record { key_bytes = refl; value_bytes = refl }

pub push-IsTotal : (b : LeafBuilder) (key value : List ℕ) → IsTotal b → IsTotal (push b key value)
unfolding push
push-IsTotal b key value t = record {
  key_bytes = ap (λ n. n + length key) t.key_bytes ∙ sym (keys_one b.pairs key value);
  value_bytes = ap (λ n. n + length value) t.value_bytes ∙ sym (values_one b.pairs key value);
}

-- The bytes of the first `n` entries.
pub upto-take :
    (f : Entry → List ℕ) (n : ℕ) (es : List Entry)
    → length (flat (map f (take n es))) ≡ upto n (map f es)
upto-take f zero es = refl
upto-take f (suc n) [] = refl
upto-take f (suc n) (e ∷ es) =
    omega (arith, length-append (f e) (flat (map f (take n es))), upto-take f n es)

pub upto-drop :
    (f : Entry → List ℕ) (n : ℕ) (es : List Entry)
    → upto n (map f es) + length (flat (map f (drop n es))) ≡ length (flat (map f es))
upto-drop f zero es = omega arith
upto-drop f (suc n) [] = omega arith
upto-drop f (suc n) (e ∷ es) =
    omega (arith, length-append (f e) (flat (map f es)), upto-drop f n es)

-- What the loop of `build_split` finds: it took `j` entries, whose bytes it summed up, and no fewer
-- of them have half of the bytes.
pub record Divided (total : ℕ) (pairs : List Entry) (d found : Division) : Type 0 where
  pub taken : ℕ
  pub some_taken : 0 < length pairs → 0 < taken
  pub within : taken ≤ length pairs
  pub division : found.division ≡ d.division + taken
  pub key_bytes : found.first_split_key_bytes ≡ d.first_split_key_bytes + upto taken (keys pairs)
  pub value_bytes :
      found.first_split_value_bytes ≡ d.first_split_value_bytes + upto taken (values pairs)
  pub half :
      (total / 2 ≤ found.first_split_key_bytes + found.first_split_value_bytes)
      ⊎ (taken ≡ length pairs)
  pub least :
      (j : ℕ)
      → 0 < j
      → j < taken
      → d.first_split_key_bytes
          + upto j (keys pairs)
          + (d.first_split_value_bytes + upto j (values pairs))
        < total / 2

pub divide-Divided :
    (total : ℕ) (pairs : List Entry) (d : Division) → Divided total pairs d (divide total pairs d)
unfolding divide
divide-Divided total [] d = record {
  taken = 0;
  some_taken = λ h. h;
  within = omega arith;
  division = omega arith;
  key_bytes = omega arith;
  value_bytes = omega arith;
  half = inr refl;
  least = λ j a b. absurd (omega arith);
}
divide-Divided total ((key, value) ∷ pairs) d =
    let next : Division = record {
      division = d.division + 1;
      first_split_key_bytes = d.first_split_key_bytes + length key;
      first_split_value_bytes = d.first_split_value_bytes + length value;
    } in
    elim (Bool-cases
      (leb (total / 2) (next.first_split_key_bytes + next.first_split_value_bytes))) [
        | inl e ↦ rw e (record {
          taken = 1;
          some_taken = λ h. omega arith;
          within = omega arith;
          division = refl;
          key_bytes = omega arith;
          value_bytes = omega arith;
          half = inl (ground arith);
          least = λ j a b. absurd (omega arith);
        })
        | inr e ↦
            rw e (
              divided_later total key value pairs d (ground arith)
                (divide-Divided total pairs next))
      ]
  where
    divided_later :
        (total : ℕ) (key value : List ℕ) (pairs : List Entry) (d : Division) {found : Division}
        → d.first_split_key_bytes + length key + (d.first_split_value_bytes + length value)
          < total / 2
        → Divided total pairs
            (record {
              division = d.division + 1;
              first_split_key_bytes = d.first_split_key_bytes + length key;
              first_split_value_bytes = d.first_split_value_bytes + length value;
            })
            found
        → Divided total ((key, value) ∷ pairs) d found
    divided_later total key value pairs d less r = record {
      taken = suc r.taken;
      some_taken = λ h. omega arith;
      within = omega (arith, r.within);
      division = omega (arith, r.division);
      key_bytes = omega (arith, r.key_bytes);
      value_bytes = omega (arith, r.value_bytes);
      half = elim r.half [ inl h ↦ inl h | inr h ↦ inr (ap suc h) ];
      least = later;
    }
      where
        later :
            (j : ℕ)
            → 0 < j
            → j < suc r.taken
            → d.first_split_key_bytes
                + upto j (keys ((key, value) ∷ pairs))
                + (d.first_split_value_bytes + upto j (values ((key, value) ∷ pairs)))
              < total / 2
        later zero a b = absurd (omega arith)
        later (suc zero) a b = omega arith
        later (suc (suc j)) a b = omega (arith, r.least (suc j) (omega arith) (omega arith))
