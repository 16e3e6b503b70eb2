-- ===== src/Pages/Leaf/RemoveSteps.antt =====
-- The steps of `LeafMutator::remove` of src/tree_store/btree_base.rs.
use redbx.Prelude.{
  ℕ, suc, ◌+◌, ◌-◌, ◌*◌, ◌^◌, ◌<◌, ◌≡◌, refl, sym, ap, ◌∙◌, subst, List, [], ◌∷◌, ◌++◌, map, Option,
  none, some, arith, length, length-append, length-map, ok, true, ltb,
}
use mathlib.Core.List.{map-append}
use redbx.Prelude.Word.{sub64}
use redbx.Prelude.Bytes.{to_le, write}
use redbx.Prelude.Moves.{copy_within}
use redbx.Pages.Column.{pointers, flat, upto, Fits}
use redbx.Pages.Ends.{upto_all}
use redbx.Pages.Leaf.{new, key_start, key_end, value_start, value_end}
use redbx.Pages.Leaf.Layout.{Entry}
use redbx.Pages.Leaf.Reads.{accessor}
use redbx.Pages.Leaf.Mutator.{neg, pointer_size, update_ends, remove}
use redbx.Pages.Leaf.Parts.{Fits-without}

pub pointers_size : (fixed : Option ℕ) (n : ℕ) → pointer_size fixed * n ≡ pointers fixed n
pointers_size none n = refl
pointers_size (some f) n = omega arith

-- `remove`, from what its steps do.
pub remove_steps :
    (fk fv : Option ℕ) (page : List ℕ) {p1 p2 p3 p4 p5 p6 p7 : List ℕ} (i n kf k vf v lv : ℕ)
    → new page fk fv ≡ ok (accessor page fk fv n)
    → i < n
    → 1 < n
    → n < 65536
    → key_start (accessor page fk fv n) i ≡ some kf
    → key_end (accessor page fk fv n) i ≡ some (kf + k)
    → value_start (accessor page fk fv n) i ≡ some vf
    → value_end (accessor page fk fv n) i ≡ some (vf + v)
    → value_end (accessor page fk fv n) (n - 1) ≡ some lv
    → kf + k < 2 ^ 32
    → vf + v < 2 ^ 32
    → update_ends fk fv 0 i
        (ok (neg (pointer_size fk + pointer_size fv)))
        (ok (neg (pointer_size fk + pointer_size fv + k)))
        page
      ≡ ok p1
    → update_ends fk fv
        (i + 1)
        (n - (i + 1))
        (ok (neg (pointer_size fk + pointer_size fv + k)))
        (ok (neg (pointer_size fk + pointer_size fv + k + v)))
        p1
      ≡ ok p2
    → write 2 (to_le 2 (n - 1)) p2 ≡ ok p3
    → copy_within
        (4 + pointer_size fk * (i + 1))
        (4 + pointer_size fk * n + pointer_size fv * i)
        (4 + pointer_size fk * i)
        p3
      ≡ ok p4
    → let d2 =
        4
        + pointer_size fk * i
        + sub64 (4 + pointer_size fk * n + pointer_size fv * i) (4 + pointer_size fk * (i + 1)) in
      let s2 = 4 + pointer_size fk * n + pointer_size fv * (i + 1) in
      (copy_within s2 kf d2 p4 ≡ ok p5)
      → (copy_within (kf + k) vf (d2 + sub64 kf s2) p5 ≡ ok p6)
      → (copy_within (vf + v) lv (d2 + sub64 kf s2 + sub64 vf (kf + k)) p6 ≡ ok p7)
      → remove fk fv i page ≡ ok p7
unfolding remove
remove_steps fk fv page i n kf k vf v lv e1 l1 l2 l3 e2 e3 e4 e5 e6 kb vb u1 u2 w c1 c2 c3 c4 =
    let g1 : ltb i n ≡ true = ground arith in
    let g2 : ltb 1 n ≡ true = ground arith in
    let sk : sub64 (kf + k) kf ≡ k = omega arith in
    let sv : sub64 (vf + v) vf ≡ v = omega arith in
    let ik : ltb k (2 ^ 63) ≡ true = ground arith in
    let iv : ltb v (2 ^ 63) ≡ true = ground arith in
    let g3 : ltb (n - 1) 65536 ≡ true = ground arith in
    rw (e1, g1, g2, e2, e3, e4, e5, e6, sk, sv, ik, iv, u1, u2, g3, w, c1, c2, c3, c4) refl

pub copy_at :
    {s t e f d g : ℕ} (page : List ℕ) {after : List ℕ}
    → s ≡ t
    → e ≡ f
    → d ≡ g
    → copy_within t f g page ≡ ok after
    → copy_within s e d page ≡ ok after
copy_at page p q r h = rw (p, q, r) h

-- The bytes of the entries before one, and with it.
pub upto_before :
    (f : Entry → List ℕ) (before : List Entry) (e : Entry) (behind : List Entry)
    → upto (length before) (map f (before ++ (e ∷ behind))) ≡ length (flat (map f before))
upto_before f [] e behind = refl
upto_before f (b ∷ before) e behind =
    omega (arith, upto_before f before e behind, length-append (f b) (flat (map f before)))

pub upto_with :
    (f : Entry → List ℕ) (before : List Entry) (e : Entry) (behind : List Entry)
    → upto (suc (length before)) (map f (before ++ (e ∷ behind)))
      ≡ length (flat (map f before)) + length (f e)
upto_with f [] e behind = omega arith
upto_with f (b ∷ before) e behind =
    omega (arith, upto_with f before e behind, length-append (f b) (flat (map f before)))

-- The bytes of the values up to the last one are those of all.
pub upto_last :
    (f : Entry → List ℕ) (entries : List Entry)
    → 0 < length entries
    → upto (suc (length entries - 1)) (map f entries) ≡ length (flat (map f entries))
upto_last f entries h =
    let all : suc (length entries - 1) ≡ length (map f entries) =
      omega (arith, length-map f entries) in
    ap (λ n. upto n (map f entries)) all ∙ upto_all (map f entries)

pub rest-Fits :
    (fixed : Option ℕ) (f : Entry → List ℕ) (before : List Entry) (e : Entry) (behind : List Entry)
    → Fits fixed (map f (before ++ (e ∷ behind)))
    → Fits fixed (map f (before ++ behind))
rest-Fits fixed f before e behind h = subst (Fits fixed) (sym (map-append f before behind)) (
    Fits-without fixed (map f before) (f e) (map f behind)
      (subst (Fits fixed) (map-append f before (e ∷ behind)) h))
