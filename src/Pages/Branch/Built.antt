-- ===== src/Pages/Branch/Built.antt =====
-- A page that the builder of src/tree_store/btree_base.rs fills is a branch page of the keys and
-- children.
use redbx.Prelude.{
  ℕ, zero, suc, ◌+◌, ◌*◌, ◌^◌, ◌≤◌, ◌<◌, ◌≡◌, refl, sym, ap, ◌∙◌, subst, true, ltb, ◌==◌, List, [],
  ◌∷◌, ◌++◌, Option, arith, length, length-append, ok, take, length-take,
}
use mathlib.Core.List.{append_assoc, append-nil}
use redbx.Prelude.Bytes.{to_le, length-to_le}
use redbx.Prelude.Memory.{At, write-Only}
use redbx.Pages.Column.{flat, Fits}
use redbx.Pages.Extend.{length-flat_one}
use redbx.Pages.Leaf.Built.{column_empty, Fits-empty, At_empty, first-Fits, rest-Fits}
use redbx.Pages.Branch.Raw.{
  branch, Child, raw_new, write_first_page, write_all, finish, fill, required_bytes,
}
use redbx.Pages.Branch.Layout.{Holds, IsBranch, section, AllChildren}
use redbx.Pages.Branch.Writes.{raw, HasRoom, write_child-Holds, write_nth_key-Holds}

raw_new-Holds :
    (page : List ℕ) (fk : Option ℕ) (n : ℕ)
    → 0 < n
    → n < 65536
    → section fk n ≤ length page
    → section fk n < 2 ^ 32
    → (after : List ℕ) × (raw_new page n fk ≡ ok (raw after fk n 0))
      × Holds after fk n [] []
      × (length after ≡ length page)
unfolding raw_new
raw_new-Holds page fk n some_key few room small =
    let (p, e, kind, o) = write-Only 0 (branch ∷ []) page (omega arith) in
    let (q, f, count, r) = write-Only 2 (to_le 2 n) p (omega (arith, length-to_le 2 n, o.size)) in
    let positive : ltb 0 n ≡ true = ground arith in
    let fits : ltb n 65536 ≡ true = ground arith in
    (
      q,
      rw (positive, e, fits, f) refl,
      record {
        kind = r.below kind (omega arith);
        count = count;
        few = few;
        sums = At_empty (omega (arith, o.size, r.size));
        pages = At_empty (omega (arith, o.size, r.size));
        key_ends =
            subst (At q (8 + 24 * (n + 1))) (sym (column_empty fk (section fk n)))
              (At_empty (omega (arith, o.size, r.size)));
        key_data = At_empty (omega (arith, o.size, r.size));
        key_fits = Fits-empty fk;
        small = omega arith;
      },
      omega (arith, o.size, r.size),
    )

first_page-Holds :
    (page : List ℕ) (fk : Option ℕ) (n : ℕ) (c : Child)
    → Holds page fk n [] []
    → (after : List ℕ) × (write_first_page (raw page fk n 0) c ≡ ok (raw after fk n 0))
      × Holds after fk n [] (c ∷ [])
      × (length after ≡ length page)
unfolding write_first_page
first_page-Holds page fk n c h =
    let (after, e, held, size) = write_child-Holds fk c h (omega arith) in
    (after, rw e refl, held, size)

-- All keys, each with the child behind it.
write_all-Holds :
    (fk : Option ℕ) (n : ℕ) (page : List ℕ) (done todo : List (List ℕ)) (cs more : List Child)
    → Holds page fk n done cs
    → length cs ≡ length done + 1
    → length todo ≤ length more
    → length done + length todo ≤ n
    → Fits fk todo
    → section fk n + length (flat done) + length (flat todo) ≤ length page
    → section fk n + length (flat done) + length (flat todo) < 2 ^ 32
    → (after : List ℕ) × (write_all (raw page fk n (length done)) (length done) todo more
        ≡ ok (raw after fk n (length done + length todo)))
      × Holds after fk n (done ++ todo) (cs ++ take (length todo) more)
      × (length after ≡ length page)
unfolding write_all
write_all-Holds fk n page done [] cs more h one enough slots fits room small = (
  page,
  ap (λ m. ok (raw page fk n m)) (omega arith),
  subst (λ l. Holds page fk n l (cs ++ [])) (sym (append-nil done))
      (subst (Holds page fk n done) (sym (append-nil cs)) h),
  refl,
)
write_all-Holds fk n page done (key ∷ todo) cs [] h one enough slots fits room small =
    absurd (omega arith)
write_all-Holds fk n page done (key ∷ todo) cs (c ∷ more) h one enough slots fits room small =
    let both = length-append key (flat todo) in
    let r : HasRoom page fk n done key = record {
      slot = omega arith;
      width = first-Fits fk key todo fits;
      bytes = omega arith;
      in_u32 = omega arith;
    } in
    let (p, e, held, size) = write_nth_key-Holds page fk key c h one r in
    let l = length-append done (key ∷ []) in
    let lc = length-append cs (c ∷ []) in
    let lf = length-flat_one done key in
    let (q, f, whole, same) =
      write_all-Holds fk n p (done ++ (key ∷ [])) todo (cs ++ (c ∷ [])) more held (omega arith)
        (omega arith) (omega arith) (rest-Fits fk key todo fits) (omega arith) (omega arith) in
    let counted : length done + 1 ≡ length (done ++ (key ∷ [])) = omega arith in
    (
      q,
      rw e (
          ap (λ m. write_all (raw p fk n m) m todo more) counted
          ∙ f
          ∙ ap (λ m. ok (raw q fk n m)) (omega arith)),
      subst (λ l. Holds q fk n l (cs ++ (c ∷ take (length todo) more)))
          (append_assoc done (key ∷ []) todo)
          (subst (Holds q fk n ((done ++ (key ∷ [])) ++ todo))
            (append_assoc cs (c ∷ []) (take (length todo) more)) whole),
      omega arith,
    )

-- Keys that can stand on one branch page, and children for them.
pub record IsContent (fk : Option ℕ) (keys : List (List ℕ)) (children : List Child) : Type 0 where
  pub filled : 0 < length keys
  pub few : length keys < 65536
  pub key_fits : Fits fk keys
  pub enough : length keys + 1 ≤ length children
  pub fits : AllChildren children
  pub small : section fk (length keys) + length (flat keys) < 2 ^ 32

AllChildren-take : (n : ℕ) (cs : List Child) → AllChildren cs → AllChildren (take n cs)
AllChildren-take zero cs a = tt
AllChildren-take (suc n) [] a = tt
AllChildren-take (suc n) (c ∷ cs) a = (a.0, AllChildren-take n cs a.1)

fill_steps :
    (page : List ℕ) {p q r : List ℕ} (fk : Option ℕ) (n : ℕ) (keys : List (List ℕ)) (c : Child)
    (cs : List Child)
    → raw_new page n fk ≡ ok (raw p fk n 0)
    → write_first_page (raw p fk n 0) c ≡ ok (raw q fk n 0)
    → write_all (raw q fk n 0) 0 keys cs ≡ ok (raw r fk n (0 + n))
    → fill fk n keys (c ∷ cs) page ≡ ok r
unfolding fill finish
fill_steps page {r = r} fk n keys c cs e f g =
    let all : (0 + n == n) ≡ true = ground arith in rw (e, f, g, all) refl

-- A page that is large enough is filled, whatever it held, and is then a branch page of the keys and
-- of as many children and one.
pub fill-IsBranch :
    (page : List ℕ) (fk : Option ℕ) (keys : List (List ℕ)) (children : List Child)
    → IsContent fk keys children
    → required_bytes (length keys) (length (flat keys)) fk ≤ length page
    → (after : List ℕ) × (fill fk (length keys) keys children page ≡ ok after)
      × IsBranch after fk keys (take (length keys + 1) children)
      × (length after ≡ length page)
unfolding required_bytes
fill-IsBranch page fk keys [] c enough = absurd (omega (arith, c.enough))
fill-IsBranch page fk keys (first ∷ children) c enough =
    let n = length keys in
    let (p, e, empty, size) =
      raw_new-Holds page fk n c.filled c.few (omega arith) (omega (arith, c.small)) in
    let (q, f, one, same) = first_page-Holds p fk n first empty in
    let (r, g, whole, still) =
      write_all-Holds fk n q [] keys (first ∷ []) children one refl (omega (arith, c.enough))
        (omega arith) c.key_fits (omega arith) (omega (arith, c.small)) in
    let taken : (first ∷ []) ++ take n children ≡ take (n + 1) (first ∷ children) =
      let up : suc n ≡ n + 1 = omega arith in ap (λ m. take m (first ∷ children)) up in
    (
      r,
      fill_steps page fk n keys first children e f g,
      record {
        holds = subst (Holds r fk n keys) taken whole;
        one_more = length-take (n + 1) (first ∷ children) c.enough;
        fits = AllChildren-take (n + 1) (first ∷ children) c.fits;
      },
      omega arith,
    )
