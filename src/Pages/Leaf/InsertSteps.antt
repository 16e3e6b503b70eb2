-- ===== src/Pages/Leaf/InsertSteps.antt =====
-- The steps of `LeafMutator::insert` of src/tree_store/btree_base.rs for a new pair, and the test before
-- it.
use redbx.Prelude.{
  ℕ, ◌+◌, ◌-◌, ◌*◌, ◌^◌, ◌≤◌, ◌<◌, ◌≡◌, refl, sym, ◌∙◌, List, Option, some, arith, length, ok, true,
  false, ltb, leb, Bool, ◌&&◌, if◌then◌else◌,
}
use redbx.Prelude.Word.{sub64, u32_size}
use redbx.Prelude.Bytes.{to_le, write}
use redbx.Prelude.Moves.{copy_within}
use redbx.Pages.Column.{write_end}
use redbx.Pages.Leaf.{new, key_start, key_end, value_start, value_end, total_length}
use redbx.Pages.Leaf.Reads.{accessor}
use redbx.Pages.Leaf.Mutator.{pos, pointer_size, update_ends}
use redbx.PageNumber.{PageNumber}
use redbx.Pages.Leaf.Insert.{insert, insert_pair, sufficient_insert_inplace_space}

-- `insert` of a new pair, from what its steps do.
pub insert_steps :
    (fk fv : Option ℕ) (page : List ℕ) {p1 p2 p3 p4 p5 p6 p7 p8 p9 p10 p11 : List ℕ}
    (i n ke ks ve vs d2 d3 d4 d5 d6 d7 d8 : ℕ) (key value : List ℕ)
    → new page fk fv ≡ ok (accessor page fk fv n)
    → i ≤ n
    → n + 1 < 65536
    → key_end (accessor page fk fv n) (sub64 n 1) ≡ some ke
    → value_end (accessor page fk fv n) (sub64 n 1) ≡ some ve
    → key_start (accessor page fk fv n) i ≡ some ks
    → value_start (accessor page fk fv n) i ≡ some vs
    → ve + (length key + length value + pointer_size fk + pointer_size fv) ≤ length page
    → update_ends fk fv 0 i
        (ok (pos (pointer_size fk + pointer_size fv)))
        (ok (pos (pointer_size fk + pointer_size fv + length key)))
        page
      ≡ ok p1
    → update_ends fk fv i
        (n - i)
        (ok (pos (pointer_size fk + pointer_size fv + length key)))
        (ok (pos (pointer_size fk + pointer_size fv + length key + length value)))
        p1
      ≡ ok p2
    → write 2 (to_le 2 (n + 1)) p2 ≡ ok p3
    → let d1 = vs + pointer_size fk + pointer_size fv + length key + length value in
      let start = 4 + pointer_size fk * n + pointer_size fv * i in
      (d1 < 2 ^ 32)
      → (d3 < 2 ^ 32)
      → (sub64 d1 (length value) ≡ d2)
      → (sub64 d2 (sub64 vs ks) ≡ d3)
      → (sub64 d3 (length key) ≡ d4)
      → (sub64 d4 (sub64 ks start) ≡ d5)
      → (sub64 d5 (pointer_size fv) ≡ d6)
      → (sub64 d6 (sub64 start (4 + pointer_size fk * i)) ≡ d7)
      → (sub64 d7 (pointer_size fk) ≡ d8)
      → (copy_within vs ve d1 p3 ≡ ok p4)
      → (write d2 value p4 ≡ ok p5)
      → (copy_within ks vs d3 p5 ≡ ok p6)
      → (write d4 key p6 ≡ ok p7)
      → (copy_within start ks d5 p7 ≡ ok p8)
      → (write_end fv d6 d1 p8 ≡ ok p9)
      → (copy_within (4 + pointer_size fk * i) start d7 p9 ≡ ok p10)
      → (write_end fk d8 d3 p10 ≡ ok p11)
      → insert fk fv i false key value page ≡ ok p11
unfolding insert insert_pair total_length
insert_steps fk fv page i n ke ks ve vs d2 d3 d4 d5 d6 d7 d8 key value e l few e1 e2 e3 e4 room u1
      u2 w b1 b3 q2 q3 q4 q5 q6 q7 q8 c1 w1 c2 w2 c3 w3 c4 w4 =
    let g1 : leb (ve + (length key + length value + pointer_size fk + pointer_size fv))
          (length page + 0)
        ≡ true =
      ground arith in
    let g2 : ltb (n + 1) 65536 ≡ true = ground arith in
    let g3 : ltb (vs + pointer_size fk + pointer_size fv + length key + length value) u32_size
        ≡ true =
      ground arith in
    let g4 : ltb d3 u32_size ≡ true = ground arith in
    rw
      (
        e, e2, g1, e1, e3, e4, u1, u2, g2, w, c1, g3, q2, w1, q3, c2, g4, q4, w2, q5, c3, q6, w3,
        q7, c4, q8, w4,
      )
      refl

-- The test of `sufficient_insert_inplace_space` for a new pair.
sufficient_test :
    (large : Bool) (required remaining : ℕ)
    → (if large then ok false else ok (leb required remaining)) ≡ ok true
    → required ≤ remaining
sufficient_test true required remaining h = let e : false ≡ true = cc in absurd (ground (arith, e))
sufficient_test false required remaining h =
    let e : leb required remaining ≡ true = cc in ground (arith, e)

-- When it says that a new pair has room, the pair has room behind the last value.
pub sufficient_room :
    (fk fv : Option ℕ) (number : PageNumber) (page : List ℕ) (i n ve : ℕ) (key value : List ℕ)
    → new page fk fv ≡ ok (accessor page fk fv n)
    → value_end (accessor page fk fv n) (sub64 n 1) ≡ some ve
    → ve ≤ length page
    → length page < 2 ^ 32
    → sufficient_insert_inplace_space fk fv number page i false key value ≡ ok true
    → ve + (length key + length value + pointer_size fk + pointer_size fv) ≤ length page
unfolding sufficient_insert_inplace_space total_length
sufficient_room fk fv number page i n ve key value e e1 inside small h =
    let required = length key + length value + pointer_size fk + pointer_size fv in
    let step : sufficient_insert_inplace_space fk fv number page i false key value ≡ (
        if ltb 0 number.page_order && ltb i n
        then ok false
        else ok (leb required (sub64 (length page) ve))) =
      rw (e, e1) refl in
    let l =
      sufficient_test (ltb 0 number.page_order && ltb i n) required (sub64 (length page) ve)
        (sym step ∙ h) in
    omega arith
