-- ===== src/Pages/Leaf/Open.antt =====
-- The moves and writes of `LeafMutator::insert` of src/tree_store/btree_base.rs open gaps, from the end
-- of the page to its beginning, and fill them.
use redbx.Prelude.{
  ℕ, ◌+◌, ◌-◌, ◌^◌, ◌≤◌, ◌<◌, ◌≡◌, refl, sym, subst, List, [], ◌∷◌, ◌++◌, Option, none, some, arith,
  length, ok, true, ltb,
}
use mathlib.Core.List.{append-nil}
use redbx.Prelude.Word.{u32_size}
use redbx.Prelude.Bytes.{to_le, write, length-to_le}
use redbx.Prelude.Memory.{At, write-Only, At-append, At-move}
use redbx.Prelude.Moves.{copy_within, copy_within-Moved}
use redbx.Pages.Column.{column, write_end}
use redbx.Pages.Leaf.Mutator.{pointer_size}

-- What stood before `low` still does.
pub record Below (page : List ℕ) (low : ℕ) (after : List ℕ) : Type 0 where
  pub size : length after ≡ length page
  pub kept : {s : ℕ} {xs : List ℕ} → At page s xs → s + length xs ≤ low → At after s xs

-- A move to the right, up to what is in place already.
pub move_right :
    (page : List ℕ) (from dest place : ℕ) (moving ready : List ℕ)
    → At page from moving
    → At page place ready
    → dest + length moving ≡ place
    → from ≤ dest
    → (after : List ℕ) × (copy_within from (from + length moving) dest page ≡ ok after)
      × At after dest (moving ++ ready)
      × Below page from after
move_right page from dest place moving ready m r e h =
    let inside = m.inside in
    let limit = r.inside in
    let (after, c, x) =
      copy_within-Moved from (from + length moving) dest page (omega arith) (omega arith)
        (omega arith) in
    let there =
      At-move {t = dest} (omega arith) (x.moved 0 (At-move (omega arith) m) (omega arith)) in
    (
      after,
      c,
      At-append moving ready there (At-move (sym e) (x.rest.above r (omega arith))),
      record { size = x.rest.size; kept = λ a l. x.rest.below a (omega arith) },
    )

-- Bytes written in front of what is in place.
pub put_bytes :
    (page : List ℕ) (at place : ℕ) (bytes ready : List ℕ)
    → At page place ready
    → at + length bytes ≡ place
    → (after : List ℕ) × (write at bytes page ≡ ok after)
      × At after at (bytes ++ ready)
      × Below page at after
put_bytes page at place bytes ready r e =
    let limit = r.inside in
    let (after, w, there, o) = write-Only at bytes page (omega arith) in
    (
      after,
      w,
      At-append bytes ready there (At-move (sym e) (o.above r (omega arith))),
      record { size = o.size; kept = o.below },
    )

-- The end offset of one entry, where its column stores one.
pub put_end :
    (fixed : Option ℕ) (page : List ℕ) (at place start : ℕ) (x ready : List ℕ)
    → At page place ready
    → at + pointer_size fixed ≡ place
    → start + length x < 2 ^ 32
    → (after : List ℕ) × (write_end fixed at (start + length x) page ≡ ok after)
      × At after at (column fixed start (x ∷ []) ++ ready)
      × Below page at after
unfolding write_end
put_end (some f) page at place start x ready r e small =
    (page, refl, At-move (omega arith) r, record { size = refl; kept = λ a l. a })
put_end none page at place start x ready r e small =
    let fits : ltb (start + length x) u32_size ≡ true = ground arith in
    let (after, w, there, b) =
      put_bytes page at place (to_le 4 (start + length x)) ready r
        (omega (arith, length-to_le 4 (start + length x))) in
    (
      after,
      rw fits w,
      subst (λ c. At after at (c ++ ready)) (sym (append-nil (to_le 4 (start + length x)))) there,
      b,
    )

-- All of it: the parts `a`, `b`, `c`, `d` and `e` stand at their old places, and end up around an end
-- offset of a key and of a value, a key and a value.
pub record Opening (page : List ℕ) (from1 from2 from3 from4 : ℕ) (b c d e : List ℕ) : Type 0 where
  pub first : At page from1 b
  pub second : At page from2 c
  pub third : At page from3 d
  pub fourth : At page from4 e
  pub order1 : from1 + length b ≤ from2
  pub order2 : from2 + length c ≤ from3
  pub order3 : from3 + length d ≤ from4

module _ (fk fv : Option ℕ) (page : List ℕ) {from1 from2 from3 from4 : ℕ}
    (b c d e key value : List ℕ) (start middle to1 to2 to3 to4 : ℕ)
    (o : Opening page from1 from2 from3 from4 b c d e) where
  -- The page after the four moves and the four writes.
  pub record IsOpened (after : List ℕ) : Type 0 where
    pub size : length after ≡ length page
    pub kept : {s : ℕ} {xs : List ℕ} → At page s xs → s + length xs ≤ from1 → At after s xs
    pub whole : At after (to1 - pointer_size fk) (
        column fk start (key ∷ [])
        ++ (b ++ (column fv middle (value ∷ []) ++ (c ++ (key ++ (d ++ (value ++ e)))))))

  pub open_gaps :
      to4 + length e ≤ length page
      → to3 + length d + length value ≡ to4
      → to2 + length c + length key ≡ to3
      → to1 + length b + pointer_size fv ≡ to2
      → from1 + pointer_size fk ≤ to1
      → from2 + pointer_size fv ≤ to2
      → from3 + length key ≤ to3
      → from4 + length value ≤ to4
      → start + length key < 2 ^ 32
      → middle + length value < 2 ^ 32
      → (p1 p2 p3 p4 p5 p6 p7 p8 : List ℕ) × (copy_within from4 (from4 + length e) to4 page ≡ ok p1)
        × (write (to4 - length value) value p1 ≡ ok p2)
        × (copy_within from3 (from3 + length d) to3 p2 ≡ ok p3)
        × (write (to3 - length key) key p3 ≡ ok p4)
        × (copy_within from2 (from2 + length c) to2 p4 ≡ ok p5)
        × (write_end fv (to2 - pointer_size fv) (middle + length value) p5 ≡ ok p6)
        × (copy_within from1 (from1 + length b) to1 p6 ≡ ok p7)
        × (write_end fk (to1 - pointer_size fk) (start + length key) p7 ≡ ok p8)
        × IsOpened p8
  open_gaps room h3 h2 h1 g1 g2 g3 g4 small_key small_value =
      let o1 = o.order1 in
      let o2 = o.order2 in
      let o3 = o.order3 in
      let (p1, e1, r1, b1) = last_moved o.fourth room (omega arith) in
      let (p2, e2, r2, b2) = put_bytes p1 (to4 - length value) to4 value e r1 (omega arith) in
      let d2 = b2.kept (b1.kept o.third (omega arith)) (omega arith) in
      let (p3, e3, r3, b3) =
        move_right p2 from3 to3 (to4 - length value) d (value ++ e) d2 r2 (omega arith)
          (omega arith) in
      let (p4, e4, r4, b4) =
        put_bytes p3 (to3 - length key) to3 key (d ++ (value ++ e)) r3 (omega arith) in
      let c4 =
        b4.kept (b3.kept (b2.kept (b1.kept o.second (omega arith)) (omega arith)) (omega arith))
          (omega arith) in
      let (p5, e5, r5, b5) =
        move_right p4 from2 to2 (to3 - length key) c (key ++ (d ++ (value ++ e))) c4 r4
          (omega arith) (omega arith) in
      let (p6, e6, r6, b6) =
        put_end fv p5 (to2 - pointer_size fv) to2 middle value _ r5 (omega arith) small_value in
      let first6 =
        b6.kept
          (b5.kept
            (b4.kept (b3.kept (b2.kept (b1.kept o.first (omega arith)) (omega arith)) (omega arith))
              (omega arith))
            (omega arith))
          (omega arith) in
      let (p7, e7, r7, b7) =
        move_right p6 from1 to1 (to2 - pointer_size fv) b _ first6 r6 (omega arith) (omega arith) in
      let (p8, e8, r8, b8) =
        put_end fk p7 (to1 - pointer_size fk) to1 start key _ r7 (omega arith) small_key in
      (
        p1,
        p2,
        p3,
        p4,
        p5,
        p6,
        p7,
        p8,
        e1,
        e2,
        e3,
        e4,
        e5,
        e6,
        e7,
        e8,
        record {
          size =
              omega (arith, b1.size, b2.size, b3.size, b4.size, b5.size, b6.size, b7.size, b8.size);
          kept = λ a l.
              b8.kept
                (b7.kept
                  (b6.kept
                    (b5.kept
                      (b4.kept
                        (b3.kept (b2.kept (b1.kept a (omega arith)) (omega arith)) (omega arith))
                        (omega arith))
                      (omega arith))
                    (omega arith))
                  (omega arith))
                (omega arith);
          whole = r8;
        },
      )
    where
      last_moved :
          At page from4 e
          → to4 + length e ≤ length page
          → from4 ≤ to4
          → (after : List ℕ) × (copy_within from4 (from4 + length e) to4 page ≡ ok after)
            × At after to4 e
            × Below page from4 after
      last_moved m room h =
          let inside = m.inside in
          let (after, c, x) =
            copy_within-Moved from4 (from4 + length e) to4 page (omega arith) (omega arith)
              (omega arith) in
          (
            after,
            c,
            At-move (omega arith) (x.moved 0 (At-move (omega arith) m) (omega arith)),
            record { size = x.rest.size; kept = λ a l. x.rest.below a (omega arith) },
          )
