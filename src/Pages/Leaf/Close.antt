-- ===== src/Pages/Leaf/Close.antt =====
-- The four moves at the end of `LeafMutator::remove` of src/tree_store/btree_base.rs close the gaps
-- that an entry leaves.
use redbx.Prelude.{ℕ, ◌+◌, ◌≤◌, ◌≡◌, ap, ◌∙◌, List, ◌++◌, arith, length, length-append, ok}
use redbx.Prelude.Memory.{At, Only, At-append, At-move}
use redbx.Prelude.Moves.{copy_within, copy_within-Moved}

-- A move to the left, up to what is in place already.
module _ (page : List ℕ) (base : ℕ) (ready moving : List ℕ) (from : ℕ) where
  pub close_gap :
      At page base ready
      → At page from moving
      → base + length ready ≤ from
      → (after : List ℕ) × (copy_within from (from + length moving) (base + length ready) page
          ≡ ok after)
        × At after base (ready ++ moving)
        × Only page (base + length ready) (base + length ready + length moving) after
  close_gap a m h =
      let inside = m.inside in
      let (after, e, r) =
        copy_within-Moved from (from + length moving) (base + length ready) page (omega arith)
          (omega arith) (omega arith) in
      let there = r.moved 0 (At-move (omega arith) m) (omega arith) in
      (
        after,
        e,
        At-append ready moving (r.rest.below a (omega arith)) (At-move (omega arith) there),
        record {
          size = r.rest.size;
          below = r.rest.below;
          above = λ x k. r.rest.above x (omega arith);
        },
      )

-- The page after the four moves.
pub record IsClosed (page : List ℕ) (base : ℕ) (a b c d e after : List ℕ) : Type 0 where
  pub whole : At after base ((((a ++ b) ++ c) ++ d) ++ e)
  pub size : length after ≡ length page
  pub below : {s : ℕ} {xs : List ℕ} → At page s xs → s + length xs ≤ base → At after s xs

module _ (page : List ℕ) (base : ℕ) (a b c d e : List ℕ) (m1 m2 m3 m4 : ℕ) where
  pub close_gaps :
      At page base a
      → At page m1 b
      → At page m2 c
      → At page m3 d
      → At page m4 e
      → base + length a ≤ m1
      → m1 + length b ≤ m2
      → m2 + length c ≤ m3
      → m3 + length d ≤ m4
      → (p1 p2 p3 p4 : List ℕ) × (copy_within m1 (m1 + length b) (base + length a) page ≡ ok p1)
        × (copy_within m2 (m2 + length c) (base + length a + length b) p1 ≡ ok p2)
        × (copy_within m3 (m3 + length d) (base + length a + length b + length c) p2 ≡ ok p3)
        × (copy_within m4 (m4 + length e) (base + length a + length b + length c + length d) p3
            ≡ ok p4)
        × IsClosed page base a b c d e p4
  close_gaps xa xb xc xd xe h1 h2 h3 h4 =
      let ab = length-append a b in
      let abc = length-append (a ++ b) c in
      let abcd = length-append ((a ++ b) ++ c) d in
      let (p1, e1, r1, o1) = close_gap page base a b m1 xa xb h1 in
      let (p2, e2, r2, o2) =
        close_gap p1 base (a ++ b) c m2 r1 (o1.above xc (omega arith)) (omega arith) in
      let (p3, e3, r3, o3) =
        close_gap p2 base ((a ++ b) ++ c) d m3 r2
          (o2.above (o1.above xd (omega arith)) (omega arith)) (omega arith) in
      let (p4, e4, r4, o4) =
        close_gap p3 base (((a ++ b) ++ c) ++ d) e m4 r3
          (o3.above (o2.above (o1.above xe (omega arith)) (omega arith)) (omega arith))
          (omega arith) in
      let to2 : base + length a + length b ≡ base + length (a ++ b) = omega arith in
      let to3 : base + length a + length b + length c ≡ base + length ((a ++ b) ++ c) =
        omega arith in
      let to4 : base + length a + length b + length c + length d
          ≡ base + length (((a ++ b) ++ c) ++ d) =
        omega arith in
      (
        p1,
        p2,
        p3,
        p4,
        e1,
        ap (λ t. copy_within m2 (m2 + length c) t p1) to2 ∙ e2,
        ap (λ t. copy_within m3 (m3 + length d) t p2) to3 ∙ e3,
        ap (λ t. copy_within m4 (m4 + length e) t p3) to4 ∙ e4,
        record {
          whole = r4;
          size = omega (arith, o1.size, o2.size, o3.size, o4.size);
          below = λ x l.
              o4.below (o3.below (o2.below (o1.below x (omega arith)) (omega arith)) (omega arith))
                (omega arith);
        },
      )
