-- ===== src/Bitmap/Search.antt =====
-- What `find_first_unset` of `BtreeBitmap` of src/tree_store/page_store/bitmap.rs finds.
use redbx.Prelude.{
  ℕ, suc, ◌+◌, ◌-◌, ◌*◌, ◌/◌, ◌%◌, ◌<◌, ◌≤◌, ◌≡◌, ◌≢◌, refl, ap, ◌∙◌, List, [], ◌∷◌, arith, ◌==◌,
  length, true, Bool-cases, Option, none, some, ok, ◌⊎◌, inl, inr, ltb,
}
use redbx.Prelude.Bits.{bit, bit-le-one}
use redbx.Prelude.Word.{add32, mul32}
use redbx.Bitmap.{descend, find_first_unset, get_level}
use redbx.Bitmap.Group.{U64GroupedBitmap, first_unset}
use redbx.Bitmap.Group.Reads.{word_at, bit_at, IsCovered}
use redbx.Bitmap.Group.FirstUnset.{Found, first_unset_lem}
use redbx.Bitmap.Tree.{IsTree, IsTree-tail, IsLevel, IsSummary, level_at, word_full, full_word}

-- The last level.
unfoldable pub leaf_of : U64GroupedBitmap → List U64GroupedBitmap → U64GroupedBitmap
leaf_of root [] = root
leaf_of root (level ∷ levels) = leaf_of level levels

-- The least unset bit of a level.
pub record IsLeast (g : U64GroupedBitmap) (b : ℕ) : Type 0 where
  pub inside : b < g.len
  pub unset : bit_at g b ≡ 0
  pub before : (i : ℕ) → i < b → bit_at g i ≡ 1

pub data Answer (g : U64GroupedBitmap) : Option ℕ → Type 0 where
  all_set : ((i : ℕ) → i < g.len → bit_at g i ≡ 1) → Answer g none
  unset_at : (b : ℕ) → IsLeast g b → Answer g (some b)

bit_cases : (g : U64GroupedBitmap) (i : ℕ) → (bit_at g i ≡ 0) ⊎ (bit_at g i ≡ 1)
unfolding bit_at
bit_cases g i =
    let le = bit-le-one (word_at g.words (i / 64)) (i % 64) in
    elim (Bool-cases (bit (word_at g.words (i / 64)) (i % 64) == 0)) [
      | inl e ↦ inl (ground arith)
      | inr e ↦ inr (ground arith)
    ]

-- An unset bit that a level stores lies within its length.
unset_inside :
    (g : U64GroupedBitmap) (b : ℕ)
    → IsLevel g
    → b < 64 * length g.words
    → bit_at g b ≡ 0
    → b < g.len
unset_inside g b l stored unset = elim (Bool-cases (ltb b g.len)) [
  | inl e ↦ ground arith
  | inr e ↦ omega (arith, l.padded b (ground arith) stored)
]

-- The bits of the child below a full stretch of the parent are all set.
below_full :
    (p c : U64GroupedBitmap) (e : ℕ)
    → IsSummary p c
    → e ≤ p.len
    → ((i : ℕ) → i < e → bit_at p i ≡ 1)
    → (i : ℕ) → i < 64 * e
    → bit_at c i ≡ 1
below_full p c e s le set_bits i lt =
    word_full c (i / 64) i ((s.bits (i / 64) (omega arith)).full (set_bits (i / 64) (omega arith)))
      refl

-- One step down finds the least unset bit of the child.
module _ (p c : U64GroupedBitmap) (e : ℕ) (s : IsSummary p c) (l : IsLevel c)
    (least : IsLeast p e) where
  found_below : (o : Option ℕ) → Found c (64 * e) o → (b : ℕ) × (o ≡ some b) × IsLeast c b
  unfolding IsCovered
  found_below none (Found.all set_bits) = absurd (
      (s.bits e least.inside).vacant least.unset
        (full_word c e (l.words e) (λ i from to. set_bits i from (omega arith))))
  found_below (some _) (Found.first b f) =
      let lt = least.inside in
      let len = s.len in
      let covered = l.covered in
      let from = f.from in
      let inside = f.inside in
      (
        b,
        refl,
        record {
          inside = unset_inside c b l (omega arith) f.unset;
          unset = f.unset;
          before = λ i below. elim (Bool-cases (ltb i (64 * e))) [
            | inl low ↦ below_full p c e s (omega arith) least.before i (ground arith)
            | inr high ↦ f.before i (ground arith) below
          ];
        },
      )

  group_bounds :
      first_unset c (mul32 e 64) (add32 (mul32 e 64) 64)
      ≡ first_unset c (64 * e) (64 * e - 64 * e % 64 + 64)
  unfolding IsCovered
  group_bounds =
      let lt = least.inside in
      let len = s.len in
      let small = l.small in
      let start : mul32 e 64 ≡ 64 * e = omega arith in
      let end : add32 (64 * e) 64 ≡ 64 * e - 64 * e % 64 + 64 = omega arith in rw (start, end) refl

  step_down :
      (b : ℕ) × (first_unset c (mul32 e 64) (add32 (mul32 e 64) 64) ≡ ok (some b)) × IsLeast c b
  unfolding IsCovered
  step_down =
      let lt = least.inside in
      let len = s.len in
      let covered = l.covered in
      let small = l.small in
      let (o, returns, found) =
        first_unset_lem c (64 * e) (omega arith) (omega arith) (omega arith) in
      let (b, same, answer) = found_below o found in
      (b, group_bounds ∙ returns ∙ ap ok same, answer)

-- From the least unset bit of a level, the loop finds that of the leaf.
pub descend_lem :
    (root : U64GroupedBitmap) (levels : List U64GroupedBitmap) (e : ℕ)
    → IsTree (root ∷ levels)
    → IsLeast root e
    → (b : ℕ) × (descend levels e ≡ ok b) × IsLeast (leaf_of root levels) b
unfolding descend leaf_of level_at
descend_lem root [] e t least = (e, refl, least)
descend_lem root (level ∷ levels) e t least =
    let (e', down, least') =
      step_down root level e (t.summary 0 (omega arith)) (t.level 1 (omega arith)) least in
    let (b, rest, answer) =
      descend_lem level levels e' (IsTree-tail root (level ∷ levels) t) least' in
    (b, rw down rest, answer)

-- When all bits of a level are set, so are those of the leaf.
pub all_below :
    (root : U64GroupedBitmap) (levels : List U64GroupedBitmap)
    → IsTree (root ∷ levels)
    → ((i : ℕ) → i < root.len → bit_at root i ≡ 1)
    → (i : ℕ) → i < (leaf_of root levels).len
    → bit_at (leaf_of root levels) i ≡ 1
unfolding leaf_of level_at
all_below root [] t set_bits = set_bits
all_below root (level ∷ levels) t set_bits =
    let s = t.summary 0 (omega arith) in
    let len = s.len in
    all_below level levels (IsTree-tail root (level ∷ levels) t)
      (λ i lt. below_full root level root.len s (omega arith) set_bits i (omega arith))

-- The root's first unset bit is the least one, within its length.
root-Answer :
    (root : U64GroupedBitmap) (o : Option ℕ)
    → IsLevel root
    → root.len ≤ 64
    → root.len ≢ 0
    → Found root 0 o
    → Answer root o
unfolding IsCovered
root-Answer root none l le some_len (Found.all set_bits) =
    Answer.all_set (λ i lt. set_bits i (omega arith) (omega arith))
root-Answer root (some _) l le some_len (Found.first b f) =
    let covered = l.covered in
    let inside = f.inside in
    Answer.unset_at b (record {
      inside = unset_inside root b l (omega arith) f.unset;
      unset = f.unset;
      before = λ i. f.before i (omega arith);
    })

root_search :
    (root : U64GroupedBitmap)
    → IsLevel root
    → root.len ≤ 64
    → (o : Option ℕ) × (first_unset root 0 64 ≡ ok o) × Answer root o
unfolding first_unset IsCovered
root_search root l le = elim (Bool-cases (root.len == 0)) [
  | inl none_stored ↦ (none, rw none_stored refl, Answer.all_set (λ i lt. absurd (ground arith)))
  | inr other ↦
      let some_len : root.len ≢ 0 = ground arith in
      let covered = l.covered in
      let (o, returns, found) = first_unset_lem root 0 some_len (omega arith) (omega arith) in
      (o, returns, root-Answer root o l le some_len found)
]

Answer-below :
    (root : U64GroupedBitmap) (levels : List U64GroupedBitmap) (o : Option ℕ)
    → IsTree (root ∷ levels)
    → first_unset root 0 64 ≡ ok o
    → Answer root o
    → (r : Option ℕ) × (find_first_unset (record { heights = root ∷ levels }) ≡ ok r)
      × Answer (leaf_of root levels) r
unfolding find_first_unset get_level
Answer-below root levels none t returns (Answer.all_set set_bits) =
    let there : ltb 0 (suc (length levels)) ≡ true = ground arith in
    (none, rw (there, returns) refl, Answer.all_set (all_below root levels t set_bits))
Answer-below root levels (some _) t returns (Answer.unset_at e least) =
    let (b, down, answer) = descend_lem root levels e t least in
    let there : ltb 0 (suc (length levels)) ≡ true = ground arith in
    (some b, rw (there, returns, down) refl, Answer.unset_at b answer)

-- The search of a tree whose root has at most 64 bits returns, and its answer is the least bit of
-- the leaf that is unset, or none when all of the leaf's bits are set.
pub find_first_unset_lem :
    (root : U64GroupedBitmap) (levels : List U64GroupedBitmap)
    → IsTree (root ∷ levels)
    → root.len ≤ 64
    → (r : Option ℕ) × (find_first_unset (record { heights = root ∷ levels }) ≡ ok r)
      × Answer (leaf_of root levels) r
unfolding level_at
find_first_unset_lem root levels t le =
    let (o, returns, answer) = root_search root (t.level 0 (omega arith)) le in
    Answer-below root levels o t returns answer
