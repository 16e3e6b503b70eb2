-- ===== src/Bitmap/Changes.antt =====
-- What `set`, `clear` and `alloc` of `BtreeBitmap` of src/tree_store/page_store/bitmap.rs do to the
-- bits of the leaf and to the levels above.
use redbx.Prelude.{
  ℕ, zero, suc, ◌-◌, ◌/◌, ◌<◌, ◌≤◌, ◌≡◌, ◌≢◌, refl, ap, sym, ◌∙◌, subst, List, arith, ◌==◌, length,
  Bool, true, false, not, Bool-cases, ok, inl, inr, ltb, set, length-set, if◌then◌else◌,
}
use redbx.Prelude.Word.{u32_size, sub32}
use redbx.Bitmap.{BtreeBitmap, get_level, leaf, get, with_leaf, update_to_root, set_bit, clear}
use redbx.Bitmap.Word.{u64_max}
use redbx.Bitmap.Group.{U64GroupedBitmap}
use redbx.Bitmap.Group.Reads.{word_at, bit_at, IsChange, get_lem, set_bit_lem, clear_lem}
use redbx.Bitmap.Tree.{
  IsTree, IsLevel, level_at, level_at-set, level_at-set_other, get_elem?-level_at,
}
use redbx.Bitmap.Update.{change-IsLevel, changed-IsSummaryBut, unset_word}
use redbx.Bitmap.Climb.{IsPending, climb_lem, len_same}

-- The level that holds the ids.
abbrev pub leaf_level : BtreeBitmap → U64GroupedBitmap
leaf_level m = level_at m.heights (length m.heights - 1)

-- A bitmap whose levels are in step, with a root of one word.
pub record IsSound (m : BtreeBitmap) : Type 0 where
  pub tree : IsTree m.heights
  pub some_level : 0 < length m.heights
  pub height : length m.heights < u32_size
  pub root : (level_at m.heights 0).len ≤ 64

pub leaf_eq : (m : BtreeBitmap) → IsSound m → leaf m ≡ ok (leaf_level m)
unfolding leaf get_level
leaf_eq m s =
    let some_level = s.some_level in
    let height = s.height in
    let last : sub32 (length m.heights) 1 ≡ length m.heights - 1 = omega arith in
    let inside : ltb (length m.heights - 1) (length m.heights) ≡ true = ground arith in
    rw (last, inside, get_elem?-level_at m.heights (length m.heights - 1) (omega arith)) refl

-- A change of one bit of the leaf to `v`, with all the levels in step again.
pub record IsChanged (m m' : BtreeBitmap) (i v : ℕ) : Type 0 where
  pub sound : IsSound m'
  pub len : (leaf_level m').len ≡ (leaf_level m).len
  pub bits : (j : ℕ) → bit_at (leaf_level m') j ≡ (if i == j then v else bit_at (leaf_level m) j)

-- The levels with the leaf replaced.
module _ (levels : List U64GroupedBitmap) (k : ℕ) (size : length levels ≡ suc k) (t : IsTree levels)
    (i v : ℕ) (lt : i < (level_at levels k).len) (g' : U64GroupedBitmap)
    (c : IsChange (level_at levels k) i v g') where
  new-IsLevel : (j : ℕ) → j < suc k → IsLevel (level_at (set levels k g') j)
  new-IsLevel j inside = elim (Bool-cases (k == j)) [
    | inl same ↦
        let e : k ≡ j = ground arith in
        subst (λ z. IsLevel (level_at (set levels k g') z)) e
          (subst IsLevel (sym (level_at-set levels k g' (omega arith)))
            (change-IsLevel (level_at levels k) g' i v lt (t.level k (omega arith)) c))
    | inr other ↦
        let apart : k ≢ j = ground arith in
        subst IsLevel (sym (level_at-set_other levels k j g' apart)) (t.level j (omega arith))
  ]

-- One level: it is the leaf.
single :
    (levels : List U64GroupedBitmap) (t : IsTree levels) (i v : ℕ)
    → length levels ≡ 1
    → i < (level_at levels 0).len
    → (g' : U64GroupedBitmap) → IsChange (level_at levels 0) i v g'
    → IsTree (set levels 0 g')
single levels t i v size lt g' c =
    let size' = length-set levels 0 g' in
    record {
      level = λ j inside. new-IsLevel levels 0 size t i v lt g' c j (omega arith);
      summary = λ j inside. absurd (omega arith);
    }

IsPending-leaf :
    (levels : List U64GroupedBitmap) (h : ℕ) (t : IsTree levels) (i v : ℕ)
    → length levels ≡ suc (suc h)
    → i < (level_at levels (suc h)).len
    → (g' : U64GroupedBitmap) → IsChange (level_at levels (suc h)) i v g'
    → (full : Bool) → full ≡ (word_at g'.words (i / 64) == u64_max)
    → IsPending (set levels (suc h) g') h (i / 64) full
IsPending-leaf levels h t i v size lt g' c full flag =
    let size' = length-set levels (suc h) g' in
    let self = level_at-set levels (suc h) g' (omega arith) in
    let above = level_at-set_other levels (suc h) h g' (λ eq. absurd (omega arith)) in
    let summed = t.summary h (omega arith) in
    record {
      inner = omega arith;
      level = λ j inside. new-IsLevel levels (suc h) size t i v lt g' c j (omega arith);
      summary = λ j ne inside.
          rw
            (
              level_at-set_other levels (suc h) j g' (λ eq. absurd (omega arith)),
              level_at-set_other levels (suc h) (suc j) g' (λ eq. ne (omega arith)),
            )
            (t.summary j (omega arith));
      but =
          rw (self, above)
            (changed-IsSummaryBut (level_at levels h) (level_at levels (suc h)) g' i v summed c);
      flag = rw self flag;
      entry = let len = summed.len in rw above (omega arith);
    }

-- The levels above the changed leaf are mended.
mend :
    (levels : List U64GroupedBitmap) (k i v : ℕ)
    → IsSound (record { heights = levels })
    → length levels ≡ suc k
    → i < (level_at levels k).len
    → (g' : U64GroupedBitmap) → IsChange (level_at levels k) i v g'
    → (full : Bool) → full ≡ (word_at g'.words (i / 64) == u64_max)
    → (levels' : List U64GroupedBitmap) × (update_to_root
          (record { heights = set levels k g' })
          i
          full
        ≡ ok (record { heights = levels' }))
      × IsTree levels'
      × (length levels' ≡ suc k)
      × ((j : ℕ) → (level_at levels' j).len ≡ (level_at levels j).len)
      × (level_at levels' k ≡ g')
unfolding update_to_root
mend levels zero i v s size lt g' c full flag =
    let size' = length-set levels 0 g' ∙ size in
    (
      set levels 0 g',
      rw size' refl,
      single levels s.tree i v size lt g' c,
      size',
      len_same levels 0 g' (omega arith) c.len,
      level_at-set levels 0 g' (omega arith),
    )
mend levels (suc h) i v s size lt g' c full flag =
    let height = s.height in
    let size' = length-set levels (suc h) g' ∙ size in
    let more : (suc (suc h) == 1) ≡ false = ground arith in
    let parent : sub32 (suc (suc h)) 2 ≡ h = omega arith in
    let (levels', returns, climbed) =
      climb_lem h (i / 64) full (set levels (suc h) g')
        (IsPending-leaf levels h s.tree i v size lt g' c full flag) in
    (
      levels',
      rw (size', more, parent, returns) refl,
      climbed.tree,
      climbed.size ∙ size',
      λ j. climbed.lens j ∙ len_same levels (suc h) g' (omega arith) c.len j,
      climbed.below (suc h) (omega arith) ∙ level_at-set levels (suc h) g' (omega arith),
    )

-- So a change of one bit of the leaf, followed by `update_to_root`, is a change of the bitmap.
update_lem :
    (m : BtreeBitmap) (i v : ℕ)
    → IsSound m
    → i < (leaf_level m).len
    → (g' : U64GroupedBitmap) → IsChange (leaf_level m) i v g'
    → (full : Bool) → full ≡ (word_at g'.words (i / 64) == u64_max)
    → (m' : BtreeBitmap) × (update_to_root (with_leaf m g') i full ≡ ok m') × IsChanged m m' i v
unfolding with_leaf
update_lem m i v s lt g' c full flag =
    let some_level = s.some_level in
    let (levels', returns, tree, size, lens, here) =
      mend m.heights (length m.heights - 1) i v s (omega arith) lt g' c full flag in
    let last : length levels' - 1 ≡ length m.heights - 1 = omega arith in
    let leaf' : level_at levels' (length levels' - 1) ≡ g' = ap (level_at levels') last ∙ here in
    let root_len = lens 0 in
    let root_small = s.root in
    let height = s.height in
    (
      record { heights = levels' },
      returns,
      record {
        sound = record {
          tree = tree;
          some_level = omega arith;
          height = omega arith;
          root = omega arith;
        };
        len = ap (λ g. g.len) leaf' ∙ c.len;
        bits = λ j. ap (λ g. bit_at g j) leaf' ∙ c.bits j;
      },
    )

-- Setting an id within the length of a sound bitmap returns, sets that id and no other, and leaves a
-- sound bitmap of the same length: the levels are in step again.
pub set_bit-IsChanged :
    (m : BtreeBitmap) (i : ℕ)
    → IsSound m
    → i < (leaf_level m).len
    → (m' : BtreeBitmap) × (set_bit m i ≡ ok m') × IsChanged m m' i 1
unfolding set_bit
set_bit-IsChanged m i s lt =
    let some_level = s.some_level in
    let l = s.tree.level (length m.heights - 1) (omega arith) in
    let (g', stored, c) = set_bit_lem (leaf_level m) i l.covered lt in
    let (m', returns, changed) =
      update_lem m i 1 s lt g' c (word_at g'.words (i / 64) == u64_max) refl in
    (m', rw (leaf_eq m s, stored, returns) refl, changed)

-- Clearing an id within the length of a sound bitmap returns, clears that id and no other, and leaves a
-- sound bitmap of the same length: the levels are in step again.
pub clear-IsChanged :
    (m : BtreeBitmap) (i : ℕ)
    → IsSound m
    → i < (leaf_level m).len
    → (m' : BtreeBitmap) × (clear m i ≡ ok m') × IsChanged m m' i 0
unfolding clear
clear-IsChanged m i s lt =
    let some_level = s.some_level in
    let l = s.tree.level (length m.heights - 1) (omega arith) in
    let (g', stored, c) = clear_lem (leaf_level m) i l.covered lt in
    let cleared : bit_at g' i ≡ 0 = c.bits i ∙ ground arith in
    let (m', returns, changed) =
      update_lem m i 0 s lt g' c false (ground (arith, unset_word g' i cleared)) in
    (m', rw (leaf_eq m s, stored, returns) refl, changed)

-- Reading an id within the length of a sound bitmap returns, with the id's bit of the leaf.
pub get-bit_at :
    (m : BtreeBitmap) (i : ℕ)
    → IsSound m
    → i < (leaf_level m).len
    → get m i ≡ ok (not (bit_at (leaf_level m) i == 0))
unfolding get
get-bit_at m i s lt =
    let some_level = s.some_level in
    let l = s.tree.level (length m.heights - 1) (omega arith) in
    rw (leaf_eq m s) (get_lem (leaf_level m) i l.covered lt)
