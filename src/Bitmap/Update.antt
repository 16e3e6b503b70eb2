-- ===== src/Bitmap/Update.antt =====
-- What `update_to_root` of src/tree_store/page_store/bitmap.rs does to the levels above a changed bit.
use redbx.Prelude.{
  ℕ, ◌+◌, ◌/◌, ◌<◌, ◌≡◌, ◌≢◌, refl, ap, sym, ◌∙◌, subst, List, arith, ◌==◌, length, Bool, true,
  false, Bool-cases, ok, inl, inr, set,
}
use redbx.Prelude.Word.{u64_size}
use redbx.Bitmap.{update_level}
use redbx.Bitmap.Word.{u64_max}
use redbx.Bitmap.Group.{U64GroupedBitmap}
use redbx.Bitmap.Group.Reads.{word_at, bit_at, IsChange, set_bit_lem, clear_lem}
use redbx.Bitmap.Tree.{IsLevel, IsSummary, IsSummaryAt, level_at, get_elem?-level_at, word_full}

-- A change of a bit within the length keeps a level sound.
pub change-IsLevel :
    (g g' : U64GroupedBitmap) (b v : ℕ) → b < g.len → IsLevel g → IsChange g b v g' → IsLevel g'
change-IsLevel g g' b v lt l c =
    let len = c.len in
    let size = c.size in
    let small = l.small in
    record {
      covered = c.covered;
      words = λ i. elim (Bool-cases (i == b / 64)) [
        | inl same ↦
            let e : i ≡ b / 64 = ground arith in
            subst (λ z. word_at g'.words z < u64_size) (sym e) (c.small (l.words (b / 64)))
        | inr other ↦
            let apart : i ≢ b / 64 = ground arith in
            subst (λ z. z < u64_size) (sym (c.others i apart)) (l.words i)
      ];
      padded = λ i from stored.
          let apart : (b == i) ≡ false = ground arith in
          c.bits i ∙ rw apart (l.padded i (omega arith) (omega arith));
      small = omega arith;
    }

-- A word with an unset bit is not full.
pub unset_word :
    (g : U64GroupedBitmap) (b : ℕ) → bit_at g b ≡ 0 → word_at g.words (b / 64) ≢ u64_max
unset_word g b unset full = omega (arith, word_full g (b / 64) b full refl, unset)

-- The parent sums up every word of the child but the one at `e`.
pub record IsSummaryBut (e : ℕ) (parent child : U64GroupedBitmap) : Type 0 where
  pub len : parent.len ≡ (child.len + 63) / 64
  pub bits : (i : ℕ) → i ≢ e → i < parent.len → IsSummaryAt parent child i

-- After a change of bit `b` of the child, its parent sums up every other word.
pub changed-IsSummaryBut :
    (p g g' : U64GroupedBitmap) (b v : ℕ)
    → IsSummary p g
    → IsChange g b v g'
    → IsSummaryBut (b / 64) p g'
changed-IsSummaryBut p g g' b v s c = record {
  len = let e = s.len in let len = c.len in omega arith;
  bits = λ i ne lt. record {
    full = λ h. c.others i ne ∙ (s.bits i lt).full h;
    vacant = λ h full. (s.bits i lt).vacant h (sym (c.others i ne) ∙ full);
  };
}

-- Setting or clearing the bit of the word that was left out completes the summary.
completed :
    (p p' child : U64GroupedBitmap) (e v : ℕ)
    → IsSummaryBut e p child
    → IsChange p e v p'
    → (v ≡ 1 → word_at child.words e ≡ u64_max)
    → (v ≡ 0 → word_at child.words e ≢ u64_max)
    → IsSummary p' child
completed p p' child e v s c full vacant = record {
  len = c.len ∙ s.len;
  bits = λ i lt.
      let len = c.len in
      elim (Bool-cases (e == i)) [
        | inl same ↦
            let eq : e ≡ i = ground arith in
            let read : bit_at p' i ≡ v = c.bits i ∙ rw same refl in
            subst (IsSummaryAt p' child) eq (record {
              full = λ h. full (sym read ∙ ap (bit_at p') (sym eq) ∙ h);
              vacant = λ h. vacant (sym read ∙ ap (bit_at p') (sym eq) ∙ h);
            })
        | inr other ↦
            let apart : i ≢ e = ground arith in
            let read : bit_at p' i ≡ bit_at p i = c.bits i ∙ rw other refl in
            let old = s.bits i apart (omega arith) in
            record { full = λ h. old.full (sym read ∙ h); vacant = λ h. old.vacant (sym read ∙ h) }
      ];
}

-- What one round does to its level, and the flag it hands on.
pub record IsRound (e : ℕ) (child p p' : U64GroupedBitmap) (flag : Bool) : Type 0 where
  pub value : ℕ
  pub change : IsChange p e value p'
  pub summary : IsSummary p' child
  pub flag_eq : flag ≡ (word_at p'.words (e / 64) == u64_max)

pub IsRound-full :
    (heights : List U64GroupedBitmap) (h e : ℕ) (child : U64GroupedBitmap)
    → h < length heights
    → IsLevel (level_at heights h)
    → IsSummaryBut e (level_at heights h) child
    → e < (level_at heights h).len
    → word_at child.words e ≡ u64_max
    → (p' : U64GroupedBitmap) × (flag : Bool) × (update_level h e true heights
        ≡ ok (set heights h p', flag))
      × IsRound e child (level_at heights h) p' flag
unfolding update_level
IsRound-full heights h e child lt l s inside full =
    let p = level_at heights h in
    let (p', returns, c) = set_bit_lem p e l.covered inside in
    (
      p',
      _,
      rw (get_elem?-level_at heights h lt, returns) refl,
      record {
        value = 1;
        change = c;
        summary = completed p p' child e 1 s c (λ _. full) (λ z. absurd (omega arith));
        flag_eq = refl;
      },
    )

pub IsRound-open :
    (heights : List U64GroupedBitmap) (h e : ℕ) (child : U64GroupedBitmap)
    → h < length heights
    → IsLevel (level_at heights h)
    → IsSummaryBut e (level_at heights h) child
    → e < (level_at heights h).len
    → word_at child.words e ≢ u64_max
    → (p' : U64GroupedBitmap) × (flag : Bool) × (update_level h e false heights
        ≡ ok (set heights h p', flag))
      × IsRound e child (level_at heights h) p' flag
unfolding update_level
IsRound-open heights h e child lt l s inside vacant =
    let p = level_at heights h in
    let (p', returns, c) = clear_lem p e l.covered inside in
    let cleared : bit_at p' e ≡ 0 = c.bits e ∙ ground arith in
    (
      p',
      false,
      rw (get_elem?-level_at heights h lt, returns) refl,
      record {
        value = 0;
        change = c;
        summary = completed p p' child e 0 s c (λ z. absurd (omega arith)) (λ _. vacant);
        flag_eq = ground (arith, unset_word p' e cleared);
      },
    )
