-- ===== src/Header/Repair.antt =====
-- Which commit slot `pick_primary_for_repair` of src/tree_store/page_store/header.rs picks.
use Prim.Native.Nat.{bit_xor}
use redbx.Prelude.{
  ℕ, zero, suc, ◌-◌, ◌<◌, ◌≤◌, ◌≡◌, refl, ap, sym, ◌∙◌, Bool, true, false, not, ◌&&◌, ◌⊎◌, inl, inr,
  arith, Outcome, ok, ◌>>=◌, ltb, if◌then◌else◌,
}
use redbx.Header.{
  DatabaseHeader, HeaderRepairInfo, slot, primary_slot, secondary_slot, swap_primary_slot,
  pick_primary_for_repair,
}
use redbx.Header.Slot.{DatabaseError, TransactionHeader}

-- The transaction of slot 0, or of slot 1.
unfoldable pub transaction_of : DatabaseHeader → ℕ → ℕ
transaction_of h zero = h.slot0.transaction_id
transaction_of h (suc i) = h.slot1.transaction_id

unfoldable pub with_primary : DatabaseHeader → ℕ → DatabaseHeader
with_primary h i = record h { primary = i }

-- The rule for a repair. A primary of a two-phase commit is taken, or the database is corrupted.
-- Else the newer of the slots that are not corrupted is taken, the primary if they are equal, and the
-- database is corrupted if both slots are.
pub data Picked (h : DatabaseHeader) (info : HeaderRepairInfo)
    : DatabaseError ⊎ (Bool × DatabaseHeader) → Type 0 where
  trusted :
      h.two_phase_commit ≡ true → info.primary_corrupted ≡ false → Picked h info (inr (true, h))
  untrusted :
      h.two_phase_commit ≡ true
      → info.primary_corrupted ≡ true
      → Picked h info (inl DatabaseError.corrupted)
  both_corrupted :
      h.two_phase_commit ≡ false
      → info.primary_corrupted ≡ true
      → info.secondary_corrupted ≡ true
      → Picked h info (inl DatabaseError.corrupted)
  kept :
      h.two_phase_commit ≡ false
      → info.primary_corrupted ≡ false
      → (info.secondary_corrupted ≡ false
          → transaction_of h (1 - h.primary) ≤ transaction_of h h.primary)
      → Picked h info (inr (true, h))
  swapped :
      h.two_phase_commit ≡ false
      → info.secondary_corrupted ≡ false
      → (info.primary_corrupted ≡ false
          → transaction_of h h.primary < transaction_of h (1 - h.primary))
      → Picked h info (inr (false, with_primary h (1 - h.primary)))

-- The answer for the header's and the repair's flags, and whether the secondary is newer.
answer : DatabaseHeader → Bool → Bool → Bool → Bool → DatabaseError ⊎ (Bool × DatabaseHeader)
answer h true true bad newer = inl DatabaseError.corrupted
answer h true false bad newer = inr (true, h)
answer h false true true newer = inl DatabaseError.corrupted
answer h false true false newer = inr (false, with_primary h (1 - h.primary))
answer h false false true newer = inr (true, h)
answer h false false false true = inr (false, with_primary h (1 - h.primary))
answer h false false false false = inr (true, h)

answer-Picked :
    (h : DatabaseHeader) (info : HeaderRepairInfo) (two bad bad' newer : Bool)
    → h.two_phase_commit ≡ two
    → info.primary_corrupted ≡ bad
    → info.secondary_corrupted ≡ bad'
    → ltb (transaction_of h h.primary) (transaction_of h (1 - h.primary)) ≡ newer
    → Picked h info (answer h two bad bad' newer)
unfolding answer
answer-Picked h info true true bad' newer t p s n = Picked.untrusted t p
answer-Picked h info true false bad' newer t p s n = Picked.trusted t p
answer-Picked h info false true true newer t p s n = Picked.both_corrupted t p s
answer-Picked h info false true false newer t p s n = Picked.swapped t s (λ good. cc)
answer-Picked h info false false true newer t p s n = Picked.kept t p (λ good. cc)
answer-Picked h info false false false true t p s n = Picked.swapped t s (λ good. ground arith)
answer-Picked h info false false false false t p s n = Picked.kept t p (λ good. ground arith)

-- The code for given flags, and given slots.
code : DatabaseHeader → Bool → Bool → Bool → Outcome (DatabaseError ⊎ (Bool × DatabaseHeader))
code h two bad bad' =
    if two
    then ok (if bad then inl DatabaseError.corrupted else inr (true, h))
    else if bad
    then ok (if bad' then inl DatabaseError.corrupted else inr (false, swap_primary_slot h))
    else (do
      secondary ← secondary_slot h
      primary ← primary_slot h
      ok (
          inr (
            if ltb primary.transaction_id secondary.transaction_id && not bad'
            then (false, swap_primary_slot h)
            else (true, h))))

code_eq :
    (h : DatabaseHeader) (info : HeaderRepairInfo)
    → pick_primary_for_repair h info
      ≡ code h h.two_phase_commit info.primary_corrupted info.secondary_corrupted
unfolding pick_primary_for_repair code
code_eq h info = refl

-- What the two slots hold, and what a swap does.
record IsSlots (h : DatabaseHeader) : Type 0 where
  primary : TransactionHeader
  secondary : TransactionHeader
  primary_eq : primary_slot h ≡ ok primary
  secondary_eq : secondary_slot h ≡ ok secondary
  primary_id : primary.transaction_id ≡ transaction_of h h.primary
  secondary_id : secondary.transaction_id ≡ transaction_of h (1 - h.primary)
  swap : swap_primary_slot h ≡ with_primary h (1 - h.primary)

slots : (h : DatabaseHeader) (i : ℕ) → h.primary ≡ i → i ≤ 1 → IsSlots h
unfolding primary_slot secondary_slot slot swap_primary_slot transaction_of with_primary
slots h zero e le = record {
  primary = h.slot0;
  secondary = h.slot1;
  primary_eq = ap (slot h) e;
  secondary_eq = ap (λ i. slot h (bit_xor i 1)) e;
  primary_id = sym (ap (transaction_of h) e);
  secondary_id = sym (ap (λ i. transaction_of h (1 - i)) e);
  swap = ap (λ i. with_primary h (bit_xor i 1)) e ∙ sym (ap (λ i. with_primary h (1 - i)) e);
}
slots h (suc zero) e le = record {
  primary = h.slot1;
  secondary = h.slot0;
  primary_eq = ap (slot h) e;
  secondary_eq = ap (λ i. slot h (bit_xor i 1)) e;
  primary_id = sym (ap (transaction_of h) e);
  secondary_id = sym (ap (λ i. transaction_of h (1 - i)) e);
  swap = ap (λ i. with_primary h (bit_xor i 1)) e ∙ sym (ap (λ i. with_primary h (1 - i)) e);
}
slots h (suc (suc i)) e le = absurd (omega arith)

code-answer :
    (h : DatabaseHeader) (two bad bad' newer : Bool)
    → IsSlots h
    → ltb (transaction_of h h.primary) (transaction_of h (1 - h.primary)) ≡ newer
    → code h two bad bad' ≡ ok (answer h two bad bad' newer)
unfolding code answer
code-answer h true true bad' newer s n = refl
code-answer h true false bad' newer s n = refl
code-answer h false true true newer s n = refl
code-answer h false true false newer s n = ap (λ h'. ok (inr (false, h'))) s.swap
code-answer h false false true true s n =
    rw (s.secondary_eq, s.primary_eq, s.primary_id, s.secondary_id, n) refl
code-answer h false false true false s n =
    rw (s.secondary_eq, s.primary_eq, s.primary_id, s.secondary_id, n) refl
code-answer h false false false true s n =
    rw (s.secondary_eq, s.primary_eq, s.primary_id, s.secondary_id, n)
      (ap (λ h'. ok (inr (false, h'))) s.swap)
code-answer h false false false false s n =
    rw (s.secondary_eq, s.primary_eq, s.primary_id, s.secondary_id, n) refl

-- A repair of a header whose primary is slot 0 or 1 returns. A primary of a two-phase commit is taken,
-- unless its checksum is wrong, which is an error. Else the answer is the newer of the slots whose
-- checksum is right, the primary if they are equally new, and an error if both are wrong.
pub pick_primary_for_repair-Picked :
    (h : DatabaseHeader) (info : HeaderRepairInfo)
    → h.primary ≤ 1
    → (r : DatabaseError ⊎ (Bool × DatabaseHeader)) × (pick_primary_for_repair h info ≡ ok r)
      × Picked h info r
pick_primary_for_repair-Picked h info le =
    let newer = ltb (transaction_of h h.primary) (transaction_of h (1 - h.primary)) in
    (
      answer h h.two_phase_commit info.primary_corrupted info.secondary_corrupted newer,
      code_eq h info
          ∙ code-answer h h.two_phase_commit info.primary_corrupted info.secondary_corrupted newer
              (slots h h.primary refl le) refl,
      answer-Picked h info h.two_phase_commit info.primary_corrupted info.secondary_corrupted newer
          refl refl refl refl,
    )
