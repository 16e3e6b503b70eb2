-- ===== src/Prelude/Moves.antt =====
-- Moves of bytes inside a page.
use Prim.Native.Nat.{ℕ, ◌+◌, ◌-◌, ◌≤◌}
use mathlib.Core.Path.{◌≡◌, sym, ap, ◌∙◌}
use mathlib.Core.List.{List}
use native.Mathlib.Nat.{add_assoc}
use native.Mathlib.Omega.{arith}
use redbx.Prelude.Lists.{length, get_elem?}
use redbx.Prelude.Panics.{Outcome, ok, ◌>>=◌}
use redbx.Prelude.Memory.{At, range, range-At, bytes_of, Only, write-Only}
use redbx.Prelude.Bytes.{write}

-- `page.copy_within(start..end, dest)`
unfoldable pub copy_within : ℕ → ℕ → ℕ → List ℕ → Outcome (List ℕ)
copy_within start end dest page = do bytes ← range start end page; write dest bytes page

-- A move inside the page: what stood in the range stands at the destination.
pub record Moved (page : List ℕ) (start size dest : ℕ) (after : List ℕ) : Type 0 where
  pub moved :
      (k : ℕ) {xs : List ℕ} → At page (start + k) xs → k + length xs ≤ size → At after (dest + k) xs
  pub rest : Only page dest (dest + size) after

moved_part :
    (k : ℕ) {page after : List ℕ} {start dest : ℕ} {region xs : List ℕ}
    → At page start region
    → At after dest region
    → At page (start + k) xs
    → k + length xs ≤ length region
    → At after (dest + k) xs
moved_part k {page} {after} {start} {dest} from to at h = record {
  inside = omega (arith, to.inside);
  same = λ i l.
      ap (get_elem? after) (add_assoc dest k i)
      ∙ to.same (k + i) (omega arith)
      ∙ sym (from.same (k + i) (omega arith))
      ∙ ap (get_elem? page) (sym (add_assoc start k i))
      ∙ at.same i l;
}

pub copy_within-Moved :
    (start end dest : ℕ) (page : List ℕ)
    → start ≤ end
    → end ≤ length page
    → dest + (end - start) ≤ length page
    → (after : List ℕ) × (copy_within start end dest page ≡ ok after)
      × Moved page start (end - start) dest after
unfolding copy_within
copy_within-Moved start end dest page h k l =
    let (region, e, at) = bytes_of start (end - start) page (omega arith) in
    let (after, f, there, only) = write-Only dest region page (omega arith) in
    (
      after,
      rw (range-At {end = end} at (omega arith)) f,
      record {
        moved = λ k a b. moved_part k at there a (omega arith);
        rest = record {
          size = only.size;
          below = only.below;
          above = λ a b. only.above a (omega arith);
        };
      },
    )
