-- ===== src/Regions/Tests.antt =====
-- A region tracker of src/tree_store/page_store/region.rs on a small input.
use redbx.Prelude.{ℕ, ◌<◌, ◌≤◌, ◌≡◌, sym, subst, arith, some, ok}
use redbx.Regions.{RegionTracker, new_tracker, mark_free, find_free}
use redbx.Regions.Marks.{
  IsTrackers, mark_free-find_free, new_tracker-IsTrackers, length-new_tracker,
}

-- Three regions, orders 0 to 2.
abbrev tracker : RegionTracker
tracker = new_tracker 3 3

mark_free-find_free_example :
    (t' : RegionTracker) × (mark_free tracker 1 2 ≡ ok t')
    × IsTrackers 3 t'.order_trackers
    × ((o : ℕ) → o ≤ 1 → (r : ℕ) × (find_free t' o ≡ ok (some r)) × (r ≤ 2))
mark_free-find_free_example =
    mark_free-find_free 3 tracker 1 2 (new_tracker-IsTrackers 3 3 (omega arith))
      (subst (λ n. 1 < n) (sym (length-new_tracker 3 3)) (omega arith)) (omega arith)
