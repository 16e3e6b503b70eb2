-- ===== src/Regions/Marks.antt =====
-- What `mark_free` of src/tree_store/page_store/region.rs leaves for `find_free`.
use redbx.Prelude.{
  ℕ, zero, suc, ◌+◌, ◌<◌, ◌≤◌, ◌≡◌, ◌≢◌, refl, ap, sym, ◌∙◌, subst, List, arith, length, Option,
  none, some, ok, get_elem?, set, length-set, get_elem?-set_self, get_elem?-set_ne, get_elem?-some,
  replicate, length-replicate, Bool-cases, inl, inr, ◌==◌, ltb,
}
use redbx.Bitmap
use redbx.Bitmap.{BtreeBitmap, find_first_unset}
use redbx.Bitmap.Group.Reads.{bit_at}
use redbx.Bitmap.Search.{Answer}
use redbx.Bitmap.Changes.{IsSound, IsChanged, leaf_level, clear-IsChanged}
use redbx.Bitmap.Alloc.{find_first_unset-Answer}
use redbx.Regions.{RegionTracker, clear_orders, mark_free, find_free, new_tracker, max_regions}
use redbx.Bitmap.Full.{new-IsFull}

-- Sound bitmaps, all for `n` regions.
pub record IsTrackers (n : ℕ) (ts : List BtreeBitmap) : Type 0 where
  pub sound : (j : ℕ) (m : BtreeBitmap) → get_elem? ts j ≡ some m → IsSound m
  pub len : (j : ℕ) (m : BtreeBitmap) → get_elem? ts j ≡ some m → (leaf_level m).len ≡ n

set-IsTrackers :
    (n i : ℕ) (ts : List BtreeBitmap) (m m' : BtreeBitmap) (region : ℕ)
    → IsTrackers n ts
    → get_elem? ts i ≡ some m
    → i < length ts
    → IsChanged m m' region 0
    → IsTrackers n (set ts i m')
set-IsTrackers n i ts m m' region t at lt c = record {
  sound = λ j x e. elim (Bool-cases (i == j)) [
    | inl same ↦
        let eq : i ≡ j = ground arith in
        let here : get_elem? (set ts i m') j ≡ some m' =
          subst (λ k. get_elem? (set ts i m') k ≡ some m') eq (get_elem?-set_self ts i m' lt) in
        let x_eq : m' ≡ x = cc (here, e) in subst IsSound x_eq c.sound
    | inr other ↦
        let apart : i ≢ j = ground arith in t.sound j x (sym (get_elem?-set_ne ts i j m' apart) ∙ e)
  ];
  len = λ j x e. elim (Bool-cases (i == j)) [
    | inl same ↦
        let eq : i ≡ j = ground arith in
        let here : get_elem? (set ts i m') j ≡ some m' =
          subst (λ k. get_elem? (set ts i m') k ≡ some m') eq (get_elem?-set_self ts i m' lt) in
        let x_eq : m' ≡ x = cc (here, e) in
        subst (λ y. (leaf_level y).len ≡ n) x_eq (c.len ∙ t.len i m at)
    | inr other ↦
        let apart : i ≢ j = ground arith in t.len j x (sym (get_elem?-set_ne ts i j m' apart) ∙ e)
  ];
}

-- The region's bit is clear at the orders from `i` to before `i + orders`; the trackers of the orders
-- before are as they were.
pub record IsMarked (n orders i region : ℕ) (ts ts' : List BtreeBitmap) : Type 0 where
  pub trackers : IsTrackers n ts'
  pub size : length ts' ≡ length ts
  pub marked :
      (j : ℕ) (m : BtreeBitmap)
      → get_elem? ts' j ≡ some m
      → i ≤ j
      → j < i + orders
      → bit_at (leaf_level m) region ≡ 0
  pub before : (j : ℕ) → j < i → get_elem? ts' j ≡ get_elem? ts j

clear_orders-IsMarked :
    (n orders i region : ℕ) (ts : List BtreeBitmap)
    → IsTrackers n ts
    → i + orders ≤ length ts
    → region < n
    → (ts' : List BtreeBitmap) × (clear_orders orders i region ts ≡ ok ts')
      × IsMarked n orders i region ts ts'
unfolding clear_orders
clear_orders-IsMarked n zero i region ts t le lt = (
  ts,
  refl,
  record {
    trackers = t;
    size = refl;
    marked = λ j m e from to. absurd (omega arith);
    before = λ j h. refl;
  },
)
clear_orders-IsMarked n (suc orders) i region ts t le lt =
    let (m, at) = get_elem?-some ts i (omega arith) in
    let inside : region < (leaf_level m).len = subst (λ k. region < k) (sym (t.len i m at)) lt in
    let (m', returns, c) = clear-IsChanged m region (t.sound i m at) inside in
    let (ts', rest, marks) =
      clear_orders-IsMarked n orders (i + 1) region (set ts i m')
        (set-IsTrackers n i ts m m' region t at (omega arith) c)
        (let size = length-set ts i m' in omega arith) lt in
    let here : get_elem? ts' i ≡ some m' =
      marks.before i (omega arith) ∙ get_elem?-set_self ts i m' (omega arith) in
    (
      ts',
      rw (at, returns) rest,
      record {
        trackers = marks.trackers;
        size = marks.size ∙ length-set ts i m';
        marked = λ j x e from to. elim (Bool-cases (i == j)) [
          | inl same ↦
              let eq : i ≡ j = ground arith in
              let x_eq : m' ≡ x = cc (here, e, ap (get_elem? ts') eq) in
              subst (λ y. bit_at (leaf_level y) region ≡ 0) x_eq (c.bits region ∙ ground arith)
          | inr other ↦ marks.marked j x e (ground arith) (omega arith)
        ];
        before = λ j h.
            marks.before j (omega arith) ∙ get_elem?-set_ne ts i j m' (λ e. absurd (omega arith));
      },
    )

-- The search of a bitmap with an unset bit finds that bit or an earlier one.
found_below :
    (m : BtreeBitmap) (b : ℕ) (r : Option ℕ)
    → b < (leaf_level m).len
    → bit_at (leaf_level m) b ≡ 0
    → Answer (leaf_level m) r
    → (c : ℕ) × (r ≡ some c) × (c ≤ b)
found_below m b none lt unset (Answer.all_set set_bits) =
    absurd (omega (arith, set_bits b lt, unset))
found_below m b (some _) lt unset (Answer.unset_at c least) = (
  c,
  refl,
  elim (Bool-cases (ltb b c)) [
    | inl less ↦ absurd (omega (arith, least.before b (ground arith), unset))
    | inr other ↦ ground arith
  ],
)

found_marked :
    (n : ℕ) (t : RegionTracker) (o region : ℕ)
    → IsTrackers n t.order_trackers
    → o < length t.order_trackers
    → region < n
    → ((m : BtreeBitmap) → get_elem? t.order_trackers o ≡ some m → bit_at (leaf_level m) region ≡ 0)
    → (r : ℕ) × (find_free t o ≡ ok (some r)) × (r ≤ region)
unfolding find_free
found_marked n t o region trackers inside lt unset =
    let (m, at) = get_elem?-some t.order_trackers o inside in
    let (r, returns, answer) = find_first_unset-Answer m (trackers.sound o m at) in
    let (c, same, le) =
      found_below m region r (subst (λ k. region < k) (sym (trackers.len o m at)) lt) (unset m at)
        answer in
    (c, rw at (returns ∙ ap ok same), le)

-- On a tracker whose bitmaps are sound and all for `n` regions, marking a region below `n` free for an
-- order of the tracker returns, leaves such a tracker, and from then on a search for any order up to that
-- one finds a region, the marked one or one before it.
pub mark_free-find_free :
    (n : ℕ) (t : RegionTracker) (order region : ℕ)
    → IsTrackers n t.order_trackers
    → order < length t.order_trackers
    → region < n
    → (t' : RegionTracker) × (mark_free t order region ≡ ok t')
      × IsTrackers n t'.order_trackers
      × ((o : ℕ) → o ≤ order → (r : ℕ) × (find_free t' o ≡ ok (some r)) × (r ≤ region))
unfolding mark_free
mark_free-find_free n t order region trackers inside lt =
    let (ts', returns, marks) =
      clear_orders-IsMarked n (order + 1) 0 region t.order_trackers trackers (omega arith) lt in
    let size = marks.size in
    (
      record { order_trackers = ts' },
      rw returns refl,
      marks.trackers,
      λ o le.
          found_marked n (record { order_trackers = ts' }) o region marks.trackers (omega arith) lt
            (λ m e. marks.marked o m e (omega arith) (omega arith)),
    )

get_elem?-replicate :
    (orders : ℕ) (b : BtreeBitmap) (j : ℕ) (m : BtreeBitmap)
    → get_elem? (replicate orders b) j ≡ some m
    → b ≡ m
get_elem?-replicate zero b j m e = cc
get_elem?-replicate (suc orders) b zero m e = cc
get_elem?-replicate (suc orders) b (suc j) m e = get_elem?-replicate orders b j m e

pub new_tracker-IsTrackers :
    (regions orders : ℕ)
    → regions ≤ max_regions
    → IsTrackers regions (new_tracker regions orders).order_trackers
unfolding new_tracker
new_tracker-IsTrackers regions orders le =
    let full = new-IsFull regions max_regions le (omega arith) in
    record {
      sound = λ j m e.
          subst IsSound (get_elem?-replicate orders (Bitmap.new regions max_regions) j m e)
            full.sound;
      len = λ j m e.
          subst (λ y. (leaf_level y).len ≡ regions)
            (get_elem?-replicate orders (Bitmap.new regions max_regions) j m e) full.length_eq;
    }

pub length-new_tracker :
    (regions orders : ℕ) → length (new_tracker regions orders).order_trackers ≡ orders
unfolding new_tracker
length-new_tracker regions orders = length-replicate orders (Bitmap.new regions max_regions)
