-- ===== src/Buddy/Orders.antt =====
-- The bitmaps of the orders of src/tree_store/page_store/buddy_allocator.rs, and what clearing a block
-- does to their bits.
use native.Mathlib.Nat.{pow-suc, div-div-eq-div-mul}
use redbx.Prelude.{
  ℕ, zero, suc, ◌+◌, ◌/◌, ◌^◌, ◌<◌, ◌≤◌, ◌≡◌, ◌≢◌, refl, ap, sym, ◌∙◌, subst, List, arith, length,
  some, ok, get_elem?, set, length-set, get_elem?-set_self, get_elem?-set_ne, get_elem?-some,
  get_elem?-lt, if◌then◌else◌, ◌&&◌, Bool-cases, inl, inr, ◌==◌,
}
use redbx.Prelude.Word.{u32_size}
use redbx.Bitmap
use redbx.Bitmap.{BtreeBitmap}
use redbx.Bitmap.Group.Reads.{bit_at}
use redbx.Bitmap.Changes.{IsSound, leaf_level, clear-IsChanged}
use redbx.Bitmap.Full.{new-IsFull}
use redbx.Buddy.{bitmaps, next_higher_order, get_order_free, clear_at}

-- A bitmap of an order: sound, with an id for each whole block of the order among `pages`, and these
-- bits.
pub record IsOrder (pages order : ℕ) (bits : ℕ → ℕ) (m : BtreeBitmap) : Type 0 where
  pub sound : IsSound m
  pub len : (leaf_level m).len ≡ pages / 2 ^ order
  pub marks : (i : ℕ) → i < pages / 2 ^ order → bit_at (leaf_level m) i ≡ bits i

pub record IsOrders (pages orders : ℕ) (bits : ℕ → ℕ → ℕ) (free : List BtreeBitmap) : Type 0 where
  pub size : length free ≡ orders
  pub each : (j : ℕ) (m : BtreeBitmap) → get_elem? free j ≡ some m → IsOrder pages j (bits j) m

pub IsOrders-same :
    {pages orders : ℕ} {bits other : ℕ → ℕ → ℕ} {free : List BtreeBitmap}
    → ((j i : ℕ) → j < orders → i < pages / 2 ^ j → bits j i ≡ other j i)
    → IsOrders pages orders bits free
    → IsOrders pages orders other free
IsOrders-same {pages} {orders} {bits} {other} {free} same w = record {
  size = w.size;
  each = λ j m e.
      let o = w.each j m e in
      let inside : j < orders = omega (arith, get_elem?-lt free j e, w.size) in
      record { sound = o.sound; len = o.len; marks = λ i lt. o.marks i lt ∙ same j i inside lt };
}

-- No block is free.
abbrev pub all_set : ℕ → ℕ → ℕ
all_set j i = 1

pub bitmaps-IsOrder :
    (orders pages capacity : ℕ)
    → pages ≤ capacity
    → capacity + 128 ≤ u32_size
    → (j : ℕ) (m : BtreeBitmap) → get_elem? (bitmaps orders pages capacity) j ≡ some m
    → IsOrder pages j (all_set j) m
unfolding bitmaps next_higher_order
bitmaps-IsOrder zero pages capacity le small j m e = cc
bitmaps-IsOrder (suc orders) pages capacity le small zero m e =
    let full = new-IsFull pages capacity le small in
    let same : Bitmap.new pages capacity ≡ m = cc in
    subst (IsOrder pages 0 (all_set 0)) same (record {
      sound = full.sound;
      len = full.length_eq ∙ omega arith;
      marks = λ i lt. full.all_bits i (omega arith);
    })
bitmaps-IsOrder (suc orders) pages capacity le small (suc j) m e =
    let rest =
      bitmaps-IsOrder orders (pages / 2) (capacity / 2) (omega arith) (omega arith) j m e in
    let halves : pages / 2 / 2 ^ j ≡ pages / 2 ^ suc j =
      div-div-eq-div-mul pages 2 (2 ^ j) ∙ ap (λ d. pages / d) (sym (omega (arith, pow-suc 2 j))) in
    record {
      sound = rest.sound;
      len = rest.len ∙ halves;
      marks = λ i lt. rest.marks i (omega arith);
    }

pub length-bitmaps : (orders pages capacity : ℕ) → length (bitmaps orders pages capacity) ≡ orders
unfolding bitmaps
length-bitmaps zero pages capacity = refl
length-bitmaps (suc orders) pages capacity =
    ap suc (length-bitmaps orders (next_higher_order pages) (next_higher_order capacity))

-- The bits with that of one block cleared.
abbrev pub without : (ℕ → ℕ → ℕ) → ℕ → ℕ → ℕ → ℕ → ℕ
without bits order page j i = if order == j && page == i then 0 else bits j i

-- Clearing a block of an order returns, and changes that bit only.
pub clear_at-IsOrders :
    (pages orders : ℕ) (bits : ℕ → ℕ → ℕ) (order page : ℕ) (free : List BtreeBitmap)
    → IsOrders pages orders bits free
    → order < orders
    → page < pages / 2 ^ order
    → (free' : List BtreeBitmap) × (clear_at free order page ≡ ok free')
      × IsOrders pages orders (without bits order page) free'
unfolding clear_at get_order_free
clear_at-IsOrders pages orders bits order page free w lt inside =
    let size = w.size in
    let (m, at) = get_elem?-some free order (omega arith) in
    let o = w.each order m at in
    let (m', returns, c) =
      clear-IsChanged m page o.sound (subst (λ k. page < k) (sym o.len) inside) in
    let changed : IsOrder pages order (without bits order page order) m' = record {
      sound = c.sound;
      len = c.len ∙ o.len;
      marks = λ i l. ground (arith, c.bits i, o.marks i l);
    } in
    (
      set free order m',
      rw (at, returns) refl,
      record {
        size = length-set free order m' ∙ size;
        each = λ j x e. elim (Bool-cases (order == j)) [
          | inl same ↦
              let eq : order ≡ j = ground arith in
              let here = get_elem?-set_self free order m' (omega arith) in
              let x_eq : m' ≡ x = cc (here, e, ap (get_elem? (set free order m')) eq) in
              subst (λ k. IsOrder pages k (without bits order page k) x) eq
                (subst (IsOrder pages order (without bits order page order)) x_eq changed)
          | inr other ↦
              let apart : order ≢ j = ground arith in
              let kept = w.each j x (sym (get_elem?-set_ne free order j m' apart) ∙ e) in
              record {
                sound = kept.sound;
                len = kept.len;
                marks = λ i l. kept.marks i l ∙ ground arith;
              }
        ];
      },
    )
