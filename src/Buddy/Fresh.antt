-- ===== src/Buddy/Fresh.antt =====
-- What `new` of src/tree_store/page_store/buddy_allocator.rs builds: which blocks are free.
use native.Mathlib.Nat.{pow-suc, suc-mul, mul-div_cancel, div-eq_of_lt-le}
use redbx.Prelude.{
  false, ℕ, zero, suc, ◌+◌, ◌/◌, ◌^◌, ◌<◌, ◌≤◌, ◌≡◌, refl, ap, sym, ◌∙◌, List, arith, ok,
  if◌then◌else◌, ◌&&◌, ◌*◌, Bool-cases, inl, inr, ◌==◌, leb,
}
use redbx.Prelude.Bits.{pow_pos}
use redbx.Prelude.Word.{u32_size}
use redbx.Bitmap.{BtreeBitmap}
use redbx.Buddy.{clear_at, cover}
use redbx.Buddy.Orders.{IsOrders, IsOrders-same}
use redbx.Buddy.Cover.{between, IsCovered, cover_order-IsCovered}

-- The first free block of an order: the pages before it are in blocks of the orders above.
abbrev pub first_free : ℕ → ℕ → ℕ → ℕ
first_free max_order pages order = if order == max_order then 0 else 2 * (pages / 2 ^ (order + 1))

-- The bits when the orders from `below` on are done.
abbrev pub staged : (ℕ → ℕ) → ℕ → ℕ → ℕ → ℕ
staged first below j i = if leb below j && leb (first j) i then 0 else 1

staged-next :
    (first lens : ℕ → ℕ) (b j i : ℕ)
    → i < lens j
    → between (staged first (suc b)) b (first b) (lens b) j i ≡ staged first b j i
staged-next first lens b j i lt = elim (Bool-cases (b == j)) [
  | inl same ↦ let e : j ≡ b = ground arith in ground (arith, ap first e, ap lens e)
  | inr other ↦ ground arith
]

double : (n b : ℕ) → n * 2 ^ suc b ≡ 2 * n * 2 ^ b
double n b = omega (arith, ap (λ t. n * t) (pow-suc 2 b))

module _ (max_order pages orders : ℕ) (below_max : max_order < orders) (small : max_order ≤ 20)
    (room : pages + 2 ^ 20 < u32_size) where
  -- Where the loop over an order starts.
  abbrev pub IsReady : ℕ → ℕ → Type 0
  IsReady below processed =
      (b : ℕ) → below ≡ suc b → processed ≡ first_free max_order pages b * 2 ^ b

  -- When the loop over an order ends, the bits of the order are done.
  module _ (b processed : ℕ) (inside : b ≤ max_order)
      (ready : processed ≡ first_free max_order pages b * 2 ^ b) (r : List BtreeBitmap × ℕ)
      (c : IsCovered pages orders (staged (first_free max_order pages) (suc b)) b processed r) where
    reached : r.1 / 2 ^ b ≡ pages / 2 ^ b
    reached =
        let n = r.1 / 2 ^ b in
        let aligned = c.aligned in
        let within = c.within in
        let stopped = c.stopped in
        sym (
          div-eq_of_lt-le {k = n} (2 ^ b) {m = pages} (omega arith)
            (omega (arith, suc-mul n (2 ^ b))))

    done : IsOrders pages orders (staged (first_free max_order pages) b) r.0
    done =
        let first = first_free max_order pages in
        let start : processed / 2 ^ b ≡ first b =
          ap (λ t. t / 2 ^ b) ready ∙ mul-div_cancel (first b) (pow_pos b) in
        IsOrders-same
          (λ j i _ lt.
            ap (λ n. between (staged first (suc b)) b n (r.1 / 2 ^ b) j i) start
            ∙ ap (λ n. between (staged first (suc b)) b (first b) n j i) reached
            ∙ staged-next first (λ j. pages / 2 ^ j) b j i lt)
          c.bitmaps_kept

    next-IsReady : IsReady b r.1
    next-IsReady b' e =
        let aligned = c.aligned in
        let at = reached in
        let lower : (b' == max_order) ≡ false = ground arith in
        let up : suc b' ≡ b' + 1 = omega arith in
        let whole : r.1 ≡ pages / 2 ^ suc b' * 2 ^ suc b' =
          sym aligned ∙ ap (λ n. n * 2 ^ b) at ∙ ap (λ k. pages / 2 ^ k * 2 ^ k) e in
        rw lower
          (whole ∙ double (pages / 2 ^ suc b') b' ∙ ap (λ k. 2 * (pages / 2 ^ k) * 2 ^ b') up)

  ended :
      (bits : ℕ → ℕ → ℕ) (below processed : ℕ) (r r' : List BtreeBitmap × ℕ)
      → IsCovered pages orders bits below processed r
      → cover clear_at below pages r.1 r.0 ≡ ok r'
      → (0 < below → r'.1 ≡ pages)
      → r'.1 ≡ pages
  unfolding cover
  ended bits zero processed r r' c e exact =
      let same : r.1 ≡ r'.1 = cc in let within = c.within in let stopped = c.stopped in omega arith
  ended bits (suc below) processed r r' c e exact = exact (omega arith)

  -- The loop over the orders below `below` returns, and stops at the last page if there is an order.
  pub cover-exact :
      (below processed : ℕ) (free : List BtreeBitmap)
      → IsOrders pages orders (staged (first_free max_order pages) below) free
      → below ≤ max_order + 1
      → IsReady below processed
      → processed ≤ pages
      → (r : List BtreeBitmap × ℕ) × (cover clear_at below pages processed free ≡ ok r)
        × IsOrders pages orders (staged (first_free max_order pages) 0) r.0
        × (0 < below → r.1 ≡ pages)
  unfolding cover
  cover-exact zero processed free w le ready within =
      ((free, processed), refl, w, λ h. absurd (omega arith))
  cover-exact (suc b) processed free w le ready within =
      let start = ready b refl in
      let first = first_free max_order pages in
      let whole : processed / 2 ^ b * 2 ^ b ≡ processed =
        ap (λ t. t / 2 ^ b * 2 ^ b) start
        ∙ ap (λ n. n * 2 ^ b) (mul-div_cancel (first b) (pow_pos b))
        ∙ sym start in
      let (r, returns, c) =
        cover_order-IsCovered pages orders (staged first (suc b)) b pages processed free w
          (omega arith) (omega arith) room whole within (omega arith) in
      let (r', rest, w', exact) =
        cover-exact b r.1 r.0 (done b processed (omega arith) start r c) (omega arith)
          (next-IsReady b processed (omega arith) start r c)
          (let c_within = c.within in c_within) in
      (r', rw returns rest, w', λ _. ended (staged first (suc b)) b processed r r' c rest exact)
