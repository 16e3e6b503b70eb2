-- ===== src/Bitmap/Tests.antt =====
-- The bitmaps of src/tree_store/page_store/bitmap.rs on small inputs.
use redbx.Prelude.{ℕ, ◌-◌, ◌<◌, ◌≡◌, refl, sym, subst, [], ◌∷◌, arith, Option, ok, false}
use redbx.Bitmap.{
  BtreeBitmap, new, set_bit, clear, get, alloc, find_first_unset, leaf, get_level, build,
  update_to_root, with_leaf, climb, update_level,
}
use redbx.Bitmap.Word.{u64_max}
use redbx.Bitmap.Group.{U64GroupedBitmap}
use redbx.Bitmap.Group as Group
use redbx.Bitmap.Search.{Answer}
use redbx.Bitmap.Tree.{level_at}
use redbx.Bitmap.Changes.{IsSound, IsChanged, leaf_level, set_bit-IsChanged, clear-IsChanged}
use redbx.Bitmap.Alloc.{Allocated, alloc-Allocated, find_first_unset-Answer}
use redbx.Bitmap.Full.{IsFull, new-IsFull}

-- Two levels: 70 ids, all taken.
abbrev taken : BtreeBitmap
taken = new 70 100

-- The same with id 65 free.
abbrev one_free : BtreeBitmap
one_free = record {
  heights =
      record { len = 2; words = (u64_max - 2) ∷ [] }
      ∷ record { len = 70; words = u64_max ∷ (u64_max - 2) ∷ [] }
      ∷ [];
}

new-IsFull_example : IsFull 70 taken
new-IsFull_example = new-IsFull 70 100 (omega arith) (omega arith)

taken-inside : 65 < (leaf_level taken).len
taken-inside =
    subst (λ n. 65 < n) (sym (new-IsFull 70 100 (omega arith) (omega arith)).length_eq)
      (omega arith)

clear-taken : clear taken 65 ≡ ok one_free
unfolding clear new leaf get_level build Group.clear Group.new_full Group.required_words
    update_to_root with_leaf climb update_level
clear-taken = refl

get-one_free : get one_free 65 ≡ ok false
unfolding get leaf get_level Group.get
get-one_free = refl

set_bit-IsChanged_example :
    (m' : BtreeBitmap) × (set_bit taken 65 ≡ ok m') × IsChanged taken m' 65 1
set_bit-IsChanged_example =
    set_bit-IsChanged taken 65 (new-IsFull 70 100 (omega arith) (omega arith)).sound taken-inside

clear-IsChanged_example : (m' : BtreeBitmap) × (clear taken 65 ≡ ok m') × IsChanged taken m' 65 0
clear-IsChanged_example =
    clear-IsChanged taken 65 (new-IsFull 70 100 (omega arith) (omega arith)).sound taken-inside

one_free-IsSound : IsSound one_free
one_free-IsSound =
    let (m', returns, changed) =
      clear-IsChanged taken 65 (new-IsFull 70 100 (omega arith) (omega arith)).sound taken-inside in
    let same : m' ≡ one_free = cc (returns, clear-taken) in subst IsSound same changed.sound

one_free-inside : 65 < (leaf_level one_free).len
unfolding level_at
one_free-inside = omega arith

find_first_unset-Answer_example :
    (r : Option ℕ) × (find_first_unset one_free ≡ ok r) × Answer (leaf_level one_free) r
find_first_unset-Answer_example = find_first_unset-Answer one_free one_free-IsSound

alloc-Allocated_example :
    (r : Option ℕ) × (m' : BtreeBitmap) × (alloc one_free ≡ ok (r, m')) × Allocated one_free r m'
alloc-Allocated_example = alloc-Allocated one_free one_free-IsSound
