-- ===== src/Tracker/Clients/Values.antt =====
-- Counting the references in the parts of a world.
use redbx.Prelude.{
  ℕ, suc, ◌+◌, ◌<◌, ◌≡◌, refl, none, List, [], ◌∷◌, ◌++◌, arith, length, length-append,
  if◌then◌else◌, ◌==◌, ap, sym, ok,
}
use redbx.Prelude.Map.{find, insert}
use redbx.Tracker.Counts.{
  values, count, count-append, Represents, Represents-perm, add_reference-Represents,
  drop_reference-keeps,
}
use redbx.Tracker.{add_reference, drop_reference}
use redbx.Prelude.Word.{u64_size}

pub values-append : (xs ys : List (ℕ × ℕ)) → values (xs ++ ys) ≡ values xs ++ values ys
values-append [] ys = refl
values-append ((k, v) ∷ xs) ys = ap (◌∷◌ v) (values-append xs ys)

-- An element in the middle counts as one at the front.
pub count_middle :
    (t x : ℕ) (xs ys : List ℕ)
    → count t (xs ++ (x ∷ ys)) ≡ (if x == t then 1 else 0) + count t (xs ++ ys)
count_middle t x xs ys = ground (arith, count-append t xs (x ∷ ys), count-append t xs ys)

pub length_middle : (x : ℕ) (xs ys : List ℕ) → length (xs ++ (x ∷ ys)) ≡ suc (length (xs ++ ys))
length_middle x xs ys = omega (arith, length-append xs (x ∷ ys), length-append xs ys)

-- A new key adds its value.
pub count-values-insert :
    (t k v : ℕ) (m : List (ℕ × ℕ))
    → find k m ≡ none
    → count t (values (insert k v m)) ≡ (if v == t then 1 else 0) + count t (values m)
unfolding find insert
count-values-insert t k v [] e = refl
count-values-insert t k v ((j, w) ∷ m) e = ground (arith, count-values-insert t k v m)

pub length-values-insert :
    (k v : ℕ) (m : List (ℕ × ℕ))
    → find k m ≡ none
    → length (values (insert k v m)) ≡ suc (length (values m))
unfolding find insert
length-values-insert k v [] e = refl
length-values-insert k v ((j, w) ∷ m) e = ground (arith, length-values-insert k v m)

-- One reference more or less inside the list of holders: what it counts, and how long it is.
pub record OneMore (x : ℕ) (more less : List ℕ) : Type 0 where
  pub counts : (t : ℕ) → count t more ≡ count t (x ∷ less)
  pub size : length more ≡ suc (length less)

pub OneMore-reader :
    (x : ℕ) (h xs ys p : List ℕ) → OneMore x (h ++ ((xs ++ (x ∷ ys)) ++ p)) (h ++ ((xs ++ ys) ++ p))
OneMore-reader x h xs ys p = record {
  counts = λ t. ground (
    arith,
    count-append t h ((xs ++ (x ∷ ys)) ++ p),
    count-append t h ((xs ++ ys) ++ p),
    count-append t (xs ++ (x ∷ ys)) p,
    count-append t (xs ++ ys) p,
    count_middle t x xs ys,
  );
  size = omega (
    arith,
    length-append h ((xs ++ (x ∷ ys)) ++ p),
    length-append h ((xs ++ ys) ++ p),
    length-append (xs ++ (x ∷ ys)) p,
    length-append (xs ++ ys) p,
    length_middle x xs ys,
  );
}

pub OneMore-handle :
    (id t : ℕ) (xs ys : List (ℕ × ℕ)) (r : List ℕ)
    → OneMore t (values (xs ++ ((id, t) ∷ ys)) ++ r) (values (xs ++ ys) ++ r)
OneMore-handle id t xs ys r = record {
  counts = λ u.
      rw (values-append xs ((id, t) ∷ ys), values-append xs ys)
        (ground (
          arith,
          count-append u (values xs ++ (t ∷ values ys)) r,
          count-append u (values xs ++ values ys) r,
          count_middle u t (values xs) (values ys),
        ));
  size =
      rw (values-append xs ((id, t) ∷ ys), values-append xs ys)
        (omega (
          arith,
          length-append (values xs ++ (t ∷ values ys)) r,
          length-append (values xs ++ values ys) r,
          length_middle t (values xs) (values ys),
        ));
}

pub OneMore-pending :
    (k v : ℕ) (h r : List ℕ) (m : List (ℕ × ℕ))
    → find k m ≡ none
    → OneMore v (h ++ (r ++ values (insert k v m))) (h ++ (r ++ values m))
OneMore-pending k v h r m e = record {
  counts = λ t. ground (
    arith,
    count-append t h (r ++ values (insert k v m)),
    count-append t h (r ++ values m),
    count-append t r (values (insert k v m)),
    count-append t r (values m),
    count-values-insert t k v m e,
  );
  size = omega (
    arith,
    length-append h (r ++ values (insert k v m)),
    length-append h (r ++ values m),
    length-append r (values (insert k v m)),
    length-append r (values m),
    length-values-insert k v m e,
  );
}

module _ {x : ℕ} {more less : List ℕ} {m : List (ℕ × ℕ)} (o : OneMore x more less) where
  -- The tracker's update for a holder that comes.
  pub Represents-come :
      Represents less m → length less + 1 < u64_size → Represents more (add_reference m x)
  Represents-come r room =
      Represents-perm (λ t. sym (o.counts t)) (omega (arith, o.size))
        (add_reference-Represents less m x r room)

  -- The tracker's update for a holder that goes.
  pub Represents-go :
      {m' : List (ℕ × ℕ)} → Represents more m → drop_reference m x ≡ ok m' → Represents less m'
  Represents-go r e =
      drop_reference-keeps less m x (Represents-perm o.counts (omega (arith, o.size)) r) e

-- The references of the pending commits, taken out of the list of holders.
pub pending_first :
    (h r p : List ℕ) {m : List (ℕ × ℕ)}
    → Represents (h ++ (r ++ p)) m
    → Represents (p ++ (h ++ (r ++ []))) m
pending_first h r p =
    Represents-perm
      (λ t. ground (
        arith,
        count-append t h (r ++ p),
        count-append t r p,
        count-append t p (h ++ (r ++ [])),
        count-append t h (r ++ []),
        count-append t r [],
      ))
      (omega (
        arith,
        length-append h (r ++ p),
        length-append r p,
        length-append p (h ++ (r ++ [])),
        length-append h (r ++ []),
        length-append {0} r [],
      ))
