-- ===== src/Cache/Keys.antt =====
-- crates/rustium-sink-kafka/src/lib.rs, `SchemaIdCache`: lemmas on its queue of keys and its map.
use rustium.Common.{
  ◌+◌, ◌≡◌, ◌↔◌, refl, Bool, true, false, ◌||◌, ◌&&◌, not, Option-cases, Option, none, some, List,
  [], ◌∷◌, ◌++◌, arith, length, if◌then◌else◌,
}
use rustium.Common.Assoc.{find, remove, insert}
use rustium.Cache.{remove_first}

abbrev pub keys : {K V : Type 0} → List (K × V) → List K
keys [] = []
keys ((k, v) ∷ m) = k ∷ keys m

abbrev pub is_some : {V : Type 0} → Option V → Bool
is_some none = false
is_some (some v) = true

module _ {K : Type 0} (eq : K → K → Bool) where
  abbrev pub contains : K → List K → Bool
  contains k [] = false
  contains k (j ∷ ks) = eq j k || contains k ks

  abbrev pub IsDistinct : List K → Type 0
  IsDistinct [] = Unit
  IsDistinct (k ∷ ks) = (contains k ks ≡ false) × IsDistinct ks

module _ {K : Type 0} (eq : K → K → Bool) (law : (a b : K) → (eq a b ≡ true) ↔ (a ≡ b)) where
  pub contains-append :
      (k : K) (xs ys : List K) → contains eq k (xs ++ ys) ≡ (contains eq k xs || contains eq k ys)
  contains-append k [] ys = refl
  contains-append k (x ∷ xs) ys = ground (arith, contains-append k xs ys)

  pub remove_first-absent :
      (k : K) (xs : List K) → contains eq k xs ≡ false → remove_first eq k xs ≡ xs
  unfolding remove_first
  remove_first-absent k [] h = refl
  remove_first-absent k (x ∷ xs) h = ground (arith, remove_first-absent k xs)

  pub remove_first-append :
      (k : K) (xs ys : List K)
      → remove_first eq k (xs ++ ys)
        ≡ (if contains eq k xs then remove_first eq k xs ++ ys else xs ++ remove_first eq k ys)
  unfolding remove_first
  remove_first-append k [] ys = refl
  remove_first-append k (x ∷ xs) ys = ground (arith, remove_first-append k xs ys)

  pub length-remove_first :
      (k : K) (xs : List K)
      → contains eq k xs ≡ true
      → length (remove_first eq k xs) + 1 ≡ length xs
  unfolding remove_first
  length-remove_first k [] h = ground arith
  length-remove_first k (x ∷ xs) h = ground (arith, length-remove_first k xs)

  pub contains-remove_first :
      (j k : K) (xs : List K)
      → IsDistinct eq xs
      → contains eq j (remove_first eq k xs) ≡ (contains eq j xs && not (eq k j))
  unfolding remove_first
  contains-remove_first j k [] d = refl
  contains-remove_first j k (x ∷ xs) d =
      ground (arith, contains-remove_first j k xs, law x k, law x j, law k j)

  pub IsDistinct-remove_first :
      (k : K) (xs : List K) → IsDistinct eq xs → IsDistinct eq (remove_first eq k xs)
  unfolding remove_first
  IsDistinct-remove_first k [] d = tt
  IsDistinct-remove_first k (x ∷ xs) d =
      ground (arith, IsDistinct-remove_first k xs d.1, contains-remove_first x k xs d.1)

  pub IsDistinct-push :
      (k : K) (xs : List K)
      → contains eq k xs ≡ false
      → IsDistinct eq xs
      → IsDistinct eq (xs ++ (k ∷ []))
  IsDistinct-push k [] h d = (refl, tt)
  IsDistinct-push k (x ∷ xs) h d =
      ground (arith, IsDistinct-push k xs, contains-append x xs (k ∷ []), law k x, law x k)

  -- No key is in both parts of a queue.
  pub IsDistinct-append :
      (k : K) (xs ys : List K)
      → IsDistinct eq (xs ++ ys)
      → contains eq k ys ≡ true
      → contains eq k xs ≡ false
  IsDistinct-append k [] ys d h = refl
  IsDistinct-append k (x ∷ xs) ys d h =
      ground (arith, IsDistinct-append k xs ys d.1 h, contains-append x xs ys, law x k)

  pub remove_first-before :
      (k : K) (xs ys : List K)
      → contains eq k ys ≡ false
      → remove_first eq k (xs ++ ys) ≡ remove_first eq k xs ++ ys
  remove_first-before k xs ys h =
      ground
        (arith, remove_first-append k xs ys, remove_first-absent k xs, remove_first-absent k ys)

module _ {K V : Type 0} (eq : K → K → Bool) (law : (a b : K) → (eq a b ≡ true) ↔ (a ≡ b)) where
  pub contains-keys : (k : K) (m : List (K × V)) → contains eq k (keys m) ≡ is_some (find eq k m)
  unfolding find
  contains-keys k [] = refl
  contains-keys k ((j, v) ∷ m) = ground (arith, contains-keys k m)

  pub find-remove :
      (j k : K) (m : List (K × V))
      → find eq j (remove eq k m) ≡ (if eq k j then none else find eq j m)
  unfolding find remove
  find-remove j k [] = ground arith
  find-remove j k ((i, v) ∷ m) = ground (arith, find-remove j k m, law i k, law i j, law k j)

  pub find-insert :
      (j k : K) (v : V) (m : List (K × V))
      → find eq j (insert eq k v m) ≡ (if eq k j then some v else find eq j m)
  unfolding find insert
  find-insert j k v m = ground (arith, find-remove j k m)

  pub remove-absent : (k : K) (m : List (K × V)) → find eq k m ≡ none → remove eq k m ≡ m
  unfolding find remove
  remove-absent k [] h = refl
  remove-absent k ((j, v) ∷ m) h = ground (arith, remove-absent k m)

  pub length-remove :
      (k : K) (m : List (K × V))
      → IsDistinct eq (keys m)
      → is_some (find eq k m) ≡ true
      → length (remove eq k m) + 1 ≡ length m
  unfolding find remove
  length-remove k [] d h = ground arith
  length-remove k ((j, v) ∷ m) d h = ground (
    arith,
    length-remove k m,
    remove-absent k m,
    contains-keys j m,
    law j k,
    Option-cases (find eq k m),
  )

  pub IsDistinct-remove :
      (k : K) (m : List (K × V)) → IsDistinct eq (keys m) → IsDistinct eq (keys (remove eq k m))
  unfolding remove
  IsDistinct-remove k [] d = tt
  IsDistinct-remove k ((j, v) ∷ m) d = ground (
    arith,
    IsDistinct-remove k m d.1,
    contains-keys j m,
    contains-keys j (remove eq k m),
    find-remove j k m,
    law k j,
  )
