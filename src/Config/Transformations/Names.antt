-- ===== src/Config/Transformations/Names.antt =====
-- crates/rustium-config/src/debezium.rs: a property's name is one of at most one transformation.
use rustium.Common.{
  ℕ, ◌+◌, ◌≡◌, refl, ap, ◌∙◌, Bool, true, false, ◌||◌, Option, none, some, [], ◌∷◌, ◌++◌, ◌⊎◌, Str,
  codes, ◌==◌, if◌then◌else◌, arith, Bool-cases, Option-cases, inl, inr,
}
use rustium.Columns.Hash.{v1, v2}
use rustium.Config.Transformations.{
  strip_prefix, put_left, split_once_at, dynamic_length, length_in, stripped_suffix, dynamic_hash,
  algorithm_and_salt, hash_in, is_length, is_hash, is_column_transformation_property, hash_prefix,
}

-- Two prefixes that part at a character are not both prefixes of a text.
strip_prefix-apart :
    (a p q s : Str) (x y : ℕ)
    → (x == y) ≡ false
    → (strip_prefix (a ++ (x ∷ p)) s ≡ none) ⊎ (strip_prefix (a ++ (y ∷ q)) s ≡ none)
unfolding strip_prefix
strip_prefix-apart [] p q [] x y h = inl refl
strip_prefix-apart [] p q (c ∷ s) x y h = elim (Bool-cases (c == x)) [
  | inl same ↦ inr (rw (other c x y same h) refl)
  | inr d ↦ inl (rw d refl)
]
  where
    other : (c x y : ℕ) → (c == x) ≡ true → (x == y) ≡ false → (c == y) ≡ false
    other c x y h k = ground arith
strip_prefix-apart (b ∷ a) p q [] x y h = inl refl
strip_prefix-apart (b ∷ a) p q (c ∷ s) x y h = elim (Bool-cases (c == b)) [
  | inl same ↦ rw same (strip_prefix-apart a p q s x y h)
  | inr d ↦ inl (rw d refl)
]

pub strip_prefix-eq : (p s v : Str) → strip_prefix p s ≡ some v → s ≡ p ++ v
unfolding strip_prefix
strip_prefix-eq [] s v h = cc
strip_prefix-eq (x ∷ p) [] v h = cc
strip_prefix-eq (x ∷ p) (c ∷ s) v h = ground (arith, strip_prefix-eq p s v)

strip_prefix-append : (p s : Str) → strip_prefix p (p ++ s) ≡ some s
unfolding strip_prefix
strip_prefix-append [] s = refl
strip_prefix-append (x ∷ p) s = ground (arith, strip_prefix-append p s)

dotted :
    (x : Option (Str × Str))
    → algorithm_and_salt (put_left b'v' (put_left b'2' (put_left b'.' x))) ≡ none
unfolding algorithm_and_salt
dotted none = refl
dotted (some (l, r)) = refl

dotted_with :
    (x : Option (Str × Str))
    → algorithm_and_salt
        (put_left b'w' (put_left b'i' (put_left b't' (put_left b'h' (put_left b'.' x)))))
      ≡ none
unfolding algorithm_and_salt
dotted_with none = refl
dotted_with (some (l, r)) = refl

after_with : (r : Str) → hash_in (some (codes "with.salt." ++ r)) ≡ none
unfolding split_once_at strip_prefix hash_in algorithm_and_salt
after_with r = dotted_with (split_once_at (codes ".with.salt.") (codes "salt." ++ r))

-- The value of a hash of version 2 is none of version 1.
hash_in-apart : (v : Str) → (hash_in (some (codes "v2." ++ v)) ≡ none) ⊎ (hash_in (some v) ≡ none)
unfolding split_once_at hash_in
hash_in-apart v = elim (Option-cases (strip_prefix (codes "with.salt.") v)) [
  | inl none_left ↦ inl (rw none_left (dotted (split_once_at (codes ".with.salt.") v)))
  | inr (r, e) ↦
      inr (ap (λ w. hash_in (some w)) (strip_prefix-eq (codes "with.salt.") v r e) ∙ after_with r)
]

strip_prefix-shorter :
    (a b s v : Str) → strip_prefix (a ++ b) s ≡ some v → strip_prefix a s ≡ some (b ++ v)
unfolding strip_prefix
strip_prefix-shorter [] b s v h = ap some (strip_prefix-eq b s v h)
strip_prefix-shorter (x ∷ a) b [] v h = cc
strip_prefix-shorter (x ∷ a) b (c ∷ s) v h = ground (arith, strip_prefix-shorter a b s v)

abbrev with_prefix : Str → Str → Bool
with_prefix prefix name = is_length (dynamic_length name prefix (codes ".chars"))

no_length : (name prefix : Str) → strip_prefix prefix name ≡ none → with_prefix prefix name ≡ false
unfolding dynamic_length length_in stripped_suffix
no_length name prefix h = rw h refl

no_hash :
    (name prefix : Str)
    → strip_prefix prefix name ≡ none
    → is_hash (dynamic_hash name prefix) ≡ false
unfolding dynamic_hash hash_in algorithm_and_salt
no_hash name prefix h = rw h refl

hashes_apart :
    (name : Str)
    → (is_hash (dynamic_hash name (hash_prefix v1)) ≡ false)
      ⊎ (is_hash (dynamic_hash name (hash_prefix v2)) ≡ false)
unfolding dynamic_hash hash_in algorithm_and_salt
hashes_apart name = elim (Option-cases (strip_prefix (hash_prefix v2) name)) [
  | inl missing ↦ inr (no_hash name (hash_prefix v2) missing)
  | inr (v, e) ↦
      let f = strip_prefix-shorter (hash_prefix v1) (codes "v2.") name v e in
      elim (hash_in-apart v) [
        | inl first ↦ inl (ap is_hash (ap hash_in f ∙ first))
        | inr second ↦ inr (ap is_hash (ap hash_in e ∙ second))
      ]
]

abbrev pub one : Bool → ℕ
one b = if b then 1 else 0

abbrev Apart : Bool → Bool → Type 0
Apart a b = (a ≡ false) ⊎ (b ≡ false)

one_of_four :
    (a b c d : Bool)
    → Apart a b
    → Apart a c
    → Apart a d
    → Apart b c
    → Apart b d
    → Apart c d
    → one (a || b || c || d) ≡ one a + (one b + (one c + one d))
one_of_four a b c d ab ac ad bc bd cd = ground arith

lengths-Apart :
    (name : Str)
    → Apart
        (with_prefix (codes "column.truncate.to.") name)
        (with_prefix (codes "column.mask.with.") name)
lengths-Apart name =
    elim (strip_prefix-apart (codes "column.") (codes "runcate.to.") (codes "ask.with.") name b't'
      b'm' refl) [
        | inl h ↦ inl (no_length name (codes "column.truncate.to.") h)
        | inr h ↦ inr (no_length name (codes "column.mask.with.") h)
      ]

length-Apart :
    (a p q name : Str) (x y : ℕ)
    → (x == y) ≡ false
    → Apart (with_prefix (a ++ (x ∷ p)) name) (is_hash (dynamic_hash name (a ++ (y ∷ q))))
length-Apart a p q name x y d = elim (strip_prefix-apart a p q name x y d) [
  | inl h ↦ inl (no_length name (a ++ (x ∷ p)) h)
  | inr h ↦ inr (no_hash name (a ++ (y ∷ q)) h)
]

-- A name of a transformation is one of exactly one of the four loops.
pub one-is_column_transformation_property :
    (name : Str)
    → one (is_column_transformation_property name)
      ≡ one (with_prefix (codes "column.truncate.to.") name)
        + (one (with_prefix (codes "column.mask.with.") name)
            + (one (is_hash (dynamic_hash name (hash_prefix v1)))
                + one (is_hash (dynamic_hash name (hash_prefix v2)))))
unfolding is_column_transformation_property
one-is_column_transformation_property name =
    one_of_four (with_prefix (codes "column.truncate.to.") name)
      (with_prefix (codes "column.mask.with.") name) (is_hash (dynamic_hash name (hash_prefix v1)))
      (is_hash (dynamic_hash name (hash_prefix v2))) (lengths-Apart name)
      (length-Apart (codes "column.") (codes "runcate.to.") (codes "ask.hash.") name b't' b'm' refl)
      (length-Apart (codes "column.") (codes "runcate.to.") (codes "ask.hash.v2.") name b't' b'm'
        refl)
      (length-Apart (codes "column.mask.") (codes "ith.") (codes "ash.") name b'w' b'h' refl)
      (length-Apart (codes "column.mask.") (codes "ith.") (codes "ash.v2.") name b'w' b'h' refl)
      (hashes_apart name)
