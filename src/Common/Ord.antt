-- ===== src/Common/Ord.antt =====
-- `Ord` of Rust's standard library: a total order given by its three-way comparison. Numbers,
-- strings (lists of code points, which compare as their UTF-8 bytes do) and tuples have one.
use Prim.Native.Nat.{ℕ, compare, Ordering}
use mathlib.Core.Path.{◌≡◌, refl}
use mathlib.Core.Bool.{Bool, true, false}
use mathlib.Core.List.{List, [], ◌∷◌}
use native.Mathlib.Omega.{arith}

-- The later comparison decides where the earlier one finds no difference.
abbrev pub then_with : Ordering → Ordering → Ordering
then_with Ordering.eq o = o
then_with Ordering.lt o = Ordering.lt
then_with Ordering.gt o = Ordering.gt

abbrev pub flip : Ordering → Ordering
flip Ordering.lt = Ordering.gt
flip Ordering.eq = Ordering.eq
flip Ordering.gt = Ordering.lt

abbrev pub is_gt : Ordering → Bool
is_gt Ordering.gt = true
is_gt _ = false

pub record Ord {ℓ} (A : Type ℓ) : Type ℓ where
  pub cmp : A → A → Ordering
  pub cmp-eq : (a b : A) → cmp a b ≡ Ordering.eq → a ≡ b
  pub cmp_refl : (a : A) → cmp a a ≡ Ordering.eq
  pub cmp-flip : (a b : A) → cmp b a ≡ flip (cmp a b)
  pub cmp_trans :
      (a b c : A) → cmp a b ≡ Ordering.lt → cmp b c ≡ Ordering.lt → cmp a c ≡ Ordering.lt

-- Numbers.
pub nat_cmp-flip : (a b : ℕ) → compare b a ≡ flip (compare a b)
nat_cmp-flip a b = ground arith

pub nat_cmp-eq : (a b : ℕ) → compare a b ≡ Ordering.eq → a ≡ b
nat_cmp-eq a b h = ground arith

pub nat_cmp_refl : (a : ℕ) → compare a a ≡ Ordering.eq
nat_cmp_refl a = ground arith

pub nat_cmp_trans :
    (a b c : ℕ) → compare a b ≡ Ordering.lt → compare b c ≡ Ordering.lt → compare a c ≡ Ordering.lt
nat_cmp_trans a b c h k = ground arith

instance abbrev pub nat_ord : Ord ℕ
nat_ord = record {
  cmp = compare;
  cmp-eq = nat_cmp-eq;
  cmp_refl = nat_cmp_refl;
  cmp-flip = nat_cmp-flip;
  cmp_trans = nat_cmp_trans;
}

then_with-flip : (o p : Ordering) → then_with (flip o) (flip p) ≡ flip (then_with o p)
then_with-flip Ordering.lt p = refl
then_with-flip Ordering.eq p = refl
then_with-flip Ordering.gt p = refl

-- Sequences, lexicographically.
module _ {ℓ} {A : Type ℓ} ⦃o : Ord A⦄ where
  abbrev pub list_cmp : List A → List A → Ordering
  list_cmp [] [] = Ordering.eq
  list_cmp [] (y ∷ ys) = Ordering.lt
  list_cmp (x ∷ xs) [] = Ordering.gt
  list_cmp (x ∷ xs) (y ∷ ys) = then_with (o.cmp x y) (list_cmp xs ys)

  pub list_cmp_refl : (xs : List A) → list_cmp xs xs ≡ Ordering.eq
  list_cmp_refl [] = refl
  list_cmp_refl (x ∷ xs) = rw (o.cmp_refl x) (list_cmp_refl xs)

  pub list_cmp-flip : (xs ys : List A) → list_cmp ys xs ≡ flip (list_cmp xs ys)
  list_cmp-flip [] [] = refl
  list_cmp-flip [] (y ∷ ys) = refl
  list_cmp-flip (x ∷ xs) [] = refl
  list_cmp-flip (x ∷ xs) (y ∷ ys) =
      rw (o.cmp-flip x y, list_cmp-flip xs ys) (then_with-flip (o.cmp x y) (list_cmp xs ys))

  pub list_cmp-eq : (xs ys : List A) → list_cmp xs ys ≡ Ordering.eq → xs ≡ ys
  list_cmp-eq [] [] h = refl
  list_cmp-eq [] (y ∷ ys) h = cc
  list_cmp-eq (x ∷ xs) [] h = cc
  list_cmp-eq (x ∷ xs) (y ∷ ys) h = ground (arith, o.cmp-eq x y, list_cmp-eq xs ys)

-- One step of a lexicographic comparison is transitive where its parts are.
module _ {ℓ} {A : Type ℓ} ⦃o : Ord A⦄ where
  pub then_with_trans :
      (a b c : A) (p q r : Ordering)
      → (p ≡ Ordering.lt → q ≡ Ordering.lt → r ≡ Ordering.lt)
      → then_with (o.cmp a b) p ≡ Ordering.lt
      → then_with (o.cmp b c) q ≡ Ordering.lt
      → then_with (o.cmp a c) r ≡ Ordering.lt
  then_with_trans a b c p q r rest h k =
      ground (arith, rest, o.cmp_trans a b c, o.cmp-eq a b, o.cmp-eq b c, o.cmp_refl a)

  pub list_cmp_trans :
      (xs ys zs : List A)
      → list_cmp xs ys ≡ Ordering.lt
      → list_cmp ys zs ≡ Ordering.lt
      → list_cmp xs zs ≡ Ordering.lt
  list_cmp_trans [] [] zs h k = cc
  list_cmp_trans [] (y ∷ ys) [] h k = cc
  list_cmp_trans [] (y ∷ ys) (z ∷ zs) h k = refl
  list_cmp_trans (x ∷ xs) [] zs h k = cc
  list_cmp_trans (x ∷ xs) (y ∷ ys) [] h k = cc
  list_cmp_trans (x ∷ xs) (y ∷ ys) (z ∷ zs) h k =
      then_with_trans x y z _ _ _ (list_cmp_trans xs ys zs) h k

  instance abbrev pub list_ord : Ord (List A)
  list_ord = record {
    cmp = list_cmp;
    cmp-eq = list_cmp-eq;
    cmp_refl = list_cmp_refl;
    cmp-flip = list_cmp-flip;
    cmp_trans = list_cmp_trans;
  }

-- Pairs; a longer tuple is a pair whose second part is the rest.
module _ {ℓ κ} {A : Type ℓ} {B : Type κ} ⦃o : Ord A⦄ ⦃p : Ord B⦄ where
  abbrev pub pair_cmp : A × B → A × B → Ordering
  pair_cmp (a, b) (c, d) = then_with (o.cmp a c) (p.cmp b d)

  pub pair_cmp-eq : (s t : A × B) → pair_cmp s t ≡ Ordering.eq → s ≡ t
  pair_cmp-eq (a, b) (c, d) h = ground (arith, o.cmp-eq a c, p.cmp-eq b d)

  pub pair_cmp_refl : (s : A × B) → pair_cmp s s ≡ Ordering.eq
  pair_cmp_refl (a, b) = rw (o.cmp_refl a) (p.cmp_refl b)

  pub pair_cmp-flip : (s t : A × B) → pair_cmp t s ≡ flip (pair_cmp s t)
  pair_cmp-flip (a, b) (c, d) =
      rw (o.cmp-flip a c, p.cmp-flip b d) (then_with-flip (o.cmp a c) (p.cmp b d))

  pub pair_cmp_trans :
      (s t u : A × B)
      → pair_cmp s t ≡ Ordering.lt
      → pair_cmp t u ≡ Ordering.lt
      → pair_cmp s u ≡ Ordering.lt
  pair_cmp_trans (a, b) (c, d) (e, f) h k = then_with_trans a c e _ _ _ (p.cmp_trans b d f) h k

  instance abbrev pub pair_ord : Ord (A × B)
  pair_ord = record {
    cmp = pair_cmp;
    cmp-eq = pair_cmp-eq;
    cmp_refl = pair_cmp_refl;
    cmp-flip = pair_cmp-flip;
    cmp_trans = pair_cmp_trans;
  }

-- `left > right`.
module _ {ℓ} {A : Type ℓ} ⦃o : Ord A⦄ where
  abbrev pub gt : A → A → Bool
  gt a b = is_gt (o.cmp a b)

  pub gt_irrefl : (a : A) → gt a a ≡ false
  gt_irrefl a = rw (o.cmp_refl a)

  pub gt_asymm : (a b : A) → gt a b ≡ true → gt b a ≡ false
  gt_asymm a b h = ground (arith, o.cmp-flip a b)

  pub gt_trans : (a b c : A) → gt a b ≡ true → gt b c ≡ true → gt a c ≡ true
  gt_trans a b c h k =
      ground (arith, o.cmp-flip a b, o.cmp-flip b c, o.cmp-flip a c, o.cmp_trans c b a)

  -- Where neither is greater the two are the same.
  pub eq_of_not-gt : (a b : A) → gt a b ≡ false → gt b a ≡ false → a ≡ b
  eq_of_not-gt a b h k = ground (arith, o.cmp-flip a b, o.cmp-eq a b)

  -- What is not greater than one that is not greater than a third is not greater than the third.
  pub not_gt_trans : (a b c : A) → gt a b ≡ false → gt b c ≡ false → gt a c ≡ false
  not_gt_trans a b c h k =
      ground (arith, gt_trans b a c, eq_of_not-gt a b, eq_of_not-gt b c, gt_asymm a c)
