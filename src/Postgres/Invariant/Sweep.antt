-- ===== src/Postgres/Invariant/Sweep.antt =====
-- crates/rustium-postgresql/src/incremental_snapshot.rs: what the loop of `stop_snapshot` over the
-- collections collects.
use rustium.Common.{
  ℕ, zero, suc, ◌+◌, ◌<◌, ◌≤◌, ◌≡◌, refl, inl, inr, Bool, true, false, some, List, [], ◌∷◌, ◌++◌,
  Str, arith, Bool-cases, ltb, length, get_elem?, if◌then◌else◌,
}
use rustium.Postgres.Stop.{sweep}

-- The collections that are not stopped, in their order.
abbrev pub unstopped : (Str → Bool) → List Str → List Str
unstopped stops [] = []
unstopped stops (x ∷ xs) = if stops x then unstopped stops xs else x ∷ unstopped stops xs

pub sweep-retained :
    (stops : Str → Bool) (current index : ℕ) (xs : List Str)
    → (sweep stops current index xs).retained ≡ unstopped stops xs
unfolding sweep
sweep-retained stops current index [] = refl
sweep-retained stops current index (x ∷ xs) = elim (Bool-cases (stops x)) [
  | inl e ↦ rw e (sweep-retained stops current (suc index) xs)
  | inr e ↦ rw e (rw (sweep-retained stops current (suc index) xs) refl)
]

sweep-before_from :
    (stops : Str → Bool) (current index : ℕ) (xs : List Str)
    → current ≤ index
    → (sweep stops current index xs).retained_before_current ≡ 0
unfolding sweep
sweep-before_from stops current index [] h = refl
sweep-before_from stops current index (x ∷ xs) h =
    let rest = sweep-before_from stops current (suc index) xs (omega (arith, h)) in
    elim (Bool-cases (stops x)) [ inl e ↦ rw e rest | inr e ↦ ground arith ]

get_elem?-suc : (x : Str) (xs : List Str) (i : ℕ) → get_elem? (x ∷ xs) (i + 1) ≡ get_elem? xs i
get_elem?-suc x xs i = let e : i + 1 ≡ suc i = omega arith in rw e refl

pub sweep-current :
    (stops : Str → Bool) (current index j : ℕ) (xs : List Str) (x : Str)
    → current ≡ index + j
    → get_elem? xs j ≡ some x
    → stops x ≡ false
    → get_elem?
        (sweep stops current index xs).retained
        (sweep stops current index xs).retained_before_current
      ≡ some x
unfolding sweep
sweep-current stops current index j [] x e at keeps = ground arith
sweep-current stops current index zero (y ∷ ys) x e at keeps =
    let stays : stops y ≡ false = ground arith in
    let here : ltb index current ≡ false = ground arith in
    let none_before : (sweep stops current (suc index) ys).retained_before_current ≡ 0 =
      sweep-before_from stops current (suc index) ys (omega (arith, e)) in
    rw (stays, here, none_before) at
sweep-current stops current index (suc j) (y ∷ ys) x e at keeps =
    let rest = sweep-current stops current (suc index) j ys x (omega (arith, e)) at keeps in
    elim (Bool-cases (stops y)) [
      | inl s ↦ rw s rest
      | inr s ↦
          let before : ltb index current ≡ true = ground arith in rw (s, before, get_elem?-suc) rest
    ]

-- An index that points at an element is within the list.
pub length-get_elem? : (xs : List Str) (i : ℕ) (x : Str) → get_elem? xs i ≡ some x → i < length xs
length-get_elem? [] i x e = ground arith
length-get_elem? (y ∷ ys) zero x e = omega arith
length-get_elem? (y ∷ ys) (suc i) x e = omega (arith, length-get_elem? ys i x e)

sweep-removed_past :
    (stops : Str → Bool) (current index : ℕ) (xs : List Str)
    → current < index
    → (sweep stops current index xs).removed_current ≡ false
unfolding sweep
sweep-removed_past stops current index [] h = refl
sweep-removed_past stops current index (x ∷ xs) h =
    let rest = sweep-removed_past stops current (suc index) xs (omega (arith, h)) in
    elim (Bool-cases (stops x)) [ inl e ↦ ground arith | inr e ↦ rw e rest ]

pub sweep-removed_current :
    (stops : Str → Bool) (current index j : ℕ) (xs : List Str) (x : Str)
    → current ≡ index + j
    → get_elem? xs j ≡ some x
    → stops x ≡ false
    → (sweep stops current index xs).removed_current ≡ false
unfolding sweep
sweep-removed_current stops current index j [] x e at keeps = refl
sweep-removed_current stops current index zero (y ∷ ys) x e at keeps =
    let stays : stops y ≡ false = ground arith in
    rw stays (sweep-removed_past stops current (suc index) ys (omega (arith, e)))
sweep-removed_current stops current index (suc j) (y ∷ ys) x e at keeps =
    let rest = sweep-removed_current stops current (suc index) j ys x (omega (arith, e)) at keeps in
    elim (Bool-cases (stops y)) [ inl s ↦ ground arith | inr s ↦ rw s rest ]

pub sweep-unremoved :
    (stops : Str → Bool) (current index : ℕ) (xs : List Str)
    → (sweep stops current index xs).removed ≡ false
    → unstopped stops xs ≡ xs
unfolding sweep
sweep-unremoved stops current index [] e = refl
sweep-unremoved stops current index (x ∷ xs) e = elim (Bool-cases (stops x)) [
  | inl s ↦ ground arith
  | inr s ↦
      let rest : (sweep stops current (suc index) xs).removed ≡ false = ground arith in
      rw (s, sweep-unremoved stops current (suc index) xs rest) refl
]

pub unstopped-append :
    (stops : Str → Bool) (xs ys : List Str)
    → unstopped stops (xs ++ ys) ≡ unstopped stops xs ++ unstopped stops ys
unstopped-append stops [] ys = refl
unstopped-append stops (x ∷ xs) ys = elim (Bool-cases (stops x)) [
  | inl e ↦ rw e (unstopped-append stops xs ys)
  | inr e ↦ rw (e, unstopped-append stops xs ys) refl
]

pub sweep-before :
    (stops : Str → Bool) (current index : ℕ) (xs ys : List Str)
    → current ≡ index + length xs
    → (sweep stops current index (xs ++ ys)).retained_before_current ≡ length (unstopped stops xs)
unfolding sweep
sweep-before stops current index [] ys e =
    sweep-before_from stops current index ys (omega (arith, e))
sweep-before stops current index (x ∷ xs) ys e =
    let rest = sweep-before stops current (suc index) xs ys (omega (arith, e)) in
    elim (Bool-cases (stops x)) [
      | inl s ↦ rw s rest
      | inr s ↦
          let earlier : ltb index current ≡ true = ground arith in
          rw (s, earlier) (omega (arith, rest))
    ]

pub sweep-removed :
    (stops : Str → Bool) (current index : ℕ) (xs : List Str) (x : Str) (ys : List Str)
    → stops x ≡ true
    → (sweep stops current index (xs ++ x ∷ ys)).removed ≡ true
unfolding sweep
sweep-removed stops current index [] x ys h = rw h refl
sweep-removed stops current index (y ∷ xs) x ys h = elim (Bool-cases (stops y)) [
  | inl s ↦ rw s refl
  | inr s ↦ rw s (sweep-removed stops current (suc index) xs x ys h)
]
