-- ===== src/Columns/Rules.antt =====
-- crates/rustium-column-transform/src/lib.rs: the order of the rules.
use rustium.Common.{
  ℕ, Bool, true, false, ◌≡◌, ◌≤◌, ◌<◌, refl, ap, ◌∙◌, List, [], ◌∷◌, ◌++◌, arith, ◌==◌,
  if◌then◌else◌,
}
use rustium.Columns.{ColumnTransformRule, truncate, mask, hash, priority, insert_rule, sort_rules}
use rustium.Columns.Hash.{v1, v2}

-- The rules of one priority, in their order.
unfoldable pub of_priority : ℕ → List ColumnTransformRule → List ColumnTransformRule
of_priority p [] = []
of_priority p (rule ∷ rest) =
    let later = of_priority p rest in if priority rule == p then rule ∷ later else later

abbrev AllOf : (ℕ → Type 0) → List ColumnTransformRule → Type 0
AllOf P [] = Unit
AllOf P (rule ∷ rest) = P (priority rule) × AllOf P rest

AllOf-of_priority :
    (p : ℕ) (rules : List ColumnTransformRule) → AllOf (λ q. q ≡ p) (of_priority p rules)
unfolding of_priority
AllOf-of_priority p [] = tt
AllOf-of_priority p (rule ∷ rest) = ground (arith, AllOf-of_priority p rest)

-- A rule goes behind all of lower priority, and before the next that is not.
insert_rule-behind :
    (rule : ColumnTransformRule) (p : ℕ) (xs ys : List ColumnTransformRule)
    → p < priority rule
    → AllOf (λ q. q ≡ p) xs
    → insert_rule rule (xs ++ ys) ≡ xs ++ insert_rule rule ys
unfolding insert_rule
insert_rule-behind rule p [] ys h a = refl
insert_rule-behind rule p (x ∷ xs) ys h (e, a) = ground (arith, insert_rule-behind rule p xs ys h a)

insert_rule-before :
    (rule : ColumnTransformRule) (xs : List ColumnTransformRule)
    → AllOf (λ q. priority rule ≤ q) xs
    → insert_rule rule xs ≡ rule ∷ xs
unfolding insert_rule
insert_rule-before rule [] a = refl
insert_rule-before rule (x ∷ xs) (h, a) = ground arith

AllOf-append :
    (P : ℕ → Type 0) (xs ys : List ColumnTransformRule)
    → AllOf P xs
    → AllOf P ys
    → AllOf P (xs ++ ys)
AllOf-append P [] ys h k = k
AllOf-append P (x ∷ xs) ys (e, h) k = (e, AllOf-append P xs ys h k)

AllOf-weaken :
    (p q : ℕ) (xs : List ColumnTransformRule)
    → p ≤ q
    → AllOf (λ r. r ≡ q) xs
    → AllOf (λ r. p ≤ r) xs
AllOf-weaken p q [] h a = tt
AllOf-weaken p q (x ∷ xs) h (e, a) = (omega arith, AllOf-weaken p q xs h a)

abbrev at_least :
    (p q : ℕ) (rules : List ColumnTransformRule) → p ≤ q → AllOf (λ r. p ≤ r) (of_priority q rules)
at_least p q rules h = AllOf-weaken p q (of_priority q rules) h (AllOf-of_priority q rules)

abbrev pub by_priority : List ColumnTransformRule → List ColumnTransformRule
by_priority rules =
    of_priority 0 rules ++ (of_priority 1 rules ++ (of_priority 2 rules ++ of_priority 3 rules))

from_three : (rules : List ColumnTransformRule) → AllOf (λ r. 3 ≤ r) (of_priority 3 rules)
from_three rules = at_least 3 3 rules (omega arith)

from_two :
    (rules : List ColumnTransformRule)
    → AllOf (λ r. 2 ≤ r) (of_priority 2 rules ++ of_priority 3 rules)
from_two rules =
    AllOf-append (λ r. 2 ≤ r) (of_priority 2 rules) (of_priority 3 rules)
      (at_least 2 2 rules (omega arith)) (at_least 2 3 rules (omega arith))

from_one :
    (rules : List ColumnTransformRule)
    → AllOf (λ r. 1 ≤ r) (of_priority 1 rules ++ (of_priority 2 rules ++ of_priority 3 rules))
from_one rules =
    AllOf-append (λ r. 1 ≤ r) (of_priority 1 rules) (of_priority 2 rules ++ of_priority 3 rules)
      (at_least 1 1 rules (omega arith))
      (AllOf-append (λ r. 1 ≤ r) (of_priority 2 rules) (of_priority 3 rules)
        (at_least 1 2 rules (omega arith)) (at_least 1 3 rules (omega arith)))

from_zero : (rules : List ColumnTransformRule) → AllOf (λ r. 0 ≤ r) rules
from_zero [] = tt
from_zero (rule ∷ rest) = (omega arith, from_zero rest)

behind :
    (rule : ColumnTransformRule) (p : ℕ) (rules ys : List ColumnTransformRule)
    → p < priority rule
    → insert_rule rule (of_priority p rules ++ ys) ≡ of_priority p rules ++ insert_rule rule ys
behind rule p rules ys h =
    insert_rule-behind rule p (of_priority p rules) ys h (AllOf-of_priority p rules)

insert_rule-by_priority :
    (rule : ColumnTransformRule) (rules : List ColumnTransformRule)
    → insert_rule rule (by_priority rules) ≡ by_priority (rule ∷ rules)
unfolding priority of_priority
insert_rule-by_priority (truncate n s) rules =
    insert_rule-before (truncate n s) (by_priority rules) (from_zero (by_priority rules))
insert_rule-by_priority (mask n s) rules =
    rw (behind (mask n s) 0 rules _ (omega arith), insert_rule-before (mask n s) _ (from_one rules))
      refl
insert_rule-by_priority (hash algorithm salt v1 s) rules =
    let rule = hash algorithm salt v1 s in
    rw
      (
        behind rule 0 rules _ (omega arith),
        behind rule 1 rules _ (omega arith),
        insert_rule-before rule _ (from_two rules),
      )
      refl
insert_rule-by_priority (hash algorithm salt v2 s) rules =
    let rule = hash algorithm salt v2 s in
    rw
      (
        behind rule 0 rules _ (omega arith),
        behind rule 1 rules _ (omega arith),
        behind rule 2 rules _ (omega arith),
        insert_rule-before rule _ (from_three rules),
      )
      refl

pub sort_rules-eq-by_priority :
    (rules : List ColumnTransformRule) → sort_rules rules ≡ by_priority rules
unfolding sort_rules of_priority
sort_rules-eq-by_priority [] = refl
sort_rules-eq-by_priority (rule ∷ rest) =
    ap (insert_rule rule) (sort_rules-eq-by_priority rest) ∙ insert_rule-by_priority rule rest

-- What a rule does, whatever its priority.
abbrev pub is_truncation : ColumnTransformRule → Bool
is_truncation (truncate _ _) = true
is_truncation _ = false

abbrev pub is_mask : ColumnTransformRule → Bool
is_mask (mask _ _) = true
is_mask _ = false

abbrev pub is_hash_of_v1 : ColumnTransformRule → Bool
is_hash_of_v1 (hash _ _ v1 _) = true
is_hash_of_v1 _ = false

abbrev pub is_hash_of_v2 : ColumnTransformRule → Bool
is_hash_of_v2 (hash _ _ v2 _) = true
is_hash_of_v2 _ = false

abbrev pub only : (ColumnTransformRule → Bool) → List ColumnTransformRule → List ColumnTransformRule
only test [] = []
only test (rule ∷ rest) = if test rule then rule ∷ only test rest else only test rest

-- The truncations, the masks, and the hashes of each version, each in their order.
abbrev pub grouped : List ColumnTransformRule → List ColumnTransformRule
grouped rules =
    only is_truncation rules
    ++ (only is_mask rules ++ (only is_hash_of_v1 rules ++ only is_hash_of_v2 rules))

pub of_priority-only :
    (p : ℕ) (test : ColumnTransformRule → Bool)
    → ((rule : ColumnTransformRule) → (priority rule == p) ≡ test rule)
    → (rules : List ColumnTransformRule) → of_priority p rules ≡ only test rules
unfolding of_priority
of_priority-only p test same [] = refl
of_priority-only p test same (rule ∷ rest) = rw (same rule, of_priority-only p test same rest) refl

pub truncation_first : (rule : ColumnTransformRule) → (priority rule == 0) ≡ is_truncation rule
unfolding priority
truncation_first (truncate _ _) = refl
truncation_first (mask _ _) = refl
truncation_first (hash _ _ v1 _) = refl
truncation_first (hash _ _ v2 _) = refl

pub mask_second : (rule : ColumnTransformRule) → (priority rule == 1) ≡ is_mask rule
unfolding priority
mask_second (truncate _ _) = refl
mask_second (mask _ _) = refl
mask_second (hash _ _ v1 _) = refl
mask_second (hash _ _ v2 _) = refl

pub hash_of_v1_third : (rule : ColumnTransformRule) → (priority rule == 2) ≡ is_hash_of_v1 rule
unfolding priority
hash_of_v1_third (truncate _ _) = refl
hash_of_v1_third (mask _ _) = refl
hash_of_v1_third (hash _ _ v1 _) = refl
hash_of_v1_third (hash _ _ v2 _) = refl

pub hash_of_v2_last : (rule : ColumnTransformRule) → (priority rule == 3) ≡ is_hash_of_v2 rule
unfolding priority
hash_of_v2_last (truncate _ _) = refl
hash_of_v2_last (mask _ _) = refl
hash_of_v2_last (hash _ _ v1 _) = refl
hash_of_v2_last (hash _ _ v2 _) = refl

-- Sorting the rules gives first the truncations, then the masks, then the hashes of version 1 and
-- then those of version 2, each in the order of the configuration.
pub sort_rules-eq-grouped : (rules : List ColumnTransformRule) → sort_rules rules ≡ grouped rules
sort_rules-eq-grouped rules =
    sort_rules-eq-by_priority rules
    ∙ (rw
        (
          of_priority-only 0 is_truncation truncation_first rules,
          of_priority-only 1 is_mask mask_second rules,
          of_priority-only 2 is_hash_of_v1 hash_of_v1_third rules,
          of_priority-only 3 is_hash_of_v2 hash_of_v2_last rules,
        )
        refl)
