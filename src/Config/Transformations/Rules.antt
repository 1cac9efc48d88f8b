-- ===== src/Config/Transformations/Rules.antt =====
-- crates/rustium-config/src/debezium.rs: the rules that properties give.
use rustium.Common.{
  ℕ, append-nil, subst, ◌+◌, ◌≡◌, refl, ap, sym, ◌∙◌, Bool, false, Option, none, some, List, [],
  ◌∷◌, ◌++◌, Str, codes, ◌==◌, length, length-append, if◌then◌else◌, arith,
}
use rustium.Core.Error.{Result, ok, err, ◌>>=◌}
use rustium.Core.Error.Returns.{OnOk, OnOk-bind}
use rustium.Columns.{ColumnTransformRule, truncate, mask, hash, priority, sort_rules}
use rustium.Columns.Hash.{ColumnHashAlgorithm, ColumnHashVersion, v1, v2}
use rustium.Columns.Rules.{
  of_priority, sort_rules-eq-by_priority, only, is_truncation, is_mask, is_hash_of_v1,
  is_hash_of_v2, of_priority-only, truncation_first, mask_second, hash_of_v1_third, hash_of_v2_last,
}
use rustium.Config.Properties.{PropertyMap}
use rustium.Config.Transformations.Matched.{
  AreRulesOf, length_rules-AreRulesOf, hash_rules-AreRulesOf,
}
use rustium.Config.Transformations.Names.{one-is_column_transformation_property}
use rustium.Config.Transformations.{
  dynamic_length, dynamic_hash, add_length, length_rules, hash_prefix, add_hash, hash_rules,
  column_transformations, is_length, is_hash, is_column_transformation_property,
  column_hash_algorithm,
}

-- Rules of one priority.
abbrev pub AllAt : ℕ → List ColumnTransformRule → Type 0
AllAt p [] = Unit
AllAt p (rule ∷ rest) = (priority rule ≡ p) × AllAt p rest

of_priority-same :
    (p : ℕ) (rules rest : List ColumnTransformRule)
    → AllAt p rules
    → of_priority p (rules ++ rest) ≡ rules ++ of_priority p rest
unfolding of_priority
of_priority-same p [] rest a = refl
of_priority-same p (rule ∷ rules) rest (e, a) = ground (arith, of_priority-same p rules rest a)

of_priority-other :
    (p q : ℕ) (rules rest : List ColumnTransformRule)
    → (p == q) ≡ false
    → AllAt p rules
    → of_priority q (rules ++ rest) ≡ of_priority q rest
unfolding of_priority
of_priority-other p q [] rest h a = refl
of_priority-other p q (rule ∷ rules) rest h (e, a) =
    ground (arith, of_priority-other p q rules rest h a)

-- How many properties have names of one kind.
abbrev pub count : (Str → Bool) → PropertyMap → ℕ
count test [] = 0
count test ((name, value) ∷ rest) = (if test name then 1 else 0) + count test rest

-- What one loop over the properties gives.
abbrev Gives : ℕ → ℕ → List ColumnTransformRule → Type 0
Gives p n rules = AllAt p rules × (length rules ≡ n)

abbrev length_test : Str → Str → Bool
length_test prefix name = is_length (dynamic_length name prefix (codes ".chars"))

length_rules-Gives :
    (rule : ℕ → List Str → ColumnTransformRule) (p : ℕ)
    → ((n : ℕ) (selectors : List Str) → priority (rule n selectors) ≡ p)
    → (prefix : Str) (properties : PropertyMap)
    → OnOk (Gives p (count (length_test prefix) properties)) (length_rules rule prefix properties)
unfolding length_rules add_length
length_rules-Gives rule p at_p prefix [] = (tt, refl)
length_rules-Gives rule p at_p prefix ((name, value) ∷ rest) =
    step (dynamic_length name prefix (codes ".chars")) (length_rules rule prefix rest)
      (length_rules-Gives rule p at_p prefix rest)
  where
    step :
        (found : Result (Option ℕ)) (later : Result (List ColumnTransformRule))
        → OnOk (Gives p (count (length_test prefix) rest)) later
        → OnOk
            (Gives p ((if is_length found then 1 else 0) + count (length_test prefix) rest))
            (found >>= λ n. later >>= λ rules. ok (add_length rule value n rules))
    step (err e) later h = tt
    step (ok n) (err e) h = tt
    step (ok none) (ok rules) (a, l) = (a, omega (arith, l))
    step (ok (some n)) (ok rules) (a, l) = ((at_p n _, a), omega (arith, l))

abbrev hash_test : ColumnHashVersion → Str → Bool
hash_test version name = is_hash (dynamic_hash name (hash_prefix version))

abbrev hash_priority : ColumnHashVersion → ℕ
hash_priority v1 = 2
hash_priority v2 = 3

named-Gives :
    (version : ColumnHashVersion) (n : ℕ) (found : Result ColumnHashAlgorithm) (salt : Str)
    (selectors : List Str) (later : Result (List ColumnTransformRule))
    → OnOk (Gives (hash_priority version) n) later
    → OnOk (Gives (hash_priority version) (1 + n)) (
        found >>= λ algorithm.
        later >>= λ rules. ok (hash algorithm salt version selectors ∷ rules))
unfolding priority
named-Gives version n (err e) salt selectors later h = tt
named-Gives version n (ok algorithm) salt selectors (err e) h = tt
named-Gives v1 n (ok algorithm) salt selectors (ok rules) (a, l) = ((refl, a), omega (arith, l))
named-Gives v2 n (ok algorithm) salt selectors (ok rules) (a, l) = ((refl, a), omega (arith, l))

hash_rules-Gives :
    (version : ColumnHashVersion) (properties : PropertyMap)
    → OnOk
        (Gives (hash_priority version) (count (hash_test version) properties))
        (hash_rules version properties)
unfolding hash_rules add_hash
hash_rules-Gives version [] = (tt, refl)
hash_rules-Gives version ((name, value) ∷ rest) =
    step version (dynamic_hash name (hash_prefix version)) (hash_rules version rest)
      (hash_rules-Gives version rest)
  where
    step :
        (v : ColumnHashVersion) (found : Option (Str × Str))
        (later : Result (List ColumnTransformRule))
        → OnOk (Gives (hash_priority v) (count (hash_test v) rest)) later
        → OnOk
            (Gives (hash_priority v) ((if is_hash found then 1 else 0) + count (hash_test v) rest))
            (add_hash v value found later)
    step v none (err e) h = tt
    step v none (ok rules) (a, l) = (a, omega (arith, l))
    step v (some (algorithm, salt)) later h =
        named-Gives v (count (hash_test v) rest) (column_hash_algorithm algorithm) salt _ later h

count-is_column_transformation_property :
    (properties : PropertyMap)
    → count is_column_transformation_property properties
      ≡ count (length_test (codes "column.truncate.to.")) properties
        + (count (length_test (codes "column.mask.with.")) properties
            + (count (hash_test v1) properties + count (hash_test v2) properties))
count-is_column_transformation_property [] = refl
count-is_column_transformation_property ((name, value) ∷ rest) = omega (
  arith,
  one-is_column_transformation_property name,
  count-is_column_transformation_property rest,
)

of_priority-all :
    (p : ℕ) (rules : List ColumnTransformRule) → AllAt p rules → of_priority p rules ≡ rules
unfolding of_priority
of_priority-all p rules a =
    ap (of_priority p) (sym (append-nil rules)) ∙ of_priority-same p rules [] a ∙ append-nil rules

of_priority-none :
    (p q : ℕ) (rules : List ColumnTransformRule)
    → (p == q) ≡ false
    → AllAt p rules
    → of_priority q rules ≡ []
unfolding of_priority
of_priority-none p q rules h a =
    ap (of_priority q) (sym (append-nil rules)) ∙ of_priority-other p q rules [] h a

-- The rules of each priority among those of the four loops.
abbrev Parts : (rules truncations masks hashes later : List ColumnTransformRule) → Type 0
Parts rules truncations masks hashes later =
    (of_priority 0 rules ≡ truncations)
    × ((of_priority 1 rules ≡ masks)
        × ((of_priority 2 rules ≡ hashes) × (of_priority 3 rules ≡ later)))

of_priority-joined :
    (truncations masks hashes later : List ColumnTransformRule)
    → AllAt 0 truncations
    → AllAt 1 masks
    → AllAt 2 hashes
    → AllAt 3 later
    → Parts (truncations ++ (masks ++ (hashes ++ later))) truncations masks hashes later
of_priority-joined truncations masks hashes later a b c d =
    let rest = hashes ++ later in
    let zero_eq =
      of_priority-same 0 truncations (masks ++ rest) a
      ∙ ap (truncations ++◌) (
          of_priority-other 1 0 masks rest refl b
          ∙ of_priority-other 2 0 hashes later refl c
          ∙ of_priority-none 3 0 later refl d)
      ∙ append-nil truncations in
    let one_eq =
      of_priority-other 0 1 truncations (masks ++ rest) refl a
      ∙ of_priority-same 1 masks rest b
      ∙ ap (masks ++◌)
          (of_priority-other 2 1 hashes later refl c ∙ of_priority-none 3 1 later refl d)
      ∙ append-nil masks in
    let two_eq =
      of_priority-other 0 2 truncations (masks ++ rest) refl a
      ∙ of_priority-other 1 2 masks rest refl b
      ∙ of_priority-same 2 hashes later c
      ∙ ap (hashes ++◌) (of_priority-none 3 2 later refl d)
      ∙ append-nil hashes in
    let three_eq =
      of_priority-other 0 3 truncations (masks ++ rest) refl a
      ∙ of_priority-other 1 3 masks rest refl b
      ∙ of_priority-other 2 3 hashes later refl c
      ∙ of_priority-all 3 later d in
    (zero_eq, (one_eq, (two_eq, three_eq)))

-- The rules are in the order in which the transformer applies them. Those of each kind are each of
-- a property of its own, in the order of the properties, and there are as many rules as properties
-- whose name is that of a transformation.
pub record IsOrdered (properties : PropertyMap) (rules : List ColumnTransformRule) : Type 0 where
  pub sorted : sort_rules rules ≡ rules
  pub truncations : AreRulesOf properties (only is_truncation rules)
  pub masks : AreRulesOf properties (only is_mask rules)
  pub hashes_of_v1 : AreRulesOf properties (only is_hash_of_v1 rules)
  pub hashes_of_v2 : AreRulesOf properties (only is_hash_of_v2 rules)
  pub counted : length rules ≡ count is_column_transformation_property properties

-- What one loop gives, with the properties that its rules are of.
abbrev Finds : ℕ → (Str → Bool) → PropertyMap → List ColumnTransformRule → Type 0
Finds p test properties rules = Gives p (count test properties) rules × AreRulesOf properties rules

joined-IsOrdered :
    (properties : PropertyMap) (truncations masks hashes later : List ColumnTransformRule)
    → Finds 0 (length_test (codes "column.truncate.to.")) properties truncations
    → Finds 1 (length_test (codes "column.mask.with.")) properties masks
    → Finds 2 (hash_test v1) properties hashes
    → Finds 3 (hash_test v2) properties later
    → IsOrdered properties (truncations ++ (masks ++ (hashes ++ later)))
joined-IsOrdered properties truncations masks hashes later ((a, k), e) ((b, l), f) ((c, m), g)
      ((d, n), h) =
    let rules = truncations ++ (masks ++ (hashes ++ later)) in
    let (zero_eq, (one_eq, (two_eq, three_eq))) =
      of_priority-joined truncations masks hashes later a b c d in
    record {
      sorted = sort_rules-eq-by_priority rules ∙ (rw (zero_eq, one_eq, two_eq, three_eq) refl);
      truncations =
          subst (AreRulesOf properties)
            (sym zero_eq ∙ of_priority-only 0 is_truncation truncation_first rules) e;
      masks =
          subst (AreRulesOf properties) (sym one_eq ∙ of_priority-only 1 is_mask mask_second rules)
            f;
      hashes_of_v1 =
          subst (AreRulesOf properties)
            (sym two_eq ∙ of_priority-only 2 is_hash_of_v1 hash_of_v1_third rules) g;
      hashes_of_v2 =
          subst (AreRulesOf properties)
            (sym three_eq ∙ of_priority-only 3 is_hash_of_v2 hash_of_v2_last rules) h;
      counted = omega (
        arith,
        k,
        l,
        m,
        n,
        length-append truncations (masks ++ (hashes ++ later)),
        length-append masks (hashes ++ later),
        length-append hashes later,
        count-is_column_transformation_property properties,
      );
    }

both :
    {A : Type 0} (P Q : A → Type 0) (r : Result A) → OnOk P r → OnOk Q r → OnOk (λ a. P a × Q a) r
both P Q (err e) h k = tt
both P Q (ok a) h k = (h, k)

-- Where the column transformations of properties are accepted, their rules are already in the order
-- in which the transformer sorts them. The truncations, the masks and the hashes of each version
-- are each, in order, the rule of a property of its own, with the length, or the algorithm and the
-- salt, that is in its name and the selectors of its value. There are exactly as many rules as
-- properties whose name is that of a column transformation.
pub column_transformations-IsOrdered :
    (properties : PropertyMap) (rules : List ColumnTransformRule)
    → column_transformations properties ≡ ok rules
    → IsOrdered properties rules
unfolding column_transformations priority
column_transformations-IsOrdered properties rules h = subst (OnOk (IsOrdered properties)) h (
    OnOk-bind _ _ (length_rules truncate (codes "column.truncate.to.") properties) _
      (both _ _ _
        (length_rules-Gives truncate 0 (λ n s. refl) (codes "column.truncate.to.") properties)
        (length_rules-AreRulesOf truncate (codes "column.truncate.to.")
          (λ name value n m. (m, refl)) properties))
      λ truncations a.
        OnOk-bind _ _ (length_rules mask (codes "column.mask.with.") properties) _
          (both _ _ _
            (length_rules-Gives mask 1 (λ n s. refl) (codes "column.mask.with.") properties)
            (length_rules-AreRulesOf mask (codes "column.mask.with.") (λ name value n m. (m, refl))
              properties))
          λ masks b.
            OnOk-bind _ _ (hash_rules v1 properties) _
              (both _ _ _ (hash_rules-Gives v1 properties) (hash_rules-AreRulesOf v1 properties))
              λ hashes c.
                OnOk-bind _ _ (hash_rules v2 properties) _
                  (both _ _ _ (hash_rules-Gives v2 properties)
                    (hash_rules-AreRulesOf v2 properties))
                  λ later d. joined-IsOrdered properties truncations masks hashes later a b c d)
