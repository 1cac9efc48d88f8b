-- ===== src/Config/Transformations/Matched.antt =====
-- crates/rustium-config/src/debezium.rs: each rule comes from a property of its own.
use rustium.Common.{ℕ, ◌≡◌, refl, ◌⊎◌, inl, inr, Option, none, some, List, [], ◌∷◌, Str, codes}
use rustium.Core.Error.{Result, ok, err, ◌>>=◌}
use rustium.Core.Error.Returns.{OnOk}
use rustium.Columns.{ColumnTransformRule, truncate, mask, hash}
use rustium.Columns.Hash.{ColumnHashAlgorithm, ColumnHashVersion, v1, v2}
use rustium.Config.Properties.{PropertyMap}
use rustium.Config.Statements.{split_csv}
use rustium.Config.Transformations.{
  dynamic_length, dynamic_hash, add_length, length_rules, hash_prefix, add_hash, hash_rules,
  column_hash_algorithm,
}
use rustium.Config.Transformations.Described.{
  NamesLength, NamesHash, dynamic_length-NamesLength, dynamic_hash-NamesHash,
}

-- The name spells out a hash of that algorithm and salt.
abbrev pub IsHashOf : Str → Str → ColumnHashAlgorithm → Str → Type 0
IsHashOf prefix name algorithm salt =
    (text : Str) × (NamesHash prefix name text salt × (column_hash_algorithm text ≡ ok algorithm))

-- The rule has the length, or the algorithm and the salt, of the property's name, and the selectors
-- of its value.
abbrev pub IsRuleOf : Str → Str → ColumnTransformRule → Type 0
IsRuleOf name value (truncate n selectors) =
    NamesLength (codes "column.truncate.to.") name n × (selectors ≡ split_csv value)
IsRuleOf name value (mask n selectors) =
    NamesLength (codes "column.mask.with.") name n × (selectors ≡ split_csv value)
IsRuleOf name value (hash algorithm salt v1 selectors) =
    IsHashOf (codes "column.mask.hash.") name algorithm salt × (selectors ≡ split_csv value)
IsRuleOf name value (hash algorithm salt v2 selectors) =
    IsHashOf (codes "column.mask.hash.v2.") name algorithm salt × (selectors ≡ split_csv value)

-- The rules are those of some of the properties, one each, in the order of the properties.
abbrev pub AreRulesOf : PropertyMap → List ColumnTransformRule → Type 0
AreRulesOf properties [] = Unit
AreRulesOf [] (rule ∷ rules) = ⊥
AreRulesOf ((name, value) ∷ rest) (rule ∷ rules) =
    (IsRuleOf name value rule × AreRulesOf rest rules) ⊎ AreRulesOf rest (rule ∷ rules)

passed :
    (name value : Str) (rest : PropertyMap) (rules : List ColumnTransformRule)
    → AreRulesOf rest rules
    → AreRulesOf ((name, value) ∷ rest) rules
passed name value rest [] h = tt
passed name value rest (rule ∷ rules) h = inr h

pub length_rules-AreRulesOf :
    (rule : ℕ → List Str → ColumnTransformRule) (prefix : Str)
    → ((name value : Str) (n : ℕ)
        → NamesLength prefix name n
        → IsRuleOf name value (rule n (split_csv value)))
    → (properties : PropertyMap)
    → OnOk (AreRulesOf properties) (length_rules rule prefix properties)
unfolding length_rules add_length
length_rules-AreRulesOf rule prefix is_rule [] = tt
length_rules-AreRulesOf rule prefix is_rule ((name, value) ∷ rest) =
    step (dynamic_length name prefix (codes ".chars")) refl (length_rules rule prefix rest)
      (length_rules-AreRulesOf rule prefix is_rule rest)
  where
    step :
        (found : Result (Option ℕ))
        → dynamic_length name prefix (codes ".chars") ≡ found
        → (later : Result (List ColumnTransformRule)) → OnOk (AreRulesOf rest) later
        → OnOk
            (AreRulesOf ((name, value) ∷ rest))
            (found >>= λ n. later >>= λ rules. ok (add_length rule value n rules))
    step (err e) f later h = tt
    step (ok n) f (err e) h = tt
    step (ok none) f (ok rules) h = passed name value rest rules h
    step (ok (some n)) f (ok rules) h =
        inl (is_rule name value n (dynamic_length-NamesLength name prefix n f), h)

named-AreRulesOf :
    (version : ColumnHashVersion) (name value algorithm_name salt : Str) (rest : PropertyMap)
    (found : Result ColumnHashAlgorithm)
    → column_hash_algorithm algorithm_name ≡ found
    → NamesHash (hash_prefix version) name algorithm_name salt
    → (later : Result (List ColumnTransformRule)) → OnOk (AreRulesOf rest) later
    → OnOk (AreRulesOf ((name, value) ∷ rest)) (
        found >>= λ algorithm.
        later >>= λ rules. ok (hash algorithm salt version (split_csv value) ∷ rules))
named-AreRulesOf version name value algorithm_name salt rest (err e) f s later h = tt
named-AreRulesOf version name value algorithm_name salt rest (ok a) f s (err e) h = tt
named-AreRulesOf v1 name value algorithm_name salt rest (ok a) f s (ok rules) h =
    inl (((algorithm_name, (s, f)), refl), h)
named-AreRulesOf v2 name value algorithm_name salt rest (ok a) f s (ok rules) h =
    inl (((algorithm_name, (s, f)), refl), h)

pub hash_rules-AreRulesOf :
    (version : ColumnHashVersion) (properties : PropertyMap)
    → OnOk (AreRulesOf properties) (hash_rules version properties)
unfolding hash_rules add_hash
hash_rules-AreRulesOf version [] = tt
hash_rules-AreRulesOf version ((name, value) ∷ rest) =
    step (dynamic_hash name (hash_prefix version)) refl (hash_rules version rest)
      (hash_rules-AreRulesOf version rest)
  where
    step :
        (found : Option (Str × Str))
        → dynamic_hash name (hash_prefix version) ≡ found
        → (later : Result (List ColumnTransformRule)) → OnOk (AreRulesOf rest) later
        → OnOk (AreRulesOf ((name, value) ∷ rest)) (add_hash version value found later)
    step none f (err e) h = tt
    step none f (ok rules) h = passed name value rest rules h
    step (some (algorithm, salt)) f later h =
        named-AreRulesOf version name value algorithm salt rest (column_hash_algorithm algorithm)
          refl (dynamic_hash-NamesHash name (hash_prefix version) algorithm salt f) later h
