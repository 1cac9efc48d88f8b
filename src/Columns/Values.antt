-- ===== src/Columns/Values.antt =====
-- crates/rustium-column-transform/src/lib.rs: what `transform_value` does to a value.
use rustium.Common.{
  ℕ, zero, suc, ◌≡◌, refl, ap, Option, none, some, List, [], ◌∷◌, Str, inl, inr, Bool-cases,
}
use rustium.Core.Event.{DataValue, text, bytes, FieldSchema, EventSchema}
use rustium.Columns.Types.{is_character_type}
use rustium.Columns.{
  Crates, CompiledRule, TransformOperation, truncate_to, mask_with, hash_with, take, on_characters,
  on_others, apply_rule, find_field, rule_for, selects, transform_field, transform_value,
}

take_idem : {A : Type 0} (n : ℕ) (s : List A) → take n (take n s) ≡ take n s
unfolding take
take_idem zero s = refl
take_idem (suc n) [] = refl
take_idem (suc n) (c ∷ s) = ap (c ∷◌) (take_idem n s)

-- An operation that takes no digest.
abbrev pub Repeatable : TransformOperation → Type 0
Repeatable (truncate_to n) = Unit
Repeatable (mask_with stars) = Unit
Repeatable (hash_with algorithm salt version) = ⊥

abbrev pub AreRepeatable : List CompiledRule → Type 0
AreRepeatable [] = Unit
AreRepeatable (rule ∷ rest) = Repeatable rule.operation × AreRepeatable rest

abbrev pub IsRepeatable : Option CompiledRule → Type 0
IsRepeatable none = Unit
IsRepeatable (some rule) = Repeatable rule.operation

rule_for-IsRepeatable :
    (column : Str) (tables : List Str) (rules : List CompiledRule)
    → AreRepeatable rules
    → IsRepeatable (rule_for column tables rules)
unfolding rule_for
rule_for-IsRepeatable column tables [] h = tt
rule_for-IsRepeatable column tables (rule ∷ rest) (r, h) =
    elim (Bool-cases (selects rule column tables)) [
      | inl e ↦ rw e r
      | inr e ↦ rw e (rule_for-IsRepeatable column tables rest h)
    ]

on_others_idem :
    (operation : TransformOperation) (value : DataValue)
    → on_others operation (on_others operation value) ≡ on_others operation value
unfolding on_others
on_others_idem (truncate_to n) (bytes s) = ap bytes (take_idem n s)
on_others_idem operation value = refl

module _ (crates : Crates) where
  on_characters_idem :
      (operation : TransformOperation) (type_name : Str) (declared : Option ℕ) (value : DataValue)
      → Repeatable operation
      → on_characters crates operation type_name declared
          (on_characters crates operation type_name declared value)
        ≡ on_characters crates operation type_name declared value
  unfolding on_characters
  on_characters_idem (hash_with algorithm salt version) type_name declared value h = absurd h
  on_characters_idem (mask_with stars) type_name declared value h = refl
  on_characters_idem (truncate_to n) type_name declared (text s) h = ap text (take_idem n s)
  on_characters_idem (truncate_to n) type_name declared value h = refl

  apply_rule_idem :
      (rule : Option CompiledRule) (type_name : Str) (declared : Option ℕ) (value : DataValue)
      → IsRepeatable rule
      → apply_rule crates rule type_name declared (apply_rule crates rule type_name declared value)
        ≡ apply_rule crates rule type_name declared value
  unfolding apply_rule
  apply_rule_idem none type_name declared value h = refl
  apply_rule_idem (some rule) type_name declared value h =
      elim (Bool-cases (is_character_type type_name)) [
        | inl e ↦ rw e (on_characters_idem rule.operation type_name declared value h)
        | inr e ↦ rw e (on_others_idem rule.operation value)
      ]

  transform_field_idem :
      (rules : List CompiledRule) (tables : List Str) (column : Str) (field : Option FieldSchema)
      (declared : Option ℕ) (value : DataValue)
      → AreRepeatable rules
      → transform_field crates rules tables column field
          (transform_field crates rules tables column field value declared)
          declared
        ≡ transform_field crates rules tables column field value declared
  unfolding transform_field
  transform_field_idem rules tables column none declared value h = refl
  transform_field_idem rules tables column (some field) declared value h =
      apply_rule_idem (rule_for column tables rules) field.type_name declared value
        (rule_for-IsRepeatable column tables rules h)

  -- Transforming a value that was transformed, with no rule that takes a digest, leaves it as it is.
  transform_value_idem :
      (rules : List CompiledRule) (tables : List Str) (schema : EventSchema) (column : Str)
      (declared : Option ℕ) (value : DataValue)
      → AreRepeatable rules
      → transform_value crates rules tables schema column
          (transform_value crates rules tables schema column value declared)
          declared
        ≡ transform_value crates rules tables schema column value declared
  unfolding transform_value
  transform_value_idem rules tables schema column declared value h =
      transform_field_idem rules tables column (find_field column schema.fields) declared value h
