-- ===== src/Postgres/Stream/Refresh.antt =====
-- crates/rustium-postgresql/src/source.rs: a table's schema that is refreshed.
use rustium.Common.{
  ℕ, ◌+◌, ◌-◌, ◌^◌, min, Bool, true, false, ◌||◌, Option, none, some, List, [], ◌∷◌, ◌≡◌, refl, ap,
  sym, subst, str_eq_iff, Bool-cases, inl, inr, arith,
}
use mathlib.Core.Bool.{decide_iff}
use rustium.Common.Assoc.{find, insert, remove, TableKey, same_table}
use rustium.Postgres.Controller.{TableSchema}
use rustium.Postgres.Stream.{
  StreamingState, SchemaParts-discrete, parts_of, same_parts, with_version, versioned,
  refresh_schema,
}

abbrev key_of : TableSchema → TableKey
key_of s = (s.schema, s.table)

same_table_refl : (k : TableKey) → same_table k k ≡ true
unfolding same_table
same_table_refl (s, t) = ground (arith, str_eq_iff s s, str_eq_iff t t)

find-insert :
    (k : TableKey) (v : TableSchema) (m : List (TableKey × TableSchema))
    → find same_table k (insert same_table k v m) ≡ some v
unfolding find insert
find-insert k v m = rw (same_table_refl k) refl

remove-remove :
    (k : TableKey) (m : List (TableKey × TableSchema))
    → remove same_table k (remove same_table k m) ≡ remove same_table k m
unfolding remove
remove-remove k [] = refl
remove-remove k ((j, v) ∷ m) = elim (Bool-cases (same_table j k)) [
  | inl e ↦ rw e (remove-remove k m)
  | inr e ↦ rw (e, e) (ap ((j, v) ∷◌) (remove-remove k m))
]

insert-insert :
    (k : TableKey) (v : TableSchema) (m : List (TableKey × TableSchema))
    → insert same_table k v (insert same_table k v m) ≡ insert same_table k v m
unfolding insert remove
insert-insert k v m = rw (same_table_refl k, remove-remove k m) refl

or_false : (b : Bool) → (b || false) ≡ b
or_false true = refl
or_false false = refl

-- A schema under another version has the same parts.
same_parts-with_version :
    (version : ℕ) (s : TableSchema) → same_parts (with_version version s) s ≡ true
unfolding same_parts
same_parts-with_version version s =
    (decide_iff (SchemaParts-discrete (parts_of s) (parts_of s))).1 refl

versioned-with_version :
    (o : Option TableSchema) (s : TableSchema)
    → (version : ℕ) × ((versioned o s).0 ≡ with_version version s)
unfolding versioned
versioned-with_version none s = (s.event_schema.version, refl)
versioned-with_version (some current) s = elim (Bool-cases (same_parts current s)) [
  | inl e ↦ rw e (current.event_schema.version, refl)
  | inr e ↦ rw e (min (current.event_schema.version + 1) (2 ^ 32 - 1), refl)
]

versioned-again :
    (o : Option TableSchema) (s : TableSchema)
    → versioned (some (versioned o s).0) s ≡ ((versioned o s).0, false)
unfolding versioned
versioned-again o s =
    let (version, e) = versioned-with_version o s in
    subst (λ kept. versioned (some kept) s ≡ (kept, false)) (sym e)
      (rw (same_parts-with_version version s) refl)

-- A table's schema that is refreshed with the same columns again is reported unchanged, keeps its
-- version, and leaves the state as it was.
refresh_schema_idem :
    (refreshed : TableSchema) (s : StreamingState)
    → (let after = (refresh_schema refreshed s).1 in refresh_schema refreshed after)
      ≡ (none, (refresh_schema refreshed s).1)
unfolding refresh_schema
refresh_schema_idem refreshed s =
    let kept = (versioned (find same_table (key_of refreshed) s.schemas) refreshed).0 in
    rw
      (
        find-insert (key_of refreshed) kept s.schemas,
        versioned-again (find same_table (key_of refreshed) s.schemas) refreshed,
        insert-insert (key_of refreshed) kept s.schemas,
        or_false (
            s.schema_dirty
            || (versioned (find same_table (key_of refreshed) s.schemas) refreshed).1),
      )
      refl
