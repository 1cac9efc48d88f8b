-- ===== src/Config/Statements.antt =====
-- crates/rustium-config/src/debezium.rs: `split_csv`, and `postgres_initial_statements` with the text
-- that it reads.
pub mod RoundTrip
use rustium.Common.{
  ℕ, ◌≡◌, refl, ap, sym, ◌∙◌, Bool, true, false, not, Option, none, some, List, [], ◌∷◌, ◌++◌, Str,
  ◌==◌, is_empty, if◌then◌else◌, arith,
}
use rustium.Config.Properties.{trim}

-- A value that is pushed without the white space around it, unless nothing is left of it.
unfoldable pub kept : Str → List Str → List Str
unfolding trim
kept current values =
    let trimmed = trim current in if is_empty trimmed then values else trimmed ∷ values

-- `split_csv` after `current`, at a character that a backslash may have escaped.
unfoldable pub split_from : Bool → Str → Str → List Str
unfolding kept
split_from true current [] = kept (current ++ (b'\\' ∷ [])) []
split_from false current [] = kept current []
split_from true current (c ∷ s) = split_from false (current ++ (b'\\' ∷ c ∷ [])) s
split_from false current (c ∷ s) = elim (c == b'\\') [
  | true ↦ split_from true current s
  | false ↦ elim (c == b',') [
    | true ↦ kept current (split_from false [] s)
    | false ↦ split_from false (current ++ (c ∷ [])) s
  ]
]

unfoldable pub split_csv : Str → List Str
unfolding split_from
split_csv value = split_from false [] value

-- `postgres_initial_statements` after `statement`: two semicolons are one of the statement.
unfoldable pub statements_from : Str → Str → List Str
unfolding kept
statements_from statement [] = kept statement []
statements_from statement (c ∷ []) =
    if c == b';' then kept statement [] else kept (statement ++ (c ∷ [])) []
statements_from statement (c ∷ d ∷ s) = elim (c == b';') [
  | false ↦ statements_from (statement ++ (c ∷ [])) (d ∷ s)
  | true ↦ elim (d == b';') [
    | true ↦ statements_from (statement ++ (b';' ∷ [])) s
    | false ↦ kept statement (statements_from [] (d ∷ s))
  ]
]

unfoldable pub postgres_initial_statements : Option Str → List Str
unfolding statements_from
postgres_initial_statements none = []
postgres_initial_statements (some value) = statements_from [] value
