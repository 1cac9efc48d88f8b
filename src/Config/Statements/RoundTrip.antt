-- ===== src/Config/Statements/RoundTrip.antt =====
-- crates/rustium-config/src/debezium.rs: initial statements that were joined by semicolons.
use rustium.Common.{
  ℕ, ◌≡◌, refl, ap, sym, ◌∙◌, Bool, true, false, not, some, List, [], ◌∷◌, ◌++◌, append_assoc,
  append-nil, Str, ◌==◌, if◌then◌else◌, arith, Bool-cases, inl, inr,
}
use rustium.Config.Properties.{trim}
use rustium.Config.Statements.{kept, statements_from, postgres_initial_statements}

-- A statement with its semicolons doubled, and statements with one semicolon between two of them.
abbrev pub doubled : Str → Str
doubled [] = []
doubled (c ∷ s) = if c == b';' then b';' ∷ b';' ∷ doubled s else c ∷ doubled s

abbrev pub joined : List Str → Str
joined [] = []
joined (s ∷ []) = doubled s
joined (s ∷ t ∷ rest) = doubled s ++ (b';' ∷ joined (t ∷ rest))

abbrev pub starts_plain : Str → Bool
starts_plain [] = false
starts_plain (c ∷ s) = not (c == b';')

-- Statements without white space around them that do not start with a semicolon.
abbrev pub AreStatements : List Str → Type 0
AreStatements [] = Unit
AreStatements (s ∷ rest) = (starts_plain s ≡ true) × ((trim s ≡ s) × AreStatements rest)

statements_from-plain :
    (statement : Str) (c : ℕ) (s : Str)
    → (c == b';') ≡ false
    → statements_from statement (c ∷ s) ≡ statements_from (statement ++ (c ∷ [])) s
unfolding statements_from
statements_from-plain statement c [] h = rw h refl
statements_from-plain statement c (d ∷ s) h = ground arith

statements_from-doubled :
    (statement s rest : Str)
    → statements_from statement (doubled s ++ rest) ≡ statements_from (statement ++ s) rest
unfolding statements_from
statements_from-doubled statement [] rest =
    ap (λ t. statements_from t rest) (sym (append-nil statement))
statements_from-doubled statement (c ∷ s) rest = elim (Bool-cases (c == b';')) [
  | inl semicolon ↦ rw semicolon (
      statements_from-doubled (statement ++ (b';' ∷ [])) s rest
      ∙ ap (λ t. statements_from t rest)
          (append_assoc statement (b';' ∷ []) s
            ∙ ap (λ d. statement ++ (d ∷ s)) (is_semicolon c semicolon)))
  | inr plain ↦ rw plain (
      statements_from-plain statement c (doubled s ++ rest) plain
      ∙ statements_from-doubled (statement ++ (c ∷ [])) s rest
      ∙ ap (λ t. statements_from t rest) (append_assoc statement (c ∷ []) s))
]
  where
    is_semicolon : (c : ℕ) → (c == b';') ≡ true → b';' ≡ c
    is_semicolon c h = ground arith

kept-statement :
    (s : Str) (values : List Str) → starts_plain s ≡ true → trim s ≡ s → kept s values ≡ s ∷ values
unfolding kept
kept-statement [] values p t = cc
kept-statement (c ∷ s) values p t = rw t refl

statements_from-separated :
    (statement s : Str)
    → starts_plain s ≡ true
    → statements_from statement (b';' ∷ s) ≡ kept statement (statements_from [] s)
unfolding statements_from
statements_from-separated statement [] h = cc
statements_from-separated statement (d ∷ s) h = ground (arith)

starts_plain-joined :
    (s : Str) (rest : List Str) → starts_plain s ≡ true → starts_plain (joined (s ∷ rest)) ≡ true
starts_plain-joined [] rest h = cc
starts_plain-joined (c ∷ s) [] h = ground arith
starts_plain-joined (c ∷ s) (t ∷ rest) h = ground arith

statements_from-joined :
    (statements : List Str)
    → AreStatements statements
    → statements_from [] (joined statements) ≡ statements
unfolding statements_from kept trim
statements_from-joined [] a = refl
statements_from-joined (s ∷ []) (p, (t, a)) =
    ap (statements_from []) (sym (append-nil (doubled s)))
    ∙ statements_from-doubled [] s []
    ∙ kept-statement s [] p t
statements_from-joined (s ∷ next ∷ rest) (p, (t, a)) =
    statements_from-doubled [] s (b';' ∷ joined (next ∷ rest))
    ∙ statements_from-separated s (joined (next ∷ rest)) (starts_plain-joined next rest a.0)
    ∙ kept-statement s _ p t
    ∙ ap (s ∷◌) (statements_from-joined (next ∷ rest) a)

-- Statements that have no white space around them and do not start with a semicolon are read back
-- from their text, in which the semicolons of a statement are doubled and one semicolon stands
-- between two statements.
pub postgres_initial_statements-joined :
    (statements : List Str)
    → AreStatements statements
    → postgres_initial_statements (some (joined statements)) ≡ statements
unfolding postgres_initial_statements
postgres_initial_statements-joined statements a = statements_from-joined statements a
