-- ===== src/Tests/Config.antt =====
-- Properties files: one that a managed Debezium Server gets, and one that is read.
use rustium.Common.{◌≡◌, refl, true, some, List, [], ◌∷◌, ◌++◌, Str, codes, str_eq, arith}
use rustium.Core.Error.{ok, ◌>>=◌}
use rustium.Config.Properties.{PropertyMap, parse_properties}
use rustium.Columns.{ColumnTransformRule, truncate, mask, hash}
use rustium.Columns.Hash.{sha1, md5, v1, v2}
use rustium.Config.Properties.{trim}
use rustium.Config.Statements.{postgres_initial_statements, split_csv}
use rustium.Config.Statements.RoundTrip.{AreStatements, postgres_initial_statements-joined}
use rustium.Config.Transformations.{column_transformations, column_hash_algorithm}
use rustium.Config.Transformations.Rules.{IsOrdered, column_transformations-IsOrdered}
use rustium.Config.Properties.Written.{properties_key, managed_config}
use rustium.Config.Properties.RoundTrip.Lines.{insert_all}
use rustium.Config.Properties.RoundTrip.Managed.{
  IsValue, AreProperties, first_entries, source_entries, parse_properties-managed_config,
}

abbrev connector_class : Str
connector_class = codes "io.debezium.connector.db2.Db2Connector"

abbrev properties : PropertyMap
properties =
    (codes "database.password", codes "a\\b") ∷ (codes "offset.storage", codes "elsewhere") ∷ []

abbrev path : Str
path = codes "/data/offsets"

abbrev endpoint : Str
endpoint = codes "http://localhost:8083/"

connector_class-IsValue : IsValue connector_class
unfolding rustium.Config.Properties.is_separator rustium.Common.Text.is_whitespace
connector_class-IsValue = record { starts = refl; ends = refl }

path-IsValue : IsValue path
unfolding rustium.Config.Properties.is_separator rustium.Common.Text.is_whitespace
path-IsValue = record { starts = refl; ends = refl }

endpoint-IsValue : IsValue endpoint
unfolding rustium.Config.Properties.is_separator rustium.Common.Text.is_whitespace
endpoint-IsValue = record { starts = refl; ends = refl }

properties-AreProperties : AreProperties properties
unfolding rustium.Config.Properties.is_separator rustium.Common.Text.is_whitespace
properties-AreProperties = (
  refl,
  (record { starts = refl; ends = refl }, (refl, (record { starts = refl; ends = refl }, tt))),
)

parse_properties-managed_config_example :
    (managed_config (some connector_class) properties path path endpoint >>= parse_properties)
    ≡ ok (
        insert_all
          (first_entries connector_class path path endpoint ++ source_entries properties)
          [])
parse_properties-managed_config_example =
    parse_properties-managed_config connector_class path path endpoint properties
      connector_class-IsValue path-IsValue path-IsValue endpoint-IsValue properties-AreProperties

-- An escaped separator in a key ends the key.
escaped_key :
    parse_properties (properties_key (codes "a=b") ++ codes "=c")
    ≡ ok ((codes "a\\", codes "b=c") ∷ [])
unfolding parse_properties properties_key
escaped_key = refl

-- Two statements, the second with a semicolon in a text.
abbrev statements : List Str
statements = codes "SET a = 1" ∷ codes "SET b = ';'" ∷ []

statements-AreStatements : AreStatements statements
unfolding trim
statements-AreStatements = (refl, (refl, (refl, (refl, tt))))

postgres_initial_statements-joined_example :
    postgres_initial_statements (some (codes "SET a = 1;SET b = ';;'")) ≡ statements
postgres_initial_statements-joined_example =
    postgres_initial_statements-joined statements statements-AreStatements

-- The salt of a hash of version 1 may not be taken for one of version 2.
abbrev transformations : PropertyMap
transformations =
    (codes "column.mask.hash.SHA-1.with.salt.s", codes "a.b, a.c")
    ∷ (codes "column.mask.hash.v2.md5.with.salt.t", codes "a\\,d")
    ∷ (codes "column.mask.with.3.chars", codes "a.e")
    ∷ (codes "column.mask.with.some.chars", codes "a.f")
    ∷ (codes "column.truncate.to.20.chars", codes "a.g")
    ∷ (codes "connector.class", codes "PostgresConnector")
    ∷ []

abbrev rules : List ColumnTransformRule
rules =
    truncate 20 (codes "a.g" ∷ [])
    ∷ mask 3 (codes "a.e" ∷ [])
    ∷ hash sha1 (codes "s") v1 (codes "a.b" ∷ codes "a.c" ∷ [])
    ∷ hash md5 (codes "t") v2 (codes "a\\,d" ∷ [])
    ∷ []

transformed : column_transformations transformations ≡ ok rules
unfolding column_transformations split_csv column_hash_algorithm
    rustium.Config.Transformations.algorithm_and_salt rustium.Config.Transformations.length_in
    rustium.Config.Transformations.stripped_suffix rustium.Config.Transformations.hash_in
    rustium.Config.Transformations.add_length rustium.Config.Transformations.add_hash
transformed = refl

column_transformations-IsOrdered_example : IsOrdered transformations rules
column_transformations-IsOrdered_example =
    column_transformations-IsOrdered transformations rules transformed
