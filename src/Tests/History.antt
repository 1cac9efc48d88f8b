-- ===== src/Tests/History.antt =====
-- Runs of the connector's state of PostgreSQL in a checkpoint.
use rustium.Common.{
  str_eq, ℕ, ◌≡◌, refl, sym, ap, ◌∙◌, Bool, true, false, Option, none, some, List, [], ◌∷◌, Str,
  codes, ℕ_discrete,
}
use rustium.Core.Error.{Result, ok, err, json}
use rustium.Core.Json.{Json, null}
use rustium.Core.Event.{ConnectorStateEnvelope}
use rustium.Postgres.Controller.{TableSchema}
use rustium.Postgres.History.{
  Schemas, HistoryCodec, HistoryCodecLaws, PostgresSchemaHistoryState, encode_connector_state,
  decode_connector_state, postgres_schema_history_format,
}
use rustium.Common.{inl, inr}
use rustium.Common.Int.{pos, negsuc}
use rustium.Postgres.History.Relation.{RelationColumn, matching_field, schema_from_relation}
use rustium.Postgres.History.Match.{HasField, matching_field-schema_from_relation}
use rustium.Postgres.History.RoundTrip.{Restores, decode-encode_connector_state}

abbrev table_named : Str → TableSchema
table_named name = record {
  schema = codes "public";
  table = name;
  event_schema = record {
    name = codes "shop.public.Envelope";
    version = 1;
    fields =
        record {
          name = codes "id";
          type_name = codes "bigint";
          optional = false;
          primary_key = true;
        }
        ∷ [];
  };
  column_types = [];
  opaque_columns = [];
}

abbrev orders : TableSchema
orders = table_named (codes "orders")

abbrev customers : TableSchema
customers = table_named (codes "customers")

abbrev schemas : Schemas
schemas =
    ((codes "public", codes "orders"), orders)
    ∷ ((codes "public", codes "customers"), customers)
    ∷ []

abbrev history : PostgresSchemaHistoryState
history = record {
  tables = customers ∷ orders ∷ [];
  incremental_snapshot = none;
  completed_signal_ids = codes "s" ∷ [];
}

unfoldable History-discrete : Discrete PostgresSchemaHistoryState
History-discrete = hlevel (ℕ_discrete)

abbrev value_for : {h : PostgresSchemaHistoryState} → Dec (h ≡ history) → Result Json
value_for (yes _) = ok null
value_for (no _) = err (json "another state")

abbrev one_value : HistoryCodec
unfolding History-discrete
one_value = record {
  to_value = λ h. value_for (History-discrete h history);
  from_value = λ j. ok history;
}

from-value_for :
    (h : PostgresSchemaHistoryState) (d : Dec (h ≡ history)) (payload : Json)
    → value_for d ≡ ok payload
    → ok history ≡ ok h
from-value_for h (yes same) payload e = ap ok (sym same)
from-value_for h (no other) payload e = cc

one_value-HistoryCodecLaws : HistoryCodecLaws one_value
unfolding one_value History-discrete
one_value-HistoryCodecLaws = record {
  from-to = λ h payload e. from-value_for h (History-discrete h history) payload e;
}

abbrev envelope : ConnectorStateEnvelope
envelope = record { format = postgres_schema_history_format; version = 6; payload = null }

decode-encode_connector_state_example :
    Restores schemas none (codes "s" ∷ []) (decode_connector_state one_value envelope)
unfolding one_value History-discrete rustium.Postgres.History.key rustium.Common.Assoc.same_table
    rustium.Common.Assoc.find str_eq encode_connector_state
decode-encode_connector_state_example =
    decode-encode_connector_state one_value one_value-HistoryCodecLaws schemas none (codes "s" ∷ [])
      envelope (refl, (refl, (refl, (refl, tt)))) refl

abbrev column_named : Str → ℕ → RelationColumn
column_named name type_id = record {
  name = name;
  type_id = type_id;
  type_modifier = negsuc 0;
  is_key = false;
}

abbrev relation_columns : List RelationColumn
relation_columns =
    column_named (codes "id") 20
    ∷ column_named (codes "shape") 600
    ∷ column_named (codes "total") 790
    ∷ []

abbrev resolved : List (Str × Bool)
resolved = (codes "bigint", true) ∷ (codes "point", false) ∷ (codes "money", true) ∷ []

abbrev related : TableSchema
related = record {
  schema = codes "public";
  table = codes "orders";
  event_schema = record {
    name = codes "shop.public.Envelope";
    version = 1;
    fields =
        record {
          name = codes "id";
          type_name = codes "bigint";
          optional = true;
          primary_key = false;
        }
        ∷ record {
          name = codes "total";
          type_name = codes "money(2)";
          optional = true;
          primary_key = false;
        }
        ∷ [];
  };
  column_types =
      record { name = codes "id"; type_oid = 20; type_modifier = negsuc 0 }
      ∷ record { name = codes "shape"; type_oid = 600; type_modifier = negsuc 0 }
      ∷ record { name = codes "total"; type_oid = 790; type_modifier = negsuc 0 }
      ∷ [];
  opaque_columns = [];
}

from_relation :
    schema_from_relation false
      (pos 2)
      none
      none
      (codes "public")
      (codes "orders")
      (codes "shop.public.Envelope")
      relation_columns
      resolved
    ≡ ok related
unfolding schema_from_relation str_eq rustium.Columns.Types.trim_end_quotes
    rustium.Common.Text.split rustium.Common.Text.decimal
from_relation = refl

matching_field-schema_from_relation_example :
    HasField
      (column_named (codes "total") 790)
      (codes "money")
      (pos 2)
      none
      none
      false
      (matching_field (some related) (column_named (codes "total") 790))
unfolding str_eq matching_field
matching_field-schema_from_relation_example =
    matching_field-schema_from_relation false (pos 2) none none (column_named (codes "total") 790)
      (codes "money") (codes "public") (codes "orders") (codes "shop.public.Envelope")
      relation_columns resolved related (refl, (refl, (refl, tt))) (inr (inr (inl (refl, refl))))
      from_relation
