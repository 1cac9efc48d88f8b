-- ===== src/Postgres/History/RoundTrip.antt =====
-- crates/rustium-postgresql/src/schema_history.rs: a connector's state that is decoded from what it
-- was encoded to.
use rustium.Common.{
  ◌≡◌, refl, ap, sym, ◌∙◌, ◌↔◌, true, false, Option, none, some, List, [], ◌∷◌, Str, str_eq,
  str_eq_iff, if◌then◌else◌, arith, Bool-cases, inl, inr,
}
use rustium.Common.Assoc.{TableKey, same_table, find, insert}
use rustium.Common.Ord.{gt, list_ord, pair_ord, nat_ord}
use rustium.Cache.Keys.{find-insert}
use rustium.Core.Error.{Result, ok, ◌>>=◌}
use rustium.Core.Error.Returns.{bind-ok}
use rustium.Core.Event.{ConnectorStateEnvelope}
use rustium.Postgres.Controller.{TableSchema, IncrementalSnapshotProgress}
use rustium.Postgres.History.{
  Schemas, PostgresConnectorState, HistoryCodec, HistoryCodecLaws, key, insert_table, sort_tables,
  values, collect_tables, encode_connector_state, decode_connector_state, decoded,
}

same_table_iff : (s t : TableKey) → (same_table s t ≡ true) ↔ (s ≡ t)
unfolding same_table
same_table_iff (a, b) (c, d) = (
  (λ h. ground (arith, h, str_eq_iff a c, str_eq_iff b d)),
  (λ e. ground (arith, e, str_eq_iff a c, str_eq_iff b d)),
)

-- The table of a key.
lookup : TableKey → List TableSchema → Option TableSchema
lookup k [] = none
lookup k (t ∷ rest) = if same_table (key t) k then some t else lookup k rest

AreDistinct : List TableSchema → Type 0
AreDistinct [] = Unit
AreDistinct (t ∷ rest) = (lookup (key t) rest ≡ none) × AreDistinct rest

-- The map has each table once, under the table's key.
abbrev pub AreKeyed : Schemas → Type 0
AreKeyed [] = Unit
AreKeyed ((k, t) ∷ rest) = (k ≡ key t) × ((find same_table k rest ≡ none) × AreKeyed rest)

same_both :
    (a b c : TableKey) → same_table a c ≡ true → same_table b c ≡ true → same_table a b ≡ true
same_both a b c h k =
    let d = (same_table_iff a c).0 h in
    let e = (same_table_iff b c).0 k in (same_table_iff a b).1 (d ∙ sym e)

same_table_refl : (k : TableKey) → same_table k k ≡ true
same_table_refl k = (same_table_iff k k).1 refl

same_table_sym : (j k : TableKey) → same_table j k ≡ true → same_table k j ≡ true
same_table_sym j k h = (same_table_iff k j).1 (sym ((same_table_iff j k).0 h))

lookup-insert_table :
    (k : TableKey) (t : TableSchema) (ts : List TableSchema)
    → lookup (key t) ts ≡ none
    → lookup k (insert_table t ts) ≡ (if same_table (key t) k then some t else lookup k ts)
unfolding lookup insert_table
lookup-insert_table k t [] h = refl
lookup-insert_table k t (u ∷ rest) h =
    ground (arith, lookup-insert_table k t rest, same_both (key u) (key t) k)

absent_behind :
    (t u : TableSchema) (rest : List TableSchema)
    → lookup (key t) (u ∷ rest) ≡ none
    → (same_table (key t) (key u) ≡ false) × (lookup (key t) rest ≡ none)
unfolding lookup
absent_behind t u rest h = ground (
  arith,
  h,
  same_both (key u) (key t) (key t),
  same_table_refl (key t),
  same_table_sym (key t) (key u),
)

AreDistinct-insert_table :
    (t : TableSchema) (ts : List TableSchema)
    → lookup (key t) ts ≡ none
    → AreDistinct ts
    → AreDistinct (insert_table t ts)
unfolding lookup insert_table AreDistinct
AreDistinct-insert_table t [] h d = (refl, tt)
AreDistinct-insert_table t (u ∷ rest) h (n, d) =
    let (apart, absent) = absent_behind t u rest h in
    elim (Bool-cases (gt (key t) (key u))) [
      | inl after ↦ rw after (
        lookup-insert_table (key u) t rest absent ∙ (rw apart n),
        AreDistinct-insert_table t rest absent d,
      )
      | inr before ↦ rw before (h, (n, d))
    ]

sort_tables-lookup :
    (ts : List TableSchema)
    → AreDistinct ts
    → AreDistinct (sort_tables ts) × ((k : TableKey) → lookup k (sort_tables ts) ≡ lookup k ts)
unfolding lookup sort_tables AreDistinct
sort_tables-lookup [] d = (tt, λ k. refl)
sort_tables-lookup (t ∷ rest) (n, d) =
    let (e, same) = sort_tables-lookup rest d in
    let absent = same (key t) ∙ n in
    (
      AreDistinct-insert_table t (sort_tables rest) absent e,
      λ k. lookup-insert_table k t (sort_tables rest) absent ∙ (rw (same k) refl),
    )

abbrev or_else : Option TableSchema → Option TableSchema → Option TableSchema
or_else none b = b
or_else (some a) b = some a

AreFresh : List TableSchema → Schemas → Type 0
AreFresh [] schemas = Unit
AreFresh (t ∷ rest) schemas = (find same_table (key t) schemas ≡ none) × AreFresh rest schemas

AreFresh-insert :
    (t : TableSchema) (rest : List TableSchema) (schemas : Schemas)
    → lookup (key t) rest ≡ none
    → AreFresh rest schemas
    → AreFresh rest (insert same_table (key t) t schemas)
unfolding lookup AreFresh
AreFresh-insert t [] schemas h f = tt
AreFresh-insert t (u ∷ rest) schemas h (n, f) =
    let (apart, absent) = absent_behind t u rest h in
    (
      find-insert same_table same_table_iff (key u) (key t) t schemas ∙ (rw apart n),
      AreFresh-insert t rest schemas absent f,
    )

abbrev Collected : List TableSchema → Schemas → Result Schemas → Type 0
Collected ts schemas r =
    (m : Schemas) × ((r ≡ ok m)
      × ((k : TableKey) → find same_table k m ≡ or_else (lookup k ts) (find same_table k schemas)))

in_front :
    (k : TableKey) (t : TableSchema) (rest : List TableSchema) (found : Option TableSchema)
    → lookup (key t) rest ≡ none
    → or_else (lookup k rest) (if same_table (key t) k then some t else found)
      ≡ or_else (if same_table (key t) k then some t else lookup k rest) found
in_front k t rest found n = elim (Bool-cases (same_table (key t) k)) [
  | inl same ↦ rw (same, ap (λ j. lookup j rest) (sym ((same_table_iff (key t) k).0 same)) ∙ n) refl
  | inr apart ↦ rw apart refl
]

collect_tables-Collected :
    (ts : List TableSchema) (schemas : Schemas)
    → AreDistinct ts
    → AreFresh ts schemas
    → Collected ts schemas (collect_tables ts schemas)
unfolding collect_tables lookup AreDistinct AreFresh
collect_tables-Collected [] schemas d f = (schemas, (refl, λ k. refl))
collect_tables-Collected (t ∷ rest) schemas (n, d) (absent, f) =
    let (m, (e, found)) =
      collect_tables-Collected rest (insert same_table (key t) t schemas) d
        (AreFresh-insert t rest schemas n f) in
    (
      m,
      (
        rw (collect_tables, absent) e,
        λ k.
            found k
            ∙ ap (or_else (lookup k rest))
                (find-insert same_table same_table_iff k (key t) t schemas)
            ∙ in_front k t rest (find same_table k schemas) n,
      ),
    )

AreKeyed-AreDistinct :
    (schemas : Schemas)
    → AreKeyed schemas
    → AreDistinct (values schemas)
      × ((k : TableKey) → lookup k (values schemas) ≡ find same_table k schemas)
unfolding lookup AreDistinct find
AreKeyed-AreDistinct [] h = (tt, λ k. refl)
AreKeyed-AreDistinct ((k, t) ∷ rest) (e, (n, h)) =
    let (d, same) = AreKeyed-AreDistinct rest h in
    ((same (key t) ∙ ap (λ j. find same_table j rest) (sym e) ∙ n, d), λ j. rw (e, same j) refl)

AreFresh-nil : (ts : List TableSchema) → AreFresh ts []
unfolding AreFresh find
AreFresh-nil [] = tt
AreFresh-nil (t ∷ rest) = (refl, AreFresh-nil rest)

or_else-none : (a : Option TableSchema) → or_else a none ≡ a
or_else-none none = refl
or_else-none (some a) = refl

ok_inj : {A : Type 0} {a b : A} → ok a ≡ ok b → a ≡ b
ok_inj h = cc

-- What is decoded: the same tables under the same keys, the same progress and the same signals.
abbrev pub Restores :
    Schemas → Option IncrementalSnapshotProgress → List Str → Result PostgresConnectorState → Type 0
Restores schemas progress ids r =
    (s : PostgresConnectorState) × ((r ≡ ok s)
      × (((k : TableKey) → find same_table k s.schemas ≡ find same_table k schemas)
          × ((s.incremental_snapshot ≡ progress) × (s.completed_signal_ids ≡ ids))))

module _ (codec : HistoryCodec) (laws : HistoryCodecLaws codec) where
  -- Where serde_json reads what it wrote, and the map of schemas has each table once, under its own
  -- key, a state of the connector that was encoded without an error is decoded to the same tables
  -- under the same keys, the same progress of the snapshot and the same completed signals.
  pub decode-encode_connector_state :
      (schemas : Schemas) (progress : Option IncrementalSnapshotProgress) (ids : List Str)
      (envelope : ConnectorStateEnvelope)
      → AreKeyed schemas
      → encode_connector_state codec schemas progress ids ≡ ok envelope
      → Restores schemas progress ids (decode_connector_state codec envelope)
  unfolding encode_connector_state decode_connector_state decoded find str_eq
  decode-encode_connector_state schemas progress ids envelope h e =
      let (payload, (written, made)) = bind-ok (codec.to_value _) _ envelope e in
      let (distinct, same) = AreKeyed-AreDistinct schemas h in
      let (sorted, kept) = sort_tables-lookup (values schemas) distinct in
      let (m, (collected, found)) =
        collect_tables-Collected (sort_tables (values schemas)) [] sorted
          (AreFresh-nil (sort_tables (values schemas))) in
      (
        record { schemas = m; incremental_snapshot = progress; completed_signal_ids = ids },
        (
          ap (decode_connector_state codec) (sym (ok_inj made))
              ∙ ap (λ r. r >>= decoded codec) (laws.from-to _ payload written)
              ∙ ap
                  (λ r. r >>= λ collected_schemas. ok (record {
                    schemas = collected_schemas;
                    incremental_snapshot = progress;
                    completed_signal_ids = ids;
                  }))
                  collected,
          (λ k. found k ∙ or_else-none _ ∙ kept k ∙ same k, (refl, refl)),
        ),
      )
