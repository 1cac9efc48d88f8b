-- ===== src/Kafka/Contract.antt =====
-- crates/rustium-sink-kafka/src/lib.rs: `KafkaSink::new`, up to the producer that librdkafka makes of
-- its configuration. A later setting of a key replaces the earlier.
use rustium.Common.{
  ℕ, String, ◌-◌, ◌^◌, ◌≡◌, refl, sym, ap, ◌∙◌, Bool, true, false, not, ◌||◌, some, List, [], ◌∷◌,
  ◌++◌, Str, codes, str_eq, str_eq_iff, is_empty, ltb, ◌==◌, arith, Bool-cases, inl, inr, ◌⊎◌,
  if◌then◌else◌,
}
use rustium.Common.Text.{is_blank, decimal}
use rustium.Common.Assoc.{find, insert}
use rustium.Cache.Keys.{find-insert}
use rustium.Core.Error.{Result, ok, err, configuration, ◌>>◌}

abbrev pub reserved_properties : List Str
reserved_properties =
    codes "acks"
    ∷ codes "bootstrap.servers"
    ∷ codes "compression.codec"
    ∷ codes "compression.type"
    ∷ codes "delivery.timeout.ms"
    ∷ codes "enable.idempotence"
    ∷ codes "message.timeout.ms"
    ∷ codes "metadata.broker.list"
    ∷ codes "request.required.acks"
    ∷ []

unfoldable pub one_of : Str → List Str → Bool
unfolding str_eq
one_of s [] = false
one_of s (t ∷ rest) = str_eq s t || one_of s rest

unfoldable pub any_blank : List Str → Bool
unfolding is_blank
any_blank [] = false
any_blank (server ∷ rest) = is_blank server || any_blank rest

unfoldable pub any_reserved : List (Str × Str) → Bool
unfolding one_of
any_reserved [] = false
any_reserved ((key, value) ∷ rest) = one_of key reserved_properties || any_reserved rest

abbrev pub refuse : Bool → String → Result (Unit {0}) → Result (Unit {0})
refuse test message rest = if test then err (configuration message) else rest

-- `validate_delivery_contract`, the timeout in milliseconds.
unfoldable pub validate_delivery_contract :
    List Str → Str → ℕ → List (Str × Str) → Result (Unit {0})
unfolding any_blank any_reserved str_eq
validate_delivery_contract bootstrap_servers acks timeout_millis properties =
    refuse (is_empty bootstrap_servers || any_blank bootstrap_servers)
      "Kafka bootstrap servers must contain at least one non-empty address"
      (refuse (not (str_eq acks (codes "all") || str_eq acks (codes "-1")))
        "Kafka Sink requires acks=all (or -1) so a batch is replicated before checkpointing"
        (refuse (timeout_millis == 0 || ltb (2 ^ 31 - 1) timeout_millis)
          "Kafka delivery timeout must be between 1 and 2147483647 milliseconds"
          (refuse (any_reserved properties)
            "Kafka property is managed by Rustium and cannot be overridden" (ok tt))))

-- `bootstrap_servers.join(",")`.
unfoldable pub join : List Str → Str
join [] = []
join (server ∷ []) = server
join (server ∷ next ∷ rest) = server ++ codes "," ++ join (next ∷ rest)

unfoldable pub set_all : List (Str × Str) → List (Str × Str) → List (Str × Str)
unfolding insert
set_all [] config = config
set_all ((key, value) ∷ rest) config = set_all rest (insert str_eq key value config)

unfoldable pub first_settings : List Str → Str → Str → ℕ → List (Str × Str)
unfolding join insert str_eq
first_settings bootstrap_servers acks compression timeout_millis =
    insert str_eq (codes "message.timeout.ms") (decimal timeout_millis) (
      insert str_eq (codes "enable.idempotence") (codes "true") (
        insert str_eq (codes "compression.type") compression (
          insert str_eq (codes "acks") acks
            (insert str_eq (codes "bootstrap.servers") (join bootstrap_servers) []))))

unfoldable pub client_config :
    List Str → Str → Str → ℕ → List (Str × Str) → Result (List (Str × Str))
unfolding validate_delivery_contract set_all first_settings
client_config bootstrap_servers acks compression timeout_millis properties =
    validate_delivery_contract bootstrap_servers acks timeout_millis properties
    >> ok (set_all properties (first_settings bootstrap_servers acks compression timeout_millis))

find-set_all :
    (key : Str) (properties config : List (Str × Str))
    → one_of key reserved_properties ≡ true
    → any_reserved properties ≡ false
    → find str_eq key (set_all properties config) ≡ find str_eq key config
unfolding set_all any_reserved
find-set_all key [] config h k = refl
find-set_all key ((other, value) ∷ rest) config h k =
    find-set_all key rest (insert str_eq other value config) h (ground arith)
    ∙ find-insert str_eq str_eq_iff key other value config
    ∙ (rw (apart other (ground arith)) refl)
  where
    apart : (other : Str) → one_of other reserved_properties ≡ false → str_eq other key ≡ false
    apart other e = elim (Bool-cases (str_eq other key)) [
      | inl same ↦ let s = (str_eq_iff other key).0 same in cc
      | inr d ↦ d
    ]

-- Durable settings: all replicas acknowledge, retries do not duplicate, and a message is waited
-- for as long as is configured.
abbrev pub IsDurable : ℕ → List (Str × Str) → Type 0
IsDurable timeout_millis config =
    ((find str_eq (codes "acks") config ≡ some (codes "all"))
      ⊎ (find str_eq (codes "acks") config ≡ some (codes "-1")))
    × ((find str_eq (codes "enable.idempotence") config ≡ some (codes "true"))
        × (find str_eq (codes "message.timeout.ms") config ≡ some (decimal timeout_millis)))

abbrev Accepts : Str → ℕ → List (Str × Str) → Type 0
Accepts acks timeout_millis properties =
    ((str_eq acks (codes "all") || str_eq acks (codes "-1")) ≡ true)
    × (((timeout_millis == 0 || ltb (2 ^ 31 - 1) timeout_millis) ≡ false)
        × (any_reserved properties ≡ false))

validate_delivery_contract-Accepts :
    (servers : List Str) (acks : Str) (timeout_millis : ℕ) (properties : List (Str × Str))
    (u : Unit {0})
    → validate_delivery_contract servers acks timeout_millis properties ≡ ok u
    → Accepts acks timeout_millis properties
unfolding validate_delivery_contract
validate_delivery_contract-Accepts servers acks timeout_millis properties u h =
    accepts (is_empty servers || any_blank servers)
      (str_eq acks (codes "all") || str_eq acks (codes "-1"))
      (timeout_millis == 0 || ltb (2 ^ 31 - 1) timeout_millis) (any_reserved properties) h
  where
    accepts :
        (a b c d : Bool)
        → refuse a "Kafka bootstrap servers must contain at least one non-empty address" (
            refuse
              (not b)
              "Kafka Sink requires acks=all (or -1) so a batch is replicated before checkpointing"
              (refuse c "Kafka delivery timeout must be between 1 and 2147483647 milliseconds"
                (refuse d "Kafka property is managed by Rustium and cannot be overridden" (ok tt))))
          ≡ ok u
        → (b ≡ true) × ((c ≡ false) × (d ≡ false))
    accepts true b c d h = cc
    accepts false false c d h = cc
    accepts false true true d h = cc
    accepts false true false true h = cc
    accepts false true false false h = (refl, (refl, refl))

or_false : (a b : Bool) → (a || b) ≡ true → a ≡ false → b ≡ true
or_false true b h e = cc
or_false false b h e = h

first_settings-IsDurable :
    (servers : List Str) (acks compression : Str) (timeout_millis : ℕ)
    → ((str_eq acks (codes "all") || str_eq acks (codes "-1")) ≡ true)
    → IsDurable timeout_millis (first_settings servers acks compression timeout_millis)
unfolding first_settings find insert str_eq
first_settings-IsDurable servers acks compression timeout_millis h = (
  elim (Bool-cases (str_eq acks (codes "all"))) [
    | inl all ↦ inl (ap some ((str_eq_iff acks (codes "all")).0 all))
    | inr other ↦ inr (ap some ((str_eq_iff acks (codes "-1")).0 (or_false _ _ h other)))
  ],
  (refl, refl),
)

-- Where the settings of the Kafka producer are accepted, all replicas acknowledge a message, the
-- producer is idempotent and waits for a message for as long as is configured, whatever other
-- properties are given.
pub client_config-IsDurable :
    (servers : List Str) (acks compression : Str) (timeout_millis : ℕ)
    (properties config : List (Str × Str))
    → client_config servers acks compression timeout_millis properties ≡ ok config
    → IsDurable timeout_millis config
unfolding client_config one_of
client_config-IsDurable servers acks compression timeout_millis properties config h =
    let (u, (v, e)) =
      validated (validate_delivery_contract servers acks timeout_millis properties) h in
    let a = validate_delivery_contract-Accepts servers acks timeout_millis properties u v in
    let base = first_settings-IsDurable servers acks compression timeout_millis a.0 in
    let kept = λ (key : Str) (r : one_of key reserved_properties ≡ true).
      ap (find str_eq key) (sym e)
      ∙ find-set_all key properties (first_settings servers acks compression timeout_millis) r
          a.1.1 in
    (
      elim base.0 [
        | inl all ↦ inl (kept (codes "acks") refl ∙ all)
        | inr minus_one ↦ inr (kept (codes "acks") refl ∙ minus_one)
      ],
      (
        kept (codes "enable.idempotence") refl ∙ base.1.0,
        kept (codes "message.timeout.ms") refl ∙ base.1.1,
      ),
    )
  where
    validated :
        {A : Type 0} (r : Result (Unit {0})) {a b : A}
        → (r >> ok a) ≡ ok b
        → (u : Unit {0}) × ((r ≡ ok u) × (a ≡ b))
    validated (err e) h = cc
    validated (ok u) h = (u, (refl, cc))
