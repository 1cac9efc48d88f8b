-- ===== src/Cache.antt =====
-- crates/rustium-format-avro/src/lib.rs and rustium-format-protobuf/src/lib.rs, `ParsedSchemaCache`,
-- and crates/rustium-sink-kafka/src/lib.rs, `SchemaIdCache`: three caches with one text. The map is
-- the list of its entries, and the queue starts with the key that is evicted next.
pub mod Keys
pub mod Valid
pub mod Recent
pub mod Answers
use rustium.Common.{
  ℕ, Bool, true, false, Option, none, some, List, [], ◌∷◌, ◌++◌, ◌==◌, length, if◌then◌else◌,
}
use rustium.Common.Assoc.{find, remove, insert}
use rustium.Core.Error.{Result, ok, err}

pub record Cache (K V : Type 0) : Type 0 where
  pub entries : List (K × V)
  pub order : List K
  pub capacity : ℕ

unfoldable pub new : {K V : Type 0} → ℕ → Cache K V
new capacity = record { entries = []; order = []; capacity = capacity }

-- `self.order.pop_front()`, with the entry of that key.
unfoldable pub evict : {K V : Type 0} → (K → K → Bool) → List K → Cache K V → Cache K V
evict eq [] c = c
evict eq (oldest ∷ rest) c = record c { order = rest; entries = remove eq oldest c.entries }

-- The queue without the first occurrence of the key.
unfoldable pub remove_first : {K : Type 0} → (K → K → Bool) → K → List K → List K
remove_first eq k [] = []
remove_first eq k (j ∷ ks) = let rest = remove_first eq k ks in if eq j k then ks else j ∷ rest

module _ {K V : Type 0} (eq : K → K → Bool) where
  unfoldable pub touch : K → Cache K V → Cache K V
  unfolding remove_first
  touch k c = record c { order = remove_first eq k c.order ++ (k ∷ []) }

  unfoldable pub make_room : Cache K V → Cache K V
  unfolding evict
  make_room c = if length c.entries == c.capacity then evict eq c.order c else c

  unfoldable pub push : K → V → Cache K V → Cache K V
  push k v c = record c { order = c.order ++ (k ∷ []); entries = insert eq k v c.entries }

  -- `SchemaIdCache::get`.
  unfoldable pub get_cached : K → Cache K V → Option V × Cache K V
  unfolding touch
  get_cached k c = elim (find eq k c.entries) [ none ↦ (none, c) | some v ↦ (some v, touch k c) ]

  -- `SchemaIdCache::insert`.
  unfoldable pub put : K → V → Cache K V → Cache K V
  unfolding touch make_room push
  put k v c = elim (find eq k c.entries) [
    | some _ ↦ let touched = touch k c in record touched { entries = insert eq k v touched.entries }
    | none ↦ push k v (make_room c)
  ]

  -- `ParsedSchemaCache::get_or_parse`, over the parser.
  unfoldable pub after_parse : K → Cache K V → Result V → Result V × Cache K V
  unfolding make_room push
  after_parse k c (err e) = (err e, c)
  after_parse k c (ok v) = (ok v, push k v (make_room c))

  unfoldable pub get_or_parse : (K → Result V) → K → Cache K V → Result V × Cache K V
  unfolding touch after_parse
  get_or_parse parse k c = elim (find eq k c.entries) [
    | some v ↦ (ok v, touch k c)
    | none ↦ after_parse k c (parse k)
  ]
