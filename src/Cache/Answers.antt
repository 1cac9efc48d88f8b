-- ===== src/Cache/Answers.antt =====
-- crates/rustium-format-avro/src/lib.rs and rustium-format-protobuf/src/lib.rs, `ParsedSchemaCache`:
-- the answers of the cache to a sequence of definitions.
use rustium.Common.{
  ℕ, ◌≡◌, ◌↔◌, refl, sym, ap, true, Bool, some, List, [], ◌∷◌, map, arith, Option-cases, inl, inr,
}
use rustium.Common.Assoc.{find}
use rustium.Core.Error.{Result, ok, err}
use rustium.Cache.{Cache, new, evict, touch, make_room, push, after_parse, get_or_parse}
use rustium.Cache.Keys.{find-remove, find-insert}
use rustium.Cache.Valid.{get_or_parse-hit, get_or_parse-miss}

module _ {K V : Type 0} (eq : K → K → Bool) where
  -- The requests in turn.
  unfoldable pub answers : (K → Result V) → List K → Cache K V → List (Result V)
  unfolding get_or_parse
  answers parse [] c = []
  answers parse (k ∷ ks) c =
      let (result, left) = get_or_parse eq parse k c in result ∷ answers parse ks left

module _ {K V : Type 0} (eq : K → K → Bool) (law : (a b : K) → (eq a b ≡ true) ↔ (a ≡ b))
    (parse : K → Result V) where
  -- What is cached is what the parser gives.
  abbrev pub IsCoherent : Cache K V → Type 0
  IsCoherent c = (k : K) (v : V) → find eq k c.entries ≡ some v → parse k ≡ ok v

  evict-IsCoherent : (order : List K) (c : Cache K V) → IsCoherent c → IsCoherent (evict eq order c)
  unfolding evict
  evict-IsCoherent [] c h k v e = h k v e
  evict-IsCoherent (oldest ∷ rest) c h k v e =
      h k v (ground (arith, find-remove eq law k oldest c.entries))

  make_room-IsCoherent : (c : Cache K V) → IsCoherent c → IsCoherent (make_room eq c)
  unfolding make_room
  make_room-IsCoherent c h k v e = ground (arith, evict-IsCoherent c.order c h k v, h k v)

  push-IsCoherent :
      (k : K) (w : V) (c : Cache K V) → parse k ≡ ok w → IsCoherent c → IsCoherent (push eq k w c)
  unfolding push
  push-IsCoherent k w c p h j v e =
      ground (arith, find-insert eq law j k w c.entries, h j v, law k j, ap parse)

  after_parse-IsCoherent :
      (k : K) (c : Cache K V) (r : Result V)
      → parse k ≡ r
      → IsCoherent c
      → ((after_parse eq k c r).0 ≡ r) × IsCoherent (after_parse eq k c r).1
  unfolding after_parse
  after_parse-IsCoherent k c (err e) p h = (refl, h)
  after_parse-IsCoherent k c (ok w) p h =
      (refl, push-IsCoherent k w (make_room eq c) p (make_room-IsCoherent c h))

  pub get_or_parse-IsCoherent :
      (k : K) (c : Cache K V)
      → IsCoherent c
      → ((get_or_parse eq parse k c).0 ≡ parse k) × IsCoherent (get_or_parse eq parse k c).1
  unfolding touch
  get_or_parse-IsCoherent k c h = elim (Option-cases (find eq k c.entries)) [
    | inr (w, e) ↦ rw (get_or_parse-hit eq law parse k w c e) (sym (h k w e), h)
    | inl e ↦
        rw (get_or_parse-miss eq law parse k c e) (after_parse-IsCoherent k c (parse k) refl h)
  ]

  answers-IsCoherent :
      (ks : List K) (c : Cache K V) → IsCoherent c → answers eq parse ks c ≡ map parse ks
  unfolding answers
  answers-IsCoherent [] c h = refl
  answers-IsCoherent (k ∷ ks) c h =
      let (same, left) = get_or_parse-IsCoherent k c h in
      rw (same, answers-IsCoherent ks (get_or_parse eq parse k c).1 left) refl

  -- Whatever its capacity, a cache of parsed schemas that was empty answers every sequence of
  -- requests as parsing each of them anew does, errors included.
  pub answers-eq-map :
      (capacity : ℕ) (ks : List K) → answers eq parse ks (new capacity) ≡ map parse ks
  unfolding new find
  answers-eq-map capacity ks = answers-IsCoherent ks (new capacity) (λ k v e. cc)
