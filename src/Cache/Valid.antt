-- ===== src/Cache/Valid.antt =====
-- crates/rustium-format-avro/src/lib.rs, `ParsedSchemaCache`, and crates/rustium-sink-kafka/src/lib.rs,
-- `SchemaIdCache`: the map and the queue have the same keys, and no more than the capacity.
use rustium.Common.{
  ℕ, ◌≤◌, ◌<◌, ◌≡◌, ◌↔◌, refl, ◌∙◌, ap, Bool, true, false, none, some, List, [], ◌∷◌, arith, length,
  length-append, Bool-cases, Option-cases, inl, inr, ◌⊎◌, subst, ◌==◌,
}
use rustium.Common.Assoc.{find, remove, insert}
use rustium.Core.Error.{Result, ok, err}
use rustium.Cache.{
  Cache, new, evict, remove_first, touch, make_room, push, get_cached, put, after_parse,
  get_or_parse,
}
use rustium.Cache.Keys.{
  keys, is_some, contains, IsDistinct, contains-append, contains-remove_first, length-remove_first,
  IsDistinct-remove_first, IsDistinct-push, contains-keys, find-remove, find-insert, remove-absent,
  length-remove, IsDistinct-remove,
}

pub List-cases :
    {A : Type 0} (xs : List A) → (xs ≡ []) ⊎ ((x : A) × ((rest : List A) × (xs ≡ x ∷ rest)))
List-cases [] = inl refl
List-cases (x ∷ rest) = inr (x, (rest, refl))

module _ {K V : Type 0} (eq : K → K → Bool) where
  pub record IsCache (c : Cache K V) : Type 0 where
    pub same : (k : K) → contains eq k c.order ≡ is_some (find eq k c.entries)
    pub distinct : IsDistinct eq c.order
    pub distinct_keys : IsDistinct eq (keys c.entries)
    pub size : length c.entries ≡ length c.order
    pub bound : length c.order ≤ c.capacity

module _ {K V : Type 0} (eq : K → K → Bool) (law : (a b : K) → (eq a b ≡ true) ↔ (a ≡ b)) where
  pub new-IsCache : (capacity : ℕ) → IsCache {V = V} eq (new capacity)
  unfolding new find
  new-IsCache capacity = record {
    same = λ k. refl;
    distinct = tt;
    distinct_keys = tt;
    size = refl;
    bound = omega arith;
  }

  pub touch-IsCache :
      (k : K) (c : Cache K V)
      → contains eq k c.order ≡ true
      → IsCache eq c
      → IsCache eq (touch eq k c)
  unfolding touch
  touch-IsCache k c h v =
      let rest = remove_first eq k c.order in
      let one_less = length-remove_first eq law k c.order h in
      record {
        same = λ j. ground (
          arith,
          contains-append eq law j rest (k ∷ []),
          contains-remove_first eq law j k c.order v.distinct,
          law k j,
          v.same j,
          v.same k,
        );
        distinct =
            IsDistinct-push eq law k rest
              (ground (arith, contains-remove_first eq law k k c.order v.distinct, law k k))
              (IsDistinct-remove_first eq law k c.order v.distinct);
        distinct_keys = v.distinct_keys;
        size = omega (arith, v.size, one_less, length-append rest (k ∷ []));
        bound = omega (arith, v.bound, one_less, length-append rest (k ∷ []));
      }

  evict-IsCache :
      (oldest : K) (rest : List K) (c : Cache K V)
      → c.order ≡ oldest ∷ rest
      → IsCache eq c
      → IsCache eq (evict eq c.order c) × (length (evict eq c.order c).order < length c.order)
  unfolding evict
  evict-IsCache oldest rest c e v =
      let d : IsDistinct eq (oldest ∷ rest) = subst (IsDistinct eq) e v.distinct in
      let here : contains eq oldest c.order ≡ true = rw e (ground (arith, law oldest oldest)) in
      let one_less =
        length-remove eq law oldest c.entries v.distinct_keys (ground (arith, v.same oldest)) in
      rw e (
        record {
          same = λ j. ground (
            arith,
            find-remove eq law j oldest c.entries,
            v.same j,
            law oldest j,
            ap (contains eq j) e,
          );
          distinct = d.1;
          distinct_keys = IsDistinct-remove eq law oldest c.entries v.distinct_keys;
          size = omega (arith, v.size, one_less, ap length e);
          bound = omega (arith, v.bound, ap length e);
        },
        omega arith,
      )

  -- There is room for a key after an eviction.
  pub make_room-IsCache :
      (c : Cache K V)
      → 0 < c.capacity
      → IsCache eq c
      → IsCache eq (make_room eq c) × (length (make_room eq c).order < c.capacity)
  unfolding make_room
  make_room-IsCache c h v = elim (Bool-cases (length c.entries == c.capacity)) [
    | inr room ↦ rw room (v, ground (arith, v.size, v.bound))
    | inl full ↦ rw full (elim (List-cases c.order) [
      | inl e ↦ absurd (ground (arith, v.size, ap length e))
      | inr (oldest, (rest, e)) ↦
          let (w, less) = evict-IsCache oldest rest c e v in (w, omega (arith, v.bound, less))
    ])
  ]

  pub push-IsCache :
      (k : K) (w : V) (c : Cache K V)
      → length c.order < c.capacity
      → contains eq k c.order ≡ false
      → IsCache eq c
      → IsCache eq (push eq k w c)
  unfolding push insert
  push-IsCache k w c h n v =
      let absent : find eq k c.entries ≡ none =
        ground (arith, v.same k, Option-cases (find eq k c.entries)) in
      let kept = remove-absent eq law k c.entries absent in
      record {
        same = λ j. ground (
          arith,
          contains-append eq law j c.order (k ∷ []),
          find-insert eq law j k w c.entries,
          v.same j,
        );
        distinct = IsDistinct-push eq law k c.order n v.distinct;
        distinct_keys = rw kept (ground (arith, contains-keys eq law k c.entries, v.distinct_keys));
        size = rw kept (omega (arith, v.size, length-append c.order (k ∷ [])));
        bound = omega (arith, length-append c.order (k ∷ []));
      }

  evict-contains :
      (j : K) (order : List K) (c : Cache K V)
      → c.order ≡ order
      → contains eq j c.order ≡ false
      → contains eq j (evict eq order c).order ≡ false
  unfolding evict
  evict-contains j [] c e h = h
  evict-contains j (oldest ∷ rest) c e h = ground (arith, ap (contains eq j) e)

  pub make_room-contains :
      (j : K) (c : Cache K V)
      → contains eq j c.order ≡ false
      → contains eq j (make_room eq c).order ≡ false
  unfolding make_room
  make_room-contains j c h = ground (arith, evict-contains j c.order c refl)

  pub evict-capacity : (order : List K) (c : Cache K V) → (evict eq order c).capacity ≡ c.capacity
  unfolding evict
  evict-capacity [] c = refl
  evict-capacity (oldest ∷ rest) c = refl

  pub make_room-capacity : (c : Cache K V) → (make_room eq c).capacity ≡ c.capacity
  unfolding make_room
  make_room-capacity c = ground (arith, evict-capacity c.order c)

  -- A new key goes in at the end, after an eviction where the cache is full.
  pub add-IsCache :
      (k : K) (w : V) (c : Cache K V)
      → 0 < c.capacity
      → find eq k c.entries ≡ none
      → IsCache eq c
      → IsCache eq (push eq k w (make_room eq c))
  add-IsCache k w c h e v =
      let (room, less) = make_room-IsCache c h v in
      push-IsCache k w (make_room eq c) (rw (make_room-capacity c) less)
        (make_room-contains k c (v.same k ∙ ap is_some e)) room

  pub get_or_parse-hit :
      (parse : K → Result V) (k : K) (w : V) (c : Cache K V)
      → find eq k c.entries ≡ some w
      → get_or_parse eq parse k c ≡ (ok w, touch eq k c)
  unfolding get_or_parse
  get_or_parse-hit parse k w c e = rw (e, get_or_parse) refl

  pub get_or_parse-miss :
      (parse : K → Result V) (k : K) (c : Cache K V)
      → find eq k c.entries ≡ none
      → get_or_parse eq parse k c ≡ after_parse eq k c (parse k)
  unfolding get_or_parse
  get_or_parse-miss parse k c e = rw (e, get_or_parse) refl

  pub get_or_parse-IsCache :
      (parse : K → Result V) (k : K) (c : Cache K V)
      → 0 < c.capacity
      → IsCache eq c
      → IsCache eq (get_or_parse eq parse k c).1
  unfolding after_parse
  get_or_parse-IsCache parse k c h v = elim (Option-cases (find eq k c.entries)) [
    | inr (w, e) ↦
        rw (get_or_parse-hit parse k w c e) (touch-IsCache k c (v.same k ∙ ap is_some e) v)
    | inl e ↦ rw (get_or_parse-miss parse k c e) (parsed (parse k) e)
  ]
    where
      parsed : (r : Result V) → find eq k c.entries ≡ none → IsCache eq (after_parse eq k c r).1
      parsed (err _) e = v
      parsed (ok w) e = add-IsCache k w c h e v

  pub get_cached-IsCache : (k : K) (c : Cache K V) → IsCache eq c → IsCache eq (get_cached eq k c).1
  unfolding get_cached
  get_cached-IsCache k c v = elim (Option-cases (find eq k c.entries)) [
    | inr (w, e) ↦ rw (e, get_cached) (touch-IsCache k c (v.same k ∙ ap is_some e) v)
    | inl e ↦ rw (e, get_cached) v
  ]

  overwrite-IsCache :
      (k : K) (w : V) (c : Cache K V)
      → contains eq k c.order ≡ true
      → IsCache eq c
      → IsCache eq (record c { entries = insert eq k w c.entries })
  unfolding insert
  overwrite-IsCache k w c h v =
      let one_less = length-remove eq law k c.entries v.distinct_keys (ground (arith, v.same k)) in
      record {
        same = λ j. ground (arith, find-insert eq law j k w c.entries, v.same j, v.same k, law k j);
        distinct = v.distinct;
        distinct_keys = (
          ground (
            arith,
            contains-keys eq law k (remove eq k c.entries),
            find-remove eq law k k c.entries,
            law k k,
          ),
          IsDistinct-remove eq law k c.entries v.distinct_keys,
        );
        size = omega (arith, v.size, one_less);
        bound = v.bound;
      }

  pub put-IsCache :
      (k : K) (w : V) (c : Cache K V) → 0 < c.capacity → IsCache eq c → IsCache eq (put eq k w c)
  unfolding put touch
  put-IsCache k w c h v = elim (Option-cases (find eq k c.entries)) [
    | inr (old, e) ↦
        let here = v.same k ∙ ap is_some e in
        rw (e, put)
          (overwrite-IsCache k w (touch eq k c)
            (ground (arith, contains-append eq law k (remove_first eq k c.order) (k ∷ []), law k k))
            (touch-IsCache k c here v))
    | inl e ↦ rw (e, put) (add-IsCache k w c h e v)
  ]

  pub get_or_parse-capacity :
      (parse : K → Result V) (k : K) (c : Cache K V)
      → (get_or_parse eq parse k c).1.capacity ≡ c.capacity
  unfolding after_parse touch push
  get_or_parse-capacity parse k c = elim (Option-cases (find eq k c.entries)) [
    | inr (w, e) ↦ rw (get_or_parse-hit parse k w c e) refl
    | inl e ↦ rw (get_or_parse-miss parse k c e) (parsed (parse k))
  ]
    where
      parsed : (r : Result V) → (after_parse eq k c r).1.capacity ≡ c.capacity
      parsed (err _) = refl
      parsed (ok w) = make_room-capacity c
