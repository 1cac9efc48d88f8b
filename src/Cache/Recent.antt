-- ===== src/Cache/Recent.antt =====
-- crates/rustium-format-avro/src/lib.rs and rustium-format-protobuf/src/lib.rs, `ParsedSchemaCache`:
-- which definitions the cache keeps.
use rustium.Common.{
  ℕ, ◌<◌, ◌≡◌, ◌↔◌, refl, ap, ◌∙◌, true, false, Bool, none, some, List, [], ◌∷◌, ◌++◌, arith,
  Option-cases, inl, inr, ◌⊎◌, Bool-cases, length, length-append, append_assoc, subst, ◌==◌,
}
use rustium.Common.Assoc.{find}
use rustium.Core.Error.{Result, ok, err}
use rustium.Cache.{
  Cache, new, evict, remove_first, touch, make_room, push, after_parse, get_or_parse,
}
use rustium.Cache.Keys.{
  is_some, remove_first-before, contains, IsDistinct, contains-remove_first, remove_first-append,
  length-remove_first, remove_first-absent, IsDistinct-append, IsDistinct-push,
  IsDistinct-remove_first,
}
use rustium.Cache.Valid.{
  IsCache, new-IsCache, get_or_parse-hit, get_or_parse-miss, get_or_parse-capacity,
  get_or_parse-IsCache, List-cases, make_room-capacity,
}
use rustium.Cache.Answers.{IsCoherent, get_or_parse-IsCoherent}

module _ {K V : Type 0} (eq : K → K → Bool) (parse : K → Result V) where
  -- The definitions that were parsed, each once, by their last request.
  abbrev pub noted : Result V → K → List K → List K
  noted (err e) k seen = seen
  noted (ok v) k seen = remove_first eq k seen ++ (k ∷ [])

  unfoldable pub history : List K → List K → List K
  history [] seen = seen
  history (k ∷ ks) seen = history ks (noted (parse k) k seen)

  -- The cache after the requests in turn.
  unfoldable pub after_requests : List K → Cache K V → Cache K V
  unfolding get_or_parse
  after_requests [] c = c
  after_requests (k ∷ ks) c = after_requests ks (get_or_parse eq parse k c).1

-- The queue is the end of the history, and all of it unless the cache is full.
abbrev pub Keeps : {K V : Type 0} → List K → Cache K V → Type 0
Keeps {K} seen c =
    (older : List K) × ((seen ≡ older ++ c.order) × ((older ≡ []) ⊎ (length c.order ≡ c.capacity)))

module _ {K V : Type 0} (eq : K → K → Bool) (law : (a b : K) → (eq a b ≡ true) ↔ (a ≡ b)) where
  touch-Keeps :
      (k : K) (seen : List K) (c : Cache K V)
      → contains eq k c.order ≡ true
      → IsDistinct eq seen
      → Keeps seen c
      → Keeps (remove_first eq k seen ++ (k ∷ [])) (touch eq k c)
  unfolding touch
  touch-Keeps k seen c h d (older, (e, full)) =
      let apart = IsDistinct-append eq law k older c.order (subst (IsDistinct eq) e d) h in
      let less = length-remove_first eq law k c.order h in
      (
        older,
        (
          ap (λ s. remove_first eq k s ++ (k ∷ [])) e
              ∙ ap (◌++ (k ∷ [])) (remove_first-append eq law k older c.order ∙ (rw apart refl))
              ∙ append_assoc older (remove_first eq k c.order) (k ∷ []),
          elim full [
            | inl none_older ↦ inl none_older
            | inr n ↦
                inr (omega (arith, n, less, length-append (remove_first eq k c.order) (k ∷ [])))
          ],
        ),
      )

  make_room-full :
      (oldest : K) (rest : List K) (c : Cache K V)
      → (length c.entries == c.capacity) ≡ true
      → c.order ≡ oldest ∷ rest
      → (make_room eq c).order ≡ rest
  unfolding make_room evict
  make_room-full oldest rest c full e = rw (full, make_room) (rw e refl)

  make_room-room : (c : Cache K V) → (length c.entries == c.capacity) ≡ false → make_room eq c ≡ c
  unfolding make_room
  make_room-room c room = rw (room, make_room) refl

  -- The oldest key leaves the full queue.
  full-Keeps :
      (k oldest : K) (v : V) (seen older rest : List K) (c : Cache K V)
      → contains eq k c.order ≡ false
      → (make_room eq c).order ≡ rest
      → c.order ≡ oldest ∷ rest
      → length c.order ≡ c.capacity
      → seen ≡ older ++ c.order
      → Keeps (remove_first eq k seen ++ (k ∷ [])) (push eq k v (make_room eq c))
  unfolding push
  full-Keeps k oldest v seen older rest c h m o n e =
      let left = remove_first eq k older in
      rw m (
        left ++ (oldest ∷ []),
        (
          ap (λ s. remove_first eq k s ++ (k ∷ [])) e
              ∙ ap (◌++ (k ∷ [])) (remove_first-before eq law k older c.order h ∙ ap (left ++◌) o)
              ∙ simp append_assoc refl,
          inr (
              omega
                (arith, n, ap length o, length-append rest (k ∷ []), make_room-capacity eq law c)),
        ),
      )

  room-Keeps :
      (k : K) (v : V) (seen : List K) (c : Cache K V)
      → contains eq k c.order ≡ false
      → seen ≡ c.order
      → Keeps (remove_first eq k seen ++ (k ∷ [])) (push eq k v c)
  unfolding push
  room-Keeps k v seen c h e = (
    [],
    (
      ap (◌++ (k ∷ [])) (ap (remove_first eq k) e ∙ remove_first-absent eq law k c.order h),
      inl refl,
    ),
  )

  push-Keeps :
      (k : K) (v : V) (seen : List K) (c : Cache K V)
      → contains eq k c.order ≡ false
      → IsCache eq c
      → 0 < c.capacity
      → Keeps seen c
      → Keeps (remove_first eq k seen ++ (k ∷ [])) (push eq k v (make_room eq c))
  push-Keeps k v seen c h valid pos (older, (e, full)) =
      elim (Bool-cases (length c.entries == c.capacity)) [
        | inr room ↦
            rw (make_room-room c room)
              (room-Keeps k v seen c h (e ∙ ap (◌++ c.order) (all_kept room full)))
        | inl at_capacity ↦ elim (List-cases c.order) [
          | inl none_kept ↦ absurd (ground (arith, valid.size, ap length none_kept))
          | inr (oldest, (rest, o)) ↦
              full-Keeps k oldest v seen older rest c h (make_room-full oldest rest c at_capacity o)
                o (ground (arith, valid.size)) e
        ]
      ]
    where
      all_kept :
          (length c.entries == c.capacity) ≡ false
          → (older ≡ []) ⊎ (length c.order ≡ c.capacity)
          → older ≡ []
      all_kept room (inl none_older) = none_older
      all_kept room (inr n) = absurd (ground (arith, valid.size))

  record Tracks (parse : K → Result V) (seen : List K) (c : Cache K V) : Type 0 where
    valid : IsCache eq c
    coherent : IsCoherent eq law parse c
    distinct : IsDistinct eq seen
    keeps : Keeps seen c

  hit-Tracks :
      (parse : K → Result V) (k : K) (w : V) (seen : List K) (c : Cache K V)
      → find eq k c.entries ≡ some w
      → Tracks parse seen c
      → Keeps (noted eq parse (parse k) k seen) (touch eq k c)
  hit-Tracks parse k w seen c e t =
      rw (t.coherent k w e)
        (touch-Keeps k seen c (t.valid.same k ∙ ap is_some e) t.distinct t.keeps)

  miss-Tracks :
      (parse : K → Result V) (k : K) (seen : List K) (c : Cache K V) (r : Result V)
      → find eq k c.entries ≡ none
      → 0 < c.capacity
      → Tracks parse seen c
      → Keeps (noted eq parse r k seen) (after_parse eq k c r).1
  unfolding after_parse
  miss-Tracks parse k seen c (err _) e pos t = t.keeps
  miss-Tracks parse k seen c (ok v) e pos t =
      push-Keeps k v seen c (t.valid.same k ∙ ap is_some e) t.valid pos t.keeps

  noted-IsDistinct :
      (parse : K → Result V) (k : K) (seen : List K) (r : Result V)
      → IsDistinct eq seen
      → IsDistinct eq (noted eq parse r k seen)
  noted-IsDistinct parse k seen (err _) d = d
  noted-IsDistinct parse k seen (ok v) d =
      IsDistinct-push eq law k (remove_first eq k seen)
        (ground (arith, contains-remove_first eq law k k seen d, law k k))
        (IsDistinct-remove_first eq law k seen d)

  request-Tracks :
      (parse : K → Result V) (k : K) (seen : List K) (c : Cache K V)
      → 0 < c.capacity
      → Tracks parse seen c
      → Tracks parse (noted eq parse (parse k) k seen) (get_or_parse eq parse k c).1
  request-Tracks parse k seen c pos t = record {
    valid = get_or_parse-IsCache eq law parse k c pos t.valid;
    coherent = (get_or_parse-IsCoherent eq law parse k c t.coherent).1;
    distinct = noted-IsDistinct parse k seen (parse k) t.distinct;
    keeps = elim (Option-cases (find eq k c.entries)) [
      | inr (w, e) ↦ rw (get_or_parse-hit eq law parse k w c e) (hit-Tracks parse k w seen c e t)
      | inl e ↦
          rw (get_or_parse-miss eq law parse k c e) (miss-Tracks parse k seen c (parse k) e pos t)
    ];
  }

  after_requests-Tracks :
      (parse : K → Result V) (ks seen : List K) (c : Cache K V)
      → 0 < c.capacity
      → Tracks parse seen c
      → Tracks parse (history eq parse ks seen) (after_requests eq parse ks c)
  unfolding history after_requests
  after_requests-Tracks parse [] seen c pos t = t
  after_requests-Tracks parse (k ∷ ks) seen c pos t =
      after_requests-Tracks parse ks (noted eq parse (parse k) k seen) (get_or_parse eq parse k c).1
        (rw (get_or_parse-capacity eq law parse k c) pos) (request-Tracks parse k seen c pos t)

  -- Where its capacity is positive, after every sequence of requests a cache has as many entries as
  -- queued keys, at most its capacity, and keeps exactly the definitions that were parsed and
  -- requested last: all of them unless the cache is full.
  pub after_requests-Keeps :
      (parse : K → Result V) (ks : List K) (capacity : ℕ)
      → 0 < capacity
      → IsCache eq (after_requests eq parse ks (new capacity))
        × Keeps (history eq parse ks []) (after_requests eq parse ks (new capacity))
  unfolding new find
  after_requests-Keeps parse ks capacity pos =
      let t = after_requests-Tracks parse ks [] (new capacity) pos (record {
        valid = new-IsCache eq law capacity;
        coherent = λ k v e. cc;
        distinct = tt;
        keeps = ([], (refl, inl refl));
      }) in
      (t.valid, t.keeps)
