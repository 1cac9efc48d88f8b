-- ===== src/Postgres/Controller/Completed.antt =====
-- crates/rustium-postgresql/src/incremental_snapshot.rs: `remember_completed` on the list of
-- completed signals.
use rustium.Common.{
  ℕ, ◌+◌, ◌≤◌, ◌<◌, ltb→lt, ◌≡◌, refl, inl, inr, true, false, List, [], ◌∷◌, ◌++◌, Str, str_eq,
  str_eq_iff, arith, Bool-cases, ltb, length, length-append,
}
use rustium.Postgres.Controller.{
  max_completed_signal_ids, remove_id, drop_oldest, remembered, contains,
}

abbrev pub Distinct : List Str → Type 0
Distinct [] = Unit
Distinct (x ∷ xs) = (contains x xs ≡ false) × Distinct xs

contains-remove_id :
    (y id : Str) (xs : List Str) → contains y xs ≡ false → contains y (remove_id id xs) ≡ false
unfolding remove_id
contains-remove_id y id [] h = refl
contains-remove_id y id (x ∷ xs) h = ground (arith, contains-remove_id y id xs)

remove_id-Distinct : (id : Str) (xs : List Str) → Distinct xs → Distinct (remove_id id xs)
unfolding remove_id
remove_id-Distinct id [] h = tt
remove_id-Distinct id (x ∷ xs) h =
    ground (arith, remove_id-Distinct id xs h.1, contains-remove_id x id xs h.0)

contains-remove_id_self :
    (id : Str) (xs : List Str) → Distinct xs → contains id (remove_id id xs) ≡ false
unfolding remove_id
contains-remove_id_self id [] h = refl
contains-remove_id_self id (x ∷ xs) h =
    ground (arith, contains-remove_id_self id xs h.1, str_eq_iff x id)

contains-append :
    (y id : Str) (xs : List Str)
    → contains y xs ≡ false
    → str_eq id y ≡ false
    → contains y (xs ++ id ∷ []) ≡ false
contains-append y id [] h k = ground arith
contains-append y id (x ∷ xs) h k = ground (arith, contains-append y id xs)

ne_of_contains : (x id : Str) (xs : List Str) → contains id (x ∷ xs) ≡ false → str_eq id x ≡ false
ne_of_contains x id xs h = ground (arith, str_eq_iff x id, str_eq_iff id x)

append-Distinct :
    (id : Str) (xs : List Str) → Distinct xs → contains id xs ≡ false → Distinct (xs ++ id ∷ [])
append-Distinct id [] h k = (refl, tt)
append-Distinct id (x ∷ xs) h k = (
  contains-append x id xs h.0 (ne_of_contains x id xs k),
  append-Distinct id xs h.1 (ground arith),
)

drop_oldest-Distinct : (xs : List Str) → Distinct xs → Distinct (drop_oldest xs)
drop_oldest-Distinct [] h = tt
drop_oldest-Distinct (x ∷ xs) h = h.1

length-remove_id : (id : Str) (xs : List Str) → length (remove_id id xs) ≤ length xs
unfolding remove_id
length-remove_id id [] = omega arith
length-remove_id id (x ∷ xs) = ground (arith, length-remove_id id xs)

pub record IsHistory (ids : List Str) : Type 0 where
  pub bounded : length ids ≤ max_completed_signal_ids
  pub distinct : Distinct ids

length-drop_oldest : (xs : List Str) (n : ℕ) → length xs ≤ n + 1 → length (drop_oldest xs) ≤ n
length-drop_oldest [] n h = omega arith
length-drop_oldest (x ∷ xs) n h = omega arith

-- Completing a signal keeps the history of completed signals at 1,024 ids at most and without
-- duplicates.
pub remembered-IsHistory :
    (id : Str) (ids : List Str) → IsHistory ids → IsHistory (remembered id ids)
unfolding remembered
remembered-IsHistory id ids h =
    let all = remove_id id ids ++ id ∷ [] in
    let distinct : Distinct all =
      append-Distinct id (remove_id id ids) (remove_id-Distinct id ids h.distinct)
        (contains-remove_id_self id ids h.distinct) in
    let short : length all ≤ max_completed_signal_ids + 1 =
      omega
        (arith, length-append (remove_id id ids) (id ∷ []), length-remove_id id ids, h.bounded) in
    elim (Bool-cases (ltb max_completed_signal_ids (length all))) [
      | inl long ↦ rw long (record {
        bounded = length-drop_oldest all max_completed_signal_ids short;
        distinct = drop_oldest-Distinct all distinct;
      })
      | inr fits ↦ rw fits (record { bounded = ground arith; distinct = distinct })
    ]

contains-append_self : (id : Str) (xs : List Str) → contains id (xs ++ id ∷ []) ≡ true
contains-append_self id [] = ground (arith, str_eq_iff id id)
contains-append_self id (x ∷ xs) = ground (arith, contains-append_self id xs)

contains-drop_oldest :
    (id : Str) (xs : List Str)
    → max_completed_signal_ids < length (xs ++ id ∷ [])
    → contains id (drop_oldest (xs ++ id ∷ [])) ≡ true
contains-drop_oldest id [] h = absurd (omega arith)
contains-drop_oldest id (x ∷ xs) h = contains-append_self id xs

-- The signal that was just completed is in the history.
contains-remembered : (id : Str) (ids : List Str) → contains id (remembered id ids) ≡ true
unfolding remembered
contains-remembered id ids =
    let all = remove_id id ids ++ id ∷ [] in
    elim (Bool-cases (ltb max_completed_signal_ids (length all))) [
      | inl long ↦ rw long (contains-drop_oldest id (remove_id id ids) (ltb→lt _ _ long))
      | inr fits ↦ rw fits (contains-append_self id (remove_id id ids))
    ]
