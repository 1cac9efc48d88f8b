-- ===== src/Postgres/Window/Rows.antt =====
-- crates/rustium-postgresql/src/incremental_snapshot.rs: which rows the window of a chunk has after
-- it was read, and after a streamed event.
use rustium.Common.{
  ◌≡◌, refl, sym, ap, ◌∙◌, inl, inr, Bool, true, false, ◌||◌, Option, none, some, List, [], ◌∷◌,
  Str, str_eq, str_eq_iff, Bool-cases, if◌then◌else◌, get, arith,
}
use rustium.Core.Event.{DataValue, Row, ChangeEvent}
use rustium.Postgres.Controller.{TableSchema, Controller}
use rustium.Postgres.Window.{
  index_insert, shift_remove, remove_row, insert_keyed, row_key, opt_row_key, collect_window,
  is_of_table, deduplicate_in, deduplicate, window_after,
}

-- No key twice.
abbrev pub IsMap : List (Str × Row) → Type 0
IsMap [] = Unit
IsMap ((k, r) ∷ m) = (get k m ≡ none) × IsMap m

-- Equality of keys, as facts for `ground`.
str_eq_of_both : (x k key : Str) → str_eq x key ≡ true → str_eq key k ≡ true → str_eq x k ≡ true
str_eq_of_both x k key e f = ground (arith, str_eq_iff x key, str_eq_iff key k, str_eq_iff x k)

str_eq_of_left : (x k key : Str) → str_eq x key ≡ true → str_eq key k ≡ false → str_eq x k ≡ false
str_eq_of_left x k key e f = ground (arith, str_eq_iff x key, str_eq_iff key k, str_eq_iff x k)

str_eq_of_right : (x k key : Str) → str_eq x key ≡ false → str_eq x k ≡ true → str_eq key k ≡ false
str_eq_of_right x k key e f = ground (arith, str_eq_iff x key, str_eq_iff key k, str_eq_iff x k)

str_eq_flip : (x key : Str) → str_eq x key ≡ false → str_eq key x ≡ false
str_eq_flip x key e = ground (arith, str_eq_iff x key, str_eq_iff key x)

get-eq : (x k : Str) (m : List (Str × Row)) → str_eq x k ≡ true → get x m ≡ get k m
get-eq x k m e = ap (λ y. get y m) ((str_eq_iff x k).0 e)

get-index_insert_other :
    (k key : Str) (row : Row) (m : List (Str × Row))
    → str_eq key k ≡ false
    → get k (index_insert key row m) ≡ get k m
unfolding index_insert get
get-index_insert_other k key row [] other = rw other refl
get-index_insert_other k key row ((x, r) ∷ m) other = elim (Bool-cases (str_eq x key)) [
  | inl same ↦ rw (same, other, str_eq_of_left x k key same other) refl
  | inr differs ↦ elim (Bool-cases (str_eq x k)) [
    | inl e ↦ rw (differs, e) refl
    | inr e ↦ rw (differs, e) (get-index_insert_other k key row m other)
  ]
]

index_insert-IsMap :
    (key : Str) (row : Row) (m : List (Str × Row)) → IsMap m → IsMap (index_insert key row m)
unfolding index_insert get
index_insert-IsMap key row [] h = (refl, tt)
index_insert-IsMap key row ((x, r) ∷ m) h = elim (Bool-cases (str_eq x key)) [
  | inl same ↦ rw same (sym (get-eq x key m same) ∙ h.0, h.1)
  | inr differs ↦ rw differs (
    get-index_insert_other x key row m (str_eq_flip x key differs) ∙ h.0,
    index_insert-IsMap key row m h.1,
  )
]

get-shift_remove :
    (k key : Str) (m : List (Str × Row))
    → IsMap m
    → get k (shift_remove key m) ≡ (if str_eq key k then none else get k m)
unfolding shift_remove get
get-shift_remove k key [] h = elim (Bool-cases (str_eq key k)) [
  | inl e ↦ rw e refl
  | inr e ↦ rw e refl
]
get-shift_remove k key ((x, r) ∷ m) h = elim (Bool-cases (str_eq x key)) [
  | inl same ↦ elim (Bool-cases (str_eq key k)) [
    | inl e ↦ rw (same, e) (sym (get-eq x k m (str_eq_of_both x k key same e)) ∙ h.0)
    | inr e ↦ rw (same, e, str_eq_of_left x k key same e) refl
  ]
  | inr differs ↦ elim (Bool-cases (str_eq x k)) [
    | inl e ↦ rw (differs, e, str_eq_of_right x k key differs e) refl
    | inr e ↦ rw (differs, e) (get-shift_remove k key m h.1)
  ]
]

shift_remove-IsMap : (key : Str) (m : List (Str × Row)) → IsMap m → IsMap (shift_remove key m)
unfolding shift_remove
shift_remove-IsMap key [] h = tt
shift_remove-IsMap key ((x, r) ∷ m) h = elim (Bool-cases (str_eq x key)) [
  | inl same ↦ rw same h.1
  | inr differs ↦
      rw differs (gone x (get-shift_remove x key m h.1) h.0, shift_remove-IsMap key m h.1)
]
  where
    gone :
        (x : Str)
        → get x (shift_remove key m) ≡ (if str_eq key x then none else get x m)
        → get x m ≡ none
        → get x (shift_remove key m) ≡ none
    gone x e f = ground arith

abbrev pub is_key : Option Str → Str → Bool
is_key none k = false
is_key (some key) k = str_eq key k

remove_row-IsMap : (o : Option Str) (m : List (Str × Row)) → IsMap m → IsMap (remove_row o m)
remove_row-IsMap none m h = h
remove_row-IsMap (some key) m h = shift_remove-IsMap key m h

get-remove_row :
    (k : Str) (o : Option Str) (m : List (Str × Row))
    → IsMap m
    → get k (remove_row o m) ≡ (if is_key o k then none else get k m)
get-remove_row k none m h = refl
get-remove_row k (some key) m h = get-shift_remove k key m h

get-remove_both :
    (k : Str) (before after : Option Str) (m : List (Str × Row))
    → IsMap m
    → get k (remove_row after (remove_row before m))
      ≡ (if is_key after k || is_key before k then none else get k m)
get-remove_both k before after m h =
    get-remove_row k after _ (remove_row-IsMap before m h)
    ∙ none_or _ _ (is_key after k) (is_key before k) (get-remove_row k before m h)
  where
    none_or :
        (a b : Option Row) (p q : Bool)
        → a ≡ (if q then none else b)
        → (if p then none else a) ≡ (if p || q then none else b)
    none_or a b true q e = refl
    none_or a b false q e = e

module _ (to_text : List DataValue → Option Str) where
  insert_keyed-IsMap :
      (o : Option Str) (row : Row) (m : List (Str × Row))
      → IsMap m
      → IsMap (insert_keyed to_text o row m)
  insert_keyed-IsMap none row m h = h
  insert_keyed-IsMap (some key) row m h = index_insert-IsMap key row m h

  -- Collecting a chunk's rows into a window that has no key twice gives a window that has no key
  -- twice.
  collect_window-IsMap :
      (rows : List Row) (schema : TableSchema) (m : List (Str × Row))
      → IsMap m
      → IsMap (collect_window to_text rows schema m)
  unfolding collect_window
  collect_window-IsMap [] schema m h = h
  collect_window-IsMap (row ∷ rows) schema m h =
      collect_window-IsMap rows schema _ (insert_keyed-IsMap (row_key to_text row schema) row m h)

  window_after-get :
      (o : Option TableSchema) (schema : TableSchema) (event : ChangeEvent) (m : List (Str × Row))
      (k : Str)
      → o ≡ some schema
      → is_of_table to_text event schema ≡ true
      → IsMap m
      → get k (window_after to_text o event m) ≡ (
          if is_key (opt_row_key to_text event.after schema) k
            || is_key (opt_row_key to_text event.before schema) k
          then none
          else get k m)
  unfolding deduplicate_in
  window_after-get o schema event m k e table h =
      ap (λ p. get k (window_after to_text p event m)) e
      ∙ rw table (get-remove_both k (opt_row_key to_text event.before schema) _ m h)

  -- Where a window is open on a table's chunk and has no key twice, an event of that table removes
  -- the rows that have the key of its row before or after the change, and leaves the row of every
  -- other key as it is.
  pub get-deduplicate :
      (schema : TableSchema) (event : ChangeEvent) (c : Controller) (k : Str)
      → c.window_open ≡ true
      → c.current_schema ≡ some schema
      → is_of_table to_text event schema ≡ true
      → IsMap c.window
      → get k (deduplicate to_text event c).window ≡ (
          if is_key (opt_row_key to_text event.after schema) k
            || is_key (opt_row_key to_text event.before schema) k
          then none
          else get k c.window)
  unfolding deduplicate
  get-deduplicate schema event c k is_open here table h =
      simp is_open (window_after-get c.current_schema schema event c.window k here table h)
