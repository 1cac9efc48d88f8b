-- ===== src/Store/Refine.antt =====
-- crates/rustium-state/src/lib.rs: the store behaves as a map from connectors to checkpoints.
use rustium.Common.{
  List, [], ◌∷◌, Option, none, some, ◌≡◌, refl, ap, ◌∙◌, Bool-cases, inl, inr, Str, str_eq,
}
use rustium.Core.Error.{Result, ok, err, ◌>>=◌}
use rustium.Core.Event.{Checkpoint}
use rustium.Store.Sql.{
  StoredCheckpoint, schema_version, payload, updated_at_ms, upserted, Statement, insert_row,
  delete_rows, Rows, effect, text_in, Sqlite, SqliteLaws, After,
}
use rustium.Store.{
  Serde, SerdeLaws, Answer, ◌then◌, finished, row_of, upsert, delete_from, transposed, loaded, load,
  save_text, save_in, save, delete,
}
use rustium.Store.Map.{Checkpoints, Change, saved, deleted, change}

After-map :
    {A : Type 0} (P Q R S : A → Type 0) (x : Result (Unit {0}) × A)
    → ((a : A) → P a → R a)
    → ((a : A) → Q a → S a)
    → After P Q x
    → After R S x
After-map P Q R S (ok u, a) f g h = f a h
After-map P Q R S (err e, a) f g h = g a h

After-all :
    {A : Type 0} (P Q : Str → A → Type 0) (x : Result (Unit {0}) × A)
    → ((name : Str) → After (P name) (Q name) x)
    → After (λ a. (name : Str) → P name a) (λ a. (name : Str) → Q name a) x
After-all P Q (ok u, a) h = h
After-all P Q (err e, a) h = h

-- A statement looks at the row of each name alone.
effect-same :
    (statement : Statement) (rows others : Rows) (name : Str)
    → rows name ≡ others name
    → effect statement rows name ≡ effect statement others name
effect-same (insert_row row columns) rows others name h = rw h refl
effect-same (delete_rows none) rows others name h = refl
effect-same (delete_rows (some key)) rows others name h = rw h refl

module _ (sqlite : Sqlite) (serde : Serde) where
  abbrev pub perform : Change → sqlite.File → Answer sqlite
  perform (saved c) = save sqlite serde c
  perform (deleted name) = delete sqlite name

  abbrev pub noted : Change → Result (Unit {0}) → Checkpoints → Checkpoints
  noted c (err e) m = m
  noted c (ok _) m = change c m

  -- The file after a sequence of calls, and the map after those of them that succeed.
  unfoldable pub run : List Change → sqlite.File × Checkpoints → sqlite.File × Checkpoints
  run [] s = s
  run (c ∷ changes) (file, m) = run changes ((perform c file).1, noted c (perform c file).0 m)

  -- Every connector's row, if any, is the text of the checkpoint that the map has.
  abbrev pub Refines : sqlite.File → Checkpoints → Type 0
  Refines file m =
      (name : Str) → transposed sqlite serde (text_in payload (sqlite.rows file name)) ≡ ok (m name)

  abbrev Same : sqlite.File → sqlite.File → Type 0
  Same f g = (name : Str) → sqlite.rows g name ≡ sqlite.rows f name

  abbrev Performs : Statement → sqlite.File → sqlite.File → Type 0
  Performs statement f g = (name : Str) → sqlite.rows g name ≡ effect statement (sqlite.rows f) name

  -- The row of the checkpoint's text was written.
  abbrev Saved : Checkpoint → sqlite.File → sqlite.File → Type 0
  Saved c f g =
      (text : Str) × ((serde.to_string c ≡ ok text) × Performs (upsert (row_of c text)) f g)

  then-After :
      (P Q : sqlite.File → Type 0) (f : sqlite.File) (a : Answer sqlite)
      (next : sqlite.File → Answer sqlite)
      → Q a.1
      → ((g : sqlite.File) → Q g → After P Q (next g))
      → After P Q (◌then◌ sqlite a next)
  then-After P Q f (err e, g) next h k = h
  then-After P Q f (ok u, g) next h k = k g h

  module _ (laws : SqliteLaws sqlite) (text : SerdeLaws serde) where
    finished-After :
        (statement : Statement) (f : sqlite.File) (x : Result (Unit {0}) × sqlite.Transaction)
        → After
            (λ u. (name : Str) → sqlite.rows_in u name ≡ effect statement (sqlite.rows f) name)
            (λ u. Unit)
            x
        → Same f (sqlite.dropped x.1)
        → After (Performs statement f) (Same f) (finished sqlite x)
    finished-After statement f (err e, u) done back = back
    finished-After statement f (ok _, u) done back =
        After-map _ _ _ _ (sqlite.commit u) (λ g h name. h name ∙ done name)
          (λ g h name. h name ∙ back name) (After-all _ _ (sqlite.commit u) (laws.committed u))

    save_text-After :
        (c : Checkpoint) (f : sqlite.File) (p : Result Str) (t : sqlite.Transaction)
        → serde.to_string c ≡ p
        → ((name : Str)
            → (sqlite.rows_in t name ≡ sqlite.rows f name)
              × (sqlite.rows (sqlite.dropped t) name ≡ sqlite.rows f name))
        → After (Saved c f) (Same f) (save_text sqlite serde c p t)
    unfolding save_text
    save_text-After c f (err e) t h b = λ name. (b name).1
    save_text-After c f (ok s) t h b =
        let statement = upsert (row_of c s) in
        After-map _ _ _ _ (finished sqlite (sqlite.execute_in statement t)) (λ g k. (s, (h, k)))
          (λ g k. k)
          (finished-After statement f (sqlite.execute_in statement t)
            (After-map _ _ _ _ (sqlite.execute_in statement t)
              (λ u k name.
                k name ∙ effect-same statement (sqlite.rows_in t) (sqlite.rows f) name (b name).0)
              (λ u k. tt)
              (After-all _ _ (sqlite.execute_in statement t) (laws.executed_in statement t)))
            (λ name. laws.rolled_back statement t name ∙ (b name).1))

    save_in-After :
        (c : Checkpoint) (f g : sqlite.File) (r : Result sqlite.Transaction)
        → sqlite.begin g ≡ r
        → Same f g
        → After (Saved c f) (Same f) (save_in sqlite serde c r g)
    unfolding save_in
    save_in-After c f g (err e) h same = same
    save_in-After c f g (ok t) h same =
        save_text-After c f (serde.to_string c) t refl
          (λ name. let (seen, back) = laws.begun g t name h in (seen ∙ same name, back ∙ same name))

    save-After :
        (c : Checkpoint) (f : sqlite.File) → After (Saved c f) (Same f) (save sqlite serde c f)
    unfolding save
    save-After c f =
        then-After _ _ f (sqlite.open_connection f) _ (laws.rows-open f)
          (λ g same. save_in-After c f g (sqlite.begin g) refl same)

    delete-After :
        (name : Str) (f : sqlite.File)
        → After (Performs (delete_from name) f) (Same f) (delete sqlite name f)
    unfolding delete
    delete-After name f =
        then-After _ _ f (sqlite.open_connection f) _ (laws.rows-open f) (λ g same.
          After-map _ _ _ _ (sqlite.execute (delete_from name) g)
            (λ k h other.
              h other
              ∙ effect-same (delete_from name) (sqlite.rows g) (sqlite.rows f) other (same other))
            (λ k h other. h other ∙ same other)
            (After-all _ _ (sqlite.execute (delete_from name) g)
              (laws.executed (delete_from name) g)))

    Same-Refines : (f g : sqlite.File) (m : Checkpoints) → Refines f m → Same f g → Refines g m
    Same-Refines f g m h same name =
        ap (λ r. transposed sqlite serde (text_in payload r)) (same name) ∙ h name

    -- A row has the checkpoint's text, whether there was one before or not.
    stored :
        (c : Checkpoint) (s : Str)
        → serde.to_string c ≡ ok s
        → (old : Option StoredCheckpoint)
        → transposed sqlite serde (
            text_in payload
              (some (upserted (schema_version ∷ payload ∷ updated_at_ms ∷ []) (row_of c s) old)))
          ≡ ok (some c)
    unfolding row_of
    stored c s printed none = rw (text.from_str-to_string c s printed) refl
    stored c s printed (some old) = rw (text.from_str-to_string c s printed) refl

    Saved-Refines :
        (c : Checkpoint) (f g : sqlite.File) (m : Checkpoints)
        → Refines f m
        → Saved c f g
        → Refines g (change (saved c) m)
    unfolding upsert row_of
    Saved-Refines c f g m h (s, (printed, written)) name =
        ap (λ r. transposed sqlite serde (text_in payload r)) (written name)
        ∙ elim (Bool-cases (str_eq c.connector_name name)) [
          | inl here ↦ rw here (stored c s printed (sqlite.rows f name))
          | inr apart ↦ rw apart (h name)
        ]

    Deleted-Refines :
        (gone : Str) (f g : sqlite.File) (m : Checkpoints)
        → Refines f m
        → Performs (delete_from gone) f g
        → Refines g (change (deleted gone) m)
    unfolding delete_from
    Deleted-Refines gone f g m h removed name =
        ap (λ r. transposed sqlite serde (text_in payload r)) (removed name)
        ∙ elim (Bool-cases (str_eq gone name)) [
          | inl here ↦ rw here refl
          | inr apart ↦ rw apart (h name)
        ]

    perform-After :
        (c : Change) (f : sqlite.File) (m : Checkpoints)
        → Refines f m
        → After (λ g. Refines g (change c m)) (λ g. Refines g m) (perform c f)
    perform-After (saved c) f m h =
        After-map _ _ _ _ (save sqlite serde c f) (λ g. Saved-Refines c f g m h)
          (λ g. Same-Refines f g m h) (save-After c f)
    perform-After (deleted name) f m h =
        After-map _ _ _ _ (delete sqlite name f) (λ g. Deleted-Refines name f g m h)
          (λ g. Same-Refines f g m h) (delete-After name f)

    noted-Refines :
        (c : Change) (m : Checkpoints) (a : Answer sqlite)
        → After (λ g. Refines g (change c m)) (λ g. Refines g m) a
        → Refines a.1 (noted c a.0 m)
    noted-Refines c m (err e, g) h = h
    noted-Refines c m (ok _, g) h = h

    run-Refines :
        (changes : List Change) (f : sqlite.File) (m : Checkpoints)
        → Refines f m
        → (let (g, n) = run changes (f, m) in Refines g n)
    unfolding run
    run-Refines [] f m h = h
    run-Refines (c ∷ changes) f m h =
        run-Refines changes _ _ (noted-Refines c m (perform c f) (perform-After c f m h))

    loaded-eq :
        (name : Str) (a : Answer sqlite) (m : Checkpoints) (s : Option Str)
        → Refines a.1 m
        → a.0 ≡ ok tt
        → sqlite.query_row payload name a.1 ≡ ok s
        → loaded sqlite serde name a ≡ ok (m name)
    loaded-eq name (err e, g) m s h o q = cc
    loaded-eq name (ok _, g) m s h o q =
        ap (◌>>= transposed sqlite serde) q
        ∙ ap (transposed sqlite serde) (laws.text_of_row payload name g s q)
        ∙ h name

    -- Where SQLite does what it documents of statements and transactions, and serde_json reads what
    -- it wrote, the store refines a map from connectors to checkpoints: from a file that holds the
    -- map on, after any sequence of saves and deletes, of which those that fail leave the map as it
    -- was, loading a connector's checkpoint gives what the map has, where the connection opens and
    -- the query returns.
    pub load-run :
        (changes : List Change) (f : sqlite.File) (m : Checkpoints) (name : Str) (s : Option Str)
        → Refines f m
        → (sqlite.open_connection (run changes (f, m)).0).0 ≡ ok tt
        → sqlite.query_row payload name (sqlite.open_connection (run changes (f, m)).0).1 ≡ ok s
        → load sqlite serde name (run changes (f, m)).0 ≡ ok ((run changes (f, m)).1 name)
    unfolding load
    load-run changes f m name s h o q =
        let file = (run changes (f, m)).0 in
        loaded-eq name (sqlite.open_connection file) (run changes (f, m)).1 s
          (Same-Refines file (sqlite.open_connection file).1 (run changes (f, m)).1
            (run-Refines changes f m h) (laws.rows-open file))
          o q
