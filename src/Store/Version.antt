-- ===== src/Store/Version.antt =====
-- crates/rustium-state/src/lib.rs: the version of the storage schema when a store is opened.
use rustium.Common.{ℕ, subst, ltb, false, Bool-cases, inl, inr, ◌≡◌, ◌≤◌, arith, sym, ◌∙◌, ap}
use rustium.Core.Error.{Result, ok, err}
use rustium.Store.Sql.{Sqlite, SqliteLaws, After}
use rustium.Store.{Answer, ◌then◌, checked_version, raised, with_version, with_parent, initialize}

ok_inj : {A : Type 0} {a b : A} → ok a ≡ ok b → a ≡ b
ok_inj h = cc

module _ (sqlite : Sqlite) where
  -- A store that is opened had no newer version and has the supported one; one that is refused has
  -- the version that it had.
  abbrev pub Opens : ℕ → Answer sqlite → Type 0
  Opens v (ok _, g) = (v ≤ 1) × (sqlite.user_version g ≡ ok 1)
  Opens v (err e, g) = sqlite.user_version g ≡ ok v

  then-Opens :
      (v : ℕ) (a : Answer sqlite) (next : sqlite.File → Answer sqlite)
      → sqlite.user_version a.1 ≡ ok v
      → ((g : sqlite.File) → sqlite.user_version g ≡ ok v → Opens v (next g))
      → Opens v (◌then◌ sqlite a next)
  then-Opens v (err e, g) next h k = h
  then-Opens v (ok u, g) next h k = k g h

  module _ (laws : SqliteLaws sqlite) where
    set-Opens :
        (v : ℕ) (f : sqlite.File) (a : Answer sqlite)
        → v ≤ 1
        → sqlite.user_version f ≡ ok v
        → After
            (λ g. sqlite.user_version g ≡ ok 1)
            (λ g. sqlite.user_version g ≡ sqlite.user_version f)
            a
        → Opens v a
    set-Opens v f (ok u, g) small h k = (small, k)
    set-Opens v f (err e, g) small h k = k ∙ h

    raised-Opens :
        (v : ℕ) (f : sqlite.File)
        → v ≤ 1
        → sqlite.user_version f ≡ ok v
        → Opens v (raised sqlite v f)
    unfolding raised
    raised-Opens v f small h = elim (Bool-cases (ltb v 1)) [
      | inl older ↦
          rw older (set-Opens v f (sqlite.set_user_version 1 f) small h (laws.version-set 1 f))
      | inr same ↦ rw same (small, h ∙ ap ok (is_one v small same))
    ]
      where
        is_one : (v : ℕ) → v ≤ 1 → ltb v 1 ≡ false → v ≡ 1
        is_one v small same = ground arith

    of_version :
        (v : ℕ) (f : sqlite.File)
        → sqlite.user_version f ≡ ok v
        → Opens v (with_version sqlite (ok v) f)
    unfolding with_version checked_version
    of_version v f h = elim (Bool-cases (ltb 1 v)) [
      | inl newer ↦ rw newer h
      | inr supported ↦ rw supported (
          then-Opens v (sqlite.create_checkpoints f) _ (laws.version-create f ∙ h)
            (λ g k. raised-Opens v g (at_most_one v supported) k))
    ]
      where
        at_most_one : (v : ℕ) → ltb 1 v ≡ false → v ≤ 1
        at_most_one v supported = ground arith

    with_version-Opens :
        (v : ℕ) (r : Result ℕ) (f : sqlite.File)
        → r ≡ ok v
        → sqlite.user_version f ≡ ok v
        → Opens v (with_version sqlite r f)
    unfolding with_version checked_version
    with_version-Opens v (err e) f r h = cc
    with_version-Opens v (ok w) f r h =
        subst (λ k. Opens v (with_version sqlite (ok k) f)) (sym (ok_inj r)) (of_version v f h)

    -- Where SQLite does what it documents of the version of a file, and the storage version of a
    -- file can be read, a store is opened on the file only if that version is at most the one that
    -- the program supports, and the file then has the supported one. Where the opening fails, the
    -- file keeps its version.
    pub initialize-Opens :
        (f : sqlite.File) (v : ℕ) → sqlite.user_version f ≡ ok v → Opens v (initialize sqlite f)
    unfolding initialize with_parent
    initialize-Opens f v h = created (sqlite.create_parent f)
      where
        created : (r : Result (Unit {0})) → Opens v (with_parent sqlite r f)
        created (err e) = h
        created (ok u) =
            then-Opens v (sqlite.open_connection f) _ (laws.version-open f ∙ h)
              (λ g k. with_version-Opens v (sqlite.user_version g) g k k)
