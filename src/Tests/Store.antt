-- ===== src/Tests/Store.antt =====
-- A store of two connectors, over a file that holds its rows as a list.
use rustium.Common.{
  ℕ, List, true, Option, none, some, [], ◌∷◌, ◌≡◌, refl, Str, str_eq, if◌then◌else◌, codes, ap, sym,
  ◌∙◌, ℕ_discrete,
}
use rustium.Core.Error.{Result, ok, err, state}
use rustium.Core.Json.{Json-discrete}
use rustium.Core.Position.{SourcePosition-discrete}
use rustium.Core.Event.{Checkpoint}
use rustium.Store.Sql.{Rows, Sqlite, SqliteLaws, effect, text_in}
use rustium.Store.{Serde, SerdeLaws, load, initialize}
use rustium.Store.Map.{Checkpoints, Change, saved, deleted}
use rustium.Store.Refine.{run, load-run}
use rustium.Store.Version.{Opens, initialize-Opens}
use rustium.Tests.Data.{at_lsn}

-- A file is its version and its rows, and a transaction the file that it began with and the rows
-- that it sees.
abbrev File : Type 0
File = ℕ × Rows

abbrev Transaction : Type 0
Transaction = File × Rows

abbrev listed : Sqlite
listed = record {
  File = File;
  Transaction = Transaction;
  rows = λ f. f.1;
  rows_in = λ t. t.1;
  create_parent = λ f. ok tt;
  open_connection = λ f. (ok tt, f);
  query_row = λ column name f. ok (text_in column (f.1 name));
  execute = λ statement f. (ok tt, (f.0, effect statement f.1));
  begin = λ f. ok (f, f.1);
  execute_in = λ statement t. (ok tt, (t.0, effect statement t.1));
  commit = λ t. (ok tt, (t.0.0, t.1));
  dropped = λ t. t.0;
  user_version = λ f. ok f.0;
  create_checkpoints = λ f. (ok tt, f);
  set_user_version = λ n f. (ok tt, (n, f.1));
}

abbrev shop_checkpoint : Str → ℕ → Checkpoint
shop_checkpoint name lsn = record {
  schema_version = 2;
  connector_name = name;
  generation = 0;
  source_position = at_lsn lsn 1;
  snapshot_completed = true;
  config_fingerprint = codes "f";
  updated_at = 1_000;
  connector_state = none;
}

abbrev first : Checkpoint
first = shop_checkpoint (codes "shop") 10

abbrev second : Checkpoint
second = shop_checkpoint (codes "shop") 20

Checkpoint-discrete : Discrete Checkpoint
Checkpoint-discrete = hlevel (ℕ_discrete, SourcePosition-discrete, Json-discrete)

-- The text of the two checkpoints; no other one is printed.
abbrev text_for : {c : Checkpoint} → Dec (c ≡ first) → Dec (c ≡ second) → Result Str
text_for (yes p) _ = ok (codes "1")
text_for (no n) (yes p) = ok (codes "2")
text_for (no n) (no m) = err (state "not printed")

abbrev read_back : Str → Result Checkpoint
read_back text = if str_eq text (codes "1") then ok first else ok second

abbrev two_texts : Serde
unfolding Checkpoint-discrete
two_texts = record {
  to_string = λ c. text_for (Checkpoint-discrete c first) (Checkpoint-discrete c second);
  from_str = read_back;
}

abbrev printed : Result Str → Str
printed (ok text) = text
printed (err e) = []

read_back-text_for :
    (c : Checkpoint) (d : Dec (c ≡ first)) (e : Dec (c ≡ second)) (text : Str)
    → text_for d e ≡ ok text
    → read_back text ≡ ok c
unfolding str_eq
read_back-text_for c (yes p) e text h = ap (λ r. read_back (printed r)) (sym h) ∙ ap ok (sym p)
read_back-text_for c (no n) (yes p) text h = ap (λ r. read_back (printed r)) (sym h) ∙ ap ok (sym p)
read_back-text_for c (no n) (no m) text h = cc

two_texts-SerdeLaws : SerdeLaws two_texts
unfolding two_texts Checkpoint-discrete str_eq
two_texts-SerdeLaws = record {
  from_str-to_string =
      λ c. read_back-text_for c (Checkpoint-discrete c first) (Checkpoint-discrete c second);
}

begun_with : (f : File) (t : Transaction) → ok (f, f.1) ≡ ok t → (f, f.1) ≡ t
begun_with f t h = cc

text_read : (a b : Option Str) → ok a ≡ ok b → b ≡ a
text_read a b h = cc

listed-SqliteLaws : SqliteLaws listed
listed-SqliteLaws = record {
  rows-open = λ f name. refl;
  text_of_row = λ column name f text h. text_read (text_in column (f.1 name)) text h;
  executed = λ statement f name. refl;
  begun = λ f t name h.
      let e = begun_with f t h in
      (ap (λ (u : Transaction). u.1 name) (sym e), ap (λ (u : Transaction). u.0.1 name) (sym e));
  executed_in = λ statement t name. refl;
  rolled_back = λ statement t name. refl;
  committed = λ t name. refl;
  version-open = λ f. refl;
  version-create = λ f. refl;
  version-set = λ n f. refl;
}

abbrev no_checkpoints : Checkpoints
no_checkpoints name = none

abbrev changes : List Change
changes = saved first ∷ saved second ∷ deleted (codes "other") ∷ []

-- Saved twice, and another connector deleted: the second checkpoint is loaded.
load-run_example :
    load listed two_texts
      (codes "shop")
      (run listed two_texts changes ((1, λ name. none), no_checkpoints)).0
    ≡ ok ((run listed two_texts changes ((1, λ name. none), no_checkpoints)).1 (codes "shop"))
unfolding run rustium.Store.save rustium.Store.save_in rustium.Store.save_text rustium.Store.delete
    rustium.Store.upsert rustium.Store.row_of rustium.Store.delete_from Checkpoint-discrete str_eq
    SourcePosition-discrete
load-run_example =
    load-run listed two_texts listed-SqliteLaws two_texts-SerdeLaws changes (1, λ name. none)
      no_checkpoints (codes "shop") (some (codes "2")) (λ name. refl) refl refl

-- A file of version 0 is raised, and one of version 2 is refused.
refused_newer : (initialize listed (2, λ name. none)).1 ≡ (2, λ name. none)
unfolding initialize rustium.Store.with_parent rustium.Store.with_version
    rustium.Store.checked_version
refused_newer = refl

initialize-Opens_example : Opens listed 0 (initialize listed (0, λ name. none))
initialize-Opens_example = initialize-Opens listed listed-SqliteLaws (0, λ name. none) 0 refl
