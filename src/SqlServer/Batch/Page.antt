-- ===== src/SqlServer/Batch/Page.antt =====
-- crates/rustium-sqlserver/src/source.rs: what `read_change_batch` reads of a log.
use native.Mathlib.Nat.{min-eq_left}
use rustium.Common.{
  ℕ, zero, suc, ◌+◌, ◌-◌, ◌^◌, ◌<◌, Option, none, some, List, [], ◌∷◌, map, min, get_elem?, ◌≡◌,
  refl, ◌∙◌, arith, is_empty, if◌then◌else◌,
}
use rustium.Core.Error.{ok}
use rustium.SqlServer.Lsn.{Bytes}
use rustium.SqlServer.Stream.{RawChange, StreamingState, CdcCursor}
use rustium.SqlServer.Change.{TdsRow, Parts, Stream, required_binary, raw_change}
use rustium.SqlServer.Batch.{
  Step, take, complete_last_commit, process_changes, raw_changes, lookahead_commit, end_of_log,
  process_rows, read_change_batch,
}
use rustium.SqlServer.Batch.Cursor.{rows_after}

min-lookahead : (n : ℕ) → n + 1 < 2 ^ 64 → min (n + 1) (2 ^ 64 - 1) ≡ suc n
min-lookahead n h = min-eq_left (omega arith) ∙ (omega arith)

module _ (parts : Parts) (stream : Stream) (row_of : RawChange → TdsRow) where
  -- The driver's row of each change reads as that change.
  abbrev pub Decodes : List RawChange → Type 0
  Decodes [] = Unit
  Decodes (c ∷ rest) =
      (raw_change parts stream (row_of c) ≡ ok c)
      × ((required_binary (row_of c).commit_lsn ≡ ok c.commit_lsn) × Decodes rest)

  -- The server answers the query with the first rows of the log after the cursor.
  abbrev pub Answers : Bytes → List RawChange → Type 0
  Answers max_lsn log =
      (cursor : CdcCursor) (limit : ℕ)
      → parts.query cursor max_lsn limit ≡ ok (map row_of (take limit (rows_after cursor log)))

  abbrev pub commit_at : Option RawChange → Option Bytes
  commit_at none = none
  commit_at (some c) = some c.commit_lsn

  -- The next rows as one page.
  abbrev pub next_page : List RawChange → StreamingState → Step
  next_page rows s =
      let page = take stream.fetch_size rows in
      process_changes parts stream
        (complete_last_commit page (commit_at (get_elem? rows stream.fetch_size))) page s

  raw_changes-take :
      (n : ℕ) (rows : List RawChange)
      → Decodes rows
      → raw_changes parts stream (take n (map row_of (take (suc n) rows))) ≡ ok (take n rows)
  unfolding raw_changes take
  raw_changes-take zero rows h = refl
  raw_changes-take (suc n) [] h = refl
  raw_changes-take (suc n) (c ∷ rows) (d, (e, h)) = rw (d, raw_changes-take n rows h) refl

  lookahead_commit-take :
      (n : ℕ) (rows : List RawChange)
      → Decodes rows
      → lookahead_commit parts stream (get_elem? (map row_of (take (suc n) rows)) n)
        ≡ ok (commit_at (get_elem? rows n))
  unfolding lookahead_commit take
  lookahead_commit-take zero [] h = refl
  lookahead_commit-take zero (c ∷ rows) (d, (e, h)) = rw e refl
  lookahead_commit-take (suc n) [] h = refl
  lookahead_commit-take (suc n) (c ∷ rows) (d, (e, h)) = lookahead_commit-take n rows h

  process_rows-take :
      (rows : List RawChange) (s : StreamingState)
      → Decodes rows
      → process_rows parts stream (map row_of (take (suc stream.fetch_size) rows)) s
        ≡ next_page rows s
  unfolding process_rows
  process_rows-take rows s h =
      rw (raw_changes-take stream.fetch_size rows h, lookahead_commit-take stream.fetch_size rows h)
        refl

  step_of_rows :
      (max_lsn : Bytes) (rows : List RawChange) (s : StreamingState)
      → Decodes rows
      → (if is_empty (map row_of (take (suc stream.fetch_size) rows))
          then ok (end_of_log parts stream max_lsn s)
          else process_rows parts stream (map row_of (take (suc stream.fetch_size) rows)) s)
        ≡ (if is_empty rows then ok (end_of_log parts stream max_lsn s) else next_page rows s)
  unfolding take
  step_of_rows max_lsn [] s h = refl
  step_of_rows max_lsn (c ∷ rows) s h = process_rows-take (c ∷ rows) s h

  -- Where the server answers the query with the first rows of a log after the cursor, each of those
  -- rows reads as its change, and the fetch size is below 2^64 - 1, a read gives the end of the log
  -- where no row follows the cursor, and otherwise the records, the state and the errors of
  -- processing the next fetch_size changes as one page that knows the commit of the change after
  -- them.
  pub read_change_batch-eq-next_page :
      (max_lsn : Bytes) (log : List RawChange) (s : StreamingState)
      → Answers max_lsn log
      → Decodes (rows_after s.cursor log)
      → stream.fetch_size + 1 < 2 ^ 64
      → read_change_batch parts stream max_lsn s ≡ (
          if is_empty (rows_after s.cursor log)
          then ok (end_of_log parts stream max_lsn s)
          else next_page (rows_after s.cursor log) s)
  unfolding read_change_batch
  read_change_batch-eq-next_page max_lsn log s answers h n =
      rw (min-lookahead stream.fetch_size n, answers s.cursor (suc stream.fetch_size))
        (step_of_rows max_lsn (rows_after s.cursor log) s h)
