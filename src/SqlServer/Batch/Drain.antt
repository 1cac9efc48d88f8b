-- ===== src/SqlServer/Batch/Drain.antt =====
-- crates/rustium-sqlserver/src/source.rs: reads one after the other, up to the end of a log.
use rustium.Common.{
  ℕ, zero, suc, ◌+◌, ◌^◌, ◌<◌, ◌≤◌, true, none, some, List, [], ◌∷◌, ◌++◌, get_elem?, ◌≡◌, refl, ap,
  sym, ◌∙◌, arith, subst, length, append_assoc, append-nil, length-append, is_empty, if◌then◌else◌,
}
use rustium.Core.Error.{ok, err}
use rustium.Core.Event.{SourceRecord}
use rustium.SqlServer.Lsn.{Bytes}
use rustium.SqlServer.Stream.{RawChange, StreamingState}
use rustium.SqlServer.Change.{TdsRow, Parts, Stream}
use rustium.SqlServer.Batch.{
  Step, take, ◌then◌, after, complete_last_commit, process_changes, end_of_log, read_change_batch,
}
use rustium.SqlServer.Batch.Page.{Answers, Decodes, next_page, read_change_batch-eq-next_page}
use rustium.SqlServer.Batch.Paging.{process_changes-append}
use rustium.SqlServer.Batch.Cursor.{rows_after}
use rustium.SqlServer.Batch.Cursor.Rows.{IsLog, rows_after-later_page}

-- The rows are one page, or a page and the rows that follow it.
data Cut (n : ℕ) (x : RawChange) (rest : List RawChange) : Type 0 where
  all : get_elem? (x ∷ rest) n ≡ none → take n (x ∷ rest) ≡ x ∷ rest → Cut n x rest
  part :
      (xs ys : List RawChange) (y : RawChange)
      → get_elem? (x ∷ rest) n ≡ some y
      → take n (x ∷ rest) ≡ x ∷ xs
      → rest ≡ xs ++ (y ∷ ys)
      → Cut n x rest

cut : (n : ℕ) (x : RawChange) (rest : List RawChange) → 0 < n → Cut n x rest
unfolding take
cut zero x rest h = absurd (omega arith)
cut (suc n) x [] h = all refl (ap (x ∷◌) (take_nil n))
  where
    take_nil : (n : ℕ) → take {A = RawChange} n [] ≡ []
    take_nil zero = refl
    take_nil (suc n) = refl
cut (suc zero) x (z ∷ rest) h = part [] rest z refl refl refl
cut (suc (suc n)) x (z ∷ rest) h = elim (cut (suc n) z rest (omega arith)) [
  | all e t ↦ all e (ap (x ∷◌) t)
  | part xs ys y e t r ↦ part (z ∷ xs) ys y e (ap (x ∷◌) t) (ap (z ∷◌) r)
]

then_ok : (p : Step) → (p then λ t. ok ([], t)) ≡ p
then_ok (err e) = refl
then_ok (ok (records, s)) = rw (append-nil records) refl

module _ (parts : Parts) (stream : Stream) where
  -- So many reads, one after the other.
  unfoldable pub reads : ℕ → Bytes → StreamingState → Step
  reads zero max_lsn s = ok ([], s)
  reads (suc n) max_lsn s = read_change_batch parts stream max_lsn s then λ t. reads n max_lsn t

  -- A count of reads up to the end of these rows.
  abbrev pub Drains : Bytes → List RawChange → StreamingState → Type 0
  Drains max_lsn rows s =
      ((n : ℕ) × ((n ≤ length rows)
          × (reads n max_lsn s ≡ process_changes parts stream true rows s)))

  after_page :
      (max_lsn : Bytes) (p : Step) (rows : List RawChange)
      → ((records : List SourceRecord) (t : StreamingState)
          → p ≡ ok (records, t)
          → Drains max_lsn rows t)
      → ((n : ℕ) × ((n ≤ length rows)
            × ((p then λ t. reads n max_lsn t)
                ≡ (p then λ t. process_changes parts stream true rows t))))
  after_page max_lsn (err e) rows h = (0, (omega arith, refl))
  after_page max_lsn (ok (records, t)) rows h =
      let (n, (fits, e)) = h records t refl in (n, (fits, ap (after records) e))

  module _ (row_of : RawChange → TdsRow) (max_lsn : Bytes) where
    -- A read that gives the last page.
    one_read :
        (x : RawChange) (rest : List RawChange) (s : StreamingState)
        → read_change_batch parts stream max_lsn s ≡ next_page parts stream row_of (x ∷ rest) s
        → get_elem? (x ∷ rest) stream.fetch_size ≡ none
        → take stream.fetch_size (x ∷ rest) ≡ x ∷ rest
        → Drains max_lsn (x ∷ rest) s
    unfolding complete_last_commit reads
    one_read x rest s r e t = (1, (omega arith, then_ok _ ∙ r ∙ rw (e, t) refl))

    -- A read that gives a page, and those that follow it.
    more_reads :
        (x y : RawChange) (xs ys rest : List RawChange) (s : StreamingState)
        → rest ≡ xs ++ (y ∷ ys)
        → read_change_batch parts stream max_lsn s ≡ next_page parts stream row_of (x ∷ rest) s
        → get_elem? (x ∷ rest) stream.fetch_size ≡ some y
        → take stream.fetch_size (x ∷ rest) ≡ x ∷ xs
        → ((records : List SourceRecord) (t : StreamingState)
            → process_changes parts stream
                (complete_last_commit (x ∷ xs) (some y.commit_lsn))
                (x ∷ xs)
                s
              ≡ ok (records, t)
            → Drains max_lsn (y ∷ ys) t)
        → Drains max_lsn (x ∷ rest) s
    unfolding reads
    more_reads x y xs ys rest s q r e t h =
        let (n, (fits, eq)) = after_page max_lsn _ (y ∷ ys) h in
        let later = length-append xs (y ∷ ys) in
        (
          suc n,
          (
            omega (arith, later, ap length q),
            rw (r, e, t)
                (eq
                  ∙ sym (process_changes-append parts stream (x ∷ xs) ys y true s)
                  ∙ ap (λ l. process_changes parts stream true (x ∷ l) s) (sym q)),
          ),
        )

    Decodes-append :
        (xs ys : List RawChange)
        → Decodes parts stream row_of (xs ++ ys)
        → Decodes parts stream row_of ys
    Decodes-append [] ys h = h
    Decodes-append (x ∷ xs) ys (d, (e, h)) = Decodes-append xs ys h

    module _ (log : List RawChange) (positive : 0 < stream.fetch_size)
        (fits : stream.fetch_size + 1 < 2 ^ 64) (answers : Answers parts stream row_of max_lsn log)
        (increasing : IsLog log) where
      reads_next :
          (x : RawChange) (rest : List RawChange) (s : StreamingState)
          → rows_after s.cursor log ≡ x ∷ rest
          → Decodes parts stream row_of (x ∷ rest)
          → read_change_batch parts stream max_lsn s ≡ next_page parts stream row_of (x ∷ rest) s
      reads_next x rest s c d =
          read_change_batch-eq-next_page parts stream row_of max_lsn log s answers
            (subst (Decodes parts stream row_of) (sym c) d) fits
          ∙ ap
              (λ rows.
                if is_empty rows
                then ok (end_of_log parts stream max_lsn s)
                else next_page parts stream row_of rows s)
              c

      page_of_log :
          (seen : List RawChange) (x y : RawChange) (xs ys rest : List RawChange)
          → log ≡ seen ++ (x ∷ rest)
          → rest ≡ xs ++ (y ∷ ys)
          → log ≡ (seen ++ (x ∷ xs)) ++ (y ∷ ys)
      page_of_log seen x y xs ys rest l q =
          l ∙ ap (λ r. seen ++ (x ∷ r)) q ∙ sym (append_assoc seen (x ∷ xs) (y ∷ ys))

      cursor_after :
          (seen : List RawChange) (x y : RawChange) (xs ys : List RawChange) (s t : StreamingState)
          (records : List SourceRecord)
          → log ≡ (seen ++ (x ∷ xs)) ++ (y ∷ ys)
          → process_changes parts stream
              (complete_last_commit (x ∷ xs) (some y.commit_lsn))
              (x ∷ xs)
              s
            ≡ ok (records, t)
          → rows_after t.cursor log ≡ y ∷ ys
      cursor_after seen x y xs ys s t records l e =
          subst (λ g. rows_after t.cursor g ≡ y ∷ ys) (sym l)
            (rows_after-later_page parts stream seen x y xs ys s t records
              (subst IsLog l increasing) e)

      drains :
          (k : ℕ) (seen : List RawChange) (x : RawChange) (rest : List RawChange)
          (s : StreamingState)
          → length rest < k
          → log ≡ seen ++ (x ∷ rest)
          → rows_after s.cursor log ≡ x ∷ rest
          → Decodes parts stream row_of (x ∷ rest)
          → Drains max_lsn (x ∷ rest) s
      drains zero seen x rest s b l c d = absurd (omega arith)
      drains (suc k) seen x rest s b l c d = elim (cut stream.fetch_size x rest positive) [
        | all e t ↦ one_read x rest s (reads_next x rest s c d) e t
        | part xs ys y e t q ↦
            let w = page_of_log seen x y xs ys rest l q in
            let shorter : length ys < k = omega (arith, ap length q, length-append xs (y ∷ ys)) in
            more_reads x y xs ys rest s q (reads_next x rest s c d) e t (λ records u p.
              drains k (seen ++ (x ∷ xs)) y ys u shorter w
                (cursor_after seen x y xs ys s u records w p)
                (Decodes-append (x ∷ xs) (y ∷ ys)
                  (subst (λ r. Decodes parts stream row_of (x ∷ r)) q d)))
      ]

      -- Where the fetch size is positive and below 2^64 - 1, the rows of the log increase, the
      -- server answers each query with the first rows of the log after the cursor, and the rows
      -- after the cursor, at least one, are the last of the log and each reads as its change, there
      -- is a number of reads, at most the number of those rows, that gives, one read after the
      -- other, the records, the state and the errors of processing those rows as one page.
      pub reads-eq-process_changes :
          (seen : List RawChange) (x : RawChange) (rest : List RawChange) (s : StreamingState)
          → log ≡ seen ++ (x ∷ rest)
          → rows_after s.cursor log ≡ x ∷ rest
          → Decodes parts stream row_of (x ∷ rest)
          → Drains max_lsn (x ∷ rest) s
      reads-eq-process_changes seen x rest s l c d =
          drains (suc (length rest)) seen x rest s (omega arith) l c d
