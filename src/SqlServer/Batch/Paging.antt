-- ===== src/SqlServer/Batch/Paging.antt =====
-- crates/rustium-sqlserver/src/source.rs: the changes of a log, cut into pages.
use rustium.Common.{
  Bool, some, Str, arith, str_eq_iff, List, [], ◌∷◌, ◌++◌, append_assoc, ◌≡◌, refl, ap, sym, ◌∙◌,
  not, str_eq,
}
use rustium.Core.Error.{ok, err}
use rustium.Core.Event.{SourceRecord}
use rustium.SqlServer.Stream.{RawChange, StreamingState}
use rustium.SqlServer.Change.{Parts, Stream, ends_commit}
use rustium.SqlServer.Batch.{
  Step, after, ◌then◌, complete_last_commit, process_change, process_changes,
}

after_append : (xs ys : List SourceRecord) (p : Step) → after (xs ++ ys) p ≡ after xs (after ys p)
after_append xs ys (err e) = refl
after_append xs ys (ok (zs, s)) = rw (append_assoc xs ys zs) refl

pub after_nil : (p : Step) → after [] p ≡ p
after_nil (err e) = refl
after_nil (ok (zs, s)) = refl

after-then :
    (xs : List SourceRecord) (p : Step) (f : StreamingState → Step)
    → after xs (p then f) ≡ after xs p then f
after-then xs (err e) f = refl
after-then xs (ok (ys, s)) f = sym (after_append xs ys (f s))

then_assoc : (p : Step) (f g : StreamingState → Step) → (p then f) then g ≡ p then (λ t. f t then g)
then_assoc (err e) f g = refl
then_assoc (ok (xs, s)) f g = sym (after-then xs (f s) g)

then-congr :
    (p : Step) (f g : StreamingState → Step)
    → ((t : StreamingState) → f t ≡ g t)
    → (p then f) ≡ (p then g)
then-congr (err e) f g h = refl
then-congr (ok (xs, s)) f g h = ap (after xs) (h s)

str_eq_comm : (s t : Str) → str_eq s t ≡ str_eq t s
str_eq_comm s t = ground (arith, str_eq_iff s t, str_eq_iff t s)

ends_commit-append :
    (change y : RawChange) (xs ys : List RawChange) (complete : Bool)
    → ends_commit change (xs ++ (y ∷ ys)) complete
      ≡ ends_commit change xs (complete_last_commit (change ∷ xs) (some y.commit_lsn))
unfolding complete_last_commit
ends_commit-append change y [] ys complete = ap not (str_eq_comm y.commit_lsn change.commit_lsn)
ends_commit-append change y (x ∷ xs) ys complete = refl

module _ (parts : Parts) (stream : Stream) where
  process_changes-cons :
      (x y : RawChange) (xs ys : List RawChange) (complete : Bool) (s : StreamingState)
      → (let complete_here = complete_last_commit (x ∷ xs) (some y.commit_lsn) in
          (t : StreamingState)
          → process_changes parts stream complete (xs ++ (y ∷ ys)) t
            ≡ process_changes parts stream complete_here xs t then λ u.
                process_changes parts stream complete (y ∷ ys) u)
      → process_changes parts stream complete (x ∷ xs ++ (y ∷ ys)) s
        ≡ process_changes parts stream
            (complete_last_commit (x ∷ xs) (some y.commit_lsn))
            (x ∷ xs)
            s
          then λ t. process_changes parts stream complete (y ∷ ys) t
  unfolding process_changes
  process_changes-cons x y xs ys complete s rest =
      rw (ends_commit-append x y xs ys complete)
        (then-congr _ _ _ rest ∙ sym (then_assoc (process_change parts stream x _ s) _ _))

  -- Processing a page and then the changes that follow it, where the page knows the commit of the
  -- row after it, gives the records, the state and the errors of processing them all as one page.
  pub process_changes-append :
      (xs ys : List RawChange) (y : RawChange) (complete : Bool) (s : StreamingState)
      → process_changes parts stream complete (xs ++ (y ∷ ys)) s
        ≡ process_changes parts stream (complete_last_commit xs (some y.commit_lsn)) xs s then λ t.
            process_changes parts stream complete (y ∷ ys) t
  unfolding process_changes complete_last_commit
  process_changes-append [] ys y complete s = sym (after_nil _)
  process_changes-append (x ∷ []) ys y complete s =
      process_changes-cons x y [] ys complete s (λ t. sym (after_nil _))
  process_changes-append (x ∷ z ∷ xs) ys y complete s =
      process_changes-cons x y (z ∷ xs) ys complete s
        (λ t. process_changes-append (z ∷ xs) ys y complete t)
