-- ===== src/SqlServer/Batch/Cursor/Rows.antt =====
-- crates/rustium-sqlserver/src/source.rs: the rows after the cursor that a page leaves.
use rustium.Common.{
  ◌<◌, Bool, true, false, not, some, List, [], ◌∷◌, ◌++◌, ◌≡◌, refl, arith, inl, inr, ap, str_eq,
  str_eq_iff, subst, sym,
}
use rustium.Common.Ord.{
  nat_ord, list_ord, pair_ord, list_cmp-eq, gt, gt_irrefl, gt_asymm, gt_trans, not_gt_trans,
}
use rustium.Core.Error.{ok, err}
use rustium.Core.Error.Returns.{OnOk}
use rustium.Core.Event.{SourceRecord}
use rustium.SqlServer.Lsn.Order.{Triple}
use rustium.SqlServer.Stream.{RawChange, StreamingState, CdcCursor, commit_serial}
use rustium.SqlServer.Change.{Parts, Stream, ends_commit}
use rustium.SqlServer.Batch.{Step, ◌then◌, after, complete_last_commit, process_changes}
use rustium.SqlServer.Batch.Order.{IsPlace, place, number, commit_place, place-commit_place}
use rustium.SqlServer.Batch.Cursor.{cursor_place, rows_after, IsPast, process_change-IsPast}

-- Every change is after the place; none is.
abbrev pub AllAfter : Triple → List RawChange → Type 0
AllAfter p [] = Unit
AllAfter p (x ∷ rest) = (gt (place x) p ≡ true) × AllAfter p rest

abbrev NoneAfter : Triple → List RawChange → Type 0
NoneAfter p [] = Unit
NoneAfter p (x ∷ rest) = (gt (place x) p ≡ false) × NoneAfter p rest

-- The rows of a log: each is after all those before it, and has one of the four operations.
unfoldable pub IsLog : List RawChange → Type 0
IsLog [] = Unit
IsLog (x ∷ rest) =
    IsPlace (place x)
    × ((number x.raw_operation < commit_serial) × (AllAfter (place x) rest × IsLog rest))

abbrev final : RawChange → List RawChange → RawChange
final x [] = x
final x (y ∷ rest) = final y rest

AllAfter-weaken :
    (p q : Triple) (rows : List RawChange) → gt q p ≡ true → AllAfter q rows → AllAfter p rows
AllAfter-weaken p q [] h a = tt
AllAfter-weaken p q (x ∷ rest) h (g, a) = (gt_trans (place x) q p g h, AllAfter-weaken p q rest h a)

NoneAfter-weaken :
    (p q : Triple) (rows : List RawChange) → gt p q ≡ false → NoneAfter p rows → NoneAfter q rows
NoneAfter-weaken p q [] h a = tt
NoneAfter-weaken p q (x ∷ rest) h (g, a) =
    (not_gt_trans (place x) p q g h, NoneAfter-weaken p q rest h a)

-- The rows after a cursor between two parts of a log are those of the second part.
rows_after-between :
    (cursor : CdcCursor) (xs ys : List RawChange)
    → NoneAfter (cursor_place cursor) xs
    → AllAfter (cursor_place cursor) ys
    → rows_after cursor (xs ++ ys) ≡ ys
unfolding rows_after
rows_after-between cursor [] [] n a = refl
rows_after-between cursor [] (y ∷ ys) n (g, a) =
    rw g (ap (y ∷◌) (rows_after-between cursor [] ys tt a))
rows_after-between cursor (x ∷ xs) ys (g, n) a = rw g (rows_after-between cursor xs ys n a)

-- The end of a commit is before the rows of later commits.
next-commit_place :
    (x y : RawChange)
    → gt (place y) (place x) ≡ true
    → str_eq x.commit_lsn y.commit_lsn ≡ false
    → gt (place y) (commit_place x) ≡ true
next-commit_place x y h e =
    ground (arith, str_eq_iff x.commit_lsn y.commit_lsn, list_cmp-eq y.commit_lsn x.commit_lsn)

-- Where a log is cut, the last row of the first part is after none of it, and before the second.
abbrev IsCut : RawChange → List RawChange → RawChange → List RawChange → Type 0
IsCut l xs y ys =
    IsPlace (place l)
    × ((number l.raw_operation < commit_serial)
        × (NoneAfter (place l) xs × ((gt (place y) (place l) ≡ true) × AllAfter (place y) ys)))

final-IsCut :
    (x : RawChange) (xs : List RawChange) (y : RawChange) (ys : List RawChange)
    → IsLog (x ∷ xs ++ (y ∷ ys))
    → IsCut (final x xs) (x ∷ xs) y ys
unfolding IsLog
final-IsCut x [] y ys (p, (n, ((g, a), (_, (_, (b, h)))))) =
    (p, (n, ((gt_irrefl (place x), tt), (g, b))))
final-IsCut x (z ∷ xs) y ys (p, (n, ((g, a), h))) =
    let (q, (m, (none_after, rest))) = final-IsCut z xs y ys h in
    (
      q,
      (
        m,
        (
          (
            not_gt_trans (place x) (place z) (place (final z xs)) (gt_asymm (place z) (place x) g)
                none_after.0,
            none_after,
          ),
          rest,
        ),
      ),
    )

final-append :
    (w x : RawChange) (seen xs : List RawChange) → final w (seen ++ (x ∷ xs)) ≡ final x xs
final-append w x [] xs = refl
final-append w x (v ∷ seen) xs = final-append v x seen xs

-- The cut after a part that follows other rows.
later-IsCut :
    (seen : List RawChange) (x : RawChange) (xs : List RawChange) (y : RawChange)
    (ys : List RawChange)
    → IsLog ((seen ++ (x ∷ xs)) ++ (y ∷ ys))
    → IsCut (final x xs) (seen ++ (x ∷ xs)) y ys
later-IsCut [] x xs y ys h = final-IsCut x xs y ys h
later-IsCut (w ∷ seen) x xs y ys h =
    subst (λ l. IsCut l (w ∷ seen ++ (x ∷ xs)) y ys) (final-append w x seen xs)
      (final-IsCut w (seen ++ (x ∷ xs)) y ys h)

then-OnOk :
    (P Q : StreamingState → Type 0) (p : Step) (f : StreamingState → Step)
    → OnOk (λ r. P r.1) p
    → ((s : StreamingState) → P s → OnOk (λ r. Q r.1) (f s))
    → OnOk (λ r. Q r.1) (p then f)
then-OnOk P Q (err e) f h k = tt
then-OnOk P Q (ok (xs, s)) f h k = after-OnOk (f s) (k s h)
  where
    after-OnOk : (q : Step) → OnOk (λ r. Q r.1) q → OnOk (λ r. Q r.1) (after xs q)
    after-OnOk (err e) l = tt
    after-OnOk (ok (ys, t)) l = l

module _ (parts : Parts) (stream : Stream) where
  process_changes-IsPast :
      (complete : Bool) (x : RawChange) (xs : List RawChange) (s : StreamingState)
      → OnOk
          (λ r. IsPast (final x xs) complete r.1.cursor)
          (process_changes parts stream complete (x ∷ xs) s)
  unfolding process_changes
  process_changes-IsPast complete x [] s =
      then-OnOk (λ t. IsPast x complete t.cursor) (λ t. IsPast x complete t.cursor) _ _
        (process_change-IsPast parts stream x complete s) (λ t h. h)
  process_changes-IsPast complete x (y ∷ xs) s =
      then-OnOk (λ t. IsPast x (ends_commit x (y ∷ xs) complete) t.cursor)
        (λ t. IsPast (final y xs) complete t.cursor) _ _ (process_change-IsPast parts stream x _ s)
        (λ t h. process_changes-IsPast complete y xs t)

  -- The cursor that the page leaves is between its last row and the next one.
  rows_after-IsPast :
      (l y : RawChange) (xs ys : List RawChange) (ends : Bool) (cursor : CdcCursor)
      → IsCut l xs y ys
      → (ends ≡ true → str_eq l.commit_lsn y.commit_lsn ≡ false)
      → IsPast l ends cursor
      → rows_after cursor (xs ++ (y ∷ ys)) ≡ y ∷ ys
  rows_after-IsPast l y xs ys ends cursor (p, (m, (n, (g, a)))) differ (inl e) =
      rows_after-between cursor xs (y ∷ ys) (subst (λ c. NoneAfter (cursor_place c) xs) (sym e) n) (
        subst (λ c. AllAfter (cursor_place c) (y ∷ ys)) (sym e)
          (g, AllAfter-weaken (place l) (place y) ys g a))
  rows_after-IsPast l y xs ys ends cursor (p, (m, (n, (g, a)))) differ (inr (t, e)) =
      let h = next-commit_place l y g (differ t) in
      rows_after-between cursor xs (y ∷ ys)
        (subst (λ c. NoneAfter (cursor_place c) xs) (sym e)
          (NoneAfter-weaken (place l) (commit_place l) xs (place-commit_place l p m) n))
        (subst (λ c. AllAfter (cursor_place c) (y ∷ ys)) (sym e)
          (h, AllAfter-weaken (commit_place l) (place y) ys h a))

  last_differs :
      (x y : RawChange) (xs : List RawChange)
      → complete_last_commit (x ∷ xs) (some y.commit_lsn)
        ≡ not (str_eq (final x xs).commit_lsn y.commit_lsn)
  unfolding complete_last_commit
  last_differs x y [] = refl
  last_differs x y (z ∷ xs) = last_differs z y xs

  -- Where rows were seen before the page.
  pub rows_after-later_page :
      (seen : List RawChange) (x y : RawChange) (xs ys : List RawChange) (s t : StreamingState)
      (records : List SourceRecord)
      → IsLog ((seen ++ (x ∷ xs)) ++ (y ∷ ys))
      → process_changes parts stream (complete_last_commit (x ∷ xs) (some y.commit_lsn)) (x ∷ xs) s
        ≡ ok (records, t)
      → rows_after t.cursor ((seen ++ (x ∷ xs)) ++ (y ∷ ys)) ≡ y ∷ ys
  rows_after-later_page seen x y xs ys s t records h e =
      rows_after-IsPast (final x xs) y (seen ++ (x ∷ xs)) ys _ t.cursor
        (later-IsCut seen x xs y ys h) (λ c. ground (arith, last_differs x y xs))
        (subst (OnOk (λ r. IsPast (final x xs) _ r.1.cursor)) e (process_changes-IsPast _ x xs s))

  -- Where a page of a log of increasing rows has been processed, the rows of that log after the
  -- cursor that it leaves are exactly the rows that follow the page: none is read twice and none is
  -- lost.
  pub rows_after-process_changes :
      (x y : RawChange) (xs ys : List RawChange) (s t : StreamingState)
      (records : List SourceRecord)
      → IsLog (x ∷ xs ++ (y ∷ ys))
      → process_changes parts stream (complete_last_commit (x ∷ xs) (some y.commit_lsn)) (x ∷ xs) s
        ≡ ok (records, t)
      → rows_after t.cursor (x ∷ xs ++ (y ∷ ys)) ≡ y ∷ ys
  rows_after-process_changes x y xs ys s t records h e =
      rows_after-later_page [] x y xs ys s t records h e
