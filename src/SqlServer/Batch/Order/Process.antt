-- ===== src/SqlServer/Batch/Order/Process.antt =====
-- crates/rustium-sqlserver/src/source.rs: the records that `read_change_batch` makes of the changes
-- of a page are in the order of their positions.
use rustium.Common.{
  ℕ, ◌<◌, ◌≢◌, ◌==◌, ◌∙◌, ℕ_discrete, Bool, true, false, not, Option, none, some, List, [], ◌∷◌,
  ◌≡◌, refl, arith, Str, Bool-cases, inl, inr, subst, ap, if◌then◌else◌, str_eq,
}
use rustium.Common.Int.{ℤ, pos, negsuc}
use rustium.Common.Ord.{nat_ord, list_ord, pair_ord, gt, gt_irrefl}
use rustium.Core.Error.{ok, err}
use rustium.Core.Error.Returns.{OnOk, holds_any, OnOk-bind}
use rustium.Core.Event.{Row, SourceRecord, ChangeEvent, TransactionMetadata}
use rustium.SqlServer.Lsn.{HexLaws}
use rustium.SqlServer.Lsn.Order.{Triple}
use rustium.SqlServer.Stream.{
  CaptureTable, RawChange, StreamingState, commit_serial, should_skip, key, commit_of,
  commit_record,
}
use rustium.SqlServer.Change.{
  Parts, Stream, Images, is_table, event_of, data_record, position_at, paired, images_of, known,
  capture_in_map,
}
use rustium.SqlServer.Batch.{
  Step, after, ◌then◌, end_change, emit, process_change, process_changes, listed,
}
use rustium.SqlServer.Batch.Order.{
  IsPlace, max_lsn_bytes-IsLsn, place, commit_place, number, place-commit_place, commit_place-next,
}
use rustium.SqlServer.Batch.Order.Chain.{
  Passes, at_place, Chain, Chain-weaken, Chain-append, Chain-Passes,
}

-- Where the records of a change end.
abbrev end_place : RawChange → Bool → Triple
end_place change ends = if ends then commit_place change else place change

-- The changes come in the order of the query, each with numbers of the server's size.
unfoldable pub IsSorted : List RawChange → Type 0
IsSorted [] = Unit
IsSorted (x ∷ []) = IsPlace (place x)
IsSorted (x ∷ y ∷ rest) =
    IsPlace (place x) × ((gt (place x) (place y) ≡ false) × IsSorted (y ∷ rest))

-- The serial number of an event is its operation's, before that of the end of a commit.
abbrev IsNumbered : ℕ → Option Images × StreamingState → Type 0
IsNumbered n (none, s) = n < commit_serial
IsNumbered n (some images, s) = (images.event_serial ≡ n) × (n < commit_serial)

not_eq : (n m : ℕ) → n ≢ m → (n == m) ≡ false
not_eq n m h = ground arith

paired-IsNumbered :
    (waiting : Option Row) (change : RawChange) (s : StreamingState)
    → OnOk (IsNumbered 4) (paired waiting change s)
paired-IsNumbered none change s = tt
paired-IsNumbered (some before) change s = (refl, omega arith)

images_of-IsNumbered :
    (op : ℤ) (change : RawChange) (s : StreamingState)
    → OnOk (IsNumbered (number op)) (images_of op change s)
unfolding images_of
images_of-IsNumbered (negsuc n) change s = tt
images_of-IsNumbered (pos n) change s = elim (ℕ_discrete n 1) [
  | yes e ↦ rw e (refl, omega arith)
  | no a ↦ elim (ℕ_discrete n 2) [
    | yes e ↦ rw e (refl, omega arith)
    | no b ↦ elim (ℕ_discrete n 3) [
      | yes e ↦ rw e (omega arith)
      | no c ↦ elim (ℕ_discrete n 4) [
        | yes e ↦ rw e (paired-IsNumbered _ change s)
        | no d ↦ rw (not_eq n 1 a, not_eq n 2 b, not_eq n 3 c, not_eq n 4 d) tt
      ]
    ]
  ]
]

module _ (parts : Parts) (stream : Stream) where
  -- The column transformer leaves an event's position as it is.
  abbrev pub KeepsPosition : Type 0
  KeepsPosition =
      (database : Str) (table : CaptureTable) (event : ChangeEvent)
      → (parts.transform_event database table event).position ≡ event.position

  abbrev Follows : Triple → List SourceRecord → Triple → Type 0
  Follows = Chain parts.hex stream.database

  event_of-position :
      KeepsPosition
      → (change : RawChange) (table : CaptureTable) (images : Images) (t : TransactionMetadata)
        (a : Option ℕ)
      → (event_of parts stream change table images t a).position
        ≡ position_at parts stream change images.event_serial
  unfolding event_of
  event_of-position keeps change table images t a =
      elim (Bool-cases (is_table stream.signal_table (key table))) [
        | inl e ↦ rw e refl
        | inr e ↦ rw e (keeps _ table _)
      ]

  kept-Chain :
      (skipped : Bool) (r : SourceRecord) (from : Triple)
      → IsPlace from
      → r.position ≡ at_place parts.hex stream.database from
      → Follows from (if skipped then [] else r ∷ []) from
  unfolding Chain
  kept-Chain true r from p e = gt_irrefl from
  kept-Chain false r from p e = (from, (p, (e, (gt_irrefl from, gt_irrefl from))))

  ended-Chain :
      (skipped : Bool) (r : SourceRecord) (from to : Triple)
      → IsPlace to
      → gt from to ≡ false
      → r.position ≡ at_place parts.hex stream.database to
      → Follows from (listed (if skipped then none else some r)) to
  unfolding Chain
  ended-Chain true r from to p g e = g
  ended-Chain false r from to p g e = (to, (p, (e, (g, gt_irrefl to))))

  data_record-Chain :
      KeepsPosition
      → (change : RawChange) (table : CaptureTable) (images : Images) (s : StreamingState)
      → IsPlace (place change)
      → images.event_serial ≡ number change.raw_operation
      → Follows (place change) (data_record parts stream change table images s).0 (place change)
  unfolding Chain data_record should_skip
  data_record-Chain keeps change table images s p e = kept-Chain _ _ (place change) p (
      event_of-position keeps change table images _ _
      ∙ ap (λ n. position_at parts stream change n) e)

  end_change-Chain :
      (change : RawChange) (ends : Bool) (records : List SourceRecord) (s : StreamingState)
      → IsPlace (place change)
      → number change.raw_operation < commit_serial
      → Follows (place change) records (place change)
      → Follows
          (place change)
          (end_change parts stream change ends records s).0
          (end_place change ends)
  unfolding end_change Chain commit_record
  end_change-Chain change true records s p n c =
      Chain-append parts.hex stream.database (place change) (place change) (commit_place change)
        records _ c
        (ended-Chain _ (commit_of parts.hex stream.database change.commit_lsn) (place change)
          (commit_place change) (p.0, max_lsn_bytes-IsLsn) (place-commit_place change p n) refl)
  end_change-Chain change false records s p n c = c

next_place :
    (x y : RawChange)
    → gt (place x) (place y) ≡ false
    → gt (end_place x (not (str_eq y.commit_lsn x.commit_lsn))) (place y) ≡ false
next_place x y h = elim (Bool-cases (str_eq y.commit_lsn x.commit_lsn)) [
  | inl e ↦ rw e h
  | inr e ↦ rw e (commit_place-next x y h e)
]

module _ (parts : Parts) (stream : Stream) (keeps : KeepsPosition parts stream) where
  abbrev From : Triple → List SourceRecord × StreamingState → Type 0
  From from (records, s) = (to : Triple) × Follows parts stream from records to

  abbrev Between : Triple → Triple → List SourceRecord × StreamingState → Type 0
  Between from to (records, s) = Follows parts stream from records to

  place-end_place :
      (change : RawChange) (ends : Bool)
      → IsPlace (place change)
      → number change.raw_operation < commit_serial
      → gt (place change) (end_place change ends) ≡ false
  place-end_place change true p n = place-commit_place change p n
  place-end_place change false p n = gt_irrefl (place change)

  emit-Between :
      (table : CaptureTable) (change : RawChange) (ends : Bool) (r : Option Images × StreamingState)
      → IsPlace (place change)
      → IsNumbered (number change.raw_operation) r
      → Between (place change) (end_place change ends) (emit parts stream table change ends r)
  unfolding emit Chain
  emit-Between table change ends (none, s) p n = place-end_place change ends p n
  emit-Between table change ends (some images, s) p (e, n) =
      let (records, left) = data_record parts stream change table images s in
      end_change-Chain parts stream change ends records left p n
        (data_record-Chain parts stream keeps change table images s p e)

  process_change-Between :
      (change : RawChange) (ends : Bool) (s : StreamingState)
      → IsPlace (place change)
      → OnOk
          (Between (place change) (end_place change ends))
          (process_change parts stream change ends s)
  unfolding process_change
  process_change-Between change ends s p =
      OnOk-bind (λ _. Unit) _
        (known "unknown SQL Server capture instance"
          (capture_in_map change.capture_instance stream.captures))
        _ (holds_any _)
        (λ table _.
          OnOk-bind (IsNumbered (number change.raw_operation)) _
            (images_of change.raw_operation change s) _
            (images_of-IsNumbered change.raw_operation change s)
            (λ r n. emit-Between table change ends r p n))

  after-From :
      (from middle : Triple) (xs : List SourceRecord) (p : Step)
      → Follows parts stream from xs middle
      → OnOk (From middle) p
      → OnOk (From from) (after xs p)
  after-From from middle xs (err e) h k = tt
  after-From from middle xs (ok (ys, s)) h (to, c) =
      (to, Chain-append parts.hex stream.database from middle to xs ys h c)

  From-weaken :
      (k from : Triple) (p : Step) → gt k from ≡ false → OnOk (From from) p → OnOk (From k) p
  From-weaken k from (err e) g h = tt
  From-weaken k from (ok (ys, s)) g (to, c) =
      (to, Chain-weaken parts.hex stream.database k from ys to g c)

  then-From :
      (from middle : Triple) (p : Step) (f : StreamingState → Step)
      → OnOk (Between from middle) p
      → ((s : StreamingState) → OnOk (From middle) (f s))
      → OnOk (From from) (p then f)
  then-From from middle (err e) f h k = tt
  then-From from middle (ok (xs, s)) f h k = after-From from middle xs (f s) h (k s)

  process_changes-From :
      (complete : Bool) (x : RawChange) (rest : List RawChange) (s : StreamingState)
      → IsSorted (x ∷ rest)
      → OnOk (From (place x)) (process_changes parts stream complete (x ∷ rest) s)
  unfolding process_changes IsSorted Chain
  process_changes-From complete x [] s p =
      then-From (place x) _ _ _ (process_change-Between x complete s p)
        (λ t. (end_place x complete, gt_irrefl (end_place x complete)))
  process_changes-From complete x (y ∷ rest) s (p, (g, h)) =
      then-From (place x) _ _ _ (process_change-Between x _ s p) (λ t.
        From-weaken _ (place y) _ (next_place x y g) (process_changes-From complete y rest t h))

  -- Where the changes come in the order of the query and the column transformer leaves positions as
  -- they are, the positions of the records that a page gives, those of the commits included, pass
  -- the runtime's guard one after the other.
  pub process_changes-Passes :
      HexLaws parts.hex
      → (complete : Bool) (changes : List RawChange) (s t : StreamingState)
        (records : List SourceRecord)
      → IsSorted changes
      → process_changes parts stream complete changes s ≡ ok (records, t)
      → Passes none records
  unfolding process_changes Passes
  process_changes-Passes laws complete [] s t records h e = subst (OnOk (λ r. Passes none r.0)) e tt
  process_changes-Passes laws complete (x ∷ rest) s t records h e =
      let (to, c) = subst (OnOk (From (place x))) e (process_changes-From complete x rest s h) in
      Chain-Passes parts.hex stream.database laws (place x) records to c
