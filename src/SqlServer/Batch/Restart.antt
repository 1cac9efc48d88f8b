-- ===== src/SqlServer/Batch/Restart.antt =====
-- crates/rustium-sqlserver/src/source.rs: a page that is read again after a restart.
use rustium.Common.{
  Bool, true, false, Option, none, some, List, [], ◌∷◌, ◌≡◌, refl, ap, sym, ◌∙◌, ◌==◌, inl, inr,
  Bool-cases, if◌then◌else◌,
}
use rustium.Common.Int.{ℤ, pos, negsuc}
use rustium.Core.Error.{Result, ok, err, ◌>>=◌}
use rustium.Core.Event.{SourceRecord, Row}
use rustium.Core.Position.{SourcePosition}
use rustium.Sources.Resume.{skip_resumed, replay, replay-none, replay-append}
use rustium.SqlServer.Stream.{
  RawChange, StreamingState, CaptureTable, should_skip, commit_record, commit_of,
}
use rustium.SqlServer.Change.{
  Parts, Stream, Images, images_of, paired, known, capture_in_map, ends_commit, data_record,
}
use rustium.SqlServer.Batch.{Step, ◌then◌, after, emit, end_change, process_change, process_changes}

abbrev pub position_of : SourceRecord → SourcePosition
position_of r = r.position

abbrev pub with_resume : Option SourcePosition → StreamingState → StreamingState
with_resume r s = record s { resume_position = r }

abbrev resumed_pair :
    Option SourcePosition → List SourceRecord × StreamingState → List SourceRecord × StreamingState
resumed_pair resume (records, t) =
    let (kept, left) = replay position_of resume records in (kept, with_resume left t)

-- What is left of a step without a checkpoint when it is replayed from one.
unfoldable pub resumed : Option SourcePosition → Step → Step
resumed resume (err e) = err e
resumed resume (ok r) = ok (resumed_pair resume r)

resumed-after :
    (r : Option SourcePosition) (xs : List SourceRecord) (p : Step)
    → resumed r (after xs p)
      ≡ (let (kept, left) = replay position_of r xs in after kept (resumed left p))
unfolding resumed
resumed-after r xs (err e) = refl
resumed-after r xs (ok (ys, t)) = rw (replay-append position_of xs ys r) refl

abbrev state_of : StreamingState → Step → StreamingState
state_of s (err e) = s
state_of s (ok (xs, t)) = t

-- Where each part of a sequence replays so, the sequence does.
resumed-then :
    (r : Option SourcePosition) (q : Step) (f : StreamingState → Step)
    → q ≡ resumed none q
    → ((l : Option SourcePosition) (t : StreamingState)
        → f (with_resume l t) ≡ resumed l (f (with_resume none t)))
    → (resumed r q then f) ≡ resumed r (q then f)
unfolding resumed
resumed-then r (err e) f h k = refl
resumed-then r (ok (xs, t)) f h k =
    let (kept, left) = replay position_of r xs in
    let without : t ≡ with_resume none t =
      ap (state_of t) h ∙ ap (λ p. with_resume p.1 t) (replay-none position_of xs) in
    ap (after kept) (k left t ∙ ap (λ u. resumed left (f u)) (sym without))
    ∙ sym (resumed-after r xs (f t))

abbrev relabelled :
    Option SourcePosition
    → Result (Option Images × StreamingState)
    → Result (Option Images × StreamingState)
relabelled r (err e) = err e
relabelled r (ok (images, t)) = ok (images, with_resume r t)

abbrev waiting_state : StreamingState → Result (Option Images × StreamingState) → StreamingState
waiting_state s (err e) = s
waiting_state s (ok (images, t)) = t

paired-relabelled :
    (waiting : Option Row) (change : RawChange) (r : Option SourcePosition) (s : StreamingState)
    → paired waiting change (with_resume r s)
      ≡ relabelled r (paired waiting change (with_resume none s))
paired-relabelled none change r s = refl
paired-relabelled (some before) change r s = refl

images_of-relabelled :
    (op : ℤ) (change : RawChange) (r : Option SourcePosition) (s : StreamingState)
    → images_of op change (with_resume r s)
      ≡ relabelled r (images_of op change (with_resume none s))
unfolding images_of
images_of-relabelled (negsuc n) change r s = refl
images_of-relabelled (pos n) change r s = elim (Bool-cases (n == 1)) [
  | inl e ↦ rw e refl
  | inr a ↦ elim (Bool-cases (n == 2)) [
    | inl e ↦ rw (a, e) refl
    | inr b ↦ elim (Bool-cases (n == 3)) [
      | inl e ↦ rw (a, b, e) refl
      | inr c ↦ elim (Bool-cases (n == 4)) [
        | inl e ↦ rw (a, b, c, e) (paired-relabelled _ change r s)
        | inr d ↦ rw (a, b, c, d) refl
      ]
    ]
  ]
]

module _ (parts : Parts) (stream : Stream) where
  data_record-resumed :
      (change : RawChange) (table : CaptureTable) (images : Images) (r : Option SourcePosition)
      (s : StreamingState)
      → data_record parts stream change table images (with_resume r s)
        ≡ resumed_pair r (data_record parts stream change table images (with_resume none s))
  unfolding data_record should_skip replay skip_resumed
  data_record-resumed change table images r s = refl

  end_change-resumed :
      (change : RawChange) (ends : Bool) (r : Option SourcePosition) (records : List SourceRecord)
      (s : StreamingState)
      → (let (kept, left) = replay position_of r records in
          end_change parts stream change ends kept (with_resume left s))
        ≡ resumed_pair r (end_change parts stream change ends records (with_resume none s))
  unfolding end_change commit_record should_skip replay skip_resumed
  end_change-resumed change true r records s =
      let commit = commit_of parts.hex stream.database change.commit_lsn in
      elim (Bool-cases (skip_resumed (replay position_of r records).1 commit.position).0) [
        | inl e ↦ rw (replay-append position_of records (commit ∷ []) r, e) refl
        | inr e ↦ rw (replay-append position_of records (commit ∷ []) r, e) refl
      ]
  end_change-resumed change false r records s = refl

  emit-resumed :
      (table : CaptureTable) (change : RawChange) (ends : Bool) (images : Option Images)
      (r : Option SourcePosition) (s : StreamingState)
      → emit parts stream table change ends (images, with_resume r s)
        ≡ resumed_pair r (emit parts stream table change ends (images, with_resume none s))
  unfolding emit data_record should_skip skip_resumed replay
  emit-resumed table change ends none r s = refl
  emit-resumed table change ends (some images) r s =
      let (records, left) = data_record parts stream change table images (with_resume none s) in
      end_change-resumed change ends r records left

  emitted-resumed :
      (table : CaptureTable) (change : RawChange) (ends : Bool) (r : Option SourcePosition)
      (images : Result (Option Images × StreamingState))
      → images ≡ relabelled none images
      → (relabelled r images >>= λ i. ok (emit parts stream table change ends i))
        ≡ resumed r (images >>= λ i. ok (emit parts stream table change ends i))
  unfolding resumed
  emitted-resumed table change ends r (err e) h = refl
  emitted-resumed table change ends r (ok (images, t)) h = ap ok (
      emit-resumed table change ends images r t
      ∙ ap (λ u. resumed_pair r (emit parts stream table change ends (images, u)))
          (sym (ap (waiting_state t) h)))

  process_change-resumed :
      (change : RawChange) (ends : Bool) (r : Option SourcePosition) (s : StreamingState)
      → process_change parts stream change ends (with_resume r s)
        ≡ resumed r (process_change parts stream change ends (with_resume none s))
  unfolding process_change resumed
  process_change-resumed change ends r s = known-resumed (
      known "unknown SQL Server capture instance"
        (capture_in_map change.capture_instance stream.captures))
    where
      known-resumed :
          (table : Result CaptureTable)
          → (table >>= λ c. images_of change.raw_operation change (with_resume r s) >>= λ i.
              ok (emit parts stream c change ends i))
            ≡ resumed r (
                table >>= λ c. images_of change.raw_operation change (with_resume none s) >>= λ i.
                ok (emit parts stream c change ends i))
      known-resumed (err e) = refl
      known-resumed (ok c) =
          ap (λ m. m >>= λ i. ok (emit parts stream c change ends i))
            (images_of-relabelled change.raw_operation change r s)
          ∙ emitted-resumed c change ends r _
              (images_of-relabelled change.raw_operation change none s)

  -- Processing changes from a checkpoint gives the same errors as without one, and otherwise the
  -- records that are left when the replay of those made without one is skipped up to the
  -- checkpoint; the transaction, the pending updates and the cursor are the same.
  pub process_changes-replay :
      (complete : Bool) (changes : List RawChange) (r : Option SourcePosition) (s : StreamingState)
      → process_changes parts stream complete changes (with_resume r s)
        ≡ resumed r (process_changes parts stream complete changes (with_resume none s))
  unfolding process_changes resumed replay
  process_changes-replay complete [] r s = refl
  process_changes-replay complete (x ∷ rest) r s =
      let first =
        process_change parts stream x (ends_commit x rest complete) (with_resume none s) in
      ap (λ p. p then λ t. process_changes parts stream complete rest t)
        (process_change-resumed x _ r s)
      ∙ resumed-then r first _ (process_change-resumed x _ none s)
          (λ l t. process_changes-replay complete rest l t)
