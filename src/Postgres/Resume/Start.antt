-- ===== src/Postgres/Resume/Start.antt =====
-- crates/rustium-postgresql/src/source.rs: where a resumed stream starts.
use rustium.Common.{
  ℕ, ◌<◌, Bool, true, false, ◌==◌, ltb, if◌then◌else◌, max, ◌≡◌, subst, ◌⊎◌, inl, inr, refl, arith,
  Bool-cases, String,
}
use rustium.Core.Error.{Result, ok, err, state}
use rustium.Core.Error.Returns.{OnOk, OnOk-after, OnOk-bind}
use rustium.Core.Position.{PostgresPosition}
use rustium.Postgres.Resume.{
  OffsetMismatchStrategy, no_validation, trust_offset, trust_greater_lsn, trust_slot,
  ResumeSlotDecision, use_checkpoint, advance_slot, use_slot, resume_slot_decision, Server,
  ResumeSlotResolution, checkpoint_lsn_of, refuse_if, resolve, resolve_resume_slot, after_advance,
  checkpoint_ahead, slot_ahead, is_no_validation, or_missing,
}

-- The log sequence number that a decision settles on.
abbrev pub settled_lsn : ℕ → ℕ → Result ResumeSlotDecision → Result ℕ
settled_lsn checkpoint_lsn slot_lsn (err e) = err e
settled_lsn checkpoint_lsn slot_lsn (ok use_slot) = ok slot_lsn
settled_lsn checkpoint_lsn slot_lsn (ok _) = ok checkpoint_lsn

-- What each strategy promises of it.
abbrev pub promised_lsn : OffsetMismatchStrategy → ℕ → ℕ → Result ℕ
promised_lsn no_validation checkpoint_lsn slot_lsn = ok checkpoint_lsn
promised_lsn trust_offset checkpoint_lsn slot_lsn =
    if ltb checkpoint_lsn slot_lsn
    then err (state "PostgreSQL replication slot is ahead of the checkpoint")
    else ok checkpoint_lsn
promised_lsn _ checkpoint_lsn slot_lsn = ok (max checkpoint_lsn slot_lsn)

-- A decision settles on what its strategy promises.
pub resume_slot_decision-settled_lsn :
    (checkpoint_lsn slot_lsn : ℕ) (strategy : OffsetMismatchStrategy)
    → settled_lsn checkpoint_lsn slot_lsn (resume_slot_decision checkpoint_lsn slot_lsn strategy)
      ≡ promised_lsn strategy checkpoint_lsn slot_lsn
unfolding resume_slot_decision
resume_slot_decision-settled_lsn c s no_validation = ground arith
resume_slot_decision-settled_lsn c s trust_offset = ground arith
resume_slot_decision-settled_lsn c s trust_greater_lsn = ground arith
resume_slot_decision-settled_lsn c s trust_slot = ground arith

-- The stream starts at the checkpoint, whose position it keeps, or after it.
abbrev pub IsContinuous : PostgresPosition → ResumeSlotResolution → Type 0
IsContinuous checkpoint r =
    ((r.preserve_checkpoint_position ≡ true) × (r.start_lsn ≡ checkpoint.lsn))
    ⊎ ((r.preserve_checkpoint_position ≡ false) × (checkpoint_lsn_of checkpoint < r.start_lsn))

-- A decision to use the slot was made of a slot ahead of the checkpoint.
abbrev IsAhead : ℕ → ℕ → ResumeSlotDecision → Type 0
IsAhead checkpoint_lsn slot_lsn use_slot = checkpoint_lsn < slot_lsn
IsAhead checkpoint_lsn slot_lsn _ = Unit

checkpoint_ahead-IsAhead :
    (c s : ℕ) (strategy : OffsetMismatchStrategy) → OnOk (IsAhead c s) (checkpoint_ahead strategy)
checkpoint_ahead-IsAhead c s trust_slot = tt
checkpoint_ahead-IsAhead c s no_validation = tt
checkpoint_ahead-IsAhead c s trust_offset = tt
checkpoint_ahead-IsAhead c s trust_greater_lsn = tt

slot_ahead-IsAhead :
    (c s : ℕ) (strategy : OffsetMismatchStrategy) → c < s → OnOk (IsAhead c s) (slot_ahead strategy)
slot_ahead-IsAhead c s trust_offset h = tt
slot_ahead-IsAhead c s no_validation h = h
slot_ahead-IsAhead c s trust_greater_lsn h = h
slot_ahead-IsAhead c s trust_slot h = h

less : (c s : ℕ) → (c == s) ≡ false → ltb s c ≡ false → c < s
less c s h k = ground arith

resume_slot_decision-IsAhead :
    (checkpoint_lsn slot_lsn : ℕ) (strategy : OffsetMismatchStrategy)
    → OnOk (IsAhead checkpoint_lsn slot_lsn) (resume_slot_decision checkpoint_lsn slot_lsn strategy)
unfolding resume_slot_decision
resume_slot_decision-IsAhead c s strategy = elim (Bool-cases (c == s)) [
  | inl e ↦ rw e tt
  | inr e ↦ elim (Bool-cases (is_no_validation strategy)) [
    | inl n ↦ rw (e, n) tt
    | inr n ↦ elim (Bool-cases (ltb s c)) [
      | inl l ↦ rw (e, n, l) (checkpoint_ahead-IsAhead c s strategy)
      | inr l ↦ rw (e, n, l) (slot_ahead-IsAhead c s strategy (less c s e l))
    ]
  ]
]

refuse_if-passed :
    (refused : Bool) (message : String) → OnOk (λ _. refused ≡ false) (refuse_if refused message)
refuse_if-passed true message = tt
refuse_if-passed false message = refl

advanced-IsContinuous :
    (checkpoint : PostgresPosition) (advanced_lsn : ℕ)
    → ltb advanced_lsn (checkpoint_lsn_of checkpoint) ≡ false
    → IsContinuous checkpoint (after_advance checkpoint advanced_lsn)
advanced-IsContinuous checkpoint advanced_lsn h =
    elim (Bool-cases (advanced_lsn == checkpoint_lsn_of checkpoint)) [
      | inl e ↦ rw e (inl (refl, refl))
      | inr e ↦ rw e (inr (refl, more advanced_lsn (checkpoint_lsn_of checkpoint) e h))
    ]
  where
    more : (a c : ℕ) → (a == c) ≡ false → ltb a c ≡ false → c < a
    more a c h k = ground arith

module _ (server : Server) (checkpoint : PostgresPosition) where
  abbrev P : ResumeSlotResolution → Type 0
  P = IsContinuous checkpoint

  resolve-IsContinuous :
      (slot_lsn : ℕ) (decision : ResumeSlotDecision)
      → IsAhead (checkpoint_lsn_of checkpoint) slot_lsn decision
      → OnOk (IsContinuous checkpoint) (resolve server checkpoint slot_lsn decision)
  unfolding resolve
  resolve-IsContinuous slot_lsn use_checkpoint h = inl (refl, refl)
  resolve-IsContinuous slot_lsn use_slot h = inr (refl, h)
  resolve-IsContinuous slot_lsn advance_slot h = OnOk-after P (refuse_if _ _) _ (λ _.
      OnOk-after P (server.advance (checkpoint_lsn_of checkpoint)) _ (λ a.
        OnOk-bind (λ _. ltb a (checkpoint_lsn_of checkpoint) ≡ false) P
          (refuse_if (ltb a (checkpoint_lsn_of checkpoint))
            "PostgreSQL replication slot advanced only to a position before the checkpoint")
          (λ _. ok (after_advance checkpoint a))
          (refuse_if-passed (ltb a (checkpoint_lsn_of checkpoint)) _)
          (λ _ l. advanced-IsContinuous checkpoint a l)))

  resolve_resume_slot-OnOk :
      (strategy : OffsetMismatchStrategy)
      → OnOk (IsContinuous checkpoint) (resolve_resume_slot server strategy checkpoint)
  unfolding resolve_resume_slot
  resolve_resume_slot-OnOk strategy = OnOk-after P server.connected _ (λ _.
      OnOk-after P server.slot _ (λ found. OnOk-after P (or_missing found) _ (λ slot.
        OnOk-after P slot.plugin _ (λ plugin. OnOk-after P (refuse_if _ _) _ (λ _.
          OnOk-after P slot.wal_status _ (λ wal_status. OnOk-after P (refuse_if _ _) _ (λ _.
            OnOk-after P slot.lsn _ (λ slot_lsn.
              OnOk-bind (IsAhead (checkpoint_lsn_of checkpoint) slot_lsn) P _ _
                (resume_slot_decision-IsAhead (checkpoint_lsn_of checkpoint) slot_lsn strategy)
                (resolve-IsContinuous slot_lsn)))))))))

  -- A stream that resumes on its slot either starts at the checkpoint and keeps its position, or
  -- starts strictly after the log sequence number of the checkpoint and drops its position,
  -- whatever the server answers.
  pub resolve_resume_slot-IsContinuous :
      (strategy : OffsetMismatchStrategy) (r : ResumeSlotResolution)
      → resolve_resume_slot server strategy checkpoint ≡ ok r
      → IsContinuous checkpoint r
  resolve_resume_slot-IsContinuous strategy r e =
      subst (OnOk P) e (resolve_resume_slot-OnOk strategy)
