-- ===== src/Sources/Resume.antt =====
-- `StreamingState::should_skip`, which the MySQL, SQL Server and PostgreSQL sources each have: what
-- a restarted stream replays is skipped up to the position of the checkpoint.
use rustium.Common.{
  Bool, true, false, Option, none, some, List, [], ◌∷◌, ◌++◌, ◌≡◌, refl, ap, arith, Bool-cases, inl,
  inr, if◌then◌else◌,
}
use rustium.Core.Position.{SourcePosition, is_at_or_before}
use rustium.Core.Position.Order.{is_at_or_before_trans}

-- Whether to skip the position, and the position to resume from that is left.
unfoldable pub skip_resumed : Option SourcePosition → SourcePosition → Bool × Option SourcePosition
skip_resumed none position = (false, none)
skip_resumed (some resume) position =
    if is_at_or_before position resume then (true, some resume) else (false, none)

-- The records that pass, where each has a position.
module _ {A : Type 0} (position_of : A → SourcePosition) where
  abbrev pub is_replayed : Option SourcePosition → A → Bool
  is_replayed none a = false
  is_replayed (some resume) a = is_at_or_before (position_of a) resume

  unfoldable pub keep_new : Option SourcePosition → List A → List A
  keep_new resume [] = []
  keep_new resume (a ∷ rest) =
      let kept = keep_new resume rest in if is_replayed resume a then kept else a ∷ kept

  -- The replay of a stream: `should_skip` before each record, with the state that it leaves.
  unfoldable pub replay : Option SourcePosition → List A → List A × Option SourcePosition
  unfolding skip_resumed
  replay resume [] = ([], resume)
  replay resume (a ∷ rest) =
      let (skipped, left) = skip_resumed resume (position_of a) in
      let (kept, end) = replay left rest in (if skipped then kept else a ∷ kept, end)

  -- Each record is at or before the next ones.
  abbrev pub IsFloor : SourcePosition → List A → Type 0
  IsFloor p [] = Unit
  IsFloor p (a ∷ rest) = (is_at_or_before p (position_of a) ≡ true) × IsFloor p rest

  unfoldable pub IsOrdered : List A → Type 0
  IsOrdered [] = Unit
  IsOrdered (a ∷ rest) = IsFloor (position_of a) rest × IsOrdered rest

  pub replay-none : (stream : List A) → replay none stream ≡ (stream, none)
  unfolding replay
  replay-none [] = refl
  replay-none (a ∷ rest) = rw (replay-none rest) refl

  keep_all_of_floor :
      (resume : SourcePosition) (a : A) (stream : List A)
      → is_at_or_before (position_of a) resume ≡ false
      → IsFloor (position_of a) stream
      → keep_new (some resume) stream ≡ stream
  unfolding keep_new
  keep_all_of_floor resume a [] h f = refl
  keep_all_of_floor resume a (b ∷ rest) h (f, fs) =
      elim (Bool-cases (is_at_or_before (position_of b) resume)) [
        | inl e ↦
            absurd (ground (arith, is_at_or_before_trans (position_of a) (position_of b) resume))
        | inr e ↦ rw e (ap (b ∷◌) (keep_all_of_floor resume a rest h fs))
      ]

  -- In a stream where every position is at or before the later ones, skipping up to the first new
  -- record keeps exactly the records that are not at or before the checkpoint.
  pub replay-eq-keep_new :
      (resume : Option SourcePosition) (stream : List A)
      → IsOrdered stream
      → (replay resume stream).0 ≡ keep_new resume stream
  unfolding replay keep_new IsOrdered
  replay-eq-keep_new none [] h = refl
  replay-eq-keep_new none (a ∷ rest) (f, h) = ap (a ∷◌) (replay-eq-keep_new none rest h)
  replay-eq-keep_new (some r) [] h = refl
  replay-eq-keep_new (some r) (a ∷ rest) (f, h) =
      elim (Bool-cases (is_at_or_before (position_of a) r)) [
        | inl e ↦ rw e (replay-eq-keep_new (some r) rest h)
        | inr e ↦ rw (e, replay-none rest, keep_all_of_floor r a rest e f) refl
      ]

  -- The replay goes on where the replay of what came before stopped.
  pub replay-append :
      (xs ys : List A) (resume : Option SourcePosition)
      → replay resume (xs ++ ys) ≡ (
          let (kept, left) = replay resume xs in
          let (more, end) = replay left ys in (kept ++ more, end))
  unfolding replay
  replay-append [] ys resume = refl
  replay-append (a ∷ xs) ys resume = elim (Bool-cases (skip_resumed resume (position_of a)).0) [
    | inl e ↦ rw e (replay-append xs ys _)
    | inr e ↦ rw e (ap (λ p. (a ∷ p.0, p.1)) (replay-append xs ys _))
  ]
