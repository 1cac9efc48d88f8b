-- ===== src/SqlServer/Batch/Order/Chain.antt =====
-- crates/rustium-sqlserver/src/source.rs: records whose positions follow one another.
use rustium.Common.{
  false, Option, none, some, List, [], ◌∷◌, ◌++◌, ◌≡◌, refl, arith, Str, Bool-cases, inl, inr,
  subst, sym, ap,
}
use rustium.Common.Ord.{nat_ord, list_ord, pair_ord, gt, eq_of_not-gt, not_gt_trans}
use rustium.Core.Event.{SourceRecord}
use rustium.Core.Position.{SourcePosition, is_after, eq_position_iff}
use rustium.Runtime.Consume.{moved_backwards}
use rustium.SqlServer.Lsn.{Hex, HexLaws, sqlserver_position}
use rustium.SqlServer.Lsn.Order.{Triple, is_after-sqlserver_position}
use rustium.SqlServer.Batch.Order.{IsPlace}

-- Each record passes the runtime's guard after the one before it.
unfoldable pub Passes : Option SourcePosition → List SourceRecord → Type 0
Passes previous [] = Unit
Passes previous (r ∷ rest) =
    (moved_backwards previous r.position ≡ false) × Passes (some r.position) rest

module _ (hex : Hex) (database : Str) where
  abbrev pub at_place : Triple → SourcePosition
  at_place (commit, (change, serial)) = sqlserver_position hex database commit change serial false

  -- The records stand at places that do not decrease, from the first place to the last.
  unfoldable pub Chain : Triple → List SourceRecord → Triple → Type 0
  Chain from [] to = gt from to ≡ false
  Chain from (r ∷ rest) to =
      (t : Triple) × (IsPlace t
        × ((r.position ≡ at_place t) × ((gt from t ≡ false) × Chain t rest to)))

  pub Chain-weaken :
      (k from : Triple) (records : List SourceRecord) (to : Triple)
      → gt k from ≡ false
      → Chain from records to
      → Chain k records to
  unfolding Chain
  Chain-weaken k from [] to h c = not_gt_trans k from to h c
  Chain-weaken k from (r ∷ rest) to h (t, (p, (e, (g, c)))) =
      (t, (p, (e, (not_gt_trans k from t h g, c))))

  pub Chain-append :
      (from to end : Triple) (xs ys : List SourceRecord)
      → Chain from xs to
      → Chain to ys end
      → Chain from (xs ++ ys) end
  unfolding Chain
  Chain-append from to end [] ys h k = Chain-weaken from to ys end h k
  Chain-append from to end (x ∷ xs) ys (t, (p, (e, (g, c)))) k =
      (t, (p, (e, (g, Chain-append t to end xs ys c k))))

  is_after_place :
      HexLaws hex
      → (s t : Triple) → IsPlace s
      → IsPlace t
      → is_after (at_place t) (at_place s) ≡ gt t s
  is_after_place laws (c₁, (h₁, n₁)) (c₂, (h₂, n₂)) (p₁, q₁) (p₂, q₂) =
      is_after-sqlserver_position hex laws database c₂ h₂ c₁ h₁ n₂ n₁ p₂.0 q₂.0 p₁.0 q₁.0

  -- A step to a place that is not before the last one passes the guard.
  place_passes :
      HexLaws hex
      → (s t : Triple) → IsPlace s
      → IsPlace t
      → gt s t ≡ false
      → moved_backwards (some (at_place s)) (at_place t) ≡ false
  unfolding moved_backwards
  place_passes laws s t p q h = elim (Bool-cases (gt t s)) [
    | inl e ↦ rw (is_after_place laws s t p q, e) refl
    | inr e ↦
        ground
          (arith, ap at_place (eq_of_not-gt t s e h), eq_position_iff (at_place t) (at_place s))
  ]

  Chain-Passes-from :
      HexLaws hex
      → (from : Triple) (records : List SourceRecord) (to : Triple) → IsPlace from
      → Chain from records to
      → Passes (some (at_place from)) records
  unfolding Chain Passes
  Chain-Passes-from laws from [] to p c = tt
  Chain-Passes-from laws from (r ∷ rest) to p (t, (q, (e, (g, c)))) = (
    subst (λ position. moved_backwards (some (at_place from)) position ≡ false) (sym e)
        (place_passes laws from t p q g),
    subst (λ position. Passes (some position) rest) (sym e) (Chain-Passes-from laws t rest to q c),
  )

  -- A chain of records passes the runtime's guard from one to the next.
  pub Chain-Passes :
      HexLaws hex
      → (from : Triple) (records : List SourceRecord) (to : Triple) → Chain from records to
      → Passes none records
  unfolding Chain Passes moved_backwards
  Chain-Passes laws from [] to c = tt
  Chain-Passes laws from (r ∷ rest) to (t, (q, (e, (g, c)))) = (
    refl,
    subst (λ position. Passes (some position) rest) (sym e) (Chain-Passes-from laws t rest to q c),
  )
