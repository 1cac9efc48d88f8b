-- ===== src/SqlServer/Batch/Order.antt =====
-- crates/rustium-sqlserver/src/source.rs: the order of the records that a page of changes gives.
pub mod Chain
pub mod Process
use Prim.Native.Nat.{compare, Ordering}
use rustium.Common.{
  ℕ, zero, suc, subst, ◌<◌, ◌≤◌, Bool, true, false, not, Option, none, some, List, [], ◌∷◌, ◌++◌,
  ◌≡◌, refl, arith, length, str_eq, str_eq_iff, ◌≢◌, Str, sym, Bool-cases, inl, inr, ltb,
  if◌then◌else◌,
}
use rustium.Common.Ord.{
  nat_ord, list_ord, pair_ord, list_cmp, list_cmp_refl, list_cmp-eq, gt, is_gt, gt_trans,
  eq_of_not-gt, gt_irrefl, gt_asymm, not_gt_trans,
}
use rustium.Common.Int.{ℤ, pos, negsuc}
use rustium.Core.Event.{SourceRecord}
use rustium.Core.Position.{SourcePosition, is_after, eq_position, eq_position_iff}
use rustium.Core.Error.{Result, ok, err}
use rustium.Runtime.Consume.{moved_backwards}
use rustium.SqlServer.Lsn.{
  Bytes, IsBytes, Hex, HexLaws, lsn_size, max_lsn_bytes, sqlserver_position,
}
use rustium.SqlServer.Lsn.Order.{Triple, is_after-sqlserver_position}
use rustium.SqlServer.Stream.{commit_serial, RawChange, StreamingState}

abbrev pub IsLsn : Bytes → Type 0
IsLsn lsn = IsBytes lsn × (length lsn ≡ lsn_size)

abbrev full : ℕ → Bytes
full zero = []
full (suc n) = 255 ∷ full n

full_bound : (bytes : Bytes) → IsBytes bytes → gt bytes (full (length bytes)) ≡ false
full_bound [] h = refl
full_bound (b ∷ bytes) (hb, h) = ground (arith, full_bound bytes h)

-- No log sequence number is after the greatest.
max_lsn_bound : (lsn : Bytes) → IsLsn lsn → gt lsn max_lsn_bytes ≡ false
max_lsn_bound lsn (h, n) = subst (λ k. gt lsn (full k) ≡ false) n (full_bound lsn h)

pub max_lsn_bytes-IsLsn : IsLsn max_lsn_bytes
max_lsn_bytes-IsLsn = ground arith

abbrev pub number : ℤ → ℕ
number (pos n) = n
number (negsuc n) = 0

abbrev pub place : RawChange → Triple
place change = (change.commit_lsn, (change.change_lsn, number change.raw_operation))

abbrev pub commit_place : RawChange → Triple
commit_place change = (change.commit_lsn, (max_lsn_bytes, commit_serial))

abbrev pub IsPlace : Triple → Type 0
IsPlace (commit, (change, serial)) = IsLsn commit × IsLsn change

-- A change's place is before that of its commit's end.
pub place-commit_place :
    (change : RawChange)
    → IsPlace (place change)
    → number change.raw_operation < commit_serial
    → gt (place change) (commit_place change) ≡ false
place-commit_place change (hc, hh) h =
    let bound = max_lsn_bound change.change_lsn hh in
    rw (list_cmp_refl change.commit_lsn) (ground (arith, bound))

-- A later change of another commit is after the end of this one.
pub commit_place-next :
    (x y : RawChange)
    → gt (place x) (place y) ≡ false
    → str_eq y.commit_lsn x.commit_lsn ≡ false
    → gt (commit_place x) (place y) ≡ false
commit_place-next x y h e =
    ground (arith, str_eq_iff y.commit_lsn x.commit_lsn, list_cmp-eq x.commit_lsn y.commit_lsn)
