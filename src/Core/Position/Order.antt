-- ===== src/Core/Position/Order.antt =====
-- crates/rustium-core/src/event.rs: `is_after` and `is_at_or_before` as orders.
use rustium.Common.{◌≡◌, refl, Bool, true, false, ◌&&◌, arith, Str, str_eq, str_eq_iff}
use rustium.Common.Ord.{nat_ord, list_ord, pair_ord, gt_irrefl, gt_trans}
use rustium.Core.Position.{
  SourcePosition, postgres, my_sql, sql_server, oracle, mongo_db, debezium, postgres_key,
  my_sql_key, sql_server_key, oracle_key, mongo_db_key, debezium_key, eq_position_iff, is_after,
  is_at_or_before,
}

and-false : (a : Bool) → (a && false) ≡ false
and-false a = ground arith

-- No position is after itself.
pub is_after_irrefl : (p : SourcePosition) → is_after p p ≡ false
unfolding is_after
is_after_irrefl (postgres p) = gt_irrefl (postgres_key p)
is_after_irrefl (my_sql p) = gt_irrefl (my_sql_key p)
is_after_irrefl (sql_server p) = gt_irrefl (sql_server_key p)
is_after_irrefl (oracle p) = gt_irrefl (oracle_key p)
is_after_irrefl (mongo_db p) = gt_irrefl (mongo_db_key p)
is_after_irrefl (debezium p) = rw (gt_irrefl (debezium_key p)) (and-false _)

both_trans :
    (a b c d e f : Bool)
    → (a ≡ true → c ≡ true → e ≡ true)
    → (b ≡ true → d ≡ true → f ≡ true)
    → (a && b) ≡ true
    → (c && d) ≡ true
    → (e && f) ≡ true
both_trans a b c d e f h k p q = ground arith

str_eq_trans : (s t u : Str) → str_eq s t ≡ true → str_eq t u ≡ true → str_eq s u ≡ true
str_eq_trans s t u h k = ground (arith, str_eq_iff s t, str_eq_iff t u, str_eq_iff s u)

-- A position after one that is after a third is after the third.
is_after_trans :
    (p q r : SourcePosition) → is_after p q ≡ true → is_after q r ≡ true → is_after p r ≡ true
unfolding is_after
is_after_trans (postgres p) (postgres q) (postgres r) h k =
    gt_trans (postgres_key p) (postgres_key q) (postgres_key r) h k
is_after_trans (my_sql p) (my_sql q) (my_sql r) h k =
    gt_trans (my_sql_key p) (my_sql_key q) (my_sql_key r) h k
is_after_trans (sql_server p) (sql_server q) (sql_server r) h k =
    gt_trans (sql_server_key p) (sql_server_key q) (sql_server_key r) h k
is_after_trans (oracle p) (oracle q) (oracle r) h k =
    gt_trans (oracle_key p) (oracle_key q) (oracle_key r) h k
is_after_trans (mongo_db p) (mongo_db q) (mongo_db r) h k =
    gt_trans (mongo_db_key p) (mongo_db_key q) (mongo_db_key r) h k
is_after_trans (debezium p) (debezium q) (debezium r) h k =
    both_trans (str_eq p.connector q.connector) _ (str_eq q.connector r.connector) _ _ _
      (str_eq_trans p.connector q.connector r.connector)
      (gt_trans (debezium_key p) (debezium_key q) (debezium_key r)) h k
is_after_trans _ _ _ h k = cc

-- Of two positions at most one is after the other.
is_after_asymm : (p q : SourcePosition) → is_after p q ≡ true → is_after q p ≡ false
is_after_asymm p q h = ground (arith, is_after_trans p q p, is_after_irrefl p)

-- A position is at or before itself.
pub is_at_or_before_refl : (p : SourcePosition) → is_at_or_before p p ≡ true
unfolding is_at_or_before
is_at_or_before_refl p = rw ((eq_position_iff p p).1 refl)

-- A position at or before one that is at or before a third is at or before the third.
pub is_at_or_before_trans :
    (p q r : SourcePosition)
    → is_at_or_before p q ≡ true
    → is_at_or_before q r ≡ true
    → is_at_or_before p r ≡ true
unfolding is_at_or_before
is_at_or_before_trans p q r h k =
    ground
      (arith, eq_position_iff p q, eq_position_iff q r, eq_position_iff p r, is_after_trans r q p)

-- Two positions that are each at or before the other are equal.
is_at_or_before_antisymm :
    (p q : SourcePosition) → is_at_or_before p q ≡ true → is_at_or_before q p ≡ true → p ≡ q
unfolding is_at_or_before
is_at_or_before_antisymm p q h k =
    ground (arith, eq_position_iff p q, eq_position_iff q p, is_after_asymm p q)
