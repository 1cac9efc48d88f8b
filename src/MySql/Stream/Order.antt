-- ===== src/MySql/Stream/Order.antt =====
-- crates/rustium-mysql/src/source.rs: the numbers that records get.
use rustium.Common.{
  ℕ, zero, suc, ◌+◌, ◌^◌, ◌<◌, Option, none, some, List, [], ◌∷◌, ◌++◌, length, ◌≡◌, refl, subst,
  ap, ◌∙◌, arith,
}
use rustium.Common.Ord.{nat_ord, list_ord, pair_ord}
use rustium.Common.Assoc.{add_one}
use rustium.Core.Error.{Result, ok, err}
use rustium.Core.Error.Returns.{OnOk, OnOk-after}
use rustium.Core.Event.{Row, EventSchema, ChangeEvent, TransactionMetadata, SourceRecord}
use rustium.Sources.Resume.{skip_resumed}
use rustium.MySql.Stream.{ActiveTransaction, StreamingState, next_serial, should_skip}
use rustium.MySql.Stream.Rows.{
  Parts, Context, Step, after, counted, images_of, event_of, row_record, rows_records,
}

abbrev pub order_in : Option TransactionMetadata → Option ℕ
order_in none = none
order_in (some t) = t.total_order

abbrev pub order_of : Option ChangeEvent → Option ℕ
order_of none = none
order_of (some event) = order_in event.transaction

abbrev pub orders : List SourceRecord → List (Option ℕ)
orders [] = []
orders (r ∷ records) = order_of r.event ∷ orders records

-- So many numbers one after the other.
abbrev pub consecutive : ℕ → ℕ → List (Option ℕ)
consecutive n zero = []
consecutive n (suc k) = some n ∷ consecutive (n + 1) k

-- The state of a stream that has caught up with its checkpoint, within a transaction.
abbrev pub within : ActiveTransaction → StreamingState → StreamingState
within t s = record s { transaction = some t; resume_position = none }

add_one-suc : (n : ℕ) → suc n < 2 ^ 64 → add_one n ≡ suc n
add_one-suc n h = omega arith

module _ (parts : Parts) where
  -- The column transformer leaves an event's place in its transaction as it is.
  abbrev pub KeepsTransaction : Type 0
  KeepsTransaction =
      (schema : EventSchema) (event : ChangeEvent)
      → (parts.transform_event schema event).transaction ≡ event.transaction

  row_record-order :
      KeepsTransaction
      → (c : Context) (images : Option Row × Option Row) (t : ActiveTransaction)
        (s : StreamingState)
      → orders (row_record parts c images (within t s)).0 ≡ some (add_one t.total_order) ∷ []
  unfolding row_record should_skip skip_resumed next_serial event_of
  row_record-order keeps c images t s = ap (λ m. order_in m ∷ []) (keeps c.schema _)

  orders-append : (xs ys : List SourceRecord) → orders (xs ++ ys) ≡ orders xs ++ orders ys
  orders-append [] ys = refl
  orders-append (x ∷ xs) ys = ap (order_of x.event ∷◌) (orders-append xs ys)

  after-OnOk :
      (xs : List SourceRecord) (p : Step) (zs all : List (Option ℕ))
      → orders xs ++ zs ≡ all
      → OnOk (λ r. orders r.0 ≡ zs) p
      → OnOk (λ r. orders r.0 ≡ all) (after parts xs p)
  after-OnOk xs (err e) zs all h k = tt
  after-OnOk xs (ok (rs, s)) zs all h k = orders-append xs rs ∙ ap (orders xs ++◌) k ∙ h

  counted_on :
      (n k : ℕ)
      → n + suc k < 2 ^ 64
      → some (add_one n) ∷ consecutive (add_one n + 1) k ≡ consecutive (n + 1) (suc k)
  counted_on n k h = ap (λ m. some m ∷ consecutive (m + 1) k) (next_order n k h)
    where
      next_order : (n k : ℕ) → n + suc k < 2 ^ 64 → add_one n ≡ n + 1
      next_order n k h = omega arith

  rows_records-OnOk :
      KeepsTransaction
      → (c : Context) (rows : List (Result (Option parts.BinlogRow × Option parts.BinlogRow)))
        (t : ActiveTransaction) (s : StreamingState)
      → t.total_order + length rows < 2 ^ 64
      → OnOk
          (λ r. orders r.0 ≡ consecutive (t.total_order + 1) (length rows))
          (rows_records parts c rows (within t s))
  unfolding rows_records row_record should_skip skip_resumed next_serial
  rows_records-OnOk keeps c [] t s h = refl
  rows_records-OnOk keeps c (pair ∷ rows) t s h =
      OnOk-after (λ r. orders r.0 ≡ consecutive (t.total_order + 1) (suc (length rows))) pair _
        (λ row.
          let images = images_of parts c.schema row in
          after-OnOk (row_record parts c images (within t s)).0 _
            (consecutive (add_one t.total_order + 1) (length rows)) _
            (ap (◌++ consecutive (add_one t.total_order + 1) (length rows))
                (row_record-order keeps c images t s)
              ∙ counted_on t.total_order (length rows) h)
            (rows_records-OnOk keeps c rows (counted (c.database, c.table) t)
              (next_serial c.anchor s).1 (omega (arith, h))))

  -- Within a transaction, past the checkpoint, where the count of its rows stays below 2^64 and
  -- where the column transformer leaves the place in the transaction as it is, the events of the
  -- rows of one rows event are counted one after the other from the transaction's count on.
  pub orders-rows_records :
      KeepsTransaction
      → (c : Context) (rows : List (Result (Option parts.BinlogRow × Option parts.BinlogRow)))
        (t : ActiveTransaction) (s left : StreamingState) (records : List SourceRecord)
      → t.total_order + length rows < 2 ^ 64
      → rows_records parts c rows (within t s) ≡ ok (records, left)
      → orders records ≡ consecutive (t.total_order + 1) (length rows)
  orders-rows_records keeps c rows t s left records h e =
      subst (OnOk (λ r. orders r.0 ≡ consecutive (t.total_order + 1) (length rows))) e
        (rows_records-OnOk keeps c rows t s h)
