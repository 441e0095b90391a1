-- ===== src/Finance/Paystack/Rows.antt =====
-- The writes of the Paystack service on one table each.
use rydalux_app.Prelude.{
  ℕ, ◌+◌, ◌*◌, Bool, true, false, Option, none, some, ◌∷◌, update, ◌==◌, same_text,
}
use rydalux_app.Money.{Text}
use rydalux_app.Finance.State.{
  PaymentStatus, PayoutStatus, OperationType, OperationStatus, Payment, Refund, FinancialOperation,
  ProviderEvent, BankAccount, Db,
}
use rydalux_app.Finance.Payments.{is_payment}

abbrev pub payment_with_reference : Text → Payment → Bool
payment_with_reference r p = same_text p.reference r

abbrev pub update_payment : ℕ → (Payment → Payment) → Db → Db
update_payment id f db = record db { payments = update (is_payment id) f db.payments }

abbrev pub is_refund : ℕ → Refund → Bool
is_refund id r = r.id == id

abbrev pub update_refund : ℕ → (Refund → Refund) → Db → Db
update_refund id f db = record db { refunds = update (is_refund id) f db.refunds }

abbrev pub create_refund : Refund → Db → Db
create_refund r db = record db { next_id = db.next_id + 1; refunds = r ∷ db.refunds }

abbrev pub is_operation : ℕ → FinancialOperation → Bool
is_operation id o = o.id == id

abbrev pub update_operation : ℕ → (FinancialOperation → FinancialOperation) → Db → Db
update_operation id f db = record db { operations = update (is_operation id) f db.operations }

abbrev pub create_operation : FinancialOperation → Db → Db
create_operation o db = record db { next_id = db.next_id + 1; operations = o ∷ db.operations }

abbrev pub is_event_row : ℕ → ProviderEvent → Bool
is_event_row id e = e.id == id

abbrev pub update_event : ℕ → (ProviderEvent → ProviderEvent) → Db → Db
update_event id f db = record db { provider_events = update (is_event_row id) f db.provider_events }

abbrev pub create_event : ProviderEvent → Db → Db
create_event e db = record db { next_id = db.next_id + 1; provider_events = e ∷ db.provider_events }

abbrev pub set_bank_account : ℕ → BankAccount → Db → Db
set_bank_account driver account db = record db {
  drivers = update (λ d. d.id == driver) (λ d. record d { bank_account = some account }) db.drivers;
}

-- A status on which a charge event changes nothing.
abbrev pub is_settled : PaymentStatus → Bool
is_settled PaymentStatus.captured = true
is_settled PaymentStatus.failed = true
is_settled PaymentStatus.refunded = true
is_settled _ = false

abbrev pub is_paid : PayoutStatus → Bool
is_paid PayoutStatus.paid = true
is_paid _ = false

abbrev pub is_failed : PayoutStatus → Bool
is_failed PayoutStatus.failed = true
is_failed _ = false

abbrev pub is_processing : PayoutStatus → Bool
is_processing PayoutStatus.processing = true
is_processing _ = false

-- `Date.now()` and some minutes.
abbrev pub minutes_later : ℕ → ℕ → ℕ
minutes_later minutes now = now + minutes * 60 * 1000

-- An operation that calls the provider, as it is created.
abbrev pub new_operation :
    OperationType → OperationStatus → Option Text → ℕ → Option ℕ → ℕ → FinancialOperation
new_operation type status reference entity completed_at i = record {
  id = i;
  operation_type = type;
  status = status;
  provider_reference = reference;
  entity_id = entity;
  next_retry_at = none;
  completed_at = completed_at;
}

-- The operation failed, and is to be tried again in a quarter of an hour.
abbrev pub fail_operation : ℕ → FinancialOperation → FinancialOperation
fail_operation now o = record o {
  status = OperationStatus.failed;
  next_retry_at = some (minutes_later 15 now);
}

-- The operation of a refund's initiation, for `updateMany`.
abbrev pub initiates_refund : ℕ → FinancialOperation → Bool
initiates_refund refund o = elim o.operation_type [
  | OperationType.refund_initiation ↦ o.entity_id == refund
  | _ ↦ false
]

abbrev pub update_refund_operations : ℕ → (FinancialOperation → FinancialOperation) → Db → Db
update_refund_operations refund f db = record db {
  operations = update (initiates_refund refund) f db.operations;
}
