-- ===== src/Finance/State/Names.antt =====
-- The enumerations of the finance tables, and the references that their rows are found by.
use rydalux_app.Prelude.{ℕ}
use native.Mathlib.Decide.{ℕ_discrete}

pub data TransactionType : Type 0 where
  credit debit : TransactionType

-- `platform:cash_clearing:NGN` and so on.
pub data AccountCode : Type 0 where
  cash_clearing commission_revenue driver_payable payout_clearing : AccountCode

pub data AccountType : Type 0 where
  asset revenue liability : AccountType

pub data LedgerEventType : Type 0 where
  rider_payment_pending rider_payment_authorized rider_payment_captured : LedgerEventType
  platform_commission_recorded driver_earning_recorded : LedgerEventType
  driver_payout_pending driver_payout_paid : LedgerEventType
  refund_pending refund_processed : LedgerEventType
  refund_commission_reversed refund_driver_earning_reversed : LedgerEventType
  payout_retry_initiated reconciliation_adjustment adjustment : LedgerEventType

-- What a reference speaks of: `payment:ID:captured`, `payout:ID:approved:driver-payable`, …
pub data PaymentPhase : Type 0 where
  pending authorized captured commission driver_earning driver_payable : PaymentPhase

pub data PayoutPhase : Type 0 where
  pending approved : PayoutPhase
  approved_driver_payable approved_payout_clearing : PayoutPhase
  failed_driver_payable failed_payout_clearing : PayoutPhase
  paid_wallet paid_driver_payable paid_clearing : PayoutPhase

pub data RefundPhase : Type 0 where
  processed commission_reversed : RefundPhase
  driver_earning_reversed_wallet driver_earning_reversed_driver_payable : RefundPhase

-- The unique `reference` of a financial transaction: the template that wrote the text, with the
-- values put into it. Stamps are milliseconds.
pub data Reference : Type 0 where
  payment_event : ℕ → PaymentPhase → Reference
  payout_event : ℕ → PayoutPhase → Reference
  refund_event : ℕ → RefundPhase → Reference
  manual_adjustment : ℕ → Reference
  reversal : Reference → ℕ → Reference

pub data ReferenceType : Type 0 where
  payment_row payout_row refund_row manual_adjustment manual_adjustment_counter : ReferenceType

pub data TransactionStatus : Type 0 where
  posted reversed : TransactionStatus

pub data PaymentStatus : Type 0 where
  pending authorized captured failed refunded cancelled : PaymentStatus

pub data PayoutStatus : Type 0 where
  requested approved rejected processing paid failed cancelled : PayoutStatus

pub data Provider : Type 0 where
  mock_paystack paystack flutterwave : Provider

pub data RefundStatus : Type 0 where
  pending processing processed failed cancelled : RefundStatus

pub data DisputeStatus : Type 0 where
  open_dispute awaiting_response under_review won lost closed : DisputeStatus

pub data ProviderEventStatus : Type 0 where
  pending processed failed dead_letter : ProviderEventStatus

pub data OperationType : Type 0 where
  transfer_initiation refund_initiation payout_retry manual_reconciliation : OperationType

pub data OperationStatus : Type 0 where
  processing succeeded failed needs_reconciliation dead_letter : OperationStatus

pub data KycStatus : Type 0 where
  pending submitted approved rejected suspended : KycStatus

pub AccountCode-discrete : Discrete AccountCode
AccountCode-discrete = hlevel

pub PayoutStatus-discrete : Discrete PayoutStatus
PayoutStatus-discrete = hlevel

pub Reference-discrete : Discrete Reference
Reference-discrete = hlevel ℕ_discrete
