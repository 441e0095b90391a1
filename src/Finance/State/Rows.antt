-- ===== src/Finance/State/Rows.antt =====
-- One record for each table, and the store.
use rydalux_app.Prelude.{ℕ, Bool, Option, List, String}
use rydalux_app.Prelude.Int.{ℤ}
use rydalux_app.Money.{Text}
use rydalux_app.Finance.State.Names.{
  TransactionType, AccountCode, AccountType, LedgerEventType, Reference, ReferenceType,
  TransactionStatus, PaymentStatus, PayoutStatus, Provider, KycStatus, RefundStatus, DisputeStatus,
  ProviderEventStatus, OperationType, OperationStatus,
}

pub record Account : Type 0 where
  pub id : ℕ
  pub code : AccountCode
  pub account_type : AccountType
  pub currency : String
  pub balance : ℤ

pub record Wallet : Type 0 where
  pub id : ℕ
  pub user_id : ℕ
  pub currency : String
  pub balance : ℤ

pub record FinancialTransaction : Type 0 where
  pub id : ℕ
  pub event_type : LedgerEventType
  pub reference : Reference
  pub reference_type : ReferenceType
  pub reference_id : Option ℕ
  pub payment_id : Option ℕ
  pub payout_id : Option ℕ
  pub trip_id : Option ℕ
  pub currency : String
  pub amount : ℤ
  pub status : TransactionStatus
  pub total_debit : ℤ
  pub total_credit : ℤ
  pub posted_at : ℕ
  pub reversed_at : Option ℕ
  pub reversal_reference : Option Reference
  pub reversal_reference_id : Option ℕ
  pub reversed_by_admin_id : Option ℕ

pub record LedgerEntry : Type 0 where
  pub id : ℕ
  pub wallet_id : Option ℕ
  pub ledger_account_id : Option ℕ
  pub financial_transaction_id : ℕ
  pub event_type : LedgerEventType
  pub transaction_type : TransactionType
  pub amount : ℤ
  pub balance_after : ℤ
  pub reference_type : ReferenceType
  pub reference_id : Option ℕ

pub record WalletTransaction : Type 0 where
  pub wallet_id : ℕ
  pub financial_transaction_id : ℕ
  pub event_type : LedgerEventType
  pub transaction_type : TransactionType
  pub amount : ℤ
  pub balance_before : ℤ
  pub balance_after : ℤ

pub record Payment : Type 0 where
  pub id : ℕ
  pub user_id : ℕ
  pub trip_id : ℕ
  pub amount : ℤ
  pub currency : String
  pub reference : Text
  pub provider : Provider
  pub status : PaymentStatus
  pub external_id : Option ℕ

pub record Payout : Type 0 where
  pub id : ℕ
  pub driver_profile_id : ℕ
  pub amount : ℤ
  pub currency : String
  pub provider : Provider
  pub status : PayoutStatus
  pub provider_reference : Option Text
  pub provider_transfer_id : Option ℕ
  pub provider_transfer_code : Option Text
  pub transfer_failure_reason : Option Text
  pub requested_by_driver_id : Option ℕ
  pub approved_by_admin_id : Option ℕ
  pub approved_at : Option ℕ
  pub rejected_by_admin_id : Option ℕ
  pub rejected_at : Option ℕ
  pub rejection_reason : Option Text
  pub transfer_initiated_at : Option ℕ
  pub processed_at : Option ℕ
  pub failed_at : Option ℕ
  pub notes : Option Text

pub record BankAccount : Type 0 where
  pub bank_code : Text
  pub account_name : Text
  pub account_number_last4 : Text
  pub recipient_code : Option Text
  pub verified_at : Option ℕ
  pub re_auth_required_at : Option ℕ

-- A driver's profile, with its bank account.
pub record DriverProfile : Type 0 where
  pub id : ℕ
  pub user_id : ℕ
  pub payout_account_cooldown_until : Option ℕ
  pub bank_account : Option BankAccount

pub record KycCheck : Type 0 where
  pub user_id : ℕ
  pub status : KycStatus

-- The columns of a trip that the payment services read, with its rider's user id and its fare.
-- `completed` says that its status is COMPLETED.
pub record TripFare : Type 0 where
  pub id : ℕ
  pub rider_user_id : Option ℕ
  pub driver_profile_id : Option ℕ
  pub completed : Bool
  pub total_fare : Option ℤ

pub data AuditAction : Type 0 where
  payment_pending payment_authorized payment_captured : AuditAction
  payout_account_added payout_requested payout_approved payout_rejected : AuditAction
  payout_processing payout_paid payout_failed ledger_manual_adjustment : AuditAction
  payment_failed payout_transfer_initiated payout_transfer_failed : AuditAction
  payout_retry_initiated refund_ledger_reversed : AuditAction
  provider_event_retry provider_event_dead_letter finance_reconciliation_run : AuditAction
  dispute_admin_updated dispute_resolved : AuditAction

pub record AuditLog : Type 0 where
  pub actor_id : Option ℕ
  pub action : AuditAction
  pub entity_id : ℕ

-- An event that the outbox is to publish, by the payout that it speaks of.
pub data OutboxEntry : Type 0 where
  payout_approved payout_rejected : ℕ → OutboxEntry

-- What a webhook of the provider says, as far as it is read.
pub record WebhookData : Type 0 where
  pub id : Option ℕ
  pub reference : Option Text
  pub transfer_code : Option Text
  pub status : Option Text
  pub amount : ℕ
  pub currency : Option Text
  pub gateway_response : Option Text
  pub reason : Option Text
  pub transaction_reference : Option Text
  pub refund_reference : Option Text
  pub dispute : Option Text
  pub category : Option Text
  pub message : Option Text

pub record WebhookPayload : Type 0 where
  pub event : Text
  pub payload_data : WebhookData

pub record ProviderEvent : Type 0 where
  pub id : ℕ
  pub provider_event_id : Text
  pub event_type : Text
  pub reference : Option Text
  pub payload : WebhookPayload
  pub status : ProviderEventStatus
  pub attempt_count : ℕ
  pub last_error : Option Text
  pub next_retry_at : Option ℕ
  pub processed_at : Option ℕ
  pub dead_lettered_at : Option ℕ

pub record Refund : Type 0 where
  pub id : ℕ
  pub payment_id : ℕ
  pub amount : ℤ
  pub currency : String
  pub status : RefundStatus
  pub provider : Provider
  pub provider_reference : Text
  pub provider_refund_id : Option ℕ
  pub reason : Option Text
  pub requested_by_id : ℕ
  pub processed_at : Option ℕ
  pub failed_at : Option ℕ
  pub ledger_reversed_at : Option ℕ

-- A log row of a call of a provider, or of a reconciliation.
pub record FinancialOperation : Type 0 where
  pub id : ℕ
  pub operation_type : OperationType
  pub status : OperationStatus
  pub provider_reference : Option Text
  pub entity_id : ℕ
  pub next_retry_at : Option ℕ
  pub completed_at : Option ℕ

pub record Dispute : Type 0 where
  pub id : ℕ
  pub provider_dispute_id : Text
  pub payment_id : Option ℕ
  pub reference : Option Text
  pub status : DisputeStatus
  pub category : Option Text
  pub reason : Option Text
  pub amount : Option ℤ
  pub currency : Text
  pub admin_status : Option Text
  pub admin_notes : Option Text
  pub resolved_by_id : Option ℕ
  pub resolved_at : Option ℕ

-- The clock stands still during a call; `next_id` is the id that the next row gets.
pub record Db : Type 0 where
  pub now : ℕ
  pub next_id : ℕ
  pub accounts : List Account
  pub wallets : List Wallet
  pub transactions : List FinancialTransaction
  pub entries : List LedgerEntry
  pub wallet_transactions : List WalletTransaction
  pub payments : List Payment
  pub payouts : List Payout
  pub drivers : List DriverProfile
  pub kyc_checks : List KycCheck
  pub trips : List TripFare
  pub refunds : List Refund
  pub operations : List FinancialOperation
  pub provider_events : List ProviderEvent
  pub disputes : List Dispute
  pub audit_logs : List AuditLog
  pub outbox : List OutboxEntry
