-- ===== src/Finance/Payouts.antt =====
-- services/api/src/payments/payouts.service.ts: a driver's bank account and payout requests, and the
-- life of a payout in the hands of an admin.
mod Defs
mod Admin
pub mod Approval
pub mod Lifecycle
unfoldable pub use Defs.{
  is_payout, is_user, last4, min_payout_threshold, cooldown_end, add_payout_account,
  requested_payout, request_payout,
}
unfoldable pub use Admin.{
  has_status, payout_event, update_payout, record_approval, record_failure, validate_approval,
  approve_requested, approve_payout, reject_payout, mark_payout_processing, mark_payout_paid,
  mark_payout_failed,
}
