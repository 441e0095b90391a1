-- ===== src/Finance/Paystack/TransferWrites.antt =====
-- What the calls that start and retry a transfer write.
use rydalux_app.Prelude.{ℕ, refl, arith, Bool, Option, none, some, any, Bool-cases, inl, inr}
use rydalux_app.Money.{Text}
use rydalux_app.Money.Column.{DecimalText}
use rydalux_app.Service.{Error}
use rydalux_app.Service.Keeps.{Keeps, Keeps-modify, keeps_rules}
use rydalux_app.Finance.State.{Payout, Db}
use rydalux_app.Finance.Paystack.Api.{PaystackApi, TransferResponse}
use rydalux_app.Finance.Paystack.ChargeWrites.{mark_mock_payout_paid-Keeps}
use rydalux_app.Finance.Paystack.Transfers.{
  is_approved_payout, store_transfer, accept_transfer, accepted_code, finish_transfer,
  start_transfer, transfer_payout, initiate_payout_transfer, approve_payout_by_transfer,
  try_transfer, fail_retry, retry_failed, retry_payout_transfer,
}
use rydalux_app.Finance.Writes.{Writes}
use rydalux_app.Finance.Writes.Calls.{write_rules}

module _ {webhooks : Bool} {start : Db} where
  store_transfer-Writes :
      (payout operation : ℕ) (reference : Text) (r : TransferResponse) (code : Text)
      (comment : Option Text) (approver : ℕ) (db : Db)
      → Writes webhooks start db
      → Writes webhooks start (store_transfer payout operation reference r code comment approver db)
  unfolding store_transfer
  store_transfer-Writes payout operation reference r code comment approver db h =
      elim (Bool-cases (any (is_approved_payout payout) db.payouts)) [
        | inl e ↦
            rw (e, store_transfer)
              (Writes.other_tables db _ refl refl refl refl refl (omega arith) h)
        | inr e ↦ rw (e, store_transfer) h
      ]

  accept_transfer-Keeps :
      (payout operation : ℕ) (reference : Text) (comment : Option Text) (approver : ℕ)
      (r : TransferResponse) (code : Option Text)
      → Keeps
          (Writes webhooks start)
          (accept_transfer payout operation reference comment approver r code)
  unfolding accept_transfer
  accept_transfer-Keeps payout operation reference comment approver r none = search write_rules
  accept_transfer-Keeps payout operation reference comment approver r (some code) =
      search (keeps_rules, Keeps-modify, store_transfer-Writes)

  finish_transfer-Keeps :
      (payout operation : ℕ) (reference : Text) (comment : Option Text) (approver : ℕ)
      (r : Option TransferResponse)
      → Keeps
          (Writes webhooks start)
          (finish_transfer payout operation reference comment approver r)
  unfolding finish_transfer
  finish_transfer-Keeps payout operation reference comment approver none = search write_rules
  finish_transfer-Keeps payout operation reference comment approver (some r) =
      accept_transfer-Keeps payout operation reference comment approver r (accepted_code r)

  module _ ⦃decimal : DecimalText⦄ ⦃api : PaystackApi⦄ where
    start_transfer-Keeps :
        (p : Payout) (recipient : Text) (approver : ℕ) (comment : Option Text)
        → Keeps (Writes webhooks start) (start_transfer p recipient approver comment)
    unfolding start_transfer
    start_transfer-Keeps p recipient approver comment =
        search (write_rules, finish_transfer-Keeps) depth 8

    transfer_payout-Keeps :
        (approver : ℕ) (comment : Option Text) (p : Payout)
        → Keeps (Writes webhooks start) (transfer_payout approver comment p)
    unfolding transfer_payout
    transfer_payout-Keeps approver comment p = search (keeps_rules, start_transfer-Keeps)

    pub initiate_payout_transfer-Keeps :
        (payout approver : ℕ) (comment : Option Text)
        → Keeps (Writes webhooks start) (initiate_payout_transfer payout approver comment)
    unfolding initiate_payout_transfer
    initiate_payout_transfer-Keeps payout approver comment =
        search (keeps_rules, transfer_payout-Keeps, mark_mock_payout_paid-Keeps) depth 8

    try_transfer-Keeps :
        (payout operation admin : ℕ) (comment : Option Text)
        → Keeps (Writes webhooks start) (try_transfer payout operation admin comment)
    unfolding try_transfer
    try_transfer-Keeps payout operation admin comment =
        search (write_rules, initiate_payout_transfer-Keeps) depth 8

    fail_retry-Keeps :
        (payout operation : ℕ) (e : Error)
        → Keeps (Writes webhooks start) (fail_retry payout operation e)
    unfolding fail_retry
    fail_retry-Keeps payout operation e = search write_rules depth 8

    retry_failed-Keeps :
        (admin : ℕ) (comment : Option Text) (p : Payout)
        → Keeps (Writes webhooks start) (retry_failed admin comment p)
    unfolding retry_failed
    retry_failed-Keeps admin comment p =
        search (write_rules, try_transfer-Keeps, fail_retry-Keeps) depth 8

    pub retry_payout_transfer-Keeps :
        (payout admin : ℕ) (comment : Option Text)
        → Keeps (Writes webhooks start) (retry_payout_transfer payout admin comment)
    unfolding retry_payout_transfer
    retry_payout_transfer-Keeps payout admin comment =
        search (keeps_rules, retry_failed-Keeps) depth 8

    pub approve_payout_by_transfer-Keeps :
        (approver payout : ℕ) (comment : Option Text)
        → Keeps (Writes webhooks start) (approve_payout_by_transfer approver payout comment)
    unfolding approve_payout_by_transfer
    approve_payout_by_transfer-Keeps approver payout comment =
        search (keeps_rules, initiate_payout_transfer-Keeps) depth 8
