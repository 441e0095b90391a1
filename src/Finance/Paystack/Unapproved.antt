-- ===== src/Finance/Paystack/Unapproved.antt =====
-- A transfer that is started for a payout that nobody approved.
use rydalux_app.Prelude.{ℕ, ◌≡◌, arith, true, false, ◌&&◌, ◌||◌, Option, some, find, any}
use rydalux_app.Prelude.Int.{ℤ}
use rydalux_app.Money.{Text}
use rydalux_app.Money.Column.{DecimalText, read_column}
use rydalux_app.Service.{ok}
use rydalux_app.Finance.State.{Payout, Db}
use rydalux_app.Finance.Payments.{is_paystack}
use rydalux_app.Finance.Payouts.{is_payout}
use rydalux_app.Finance.Paystack.Api.{PaystackApi, TransferResponse, transfer_reference}
use rydalux_app.Finance.Paystack.Rows.{is_paid, is_failed}
use rydalux_app.Finance.Paystack.Transfers.{
  paid_result, processing_result, awaits_money, pay_mock_payout, mark_mock_payout_paid, driver_of,
  recipient_of, is_transferring, is_approved_payout, accepted_code, store_transfer, accept_transfer,
  finish_transfer, start_transfer, transfer_payout, initiate_payout_transfer,
  approve_payout_by_transfer,
}

module _ ⦃decimal : DecimalText⦄ ⦃api : PaystackApi⦄ where
  -- Where no provider is asked, an approval of a stored payout that is neither approved nor in
  -- process nor failed nor paid answers that it is paid, and writes nothing at all.
  pub approve_payout_mocked :
      (approver payout_id : ℕ) (comment : Option Text) (p : Payout) (db : Db)
      → find (is_payout payout_id) db.payouts ≡ some p
      → (api.has_secret_key && is_paystack p.provider) ≡ false
      → awaits_money p.status ≡ false
      → is_failed p.status ≡ false
      → is_paid p.status ≡ false
      → approve_payout_by_transfer approver payout_id comment db ≡ (ok paid_result, db)
  unfolding approve_payout_by_transfer initiate_payout_transfer mark_mock_payout_paid
      pay_mock_payout
  approve_payout_mocked approver payout_id comment p db found mock idle alive unpaid = ground arith

  unapproved-store :
      (payout_id operation : ℕ) (reference : Text) (r : TransferResponse) (code : Text)
      (comment : Option Text) (approver : ℕ) (db : Db)
      → any (is_approved_payout payout_id) db.payouts ≡ false
      → store_transfer payout_id operation reference r code comment approver db ≡ db
  unfolding store_transfer
  unapproved-store payout_id operation reference r code comment approver db h = ground arith

  unapproved-start :
      (p : Payout) (recipient : Text) (approver : ℕ) (comment : Option Text) (amount : ℤ)
      (r : TransferResponse) (code : Text) (db : Db)
      → read_column p.amount ≡ some amount
      → api.transfer amount recipient comment (transfer_reference p.id) ≡ some r
      → accepted_code r ≡ some code
      → any (is_approved_payout p.id) db.payouts ≡ false
      → ((start_transfer p recipient approver comment db).0 ≡ ok (processing_result (some code)))
        × ((start_transfer p recipient approver comment db).1.payouts ≡ db.payouts)
        × ((start_transfer p recipient approver comment db).1.audit_logs ≡ db.audit_logs)
  unfolding start_transfer finish_transfer accept_transfer store_transfer
  unapproved-start p recipient approver comment amount r code db reads sent accepted idle =
      ground arith

  -- Where a stored payout of the provider is neither paid nor failed nor in transfer, no payout of its
  -- id is approved, its driver has a recipient, its amount is read and the provider accepts the
  -- transfer of it, an approval answers that it is processing, with the transfer's code, while the
  -- payouts and the audit logs stay as they were.
  pub approve_payout_unapproved :
      (approver payout_id : ℕ) (comment : Option Text) (p : Payout) (recipient : Text) (amount : ℤ)
      (r : TransferResponse) (code : Text) (db : Db)
      → find (is_payout payout_id) db.payouts ≡ some p
      → any (is_approved_payout p.id) db.payouts ≡ false
      → (is_paid p.status || is_failed p.status || is_transferring p) ≡ false
      → (api.has_secret_key && is_paystack p.provider) ≡ true
      → recipient_of (driver_of p db) ≡ some recipient
      → read_column p.amount ≡ some amount
      → api.transfer amount recipient comment (transfer_reference p.id) ≡ some r
      → accepted_code r ≡ some code
      → ((approve_payout_by_transfer approver payout_id comment db).0
          ≡ ok (processing_result (some code)))
        × ((approve_payout_by_transfer approver payout_id comment db).1.payouts ≡ db.payouts)
        × ((approve_payout_by_transfer approver payout_id comment db).1.audit_logs ≡ db.audit_logs)
  unfolding approve_payout_by_transfer initiate_payout_transfer transfer_payout
  approve_payout_unapproved approver payout_id comment p recipient amount r code db found idle live
        asks known reads sent accepted =
      ground (
        arith,
        unapproved-start p recipient approver comment amount r code db reads sent accepted idle,
      )
