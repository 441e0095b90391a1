-- ===== src/Tests/PayoutRuns.antt =====
-- The admin's calls on payouts.
use rydalux_app.Prelude.{◌≡◌, refl, false, some, none, ◌∷◌, [], arith}
use rydalux_app.Service.{ok, succeeded}
use rydalux_app.Finance.State.{Payout, PayoutStatus}
use rydalux_app.Finance.Payouts.{approve_payout, reject_payout}
use rydalux_app.Finance.Payouts.Approval.{approve_payout_throws}
use rydalux_app.Finance.Payouts.Lifecycle.{Call, run_call, Stepped, run_call-Stepped}
use rydalux_app.Tests.Libraries.{plain}
use rydalux_app.Tests.FinanceData.{books, payout}

abbrev rejection : Call
rejection = Call.reject_call (b'n' ∷ b'o' ∷ [])

abbrev rejected_payout : Payout
rejected_payout = record payout {
  status = PayoutStatus.rejected;
  rejected_by_admin_id = some 70;
  rejected_at = some 1000;
  rejection_reason = some (b'n' ∷ b'o' ∷ []);
}

rejects : (run_call ⦃decimal = plain⦄ rejection 70 6 books).0 ≡ ok rejected_payout
unfolding reject_payout
rejects = refl

run_call-Stepped_example :
    Stepped rejection 6 rejected_payout books (run_call ⦃decimal = plain⦄ rejection 70 6 books).1
run_call-Stepped_example =
    run_call-Stepped ⦃decimal = plain⦄ rejection 70 6 rejected_payout books rejects

approve_payout_throws_example :
    succeeded (approve_payout ⦃decimal = plain⦄ 70 6 none books).0 ≡ false
approve_payout_throws_example =
    approve_payout_throws ⦃decimal = plain⦄ 70 payout none 199999 books refl refl (omega arith) refl
      tt
