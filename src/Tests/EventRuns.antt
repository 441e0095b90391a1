-- ===== src/Tests/EventRuns.antt =====
-- Events, captures and the split of an amount.
use rydalux_app.Prelude.{◌≡◌, some, none, [], ◌∷◌, ℕ, ◌+◌, ◌*◌, ◌≤◌, ◌<◌, arith}
use rydalux_app.Prelude.Int.{pos}
use rydalux_app.Money.Column.{read_column-pos}
use rydalux_app.Service.{ok}
use rydalux_app.Finance.State.{Db, AccountCode, LedgerEventType, Reference, PaymentPhase}
use rydalux_app.Finance.Events.{AccountEvent}
use rydalux_app.Finance.Events.Accounts.{HasOwnAccounts}
use rydalux_app.Finance.Events.Abstract.{
  book_of, book_events, record_account_events, record_account_events-book_of,
}
use rydalux_app.Finance.Events.Reconciled.{IsReconciled}
use rydalux_app.Finance.Payments.{
  capture_payment_for_trip, capture_payment, driver_minor, commission_minor,
}
use rydalux_app.Finance.Payments.Split.{split-exact}
use rydalux_app.Finance.Payments.Capture.{
  capture_payment_for_trip_idem, capture_payment_for_trip-IsReconciled,
}
use rydalux_app.Tests.Libraries.{plain}
use rydalux_app.Tests.FinanceData.{books, books-IsReconciled, captured_event}

abbrev commission_event : AccountEvent
commission_event = record captured_event {
  event_type = LedgerEventType.platform_commission_recorded;
  reference = Reference.payment_event 5 PaymentPhase.commission;
  amount_minor = pos 50010;
  account_code = AccountCode.commission_revenue;
}

books-HasOwnAccounts : HasOwnAccounts books
books-HasOwnAccounts = record { distinct = ground arith; fresh = ground arith }

record_account_events-book_of_example :
    book_of (record_account_events (captured_event ∷ commission_event ∷ captured_event ∷ []) books)
    ≡ book_events (captured_event ∷ commission_event ∷ captured_event ∷ []) (book_of books)
record_account_events-book_of_example =
    record_account_events-book_of (captured_event ∷ commission_event ∷ captured_event ∷ []) books
      books-HasOwnAccounts

capture_payment_for_trip-IsReconciled_example :
    IsReconciled (capture_payment_for_trip ⦃decimal = plain⦄ 7 (some 4) books).1
capture_payment_for_trip-IsReconciled_example =
    capture_payment_for_trip-IsReconciled ⦃decimal = plain⦄ 7 (some 4) books books-IsReconciled

abbrev captured_books : Db
captured_books = (capture_payment_for_trip ⦃decimal = plain⦄ 7 (some 4) books).1

captures : capture_payment_for_trip ⦃decimal = plain⦄ 7 (some 4) books ≡ (ok tt, captured_books)
unfolding capture_payment_for_trip capture_payment
captures = ground (arith, read_column-pos ⦃d = plain⦄ 250050 (omega arith))

capture_payment_for_trip_idem_example :
    capture_payment_for_trip ⦃decimal = plain⦄ 7 none captured_books ≡ (ok tt, captured_books)
capture_payment_for_trip_idem_example =
    capture_payment_for_trip_idem ⦃decimal = plain⦄ 7 (some 4) none books captured_books captures

split-exact_example :
    (d : ℕ) × (c : ℕ) × (driver_minor (pos 250050) ≡ pos d)
    × (commission_minor (pos 250050) ≡ pos c)
    × (d + c ≡ 250050)
    × (5 * d ≤ 4 * 250050)
    × (4 * 250050 < 5 * d + 5)
split-exact_example = split-exact 250050
