-- ===== src/Finance/Payments/Capture.antt =====
-- What a capture keeps of the books, and that it happens once.
use rydalux_app.Prelude.{
  ℕ, ◌≡◌, refl, ap, ◌∙◌, ◌==◌, ◌+◌, is_none, List, [], ◌∷◌, Option, none, some, Bool, false, not,
  ◌&&◌, arith, find, update, Option-cases, Bool-cases, inl, inr,
}
use rydalux_app.Prelude.Int.{ℤ}
use rydalux_app.Money.Column.{DecimalText, read_column}
use rydalux_app.Service.{ok}
use rydalux_app.Finance.State.{PaymentStatus, Payment, Payout, DriverProfile, AuditAction, Db}
use rydalux_app.Finance.Events.Facts.{record_account_event-payments, record_wallet_event-payments}
use rydalux_app.Finance.Events.Reconciled.{
  IsReconciled, accounts_below, wallets_below, record_account_event-IsReconciled,
  record_wallet_event-IsReconciled,
}
use rydalux_app.Finance.Payments.{
  audit, driver_minor, earned_db, is_payment, for_trip, is_capturable, is_paystack, mark_captured,
  record_capture, pay_driver, capture_payment, capture_payment_for_trip,
}

record_capture-payments :
    (p : Payment) (g : ℤ) (db : Db) → (record_capture p g db).payments ≡ db.payments
unfolding record_capture
record_capture-payments p g db = grind (arith, record_account_event-payments)

pay_driver-payments :
    (p : Payment) (d : ℕ) (g : ℤ) (db : Db) → (pay_driver p d g db).payments ≡ db.payments
unfolding pay_driver
pay_driver-payments p d g db = elim (Option-cases (find (λ x. x.id == d) db.drivers)) [
  | inl e ↦ grind (arith, record_account_event-payments, record_wallet_event-payments)
  | inr (x, e) ↦ grind (arith, record_account_event-payments, record_wallet_event-payments)
]

-- The trip's payment is found again, captured, when the payments with its id are.
find-captured :
    (trip : ℕ) (p : Payment) (rows : List Payment)
    → find (for_trip trip) rows ≡ some p
    → find
        (for_trip trip)
        (update (is_payment p.id) (λ q. record q { status = PaymentStatus.captured }) rows)
      ≡ some (record p { status = PaymentStatus.captured })
find-captured trip p [] h = cc
find-captured trip p (q ∷ rows) h = ground (arith, find-captured trip p rows)

mark_captured-IsReconciled :
    (p : Payment) (db : Db) → IsReconciled db → IsReconciled (mark_captured p db)
mark_captured-IsReconciled p db h = record {
  accounts_match = h.accounts_match;
  wallets_match = h.wallets_match;
  accounts_fresh = h.accounts_fresh;
  wallets_fresh = h.wallets_fresh;
}

audit-IsReconciled :
    (a : AuditAction) (i : ℕ) (db : Db) → IsReconciled db → IsReconciled (audit none a i db)
audit-IsReconciled a i db h = record {
  accounts_match = h.accounts_match;
  wallets_match = h.wallets_match;
  accounts_fresh = h.accounts_fresh;
  wallets_fresh = h.wallets_fresh;
}

add_payout-IsReconciled :
    (p : Payout) (db : Db)
    → IsReconciled db
    → IsReconciled (record db { next_id = db.next_id + 1; payouts = p ∷ db.payouts })
add_payout-IsReconciled p db h = record {
  accounts_match = h.accounts_match;
  wallets_match = h.wallets_match;
  accounts_fresh = accounts_below _ _ db.accounts (omega arith) h.accounts_fresh;
  wallets_fresh = wallets_below _ _ db.wallets (omega arith) h.wallets_fresh;
}

record_capture-IsReconciled :
    (p : Payment) (g : ℤ) (db : Db) → IsReconciled db → IsReconciled (record_capture p g db)
unfolding record_capture
record_capture-IsReconciled p g db h =
    record_account_event-IsReconciled _ _ (record_account_event-IsReconciled _ db h)

pay_driver-IsReconciled :
    (p : Payment) (d : ℕ) (g : ℤ) (db : Db) → IsReconciled db → IsReconciled (pay_driver p d g db)
unfolding pay_driver
pay_driver-IsReconciled p d g db h =
    record_account_event-IsReconciled _ _
      (add_payout-IsReconciled _ _ (earned-IsReconciled (find (λ x. x.id == d) db.drivers)))
  where
    earned-IsReconciled : (o : Option DriverProfile) → IsReconciled (earned_db p g db o)
    earned-IsReconciled none = h
    earned-IsReconciled (some profile) =
        record_account_event-IsReconciled _ _ (record_wallet_event-IsReconciled _ db h)

-- The step on the driver in a capture.
abbrev paid_driver : Payment → Option ℕ → ℤ → Db → Db
paid_driver p none amount db = db
paid_driver p (some d) amount db = pay_driver p d amount db

paid_driver-IsReconciled :
    (p : Payment) (driver : Option ℕ) (amount : ℤ) (db : Db)
    → IsReconciled db
    → IsReconciled (paid_driver p driver amount db)
paid_driver-IsReconciled p none amount db h = h
paid_driver-IsReconciled p (some d) amount db h = pay_driver-IsReconciled p d amount db h

module _ ⦃decimal : DecimalText⦄ where
  capture_payment-payments :
      (p : Payment) (driver : Option ℕ) (db : Db)
      → (capture_payment p driver db).0 ≡ ok tt
      → (capture_payment p driver db).1.payments ≡ (mark_captured p db).payments
  unfolding capture_payment
  capture_payment-payments p none db h = grind (arith, record_capture-payments)
  capture_payment-payments p (some d) db h =
      grind (arith, record_capture-payments, pay_driver-payments)

  capture_captured :
      (trip : ℕ) (driver : Option ℕ) (p : Payment) (db : Db)
      → find (for_trip trip) db.payments ≡ some p
      → is_capturable p.status ≡ false
      → capture_payment_for_trip trip driver db ≡ (ok tt, db)
  unfolding capture_payment_for_trip
  capture_captured trip driver p db found done = ground arith

  abbrev is_captured_by_call : Payment → Bool
  is_captured_by_call p =
      is_capturable p.status && not (is_paystack p.provider && is_none p.external_id)

  -- A capture that has returned is not done again, whoever drove: the next one returns and writes
  -- nothing.
  pub capture_payment_for_trip_idem :
      (trip : ℕ) (driver driver' : Option ℕ) (db db' : Db)
      → capture_payment_for_trip trip driver db ≡ (ok tt, db')
      → capture_payment_for_trip trip driver' db' ≡ (ok tt, db')
  unfolding capture_payment_for_trip
  capture_payment_for_trip_idem trip driver driver' db db' h =
      elim (Option-cases (find (for_trip trip) db.payments)) [
        | inl missing ↦ ground arith
        | inr (p, found) ↦ elim (Bool-cases (is_captured_by_call p)) [
          | inl captures ↦
              let same : db'.payments ≡ (mark_captured p db).payments =
                ground (arith, capture_payment-payments p driver db) in
              capture_captured trip driver' (record p { status = PaymentStatus.captured }) db'
                (ap (find (for_trip trip)) same ∙ find-captured trip p db.payments found) refl
          | inr passes ↦ ground arith
        ]
      ]

  abbrev captured_db : Payment → Option ℕ → ℤ → Db → Db
  captured_db p driver g db =
      audit none AuditAction.payment_captured p.id
        (paid_driver p driver (driver_minor g) (record_capture p g (mark_captured p db)))

  capture_payment-writes :
      (p : Payment) (driver : Option ℕ) (g : ℤ) (db : Db)
      → read_column p.amount ≡ some g
      → (capture_payment p driver db).1 ≡ captured_db p driver g db
  unfolding capture_payment
  capture_payment-writes p none g db e = ground arith
  capture_payment-writes p (some d) g db e = ground arith

  capture_payment-unread :
      (p : Payment) (driver : Option ℕ) (db : Db)
      → read_column p.amount ≡ none
      → (capture_payment p driver db).1 ≡ mark_captured p db
  unfolding capture_payment
  capture_payment-unread p driver db e = ground arith

  capture_payment-IsReconciled :
      (p : Payment) (driver : Option ℕ) (db : Db)
      → IsReconciled db
      → IsReconciled (capture_payment p driver db).1
  capture_payment-IsReconciled p driver db h = elim (Option-cases (read_column p.amount)) [
    | inl e ↦ rw (capture_payment-unread p driver db e) (mark_captured-IsReconciled p db h)
    | inr (g, e) ↦ rw (capture_payment-writes p driver g db e) (
        audit-IsReconciled _ p.id _ (
          paid_driver-IsReconciled p driver (driver_minor g) _
            (record_capture-IsReconciled p g _ (mark_captured-IsReconciled p db h))))
  ]

  -- From books where every balance is the sum of its entries and every account and wallet has an id
  -- below the next one, a capture leads to such books, whether it returns or throws.
  pub capture_payment_for_trip-IsReconciled :
      (trip : ℕ) (driver : Option ℕ) (db : Db)
      → IsReconciled db
      → IsReconciled (capture_payment_for_trip trip driver db).1
  unfolding capture_payment_for_trip
  capture_payment_for_trip-IsReconciled trip driver db h =
      elim (Option-cases (find (for_trip trip) db.payments)) [
        | inl missing ↦ ground arith
        | inr (p, found) ↦ ground (arith, capture_payment-IsReconciled p driver db h)
      ]
