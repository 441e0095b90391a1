-- ===== src/Finance/Paystack/FullRefund.antt =====
-- What a full refund gives back, and what it leaves.
use rydalux_app.Prelude.{
  ℕ, ◌≡◌, ◌%◌, refl, arith, true, false, Option, none, some, find, is_some, Option-cases, List, [],
  ◌∷◌, update, ◌∙◌, ap, ◌==◌, inl, inr, if◌then◌else◌,
}
use rydalux_app.Prelude.Int.{ℤ, pos, ◌+ℤ◌, ◌-ℤ◌}
use rydalux_app.Money.{calculate_share}
use rydalux_app.Money.Column.{DecimalText, read_column}
use rydalux_app.Service.{ok, modify}
use rydalux_app.Service.Keeps.{Keeps, keeps_rules}
use rydalux_app.Finance.State.{Payment, Payout, Refund, DriverProfile, Db}
use rydalux_app.Finance.Events.{
  AccountEvent, WalletEvent, ensure_ledger_account, post_account_event, record_account_event,
  ensure_wallet, post_wallet_event, record_wallet_event,
}
use rydalux_app.Finance.Payments.{is_payment, driver_minor, commission_minor}
use rydalux_app.Finance.Paystack.Rows.{is_refund}
use rydalux_app.Finance.Paystack.Refunds.{
  refunded_earning, refunded_commission, reversal_result, reverse_refund,
  reverse_full_refund_ledger, is_processed, record_refund, record_earning_reversed, reverse_earning,
  reverse_driver, reverse_payout, reverse_driver_earning, reverse_full, reverse_processed,
}

-- Of any number of minor units, a capture credits the driver and the commission with parts that make
-- up the whole, and a full refund debits the same earning, but a commission that is less by one unit
-- unless the amount is a multiple of five.
pub refunded_commission_short :
    (n : ℕ)
    → (driver_minor (pos n) +ℤ commission_minor (pos n) ≡ pos n)
      × (refunded_earning (pos n) ≡ driver_minor (pos n))
      × (commission_minor (pos n)
          ≡ refunded_commission (pos n) +ℤ pos (if n % 5 == 0 then 0 else 1))
unfolding calculate_share ◌+ℤ◌ ◌-ℤ◌
refunded_commission_short n = (ground arith, refl, ground arith)

account_event-refunds :
    (e : AccountEvent) (db : Db) → (record_account_event e db).1.refunds ≡ db.refunds
unfolding record_account_event ensure_ledger_account post_account_event
account_event-refunds e db = ground arith

wallet_event-refunds :
    (e : WalletEvent) (db : Db) → (record_wallet_event e db).1.refunds ≡ db.refunds
unfolding record_wallet_event ensure_wallet post_wallet_event
wallet_event-refunds e db = ground arith

-- The refunds are these rows: so it stays up to the write on the refund itself.
record HasRefunds (rows : List Refund) (db : Db) : Type 0 where
  refunds_same : db.refunds ≡ rows

module _ {rows : List Refund} where
  same_refunds :
      (f : Db → Db) → ((db : Db) → (f db).refunds ≡ db.refunds) → Keeps (HasRefunds rows) (modify f)
  same_refunds f e = record { at = λ db h. record { refunds_same = e db ∙ h.refunds_same } }

  record_refund-same :
      (r : Refund) (p : Payment) (gross : ℤ)
      → Keeps (HasRefunds rows) (modify (record_refund r p gross))
  unfolding record_refund
  record_refund-same r p gross = record {
    at = λ db h. record {
      refunds_same = account_event-refunds _ _ ∙ account_event-refunds _ db ∙ h.refunds_same;
    };
  }

  record_earning_reversed-same :
      (r : Refund) (p : Payment) (payout : Payout) (user : ℕ) (amount : ℤ)
      → Keeps (HasRefunds rows) (modify (record_earning_reversed r p payout user amount))
  unfolding record_earning_reversed
  record_earning_reversed-same r p payout user amount = record {
    at = λ db h. record {
      refunds_same = account_event-refunds _ _ ∙ wallet_event-refunds _ db ∙ h.refunds_same;
    };
  }

ruleset refund_rules = (keeps_rules, same_refunds, refl)

module _ {rows : List Refund} ⦃decimal : DecimalText⦄ where
  reverse_earning-same :
      (r : Refund) (p : Payment) (payout : Payout) (user : ℕ) (amount : ℤ)
      → Keeps (HasRefunds rows) (reverse_earning r p payout user amount)
  unfolding reverse_earning
  reverse_earning-same r p payout user amount = search (refund_rules, record_earning_reversed-same)

  reverse_driver-same :
      (r : Refund) (p : Payment) (amount : ℤ) (payout : Payout) (o : Option DriverProfile)
      → Keeps (HasRefunds rows) (reverse_driver r p amount payout o)
  unfolding reverse_driver
  reverse_driver-same r p amount payout none = search keeps_rules
  reverse_driver-same r p amount payout (some driver) = search (refund_rules, reverse_earning-same)

  reverse_payout-same :
      (r : Refund) (p : Payment) (amount : ℤ) (o : Option Payout)
      → Keeps (HasRefunds rows) (reverse_payout r p amount o)
  unfolding reverse_payout
  reverse_payout-same r p amount none = search keeps_rules
  reverse_payout-same r p amount (some payout) = search (refund_rules, reverse_driver-same)

  reverse_driver_earning-same :
      (r : Refund) (p : Payment) (amount : ℤ)
      → Keeps (HasRefunds rows) (reverse_driver_earning r p amount)
  unfolding reverse_driver_earning
  reverse_driver_earning-same r p amount = search (keeps_rules, reverse_payout-same)

-- A refund that is found is found again after its stamp.
find-stamped :
    (id now : ℕ) (r : Refund) (rows : List Refund)
    → find (is_refund id) rows ≡ some r
    → find
        (is_refund id)
        (update (is_refund r.id) (λ q. record q { ledger_reversed_at = some now }) rows)
      ≡ some (record r { ledger_reversed_at = some now })
find-stamped id now r [] h = cc
find-stamped id now r (q ∷ rows) h = ground (arith, find-stamped id now r rows)

module _ ⦃decimal : DecimalText⦄ where
  -- The store before the stamp.
  abbrev before_stamp : Refund → Payment → ℤ → Db → Db
  before_stamp r p gross db =
      (reverse_driver_earning r p (refunded_earning gross) (record_refund r p gross db)).1

  before_stamp-refunds :
      (r : Refund) (p : Payment) (gross : ℤ) (db : Db)
      → (before_stamp r p gross db).refunds ≡ db.refunds
  before_stamp-refunds r p gross db =
      ((reverse_driver_earning-same r p (refunded_earning gross)).at (record_refund r p gross db)
        ((record_refund-same r p gross).at db (record { refunds_same = refl }))).refunds_same

  -- A full refund that returns has stamped its row, and no other.
  reverse_full-refunds :
      (r : Refund) (p : Payment) (gross : ℤ) (db db' : Db)
      → reverse_full r p gross db ≡ (ok (reversal_result true false), db')
      → db'.refunds
        ≡ update
            (is_refund r.id)
            (λ q. record q { ledger_reversed_at = some (before_stamp r p gross db).now })
            db.refunds
  unfolding reverse_full
  reverse_full-refunds r p gross db db' done = ground (arith, before_stamp-refunds r p gross db)

  processed-refunds :
      (r : Refund) (o : Option Payment) (db db' : Db)
      → reverse_processed r o db ≡ (ok (reversal_result true false), db')
      → (now : ℕ) × (db'.refunds
          ≡ update (is_refund r.id) (λ q. record q { ledger_reversed_at = some now }) db.refunds)
  unfolding reverse_processed
  processed-refunds r none db db' done = absurd (cc done)
  processed-refunds r (some p) db db' done = elim (Option-cases (read_column p.amount)) [
    | inl unread ↦ absurd (ground arith)
    | inr (gross, reads) ↦
        ((before_stamp r p gross db).now, ground (arith, reverse_full-refunds r p gross db db'))
  ]

  reversed_again :
      (id : ℕ) (r : Refund) (db : Db)
      → find (is_refund id) db.refunds ≡ some r
      → is_processed r.status ≡ true
      → is_some r.ledger_reversed_at ≡ true
      → reverse_full_refund_ledger id db ≡ (ok (reversal_result true true), db)
  unfolding reverse_full_refund_ledger reverse_refund
  reversed_again id r db found processed stamped = ground arith

  stamped_again :
      (id : ℕ) (r : Refund) (db db' : Db)
      → find (is_refund id) db.refunds ≡ some r
      → is_processed r.status ≡ true
      → (now : ℕ) × (db'.refunds
          ≡ update (is_refund r.id) (λ q. record q { ledger_reversed_at = some now }) db.refunds)
      → reverse_full_refund_ledger id db' ≡ (ok (reversal_result true true), db')
  stamped_again id r db db' found processed (now, stamped) =
      reversed_again id (record r { ledger_reversed_at = some now }) db'
        (ap (find (is_refund id)) stamped ∙ find-stamped id now r db.refunds found) processed refl

  -- The refund that a reversal which returns has found.
  reversal_found :
      (id : ℕ) (db db' : Db)
      → reverse_full_refund_ledger id db ≡ (ok (reversal_result true false), db')
      → (r : Refund) × (find (is_refund id) db.refunds ≡ some r)
        × (is_processed r.status ≡ true)
        × (reverse_processed r (find (is_payment r.payment_id) db.payments) db
            ≡ (ok (reversal_result true false), db'))
  unfolding reverse_full_refund_ledger reverse_refund
  reversal_found id db db' done = elim (Option-cases (find (is_refund id) db.refunds)) [
    | inl missing ↦ absurd (ground arith)
    | inr (r, found) ↦ (r, found, ground arith, ground arith)
  ]

  -- A full refund whose reversal has returned is not reversed again: the next call answers that it is
  -- reversed already, and writes nothing.
  pub reverse_full_refund_ledger_once :
      (id : ℕ) (db db' : Db)
      → reverse_full_refund_ledger id db ≡ (ok (reversal_result true false), db')
      → reverse_full_refund_ledger id db' ≡ (ok (reversal_result true true), db')
  reverse_full_refund_ledger_once id db db' done =
      let (r, found, processed, reversal) = reversal_found id db db' done in
      stamped_again id r db db' found processed
        (processed-refunds r (find (is_payment r.payment_id) db.payments) db db' reversal)
