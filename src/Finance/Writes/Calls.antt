-- ===== src/Finance/Writes/Calls.antt =====
-- Rules by which `search` finds that a call makes none but these writes, and the capture of a payment.
use rydalux_app.Prelude.{
  ℕ, ◌+◌, ◌≡◌, refl, true, Bool, Option, none, some, find, arith, ⊤, ◌==◌, Option-cases, inl, inr,
}
use rydalux_app.Prelude.Int.{ℤ}
use rydalux_app.Money.Column.{DecimalText}
use rydalux_app.Service.{modify}
use rydalux_app.Service.Keeps.{Keeps, keeps_rules}
use rydalux_app.Finance.State.{AuditAction, Payment, DriverProfile, Db}
use rydalux_app.Finance.Payments.{
  audit, for_trip, earned_db, record_capture, pay_driver, capture_payment, capture_payment_for_trip,
}
use rydalux_app.Finance.Writes.{Writes}

module _ {webhooks : Bool} {start : Db} where
  -- A write on the tables beside the ledger, and one that makes a row there.
  pub Keeps-other_tables :
      (f : Db → Db)
      → ((db : Db) → (f db).accounts ≡ db.accounts)
      → ((db : Db) → (f db).wallets ≡ db.wallets)
      → ((db : Db) → (f db).transactions ≡ db.transactions)
      → ((db : Db) → (f db).entries ≡ db.entries)
      → ((db : Db) → (f db).provider_events ≡ db.provider_events)
      → ((db : Db) → (f db).next_id ≡ db.next_id)
      → Keeps (Writes webhooks start) (modify f)
  Keeps-other_tables f a w t e p n = record {
    at = λ db h.
        Writes.other_tables db (f db) (a db) (w db) (t db) (e db) (p db) (omega (arith, n db)) h;
  }

  pub Keeps-created :
      (f : Db → Db)
      → ((db : Db) → (f db).accounts ≡ db.accounts)
      → ((db : Db) → (f db).wallets ≡ db.wallets)
      → ((db : Db) → (f db).transactions ≡ db.transactions)
      → ((db : Db) → (f db).entries ≡ db.entries)
      → ((db : Db) → (f db).provider_events ≡ db.provider_events)
      → ((db : Db) → (f db).next_id ≡ db.next_id + 1)
      → Keeps (Writes webhooks start) (modify f)
  Keeps-created f a w t e p n = record {
    at = λ db h.
        Writes.other_tables db (f db) (a db) (w db) (t db) (e db) (p db) (omega (arith, n db)) h;
  }

pub ruleset write_rules = (keeps_rules, Keeps-other_tables, Keeps-created, refl)

module _ {webhooks : Bool} {start : Db} where
  pub audit-Keeps :
      (actor : Option ℕ) (a : AuditAction) (i : ℕ)
      → Keeps (Writes webhooks start) (modify (audit actor a i))
  audit-Keeps actor a i = search write_rules

  record_capture-Keeps :
      (p : Payment) (g : ℤ) → Keeps (Writes webhooks start) (modify (record_capture p g))
  unfolding record_capture
  record_capture-Keeps p g = record {
    at = λ db h. Writes.account_event _ _ (Writes.account_event db _ h);
  }

  earned-Writes :
      (p : Payment) (g : ℤ) (db : Db) (o : Option DriverProfile)
      → Writes webhooks start db
      → Writes webhooks start (earned_db p g db o)
  earned-Writes p g db none h = h
  earned-Writes p g db (some profile) h = Writes.account_event _ _ (Writes.wallet_event db _ h)

  pay_driver-Writes :
      (p : Payment) (d : ℕ) (g : ℤ) (db : Db)
      → Writes webhooks start db
      → Writes webhooks start (pay_driver p d g db)
  unfolding pay_driver
  pay_driver-Writes p d g db h = Writes.account_event _ _ (
      Writes.other_tables (earned_db p g db (find (λ x. x.id == d) db.drivers)) _ refl refl refl
        refl refl (omega arith) (earned-Writes p g db (find (λ x. x.id == d) db.drivers) h))

  pay_driver-Keeps :
      (p : Payment) (d : ℕ) (g : ℤ) → Keeps (Writes webhooks start) (modify (pay_driver p d g))
  pay_driver-Keeps p d g = record { at = pay_driver-Writes p d g }

  module _ ⦃decimal : DecimalText⦄ where
    capture_payment-Keeps :
        (p : Payment) (driver : Option ℕ) → Keeps (Writes webhooks start) (capture_payment p driver)
    unfolding capture_payment
    capture_payment-Keeps p none = search (write_rules, record_capture-Keeps) depth 8
    capture_payment-Keeps p (some d) =
        search (write_rules, record_capture-Keeps, pay_driver-Keeps) depth 8

    capture_payment_for_trip-Writes :
        (trip : ℕ) (driver : Option ℕ) (db : Db)
        → Writes webhooks start db
        → Writes webhooks start (capture_payment_for_trip trip driver db).1
    unfolding capture_payment_for_trip
    capture_payment_for_trip-Writes trip driver db h =
        elim (Option-cases (find (for_trip trip) db.payments)) [
          | inl missing ↦ ground arith
          | inr (p, found) ↦ ground (arith, (capture_payment-Keeps p driver).at db h)
        ]

    pub capture_payment_for_trip-Keeps :
        (trip : ℕ) (driver : Option ℕ)
        → Keeps (Writes webhooks start) (capture_payment_for_trip trip driver)
    capture_payment_for_trip-Keeps trip driver = record {
      at = capture_payment_for_trip-Writes trip driver;
    }
