-- ===== src/Finance/Payouts/Lifecycle.antt =====
-- The life of a payout: the statuses that the admin's calls lead to, from which ones, and that no
-- other call of theirs moves it.
use rydalux_app.Prelude.{
  ℕ, ◌≡◌, ◌⊎◌, Bool, true, Option, some, List, [], ◌∷◌, arith, find, update, ◌==◌, Bool-cases,
  is_some, ◌&&◌, Option-cases, inl, inr, find-update_self,
}
use rydalux_app.Prelude.Int.{ℤ}
use rydalux_app.Money.{Text}
use rydalux_app.Money.Column.{DecimalText}
use rydalux_app.Service.{Action, ok}
use rydalux_app.Finance.State.{
  Reference, PayoutPhase, PayoutStatus, requested, approved, rejected, processing, paid, failed,
  Payout, Db,
}
use rydalux_app.Finance.Events.{has_reference}
use rydalux_app.Finance.Events.Facts.{record_account_event-payouts}
use rydalux_app.Finance.Ledger.{validate_ledger_balance}
use rydalux_app.Finance.Payouts.Defs.{is_payout}
use rydalux_app.Finance.Payouts.Admin.{
  has_status, record_approval, record_failure, validate_approval, approve_requested, approve_payout,
  reject_payout, mark_payout_processing, mark_payout_paid, mark_payout_failed,
}

-- A call of the admin's, with the admin's id and the payout's first.
pub data Call : Type 0 where
  approve_call : Option Text → Call
  reject_call : Text → Call
  processing_call : Call
  paid_call : Option Text → Call
  failed_call : Text → Call

-- The step of a payout's life that a call makes.
pub data Moves : Call → PayoutStatus → PayoutStatus → Type 0 where
  approve : {comment : Option Text} → Moves (Call.approve_call comment) requested approved
  reject : {reason : Text} → Moves (Call.reject_call reason) requested rejected
  process : Moves Call.processing_call approved processing
  pay : {reference : Option Text} → Moves (Call.paid_call reference) processing paid
  fail : {reason : Text} → Moves (Call.failed_call reason) processing failed

pub data IsApproval : Call → Type 0 where
  approval : {comment : Option Text} → IsApproval (Call.approve_call comment)

-- The payout's approval is booked.
abbrev pub HasApproval : ℕ → Db → Type 0
HasApproval id db =
    is_some (find (has_reference (Reference.payout_event id PayoutPhase.approved)) db.transactions)
    ≡ true

module _ ⦃decimal : DecimalText⦄ where
  abbrev pub run_call : Call → ℕ → ℕ → Action Db Payout
  run_call (approve_call comment) admin id = approve_payout admin id comment
  run_call (reject_call reason) admin id = reject_payout admin id reason
  run_call processing_call admin id = mark_payout_processing admin id
  run_call (paid_call reference) admin id = mark_payout_paid admin id reference
  run_call (failed_call reason) admin id = mark_payout_failed admin id reason

-- What a call that answered with `q` has done to the payout: it was found as `p`, has taken the
-- call's step or was approved before, and is found as `q`.
pub record Stepped (c : Call) (id : ℕ) (q : Payout) (db db' : Db) : Type 0 where
  pub before : Payout
  pub found : find (is_payout id) db.payouts ≡ some before
  pub step :
      Moves c before.status q.status
      ⊎ (IsApproval c × (before.status ≡ approved) × HasApproval id db × (q ≡ before))
  pub after : find (is_payout id) db'.payouts ≡ some q

is_payout-id :
    (id : ℕ) (rows : List Payout) (p : Payout)
    → find (is_payout id) rows ≡ some p
    → (p.id == id) ≡ true
is_payout-id id [] p e = cc
is_payout-id id (r ∷ rows) p e = ground (arith, is_payout-id id rows p)

step_along : {c : Call} {s t s' t' : PayoutStatus} → s' ≡ s → t' ≡ t → Moves c s t → Moves c s' t'
step_along e f x = rw (e, f) x

module _ (admin id : ℕ) (q : Payout) (db : Db) where
  mark_payout_processing-Stepped :
      (mark_payout_processing admin id db).0 ≡ ok q
      → Stepped Call.processing_call id q db (mark_payout_processing admin id db).1
  unfolding mark_payout_processing
  mark_payout_processing-Stepped h = elim (Option-cases (find (is_payout id) db.payouts)) [
    | inl missing ↦ absurd (ground arith)
    | inr (p, found) ↦ record {
      before = p;
      found = found;
      step = inl (step_along (ground arith) (ground arith) process);
      after = ground (
        arith,
        is_payout-id id db.payouts p found,
        find-update_self (is_payout id) p q db.payouts found,
      );
    }
  ]

  mark_payout_paid-Stepped :
      (reference : Option Text)
      → (mark_payout_paid admin id reference db).0 ≡ ok q
      → Stepped (Call.paid_call reference) id q db (mark_payout_paid admin id reference db).1
  unfolding mark_payout_paid
  mark_payout_paid-Stepped reference h = elim (Option-cases (find (is_payout id) db.payouts)) [
    | inl missing ↦ absurd (ground arith)
    | inr (p, found) ↦ record {
      before = p;
      found = found;
      step = inl (step_along (ground arith) (ground arith) pay);
      after = ground (
        arith,
        is_payout-id id db.payouts p found,
        find-update_self (is_payout id) p q db.payouts found,
      );
    }
  ]

  reject_payout-Stepped :
      (reason : Text)
      → (reject_payout admin id reason db).0 ≡ ok q
      → Stepped (Call.reject_call reason) id q db (reject_payout admin id reason db).1
  unfolding reject_payout
  reject_payout-Stepped reason h = elim (Option-cases (find (is_payout id) db.payouts)) [
    | inl missing ↦ absurd (ground arith)
    | inr (p, found) ↦ record {
      before = p;
      found = found;
      step = inl (step_along (ground arith) (ground arith) reject);
      after = ground (
        arith,
        is_payout-id id db.payouts p found,
        find-update_self (is_payout id) p q db.payouts found,
      );
    }
  ]

-- The ledger's part of an approval or a failure leaves the payouts alone.
record_failure-payouts :
    (p : Payout) (amount : ℤ) (db : Db) → (record_failure p amount db).payouts ≡ db.payouts
unfolding record_failure
record_failure-payouts p amount db = grind (arith, record_account_event-payouts)

record_approval-payouts :
    (p : Payout) (amount : ℤ) (db : Db) → (record_approval p amount db).payouts ≡ db.payouts
unfolding record_approval
record_approval-payouts p amount db = grind (arith, record_account_event-payouts)

module _ ⦃decimal : DecimalText⦄ where
  validate_ledger_balance-payouts :
      (i : ℕ) (db : Db) → (validate_ledger_balance i db).1.payouts ≡ db.payouts
  unfolding validate_ledger_balance
  validate_ledger_balance-payouts i db = ground arith

  validate_approval-payouts : (i : ℕ) (db : Db) → (validate_approval i db).1.payouts ≡ db.payouts
  unfolding validate_approval
  validate_approval-payouts i db = grind (arith, validate_ledger_balance-payouts)

  mark_payout_failed-Stepped :
      (admin id : ℕ) (q : Payout) (db : Db) (reason : Text)
      → (mark_payout_failed admin id reason db).0 ≡ ok q
      → Stepped (Call.failed_call reason) id q db (mark_payout_failed admin id reason db).1
  unfolding mark_payout_failed
  mark_payout_failed-Stepped admin id q db reason h =
      elim (Option-cases (find (is_payout id) db.payouts)) [
        | inl missing ↦ absurd (ground arith)
        | inr (p, found) ↦ record {
          before = p;
          found = found;
          step = inl (step_along (ground arith) (ground arith) fail);
          after = grind (
            arith,
            record_failure-payouts,
            is_payout-id id db.payouts p found,
            find-update_self (is_payout id) p q db.payouts found,
          );
        }
      ]

  approve_requested-after :
      (admin : ℕ) (p q : Payout) (db : Db) (comment : Option Text)
      → (approve_requested admin p comment db).0 ≡ ok q
      → Moves (Call.approve_call comment) p.status q.status
        × (q.id ≡ p.id)
        × ((approve_requested admin p comment db).1.payouts
            ≡ update (is_payout p.id) (λ _. q) db.payouts)
  unfolding approve_requested
  approve_requested-after admin p q db comment h = (
    step_along (ground arith) (ground arith) approve,
    ground arith,
    grind (arith, record_approval-payouts, validate_approval-payouts),
  )

  -- The first test of `approvePayout`.
  abbrev is_approved_before : ℕ → Payout → Db → Bool
  is_approved_before id p db =
      is_some
        (find (has_reference (Reference.payout_event id PayoutPhase.approved)) db.transactions)
      && has_status PayoutStatus.approved p

  approve_payout-Stepped :
      (admin id : ℕ) (q : Payout) (db : Db) (comment : Option Text)
      → (approve_payout admin id comment db).0 ≡ ok q
      → Stepped (Call.approve_call comment) id q db (approve_payout admin id comment db).1
  unfolding approve_payout
  approve_payout-Stepped admin id q db comment h =
      elim (Option-cases (find (is_payout id) db.payouts)) [
        | inl missing ↦ absurd (ground arith)
        | inr (p, found) ↦ record {
          before = p;
          found = found;
          step = elim (Bool-cases (is_approved_before id p db)) [
            | inl old ↦ inr (approval, ground arith, ground arith, ground arith)
            | inr fresh ↦ inl (approve_requested-after admin p q db comment (ground arith)).0
          ];
          after = ground (
            arith,
            approve_requested-after admin p q db comment,
            is_payout-id id db.payouts p found,
            find-update_self (is_payout id) p q db.payouts found,
          );
        }
      ]

  -- Every admin call that answers has found the payout and stored the one it answers with. It has
  -- moved it by the step of that very call: an approval from REQUESTED to APPROVED, a rejection from
  -- REQUESTED to REJECTED, the start of processing from APPROVED to PROCESSING, a payment and a
  -- failure from PROCESSING to PAID and to FAILED. Only an approval may leave it as it is, where the
  -- payout is APPROVED and its approval booked.
  pub run_call-Stepped :
      (c : Call) (admin id : ℕ) (q : Payout) (db : Db)
      → (run_call c admin id db).0 ≡ ok q
      → Stepped c id q db (run_call c admin id db).1
  run_call-Stepped (approve_call comment) admin id q db h =
      approve_payout-Stepped admin id q db comment h
  run_call-Stepped (reject_call reason) admin id q db h =
      reject_payout-Stepped admin id q db reason h
  run_call-Stepped processing_call admin id q db h = mark_payout_processing-Stepped admin id q db h
  run_call-Stepped (paid_call reference) admin id q db h =
      mark_payout_paid-Stepped admin id q db reference h
  run_call-Stepped (failed_call reason) admin id q db h =
      mark_payout_failed-Stepped admin id q db reason h
