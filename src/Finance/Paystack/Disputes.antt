-- ===== src/Finance/Paystack/Disputes.antt =====
-- Disputes of charges: the provider's events, and what an admin writes on them.
use rydalux_app.Prelude.{
  ℕ, ◌+◌, ◌&&◌, Bool, String, true, false, Option, none, some, ◌∷◌, map, find, update, ◌==◌, leb,
  or_option, or_default, same_text, if◌then◌else◌,
}
use rydalux_app.Prelude.Int.{ℤ, pos}
use rydalux_app.Money.{Text, codes, format_nat}
use rydalux_app.Service.{Action, not_found, pure, gets, or_raise, modify, ◌>>=◌, ◌>>◌}
use rydalux_app.Finance.State.{DisputeStatus, Dispute, Payment, AuditAction, WebhookData, Db}
use rydalux_app.Finance.Payments.{audit}
use rydalux_app.Finance.Paystack.Api.{is_text, non_empty}
use rydalux_app.Finance.Paystack.Rows.{payment_with_reference}

-- `toLowerCase`, which turns no letter outside ASCII into one that the statuses below have.
abbrev pub lower_code : ℕ → ℕ
lower_code c = if leb 65 c && leb c 90 then c + 32 else c

abbrev pub is_status : String → Option Text → Bool
is_status s none = false
is_status s (some t) = is_text s (map lower_code t)

-- `mapDisputeStatus`
unfoldable pub map_dispute_status : Text → Option Text → DisputeStatus
map_dispute_status event status =
    if is_status "won" status
    then DisputeStatus.won
    else if is_status "lost" status
    then DisputeStatus.lost
    else if is_status "resolved" status
    then DisputeStatus.closed
    else if is_text "charge.dispute.resolve" event
    then DisputeStatus.closed
    else if is_text "charge.dispute.remind" event
    then DisputeStatus.awaiting_response
    else DisputeStatus.open_dispute

abbrev pub is_resolved : DisputeStatus → Bool
is_resolved DisputeStatus.won = true
is_resolved DisputeStatus.lost = true
is_resolved DisputeStatus.closed = true
is_resolved _ = false

abbrev pub has_dispute_id : Text → Dispute → Bool
has_dispute_id id d = same_text d.provider_dispute_id id

abbrev pub disputed_amount : ℕ → Option ℤ
disputed_amount n = if n == 0 then none else some (pos n)

-- `data.transaction_reference ?? data.reference ?? null`
abbrev pub dispute_reference : WebhookData → Option Text
dispute_reference body = or_option body.transaction_reference body.reference

abbrev pub created_dispute : Text → Option ℕ → DisputeStatus → WebhookData → ℕ → ℕ → Dispute
created_dispute id payment status body now i = record {
  id = i;
  provider_dispute_id = id;
  payment_id = payment;
  reference = dispute_reference body;
  status = status;
  category = body.category;
  reason = or_option body.reason body.message;
  amount = disputed_amount body.amount;
  currency = or_default body.currency (codes "NGN");
  admin_status = none;
  admin_notes = none;
  resolved_by_id = none;
  resolved_at = if is_resolved status then some now else none;
}

-- Columns of which the event says nothing are left alone, and what an admin wrote is kept.
abbrev pub updated_dispute : Option ℕ → DisputeStatus → WebhookData → ℕ → Dispute → Dispute
updated_dispute payment status body now d = record d {
  payment_id = or_option payment d.payment_id;
  reference = dispute_reference body;
  status = status;
  category = or_option body.category d.category;
  reason = or_option (or_option body.reason body.message) d.reason;
  amount = or_option (disputed_amount body.amount) d.amount;
  currency = or_default body.currency (codes "NGN");
  resolved_at = if is_resolved status then some now else none;
}

-- The upsert.
unfoldable pub upsert_dispute : Text → Option ℕ → DisputeStatus → WebhookData → Db → Db
upsert_dispute id payment status body db = elim (find (has_dispute_id id) db.disputes) [
  | some d ↦ record db {
    disputes = update (has_dispute_id id) (updated_dispute payment status body db.now) db.disputes;
  }
  | none ↦ record db {
    next_id = db.next_id + 1;
    disputes = created_dispute id payment status body db.now db.next_id ∷ db.disputes;
  }
]

-- The payment that the event speaks of, by its reference, where that is not empty.
abbrev pub disputed_payment : Option Text → Db → Option Payment
disputed_payment none db = none
disputed_payment (some r) db = find (payment_with_reference r) db.payments

abbrev pub payment_id_of : Option Payment → Option ℕ
payment_id_of none = none
payment_id_of (some p) = some p.id

unfoldable pub dispute_event_of : Text → WebhookData → Option Text → Action Db Bool
dispute_event_of event body none = pure false
dispute_event_of event body (some id) = do
  payment ← gets (disputed_payment (non_empty (dispute_reference body)))
  modify (upsert_dispute id (payment_id_of payment) (map_dispute_status event body.status) body)
  pure true

abbrev pub id_text : Option ℕ → Option Text
id_text none = none
id_text (some i) = some (format_nat i)

-- `handleDisputeEvent`
unfoldable pub handle_dispute_event : Text → WebhookData → Action Db Bool
handle_dispute_event event body =
    dispute_event_of event body (non_empty (or_option body.dispute (id_text body.id)))

abbrev pub is_dispute : ℕ → Dispute → Bool
is_dispute i d = d.id == i

abbrev pub update_dispute : ℕ → (Dispute → Dispute) → Db → Db
update_dispute id f db = record db { disputes = update (is_dispute id) f db.disputes }

-- `updateDisputeAdminState`
unfoldable pub update_dispute_admin_state : ℕ → ℕ → Option Text → Option Text → Action Db Dispute
update_dispute_admin_state dispute_id admin admin_status admin_notes = do
  disputes ← gets (λ db. db.disputes)
  dispute ← or_raise (find (is_dispute dispute_id) disputes) (not_found "Dispute not found.")
  let updated : Dispute = record dispute {
    admin_status = or_option admin_status dispute.admin_status;
    admin_notes = or_option admin_notes dispute.admin_notes;
  }
  modify (update_dispute dispute_id (λ _. updated))
  modify (audit (some admin) AuditAction.dispute_admin_updated dispute_id)
  pure updated

pub data Resolution : Type 0 where
  won lost closed : Resolution

abbrev pub resolution_status : Resolution → DisputeStatus
resolution_status Resolution.won = DisputeStatus.won
resolution_status Resolution.lost = DisputeStatus.lost
resolution_status Resolution.closed = DisputeStatus.closed

abbrev pub resolution_text : Resolution → Text
resolution_text Resolution.won = codes "WON"
resolution_text Resolution.lost = codes "LOST"
resolution_text Resolution.closed = codes "CLOSED"

-- `resolveDispute`
unfoldable pub resolve_dispute : ℕ → ℕ → Resolution → Option Text → Action Db Dispute
resolve_dispute dispute_id admin resolution notes = do
  disputes ← gets (λ db. db.disputes)
  dispute ← or_raise (find (is_dispute dispute_id) disputes) (not_found "Dispute not found.")
  now ← gets (λ db. db.now)
  let updated : Dispute = record dispute {
    status = resolution_status resolution;
    admin_status = some (resolution_text resolution);
    admin_notes = or_option notes dispute.admin_notes;
    resolved_by_id = some admin;
    resolved_at = some now;
  }
  modify (update_dispute dispute_id (λ _. updated))
  modify (audit (some admin) AuditAction.dispute_resolved dispute_id)
  pure updated
