-- ===== src/Payments/Dispatch.antt =====
-- StripeWebhookService.handleWebhook: each event of the provider is processed once.
use innovents.Payments.Billing.{
  handle_updated, handle_deleted, handle_invoice_paid, handle_invoice_failed,
  handle_charge_refunded,
}
use innovents.Shared.{
  if◌then◌else◌, test_or, find_by, update_by, Action, pure, raise, gets, modify, or_raise, ◌>>=◌,
  ◌>>◌, on_error, ℕ, suc, Bool, true, false, ◌&&◌, ◌||◌, Option, none, some, ◌∷◌,
}
use innovents.Payments.Tables.{
  webhook_key, WebhookStatus, WebhookRow, State, Error, processed, invalid_signature,
}
use innovents.Payments.Webhook.{
  activate_sponsorship, Mode, Session, Payload, WebhookEvent, one_payment, recurring, other_mode,
  checkout_completed, subscription_updated, subscription_deleted, invoice_paid,
  invoice_payment_failed, charge_refunded, unhandled,
}
use innovents.Payments.Renewal.{activate_subscription}

abbrev pub is_mode : Mode → Mode → Bool
is_mode one_payment one_payment = true
is_mode recurring recurring = true
is_mode other_mode other_mode = true
is_mode _ _ = false

unfoldable pub handle_checkout : Session → ℕ → Action State Error (Unit {0})
handle_checkout e now =
    if is_mode e.mode one_payment && e.pays_sponsorship
    then activate_sponsorship e now
    else if is_mode e.mode recurring || e.pays_subscription
    then activate_subscription e now
    else pure tt

unfoldable pub dispatch : Payload → ℕ → Action State Error (Unit {0})
dispatch (checkout_completed e) now = handle_checkout e now
dispatch (subscription_updated e) now = modify (handle_updated e)
dispatch (subscription_deleted stripe_id) now = handle_deleted stripe_id now
dispatch (invoice_paid e) now = handle_invoice_paid e now
dispatch (invoice_payment_failed stripe_id) now = handle_invoice_failed stripe_id
dispatch (charge_refunded e) now = modify (handle_charge_refunded e now)
dispatch unhandled now = pure tt

abbrev pub is_processed : WebhookRow → Bool
is_processed w = elim w.status [ processed ↦ true | _ ↦ false ]

abbrev pub set_processed : ℕ → WebhookRow → WebhookRow
set_processed now w = record w { status = processed; processed_at = some now }

abbrev pub set_failed : WebhookRow → WebhookRow
set_failed w = record w { status = WebhookStatus.failed }

abbrev pub find_webhook : ℕ → State → Option WebhookRow
find_webhook event_id s = find_by (λ w. w.event_id) event_id s.webhooks

-- `received`, or `deduplicated` for an event that was processed before.
pub data Reply : Type 0 where
  received deduplicated : Reply

-- The row of an event: the one that is there, or a new one.
abbrev pub claim_row : ℕ → Option WebhookRow → Action State Error ℕ
claim_row event_id (some w) = pure w.id
claim_row event_id none = do
  id ← gets (λ s. s.next_id)
  modify (λ s. record s {
    webhooks =
        record { id = id; event_id = event_id; status = WebhookStatus.pending; processed_at = none }
        ∷ s.webhooks;
    next_id = suc s.next_id;
  })
  pure id

-- Dispatch an event, and note on its row how that went.
abbrev pub process_row : WebhookEvent → ℕ → ℕ → Action State Error Reply
process_row e now row = do
  on_error
      (dispatch e.payload now
        >> modify
            (λ s. record s { webhooks = update_by webhook_key row (set_processed now) s.webhooks }))
      (λ error.
        modify (λ s. record s { webhooks = update_by webhook_key row set_failed s.webhooks })
        >> raise error)
  pure received

unfoldable pub process_event : WebhookEvent → ℕ → Action State Error Reply
process_event e now = do row ← claim_row e.id (← gets (find_webhook e.id)); process_row e now row

abbrev pub process_unless : Bool → WebhookEvent → ℕ → Action State Error Reply
process_unless true e now = pure deduplicated
process_unless false e now = process_event e now

-- `verified` is the event that the provider reads from the signed body, or nothing.
unfoldable pub handle_webhook : Option WebhookEvent → ℕ → Action State Error Reply
handle_webhook verified now = do
  e ← or_raise verified invalid_signature
  seen ← gets (λ s. test_or false is_processed (find_webhook e.id s))
  process_unless seen e now
