-- ===== src/Payments/Once.antt =====
-- StripeWebhookService.handleWebhook processes an event once, and one that fails leaves no trace but its row.
use innovents.Payments.Delivery.{Unwritten, dispatch-Unwritten, dispatch_webhooks}
use innovents.Payments.Dispatch.{
  dispatch, is_processed, set_processed, set_failed, find_webhook, claim_row, process_row,
  process_event, process_unless, handle_webhook, Reply, received, deduplicated,
}
use innovents.Payments.Webhook.{WebhookEvent}
use innovents.Payments.Tables.{webhook_key, WebhookStatus, WebhookRow, State, Error}
use innovents.Shared.{
  test_or, find_by, update_by, pure, raise, modify, ◌>>=◌, ◌>>◌, on_error, Result, ok, err, ℕ, ◌≡◌,
  refl, sym, subst, Bool, true, false, Option, none, some, List, [], ◌∷◌, arith,
}

find_webhook-update :
    (j : ℕ) (f : WebhookRow → WebhookRow) (ws : List WebhookRow) (w : WebhookRow)
    → ((x : WebhookRow) → (f x).event_id ≡ x.event_id)
    → find_by (λ x. x.event_id) j ws ≡ some w
    → find_by (λ x. x.event_id) j (update_by webhook_key w.id f ws) ≡ some (f w)
find_webhook-update j f [] w same found = ground arith
find_webhook-update j f (x ∷ ws) w same found = ground (arith, find_webhook-update j f ws w, same x)

-- A processed event is on record; a failed one is not, and wrote to the webhook table only.
abbrev Delivered : WebhookEvent → State → Result Error Reply × State → Type 0
Delivered e s (ok a, t) = test_or false is_processed (find_webhook e.id t) ≡ true
Delivered e s (err x, t) =
    (t ≡ record s { webhooks = t.webhooks; next_id = t.next_id })
    × (test_or true is_processed (find_webhook e.id t) ≡ false)

process_row-Delivered :
    (e : WebhookEvent) (now : ℕ) (w : WebhookRow) (u : State)
    → find_webhook e.id u ≡ some w
    → Delivered e u (process_row e now w.id u)
process_row-Delivered e now w u found =
    go (dispatch e.payload now u) (dispatch-Unwritten e.payload now u)
      (dispatch_webhooks e.payload now u)
  where
    noted : (f : WebhookRow → WebhookRow) (v : State) → State
    noted f v = record v { webhooks = update_by webhook_key w.id f v.webhooks }

    row :
        (f : WebhookRow → WebhookRow) (v : State)
        → ((x : WebhookRow) → (f x).event_id ≡ x.event_id)
        → v.webhooks ≡ u.webhooks
        → find_webhook e.id (noted f v) ≡ some (f w)
    row f v keeps_event same = find_webhook-update e.id f v.webhooks w keeps_event (
        subst (λ (ws : List WebhookRow). find_by (λ x. x.event_id) e.id ws ≡ some w) (sym same)
          found)

    go :
        (r : Result Error (Unit {0}) × State)
        → Unwritten u r
        → r.1.webhooks ≡ u.webhooks
        → Delivered e u (
            (on_error
                  ((λ _. r) >> modify (noted (set_processed now)))
                  (λ error. modify (noted set_failed) >> raise error)
                >> pure received)
              u)
    go (ok a, v) kept same = ground (arith, row (set_processed now) v (λ x. refl) same)
    go (err x, v) kept same = (
      subst
          (λ (z : State).
            noted set_failed z
            ≡ record u { webhooks = (noted set_failed z).webhooks; next_id = z.next_id })
          (sym kept) refl,
      ground (arith, row set_failed v (λ x. refl) same),
    )

process_event-Delivered :
    (e : WebhookEvent) (now : ℕ) (s : State) → Delivered e s (process_event e now s)
unfolding process_event
process_event-Delivered e now s = claimed (find_webhook e.id s) refl
  where
    claimed :
        (o : Option WebhookRow)
        → find_webhook e.id s ≡ o
        → Delivered e s ((claim_row e.id o >>= λ row. process_row e now row) s)
    claimed (some w) found = process_row-Delivered e now w s found
    claimed none found =
        process_row-Delivered e now
          (record {
            id = s.next_id;
            event_id = e.id;
            status = WebhookStatus.pending;
            processed_at = none;
          })
          (claim_row e.id none s).1 (ground arith)

handle_webhook-Delivered :
    (e : WebhookEvent) (now : ℕ) (s : State) → Delivered e s (handle_webhook (some e) now s)
unfolding handle_webhook
handle_webhook-Delivered e now s = seen (test_or false is_processed (find_webhook e.id s)) refl
  where
    seen :
        (b : Bool)
        → test_or false is_processed (find_webhook e.id s) ≡ b
        → Delivered e s (process_unless b e now s)
    seen true processed_before = processed_before
    seen false fresh = process_event-Delivered e now s

-- An event that was answered without an error is deduplicated from then on: its next delivery, at
-- any time and directly after, answers so and changes nothing.
pub handle_webhook-again :
    (e : WebhookEvent) (now later : ℕ) (s t : State) (a : Reply)
    → handle_webhook (some e) now s ≡ (ok a, t)
    → handle_webhook (some e) later t ≡ (ok deduplicated, t)
unfolding handle_webhook
handle_webhook-again e now later s t a answered =
    let on_record : Delivered e s (ok a, t) =
      subst (Delivered e s) answered (handle_webhook-Delivered e now s) in
    ground (arith, on_record)

-- An event whose processing threw changed nothing but the table of events, where it is not recorded as
-- processed, so that its next delivery is dispatched again.
pub handle_webhook-failed :
    (e : WebhookEvent) (now later : ℕ) (s t : State) (x : Error)
    → handle_webhook (some e) now s ≡ (err x, t)
    → (t ≡ record s { webhooks = t.webhooks; next_id = t.next_id })
      × (handle_webhook (some e) later t ≡ process_event e later t)
unfolding handle_webhook
handle_webhook-failed e now later s t x threw =
    let trace : Delivered e s (err x, t) =
      subst (Delivered e s) threw (handle_webhook-Delivered e now s) in
    (trace.0, ground (arith, trace.1))
