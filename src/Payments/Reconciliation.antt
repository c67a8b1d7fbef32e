-- ===== src/Payments/Reconciliation.antt =====
-- PaymentReconciliationService: src/modules/payments/services/payment-reconciliation.service.ts.
use innovents.Shared.{
  leb, if◌then◌else◌, or_default, count_where, update_by, ℕ, ◌+◌, ◌-◌, ◌*◌, Bool, not, ◌&&◌, Option,
  none, some, List, [], ◌∷◌,
}
use innovents.Payments.Tables.{payment_key, is_pending, PaymentStatus, Payment, State}
use innovents.Payments.Webhook.{set_paid, or_nonzero, intent_taken}

-- What the provider answers for a checkout session: paid, with its intent; expired; anything else; or
-- an exception.
pub data Lookup : Type 0 where
  paid : Option ℕ → Lookup
  session_expired unsettled unavailable : Lookup

pub record Report : Type 0 where
  pub scanned : ℕ
  pub succeeded : ℕ
  pub failed : ℕ
  pub unresolved : ℕ
  pub errors : ℕ

abbrev pub set_failed : ℕ → Payment → Payment
set_failed now p = record p { status = PaymentStatus.failed; failed_at = some now }

abbrev pub count_succeeded : Report → Report
count_succeeded r = record r { succeeded = r.succeeded + 1 }

abbrev pub count_failed : Report → Report
count_failed r = record r { failed = r.failed + 1 }

abbrev pub count_unresolved : Report → Report
count_unresolved r = record r { unresolved = r.unresolved + 1 }

abbrev pub count_error : Report → Report
count_error r = record r { unresolved = r.unresolved + 1; errors = r.errors + 1 }

abbrev pub update_payment : Bool → ℕ → (Payment → Payment) → State → State
update_payment dry_run payment_id f s =
    if dry_run then s else record s { payments = update_by payment_key payment_id f s.payments }

-- One payment, by what the provider answers. An intent that another payment has is refused by the
-- database, and counted as an error.
abbrev pub reconcile_by : Bool → ℕ → Payment → Lookup → Report × State → Report × State
reconcile_by dry_run now p (paid intent) (r, s) =
    if not dry_run && intent_taken p.id intent s
    then (count_error r, s)
    else (count_succeeded r, update_payment dry_run p.id (set_paid intent now) s)
reconcile_by dry_run now p session_expired (r, s) =
    (count_failed r, update_payment dry_run p.id (set_failed now) s)
reconcile_by dry_run now p unsettled (r, s) = (count_unresolved r, s)
reconcile_by dry_run now p unavailable (r, s) = (count_error r, s)

abbrev pub reconcile_session :
    (ℕ → Lookup) → Bool → ℕ → Payment → Option ℕ → Report × State → Report × State
reconcile_session stripe dry_run now p none (r, s) = (count_unresolved r, s)
reconcile_session stripe dry_run now p (some j) out = reconcile_by dry_run now p (stripe j) out

-- PENDING, and created no later than the cutoff.
abbrev pub is_stale : ℕ → Payment → Bool
is_stale cutoff p = is_pending p.status && leb p.created_at cutoff

-- The loop over the rows of the query.
unfoldable pub reconcile_rows :
    (ℕ → Lookup) → Bool → ℕ → (Payment → Bool) → List Payment → Report × State → Report × State
reconcile_rows stripe dry_run now stale [] out = out
reconcile_rows stripe dry_run now stale (p ∷ ps) out =
    reconcile_rows stripe dry_run now stale ps
      (if stale p then reconcile_session stripe dry_run now p p.session_id out else out)

unfoldable pub reconcile_stale : (ℕ → Lookup) → Option ℕ → Bool → ℕ → State → Report × State
reconcile_stale stripe minutes dry_run now s =
    let cutoff : ℕ = now - or_nonzero (or_default minutes 0) 15 * 60 * 1000 in
    reconcile_rows stripe dry_run now (is_stale cutoff) s.payments (
      record {
        scanned = count_where (is_stale cutoff) s.payments;
        succeeded = 0;
        failed = 0;
        unresolved = 0;
        errors = 0;
      },
      s,
    )
