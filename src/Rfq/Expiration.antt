-- ===== src/Rfq/Expiration.antt =====
-- RfqExpirationService: src/modules/b2b-marketplace/services/rfq-expiration.service.ts.
use innovents.Shared.{
  leb, if◌then◌else◌, test_or, update_where, update_by, ℕ, zero, suc, ◌+◌, Bool, true, false, ◌&&◌,
  List, [], ◌∷◌,
}
use innovents.Rfq.Tables.{
  rfq_key, find_rfq, is_open, is_pending_of, RfqStatus, QuotationStatus, Rfq, Quotation, State,
  rfq_expired,
}

abbrev pub expire : Rfq → Rfq
expire r = record r { status = RfqStatus.expired }

abbrev pub expire_quotation : Quotation → Quotation
expire_quotation q = record q { status = QuotationStatus.expired }

-- `expireRfq`: whether the RFQ was expired.
unfoldable pub expire_rfq : ℕ → State → Bool × State
expire_rfq rfq_id s =
    if test_or false (λ r. is_open r.status) (find_rfq rfq_id s)
    then (
      true,
      record s {
        rfqs = update_by rfq_key rfq_id expire s.rfqs;
        quotations = update_where (is_pending_of rfq_id) expire_quotation s.quotations;
        outbox = rfq_expired rfq_id ∷ s.outbox;
      },
    )
    else (false, s)

-- The RFQs that are open past their date; the query takes at most `n` of them.
abbrev pub is_due : ℕ → Rfq → Bool
is_due now r = leb r.expires_at now && is_open r.status

unfoldable pub take_due : ℕ → ℕ → List Rfq → List ℕ
take_due zero now rs = []
take_due (suc n) now [] = []
take_due (suc n) now (r ∷ rs) = elim (is_due now r) [
  | true ↦ r.id ∷ take_due n now rs
  | false ↦ take_due (suc n) now rs
]

-- The loop of `sweepExpiredRfqs`, with its count.
unfoldable pub sweep_ids : List ℕ → ℕ → State → ℕ × State
sweep_ids [] n s = (n, s)
sweep_ids (k ∷ ks) n s =
    let (done, s') = expire_rfq k s in sweep_ids ks (if done then n + 1 else n) s'

abbrev pub sweep_limit : ℕ
sweep_limit = 100

unfoldable pub sweep_expired_rfqs : ℕ → State → ℕ × State
sweep_expired_rfqs now s = sweep_ids (take_due sweep_limit now s.rfqs) 0 s
