-- ===== src/Rfq/Calls.antt =====
-- The calls of the three services in any order, and the invariant along them.
use innovents.Shared.{if◌then◌else◌, Text, ℕ, ◌+◌, Bool, Option, List, [], ◌∷◌}
use innovents.Rfq.Tables.{State}
use innovents.Rfq.Requests.{
  create_rfq, send_rfq, get_rfq_by_id, request_clarification, cancel_rfq, reject_rfq, CreateRfq,
}
use innovents.Rfq.Quotations.{create_quotation, accept_quotation, reject_quotation, CreateQuotation}
use innovents.Rfq.Expiration.{expire_rfq, take_due, sweep_ids, sweep_limit, sweep_expired_rfqs}
use innovents.Rfq.Settled.{IsSettled}
use innovents.Rfq.Acceptance.{
  cancel_rfq-IsSettled, create_rfq-IsSettled, send_rfq-IsSettled, audit-IsSettled,
  request_clarification-IsSettled, get_rfq_by_id-IsSettled, reject_rfq-IsSettled,
  expire_rfq-IsSettled,
}
use innovents.Rfq.Offers.{
  accept_quotation-IsSettled, reject_quotation-IsSettled, quote_commit-IsSettled,
  create_quotation_keeps,
}

-- A call of a service, with the time at which it runs.
pub data Call : Type 0 where
  request : ℕ → CreateRfq → Bool → ℕ → Call
  send : ℕ → ℕ → ℕ → Call
  view : ℕ → ℕ → ℕ → Call
  ask : ℕ → ℕ → Text → ℕ → Call
  cancel : ℕ → ℕ → Option Text → ℕ → Call
  decline : ℕ → ℕ → Option Text → ℕ → Call
  offer : ℕ → CreateQuotation → ℕ → Call
  accept : ℕ → ℕ → ℕ → Call
  turn_down : ℕ → ℕ → Option Text → ℕ → Call
  expire_one : ℕ → Call
  sweep : ℕ → Call

unfoldable pub step : Call → State → State
step (request sponsor_id dto as_draft now) s = (create_rfq sponsor_id dto as_draft now s).1
step (send sponsor_id rfq_id now) s = (send_rfq sponsor_id rfq_id now s).1
step (view user_id rfq_id now) s = (get_rfq_by_id user_id rfq_id now s).1
step (ask user_id rfq_id message now) s = (request_clarification user_id rfq_id message now s).1
step (cancel sponsor_id rfq_id reason now) s = (cancel_rfq sponsor_id rfq_id reason now s).1
step (decline vendor_id rfq_id reason now) s = (reject_rfq vendor_id rfq_id reason now s).1
step (offer vendor_id dto now) s = (create_quotation vendor_id dto now s).1
step (accept sponsor_id quotation_id now) s = (accept_quotation sponsor_id quotation_id now s).1
step (turn_down sponsor_id quotation_id reason now) s =
    (reject_quotation sponsor_id quotation_id reason now s).1
step (expire_one rfq_id) s = (expire_rfq rfq_id s).1
step (sweep now) s = (sweep_expired_rfqs now s).1

unfoldable pub run : List Call → State → State
run [] s = s
run (c ∷ cs) s = run cs (step c s)

-- A sweep is a sequence of expirations.
pub sweep_ids_keeps :
    (P : State → Type 0) (ks : List ℕ) (n : ℕ) (s : State)
    → ((k : ℕ) (t : State) → P t → P (expire_rfq k t).1)
    → P s
    → P (sweep_ids ks n s).1
unfolding sweep_ids
sweep_ids_keeps P [] n s keep h = h
sweep_ids_keeps P (k ∷ ks) n s keep h =
    sweep_ids_keeps P ks (if (expire_rfq k s).0 then n + 1 else n) (expire_rfq k s).1 keep
      (keep k s h)

sweep_expired_rfqs-IsSettled :
    (k now : ℕ) (s : State) → IsSettled k s → IsSettled k (sweep_expired_rfqs now s).1
unfolding sweep_expired_rfqs
sweep_expired_rfqs-IsSettled k now s h =
    sweep_ids_keeps (IsSettled k) (take_due sweep_limit now s.rfqs) 0 s
      (λ j t. expire_rfq-IsSettled k j t) h

create_quotation-IsSettled :
    (k vendor_id : ℕ) (dto : CreateQuotation) (now : ℕ) (s : State)
    → IsSettled k s
    → IsSettled k (create_quotation vendor_id dto now s).1
create_quotation-IsSettled k vendor_id dto now s h =
    create_quotation_keeps (IsSettled k) vendor_id dto now s (audit-IsSettled k) h
      λ r v p found e. quote_commit-IsSettled k vendor_id dto.rfq_id r v p s found e h

pub step-IsSettled : (k : ℕ) (c : Call) (s : State) → IsSettled k s → IsSettled k (step c s)
unfolding step
step-IsSettled k (request sponsor_id dto as_draft now) s h =
    create_rfq-IsSettled k sponsor_id dto as_draft now s h
step-IsSettled k (send sponsor_id rfq_id now) s h = send_rfq-IsSettled k sponsor_id rfq_id now s h
step-IsSettled k (view user_id rfq_id now) s h = get_rfq_by_id-IsSettled k user_id rfq_id now s h
step-IsSettled k (ask user_id rfq_id message now) s h =
    request_clarification-IsSettled k user_id rfq_id message now s h
step-IsSettled k (cancel sponsor_id rfq_id reason now) s h =
    cancel_rfq-IsSettled k sponsor_id rfq_id reason now s h
step-IsSettled k (decline vendor_id rfq_id reason now) s h =
    reject_rfq-IsSettled k vendor_id rfq_id reason now s h
step-IsSettled k (offer vendor_id dto now) s h = create_quotation-IsSettled k vendor_id dto now s h
step-IsSettled k (accept sponsor_id quotation_id now) s h =
    accept_quotation-IsSettled k sponsor_id quotation_id now s h
step-IsSettled k (turn_down sponsor_id quotation_id reason now) s h =
    reject_quotation-IsSettled k sponsor_id quotation_id reason now s h
step-IsSettled k (expire_one rfq_id) s h = expire_rfq-IsSettled k rfq_id s h
step-IsSettled k (sweep now) s h = sweep_expired_rfqs-IsSettled k now s h

-- From tables where it holds, whatever the services are called with and in whatever order: an RFQ has at most one pending
-- quotation, and none unless it is quoted or rejected; it has exactly one accepted quotation while
-- it is accepted, and none otherwise; and quotation ids stay unique.
pub run-IsSettled : (k : ℕ) (cs : List Call) (s : State) → IsSettled k s → IsSettled k (run cs s)
unfolding run
run-IsSettled k [] s h = h
run-IsSettled k (c ∷ cs) s h = run-IsSettled k cs (step c s) (step-IsSettled k c s h)
