-- ===== src/Rfq/Finality.antt =====
-- What an RFQ that is accepted, cancelled or expired goes through: nothing.
use innovents.Rfq.Calls.{
  step, run, sweep_ids_keeps, step-IsSettled, Call, request, send, view, ask, cancel, decline,
  offer, accept, turn_down, expire_one, sweep,
}
use innovents.Rfq.Offers.{accept_quotation_keeps, reject_quotation_keeps, create_quotation_keeps}
use innovents.Rfq.Acceptance.{find_rfq_id, request_clarification_keeps}
use innovents.Rfq.Settled.{IsSettled}
use innovents.Rfq.Quotations.{
  is_eligible, mark, quote_commit, set_rfq_accepted, accept_writes, Price,
}
use innovents.Shared.{
  ◌==◌, map_option, Option-cases, count_where-found, find_by-update_if, Below, find_by-Below, Text,
  ℕ, ◌≡◌, refl, inl, inr, Bool, true, false, Option, some, List, [], ◌∷◌, arith,
}
use innovents.Accounts.{is_sponsor, is_vendor}
use innovents.Rfq.Tables.{
  rfq_key, find_rfq, find_quotation, is_pending, is_pending_of, assert_active_state,
  assert_active_role_state, RfqStatus, Rfq, Quotation, AuditEntry, State, clarification_requested,
  quoted, cancelled, audit_accepted,
}
use innovents.Rfq.Requests.{
  insert_rfq, create_rfq, set_sent, send_rfq, set_status, set_viewed, note_view, get_rfq_by_id,
  clarify_commit, set_cancelled, cancel_rfq, set_rejected, reject_rfq, check_vendor_state,
  check_request_state, CreateRfq,
}
use innovents.Rfq.Expiration.{expire, expire_rfq, take_due, sweep_limit, sweep_expired_rfqs}

abbrev pub status_of : ℕ → State → Option RfqStatus
status_of k s = map_option (λ (r : Rfq). r.status) (find_rfq k s)

-- ACCEPTED, CANCELLED and EXPIRED; REJECTED is not among them.
abbrev pub is_final : RfqStatus → Bool
is_final RfqStatus.accepted = true
is_final RfqStatus.expired = true
is_final cancelled = true
is_final _ = false

-- The RFQ `k` is final, with the status `st`.
pub record IsFinal (k : ℕ) (st : RfqStatus) (s : State) : Type 0 where
  pub final : is_final st ≡ true
  pub same : status_of k s ≡ some st

insert_rfq-IsFinal :
    (k : ℕ) (st : RfqStatus) (sponsor_id : ℕ) (dto : CreateRfq) (as_draft : Bool)
    (expires_at now : ℕ) (s : State)
    → Below rfq_key s.next_id s.rfqs
    → IsFinal k st s
    → IsFinal k st (insert_rfq sponsor_id dto as_draft expires_at now s).1
unfolding insert_rfq
insert_rfq-IsFinal k st sponsor_id dto as_draft expires_at now s fresh h =
    elim (Option-cases (find_rfq k s)) [
      | inl missing ↦ ground (arith, h.same)
      | inr (r, found) ↦ ground (arith, find_by-Below rfq_key s.next_id k s.rfqs r fresh found)
    ]

create_rfq-IsFinal :
    (k : ℕ) (st : RfqStatus) (sponsor_id : ℕ) (dto : CreateRfq) (as_draft : Bool) (now : ℕ)
    (s : State)
    → Below rfq_key s.next_id s.rfqs
    → IsFinal k st s
    → IsFinal k st (create_rfq sponsor_id dto as_draft now s).1
unfolding create_rfq
create_rfq-IsFinal k st sponsor_id dto as_draft now s fresh h = grind (
  arith,
  assert_active_role_state sponsor_id is_sponsor s,
  check_vendor_state sponsor_id dto.vendor_id s,
  check_request_state dto now s,
  λ (t : ℕ). insert_rfq-IsFinal k st sponsor_id dto as_draft t now s fresh h,
)

send_rfq-IsFinal :
    (k : ℕ) (st : RfqStatus) (sponsor_id rfq_id now : ℕ) (s : State)
    → IsFinal k st s
    → IsFinal k st (send_rfq sponsor_id rfq_id now s).1
unfolding send_rfq
send_rfq-IsFinal k st sponsor_id rfq_id now s h = ground (
  arith,
  assert_active_role_state sponsor_id is_sponsor s,
  find_by-update_if rfq_key k rfq_id (set_sent now) s.rfqs (λ x. refl),
)

cancel_rfq-IsFinal :
    (k : ℕ) (st : RfqStatus) (sponsor_id rfq_id : ℕ) (reason : Option Text) (now : ℕ) (s : State)
    → IsFinal k st s
    → IsFinal k st (cancel_rfq sponsor_id rfq_id reason now s).1
unfolding cancel_rfq
cancel_rfq-IsFinal k st sponsor_id rfq_id reason now s h = ground (
  arith,
  assert_active_role_state sponsor_id is_sponsor s,
  find_by-update_if rfq_key k rfq_id (set_cancelled reason now) s.rfqs (λ x. refl),
)

reject_rfq-IsFinal :
    (k : ℕ) (st : RfqStatus) (vendor_id rfq_id : ℕ) (reason : Option Text) (now : ℕ) (s : State)
    → IsFinal k st s
    → IsFinal k st (reject_rfq vendor_id rfq_id reason now s).1
unfolding reject_rfq
reject_rfq-IsFinal k st vendor_id rfq_id reason now s h = ground (
  arith,
  assert_active_role_state vendor_id is_vendor s,
  find_by-update_if rfq_key k rfq_id (set_rejected reason now) s.rfqs (λ x. refl),
)

expire_rfq-IsFinal :
    (k : ℕ) (st : RfqStatus) (rfq_id : ℕ) (s : State)
    → IsFinal k st s
    → IsFinal k st (expire_rfq rfq_id s).1
unfolding expire_rfq
expire_rfq-IsFinal k st rfq_id s h =
    ground (arith, find_by-update_if rfq_key k rfq_id expire s.rfqs (λ x. refl))

note_view-IsFinal :
    (k : ℕ) (st : RfqStatus) (user_id : ℕ) (r : Rfq) (now : ℕ) (s : State)
    → find_rfq r.id s ≡ some r
    → IsFinal k st s
    → IsFinal k st (note_view user_id r now s).1
unfolding note_view
note_view-IsFinal k st user_id r now s found h = ground (
  arith,
  find_by-update_if rfq_key k r.id (set_status RfqStatus.expired) s.rfqs (λ x. refl),
  find_by-update_if rfq_key k r.id (set_viewed now) s.rfqs (λ x. refl),
)

get_rfq_by_id-IsFinal :
    (k : ℕ) (st : RfqStatus) (user_id rfq_id now : ℕ) (s : State)
    → IsFinal k st s
    → IsFinal k st (get_rfq_by_id user_id rfq_id now s).1
unfolding get_rfq_by_id
get_rfq_by_id-IsFinal k st user_id rfq_id now s h = elim (Option-cases (find_rfq rfq_id s)) [
  | inl missing ↦ ground (arith, assert_active_state user_id s)
  | inr (r, found) ↦ ground (
    arith,
    assert_active_state user_id s,
    note_view-IsFinal k st user_id r now s (find_rfq_id rfq_id r s found) h,
  )
]

audit-IsFinal :
    (k : ℕ) (st : RfqStatus) (s : State) (entries : List AuditEntry)
    → IsFinal k st s
    → IsFinal k st (record s { audit = entries })
audit-IsFinal k st s entries h = record { final = h.final; same = h.same }

clarify_commit-IsFinal :
    (k : ℕ) (st : RfqStatus) (user_id : ℕ) (r : Rfq) (message : Text) (s : State)
    → find_rfq r.id s ≡ some r
    → IsFinal k st s
    → IsFinal k st (clarify_commit user_id r message s).1
unfolding clarify_commit
clarify_commit-IsFinal k st user_id r message s found h = ground (
  arith,
  find_by-update_if rfq_key k r.id (set_status clarification_requested) s.rfqs (λ x. refl),
)

quote_commit-IsFinal :
    (k : ℕ) (st : RfqStatus) (vendor_id rfq_id : ℕ) (r : Rfq) (valid_until : ℕ) (price : Price)
    (s : State)
    → find_rfq rfq_id s ≡ some r
    → is_eligible r.status ≡ true
    → IsFinal k st s
    → IsFinal k st (quote_commit vendor_id rfq_id valid_until price s).1
unfolding quote_commit
quote_commit-IsFinal k st vendor_id rfq_id r valid_until price s found eligible h =
    ground (arith, find_by-update_if rfq_key k rfq_id (mark quoted) s.rfqs (λ x. refl))

-- A final RFQ has no pending quotation that could still be accepted.
accept_writes-IsFinal :
    (k : ℕ) (st : RfqStatus) (q : Quotation) (quotation_id now : ℕ) (s : State)
    → find_quotation quotation_id s ≡ some q
    → is_pending q.status ≡ true
    → IsSettled k s
    → IsFinal k st s
    → IsFinal k st (accept_writes q now s)
accept_writes-IsFinal k st q quotation_id now s found p settled h = ground (
  arith,
  count_where-found (λ (x : Quotation). x.id == quotation_id) (is_pending_of k) s.quotations q
      found,
  find_by-update_if rfq_key k q.rfq_id (set_rfq_accepted now) s.rfqs (λ x. refl),
  settled.pending_once,
)

sweep_expired_rfqs-IsFinal :
    (k : ℕ) (st : RfqStatus) (now : ℕ) (s : State)
    → IsFinal k st s
    → IsFinal k st (sweep_expired_rfqs now s).1
unfolding sweep_expired_rfqs
sweep_expired_rfqs-IsFinal k st now s h =
    sweep_ids_keeps (IsFinal k st) (take_due sweep_limit now s.rfqs) 0 s
      (λ j t. expire_rfq-IsFinal k st j t) h

step-IsFinal :
    (k : ℕ) (st : RfqStatus) (c : Call) (s : State)
    → IsSettled k s
    → IsFinal k st s
    → IsFinal k st (step c s)
unfolding step
step-IsFinal k st (request sponsor_id dto as_draft now) s settled h =
    create_rfq-IsFinal k st sponsor_id dto as_draft now s settled.rfq_fresh h
step-IsFinal k st (send sponsor_id rfq_id now) s settled h =
    send_rfq-IsFinal k st sponsor_id rfq_id now s h
step-IsFinal k st (view user_id rfq_id now) s settled h =
    get_rfq_by_id-IsFinal k st user_id rfq_id now s h
step-IsFinal k st (ask user_id rfq_id message now) s settled h =
    request_clarification_keeps (IsFinal k st) user_id rfq_id message now s (audit-IsFinal k st) h
      λ r found. clarify_commit-IsFinal k st user_id r message s (find_rfq_id rfq_id r s found) h
step-IsFinal k st (cancel sponsor_id rfq_id reason now) s settled h =
    cancel_rfq-IsFinal k st sponsor_id rfq_id reason now s h
step-IsFinal k st (decline vendor_id rfq_id reason now) s settled h =
    reject_rfq-IsFinal k st vendor_id rfq_id reason now s h
step-IsFinal k st (offer vendor_id dto now) s settled h =
    create_quotation_keeps (IsFinal k st) vendor_id dto now s (audit-IsFinal k st) h
      λ r v p found e. quote_commit-IsFinal k st vendor_id dto.rfq_id r v p s found e h
step-IsFinal k st (accept sponsor_id quotation_id now) s settled h =
    accept_quotation_keeps (IsFinal k st) sponsor_id quotation_id now s h λ q r found found_rfq p f.
      audit-IsFinal k st (accept_writes q now s) (audit_accepted sponsor_id quotation_id ∷ s.audit)
        (accept_writes-IsFinal k st q quotation_id now s found p settled h)
step-IsFinal k st (turn_down sponsor_id quotation_id reason now) s settled h =
    reject_quotation_keeps (IsFinal k st) sponsor_id quotation_id reason now s h
      λ q found p. record { final = h.final; same = h.same }
step-IsFinal k st (expire_one rfq_id) s settled h = expire_rfq-IsFinal k st rfq_id s h
step-IsFinal k st (sweep now) s settled h = sweep_expired_rfqs-IsFinal k st now s h

-- An RFQ that is accepted, cancelled or expired, with its table settled, keeps that status whatever
-- the services are called with afterwards.
pub run-IsFinal :
    (k : ℕ) (st : RfqStatus) (cs : List Call) (s : State)
    → IsSettled k s
    → IsFinal k st s
    → IsFinal k st (run cs s)
unfolding run
run-IsFinal k st [] s settled h = h
run-IsFinal k st (c ∷ cs) s settled h =
    run-IsFinal k st cs (step c s) (step-IsSettled k c s settled) (step-IsFinal k st c s settled h)
