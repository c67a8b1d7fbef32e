-- ===== src/Rfq/Acceptance.antt =====
-- Every method keeps the invariant of an RFQ and its quotations.
use innovents.Accounts.{is_sponsor, is_vendor}
use innovents.Shared.{
  ◌==◌, Option-cases, ==_iff, find_holds, find_by-update_if, find_by-Below, Below-suc, Below-update,
  Text, ℕ, ◌≡◌, refl, sym, subst, inl, inr, Bool, Option, some, List, ◌∷◌, arith,
}
use innovents.Rfq.Tables.{
  rfq_key, quotation_key, find_rfq, assert_active_state, assert_active_role_state, RfqStatus, Rfq,
  AuditEntry, State, clarification_requested, audit_clarification,
}
use innovents.Rfq.Requests.{
  insert_rfq, create_rfq, set_sent, send_rfq, set_status, set_viewed, note_view, get_rfq_by_id,
  clarify_commit, request_clarification, set_cancelled, drop_quotation, cancel_rfq, set_rejected,
  reject_rfq, check_vendor_state, check_request_state, check_clarification_state, CreateRfq,
}
use innovents.Rfq.Expiration.{expire, expire_quotation, expire_rfq}
use innovents.Rfq.Settled.{closes_pending, IsSettled}

pub cancel_rfq-IsSettled :
    (k sponsor_id rfq_id : ℕ) (reason : Option Text) (now : ℕ) (s : State)
    → IsSettled k s
    → IsSettled k (cancel_rfq sponsor_id rfq_id reason now s).1
unfolding cancel_rfq
cancel_rfq-IsSettled k sponsor_id rfq_id reason now s h =
    let closed =
      closes_pending (drop_quotation now) (λ x. refl) (λ x. refl) (λ x. refl) (λ x. refl)
        (λ x. refl) k rfq_id s h in
    ground (
      arith,
      assert_active_role_state sponsor_id is_sponsor s,
      find_by-update_if rfq_key k rfq_id (set_cancelled reason now) s.rfqs (λ x. refl),
      Below-update rfq_key s.next_id rfq_id (set_cancelled reason now) s.rfqs (λ x. refl)
          h.rfq_fresh,
      closed.keys,
      closed.fresh,
      closed.version_kept,
      closed.accepted_kept,
      closed.pending_left,
    )

pub insert_rfq-IsSettled :
    (k sponsor_id : ℕ) (dto : CreateRfq) (as_draft : Bool) (expires_at now : ℕ) (s : State)
    → IsSettled k s
    → IsSettled k (insert_rfq sponsor_id dto as_draft expires_at now s).1
unfolding insert_rfq
insert_rfq-IsSettled k sponsor_id dto as_draft expires_at now s h =
    elim (Option-cases (find_rfq k s)) [
      | inl missing ↦ ground (
        arith,
        Below-suc rfq_key s.next_id s.rfqs h.rfq_fresh,
        Below-suc quotation_key s.next_id s.quotations h.fresh,
      )
      | inr (r, found) ↦ ground (
        arith,
        find_by-Below rfq_key s.next_id k s.rfqs r h.rfq_fresh found,
        Below-suc rfq_key s.next_id s.rfqs h.rfq_fresh,
        Below-suc quotation_key s.next_id s.quotations h.fresh,
      )
    ]

pub create_rfq-IsSettled :
    (k sponsor_id : ℕ) (dto : CreateRfq) (as_draft : Bool) (now : ℕ) (s : State)
    → IsSettled k s
    → IsSettled k (create_rfq sponsor_id dto as_draft now s).1
unfolding create_rfq
create_rfq-IsSettled k sponsor_id dto as_draft now s h = grind (
  arith,
  assert_active_role_state sponsor_id is_sponsor s,
  check_vendor_state sponsor_id dto.vendor_id s,
  check_request_state dto now s,
  λ (t : ℕ). insert_rfq-IsSettled k sponsor_id dto as_draft t now s h,
)

pub send_rfq-IsSettled :
    (k sponsor_id rfq_id now : ℕ) (s : State)
    → IsSettled k s
    → IsSettled k (send_rfq sponsor_id rfq_id now s).1
unfolding send_rfq
send_rfq-IsSettled k sponsor_id rfq_id now s h = ground (
  arith,
  assert_active_role_state sponsor_id is_sponsor s,
  find_by-update_if rfq_key k rfq_id (set_sent now) s.rfqs (λ x. refl),
  Below-update rfq_key s.next_id rfq_id (set_sent now) s.rfqs (λ x. refl) h.rfq_fresh,
)

pub note_view-IsSettled :
    (k user_id : ℕ) (r : Rfq) (now : ℕ) (s : State)
    → find_rfq r.id s ≡ some r
    → IsSettled k s
    → IsSettled k (note_view user_id r now s).1
unfolding note_view
note_view-IsSettled k user_id r now s found h = ground (
  arith,
  find_by-update_if rfq_key k r.id (set_status RfqStatus.expired) s.rfqs (λ x. refl),
  find_by-update_if rfq_key k r.id (set_viewed now) s.rfqs (λ x. refl),
  Below-update rfq_key s.next_id r.id (set_status RfqStatus.expired) s.rfqs (λ x. refl) h.rfq_fresh,
  Below-update rfq_key s.next_id r.id (set_viewed now) s.rfqs (λ x. refl) h.rfq_fresh,
)

pub clarify_commit-IsSettled :
    (k user_id : ℕ) (r : Rfq) (message : Text) (s : State)
    → find_rfq r.id s ≡ some r
    → IsSettled k s
    → IsSettled k (clarify_commit user_id r message s).1
unfolding clarify_commit
clarify_commit-IsSettled k user_id r message s found h = ground (
  arith,
  find_by-update_if rfq_key k r.id (set_status clarification_requested) s.rfqs (λ x. refl),
  Below-update rfq_key s.next_id r.id (set_status clarification_requested) s.rfqs (λ x. refl)
      h.rfq_fresh,
)

-- What `find_rfq` finds carries the id that was asked for.
pub find_rfq_id : (k : ℕ) (r : Rfq) (s : State) → find_rfq k s ≡ some r → find_rfq r.id s ≡ some r
find_rfq_id k r s found =
    let same : r.id ≡ k = (==_iff r.id k).0 (find_holds (λ (x : Rfq). x.id == k) s.rfqs r found) in
    subst (λ (j : ℕ). find_rfq j s ≡ some r) (sym same) found

pub audit-IsSettled :
    (k : ℕ) (s : State) (entries : List AuditEntry)
    → IsSettled k s
    → IsSettled k (record s { audit = entries })
audit-IsSettled k s entries h = ground arith

-- What a clarification does to a property of the state.
pub request_clarification_keeps :
    (P : State → Type 0) (user_id rfq_id : ℕ) (message : Text) (now : ℕ) (s : State)
    → ((t : State) (entries : List AuditEntry) → P t → P (record t { audit = entries }))
    → P s
    → ((r : Rfq) → find_rfq rfq_id s ≡ some r → P (clarify_commit user_id r message s).1)
    → P (request_clarification user_id rfq_id message now s).1
unfolding request_clarification
request_clarification_keeps P user_id rfq_id message now s audited before after =
    elim (Option-cases (find_rfq rfq_id s)) [
      | inl missing ↦ ground (arith, assert_active_state user_id s)
      | inr (r, found) ↦ ground (
        arith,
        assert_active_state user_id s,
        check_clarification_state user_id r now s,
        after r found,
        audited (clarify_commit user_id r message s).1
            (audit_clarification user_id rfq_id ∷ (clarify_commit user_id r message s).1.audit)
            (after r found),
      )
    ]

pub request_clarification-IsSettled :
    (k user_id rfq_id : ℕ) (message : Text) (now : ℕ) (s : State)
    → IsSettled k s
    → IsSettled k (request_clarification user_id rfq_id message now s).1
request_clarification-IsSettled k user_id rfq_id message now s h =
    request_clarification_keeps (IsSettled k) user_id rfq_id message now s (audit-IsSettled k) h
      λ r found. clarify_commit-IsSettled k user_id r message s (find_rfq_id rfq_id r s found) h

pub get_rfq_by_id-IsSettled :
    (k user_id rfq_id now : ℕ) (s : State)
    → IsSettled k s
    → IsSettled k (get_rfq_by_id user_id rfq_id now s).1
unfolding get_rfq_by_id
get_rfq_by_id-IsSettled k user_id rfq_id now s h = elim (Option-cases (find_rfq rfq_id s)) [
  | inl missing ↦ ground (arith, assert_active_state user_id s)
  | inr (r, found) ↦ ground (
    arith,
    assert_active_state user_id s,
    note_view-IsSettled k user_id r now s (find_rfq_id rfq_id r s found) h,
  )
]

pub reject_rfq-IsSettled :
    (k vendor_id rfq_id : ℕ) (reason : Option Text) (now : ℕ) (s : State)
    → IsSettled k s
    → IsSettled k (reject_rfq vendor_id rfq_id reason now s).1
unfolding reject_rfq
reject_rfq-IsSettled k vendor_id rfq_id reason now s h = ground (
  arith,
  assert_active_role_state vendor_id is_vendor s,
  find_by-update_if rfq_key k rfq_id (set_rejected reason now) s.rfqs (λ x. refl),
  Below-update rfq_key s.next_id rfq_id (set_rejected reason now) s.rfqs (λ x. refl) h.rfq_fresh,
)

pub expire_rfq-IsSettled :
    (k rfq_id : ℕ) (s : State) → IsSettled k s → IsSettled k (expire_rfq rfq_id s).1
unfolding expire_rfq
expire_rfq-IsSettled k rfq_id s h =
    let closed =
      closes_pending expire_quotation (λ x. refl) (λ x. refl) (λ x. refl) (λ x. refl) (λ x. refl) k
        rfq_id s h in
    ground (
      arith,
      find_by-update_if rfq_key k rfq_id expire s.rfqs (λ x. refl),
      Below-update rfq_key s.next_id rfq_id expire s.rfqs (λ x. refl) h.rfq_fresh,
      closed.keys,
      closed.fresh,
      closed.version_kept,
      closed.accepted_kept,
      closed.pending_left,
    )
