-- ===== src/Rfq/Offers.antt =====
-- Quoting, accepting and rejecting a quotation, and the sweep, keep the invariant.
use innovents.Accounts.{is_sponsor, is_vendor}
use innovents.Shared.{
  ltb, ◌==◌, Bool-cases, Option-cases, ==_iff, find_holds, count-update_where, count_where-and-le,
  update_by, Unique-update, find_by-update_if, count-update_if, Below-Absent, Below-suc,
  Below-update, Unique-update_where, Below-update_where, Text, ℕ, ◌+◌, ◌≡◌, refl, sym, subst, inl,
  inr, Bool, true, false, not, ◌&&◌, Option, some, List, ◌∷◌, arith,
}
use innovents.Rfq.Tables.{
  rfq_key, quotation_key, find_rfq, find_quotation, is_accepted, is_pending, is_pending_of,
  assert_active_role_state, Rfq, Quotation, Message, AuditEntry, State, quoted, quotation_rejected,
  audit_accepted, audit_quotation_rejected,
}
use innovents.Rfq.Quotations.{
  is_eligible, max_version, supersede, mark, supersede_older, quote_commit, create_quotation,
  set_rfq_accepted, set_accepted, accept_writes, accept_quotation, reject, reject_quotation,
  max_version-update_where, calculate_state, CreateQuotation, Price,
}
use innovents.Rfq.Acceptance.{audit-IsSettled}
use innovents.Rfq.Settled.{is_accepted_of, closes_pending, IsSettled, ClosesPending}

-- The other quotations that an acceptance supersedes.
abbrev loses_to : Quotation → Quotation → Bool
loses_to q x = x.rfq_id == q.rfq_id && not (x.id == q.id) && is_pending x.status

pub find_quotation_id :
    (k : ℕ) (q : Quotation) (s : State)
    → find_quotation k s ≡ some q
    → find_quotation q.id s ≡ some q
find_quotation_id k q s found =
    let same : q.id ≡ k =
      (==_iff q.id k).0 (find_holds (λ (x : Quotation). x.id == k) s.quotations q found) in
    subst (λ (j : ℕ). find_quotation j s ≡ some q) (sym same) found

pub accept_writes-IsSettled :
    (k : ℕ) (q : Quotation) (r : Rfq) (now : ℕ) (s : State)
    → find_quotation q.id s ≡ some q
    → find_rfq q.rfq_id s ≡ some r
    → is_pending q.status ≡ true
    → is_accepted r.status ≡ false
    → IsSettled k s
    → IsSettled k (accept_writes q now s)
accept_writes-IsSettled k q r now s found found_rfq is_new is_free h =
    let updated : List Quotation = update_by quotation_key q.id (set_accepted now) s.quotations in
    record {
      keys =
          Unique-update_where quotation_key (loses_to q) supersede updated (λ x. refl)
            (Unique-update quotation_key q.id (set_accepted now) s.quotations (λ x. refl) h.keys);
      fresh =
          Below-update_where quotation_key s.next_id (loses_to q) supersede updated (λ x. refl)
            (Below-update quotation_key s.next_id q.id (set_accepted now) s.quotations (λ x. refl)
              h.fresh);
      rfq_fresh =
          Below-update rfq_key s.next_id q.rfq_id (set_rfq_accepted now) s.rfqs (λ x. refl)
            h.rfq_fresh;
      accepted_once = ground (
        arith,
        count-update_where (is_accepted_of k) (loses_to q) (is_accepted_of k) supersede updated
            (λ x. ground arith),
        count-update_if quotation_key (is_accepted_of k) (set_accepted now) q.id s.quotations
            h.keys,
        find_by-update_if rfq_key k q.rfq_id (set_rfq_accepted now) s.rfqs (λ x. refl),
        h.accepted_once,
      );
      numbered = ground (
        arith,
        max_version-update_where k (loses_to q) supersede updated (λ x. refl) (λ x. refl),
        max_version-update_where k (λ x. quotation_key x == q.id) (set_accepted now) s.quotations
            (λ x. refl) (λ x. refl),
        count-update_where (is_pending_of k) (loses_to q)
            (λ x. is_pending_of k x && not (loses_to q x)) supersede updated (λ x. ground arith),
        count_where-and-le (is_pending_of k) (λ x. not (loses_to q x)) updated,
        count-update_if quotation_key (is_pending_of k) (set_accepted now) q.id s.quotations h.keys,
        h.numbered,
      );
      pending_once = ground (
        arith,
        count-update_where (is_pending_of k) (loses_to q)
            (λ x. is_pending_of k x && not (loses_to q x)) supersede updated (λ x. ground arith),
        count_where-and-le (is_pending_of k) (λ x. not (loses_to q x)) updated,
        count-update_if quotation_key (is_pending_of k) (set_accepted now) q.id s.quotations h.keys,
        find_by-update_if rfq_key k q.rfq_id (set_rfq_accepted now) s.rfqs (λ x. refl),
        h.pending_once,
      );
    }

-- What an acceptance does to a property of the state.
pub accept_quotation_keeps :
    (P : State → Type 0) (sponsor_id quotation_id now : ℕ) (s : State)
    → P s
    → ((q : Quotation) (r : Rfq)
        → find_quotation quotation_id s ≡ some q
        → find_rfq q.rfq_id s ≡ some r
        → is_pending q.status ≡ true
        → is_accepted r.status ≡ false
        → P (record (accept_writes q now s) {
          audit = audit_accepted sponsor_id quotation_id ∷ s.audit;
        }))
    → P (accept_quotation sponsor_id quotation_id now s).1
unfolding accept_quotation
accept_quotation_keeps P sponsor_id quotation_id now s before after =
    elim (Option-cases (find_quotation quotation_id s)) [
      | inl missing ↦ ground (arith, assert_active_role_state sponsor_id is_sponsor s)
      | inr (q, found) ↦ elim (Option-cases (find_rfq q.rfq_id s)) [
        | inl dangling ↦ ground (arith, assert_active_role_state sponsor_id is_sponsor s)
        | inr (r, found_rfq) ↦
            ground
              (arith, assert_active_role_state sponsor_id is_sponsor s, after q r found found_rfq)
      ]
    ]

pub accept_quotation-IsSettled :
    (k sponsor_id quotation_id now : ℕ) (s : State)
    → IsSettled k s
    → IsSettled k (accept_quotation sponsor_id quotation_id now s).1
accept_quotation-IsSettled k sponsor_id quotation_id now s h =
    accept_quotation_keeps (IsSettled k) sponsor_id quotation_id now s h λ q r found found_rfq p f.
      audit-IsSettled k (accept_writes q now s) (audit_accepted sponsor_id quotation_id ∷ s.audit) (
        accept_writes-IsSettled k q r now s (find_quotation_id quotation_id q s found) found_rfq p f
          h)

pub reject_writes-IsSettled :
    (k quotation_id : ℕ) (q : Quotation) (reason : Option Text) (now : ℕ) (s : State)
    (es : List Message)
    → find_quotation quotation_id s ≡ some q
    → is_pending q.status ≡ true
    → IsSettled k s
    → IsSettled k (record s {
      quotations = update_by quotation_key quotation_id (reject reason now) s.quotations;
      outbox = es;
    })
reject_writes-IsSettled k quotation_id q reason now s es found is_new h = ground (
  arith,
  count-update_if quotation_key (is_accepted_of k) (reject reason now) quotation_id s.quotations
      h.keys,
  count-update_if quotation_key (is_pending_of k) (reject reason now) quotation_id s.quotations
      h.keys,
  max_version-update_where k (λ x. quotation_key x == quotation_id) (reject reason now) s.quotations
      (λ x. refl) (λ x. refl),
  Unique-update quotation_key quotation_id (reject reason now) s.quotations (λ x. refl) h.keys,
  Below-update quotation_key s.next_id quotation_id (reject reason now) s.quotations (λ x. refl)
      h.fresh,
)

-- What a rejection does to a property of the state.
pub reject_quotation_keeps :
    (P : State → Type 0) (sponsor_id quotation_id : ℕ) (reason : Option Text) (now : ℕ) (s : State)
    → P s
    → ((q : Quotation)
        → find_quotation quotation_id s ≡ some q
        → is_pending q.status ≡ true
        → P (record s {
          quotations = update_by quotation_key quotation_id (reject reason now) s.quotations;
          outbox = quotation_rejected quotation_id q.rfq_id ∷ s.outbox;
          audit = audit_quotation_rejected sponsor_id quotation_id ∷ s.audit;
        }))
    → P (reject_quotation sponsor_id quotation_id reason now s).1
unfolding reject_quotation
reject_quotation_keeps P sponsor_id quotation_id reason now s before after =
    elim (Option-cases (find_quotation quotation_id s)) [
      | inl missing ↦ ground (arith, assert_active_role_state sponsor_id is_sponsor s)
      | inr (q, found) ↦
          ground (arith, assert_active_role_state sponsor_id is_sponsor s, after q found)
    ]

pub reject_quotation-IsSettled :
    (k sponsor_id quotation_id : ℕ) (reason : Option Text) (now : ℕ) (s : State)
    → IsSettled k s
    → IsSettled k (reject_quotation sponsor_id quotation_id reason now s).1
reject_quotation-IsSettled k sponsor_id quotation_id reason now s h =
    reject_quotation_keeps (IsSettled k) sponsor_id quotation_id reason now s h go
  where
    go :
        (q : Quotation)
        → find_quotation quotation_id s ≡ some q
        → is_pending q.status ≡ true
        → IsSettled k (record s {
          quotations = update_by quotation_key quotation_id (reject reason now) s.quotations;
          outbox = quotation_rejected quotation_id q.rfq_id ∷ s.outbox;
          audit = audit_quotation_rejected sponsor_id quotation_id ∷ s.audit;
        })
    go q found p =
        audit-IsSettled k
          (record s {
            quotations = update_by quotation_key quotation_id (reject reason now) s.quotations;
            outbox = quotation_rejected quotation_id q.rfq_id ∷ s.outbox;
          })
          (audit_quotation_rejected sponsor_id quotation_id ∷ s.audit)
          (reject_writes-IsSettled k quotation_id q reason now s
            (quotation_rejected quotation_id q.rfq_id ∷ s.outbox) found p h)

-- Without an earlier version, nothing was pending.
pub supersede_older_closes :
    (k rfq_id : ℕ) (s : State)
    → IsSettled k s
    → ClosesPending supersede
        (λ x. refl)
        (λ x. refl)
        (λ x. refl)
        (λ x. refl)
        (λ x. refl)
        k
        rfq_id
        s
        (supersede_older (max_version rfq_id s.quotations + 1) rfq_id s.quotations)
supersede_older_closes k rfq_id s h =
    elim (Bool-cases (ltb 1 (max_version rfq_id s.quotations + 1))) [
      | inl later ↦
          let closed =
            closes_pending supersede (λ x. refl) (λ x. refl) (λ x. refl) (λ x. refl) (λ x. refl) k
              rfq_id s h in
          subst
            (ClosesPending supersede (λ x. refl) (λ x. refl) (λ x. refl) (λ x. refl) (λ x. refl) k
              rfq_id s)
            (ground arith) closed
      | inr first ↦ record {
        keys = ground arith;
        fresh = ground arith;
        version_kept = ground arith;
        accepted_kept = ground arith;
        pending_left = ground (
          arith,
          h.numbered,
          λ (e : rfq_id ≡ k).
              subst (λ j. max_version j s.quotations ≡ max_version k s.quotations) (sym e) refl,
        );
      }
    ]

-- The new quotation follows the ones that it supersedes.
pub quote_commit-IsSettled :
    (k vendor_id rfq_id : ℕ) (r : Rfq) (valid_until : ℕ) (price : Price) (s : State)
    → find_rfq rfq_id s ≡ some r
    → is_eligible r.status ≡ true
    → IsSettled k s
    → IsSettled k (quote_commit vendor_id rfq_id valid_until price s).1
unfolding quote_commit max_version
quote_commit-IsSettled k vendor_id rfq_id r valid_until price s found eligible h =
    let closed = supersede_older_closes k rfq_id s h in
    let older : List Quotation =
      supersede_older (max_version rfq_id s.quotations + 1) rfq_id s.quotations in
    ground (
      arith,
      find_by-update_if rfq_key k rfq_id (mark quoted) s.rfqs (λ x. refl),
      Below-update rfq_key s.next_id rfq_id (mark quoted) s.rfqs (λ x. refl) h.rfq_fresh,
      Below-suc rfq_key s.next_id (update_by rfq_key rfq_id (mark quoted) s.rfqs),
      Below-suc quotation_key s.next_id older closed.fresh,
      Below-Absent quotation_key s.next_id older closed.fresh,
      closed.keys,
      closed.version_kept,
      closed.accepted_kept,
      closed.pending_left,
    )

-- What a quotation does to a property of the state.
pub create_quotation_keeps :
    (P : State → Type 0) (vendor_id : ℕ) (dto : CreateQuotation) (now : ℕ) (s : State)
    → ((t : State) (entries : List AuditEntry) → P t → P (record t { audit = entries }))
    → P s
    → ((r : Rfq) (valid_until : ℕ) (price : Price)
        → find_rfq dto.rfq_id s ≡ some r
        → is_eligible r.status ≡ true
        → P (quote_commit vendor_id dto.rfq_id valid_until price s).1)
    → P (create_quotation vendor_id dto now s).1
unfolding create_quotation
create_quotation_keeps P vendor_id dto now s audited before after =
    elim (Option-cases (find_rfq dto.rfq_id s)) [
      | inl missing ↦ ground (arith, assert_active_role_state vendor_id is_vendor s)
      | inr (r, found) ↦ grind (
        arith,
        assert_active_role_state vendor_id is_vendor s,
        calculate_state dto s,
        λ (v : ℕ) (p : Price). after r v p found,
        λ (v : ℕ) (p : Price). audited (quote_commit vendor_id dto.rfq_id v p s).1,
      )
    ]
