-- ===== src/Rfq/Settled.antt =====
-- The invariant of an RFQ and its quotations, and what closing the pending ones does to it.
use innovents.Shared.{
  ◌==◌, if◌then◌else◌, to_ℕ, test_or, count_where, update_where, count-update_where,
  count_where-unless, Unique, Below, Unique-update_where, Below-update_where, ℕ, ◌≤◌, ◌≡◌, ◌∙◌,
  Bool, true, false, not, ◌&&◌, List, arith,
}
use innovents.Rfq.Quotations.{max_version, max_version-update_where}
use innovents.Rfq.Tables.{
  rfq_key, quotation_key, find_rfq, is_accepted, is_pending, is_accepted_quotation, is_pending_of,
  RfqStatus, Quotation, State, quoted,
}

abbrev pub has_status : (RfqStatus → Bool) → ℕ → State → Bool
has_status p k s = test_or false (λ r. p r.status) (find_rfq k s)

abbrev pub is_accepted_of : ℕ → Quotation → Bool
is_accepted_of k q = q.rfq_id == k && is_accepted_quotation q.status

-- QUOTED, and REJECTED, where `rejectRfq` leaves the pending quotation as it is.
abbrev pub holds_pending : RfqStatus → Bool
holds_pending quoted = true
holds_pending RfqStatus.rejected = true
holds_pending _ = false

-- At most one quotation of the RFQ `k` is pending, and only while the RFQ is quoted or rejected; one is
-- accepted exactly when the RFQ is; and versions are counted from 1.
pub record IsSettled (k : ℕ) (s : State) : Type 0 where
  pub keys : Unique quotation_key s.quotations
  pub fresh : Below quotation_key s.next_id s.quotations
  pub rfq_fresh : Below rfq_key s.next_id s.rfqs
  pub accepted_once :
      count_where (is_accepted_of k) s.quotations ≡ to_ℕ (has_status is_accepted k s)
  pub pending_once :
      count_where (is_pending_of k) s.quotations ≤ to_ℕ (has_status holds_pending k s)
  pub numbered : count_where (is_pending_of k) s.quotations ≤ max_version k s.quotations

-- Closing the pending quotations of the RFQ `j`, as dropped, superseded or expired.
module _ (g : Quotation → Quotation) (same_rfq : (q : Quotation) → (g q).rfq_id ≡ q.rfq_id)
    (same_id : (q : Quotation) → (g q).id ≡ q.id)
    (same_version : (q : Quotation) → (g q).version ≡ q.version)
    (not_pending : (q : Quotation) → is_pending (g q).status ≡ false)
    (not_accepted : (q : Quotation) → is_accepted_quotation (g q).status ≡ false) where
  -- Those of an RFQ `k` are pending no more if it is `j`, and accepted as before.
  pub record ClosesPending (k j : ℕ) (s : State) (qs : List Quotation) : Type 0 where
    pub keys : Unique quotation_key qs
    pub fresh : Below quotation_key s.next_id qs
    pub version_kept : max_version k qs ≡ max_version k s.quotations
    pub accepted_kept :
        count_where (is_accepted_of k) qs ≡ count_where (is_accepted_of k) s.quotations
    pub pending_left :
        count_where (is_pending_of k) qs
        ≡ (if j == k then 0 else count_where (is_pending_of k) s.quotations)

  pub closes_pending :
      (k j : ℕ) (s : State)
      → IsSettled k s
      → ClosesPending k j s (update_where (is_pending_of j) g s.quotations)
  closes_pending k j s h = record {
    keys = Unique-update_where quotation_key (is_pending_of j) g s.quotations same_id h.keys;
    fresh =
        Below-update_where quotation_key s.next_id (is_pending_of j) g s.quotations same_id h.fresh;
    version_kept =
        max_version-update_where k (is_pending_of j) g s.quotations same_rfq same_version;
    accepted_kept =
        count-update_where (is_accepted_of k) (is_pending_of j) (is_accepted_of k) g s.quotations
          (λ x. ground (arith, same_rfq x, not_accepted x));
    pending_left =
        count-update_where (is_pending_of k) (is_pending_of j)
          (λ x. is_pending_of k x && not (j == k)) g s.quotations
          (λ x. ground (arith, same_rfq x, not_pending x))
        ∙ count_where-unless (is_pending_of k) (j == k) s.quotations;
  }
