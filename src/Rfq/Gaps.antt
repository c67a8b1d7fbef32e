-- ===== src/Rfq/Gaps.antt =====
-- What the RFQ services let through, or refuse, against their intent.
use innovents.Shared.{
  ◌==◌, is_some, map_option, Bool-cases, length, count_where, update_where, find_holds, find_by,
  update_by, Absent, Unique, find_by-update_if, ok, ℕ, ◌≤◌, ◌<◌, ◌≡◌, refl, ap, subst, ◌≢◌, inl,
  inr, Bool, true, false, not, ◌&&◌, Option, some, List, [], ◌∷◌, arith,
}
use innovents.Accounts.{is_sponsor}
use innovents.Rfq.Tables.{
  rfq_key, quotation_key, find_rfq, find_quotation, is_accepted, is_pending, assert_active_role,
  assert_active_role_state, RfqStatus, QuotationStatus, Rfq, Quotation, VendorService, State,
}
use innovents.Rfq.Requests.{
  service_ids, includes, is_offered, services_exist, check_request, CreateRfq,
}
use innovents.Rfq.Quotations.{supersede, set_rfq_accepted, set_accepted, accept_quotation}
use innovents.Rfq.Finality.{status_of}

abbrev status_in : ℕ → List Quotation → Option QuotationStatus
status_in k qs = map_option (λ (q : Quotation). q.status) (find_by quotation_key k qs)

abbrev pub quotation_status : ℕ → State → Option QuotationStatus
quotation_status k s = status_in k s.quotations

-- Accepting a quotation and superseding the others leaves it accepted.
status-accepted :
    (k rfq_id now : ℕ) (qs : List Quotation)
    → is_some (find_by quotation_key k qs) ≡ true
    → status_in k (
        update_where
          (λ x. x.rfq_id == rfq_id && not (x.id == k) && is_pending x.status)
          supersede
          (update_by quotation_key k (set_accepted now) qs))
      ≡ some QuotationStatus.accepted
status-accepted k rfq_id now [] there = ground arith
status-accepted k rfq_id now (q ∷ qs) there = ground (arith, status-accepted k rfq_id now qs)

-- The sponsor accepts the pending and valid quotation of an RFQ, whatever the status of that RFQ is
-- but ACCEPTED: the call succeeds, and the quotation and the RFQ are accepted. So it is for an RFQ
-- that its vendor rejected.
pub accept_quotation-any-status :
    (sponsor_id quotation_id now : ℕ) (q : Quotation) (r : Rfq) (s : State)
    → (assert_active_role sponsor_id is_sponsor s).0 ≡ ok tt
    → find_quotation quotation_id s ≡ some q
    → find_rfq q.rfq_id s ≡ some r
    → r.sponsor_id ≡ sponsor_id
    → is_pending q.status ≡ true
    → now < q.valid_until
    → is_accepted r.status ≡ false
    → ((accept_quotation sponsor_id quotation_id now s).0 ≡ ok tt)
      × (status_of q.rfq_id (accept_quotation sponsor_id quotation_id now s).1
          ≡ some RfqStatus.accepted)
      × (quotation_status quotation_id (accept_quotation sponsor_id quotation_id now s).1
          ≡ some QuotationStatus.accepted)
unfolding accept_quotation
accept_quotation-any-status sponsor_id quotation_id now q r s allowed found found_rfq mine p valid
      free =
    (
      ground (arith, assert_active_role_state sponsor_id is_sponsor s),
      ground (
        arith,
        assert_active_role_state sponsor_id is_sponsor s,
        find_by-update_if rfq_key q.rfq_id q.rfq_id (set_rfq_accepted now) s.rfqs (λ x. refl),
      ),
      ground (
        arith,
        assert_active_role_state sponsor_id is_sponsor s,
        find_holds (λ x. quotation_key x == quotation_id) s.quotations q found,
        status-accepted q.id q.rfq_id now s.quotations,
      ),
    )

abbrev pub service_key : VendorService → ℕ
service_key v = v.id

-- No more than one service has an id.
count_where-Absent :
    (p : VendorService → Bool) (k : ℕ) (vs : List VendorService)
    → ((v : VendorService) → p v ≡ true → v.id ≡ k)
    → Absent service_key k vs
    → count_where p vs ≡ 0
count_where-Absent p k [] only u = refl
count_where-Absent p k (v ∷ vs) only u =
    ground (arith, only v, count_where-Absent p k vs only u.1, u.0)

count_where-Unique-le :
    (p : VendorService → Bool) (k : ℕ) (vs : List VendorService)
    → ((v : VendorService) → p v ≡ true → v.id ≡ k)
    → Unique service_key vs
    → count_where p vs ≤ 1
count_where-Unique-le p k [] only u = omega arith
count_where-Unique-le p k (v ∷ vs) only u = elim (Bool-cases (p v)) [
  | inl hit ↦
      let absent : Absent service_key k vs =
        subst (λ (j : ℕ). Absent service_key j vs) (only v hit) u.0 in
      ground (arith, count_where-Absent p k vs only absent)
  | inr miss ↦ ground (arith, count_where-Unique-le p k vs only u.1)
]

offered_id :
    (vendor_id k : ℕ) (ids : List ℕ) (v : VendorService)
    → ids ≡ k ∷ k ∷ []
    → is_offered vendor_id ids v ≡ true
    → v.id ≡ k
offered_id vendor_id k ids v twice offered = ground (arith, ap (includes v.id) twice)

same-service-missing :
    (dto : CreateRfq) (k : ℕ) (s : State)
    → service_ids dto.items ≡ k ∷ k ∷ []
    → Unique service_key s.vendor_services
    → services_exist dto s ≡ false
same-service-missing dto k s twice u = ground (
  arith,
  ap (length {A = ℕ}) twice,
  count_where-Unique-le (is_offered dto.vendor_id (service_ids dto.items)) k s.vendor_services
      (λ v. offered_id dto.vendor_id k (service_ids dto.items) v twice) u,
)

-- An RFQ whose two items ask for the same service is refused, whether or not that service is
-- offered: the services found are compared in number with the ids asked for.
check_request-same-service :
    (dto : CreateRfq) (now k t : ℕ) (s : State)
    → service_ids dto.items ≡ k ∷ k ∷ []
    → Unique service_key s.vendor_services
    → (check_request dto now s).0 ≢ ok t
unfolding check_request
check_request-same-service dto now k t s twice u =
    ground (arith, same-service-missing dto k s twice u)
