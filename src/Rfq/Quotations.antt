-- ===== src/Rfq/Quotations.antt =====
-- QuotationService: src/modules/b2b-marketplace/services/quotation.service.ts. Amounts are whole
-- cents; the service checks their signs, so those of a request may be negative.
use innovents.Shared.{
  ltb, leb, ◌==◌, if◌then◌else◌, length, update_where, update_by, Action, pure, gets, modify,
  raise_if, or_raise, lift_result, ◌>>=◌, ◌>>◌, Result, ok, err, Text, truthy, pos_part,
  is_negative, is_nonpositive, ℤ, pos, ℕ, suc, ◌+◌, ◌-◌, ◌*◌, max, ◌≡◌, refl, Bool, true, false,
  not, ◌&&◌, Option, none, some, List, [], ◌∷◌, arith,
}
use innovents.Accounts.{is_sponsor, is_vendor}
use innovents.Rfq.Tables.{
  rfq_key, quotation_key, find_rfq, find_quotation, is_accepted, is_pending, is_pending_of,
  assert_active_role, RfqStatus, QuotationStatus, Rfq, QuotationItem, Quotation, State, Error, sent,
  viewed, clarification_requested, quoted, pending, superseded, rfq_quoted, rfq_accepted,
  quotation_rejected, audit_quoted, audit_accepted, audit_quotation_rejected, no_items,
  rfq_not_found, not_permitted, wrong_status, rfq_expired_error, validity_passed, bad_quantity,
  negative_price, negative_tax, negative_discount, negative_total, quotation_not_found,
  already_accepted, broken_reference,
}

-- CreateQuotationItemDto
pub record NewItem : Type 0 where
  pub rfq_item_id : Option ℕ
  pub description : Text
  pub quantity : ℤ
  pub unit_price : ℤ

-- CreateQuotationDto
pub record CreateQuotation : Type 0 where
  pub rfq_id : ℕ
  pub valid_until : Option ℕ
  pub tax : Option ℤ
  pub discount : Option ℤ
  pub items : List NewItem

-- The loop over the items: the subtotal so far, and the priced items.
unfoldable pub price_items : List NewItem → ℕ → Result Error (ℕ × List QuotationItem)
price_items [] subtotal = ok (subtotal, [])
price_items (i ∷ is) subtotal =
    let total : ℕ = pos_part i.unit_price * pos_part i.quantity in
    let rest : Result Error (ℕ × List QuotationItem) = price_items is (subtotal + total) in
    if is_nonpositive i.quantity
    then err bad_quantity
    else if is_negative i.unit_price
    then err negative_price
    else elim rest [
      | err e ↦ err e
      | ok (sum, priced) ↦ ok (
        sum,
        record {
          rfq_item_id = i.rfq_item_id;
          description = i.description;
          quantity = pos_part i.quantity;
          unit_price = pos_part i.unit_price;
          total = total;
        }
            ∷ priced,
      )
    ]

-- What the server calculates from a request.
pub record Price : Type 0 where
  pub subtotal : ℕ
  pub tax : ℕ
  pub discount : ℕ
  pub total : ℕ
  pub items : List QuotationItem

abbrev pub or_zero : Option ℤ → ℤ
or_zero none = pos 0
or_zero (some a) = a

unfoldable pub calculate : CreateQuotation → Action State Error Price
calculate dto = do
  (subtotal, items) ← lift_result (price_items dto.items 0)
  let tax = or_zero dto.tax
  let discount = or_zero dto.discount
  raise_if (is_negative tax) negative_tax
  raise_if (is_negative discount) negative_discount
  raise_if (ltb (subtotal + pos_part tax) (pos_part discount)) negative_total
  pure (record {
    subtotal = subtotal;
    tax = pos_part tax;
    discount = pos_part discount;
    total = subtotal + pos_part tax - pos_part discount;
    items = items;
  })

-- SENT, VIEWED, CLARIFICATION_REQUESTED and QUOTED.
abbrev pub is_eligible : RfqStatus → Bool
is_eligible sent = true
is_eligible viewed = true
is_eligible clarification_requested = true
is_eligible quoted = true
is_eligible _ = false

-- `aggregate({ where: { rfqId }, _max: { version } })`, 0 for none.
unfoldable pub max_version : ℕ → List Quotation → ℕ
max_version k [] = 0
max_version k (q ∷ qs) = max (if q.rfq_id == k then q.version else 0) (max_version k qs)

abbrev pub supersede : Quotation → Quotation
supersede q = record q { status = superseded }

abbrev pub new_quotation : ℕ → ℕ → ℕ → ℕ → ℕ → Price → Quotation
new_quotation id rfq_id vendor_id version valid_until price = record {
  id = id;
  rfq_id = rfq_id;
  vendor_id = vendor_id;
  version = version;
  status = pending;
  subtotal = price.subtotal;
  tax = price.tax;
  discount = price.discount;
  total = price.total;
  valid_until = valid_until;
  accepted_at = none;
  rejected_at = none;
  rejection_reason = none;
  items = price.items;
}

abbrev pub mark : RfqStatus → Rfq → Rfq
mark st r = record r { status = st }

-- The pending quotations give way to a version after the first.
abbrev pub supersede_older : ℕ → ℕ → List Quotation → List Quotation
supersede_older version rfq_id qs =
    if ltb 1 version then update_where (is_pending_of rfq_id) supersede qs else qs

-- The transaction of `createQuotation`.
unfoldable pub quote_commit : ℕ → ℕ → ℕ → Price → Action State Error Quotation
quote_commit vendor_id rfq_id valid_until price = do
  newest ← gets (λ s. max_version rfq_id s.quotations)
  modify (λ s. record s { quotations = supersede_older (newest + 1) rfq_id s.quotations })
  id ← gets (λ s. s.next_id)
  let q = new_quotation id rfq_id vendor_id (newest + 1) valid_until price
  modify (λ s. record s {
    quotations = q ∷ s.quotations;
    next_id = suc s.next_id;
    rfqs = update_by rfq_key rfq_id (mark quoted) s.rfqs;
    outbox = rfq_quoted id rfq_id ∷ s.outbox;
  })
  pure q

unfoldable pub create_quotation : ℕ → CreateQuotation → ℕ → Action State Error Quotation
create_quotation vendor_id dto now = do
  assert_active_role vendor_id is_vendor
  r ← or_raise (← gets (find_rfq dto.rfq_id)) rfq_not_found
  raise_if (not (r.vendor_id == vendor_id)) not_permitted
  raise_if (not (is_eligible r.status)) wrong_status
  raise_if (leb r.expires_at now) rfq_expired_error
  valid_until ← or_raise dto.valid_until validity_passed
  raise_if (leb valid_until now) validity_passed
  raise_if (length dto.items == 0) no_items
  price ← calculate dto
  q ← quote_commit vendor_id dto.rfq_id valid_until price
  modify (λ s. record s { audit = audit_quoted vendor_id q.id ∷ s.audit })
  pure q

abbrev pub set_rfq_accepted : ℕ → Rfq → Rfq
set_rfq_accepted now r = record r { status = RfqStatus.accepted; accepted_at = some now }

abbrev pub set_accepted : ℕ → Quotation → Quotation
set_accepted now q = record q { status = QuotationStatus.accepted; accepted_at = some now }

-- The writes of `acceptQuotation`, in their order.
abbrev pub accept_writes : Quotation → ℕ → State → State
accept_writes q now s = record s {
  rfqs = update_by rfq_key q.rfq_id (set_rfq_accepted now) s.rfqs;
  quotations =
      update_where (λ x. x.rfq_id == q.rfq_id && not (x.id == q.id) && is_pending x.status)
        supersede (update_by quotation_key q.id (set_accepted now) s.quotations);
  outbox = rfq_accepted q.id q.rfq_id ∷ s.outbox;
}

unfoldable pub accept_quotation : ℕ → ℕ → ℕ → Action State Error (Unit {0})
accept_quotation sponsor_id quotation_id now = do
  assert_active_role sponsor_id is_sponsor
  q ← or_raise (← gets (find_quotation quotation_id)) quotation_not_found
  r ← or_raise (← gets (find_rfq q.rfq_id)) broken_reference
  raise_if (not (r.sponsor_id == sponsor_id)) not_permitted
  raise_if (not (is_pending q.status)) wrong_status
  raise_if (leb q.valid_until now) validity_passed
  raise_if (is_accepted r.status) already_accepted
  modify (accept_writes q now)
  modify (λ s. record s { audit = audit_accepted sponsor_id quotation_id ∷ s.audit })

abbrev pub reject : Option Text → ℕ → Quotation → Quotation
reject reason now q = record q {
  status = QuotationStatus.rejected;
  rejected_at = some now;
  rejection_reason = truthy reason;
}

unfoldable pub reject_quotation : ℕ → ℕ → Option Text → ℕ → Action State Error (Unit {0})
reject_quotation sponsor_id quotation_id reason now = do
  assert_active_role sponsor_id is_sponsor
  q ← or_raise (← gets (find_quotation quotation_id)) quotation_not_found
  r ← or_raise (← gets (find_rfq q.rfq_id)) broken_reference
  raise_if (not (r.sponsor_id == sponsor_id)) not_permitted
  raise_if (not (is_pending q.status)) wrong_status
  modify (λ s. record s {
    quotations = update_by quotation_key quotation_id (reject reason now) s.quotations;
    outbox = quotation_rejected quotation_id q.rfq_id ∷ s.outbox;
  })
  modify (λ s. record s { audit = audit_quotation_rejected sponsor_id quotation_id ∷ s.audit })

-- No update that keeps each row's RFQ and version moves the newest version.
pub max_version-update_where :
    (k : ℕ) (p : Quotation → Bool) (f : Quotation → Quotation) (qs : List Quotation)
    → ((q : Quotation) → (f q).rfq_id ≡ q.rfq_id)
    → ((q : Quotation) → (f q).version ≡ q.version)
    → max_version k (update_where p f qs) ≡ max_version k qs
unfolding max_version
max_version-update_where k p f [] same_rfq same_version = refl
max_version-update_where k p f (q ∷ qs) same_rfq same_version =
    ground
      (arith, same_rfq q, same_version q, max_version-update_where k p f qs same_rfq same_version)

pub calculate_state : (dto : CreateQuotation) (s : State) → (calculate dto s).1 ≡ s
unfolding calculate
calculate_state dto s = ground arith
