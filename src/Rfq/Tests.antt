-- ===== src/Rfq/Tests.antt =====
-- Runs of the RFQ services on a sponsor, a vendor and one RFQ.
use innovents.Shared.{
  length, count_where, All, ok, err, pos, ◌+◌, ◌≡◌, refl, true, false, none, some, List, [], ◌∷◌,
  arith,
}
use innovents.Accounts.{is_sponsor, User, active, sponsor, vendor}
use innovents.Rfq.Tables.{
  find_quotation, is_pending_of, assert_active_role, RfqStatus, QuotationStatus, RfqItem, Rfq,
  Quotation, VendorService, State, quoted, wrong_status,
}
use innovents.Rfq.Requests.{
  new_rfq, check_vendor, check_request, insert_rfq, create_rfq, cancel_rfq, set_rejected, CreateRfq,
}
use innovents.Rfq.Quotations.{
  price_items, calculate, max_version, new_quotation, mark, quote_commit, create_quotation,
  set_rfq_accepted, set_accepted, accept_quotation, CreateQuotation, Price,
}
use innovents.Rfq.Expiration.{expire_rfq, take_due, sweep_ids, sweep_expired_rfqs}
use innovents.Rfq.Settled.{IsSettled}
use innovents.Rfq.Calls.{step, run, run-IsSettled, Call, request, cancel, offer, accept, sweep}
use innovents.Rfq.Pricing.{sum_totals, IsPriced, calculate-ok}
use innovents.Rfq.Versions.{IsOlder, quote_commit-newest}
use innovents.Rfq.Finality.{status_of, run-IsFinal, IsFinal}
use innovents.Rfq.Gaps.{quotation_status, accept_quotation-any-status}

abbrev buyer : User
buyer = record { id = 1; status = active; deleted_at = none; roles = sponsor ∷ [] }

abbrev seller : User
seller = record { id = 2; status = active; deleted_at = none; roles = vendor ∷ [] }

abbrev stage : VendorService
stage = record { id = 5; vendor_id = 2; is_active = true; deleted_at = none }

abbrev wanted : RfqItem
wanted = record { vendor_service_id = some 5; description = []; quantity = 2; target_price = none }

abbrev request_dto : CreateRfq
request_dto = record {
  vendor_id = 2;
  event_id = none;
  title = [];
  expires_at = some 900;
  items = wanted ∷ [];
}

abbrev double_dto : CreateRfq
double_dto = record request_dto { items = wanted ∷ wanted ∷ [] }

abbrev start : State
start = record {
  users = buyer ∷ seller ∷ [];
  events = [];
  vendor_services = stage ∷ [];
  rfqs = [];
  clarifications = [];
  quotations = [];
  jobs = [];
  outbox = [];
  audit = [];
  next_id = 100;
}

abbrev offer_dto : CreateQuotation
offer_dto = record {
  rfq_id = 100;
  valid_until = some 800;
  tax = some (pos 10);
  discount = some (pos 5);
  items =
      record { rfq_item_id = none; description = []; quantity = pos 2; unit_price = pos 50 } ∷ [];
}

abbrev price : Price
price = record {
  subtotal = 100;
  tax = 10;
  discount = 5;
  total = 105;
  items =
      record { rfq_item_id = none; description = []; quantity = 2; unit_price = 50; total = 100 }
      ∷ [];
}

-- The RFQ that is requested first, and the states on its way.
abbrev rfq : Rfq
rfq = new_rfq 100 1 request_dto false 900 5

abbrev first_offer : Quotation
first_offer = new_quotation 101 100 2 1 800 price

abbrev requested : State
requested = record start { rfqs = rfq ∷ []; next_id = 101 }

abbrev quoted_rfq : State
quoted_rfq = record start {
  rfqs = mark quoted rfq ∷ [];
  quotations = first_offer ∷ [];
  next_id = 102;
}

abbrev accepted_rfq : State
accepted_rfq = record start {
  rfqs = set_rfq_accepted 7 rfq ∷ [];
  quotations = set_accepted 7 first_offer ∷ [];
  next_id = 102;
}

abbrev rejected_rfq : State
rejected_rfq = record quoted_rfq { rfqs = set_rejected none 6 rfq ∷ [] }

abbrev calls : List Call
calls =
    request 1 request_dto false 5
    ∷ offer 2 offer_dto 6
    ∷ offer 2 offer_dto 7
    ∷ accept 1 101 8
    ∷ accept 1 102 9
    ∷ cancel 1 100 none 10
    ∷ sweep 950
    ∷ []

request_runs : (create_rfq 1 request_dto false 5 start).0 ≡ ok rfq
unfolding create_rfq assert_active_role check_vendor check_request insert_rfq
request_runs = refl

offer_runs : (calculate offer_dto requested).0 ≡ ok price
unfolding calculate price_items
offer_runs = refl

superseded_is_refused :
    (accept_quotation 1 101 8 (step (offer 2 offer_dto 7) quoted_rfq)).0 ≡ err wrong_status
unfolding accept_quotation assert_active_role step create_quotation quote_commit calculate
    price_items max_version
superseded_is_refused = refl

accepts_newest : status_of 100 (run calls start) ≡ some RfqStatus.accepted
unfolding run step create_rfq assert_active_role check_vendor check_request insert_rfq
    create_quotation quote_commit calculate price_items max_version accept_quotation cancel_rfq
    sweep_expired_rfqs take_due sweep_ids expire_rfq
accepts_newest = refl

start-IsSettled : IsSettled 100 start
start-IsSettled = record {
  keys = tt;
  fresh = tt;
  rfq_fresh = tt;
  accepted_once = refl;
  pending_once = omega arith;
  numbered = omega arith;
}

quoted-IsSettled : IsSettled 100 quoted_rfq
unfolding max_version
quoted-IsSettled = record {
  keys = (tt, tt);
  fresh = (omega arith, tt);
  rfq_fresh = (omega arith, tt);
  accepted_once = refl;
  pending_once = omega arith;
  numbered = omega arith;
}

accepted-IsSettled : IsSettled 100 accepted_rfq
unfolding max_version
accepted-IsSettled = record {
  keys = (tt, tt);
  fresh = (omega arith, tt);
  rfq_fresh = (omega arith, tt);
  accepted_once = refl;
  pending_once = omega arith;
  numbered = omega arith;
}

run-IsSettled_example : IsSettled 100 (run calls start)
run-IsSettled_example = run-IsSettled 100 calls start start-IsSettled

run-IsFinal_example : IsFinal 100 RfqStatus.accepted (run calls accepted_rfq)
run-IsFinal_example =
    run-IsFinal 100 RfqStatus.accepted calls accepted_rfq accepted-IsSettled
      (record { final = refl; same = refl })

calculate-ok_example :
    (price.total + price.discount ≡ price.subtotal + price.tax)
    × (price.subtotal ≡ sum_totals price.items)
    × All IsPriced price.items
    × (length price.items ≡ length offer_dto.items)
calculate-ok_example = calculate-ok offer_dto requested price offer_runs

abbrev second_offer : Quotation
second_offer = new_quotation 102 100 2 2 800 price

second_offer_runs : (quote_commit 2 100 800 price quoted_rfq).0 ≡ ok second_offer
unfolding quote_commit max_version
second_offer_runs = refl

quote_commit-newest_example :
    All (IsOlder 100 2) quoted_rfq.quotations
    × (max_version 100 (quote_commit 2 100 800 price quoted_rfq).1.quotations ≡ 2)
    × (find_quotation 102 (quote_commit 2 100 800 price quoted_rfq).1 ≡ some second_offer)
    × (count_where (is_pending_of 100) (quote_commit 2 100 800 price quoted_rfq).1.quotations ≡ 1)
quote_commit-newest_example =
    quote_commit-newest 2 100 800 price quoted_rfq second_offer quoted-IsSettled second_offer_runs

buyer_allowed : (assert_active_role 1 is_sponsor rejected_rfq).0 ≡ ok tt
unfolding assert_active_role
buyer_allowed = refl

accept_quotation-any-status_example :
    ((accept_quotation 1 101 8 rejected_rfq).0 ≡ ok tt)
    × (status_of 100 (accept_quotation 1 101 8 rejected_rfq).1 ≡ some RfqStatus.accepted)
    × (quotation_status 101 (accept_quotation 1 101 8 rejected_rfq).1
        ≡ some QuotationStatus.accepted)
accept_quotation-any-status_example =
    accept_quotation-any-status 1 101 8 first_offer (set_rejected none 6 rfq) rejected_rfq
      buyer_allowed refl refl refl refl (omega arith) refl

abbrev late : State
late = record requested { rfqs = rfq ∷ record rfq { id = 101; expires_at = 2000 } ∷ [] }
