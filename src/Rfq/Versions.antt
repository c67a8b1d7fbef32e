-- ===== src/Rfq/Versions.antt =====
-- The versions of the quotations of an RFQ.
use innovents.Rfq.Offers.{supersede_older_closes}
use innovents.Shared.{count_where, All, ok, ℕ, ◌+◌, ◌<◌, ◌≡◌, refl, some, List, [], ◌∷◌, arith}
use innovents.Rfq.Tables.{find_quotation, is_pending_of, Quotation, State}
use innovents.Rfq.Quotations.{
  max_version, supersede, supersede_older, quote_commit, max_version-update_where, Price,
}
use innovents.Rfq.Settled.{IsSettled}

-- Older than the version `n`, where it is a quotation of the RFQ `k`.
abbrev pub IsOlder : ℕ → ℕ → Quotation → Type 0
IsOlder k n x = x.rfq_id ≡ k → x.version < n

max_version-IsOlder : (k n : ℕ) (qs : List Quotation) → max_version k qs < n → All (IsOlder k n) qs
unfolding max_version
max_version-IsOlder k n [] h = tt
max_version-IsOlder k n (q ∷ qs) h =
    (λ (e : q.rfq_id ≡ k). ground (arith, e), max_version-IsOlder k n qs (ground arith))

max_version-supersede_older :
    (k n j : ℕ) (qs : List Quotation) → max_version k (supersede_older n j qs) ≡ max_version k qs
max_version-supersede_older k n j qs =
    ground
      (arith, max_version-update_where k (is_pending_of j) supersede qs (λ x. refl) (λ x. refl))

-- A quotation for an RFQ whose table is settled gets a version above those of all its earlier
-- quotations, is found under its id, and is then the only pending quotation of the RFQ.
pub quote_commit-newest :
    (vendor_id rfq_id valid_until : ℕ) (price : Price) (s : State) (q : Quotation)
    → IsSettled rfq_id s
    → (quote_commit vendor_id rfq_id valid_until price s).0 ≡ ok q
    → All (IsOlder rfq_id q.version) s.quotations
      × (max_version rfq_id (quote_commit vendor_id rfq_id valid_until price s).1.quotations
          ≡ q.version)
      × (find_quotation q.id (quote_commit vendor_id rfq_id valid_until price s).1 ≡ some q)
      × (count_where
            (is_pending_of rfq_id)
            (quote_commit vendor_id rfq_id valid_until price s).1.quotations
          ≡ 1)
unfolding quote_commit max_version
quote_commit-newest vendor_id rfq_id valid_until price s q h e = (
  max_version-IsOlder rfq_id q.version s.quotations (ground (arith, e)),
  ground (
    arith,
    e,
    max_version-supersede_older rfq_id (max_version rfq_id s.quotations + 1) rfq_id s.quotations,
  ),
  ground (arith, e),
  ground (arith, (supersede_older_closes rfq_id rfq_id s h).pending_left),
)
