-- ===== src/Rfq/Sweep.antt =====
-- The sweep expires the RFQs that are due, at most 100 of them.
use innovents.Shared.{test_or, All, find_by, ℕ, ◌≡◌, ◌≢◌, Bool, true, false, List, [], ◌∷◌}
use innovents.Rfq.Tables.{rfq_key, RfqStatus, Rfq}
use innovents.Rfq.Expiration.{is_due}

-- The RFQ `k` of the rows is due.
abbrev IsDueIn : ℕ → List Rfq → ℕ → Type 0
IsDueIn now rs k = test_or false (is_due now) (find_by rfq_key k rs) ≡ true

abbrev Differs : ℕ → ℕ → Type 0
Differs k j = j ≢ k

-- Different RFQs that are due.
abbrev AllDue : ℕ → List Rfq → List ℕ → Type 0
AllDue now rs [] = Unit
AllDue now rs (k ∷ ks) = IsDueIn now rs k × All (Differs k) ks × AllDue now rs ks

abbrev pub is_expired : Rfq → Bool
is_expired r = elim r.status [ RfqStatus.expired ↦ true | _ ↦ false ]
