-- ===== src/Payments/Sponsorships.antt =====
-- CommunitySponsorshipExpirationService:
-- src/modules/communities/services/community-sponsorship-expiration.service.ts.
use innovents.Shared.{leb, if◌then◌else◌, update_by, ℕ, ◌+◌, Bool, ◌&&◌, List, [], ◌∷◌}
use innovents.Payments.Tables.{
  sponsorship_key, is_active_sponsorship, release_community, set_sponsorship, SponsorshipStatus,
  Sponsorship, State, sponsorship_expired, audit_sponsorship_expired,
}

abbrev pub is_over : ℕ → Sponsorship → Bool
is_over now h = is_active_sponsorship h.status && leb h.ends_at now

-- The transaction for one sponsorship, and its audit entry.
unfoldable pub expire_sponsorship : ℕ → Sponsorship → State → State
expire_sponsorship now h s =
    let t : State = release_community h.id h.community_id now (record s {
      sponsorships =
          update_by sponsorship_key h.id (set_sponsorship SponsorshipStatus.expired) s.sponsorships;
    }) in
    record t {
      outbox = sponsorship_expired h.id ∷ t.outbox;
      audit = audit_sponsorship_expired h.id ∷ t.audit;
    }

-- The loop over the rows of the query, with its count.
unfoldable pub expire_rows : ℕ → List Sponsorship → ℕ → State → ℕ × State
expire_rows now [] n s = (n, s)
expire_rows now (h ∷ hs) n s =
    expire_rows now hs (if is_over now h then n + 1 else n)
      (if is_over now h then expire_sponsorship now h s else s)

unfoldable pub sweep_expired_sponsorships : ℕ → State → ℕ × State
sweep_expired_sponsorships now s = expire_rows now s.sponsorships 0 s
