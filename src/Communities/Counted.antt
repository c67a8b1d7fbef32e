-- ===== src/Communities/Counted.antt =====
-- A community counts its members: what each write does to the count.
use innovents.Communities.Tables.{community_key, member_key, is_joined, Community, Member, State}
use innovents.Shared.{
  ◌==◌, to_ℕ, map_option, or_default, Bool-cases, Option-cases, count_where, count_where-found,
  find_by, update_by, Absent, Unique, Unique-update, find_by-update_if, count-update_if, Below,
  Below-Absent, find_by-Below, Below-suc, Below-update, Below-update_where, ℕ, suc, ◌+◌, ◌≤◌, ◌≡◌,
  refl, sym, subst, inl, inr, Bool, true, ◌&&◌, some, List, [], ◌∷◌, arith,
}

abbrev pub is_member_of : ℕ → Member → Bool
is_member_of k m = m.community_id == k && is_joined m.status

abbrev pub home_key : Member → ℕ
home_key m = m.community_id

-- The counter of the community `k` is the number of its active members.
pub record IsCountedIn (k : ℕ) (cs : List Community) (ms : List Member) (n : ℕ) : Type 0 where
  pub community_keys : Unique community_key cs
  pub community_fresh : Below community_key n cs
  pub member_keys : Unique member_key ms
  pub member_fresh : Below member_key n ms
  pub homes : Below home_key n ms
  pub counted :
      or_default
        (map_option (λ c. c.member_count) (find_by community_key k cs))
        (count_where (is_member_of k) ms)
      ≡ count_where (is_member_of k) ms

abbrev pub IsCounted : ℕ → State → Type 0
IsCounted k s = IsCountedIn k s.communities s.members s.next_id

no_members :
    (k n : ℕ) (ms : List Member) → Below home_key n ms → n ≤ k → count_where (is_member_of k) ms ≡ 0
no_members k n [] h above = refl
no_members k n (m ∷ ms) h above = ground (arith, h.0, no_members k n ms h.1 above)

module _ (k : ℕ) {cs : List Community} {ms : List Member} {n : ℕ} (h : IsCountedIn k cs ms n) where
  -- A new community and its owner.
  pub found-IsCounted :
      (c : Community) (m : Member)
      → c.id ≡ n
      → m.id ≡ suc n
      → m.community_id ≡ n
      → c.member_count ≡ 1
      → is_joined m.status ≡ true
      → IsCountedIn k (c ∷ cs) (m ∷ ms) (suc (suc n))
  found-IsCounted c m own next home one joined = record {
    community_keys = (
      subst (λ (j : ℕ). Absent community_key j cs) (sym own)
          (Below-Absent community_key n cs h.community_fresh),
      h.community_keys,
    );
    community_fresh = (
      omega (arith, own),
      Below-suc community_key (suc n) cs (Below-suc community_key n cs h.community_fresh),
    );
    member_keys = (
      subst (λ (j : ℕ). Absent member_key j ms) (sym next)
          (Below-Absent member_key (suc n) ms (Below-suc member_key n ms h.member_fresh)),
      h.member_keys,
    );
    member_fresh = (
      omega (arith, next),
      Below-suc member_key (suc n) ms (Below-suc member_key n ms h.member_fresh),
    );
    homes = (omega (arith, home), Below-suc home_key (suc n) ms (Below-suc home_key n ms h.homes));
    counted = elim (Bool-cases (n == k)) [
      | inl mine ↦ ground (arith, no_members k n ms h.homes)
      | inr other ↦ ground (arith, h.counted)
    ];
  }

  -- A new member, who is counted.
  pub joined-IsCounted :
      (m : Member) (d : Community → Community) (c : Community)
      → m.id ≡ n
      → is_joined m.status ≡ true
      → find_by community_key m.community_id cs ≡ some c
      → ((x : Community) → (d x).id ≡ x.id)
      → ((x : Community) → (d x).member_count ≡ x.member_count + 1)
      → IsCountedIn k (update_by community_key m.community_id d cs) (m ∷ ms) (suc n)
  joined-IsCounted m d c new joined home same more = record {
    community_keys = Unique-update community_key m.community_id d cs same h.community_keys;
    community_fresh =
        Below-suc community_key n (update_by community_key m.community_id d cs)
          (Below-update community_key n m.community_id d cs same h.community_fresh);
    member_keys = (
      subst (λ (j : ℕ). Absent member_key j ms) (sym new)
          (Below-Absent member_key n ms h.member_fresh),
      h.member_keys,
    );
    member_fresh = (omega (arith, new), Below-suc member_key n ms h.member_fresh);
    homes = (
      ground (arith, find_by-Below community_key n m.community_id cs c h.community_fresh home),
      Below-suc home_key n ms h.homes,
    );
    counted = elim (Option-cases (find_by community_key k cs)) [
      | inl missing ↦
          ground (arith, h.counted, find_by-update_if community_key k m.community_id d cs same)
      | inr (x, found) ↦
          ground
            (arith, h.counted, more x, find_by-update_if community_key k m.community_id d cs same)
    ];
  }

  -- A change of one membership that is not counted.
  pub relabel-IsCounted :
      (m : Member) (f : Member → Member)
      → find_by member_key m.id ms ≡ some m
      → ((x : Member) → (f x).id ≡ x.id)
      → ((x : Member) → (f x).community_id ≡ x.community_id)
      → is_joined (f m).status ≡ is_joined m.status
      → IsCountedIn k cs (update_by member_key m.id f ms) n
  relabel-IsCounted m f row same home still = record {
    community_keys = h.community_keys;
    community_fresh = h.community_fresh;
    member_keys = Unique-update member_key m.id f ms same h.member_keys;
    member_fresh = Below-update member_key n m.id f ms same h.member_fresh;
    homes = Below-update_where home_key n (λ x. member_key x == m.id) f ms home h.homes;
    counted = ground (
      arith,
      h.counted,
      home m,
      count-update_if member_key (is_member_of k) f m.id ms h.member_keys,
    );
  }

  -- A change of one membership, which its community counts.
  pub move-IsCounted :
      (m : Member) (j : ℕ) (f : Member → Member) (d : Community → Community)
      → m.community_id ≡ j
      → find_by member_key m.id ms ≡ some m
      → ((x : Member) → (f x).id ≡ x.id)
      → ((x : Member) → (f x).community_id ≡ x.community_id)
      → ((x : Community) → (d x).id ≡ x.id)
      → ((x : Community)
          → to_ℕ (is_joined m.status) ≤ x.member_count
          → (d x).member_count + to_ℕ (is_joined m.status)
            ≡ x.member_count + to_ℕ (is_joined (f m).status))
      → IsCountedIn k (update_by community_key j d cs) (update_by member_key m.id f ms) n
  move-IsCounted m j f d place row same home own moves = record {
    community_keys = Unique-update community_key j d cs own h.community_keys;
    community_fresh = Below-update community_key n j d cs own h.community_fresh;
    member_keys = Unique-update member_key m.id f ms same h.member_keys;
    member_fresh = Below-update member_key n m.id f ms same h.member_fresh;
    homes = Below-update_where home_key n (λ x. member_key x == m.id) f ms home h.homes;
    counted = elim (Option-cases (find_by community_key k cs)) [
      | inl missing ↦ ground (arith, h.counted, find_by-update_if community_key k j d cs own)
      | inr (x, found) ↦ elim (Bool-cases (k == j)) [
        | inl mine ↦
            let present : to_ℕ (is_joined m.status) ≤ x.member_count = ground (
              arith,
              h.counted,
              place,
              count_where-found (λ z. member_key z == m.id) (is_member_of k) ms m row,
            ) in
            ground (
              arith,
              h.counted,
              home m,
              place,
              moves x present,
              count-update_if member_key (is_member_of k) f m.id ms h.member_keys,
              find_by-update_if community_key k j d cs own,
            )
        | inr other ↦ ground (
          arith,
          h.counted,
          home m,
          place,
          count-update_if member_key (is_member_of k) f m.id ms h.member_keys,
          find_by-update_if community_key k j d cs own,
        )
      ]
    ];
  }

  -- A change of a community that leaves its count alone.
  pub edit-IsCounted :
      (j : ℕ) (d : Community → Community)
      → ((x : Community) → (d x).id ≡ x.id)
      → ((x : Community) → (d x).member_count ≡ x.member_count)
      → IsCountedIn k (update_by community_key j d cs) ms n
  edit-IsCounted j d own still = record {
    community_keys = Unique-update community_key j d cs own h.community_keys;
    community_fresh = Below-update community_key n j d cs own h.community_fresh;
    member_keys = h.member_keys;
    member_fresh = h.member_fresh;
    homes = h.homes;
    counted = elim (Option-cases (find_by community_key k cs)) [
      | inl missing ↦ ground (arith, h.counted, find_by-update_if community_key k j d cs own)
      | inr (x, found) ↦
          ground (arith, h.counted, still x, find_by-update_if community_key k j d cs own)
    ];
  }

  -- Another table takes an id.
  pub later-IsCounted : IsCountedIn k cs ms (suc n)
  later-IsCounted = record {
    community_keys = h.community_keys;
    community_fresh = Below-suc community_key n cs h.community_fresh;
    member_keys = h.member_keys;
    member_fresh = Below-suc member_key n ms h.member_fresh;
    homes = Below-suc home_key n ms h.homes;
    counted = h.counted;
  }
