-- ===== src/Shared/Removal.antt =====
-- The rows of a table after a deletion.
use Prim.Native.Nat.{ℕ, ◌+◌}
use mathlib.Core.Path.{◌≡◌, refl, subst}
use mathlib.Core.Logic.{inl, inr}
use mathlib.Core.Bool.{Bool, true, false}
use mathlib.Core.List.{List, [], ◌∷◌}
use mathlib.Core.Option.{some}
use native.Mathlib.Omega.{arith}
use innovents.Shared.Tests.{◌==◌, ==_iff, if◌then◌else◌, to_ℕ, Bool-cases}
use innovents.Shared.Lists.{find_by, count_where, Absent, Unique, Below}

module _ {ℓ} {A : Type ℓ} (key : A → ℕ) where
  -- `delete`
  abbrev pub remove_by : ℕ → List A → List A
  remove_by k [] = []
  remove_by k (x ∷ xs) = if key x == k then remove_by k xs else x ∷ remove_by k xs

  remove_by-Absent : (k : ℕ) (xs : List A) → Absent key k xs → remove_by k xs ≡ xs
  remove_by-Absent k [] h = refl
  remove_by-Absent k (x ∷ xs) h = ground (arith, h.0, remove_by-Absent k xs h.1)

  pub count-remove_by :
      (p : A → Bool) (k : ℕ) (xs : List A) (r : A)
      → Unique key xs
      → find_by key k xs ≡ some r
      → count_where p (remove_by k xs) + to_ℕ (p r) ≡ count_where p xs
  count-remove_by p k [] r u e = cc
  count-remove_by p k (x ∷ xs) r u e = elim (Bool-cases (key x == k)) [
    | inl hit ↦
        let same : key x ≡ k = (==_iff (key x) k).0 hit in
        ground (arith, remove_by-Absent k xs (subst (λ (j : ℕ). Absent key j xs) same u.0))
    | inr miss ↦ ground (arith, count-remove_by p k xs r u.1)
  ]

  branch {κ} :
      (P : List A → Type κ) (b : Bool) (ys zs : List A) → P ys → P zs → P (if b then ys else zs)
  branch P true ys zs h j = h
  branch P false ys zs h j = j

  Absent-remove_by : (j k : ℕ) (xs : List A) → Absent key j xs → Absent key j (remove_by k xs)
  Absent-remove_by j k [] h = tt
  Absent-remove_by j k (x ∷ xs) h =
      branch (Absent key j) (key x == k) (remove_by k xs) (x ∷ remove_by k xs)
        (Absent-remove_by j k xs h.1) (h.0, Absent-remove_by j k xs h.1)

  pub Unique-remove_by : (k : ℕ) (xs : List A) → Unique key xs → Unique key (remove_by k xs)
  Unique-remove_by k [] u = tt
  Unique-remove_by k (x ∷ xs) u =
      branch (Unique key) (key x == k) (remove_by k xs) (x ∷ remove_by k xs)
        (Unique-remove_by k xs u.1) (Absent-remove_by (key x) k xs u.0, Unique-remove_by k xs u.1)

  -- Also of another key than the one that is deleted by.
  pub Below-remove_by :
      (other : A → ℕ) (n k : ℕ) (xs : List A) → Below other n xs → Below other n (remove_by k xs)
  Below-remove_by other n k [] h = tt
  Below-remove_by other n k (x ∷ xs) h =
      branch (Below other n) (key x == k) (remove_by k xs) (x ∷ remove_by k xs)
        (Below-remove_by other n k xs h.1) (h.0, Below-remove_by other n k xs h.1)
