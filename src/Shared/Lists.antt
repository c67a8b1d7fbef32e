-- ===== src/Shared/Lists.antt =====
-- Tables as lists of rows, newest first, and the queries of the Prisma client over them.
use Prim.Native.Nat.{ℕ, suc, ◌+◌, ◌<◌, ◌≤◌}
use mathlib.Core.Path.{◌≡◌, refl, subst, ap}
use mathlib.Core.Logic.{◌≢◌, inl, inr}
use mathlib.Core.Bool.{Bool, true, false, not, ◌&&◌}
use mathlib.Core.List.{List, [], ◌∷◌}
use mathlib.Core.Option.{Option, none, some}
use native.Mathlib.Omega.{arith}
use innovents.Shared.Tests.{◌==◌, if◌then◌else◌, to_ℕ, test_or, map_option, Bool-cases}

module _ {ℓ} {A : Type ℓ} where
  abbrev pub length : List A → ℕ
  length [] = 0
  length (x ∷ xs) = suc (length xs)

  -- `findFirst` with `orderBy: { createdAt: 'desc' }`, or `findUnique`.
  abbrev pub find : (A → Bool) → List A → Option A
  find p [] = none
  find p (x ∷ xs) = if p x then some x else find p xs

  -- `count`
  abbrev pub count_where : (A → Bool) → List A → ℕ
  count_where p [] = 0
  count_where p (x ∷ xs) = to_ℕ (p x) + count_where p xs

  -- `updateMany`, or `update` where the test picks one row.
  abbrev pub update_where : (A → Bool) → (A → A) → List A → List A
  update_where p f [] = []
  update_where p f (x ∷ xs) = (if p x then f x else x) ∷ update_where p f xs

  abbrev pub All {κ} : (A → Type κ) → List A → Type κ
  All P [] = Unit
  All P (x ∷ xs) = P x × All P xs

  pub find_holds : (p : A → Bool) (xs : List A) (x : A) → find p xs ≡ some x → p x ≡ true
  find_holds p [] x e = cc
  find_holds p (y ∷ ys) x e = ground (arith, find_holds p ys x)

  pub find-All {κ} :
      (P : A → Type κ) (p : A → Bool) (xs : List A) (x : A) → All P xs → find p xs ≡ some x → P x
  find-All P p [] x h e = cc
  find-All P p (y ∷ ys) x h e = elim (Bool-cases (p y)) [
    | inl hit ↦ subst P (ground arith) h.0
    | inr miss ↦ find-All P p ys x h.1 (ground arith)
  ]

  pub All-weaken {κ} :
      (P Q : A → Type κ) (xs : List A) → ((x : A) → P x → Q x) → All P xs → All Q xs
  All-weaken P Q [] keep h = tt
  All-weaken P Q (x ∷ xs) keep h = (keep x h.0, All-weaken P Q xs keep h.1)

  pub All-update {κ} :
      (P : A → Type κ) (p : A → Bool) (f : A → A) (xs : List A)
      → ((x : A) → P x → P (f x))
      → All P xs
      → All P (update_where p f xs)
  All-update P p f [] keep h = tt
  All-update P p f (x ∷ xs) keep h = (hd (p x), All-update P p f xs keep h.1)
    where
      hd : (b : Bool) → P (if b then f x else x)
      hd true = keep x h.0
      hd false = h.0

  pub count-find-none : (p : A → Bool) (xs : List A) → find p xs ≡ none → count_where p xs ≡ 0
  count-find-none p [] e = refl
  count-find-none p (x ∷ xs) e = ground (arith, count-find-none p xs)

  pub count_where-found :
      (p q : A → Bool) (xs : List A) (x : A)
      → find p xs ≡ some x
      → q x ≡ true
      → 1 ≤ count_where q xs
  count_where-found p q [] x e h = cc
  count_where-found p q (y ∷ ys) x e h = elim (Bool-cases (p y)) [
    | inl hit ↦ let same : y ≡ x = ground arith in ground (arith, ap q same)
    | inr miss ↦ ground (arith, count_where-found p q ys x (ground arith) h)
  ]

  -- An update of many rows, seen through a test of each row.
  pub count-update_where :
      (p q p' : A → Bool) (f : A → A) (xs : List A)
      → ((x : A) → p (if q x then f x else x) ≡ p' x)
      → count_where p (update_where q f xs) ≡ count_where p' xs
  count-update_where p q p' f [] same = refl
  count-update_where p q p' f (x ∷ xs) same =
      ground (arith, same x, count-update_where p q p' f xs same)

  pub count_where-false : (xs : List A) → count_where (λ _. false) xs ≡ 0
  count_where-false [] = refl
  count_where-false (x ∷ xs) = ground (arith, count_where-false xs)

  pub count_where-unless :
      (p : A → Bool) (c : Bool) (xs : List A)
      → count_where (λ x. p x && not c) xs ≡ (if c then 0 else count_where p xs)
  count_where-unless p true [] = refl
  count_where-unless p false [] = refl
  count_where-unless p true (x ∷ xs) = ground (arith, count_where-unless p true xs)
  count_where-unless p false (x ∷ xs) = ground (arith, count_where-unless p false xs)

  pub count_where-and-le :
      (p q : A → Bool) (xs : List A) → count_where (λ x. p x && q x) xs ≤ count_where p xs
  count_where-and-le p q [] = omega arith
  count_where-and-le p q (x ∷ xs) = ground (arith, count_where-and-le p q xs)

  pub length-update_where :
      (p : A → Bool) (f : A → A) (xs : List A) → length (update_where p f xs) ≡ length xs
  length-update_where p f [] = omega arith
  length-update_where p f (x ∷ xs) = omega (arith, length-update_where p f xs)

  pub count_where-le-length : (p : A → Bool) (xs : List A) → count_where p xs ≤ length xs
  count_where-le-length p [] = omega arith
  count_where-le-length p (x ∷ xs) = ground (arith, count_where-le-length p xs)

-- Rows named by a number, their primary key or another unique column.
module _ {ℓ} {A : Type ℓ} (key : A → ℕ) where
  abbrev pub find_by : ℕ → List A → Option A
  find_by k xs = find (λ x. key x == k) xs

  abbrev pub update_by : ℕ → (A → A) → List A → List A
  update_by k f xs = update_where (λ x. key x == k) f xs

  abbrev pub Absent : ℕ → List A → Type ℓ
  Absent k [] = Unit
  Absent k (x ∷ xs) = (key x ≢ k) × Absent k xs

  -- No key stands twice.
  abbrev pub Unique : List A → Type ℓ
  Unique [] = Unit
  Unique (x ∷ xs) = Absent (key x) xs × Unique xs

  -- A key that no row has is picked by no update.
  pub count-update-Absent :
      (p : A → Bool) (f : A → A) (k : ℕ) (xs : List A)
      → Absent k xs
      → count_where p (update_by k f xs) ≡ count_where p xs
  count-update-Absent p f k [] h = refl
  count-update-Absent p f k (x ∷ xs) h = ground (arith, count-update-Absent p f k xs h.1)

  pub find-Absent :
      (p : A → Bool) (k : ℕ) (xs : List A) (r : A) → Absent k xs → find p xs ≡ some r → key r ≢ k
  find-Absent p k [] r h e = cc
  find-Absent p k (x ∷ xs) r h e = elim (Bool-cases (p x)) [
    | inl hit ↦ subst (λ (y : A). key y ≢ k) (ground arith) h.0
    | inr miss ↦ find-Absent p k xs r h.1 (ground arith)
  ]

  -- A row that a query finds is the row that its key names.
  pub find_by_found :
      (p : A → Bool) (xs : List A) (r : A)
      → Unique xs
      → find p xs ≡ some r
      → find_by (key r) xs ≡ some r
  find_by_found p [] r u e = cc
  find_by_found p (x ∷ xs) r u e =
      ground (arith, find-Absent p (key x) xs r u.0, find_by_found p xs r u.1)

  -- An update of the one row with a key moves a count by what the update changes of that row.
  pub count-update :
      (p : A → Bool) (f : A → A) (k : ℕ) (xs : List A) (r : A)
      → Unique xs
      → find_by k xs ≡ some r
      → count_where p (update_by k f xs) + to_ℕ (p r) ≡ count_where p xs + to_ℕ (p (f r))
  count-update p f k [] r u e = cc
  count-update p f k (x ∷ xs) r u e = ground (
    arith,
    count-update p f k xs r u.1,
    count-update-Absent p f k xs,
    λ (h : key x ≡ k). subst (λ j. Absent j xs) h u.0,
  )

  -- What holds of each row that its key finds holds of all rows.
  pub All-find_by {κ} :
      (P : A → Type κ) (xs : List A)
      → Unique xs
      → ((x : A) → find_by (key x) xs ≡ some x → P x)
      → All P xs
  All-find_by P [] u holds = tt
  All-find_by P (y ∷ ys) u holds = (
    holds y (ground arith),
    All-find_by P ys u.1 λ x found.
        holds x (ground (arith, find-Absent (λ z. key z == key x) (key y) ys x u.0 found)),
  )

  pub Absent-update :
      (j k : ℕ) (f : A → A) (xs : List A)
      → ((x : A) → key (f x) ≡ key x)
      → Absent j xs
      → Absent j (update_by k f xs)
  Absent-update j k f [] same h = tt
  Absent-update j k f (x ∷ xs) same h = ground (arith, same x, Absent-update j k f xs same h.1)

  pub Unique-update :
      (k : ℕ) (f : A → A) (xs : List A)
      → ((x : A) → key (f x) ≡ key x)
      → Unique xs
      → Unique (update_by k f xs)
  Unique-update k f [] same u = tt
  Unique-update k f (x ∷ xs) same u = (head_absent, Unique-update k f xs same u.1)
    where
      head_absent : Absent (key (if key x == k then f x else x)) (update_by k f xs)
      head_absent =
          subst (λ j. Absent j (update_by k f xs)) (ground (arith, same x))
            (Absent-update (key x) k f xs same u.0)

  -- What the update leaves in the row that it picks.
  pub find_by-update :
      (k : ℕ) (f : A → A) (xs : List A) (r : A)
      → ((x : A) → key (f x) ≡ key x)
      → find_by k xs ≡ some r
      → find_by k (update_by k f xs) ≡ some (f r)
  find_by-update k f [] r same e = cc
  find_by-update k f (x ∷ xs) r same e = ground (arith, same x, find_by-update k f xs r same)

  -- An update that a query does not see leaves its answer, but for the update itself.
  pub find-update :
      (p : A → Bool) (f : A → A) (xs : List A) (r : A)
      → ((x : A) → p (f x) ≡ p x)
      → Unique xs
      → find p xs ≡ some r
      → find p (update_by (key r) f xs) ≡ some (f r)
  find-update p f [] r same u e = cc
  find-update p f (x ∷ xs) r same u e =
      ground (arith, same x, find-Absent p (key x) xs r u.0, find-update p f xs r same u.1)

  -- The same for every key and row, as an equation that rewrites.
  pub find_by-update_if :
      (j k : ℕ) (f : A → A) (xs : List A)
      → ((x : A) → key (f x) ≡ key x)
      → find_by j (update_by k f xs)
        ≡ (if j == k then map_option f (find_by j xs) else find_by j xs)
  find_by-update_if j k f [] same = ground arith
  find_by-update_if j k f (x ∷ xs) same = ground (arith, same x, find_by-update_if j k f xs same)

  -- An update by key moves a count by what it changes of the row with that key, if there is one.
  pub count-update_if :
      (p : A → Bool) (f : A → A) (k : ℕ) (xs : List A)
      → Unique xs
      → count_where p (update_by k f xs) + to_ℕ (test_or false p (find_by k xs))
        ≡ count_where p xs + to_ℕ (test_or false (λ x. p (f x)) (find_by k xs))
  count-update_if p f k [] u = refl
  count-update_if p f k (x ∷ xs) u = ground (
    arith,
    count-update_if p f k xs u.1,
    count-update-Absent p f k xs,
    λ (h : key x ≡ k). subst (λ j. Absent j xs) h u.0,
  )

  pub find_by-update_ne :
      (j k : ℕ) (f : A → A) (xs : List A)
      → ((x : A) → key (f x) ≡ key x)
      → j ≢ k
      → find_by j (update_by k f xs) ≡ find_by j xs
  find_by-update_ne j k f [] same ne = refl
  find_by-update_ne j k f (x ∷ xs) same ne =
      ground (arith, same x, find_by-update_ne j k f xs same ne)

  -- Keys are drawn from a counter, which stands for the uniqueness of fresh identifiers.
  abbrev pub Below : ℕ → List A → Type 0
  Below n [] = Unit
  Below n (x ∷ xs) = (key x < n) × Below n xs

  pub Below-Absent : (n : ℕ) (xs : List A) → Below n xs → Absent n xs
  Below-Absent n [] h = tt
  Below-Absent n (x ∷ xs) h = (omega arith, Below-Absent n xs h.1)

  pub find_by-Below : (n k : ℕ) (xs : List A) (r : A) → Below n xs → find_by k xs ≡ some r → k < n
  find_by-Below n k [] r h e = cc
  find_by-Below n k (x ∷ xs) r h e = ground (arith, find_by-Below n k xs r h.1)

  pub Below-suc : (n : ℕ) (xs : List A) → Below n xs → Below (suc n) xs
  Below-suc n [] h = tt
  Below-suc n (x ∷ xs) h = (omega arith, Below-suc n xs h.1)

  pub Below-update :
      (n k : ℕ) (f : A → A) (xs : List A)
      → ((x : A) → key (f x) ≡ key x)
      → Below n xs
      → Below n (update_by k f xs)
  Below-update n k f [] same h = tt
  Below-update n k f (x ∷ xs) same h = ground (arith, same x, Below-update n k f xs same h.1)

  pub Absent-update_where :
      (j : ℕ) (q : A → Bool) (f : A → A) (xs : List A)
      → ((x : A) → key (f x) ≡ key x)
      → Absent j xs
      → Absent j (update_where q f xs)
  Absent-update_where j q f [] same h = tt
  Absent-update_where j q f (x ∷ xs) same h =
      ground (arith, same x, Absent-update_where j q f xs same h.1)

  pub Unique-update_where :
      (q : A → Bool) (f : A → A) (xs : List A)
      → ((x : A) → key (f x) ≡ key x)
      → Unique xs
      → Unique (update_where q f xs)
  Unique-update_where q f [] same u = tt
  Unique-update_where q f (x ∷ xs) same u = (head_absent, Unique-update_where q f xs same u.1)
    where
      head_absent : Absent (key (if q x then f x else x)) (update_where q f xs)
      head_absent =
          subst (λ j. Absent j (update_where q f xs)) (ground (arith, same x))
            (Absent-update_where (key x) q f xs same u.0)

  pub Below-update_where :
      (n : ℕ) (q : A → Bool) (f : A → A) (xs : List A)
      → ((x : A) → key (f x) ≡ key x)
      → Below n xs
      → Below n (update_where q f xs)
  Below-update_where n q f [] same h = tt
  Below-update_where n q f (x ∷ xs) same h =
      ground (arith, same x, Below-update_where n q f xs same h.1)
