-- ===== src/Shared/Method.antt =====
-- Results, methods that read and write a state, and transactions.
use mathlib.Core.Path.{◌≡◌, refl}
use mathlib.Core.Bool.{Bool, true, false}
use mathlib.Core.Option.{Option, none, some}

-- `err` is a thrown exception; the constructors of `E` stand for the throw statements.
pub data Result (E A : Type 0) : Type 0 where
  ok : A → Result E A
  err : E → Result E A

-- The exception classes of NestJS that the services throw.
pub data HttpStatus : Type 0 where
  bad_request unauthorized forbidden not_found conflict internal : HttpStatus

-- A call of a service method. What was written before a throw stays written.
abbrev pub Action : Type 0 → Type 0 → Type 0 → Type 0
Action S E A = S → Result E A × S

module _ {S E : Type 0} where
  abbrev pub pure : {A : Type 0} → A → Action S E A
  pure a s = (ok a, s)

  abbrev pub raise : {A : Type 0} → E → Action S E A
  raise e s = (err e, s)

  abbrev pub gets : {A : Type 0} → (S → A) → Action S E A
  gets f s = (ok (f s), s)

  abbrev pub modify : (S → S) → Action S E (Unit {0})
  modify f s = (ok tt, f s)

  -- `if (c) throw e`
  abbrev pub raise_if : Bool → E → Action S E (Unit {0})
  raise_if true e s = (err e, s)
  raise_if false e s = (ok tt, s)

  -- `if (!o) throw e`
  abbrev pub or_raise : {A : Type 0} → Option A → E → Action S E A
  or_raise none e s = (err e, s)
  or_raise (some a) e s = (ok a, s)

  abbrev pub lift_result : {A : Type 0} → Result E A → Action S E A
  lift_result r s = (r, s)

  abbrev pub when : Bool → Action S E (Unit {0}) → Action S E (Unit {0})
  when true m s = m s
  when false m s = (ok tt, s)

  infixl 5 ◌>>=◌ ◌>>◌
  abbrev pub ◌>>=◌ : {A B : Type 0} → Action S E A → (A → Action S E B) → Action S E B
  ◌>>=◌ m f s = let (r, s') = m s in elim r [ ok a ↦ f a s' | err e ↦ (err e, s') ]

  abbrev pub ◌>>◌ : {A B : Type 0} → Action S E A → Action S E B → Action S E B
  m >> k = m >>= λ _. k

  -- `prisma.$transaction`: a throw rolls every write back.
  abbrev pub transaction : {A : Type 0} → Action S E A → Action S E A
  transaction m s = let (r, s') = m s in elim r [ ok a ↦ (ok a, s') | err e ↦ (err e, s) ]

  -- `try { m } catch (e) { handler }`: what was written before the throw stays written.
  abbrev pub on_error : {A : Type 0} → Action S E A → (E → Action S E A) → Action S E A
  on_error m handler s = let (r, s') = m s in elim r [ ok a ↦ (ok a, s') | err e ↦ handler e s' ]

-- To reason about a method step by step: what holds of its outcome on each branch.
module _ {ℓ} {S E : Type 0} {B : Type 0} (Q : Result E B × S → Type ℓ) where
  pub raise_if_post :
      (c : Bool) (e : E) (k : Action S E B) (s : S)
      → (c ≡ true → Q (err e, s))
      → (c ≡ false → Q (k s))
      → Q ((raise_if c e >> k) s)
  raise_if_post true e k s thrown passed = thrown refl
  raise_if_post false e k s thrown passed = passed refl

  pub or_raise_post :
      {A : Type 0} (o : Option A) (e : E) (f : A → Action S E B) (s : S)
      → (o ≡ none → Q (err e, s))
      → ((a : A) → o ≡ some a → Q (f a s))
      → Q ((or_raise o e >>= f) s)
  or_raise_post none e f s thrown passed = thrown refl
  or_raise_post (some a) e f s thrown passed = passed a refl

  pub bind_post :
      {A : Type 0} (m : Action S E A) (f : A → Action S E B) (s : S)
      → ((e : E) (s' : S) → m s ≡ (err e, s') → Q (err e, s'))
      → ((a : A) (s' : S) → m s ≡ (ok a, s') → Q (f a s'))
      → Q ((m >>= f) s)
  bind_post {A} m f s thrown passed = go (m s) refl
    where
      go : (r : Result E A × S) → m s ≡ r → Q (elim r.0 [ ok a ↦ f a r.1 | err e ↦ (err e, r.1) ])
      go (ok a, s') h = passed a s' h
      go (err e, s') h = thrown e s' h

  pub transaction_post :
      {A : Type 0} (m : Action S E A) (f : A → Action S E B) (s : S)
      → ((e : E) (s' : S) → m s ≡ (err e, s') → Q (err e, s))
      → ((a : A) (s' : S) → m s ≡ (ok a, s') → Q (f a s'))
      → Q ((transaction m >>= f) s)
  transaction_post {A} m f s thrown passed = go (m s) refl
    where
      go : (r : Result E A × S) → m s ≡ r → Q ((transaction (λ _. r) >>= f) s)
      go (ok a, s') h = passed a s' h
      go (err e, s') h = thrown e s' h

-- A transaction keeps what its body keeps.
pub transaction_keeps {ℓ} :
    {S E A : Type 0} (P : S → Type ℓ) (m : Action S E A) (s : S)
    → P s
    → P (m s).1
    → P (transaction m s).1
transaction_keeps {S} {E} {A} P m s before after = go (m s) after
  where
    go : (r : Result E A × S) → P r.1 → P (transaction (λ _. r) s).1
    go (ok a, s') h = h
    go (err e, s') h = before

-- A sequence keeps what its parts keep.
pub bind_keeps {ℓ} :
    {S E A B : Type 0} (P : S → Type ℓ) (m : Action S E A) (f : A → Action S E B) (s : S)
    → P (m s).1
    → ((a : A) (t : S) → P t → P (f a t).1)
    → P ((m >>= f) s).1
bind_keeps {S} {E} {A} P m f s after keep = go (m s) after
  where
    go : (r : Result E A × S) → P r.1 → P (((λ _. r) >>= f) s).1
    go (ok a, t) h = keep a t h
    go (err e, t) h = h

-- Where a failure is noted and thrown again, and a success is noted, both notes keep the property.
pub noted_keeps {ℓ} :
    {S E A B : Type 0} (P : S → Type ℓ) (m : Action S E A) (f : A → S → S) (g : S → S) (b : B)
    (s : S)
    → P (m s).1
    → ((a : A) (t : S) → P t → P (f a t))
    → ((t : S) → P t → P (g t))
    → P ((on_error (m >>= λ a. modify (f a)) (λ e. modify g >> raise e) >> pure b) s).1
noted_keeps {S} {E} {A} P m f g b s after keep_ok keep_err = go (m s) after
  where
    go :
        (r : Result E A × S)
        → P r.1
        → P ((on_error ((λ _. r) >>= λ a. modify (f a)) (λ e. modify g >> raise e) >> pure b) s).1
    go (ok a, t) h = keep_ok a t h
    go (err e, t) h = keep_err t h
