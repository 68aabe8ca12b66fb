-- ===== src/Base/Effect.antt =====
-- The calls of a service: each reads and writes the database and may throw. A statement outside a
-- transaction is committed at once, so what it wrote stays when a later one throws.
use Prim.Native.Nat.{ℕ}
use mathlib.Core.Path.{◌≡◌, refl}
use mathlib.Core.Logic.{◌⊎◌, inl, inr}
use mathlib.Core.Bool.{Bool, true, false}
use mathlib.Core.Option.{Option, none, some}
use native.Mathlib.Omega.{arith}
use arka_erp.Base.Logic.{if◌then◌else◌}

-- Nest's exceptions that the services throw, PostgreSQL's by their SQLSTATE, and a plain `Error`.
pub data Failure : Type 0 where
  bad_request : Failure
  bad_line : ℕ → Failure
  unbalanced : ℕ → ℕ → Failure
  not_found : Failure
  unauthorized : Failure
  forbidden : Failure
  reuse_detected : Failure
  -- P0001 and its kin: a rule of the posting functions or of a trigger.
  business_rule : Failure
  -- 23505, 23503, 23514, 22003
  unique_violation : Failure
  foreign_key : Failure
  check_violation : Failure
  numeric_overflow : Failure
  -- 22P02
  invalid_text : Failure
  plain_error : Failure

pub data Result (A : Type 0) : Type 0 where
  ok : A → Result A
  err : Failure → Result A

pub result_cases :
    {A : Type 0} (r : Result A) → ((a : A) × (r ≡ ok a)) ⊎ ((x : Failure) × (r ≡ err x))
result_cases (ok a) = inl (a, refl)
result_cases (err x) = inr (x, refl)

abbrev pub Action : Type 0 → Type 0 → Type 0
Action S A = S → Result A × S

module _ {S A : Type 0} where
  abbrev pub pure : A → Action S A
  pure a s = (ok a, s)

  abbrev pub throw : Failure → Action S A
  throw e s = (err e, s)

  abbrev pub gets : (S → A) → Action S A
  gets f s = (ok (f s), s)

  abbrev pub or_throw : Option A → Failure → Action S A
  or_throw none e s = (err e, s)
  or_throw (some a) e s = (ok a, s)

module _ {S : Type 0} where
  -- `if (!b) throw e`
  abbrev pub require : Bool → Failure → Action S (Unit {0})
  require b e s = (if b then ok tt else err e, s)

  abbrev pub modify : (S → S) → Action S (Unit {0})
  modify f s = (ok tt, f s)

-- What follows a call: the rest, or nothing after an exception.
abbrev pub continue : {S A B : Type 0} → Result A × S → (A → Action S B) → Result B × S
continue (ok a, s) f = f a s
continue (err e, s) f = (err e, s)

infixl 5 ◌>>=◌ ◌>>◌
abbrev pub ◌>>=◌ : {S A B : Type 0} → Action S A → (A → Action S B) → Action S B
◌>>=◌ m f s = continue (m s) f

abbrev pub ◌>>◌ : {S A B : Type 0} → Action S A → Action S B → Action S B
m >> k = m >>= λ _. k

-- At its end a transaction is committed, or rolled back to the state `s` that it began with.
abbrev pub settle : {S A : Type 0} → S → Result A × S → Result A × S
settle s (ok a, t) = (ok a, t)
settle s (err e, t) = (err e, s)

abbrev pub transaction : {S A : Type 0} → Action S A → Action S A
transaction m s = settle s (m s)

-- The state after a call, and whether it returned.
abbrev pub after : {S A : Type 0} → Action S A → S → S
after m s = (m s).1

module _ {S A B : Type 0} where
  -- A sequence that returned: its first call did, and so did the rest.
  pub continue-eq-ok :
      (r : Result A × S) (f : A → Action S B) {b : B} {t : S}
      → continue r f ≡ (ok b, t)
      → (a : A) × (s : S) × (r ≡ (ok a, s)) × (f a s ≡ (ok b, t))
  continue-eq-ok (ok a, s) f e = (a, s, refl, e)
  continue-eq-ok (err x, s) f e = ground arith

  -- One that threw: its first call did, or the rest.
  pub continue-eq-err :
      (r : Result A × S) (f : A → Action S B) {x : Failure} {t : S}
      → continue r f ≡ (err x, t)
      → (r ≡ (err x, t)) ⊎ ((a : A) × (s : S) × (r ≡ (ok a, s)) × (f a s ≡ (err x, t)))
  continue-eq-err (ok a, s) f e = inr (a, s, refl, e)
  continue-eq-err (err y, s) f e = inl (ground arith)

module _ {S A : Type 0} where
  -- A call returns or throws.
  pub outcome :
      (r : Result A × S)
      → ((a : A) × (t : S) × (r ≡ (ok a, t))) ⊎ ((x : Failure) × (t : S) × (r ≡ (err x, t)))
  outcome (ok a, t) = inl (a, t, refl)
  outcome (err x, t) = inr (x, t, refl)

  -- Looking a value up writes nothing.
  pub or_throw-state : (o : Option A) (x : Failure) (s : S) → (or_throw o x s).1 ≡ s
  or_throw-state none x s = refl
  or_throw-state (some a) x s = refl

  pub settle-eq-ok :
      (s : S) (r : Result A × S) {a : A} {t : S} → settle s r ≡ (ok a, t) → r ≡ (ok a, t)
  settle-eq-ok s (ok x, u) e = e
  settle-eq-ok s (err x, u) e = ground arith

  -- A transaction that throws leaves the database as it was.
  pub settle-eq-err :
      (s : S) (r : Result A × S) {x : Failure} {t : S} → settle s r ≡ (err x, t) → t ≡ s
  settle-eq-err s (ok a, u) e = ground arith
  settle-eq-err s (err x, u) e = ground arith

  -- A property of the database that holds before a transaction holds after it, if the work keeps it
  -- whenever it returns.
  pub transaction_keeps {ℓ} :
      (P : S → Type ℓ) (m : Action S A) (s : S)
      → P s
      → ((a : A) (t : S) → m s ≡ (ok a, t) → P t)
      → P (after (transaction m) s)
  transaction_keeps P m s before kept = settled (m s) kept
    where
      settled : (r : Result A × S) → ((a : A) (t : S) → r ≡ (ok a, t) → P t) → P (settle s r).1
      settled (ok a, t) k = k a t refl
      settled (err x, t) k = before

module _ {S A B : Type 0} where
  -- So does a sequence whose parts keep it.
  pub >>=_keeps {ℓ} :
      (P : S → Type ℓ) (m : Action S A) (f : A → Action S B) (s : S)
      → P (after m s)
      → ((a : A) (t : S) → m s ≡ (ok a, t) → P t → P (after (f a) t))
      → P (after (m >>= f) s)
  >>=_keeps P m f s first rest = continued (m s) first rest
    where
      continued :
          (r : Result A × S)
          → P r.1
          → ((a : A) (t : S) → r ≡ (ok a, t) → P t → P (after (f a) t))
          → P (continue r f).1
      continued (ok a, t) p k = k a t refl p
      continued (err x, t) p k = p

-- An action keeps a property of the state, whether it returns or throws.
abbrev pub Keeps {ℓ} : {S A : Type 0} → (S → Type ℓ) → Action S A → Type ℓ
Keeps {S = S} P m = (s : S) → P s → P (after m s)

module _ {ℓ} {S A : Type 0} (P : S → Type ℓ) where
  pub transaction-Keeps : (m : Action S A) → Keeps P m → Keeps P (transaction m)
  transaction-Keeps m kept s p = settled (m s) (kept s p)
    where
      settled : (r : Result A × S) → P r.1 → P (settle s r).1
      settled (ok a, t) q = q
      settled (err x, t) q = p

  pub or_throw-Keeps : (o : Option A) (x : Failure) → Keeps P (or_throw o x)
  or_throw-Keeps none x s p = p
  or_throw-Keeps (some a) x s p = p

  pub if-Keeps :
      (b : Bool) (m k : Action S A) → Keeps P m → Keeps P k → Keeps P (if b then m else k)
  if-Keeps true m k kept_m kept_k = kept_m
  if-Keeps false m k kept_m kept_k = kept_k

module _ {ℓ} {S A : Type 0} (P : S → Type ℓ) where
  -- What follows a test needs to keep the property only where the test holds.
  pub require_keeps :
      (b : Bool) (e : Failure) (k : Action S A) (s : S)
      → P s
      → (b ≡ true → P (after k s))
      → P (after (require b e >> k) s)
  require_keeps true e k s p kept = kept refl
  require_keeps false e k s p kept = p

  -- A transaction keeps what its work keeps from the state at hand.
  pub transaction_after :
      (m : Action S A) (s : S) → P s → P (after m s) → P (after (transaction m) s)
  transaction_after m s p q = settled (m s) q
    where
      settled : (r : Result A × S) → P r.1 → P (settle s r).1
      settled (ok a, t) q = q
      settled (err x, t) q = p

module _ {ℓ} {S A B : Type 0} (P : S → Type ℓ) where
  pub >>=-Keeps :
      (m : Action S A) (f : A → Action S B)
      → Keeps P m
      → ((a : A) → Keeps P (f a))
      → Keeps P (m >>= f)
  >>=-Keeps m f first rest s p = >>=_keeps P m f s (first s p) (λ a t _ q. rest a t q)
