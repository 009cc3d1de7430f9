-- ===== src/Platform/Reply.antt =====
-- What a handler or a dependency of the web framework does: it returns, it raises an
-- `HTTPException` with a status and a detail, or it raises another exception, which the framework
-- answers with status 500.
use sentinel_keyvault.Common.{ℕ, ◌≡◌, ◌⊎◌, inl, inr, refl, Bool, true, false, Option, none, some}
use sentinel_keyvault.Platform.Json.{Json}

pub data Reply {ℓ} (A : Type ℓ) : Type ℓ where
  reply : A → Reply A
  refused : ℕ → Json → Reply A
  raised : Reply A

infixl 5 ◌>>=◌ ◌>>◌
abbrev pub ◌>>=◌ {ℓ κ} : {A : Type ℓ} {B : Type κ} → Reply A → (A → Reply B) → Reply B
reply a >>= f = f a
refused status detail >>= f = refused status detail
raised >>= f = raised

abbrev pub ◌>>◌ {ℓ} : {B : Type ℓ} → Reply (Unit {0}) → Reply B → Reply B
m >> k = m >>= λ _. k

-- `if not b: raise ...`
abbrev pub check : Bool → Reply (Unit {0}) → Reply (Unit {0})
check true e = reply tt
check false e = e

-- A value that is there, or the exception for its lack.
abbrev pub require {ℓ} : {A : Type ℓ} → Reply A → Option A → Reply A
require e none = e
require e (some a) = reply a

pub >>=-eq-reply {ℓ κ} :
    {A : Type ℓ} {B : Type κ} (m : Reply A) (f : A → Reply B) {b : B}
    → (m >>= f) ≡ reply b
    → (a : A) × (m ≡ reply a) × (f a ≡ reply b)
>>=-eq-reply (reply a) f h = (a, refl, h)
>>=-eq-reply (refused s d) f h = absurd (cc)
>>=-eq-reply raised f h = absurd (cc)

pub reply->>= {ℓ κ} :
    {A : Type ℓ} {B : Type κ} (m : Reply A) (f : A → Reply B) (a : A) {b : B}
    → m ≡ reply a
    → f a ≡ reply b
    → (m >>= f) ≡ reply b
reply->>= m f a e h = rw e h

pub check-eq-reply :
    (b : Bool) (s : ℕ) (d : Json) {u : Unit {0}} → check b (refused s d) ≡ reply u → b ≡ true
check-eq-reply true s d h = refl
check-eq-reply false s d h = absurd (cc)

pub require-eq-reply {ℓ} :
    {A : Type ℓ} (s : ℕ) (d : Json) (o : Option A) {a : A}
    → require (refused s d) o ≡ reply a
    → o ≡ some a
require-eq-reply s d none h = absurd (cc)
require-eq-reply s d (some a) h = cc

pub require_raised-eq-reply {ℓ} :
    {A : Type ℓ} (o : Option A) {a : A} → require raised o ≡ reply a → o ≡ some a
require_raised-eq-reply none h = absurd (cc)
require_raised-eq-reply (some a) h = cc

pub Reply-cases {ℓ} :
    {A : Type ℓ} (r : Reply A)
    → ((a : A) × (r ≡ reply a)) ⊎ ((s : ℕ) × (d : Json) × (r ≡ refused s d)) ⊎ (r ≡ raised)
Reply-cases (reply a) = inl (a, refl)
Reply-cases (refused s d) = inr (inl (s, d, refl))
Reply-cases raised = inr (inr refl)
