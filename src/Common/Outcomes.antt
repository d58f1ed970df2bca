-- ===== src/Common/Outcomes.antt =====
-- A call that returns or raises, with the exceptions that the modelled code raises.
use mathlib.Core.Path.{◌≡◌, refl, subst}

-- The two logs of a comparison.
pub data Side : Type 0 where
  rtl iss : Side

pub data Exn : Type 0 where
  parse_error : Exn
  log_format_error : Side → Exn
  step_error : Exn
  key_error : Exn
  value_error : Exn
  type_error : Exn
  attribute_error : Exn
  not_modelled : Exn

pub data Outcome {ℓ} (A : Type ℓ) : Type ℓ where
  ok : A → Outcome A
  raise : Exn → Outcome A

infixl 5 ◌>>=◌ ◌>>◌
abbrev pub ◌>>=◌ {ℓ κ} : {A : Type ℓ} {B : Type κ} → Outcome A → (A → Outcome B) → Outcome B
ok a >>= f = f a
raise e >>= f = raise e

abbrev pub ◌>>◌ {ℓ} : {B : Type ℓ} → Outcome (Unit {0}) → Outcome B → Outcome B
m >> k = m >>= λ _. k

-- A property of a bind: of each value that the first part returns, and of each exception.
pub bind_ind {ℓ κ μ} :
    {A : Type ℓ} {B : Type κ} (Q : Outcome B → Type μ) (m : Outcome A) (f : A → Outcome B)
    → ((a : A) → m ≡ ok a → Q (f a))
    → ((e : Exn) → m ≡ raise e → Q (raise e))
    → Q (m >>= f)
bind_ind Q (ok a) f g h = g a refl
bind_ind Q (raise e) f g h = h e refl

-- A postcondition of the value that a call returns.
pub data Ensures {A : Type 0} (P : A → Type 0) : Outcome A → Type 0 where
  returns : {a : A} → P a → Ensures P (ok a)
  raises : {e : Exn} → Ensures P (raise e)

pub bind-Ensures :
    {A B : Type 0} {P : A → Type 0} {Q : B → Type 0} {m : Outcome A} {f : A → Outcome B}
    → Ensures P m
    → ((a : A) → P a → Ensures Q (f a))
    → Ensures Q (m >>= f)
bind-Ensures (returns {a = a} p) g = g a p
bind-Ensures raises g = raises

pub Ensures-any : {A : Type 0} (m : Outcome A) → Ensures (λ _. Unit {0}) m
Ensures-any (ok a) = returns tt
Ensures-any (raise e) = raises

pub Ensures-both :
    {A : Type 0} {P Q : A → Type 0} {m : Outcome A}
    → Ensures P m
    → Ensures Q m
    → Ensures (λ a. P a × Q a) m
Ensures-both (returns p) (returns q) = returns (p, q)
Ensures-both raises raises = raises

abbrev PIfOk : {A : Type 0} → (A → Type 0) → Outcome A → Type 0
PIfOk P (ok a) = P a
PIfOk P (raise e) = Unit

pub ensured : {A : Type 0} {P : A → Type 0} {o : Outcome A} {a : A} → Ensures P o → o ≡ ok a → P a
ensured {P = P} (returns p) e = subst (PIfOk P) e p
ensured raises e = cc
