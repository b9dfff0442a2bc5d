-- ===== src/Base/Outcome.antt =====
-- What a piece of the hypervisor does: it returns, or it stops the machine. `BUG_ON(x, ...)` of
-- include/assert.h calls FATAL when `x` holds, and `_log` never returns from a FATAL message.
use mathlib.Core.Path.{◌≡◌, refl}
use mathlib.Core.Bool.{Bool, true, false}
use mathlib.Core.Logic.{◌⊎◌, inl}
use prephv.Base.Tests.{if◌then◌else◌}

pub data Run {ℓ} (A : Type ℓ) : Type ℓ where
  done : A → Run A
  halt : Run A

infixl 5 ◌>>=◌ ◌>>◌
abbrev pub ◌>>=◌ {ℓ κ} : {A : Type ℓ} {B : Type κ} → Run A → (A → Run B) → Run B
done a >>= f = f a
halt >>= f = halt

abbrev pub ◌>>◌ {ℓ} : {B : Type ℓ} → Run (Unit {0}) → Run B → Run B
m >> k = m >>= λ _. k

-- BUG_ON(x, ...)
abbrev pub bug_on : Bool → Run (Unit {0})
bug_on true = halt
bug_on false = done tt

-- Inversion of a sequence that returns.
pub >>=-eq-done {ℓ κ} :
    {A : Type ℓ} {B : Type κ} (m : Run A) (f : A → Run B) {b : B}
    → (m >>= f) ≡ done b
    → (a : A) × (m ≡ done a) × (f a ≡ done b)
>>=-eq-done (done a) f h = (a, refl, h)
>>=-eq-done halt f h = cc

-- A sequence that goes on in another way stops, or ends the same, if what goes on does.
pub >>=-halts_or {ℓ κ} :
    {A : Type ℓ} {B : Type κ} (m : Run A) (f g : A → Run B)
    → ((a : A) → (f a ≡ halt) ⊎ (f a ≡ g a))
    → ((m >>= f) ≡ halt) ⊎ ((m >>= f) ≡ (m >>= g))
>>=-halts_or (done a) f g h = h a
>>=-halts_or halt f g h = inl refl

-- What holds of the result, if there is one.
abbrev pub IfDone {ℓ κ} : {A : Type ℓ} → (A → Type κ) → Run A → Type κ
IfDone P (done a) = P a
IfDone P halt = Unit

pub IfDone->>= {ℓ κ μ ν} :
    {A : Type ℓ} {B : Type κ} (P : A → Type μ) (Q : B → Type ν) (m : Run A) (f : A → Run B)
    → IfDone P m
    → ((a : A) → P a → IfDone Q (f a))
    → IfDone Q (m >>= f)
IfDone->>= P Q (done a) f p next = next a p
IfDone->>= P Q halt f p next = tt

-- A step whose result does not matter for what holds after it.
pub IfDone-after {ℓ κ μ} :
    {A : Type ℓ} {B : Type κ} (Q : B → Type μ) (m : Run A) (f : A → Run B)
    → ((a : A) → IfDone Q (f a))
    → IfDone Q (m >>= f)
IfDone-after Q (done a) f next = next a
IfDone-after Q halt f next = tt

pub IfDone-map {ℓ κ μ} :
    {A : Type ℓ} (P : A → Type κ) (Q : A → Type μ) (m : Run A)
    → IfDone P m
    → ((a : A) → P a → Q a)
    → IfDone Q m
IfDone-map P Q (done a) p f = f a p
IfDone-map P Q halt p f = tt

pub IfDone-both {ℓ κ μ} :
    {A : Type ℓ} (P : A → Type κ) (Q : A → Type μ) (m : Run A)
    → IfDone P m
    → IfDone Q m
    → IfDone (λ a. P a × Q a) m
IfDone-both P Q (done a) p q = (p, q)
IfDone-both P Q halt p q = tt

pub IfDone-const {ℓ κ} : {A : Type ℓ} {P : Type κ} (m : Run A) → P → IfDone (λ _. P) m
IfDone-const (done a) p = p
IfDone-const halt p = tt

module _ {ℓ κ} {A : Type ℓ} (P : A → Type κ) where
  pub IfDone-done : (m : Run A) (a : A) → m ≡ done a → IfDone P m → P a
  IfDone-done (done b) a e p = let same : a ≡ b = cc in rw same p
  IfDone-done halt a e p = absurd cc

  pub IfDone-if : (b : Bool) (m n : Run A) → IfDone P m → IfDone P n → IfDone P (if b then m else n)
  IfDone-if true m n p q = p
  IfDone-if false m n p q = q

  pub IfDone-bug_on : (b : Bool) (m : Run A) → IfDone P m → IfDone P (bug_on b >> m)
  IfDone-bug_on true m p = tt
  IfDone-bug_on false m p = p
