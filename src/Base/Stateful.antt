-- ===== src/Base/Stateful.antt =====
-- Code that changes an object and may raise: what it wrote before it raises stays.
use mathlib.Core.Path.{◌≡◌, refl}
use mathlib.Core.Bool.{Bool}
use kalyx_mao_engine.Base.Outcome.{Error, Result, ok, err, raise_if}

abbrev pub Stateful {ℓ} : Type 0 → Type ℓ → Type ℓ
Stateful S A = S → Result A × S

module _ {S : Type 0} where
  abbrev pub proceed {ℓ κ} :
      {A : Type ℓ} {B : Type κ} → Result A × S → (A → Stateful S B) → Result B × S
  proceed (ok a, s) f = f a s
  proceed (err e, s) f = (err e, s)

  infixl 5 ◌>>=◌
  abbrev pub ◌>>=◌ {ℓ κ} :
      {A : Type ℓ} {B : Type κ} → Stateful S A → (A → Stateful S B) → Stateful S B
  m >>= f = λ s. proceed (m s) f

  infixl 5 ◌>>◌
  abbrev pub ◌>>◌ {ℓ} : {B : Type ℓ} → Stateful S (Unit {0}) → Stateful S B → Stateful S B
  m >> next = λ s. proceed (m s) (λ _. next)

  abbrev pub returns {ℓ} : {A : Type ℓ} → A → Stateful S A
  returns a s = (ok a, s)

  abbrev pub raises {ℓ} : {A : Type ℓ} → Error → Stateful S A
  raises e s = (err e, s)

  abbrev pub observe {ℓ} : {A : Type ℓ} → (S → A) → Stateful S A
  observe f s = (ok (f s), s)

  abbrev pub modify : (S → S) → Stateful S (Unit {0})
  modify f s = (ok tt, f s)

  -- `if test: raise e`
  abbrev pub raise_when : (S → Bool) → Error → Stateful S (Unit {0})
  raise_when test e s = (raise_if (test s) e, s)

  -- What went before a step that returned, returned too.
  pub proceed_inv {ℓ κ} :
      {A : Type ℓ} {B : Type κ} (r : Result A × S) (f : A → Stateful S B) (b : B) (s'' : S)
      → proceed r f ≡ (ok b, s'')
      → (a : A) × (s' : S) × (r ≡ (ok a, s')) × (f a s' ≡ (ok b, s''))
  proceed_inv (ok a, s') f b s'' h = (a, s', refl, h)
  proceed_inv (err e, s') f b s'' h = cc

  -- A step, and what follows it, by the step's result.
  pub proceed_cases {ℓ κ π} :
      {A : Type ℓ} {B : Type κ} (P : Result B × S → Type π) (r : Result A × S)
      (f : A → Stateful S B)
      → ((e : Error) (s : S) → r ≡ (err e, s) → P (err e, s))
      → ((a : A) (s : S) → r ≡ (ok a, s) → P (f a s))
      → P (proceed r f)
  proceed_cases P (ok a, s) f raised went = went a s refl
  proceed_cases P (err e, s) f raised went = raised e s refl
