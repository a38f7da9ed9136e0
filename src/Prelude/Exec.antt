-- ===== src/Prelude/Exec.antt =====
-- Methods that change a state and may raise. What was written before a raise stays written, so
-- the state comes back beside the error too.
use mathlib.Core.Path.{◌≡◌, refl, ap}
use native.Mathlib.Omega.{arith}
use mathlib.Core.Bool.{Bool}
use stock_master.Prelude.Outcome.{Error, Result, ok, err, raise_if}

abbrev pub Exec {ℓ} : Type ℓ → Type ℓ → Type ℓ
Exec S A = S → Result A × S

abbrev continue {ℓ} : {S A B : Type ℓ} → Result A → (A → Exec S B) → Exec S B
continue (ok a) f s = f a s
continue (err e) f s = (err e, s)

module _ {ℓ} {S : Type ℓ} where
  infixl 5 ◌>>=◌ ◌>>◌
  abbrev pub ◌>>=◌ : {A B : Type ℓ} → Exec S A → (A → Exec S B) → Exec S B
  ◌>>=◌ m f s = let (r, s') = m s in continue r f s'

  abbrev pub ◌>>◌ : {A B : Type ℓ} → Exec S A → Exec S B → Exec S B
  m >> k = m >>= λ _. k

  abbrev pub pure : {A : Type ℓ} → A → Exec S A
  pure a s = (ok a, s)

  abbrev pub raise : {A : Type ℓ} → Error → Exec S A
  raise e s = (err e, s)

  -- A pure call that may raise.
  abbrev pub lift : {A : Type ℓ} → Result A → Exec S A
  lift r s = (r, s)

  abbrev pub gets : {A : Type ℓ} → (S → A) → Exec S A
  gets f s = (ok (f s), s)

  abbrev pub modify : (S → S) → Exec S (Unit {ℓ})
  modify f s = (ok tt, f s)

-- `if c: raise e`
abbrev pub raise_when : {S : Type 0} → Bool → Error → Exec S (Unit {0})
raise_when c e s = (raise_if c e, s)

-- What a call returns, with the state that it leaves.
pub run-eq {ℓ} :
    {S A : Type ℓ} (m : Exec S A) (s : S) {a : A} → (m s).0 ≡ ok a → m s ≡ (ok a, (m s).1)
run-eq m s h = ap (λ r. (r, (m s).1)) h

module _ {ℓ} {S A B : Type ℓ} where
  continue-eq-ok :
      (r : Result A) (t : S) (f : A → Exec S B) (b : B) (u : S)
      → continue r f t ≡ (ok b, u)
      → (a : A) × (r ≡ ok a) × (f a t ≡ (ok b, u))
  continue-eq-ok (err e) t f b u h = absurd (ground arith)
  continue-eq-ok (ok a) t f b u h = (a, refl, h)

  -- What a successful action says of its first step.
  pub bind-eq-ok :
      (m : Exec S A) (f : A → Exec S B) (s : S) {b : B} {u : S}
      → (m >>= f) s ≡ (ok b, u)
      → (a : A) × ((m s).0 ≡ ok a) × (f a (m s).1 ≡ (ok b, u))
  bind-eq-ok m f s {b} {u} h = continue-eq-ok (m s).0 (m s).1 f b u h

  continue-After :
      (P : S → Type ℓ) (r : Result A) (t : S) (f : A → Exec S B)
      → P t
      → ((a : A) → r ≡ ok a → P (f a t).1)
      → P (continue r f t).1
  continue-After P (err e) t f h k = h
  continue-After P (ok a) t f h k = k a refl

  -- What holds after the first step and is kept by the others holds after both, also when one raises.
  pub bind-After :
      (P : S → Type ℓ) (m : Exec S A) (f : A → Exec S B) (s : S)
      → P (m s).1
      → ((a : A) → (m s).0 ≡ ok a → P (f a (m s).1).1)
      → P ((m >>= f) s).1
  bind-After P m f s h k = continue-After P (m s).0 (m s).1 f h k
