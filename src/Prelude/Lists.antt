-- ===== src/Prelude/Lists.antt =====
-- Lists measured by native numbers, predicates on their members, and the slices of Python.
use Prim.Native.Nat.{ℕ, zero, suc, ◌+◌, ◌-◌, ◌≤◌}
use mathlib.Core.Path.{◌≡◌, refl, sym, subst, ◌∙◌}
use mathlib.Core.Bool.{Bool, true, false}
use mathlib.Core.List.{List, [], ◌∷◌, ◌++◌, map, Memᴰ, Permᴰ}
use mathlib.Core.Option.{Option, none, some}
use native.Mathlib.Omega.{arith}
use mathlib.Core.Logic.{inl, inr}
use stock_master.Prelude.Tests.{Bool-cases}

module _ {ℓ} {A : Type ℓ} where
  abbrev pub length : List A → ℕ
  length [] = 0
  length (x ∷ xs) = suc (length xs)

  abbrev pub take : ℕ → List A → List A
  take zero xs = []
  take (suc n) [] = []
  take (suc n) (x ∷ xs) = x ∷ take n xs

  abbrev pub drop : ℕ → List A → List A
  drop zero xs = xs
  drop (suc n) [] = []
  drop (suc n) (x ∷ xs) = drop n xs

  -- `xs[-1]`, when there is one
  abbrev pub last? : List A → Option A
  last? [] = none
  last? (x ∷ []) = some x
  last? (x ∷ y ∷ xs) = last? (y ∷ xs)

  -- `xs[-n:]`
  abbrev pub last_n : ℕ → List A → List A
  last_n n xs = drop (length xs - n) xs

  pub length-append : (xs ys : List A) → length (xs ++ ys) ≡ length xs + length ys
  length-append [] ys = omega arith
  length-append (x ∷ xs) ys = omega (arith, length-append xs ys)

  pub length-zero : (xs : List A) → length xs ≡ 0 → xs ≡ []
  length-zero [] h = refl
  length-zero (x ∷ xs) h = absurd (omega arith)

  pub length-drop : (n : ℕ) (xs : List A) → length (drop n xs) ≡ length xs - n
  length-drop zero xs = omega arith
  length-drop (suc n) [] = omega arith
  length-drop (suc n) (x ∷ xs) = omega (arith, length-drop n xs)

  pub last?-append : (xs : List A) (x : A) → last? (xs ++ x ∷ []) ≡ some x
  last?-append [] x = refl
  last?-append (y ∷ []) x = refl
  last?-append (y ∷ z ∷ xs) x = last?-append (z ∷ xs) x

  -- `[x for x in xs if p(x)]`
  abbrev pub keep : (A → Bool) → List A → List A
  keep p [] = []
  keep p (x ∷ xs) = elim (p x) [ true ↦ x ∷ keep p xs | false ↦ keep p xs ]

  -- `next((x for x in xs if p(x)), None)`
  abbrev pub find? : (A → Bool) → List A → Option A
  find? p [] = none
  find? p (x ∷ xs) = elim (p x) [ true ↦ some x | false ↦ find? p xs ]

  -- How many members pass a test.
  abbrev pub tally : (A → Bool) → List A → ℕ
  tally p [] = 0
  tally p (x ∷ xs) = elim (p x) [ true ↦ suc (tally p xs) | false ↦ tally p xs ]

-- Every member satisfies `P`.
abbrev pub All {ℓ κ} : {A : Type ℓ} → (A → Type κ) → List A → Type κ
All P [] = Unit
All P (x ∷ xs) = P x × All P xs

module _ {ℓ} {A : Type ℓ} where
  pub Memᴰ-last? : (xs : List A) (a : A) → last? xs ≡ some a → Memᴰ a xs
  Memᴰ-last? [] a h = absurd (ground arith)
  Memᴰ-last? (x ∷ []) a h = Memᴰ.head (ground arith)
  Memᴰ-last? (x ∷ y ∷ xs) a h = Memᴰ.tail (Memᴰ-last? (y ∷ xs) a h)

  pub Memᴰ-append_right : (xs : List A) {ys : List A} {a : A} → Memᴰ a ys → Memᴰ a (xs ++ ys)
  Memᴰ-append_right [] m = m
  Memᴰ-append_right (x ∷ xs) m = Memᴰ.tail (Memᴰ-append_right xs m)

  -- A non-empty list has a last member.
  pub last?-eq-none : (xs : List A) → last? xs ≡ none → xs ≡ []
  last?-eq-none [] h = refl
  last?-eq-none (x ∷ []) h = absurd (ground arith)
  last?-eq-none (x ∷ y ∷ xs) h = absurd (ground (arith, last?-eq-none (y ∷ xs)))

module _ {ℓ κ} {A : Type ℓ} (P : A → Type κ) where
  pub All-Memᴰ : {a : A} {xs : List A} → All P xs → Memᴰ a xs → P a
  All-Memᴰ h (Memᴰ.head e) = subst P (sym e) h.0
  All-Memᴰ h (Memᴰ.tail m) = All-Memᴰ h.1 m

  pub All-of_Memᴰ : (xs : List A) → ((a : A) → Memᴰ a xs → P a) → All P xs
  All-of_Memᴰ [] h = tt
  All-of_Memᴰ (x ∷ xs) h = (h x (Memᴰ.head refl), All-of_Memᴰ xs (λ a m. h a (Memᴰ.tail m)))

  pub All-append : (xs ys : List A) → All P xs → All P ys → All P (xs ++ ys)
  All-append [] ys h k = k
  All-append (x ∷ xs) ys h k = (h.0, All-append xs ys h.1 k)

module _ {ℓ} {A : Type ℓ} where
  pub find?-Memᴰ :
      (p : A → Bool) (xs : List A) (a : A) → find? p xs ≡ some a → Memᴰ a xs × (p a ≡ true)
  find?-Memᴰ p [] a h = absurd (ground arith)
  find?-Memᴰ p (x ∷ xs) a h = elim (Bool-cases (p x)) [
    | inl e ↦
        let here : x ≡ a = ground arith in (Memᴰ.head (sym here), subst (λ z. p z ≡ true) here e)
    | inr e ↦ let (m, q) = find?-Memᴰ p xs a (ground arith) in (Memᴰ.tail m, q)
  ]

  pub find?-append_new :
      (p : A → Bool) (xs : List A) (x : A)
      → find? p xs ≡ none
      → p x ≡ true
      → find? p (xs ++ x ∷ []) ≡ some x
  find?-append_new p [] x h k = rw (k, find?)
  find?-append_new p (y ∷ ys) x h k = ground (arith, find?-append_new p ys x)

pub All-weaken {ℓ κ μ} :
    {A : Type ℓ} (P : A → Type κ) (Q : A → Type μ) (xs : List A)
    → ((a : A) → P a → Q a)
    → All P xs
    → All Q xs
All-weaken P Q [] f h = tt
All-weaken P Q (x ∷ xs) f h = (f x h.0, All-weaken P Q xs f h.1)

module _ {A : Type 0} where
  -- A member that passes stays, and another goes.
  pub keep-case :
      (P : List A → Type 0) (p : A → Bool) (x : A) (xs : List A)
      → (p x ≡ true → P (x ∷ keep p xs))
      → (p x ≡ false → P (keep p xs))
      → P (keep p (x ∷ xs))
  keep-case P p x xs stays goes = elim (Bool-cases (p x)) [
    | inl e ↦ let eq : keep p (x ∷ xs) ≡ x ∷ keep p xs = rw (e, keep) in subst P (sym eq) (stays e)
    | inr e ↦ let eq : keep p (x ∷ xs) ≡ keep p xs = rw (e, keep) in subst P (sym eq) (goes e)
  ]

  pub All-take : (P : A → Type 0) (n : ℕ) (xs : List A) → All P xs → All P (take n xs)
  All-take P zero xs h = tt
  All-take P (suc n) [] h = tt
  All-take P (suc n) (x ∷ xs) h = (h.0, All-take P n xs h.1)

  pub length-take : (n : ℕ) (xs : List A) → length (take n xs) ≤ n
  length-take zero xs = omega arith
  length-take (suc n) [] = omega arith
  length-take (suc n) (x ∷ xs) = omega (arith, length-take n xs)

  pub length-perm : {xs ys : List A} → Permᴰ xs ys → length xs ≡ length ys
  length-perm Permᴰ.nil = refl
  length-perm (Permᴰ.cons e p) = omega (arith, length-perm p)
  length-perm (Permᴰ.swap e f) = refl
  length-perm (Permᴰ.trans p q) = length-perm p ∙ length-perm q

module _ {A : Type 0} (p : A → Bool) (x : A) (xs : List A) where
  pub find?-head : p x ≡ true → find? p (x ∷ xs) ≡ some x
  find?-head h = rw (h, find?)

  pub find?-tail : p x ≡ false → find? p (x ∷ xs) ≡ find? p xs
  find?-tail h = rw (h, find?)

  pub find?-cong : (ys : List A) → find? p xs ≡ find? p ys → find? p (x ∷ xs) ≡ find? p (x ∷ ys)
  find?-cong ys h = elim (Bool-cases (p x)) [ inl e ↦ rw (e, find?) | inr e ↦ rw (e, find?) h ]

pub length-map {ℓ κ} :
    {A : Type ℓ} {B : Type κ} (f : A → B) (xs : List A) → length (map f xs) ≡ length xs
length-map f [] = refl
length-map f (x ∷ xs) = omega (arith, length-map f xs)

-- Two lists of one length, related member by member.
pub data Each {A B : Type 0} (R : A → B → Type 0) : List A → List B → Type 0 where
  each_nil : Each R [] []
  each_cons :
      {a : A} {b : B} {xs : List A} {ys : List B} → R a b → Each R xs ys → Each R (a ∷ xs) (b ∷ ys)

pub Each-length :
    {A B : Type 0} {R : A → B → Type 0} {xs : List A} {ys : List B}
    → Each R xs ys
    → length ys ≡ length xs
Each-length each_nil = refl
Each-length (each_cons r rs) = omega (arith, Each-length rs)
