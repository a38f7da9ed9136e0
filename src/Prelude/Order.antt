-- ===== src/Prelude/Order.antt =====
-- Python's stable `sorted` by a Boolean order, and what it keeps.
pub mod Distinct
pub mod Kept
use Prim.Native.Nat.{suc}
use mathlib.Core.Path.{◌≡◌, refl, sym, ap, ◌∙◌}
use mathlib.Core.Bool.{Bool, true, false}
use mathlib.Core.Logic.{◌⊎◌, inl, inr}
use mathlib.Core.List.{List, [], ◌∷◌, Memᴰ, Permᴰ}
use mathlib.Core.List.Permᴰ
use mathlib.Core.Option.{some}
use native.Mathlib.Omega.{arith}
use stock_master.Prelude.Tests.{if◌then◌else◌, Bool-cases}
use stock_master.Prelude.Lists.{length, last?, All, All-Memᴰ}

module _ {ℓ} {A : Type ℓ} (le : A → A → Bool) where
  -- `x` came before the members of the list, so it stays before those that compare equal.
  unfoldable pub insert_sorted : A → List A → List A
  insert_sorted x [] = x ∷ []
  insert_sorted x (y ∷ ys) = if le x y then x ∷ y ∷ ys else y ∷ insert_sorted x ys

  unfoldable pub sorted : List A → List A
  unfolding insert_sorted
  sorted [] = []
  sorted (x ∷ xs) = insert_sorted x (sorted xs)

  abbrev pub IsSorted : List A → Type ℓ
  IsSorted [] = Unit
  IsSorted (x ∷ xs) = All (λ y. le x y ≡ true) xs × IsSorted xs

module _ {ℓ κ} {A : Type ℓ} (le : A → A → Bool) (P : A → Type κ) where
  All-insert_sorted : (x : A) (xs : List A) → P x → All P xs → All P (insert_sorted le x xs)
  unfolding insert_sorted
  All-insert_sorted x [] p h = (p, tt)
  All-insert_sorted x (y ∷ ys) p h = elim (Bool-cases (le x y)) [
    | inl e ↦ rw e (p, h)
    | inr e ↦ rw e (h.0, All-insert_sorted x ys p h.1)
  ]

  pub All-sorted : (xs : List A) → All P xs → All P (sorted le xs)
  unfolding sorted
  All-sorted [] h = tt
  All-sorted (x ∷ xs) h = All-insert_sorted x (sorted le xs) h.0 (All-sorted xs h.1)

module _ {ℓ} {A : Type ℓ} (le : A → A → Bool) where
  length-insert_sorted : (x : A) (xs : List A) → length (insert_sorted le x xs) ≡ suc (length xs)
  unfolding insert_sorted
  length-insert_sorted x [] = refl
  length-insert_sorted x (y ∷ ys) = ground (arith, length-insert_sorted x ys)

  pub length-sorted : (xs : List A) → length (sorted le xs) ≡ length xs
  unfolding sorted
  length-sorted [] = refl
  length-sorted (x ∷ xs) = length-insert_sorted x (sorted le xs) ∙ ap suc (length-sorted xs)

  insert_sorted-perm : (x : A) (xs : List A) → Permᴰ (insert_sorted le x xs) (x ∷ xs)
  unfolding insert_sorted
  insert_sorted-perm x [] = Permᴰ.cons refl Permᴰ.nil
  insert_sorted-perm x (y ∷ ys) = elim (Bool-cases (le x y)) [
    | inl e ↦ rw e (Permᴰ.refl (x ∷ y ∷ ys))
    | inr e ↦ rw e (Permᴰ.trans (Permᴰ.cons refl (insert_sorted-perm x ys)) (Permᴰ.swap refl refl))
  ]

  -- `sorted` only rearranges.
  pub sorted-perm : (xs : List A) → Permᴰ (sorted le xs) xs
  unfolding sorted
  sorted-perm [] = Permᴰ.nil
  sorted-perm (x ∷ xs) =
      Permᴰ.trans (insert_sorted-perm x (sorted le xs)) (Permᴰ.cons refl (sorted-perm xs))

-- A total, transitive Boolean order, as Python expects of a sort key.
pub record IsOrder {ℓ} {A : Type ℓ} (le : A → A → Bool) : Type ℓ where
  pub total : (a b : A) → le a b ≡ false → le b a ≡ true
  pub le_trans : (a b c : A) → le a b ≡ true → le b c ≡ true → le a c ≡ true

module _ {ℓ} {A : Type ℓ} {le : A → A → Bool} (o : IsOrder le) where
  pub order_refl : (a : A) → le a a ≡ true
  order_refl a = elim (Bool-cases (le a a)) [ inl e ↦ e | inr e ↦ o.total a a e ]

  All-le_trans :
      (x y : A) (zs : List A)
      → le x y ≡ true
      → All (λ z. le y z ≡ true) zs
      → All (λ z. le x z ≡ true) zs
  All-le_trans x y [] h k = tt
  All-le_trans x y (z ∷ zs) h k = (o.le_trans x y z h k.0, All-le_trans x y zs h k.1)

  insert_sorted-IsSorted :
      (x : A) (xs : List A) → IsSorted le xs → IsSorted le (insert_sorted le x xs)
  unfolding insert_sorted
  insert_sorted-IsSorted x [] h = (tt, tt)
  insert_sorted-IsSorted x (y ∷ ys) h = elim (Bool-cases (le x y)) [
    | inl e ↦ rw e ((e, All-le_trans x y ys e h.0), h)
    | inr e ↦ rw e (
      All-insert_sorted le (λ z. le y z ≡ true) x ys (o.total x y e) h.0,
      insert_sorted-IsSorted x ys h.1,
    )
  ]

  pub sorted-IsSorted : (xs : List A) → IsSorted le (sorted le xs)
  unfolding sorted
  sorted-IsSorted [] = tt
  sorted-IsSorted (x ∷ xs) = insert_sorted-IsSorted x (sorted le xs) (sorted-IsSorted xs)

  -- The last member of a sorted list is the greatest.
  pub last?-IsSorted :
      (xs : List A) (m : A) → IsSorted le xs → last? xs ≡ some m → All (λ y. le y m ≡ true) xs
  last?-IsSorted [] m h e = tt
  last?-IsSorted (x ∷ []) m h e = (subst_last e, tt)
    where
      subst_last : some x ≡ some m → le x m ≡ true
      subst_last e = let p : x ≡ m = cc in rw p (order_refl m)
  last?-IsSorted (x ∷ y ∷ ys) m h e =
      let below = last?-IsSorted (y ∷ ys) m h.1 e in (o.le_trans x y m h.0.0 below.0, below)
