-- ===== src/Prelude/Order/Kept.antt =====
-- The members that pass a test, of a list in another order.
use mathlib.Core.Path.{refl, subst, subst₂}
use mathlib.Core.Bool.{Bool, true, false}
use mathlib.Core.List.{List, [], ◌∷◌, Permᴰ}
use mathlib.Core.List.Permᴰ
use Prim.Native.Nat.{ℕ}
use stock_master.Prelude.Lists.{All, keep, keep-case}
use stock_master.Prelude.Order.Distinct.{Apart, Distinct}

module _ {A : Type 0} (p : A → Bool) where
  cons_kept :
      (b : Bool) (x : A) {xs ys : List A}
      → Permᴰ xs ys
      → Permᴰ
          (elim b as (λ c. List A) [ true ↦ x ∷ xs | false ↦ xs ])
          (elim b as (λ c. List A) [ true ↦ x ∷ ys | false ↦ ys ])
  cons_kept true x h = Permᴰ.cons refl h
  cons_kept false x h = h

  swap_kept :
      (b c : Bool) (x y : A) (zs : List A)
      → Permᴰ
          (elim b as (λ d. List A) [
            | true ↦ x ∷ (elim c as (λ d. List A) [ true ↦ y ∷ zs | false ↦ zs ])
            | false ↦ elim c as (λ d. List A) [ true ↦ y ∷ zs | false ↦ zs ]
          ])
          (elim c as (λ d. List A) [
            | true ↦ y ∷ (elim b as (λ d. List A) [ true ↦ x ∷ zs | false ↦ zs ])
            | false ↦ elim b as (λ d. List A) [ true ↦ x ∷ zs | false ↦ zs ]
          ])
  swap_kept true true x y zs = Permᴰ.swap refl refl
  swap_kept true false x y zs = Permᴰ.refl (x ∷ zs)
  swap_kept false true x y zs = Permᴰ.refl (y ∷ zs)
  swap_kept false false x y zs = Permᴰ.refl zs

  -- They are the same in another order.
  pub keep-perm : {xs ys : List A} → Permᴰ xs ys → Permᴰ (keep p xs) (keep p ys)
  keep-perm Permᴰ.nil = Permᴰ.nil
  keep-perm (Permᴰ.cons {a = a} {l₁ = l₁} {l₂ = l₂} e h) =
      subst (λ z. Permᴰ (keep p (a ∷ l₁)) (keep p (z ∷ l₂))) e (cons_kept (p a) a (keep-perm h))
  keep-perm (Permᴰ.swap {a = a} {b = b} {l = l} e f) =
      subst₂ (λ u v. Permᴰ (keep p (a ∷ b ∷ l)) (keep p (u ∷ v ∷ l))) f e
        (swap_kept (p a) (p b) a b (keep p l))
  keep-perm (Permᴰ.trans h k) = Permᴰ.trans (keep-perm h) (keep-perm k)

  All-keep : (P : A → Type 0) (xs : List A) → All P xs → All P (keep p xs)
  All-keep P [] h = tt
  All-keep P (x ∷ xs) h =
      keep-case (All P) p x xs (λ e. (h.0, All-keep P xs h.1)) (λ e. All-keep P xs h.1)

  pub Distinct-keep : (key : A → ℕ) (xs : List A) → Distinct key xs → Distinct key (keep p xs)
  Distinct-keep key [] h = tt
  Distinct-keep key (x ∷ xs) h =
      keep-case (Distinct key) p x xs
        (λ e. (All-keep (Apart key x) xs h.0, Distinct-keep key xs h.1))
        (λ e. Distinct-keep key xs h.1)
