-- ===== src/Prelude/Order/Distinct.antt =====
-- Lists whose members have different keys: sorting them gives one list, whatever their order.
use mathlib.Core.Path.{◌≡◌, refl, sym, ap, subst, subst₂, ap₂, ◌∙◌}
use mathlib.Core.Bool.{Bool, true, false}
use mathlib.Core.Logic.{◌≢◌}
use mathlib.Core.List.{List, [], ◌∷◌, Permᴰ, Memᴰ}
use native.Mathlib.Omega.{arith}
use Prim.Native.Nat.{ℕ, zero, suc}
use stock_master.Prelude.Lists.{All, All-Memᴰ, All-take, take}
use stock_master.Prelude.Order.{IsOrder, insert_sorted, sorted}

module _ {ℓ κ} {A : Type ℓ} (P : A → Type κ) where
  -- A predicate of all members does not see their order.
  pub All-perm : {xs ys : List A} → Permᴰ xs ys → All P xs → All P ys
  All-perm Permᴰ.nil h = tt
  All-perm (Permᴰ.cons e p) h = (subst P e h.0, All-perm p h.1)
  All-perm (Permᴰ.swap e f) h = (subst P f h.1.0, (subst P e h.0, h.1.1))
  All-perm (Permᴰ.trans p q) h = All-perm q (All-perm p h)

module _ {ℓ} {A : Type ℓ} where
  pub Memᴰ-perm : {a : A} {xs ys : List A} → Permᴰ xs ys → Memᴰ a xs → Memᴰ a ys
  Memᴰ-perm Permᴰ.nil m = elim m [ ]
  Memᴰ-perm (Permᴰ.cons e p) (Memᴰ.head q) = Memᴰ.head (q ∙ e)
  Memᴰ-perm (Permᴰ.cons e p) (Memᴰ.tail m) = Memᴰ.tail (Memᴰ-perm p m)
  Memᴰ-perm (Permᴰ.swap e f) (Memᴰ.head q) = Memᴰ.tail (Memᴰ.head (q ∙ e))
  Memᴰ-perm (Permᴰ.swap e f) (Memᴰ.tail (Memᴰ.head q)) = Memᴰ.head (q ∙ f)
  Memᴰ-perm (Permᴰ.swap e f) (Memᴰ.tail (Memᴰ.tail m)) = Memᴰ.tail (Memᴰ.tail m)
  Memᴰ-perm (Permᴰ.trans p q) m = Memᴰ-perm q (Memᴰ-perm p m)

module _ {ℓ} {A : Type ℓ} (key : A → ℕ) where
  abbrev pub Apart : A → A → Type 0
  Apart a b = key a ≢ key b

  -- No two members have one key.
  abbrev pub Distinct : List A → Type 0
  Distinct [] = Unit
  Distinct (x ∷ xs) = All (Apart x) xs × Distinct xs

  pub Distinct-perm : {xs ys : List A} → Permᴰ xs ys → Distinct xs → Distinct ys
  Distinct-perm Permᴰ.nil h = tt
  Distinct-perm (Permᴰ.cons {a = a} {l₂ = l₂} e p) h =
      (subst (λ z. All (Apart z) l₂) e (All-perm (Apart a) p h.0), Distinct-perm p h.1)
  Distinct-perm (Permᴰ.swap {a = a} {b = b} {l = l} e f) h =
      let swapped : Distinct (b ∷ a ∷ l) = ((λ q. h.0.0 (sym q), h.1.0), (h.0.1, h.1.1)) in
      subst₂ (λ u v. Distinct (u ∷ v ∷ l)) f e swapped
  Distinct-perm (Permᴰ.trans p q) h = Distinct-perm q (Distinct-perm p h)

  Apart-Memᴰ : {a b : A} {xs : List A} → All (Apart a) xs → Memᴰ b xs → Apart a b
  Apart-Memᴰ {a} h m = All-Memᴰ (Apart a) h m

  -- Members with one key are one member.
  pub Distinct-injective :
      {a b : A} {xs : List A} → Distinct xs → Memᴰ a xs → Memᴰ b xs → key a ≡ key b → a ≡ b
  Distinct-injective d (Memᴰ.head e) (Memᴰ.head f) h = e ∙ sym f
  Distinct-injective d (Memᴰ.head e) (Memᴰ.tail n) h =
      absurd (Apart-Memᴰ d.0 n (sym (ap key e) ∙ h))
  Distinct-injective d (Memᴰ.tail m) (Memᴰ.head f) h =
      absurd (Apart-Memᴰ d.0 m (sym (ap key f) ∙ sym h))
  Distinct-injective d (Memᴰ.tail m) (Memᴰ.tail n) h = Distinct-injective d.1 m n h

  module _ {le : A → A → Bool} (o : IsOrder le)
      (strict : (a b : A) → Apart a b → le a b ≡ true → le b a ≡ false) where
    insert_sorted_comm :
        (x y : A) (zs : List A)
        → Apart x y
        → insert_sorted le x (insert_sorted le y zs) ≡ insert_sorted le y (insert_sorted le x zs)
    unfolding insert_sorted
    insert_sorted_comm x y [] h = ground (arith, strict x y h, o.total x y)
    insert_sorted_comm x y (z ∷ zs) h = ground (
      arith,
      strict x y h,
      o.total x y,
      o.le_trans x y z,
      o.le_trans y x z,
      insert_sorted_comm x y zs h,
    )

    pub sorted_perm_eq : {xs ys : List A} → Permᴰ xs ys → Distinct xs → sorted le xs ≡ sorted le ys
    unfolding sorted
    sorted_perm_eq Permᴰ.nil h = refl
    sorted_perm_eq (Permᴰ.cons e p) h = ap₂ (insert_sorted le) e (sorted_perm_eq p h.1)
    sorted_perm_eq (Permᴰ.swap {a = a} {b = b} {l = l} e f) h =
        rw (← e, ← f) (insert_sorted_comm a b (sorted le l) h.0.0)
    sorted_perm_eq (Permᴰ.trans p q) h = sorted_perm_eq p h ∙ sorted_perm_eq q (Distinct-perm p h)

module _ {A : Type 0} where
  pub Distinct-take :
      (key : A → ℕ) (n : ℕ) (xs : List A) → Distinct key xs → Distinct key (take n xs)
  Distinct-take key zero xs h = tt
  Distinct-take key (suc n) [] h = tt
  Distinct-take key (suc n) (x ∷ xs) h =
      (All-take (Apart key x) n xs h.0, Distinct-take key n xs h.1)
