-- ===== src/Prelude/Upsert.antt =====
-- Tables with a unique key: rows of which no two have one key, and `INSERT ... ON CONFLICT DO UPDATE`.
use mathlib.Core.Path.{◌≡◌, refl, sym, ◌∙◌, subst}
use mathlib.Core.Bool.{Bool, true, false}
use mathlib.Core.Logic.{◌↔◌, inl, inr}
use mathlib.Core.List.{List, [], ◌∷◌, ◌++◌}
use mathlib.Core.Option.{none, some}
use stock_master.Prelude.Lists.{
  All, All-append, All-weaken, find?, find?-head, find?-tail, find?-cong,
}
use stock_master.Prelude.Tests.{Bool-cases}

module _ {A : Type 0} (same : A → A → Bool) where
  -- No two rows have one key.
  abbrev pub Unique : List A → Type 0
  Unique [] = Unit
  Unique (x ∷ xs) = All (λ y. same x y ≡ false) xs × Unique xs

  pub Unique-snoc :
      (xs : List A) (row : A)
      → All (λ x. same x row ≡ false) xs
      → Unique xs
      → Unique (xs ++ row ∷ [])
  Unique-snoc [] row h u = (tt, tt)
  Unique-snoc (x ∷ xs) row h u =
      (All-append (λ y. same x y ≡ false) xs (row ∷ []) u.0 (h.0, tt), Unique-snoc xs row h.1 u.1)

  -- `set_` changes the row that has the key of the new one; without such a row the new one is added.
  unfoldable pub upsert : (A → A → A) → A → List A → List A
  upsert merge new [] = new ∷ []
  upsert merge new (x ∷ xs) =
      let rest = upsert merge new xs in
      elim (same x new) [ true ↦ merge x new ∷ xs | false ↦ x ∷ rest ]

  -- What the first row decides.
  upsert-case :
      (P : List A → Type 0) (merge : A → A → A) (new x : A) (xs : List A)
      → (same x new ≡ true → P (merge x new ∷ xs))
      → (same x new ≡ false → P (x ∷ upsert merge new xs))
      → P (upsert merge new (x ∷ xs))
  unfolding upsert
  upsert-case P merge new x xs hit miss = elim (Bool-cases (same x new)) [
    | inl e ↦
        let eq : upsert merge new (x ∷ xs) ≡ merge x new ∷ xs = rw (e, upsert) in
        subst P (sym eq) (hit e)
    | inr e ↦
        let eq : upsert merge new (x ∷ xs) ≡ x ∷ upsert merge new xs = rw (e, upsert) in
        subst P (sym eq) (miss e)
  ]

-- The test of equal keys.
pub record IsKeyTest {A : Type 0} (same : A → A → Bool) : Type 0 where
  pub refl_on : (a : A) → same a a ≡ true
  pub symm : (a b : A) → same a b ≡ same b a
  pub trans : (a b c : A) → same a b ≡ true → same a c ≡ same b c

module _ {A : Type 0} {same : A → A → Bool} (k : IsKeyTest same) (merge : A → A → A)
    (keeps_key : (old new : A) → same (merge old new) new ≡ true) where
  All-upsert :
      (P : A → Type 0) (new : A) (xs : List A)
      → P new
      → ((old : A) → P (merge old new))
      → All P xs
      → All P (upsert same merge new xs)
  unfolding upsert
  All-upsert P new [] fresh merged h = (fresh, tt)
  All-upsert P new (x ∷ xs) fresh merged h =
      upsert-case same (All P) merge new x xs (λ e. (merged x, h.1))
        (λ e. (h.0, All-upsert P new xs fresh merged h.1))

  pub upsert-Unique :
      (new : A) (xs : List A) → Unique same xs → Unique same (upsert same merge new xs)
  unfolding upsert
  upsert-Unique new [] u = (tt, tt)
  upsert-Unique new (x ∷ xs) u =
      upsert-case same (Unique same) merge new x xs
        (λ e.
          let moved =
            λ (y : A). k.trans (merge x new) new y (keeps_key x new) ∙ sym (k.trans x new y e) in
          (
            All-weaken (λ y. same x y ≡ false) (λ y. same (merge x new) y ≡ false) xs
                (λ y h. moved y ∙ h) u.0,
            u.1,
          ))
        (λ e.
          let apart = λ (old : A).
            k.symm x (merge old new)
            ∙ k.trans (merge old new) new x (keeps_key old new)
            ∙ k.symm new x
            ∙ e in
          (All-upsert (λ y. same x y ≡ false) new xs e apart u.0, upsert-Unique new xs u.1))

  -- The row of the key of the new row, afterwards.
  pub find?-upsert :
      (new : A) (xs : List A)
      → find? (λ y. same y new) (upsert same merge new xs)
        ≡ some (elim (find? (λ y. same y new) xs) [ none ↦ new | some old ↦ merge old new ])
  unfolding upsert
  find?-upsert new [] = rw (k.refl_on new, find?)
  find?-upsert new (x ∷ xs) =
      let test = λ (y : A). same y new in
      upsert-case same
        (λ ys.
          find? test ys
          ≡ some (elim (find? test (x ∷ xs)) [ none ↦ new | some old ↦ merge old new ]))
        merge new x xs
        (λ e. find?-head test (merge x new) xs (keeps_key x new) ∙ rw (find?-head test x xs e))
        (λ e. find?-tail test x _ e ∙ find?-upsert new xs ∙ rw (find?-tail test x xs e))

  -- The row of another key, afterwards, is the row of before.
  pub find?-upsert_other :
      (new q : A) (xs : List A)
      → same new q ≡ false
      → find? (λ y. same y q) (upsert same merge new xs) ≡ find? (λ y. same y q) xs
  unfolding upsert
  find?-upsert_other new q [] other = find?-tail (λ y. same y q) new [] other
  find?-upsert_other new q (x ∷ xs) other =
      let test = λ (y : A). same y q in
      upsert-case same (λ ys. find? test ys ≡ find? test (x ∷ xs)) merge new x xs
        (λ e.
          find?-tail test (merge x new) xs (k.trans (merge x new) new q (keeps_key x new) ∙ other)
          ∙ sym (find?-tail test x xs (k.trans x new q e ∙ other)))
        (λ e. find?-cong test x _ xs (find?-upsert_other new q xs other))

bool_ext : (a b : Bool) → (a ≡ true → b ≡ true) → (b ≡ true → a ≡ true) → a ≡ b
bool_ext true b f g = sym (f refl)
bool_ext false true f g = g refl
bool_ext false false f g = refl

-- A test that compares keys is a test of equal keys.
pub IsKeyTest-of_iff :
    {A K : Type 0} (key : A → K) (same : A → A → Bool)
    → ((a b : A) → (same a b ≡ true) ↔ (key a ≡ key b))
    → IsKeyTest same
IsKeyTest-of_iff key same iff = record {
  refl_on = λ a. (iff a a).1 refl;
  symm = λ a b.
      bool_ext _ _ (λ h. (iff b a).1 (sym ((iff a b).0 h)))
        (λ h. (iff a b).1 (sym ((iff b a).0 h)));
  trans = λ a b c h.
      bool_ext _ _ (λ p. (iff b c).1 (sym ((iff a b).0 h) ∙ (iff a c).0 p))
        (λ p. (iff a c).1 ((iff a b).0 h ∙ (iff b c).0 p));
}
