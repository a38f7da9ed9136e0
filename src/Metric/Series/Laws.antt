-- ===== src/Metric/Series/Laws.antt =====
-- What the preparation steps of app/domain/metric_calculator.py accept, for any kind of observation:
-- at least one, all with one series key, all with different dates.
use mathlib.Core.List.{Permᴰ, Memᴰ}
use stock_master.Prelude.{
  ℕ, ◌≡◌, ◌≢◌, ◌↔◌, refl, sym, ◌∙◌, List, [], ◌∷◌, Bool, true, false, map, All, All-Memᴰ,
  All-of_Memᴰ, arith,
}
use stock_master.Prelude.Order.{IsOrder, IsSorted, insert_sorted, sorted}
use stock_master.Prelude.Order.Distinct.{All-perm, Apart, Distinct, sorted_perm_eq}
use stock_master.Metric.{contains, all_distinct}
use stock_master.Metric.Series.{one_series}

-- Sorting a sorted list changes nothing.
module _ {A : Type 0} (le : A → A → Bool) where
  insert_sorted_front :
      (x : A) (xs : List A) → All (λ y. le x y ≡ true) xs → insert_sorted le x xs ≡ x ∷ xs
  unfolding insert_sorted
  insert_sorted_front x [] h = refl
  insert_sorted_front x (y ∷ ys) h = rw h.0

  sorted_of_IsSorted : (xs : List A) → IsSorted le xs → sorted le xs ≡ xs
  unfolding sorted
  sorted_of_IsSorted [] h = refl
  sorted_of_IsSorted (x ∷ xs) h = rw (sorted_of_IsSorted xs h.1) (insert_sorted_front x xs h.0)

  -- A sorted rearrangement is what `sorted` returns.
  pub sorted-eq :
      (key : A → ℕ) (o : IsOrder le)
      (strict : (a b : A) → Apart key a b → le a b ≡ true → le b a ≡ false) {xs : List A}
      (ys : List A)
      → Permᴰ xs ys
      → Distinct key xs
      → IsSorted le ys
      → sorted le xs ≡ ys
  sorted-eq key o strict ys p d s = sorted_perm_eq key o strict p d ∙ sorted_of_IsSorted ys s

module _ {A : Type 0} (key : A → ℕ) where
  pub contains→All :
      (a : A) (xs : List A) → contains (key a) (map key xs) ≡ false → All (Apart key a) xs
  unfolding contains
  contains→All a [] h = tt
  contains→All a (x ∷ xs) h = (ground arith, contains→All a xs (ground arith))

  pub All→contains :
      (a : A) (xs : List A) → All (Apart key a) xs → contains (key a) (map key xs) ≡ false
  unfolding contains
  All→contains a [] h = refl
  All→contains a (x ∷ xs) h = ground (arith, h.0, All→contains a xs h.1)

  -- `len(dates) == len(set(dates))` says that no two observations have one date.
  pub all_distinct_iff : (xs : List A) → (all_distinct (map key xs) ≡ true) ↔ Distinct key xs
  unfolding all_distinct
  all_distinct_iff [] = (λ _. tt, λ _. refl)
  all_distinct_iff (x ∷ xs) = (
    λ h. (contains→All x xs (ground arith), (all_distinct_iff xs).0 (ground arith)),
    λ h. rw (All→contains x xs h.0) ((all_distinct_iff xs).1 h.1),
  )

module _ {A : Type 0} {K : Type 0} (key : A → K) where
  -- All members have one key.
  abbrev pub Uniform : List A → Type 0
  Uniform xs = All (λ a. All (λ b. key a ≡ key b) xs) xs

  pub Uniform-perm : {xs ys : List A} → Permᴰ xs ys → Uniform xs → Uniform ys
  Uniform-perm {ys} p h =
      All-perm (λ a. All (λ b. key a ≡ key b) ys) p
        (All-of_Memᴰ (λ a. All (λ b. key a ≡ key b) ys) _
          (λ a m. All-perm (λ b. key a ≡ key b) p (All-Memᴰ (λ c. All (λ b. key c ≡ key b) _) h m)))

  module _ (same : A → A → Bool) (same_iff : (a b : A) → (same a b ≡ true) ↔ (key a ≡ key b)) where
    one_series→All :
        (x : A) (xs : List A) → one_series same (x ∷ xs) ≡ true → All (λ b. key x ≡ key b) xs
    unfolding one_series
    one_series→All x [] h = tt
    one_series→All x (y ∷ ys) h =
        ((same_iff x y).0 (ground arith), one_series→All x ys (ground arith))

    All→one_series :
        (x : A) (xs : List A) → All (λ b. key x ≡ key b) xs → one_series same (x ∷ xs) ≡ true
    unfolding one_series
    All→one_series x [] h = refl
    All→one_series x (y ∷ ys) h = rw ((same_iff x y).1 h.0) (All→one_series x ys h.1)

    All→Uniform : (x : A) (xs : List A) → All (λ b. key x ≡ key b) xs → Uniform (x ∷ xs)
    All→Uniform x xs h =
        let row = λ (a : A) (m : Memᴰ a (x ∷ xs)). All-Memᴰ (λ b. key x ≡ key b) (refl, h) m in
        All-of_Memᴰ (λ a. All (λ b. key a ≡ key b) (x ∷ xs)) (x ∷ xs)
          (λ a m. All-of_Memᴰ (λ b. key a ≡ key b) (x ∷ xs) (λ b n. sym (row a m) ∙ row b n))

    -- `len(series_keys) == 1` says that there is an observation, and that all have one key.
    pub one_series_iff : (xs : List A) → (one_series same xs ≡ true) ↔ ((xs ≢ []) × Uniform xs)
    one_series_iff [] = (λ h. absurd (unfold one_series in cc), λ h. absurd (h.0 refl))
    one_series_iff (x ∷ xs) = (
      λ h. ((λ e. cc), All→Uniform x xs (one_series→All x xs h)),
      λ h. All→one_series x xs h.1.0.1,
    )
