-- ===== src/Store/Listing/Pages.antt =====
-- `LIMIT` and `OFFSET` in app/database/thesis_repositories.py: the pages of one listing adjoin.
use mathlib.Core.List.{Permᴰ}
use stock_master.Prelude.{
  ℕ, zero, suc, ◌+◌, ◌≡◌, refl, sym, ap, ◌∙◌, Text, List, [], ◌∷◌, ◌++◌, Option, ok, take, drop,
  keep, true, false, subst, ◌≤◌, arith,
}
use stock_master.Prelude.Order.{IsOrder, sorted}
use stock_master.Prelude.Order.Distinct.{Apart, Distinct, sorted_perm_eq}
use stock_master.Prelude.Order.Kept.{keep-perm, Distinct-keep}
use stock_master.Prelude.Reading.{read_all, read_all-append}
use stock_master.Prelude.Exec.{bind-eq-ok, lift}
use stock_master.Thesis.{InvestmentThesis, ThesisStatus, make_thesis}
use stock_master.Store.{Session}
use stock_master.Store.Listing.{
  validate_pagination, page, filter_symbol, is_wanted, latest_thesis_first, list_theses,
}

module _ {A : Type 0} where
  take-adjoin : (m n : ℕ) (rows : List A) → take m rows ++ take n (drop m rows) ≡ take (m + n) rows
  take-adjoin zero n rows = let e : 0 + n ≡ n = omega arith in rw e refl
  take-adjoin (suc m) zero [] = let e : suc m + 0 ≡ suc m = omega arith in rw e refl
  take-adjoin (suc m) (suc n) [] =
      let e : suc m + suc n ≡ suc (m + suc n) = omega arith in rw e refl
  take-adjoin (suc m) n (x ∷ xs) =
      let e : suc m + n ≡ suc (m + n) = omega arith in rw e (ap (λ ys. x ∷ ys) (take-adjoin m n xs))

  drop-adjoin : (m offset : ℕ) (rows : List A) → drop (offset + m) rows ≡ drop m (drop offset rows)
  drop-adjoin m zero rows = let e : 0 + m ≡ m = omega arith in rw e refl
  drop-adjoin zero (suc o) [] = let e : suc o + 0 ≡ suc o = omega arith in rw e refl
  drop-adjoin (suc m) (suc o) [] =
      let e : suc o + suc m ≡ suc (o + suc m) = omega arith in rw e refl
  drop-adjoin m (suc o) (x ∷ xs) =
      let e : suc o + m ≡ suc (o + m) = omega arith in rw e (drop-adjoin m o xs)

  page-adjoin :
      (m n offset : ℕ) (rows : List A)
      → page m offset rows ++ page n (offset + m) rows ≡ page (m + n) offset rows
  unfolding page
  page-adjoin m n offset rows =
      ap (λ ys. take m (drop offset rows) ++ take n ys) (drop-adjoin m offset rows)
      ∙ take-adjoin m n (drop offset rows)

validate_pagination-sum :
    (m n : ℕ) → validate_pagination m ≡ ok tt → m + n ≤ 500 → validate_pagination (m + n) ≡ ok tt
unfolding validate_pagination
validate_pagination-sum m n h k = ground (arith, h, k)

-- the primary key
abbrev pub thesis_id : InvestmentThesis → ℕ
thesis_id t = t.id

latest_thesis_first-IsOrder : IsOrder latest_thesis_first
unfolding latest_thesis_first
latest_thesis_first-IsOrder = record {
  total = λ a b h. ground arith;
  le_trans = λ a b c h k. ground arith;
}

latest_thesis_first_strict :
    (a b : InvestmentThesis)
    → Apart thesis_id a b
    → latest_thesis_first a b ≡ true
    → latest_thesis_first b a ≡ false
unfolding latest_thesis_first
latest_thesis_first_strict a b h k = ground arith

module _ (user_id : ℕ) (symbol : Option Text) (status : Option ThesisStatus) where
  -- the rows of the query
  abbrev rows_of : Option Text → Session → List InvestmentThesis
  rows_of clean s = sorted latest_thesis_first (keep (is_wanted user_id clean status) s.theses)

  list_theses-ok :
      (limit offset : ℕ) (s s' : Session) (ts : List InvestmentThesis)
      → list_theses user_id symbol status limit offset s ≡ (ok ts, s')
      → (validate_pagination limit ≡ ok tt)
        × ((clean : Option Text) × (filter_symbol symbol ≡ ok clean)
            × (read_all make_thesis (page limit offset (rows_of clean s)) ≡ ok ts))
  unfolding list_theses
  list_theses-ok limit offset s s' ts h =
      let (_, valid, k1) = bind-eq-ok (lift (validate_pagination limit)) _ s h in
      let (clean, filtered, k2) = bind-eq-ok (lift (filter_symbol symbol)) _ s k1 in
      (valid, (clean, filtered, ap (λ p. p.0) k2))

  list_theses-eq :
      (limit offset : ℕ) (s : Session) (clean : Option Text)
      → validate_pagination limit ≡ ok tt
      → filter_symbol symbol ≡ ok clean
      → list_theses user_id symbol status limit offset s
        ≡ (read_all make_thesis (page limit offset (rows_of clean s)), s)
  unfolding list_theses
  list_theses-eq limit offset s clean valid filtered = rw (valid, filtered) refl

  -- In whatever order the database gives the rows, the rows of the query are the same list.
  rows_of-perm :
      (clean : Option Text) (s s' : Session)
      → Distinct thesis_id s.theses
      → Permᴰ s.theses s'.theses
      → rows_of clean s ≡ rows_of clean s'
  rows_of-perm clean s s' apart moved =
      sorted_perm_eq thesis_id latest_thesis_first-IsOrder latest_thesis_first_strict
        (keep-perm (is_wanted user_id clean status) moved)
        (Distinct-keep (is_wanted user_id clean status) thesis_id s.theses apart)

  -- When the identifiers of the theses are different, and two pages of a user's theses are listed with one
  -- filter, the second beginning where the first ends and the table then holding the same rows in any
  -- order: the listing with the sum of the limits, if it is allowed, is the first page followed by the
  -- second.
  pub list_theses-adjoin :
      (m n offset : ℕ) (s s' s1 s2 : Session) (xs ys : List InvestmentThesis)
      → m + n ≤ 500
      → Distinct thesis_id s.theses
      → Permᴰ s.theses s'.theses
      → list_theses user_id symbol status m offset s ≡ (ok xs, s1)
      → list_theses user_id symbol status n (offset + m) s' ≡ (ok ys, s2)
      → list_theses user_id symbol status (m + n) offset s ≡ (ok (xs ++ ys), s)
  list_theses-adjoin m n offset s s' s1 s2 xs ys le apart moved h k =
      let (valid, (clean, filtered, first)) = list_theses-ok m offset s s1 xs h in
      let (_, (other, again, second)) = list_theses-ok n (offset + m) s' s2 ys k in
      let same : other ≡ clean = ground (arith, filtered, again) in
      let second' =
        subst (λ rows. read_all make_thesis (page n (offset + m) rows) ≡ ok ys)
          (ap (λ c. rows_of c s') same ∙ sym (rows_of-perm clean s s' apart moved)) second in
      let both = read_all-append make_thesis _ _ xs ys first second' in
      list_theses-eq (m + n) offset s clean (validate_pagination-sum m n valid le) filtered
      ∙ ap (λ rows. (read_all make_thesis rows, s)) (sym (page-adjoin m n offset (rows_of clean s)))
      ∙ ap (λ r. (r, s)) both
