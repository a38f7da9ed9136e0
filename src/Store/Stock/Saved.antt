-- ===== src/Store/Stock/Saved.antt =====
-- What `save_daily_bars` of app/database/repositories.py leaves in the table: the bars that it was
-- given, each under its key.
use stock_master.Prelude.{
  ℕ, ◌+◌, ◌≡◌, ap, ◌∙◌, List, [], ◌∷◌, false, Option, some, ok, cardinality_violation, find?, arith,
  All, >>=-eq-ok, length, Option-cases, inl, inr, subst,
}
use stock_master.Prelude.Upsert.{upsert, Unique, find?-upsert, find?-upsert_other}
use stock_master.Prelude.Exec.{bind-eq-ok, lift, raise_when}
use stock_master.MarketData.{DailyBar}
use stock_master.Store.{Session, World}
use stock_master.Store.Stock.Rows.{same_bar, stored_bar, stored_bars, some_same_bar, some_twice}
use stock_master.Store.Stock.{
  merge_bar, number_bars, upsert_bars, insert_bars, put_bars, save_daily_bars,
}
use stock_master.Store.Stock.Keys.{same_bar-IsKeyTest, merge_bar-key}

-- The table has the row, but for its identifier, as the one under its key.
abbrev Holds : List DailyBar → DailyBar → Type 0
Holds table row =
    (id : Option ℕ) × (find? (λ y. same_bar y row) table
      ≡ some (record row { observation_id = id }))

-- The table has what the columns store of a bar, as the row under its key.
abbrev pub IsSaved : World → List DailyBar → DailyBar → Type 0
IsSaved world table bar = (row : DailyBar) × (stored_bar world bar ≡ ok row) × Holds table row

Holds-upsert :
    (row : DailyBar) (table : List DailyBar) → Holds (upsert same_bar merge_bar row table) row
unfolding merge_bar
Holds-upsert row table =
    let found = find?-upsert same_bar-IsKeyTest merge_bar merge_bar-key row table in
    elim (Option-cases (find? (λ y. same_bar y row) table)) [
      | inl e ↦ (row.observation_id, found ∙ rw e)
      | inr (old, e) ↦ (old.observation_id, found ∙ rw e)
    ]

Holds-upsert_other :
    (row other : DailyBar) (table : List DailyBar)
    → same_bar other row ≡ false
    → Holds table row
    → Holds (upsert same_bar merge_bar other table) row
Holds-upsert_other row other table h (id, found) =
    (id, find?-upsert_other same_bar-IsKeyTest merge_bar merge_bar-key other row table h ∙ found)

module _ (uuid : ℕ → ℕ) where
  Holds-upsert_bars :
      (row : DailyBar) (others : List DailyBar) (drawn : ℕ) (table : List DailyBar)
      → All (λ y. same_bar row y ≡ false) others
      → Holds table row
      → Holds (upsert_bars (number_bars uuid drawn others) table) row
  unfolding upsert_bars number_bars same_bar
  Holds-upsert_bars row [] drawn table h k = k
  Holds-upsert_bars row (x ∷ xs) drawn table h k =
      Holds-upsert_bars row xs (drawn + 1) _ h.1
        (Holds-upsert_other row _ table (same_bar-IsKeyTest.symm x row ∙ h.0) k)

  upsert_bars-Holds :
      (rows : List DailyBar) (drawn : ℕ) (table : List DailyBar)
      → Unique same_bar rows
      → All (Holds (upsert_bars (number_bars uuid drawn rows) table)) rows
  unfolding upsert_bars number_bars same_bar
  upsert_bars-Holds [] drawn table u = tt
  upsert_bars-Holds (x ∷ xs) drawn table u = (
    Holds-upsert_bars x xs (drawn + 1) _ u.0
        (Holds-upsert (record x { observation_id = some (uuid drawn) }) table),
    upsert_bars-Holds xs (drawn + 1) _ u.1,
  )

some_same_bar→All :
    (bar : DailyBar) (rows : List DailyBar)
    → some_same_bar bar rows ≡ false
    → All (λ y. same_bar bar y ≡ false) rows
unfolding some_same_bar
some_same_bar→All bar [] h = tt
some_same_bar→All bar (x ∷ xs) h = (ground arith, some_same_bar→All bar xs (ground arith))

some_twice→Unique : (rows : List DailyBar) → some_twice rows ≡ false → Unique same_bar rows
unfolding some_twice
some_twice→Unique [] h = tt
some_twice→Unique (x ∷ xs) h =
    (some_same_bar→All x xs (ground arith), some_twice→Unique xs (ground arith))

stored_bars-IsSaved :
    (world : World) (table bars rows : List DailyBar)
    → stored_bars world bars ≡ ok rows
    → All (Holds table) rows
    → All (IsSaved world table) bars
unfolding stored_bars
stored_bars-IsSaved world table [] rows e h = tt
stored_bars-IsSaved world table (bar ∷ bars) rows e h =
    let (row, one, k) = >>=-eq-ok (stored_bar world bar) _ e in
    let (others, more, made) = >>=-eq-ok (stored_bars world bars) _ k in
    let whole : rows ≡ row ∷ others = ground (arith, made) in
    let held : All (Holds table) (row ∷ others) = subst (All (Holds table)) whole h in
    ((row, one, held.0), stored_bars-IsSaved world table bars others more held.1)

insert_bars-IsSaved :
    (bars : List DailyBar) (s s' : Session) (n : ℕ)
    → insert_bars bars s ≡ (ok n, s')
    → All (IsSaved s.world s'.daily_bars) bars × (n ≡ length bars)
unfolding insert_bars put_bars
insert_bars-IsSaved bars s s' n h =
    let (rows, stored, k1) = bind-eq-ok (lift (stored_bars s.world bars)) _ s h in
    let (_, once, k2) = bind-eq-ok (raise_when (some_twice rows) cardinality_violation) _ s k1 in
    let apart : some_twice rows ≡ false = ground (arith, once) in
    let table = upsert_bars (number_bars s.world.uuid s.uuids_drawn rows) s.daily_bars in
    let saved = stored_bars-IsSaved s.world table bars rows stored (
      upsert_bars-Holds s.world.uuid rows s.uuids_drawn s.daily_bars
        (some_twice→Unique rows apart)) in
    let after : table ≡ s'.daily_bars = ap (λ p. p.1.daily_bars) k2 in
    let answer : n ≡ length bars = ground (arith, k2) in
    (subst (λ t. All (IsSaved s.world t) bars) after saved, answer)

-- When saving bars returns, it returns how many they are, and the look-up of the key of each of them
-- in the table gives exactly what the columns store of that bar, with an identifier: bars that were
-- there under the keys are overwritten, and none of the statement overwrites another.
pub save_daily_bars-IsSaved :
    (bars : List DailyBar) (s s' : Session) (n : ℕ)
    → save_daily_bars bars s ≡ (ok n, s')
    → All (IsSaved s.world s'.daily_bars) bars × (n ≡ length bars)
unfolding save_daily_bars
save_daily_bars-IsSaved [] s s' n h = (tt, ground arith)
save_daily_bars-IsSaved (bar ∷ bars) s s' n h = insert_bars-IsSaved (bar ∷ bars) s s' n h
