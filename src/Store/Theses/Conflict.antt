-- ===== src/Store/Theses/Conflict.antt =====
-- The optimistic lock of `update_thesis` of app/database/thesis_repositories.py.
use mathlib.Core.List.{Memᴰ}
use stock_master.Prelude.{
  ℕ, ◌+◌, ◌≡◌, ◌≢◌, refl, sym, ap, ◌∙◌, List, [], ◌∷◌, Bool, true, false, ◌==◌, some, ok, err,
  find?, find?-head, find?-tail, Bool-cases, inl, inr, arith, repository_conflict,
}
use stock_master.Prelude.Order.Distinct.{Distinct-injective}
use stock_master.Thesis.{InvestmentThesis, DateTime, make_thesis}
use stock_master.Store.{Session}
use stock_master.Store.Theses.{
  owns_thesis, ThesisUpdate, hit_by, updated_row, update_rows, update_thesis, require_thesis,
  get_thesis, read_thesis,
}
use stock_master.Store.Theses.Lifecycle.{update_thesis-Updates}
use stock_master.Store.Theses.Replay.{IsLedger}
use stock_master.Store.Theses.Ledger.{id_of, row_hit, hit_by-ids}

hit_by-owns :
    (u : ThesisUpdate) (a : InvestmentThesis)
    → hit_by u a ≡ true
    → owns_thesis u.user_id u.thesis_id a ≡ true
unfolding hit_by
hit_by-owns u a h = ground arith

owns_thesis-ids :
    (user_id thesis_id : ℕ) (a : InvestmentThesis)
    → owns_thesis user_id thesis_id a ≡ true
    → a.id ≡ thesis_id
unfolding owns_thesis
owns_thesis-ids user_id thesis_id a h = ground arith

module _ (u : ThesisUpdate) (instant : DateTime) (row : InvestmentThesis)
    (hit : hit_by u row ≡ true) where
  abbrev mine : InvestmentThesis → Bool
  mine = owns_thesis u.user_id u.thesis_id

  mine-updated_row : (a : InvestmentThesis) → mine (updated_row u instant a) ≡ mine a
  unfolding updated_row owns_thesis
  mine-updated_row a = refl

  find?-update_rows :
      (xs : List InvestmentThesis)
      → ((a : InvestmentThesis) → Memᴰ a xs → mine a ≡ true → a ≡ row)
      → find? (hit_by u) xs ≡ some row
      → find? mine (update_rows (hit_by u) (updated_row u instant) xs)
        ≡ some (updated_row u instant row)
  unfolding update_rows
  find?-update_rows [] only h = absurd (ground arith)
  find?-update_rows (x ∷ xs) only h = elim (Bool-cases (hit_by u x)) [
    | inl e ↦
        let own : mine (updated_row u instant x) ≡ true = mine-updated_row x ∙ hit_by-owns u x e in
        rw e (
          find?-head mine _ _ own
          ∙ ap (λ z. some (updated_row u instant z)) (only x (Memᴰ.head refl) (hit_by-owns u x e)))
    | inr e ↦
        let other : mine x ≡ false = elim (Bool-cases (mine x)) [
          | inr f ↦ f
          | inl f ↦ absurd (ground (arith, e, hit, ap (hit_by u) (only x (Memᴰ.head refl) f)))
        ] in
        rw e (
          find?-tail mine _ _ other
          ∙ find?-update_rows xs (λ a m. only a (Memᴰ.tail m)) (ground (arith, e, h)))
  ]

read_thesis-row :
    (row t : InvestmentThesis) → make_thesis row ≡ ok t → read_thesis (some row) ≡ ok (some t)
unfolding read_thesis
read_thesis-row row t made = rw (made, read_thesis)

require_thesis-row :
    (user_id thesis_id : ℕ) (s : Session) (row t : InvestmentThesis)
    → find? (owns_thesis user_id thesis_id) s.theses ≡ some row
    → make_thesis row ≡ ok t
    → require_thesis user_id thesis_id s ≡ (ok t, s)
unfolding require_thesis get_thesis
require_thesis-row user_id thesis_id s row t found made = rw (found, read_thesis-row row t made)

-- An update that expects another version than the one that the row has raises, and changes nothing.
stale_update_refused :
    (v : ThesisUpdate) (s : Session) (row t : InvestmentThesis)
    → find? (owns_thesis v.user_id v.thesis_id) s.theses ≡ some row
    → make_thesis row ≡ ok t
    → (t.version == v.expected_version) ≡ false
    → update_thesis v s ≡ (err repository_conflict, s)
unfolding update_thesis
stale_update_refused v s row t found made stale =
    rw (require_thesis-row v.user_id v.thesis_id s row t found made, stale)

updated_row-version :
    (u : ThesisUpdate) (instant : DateTime) (row : InvestmentThesis)
    → (updated_row u instant row).version ≡ u.expected_version + 1
unfolding updated_row
updated_row-version u instant row = refl

make_thesis-version : (a t : InvestmentThesis) → make_thesis a ≡ ok t → t.version ≡ a.version
unfolding make_thesis
make_thesis-version a t h = ground arith

-- In a session whose history agrees with its rows, once an update of a thesis has returned, every
-- update of that thesis for the same user that expects a version other than one past the expected
-- version of the first raises a conflict and changes nothing: of two updates made from one version
-- only one succeeds.
pub updates_conflict :
    (u v : ThesisUpdate) (s s' : Session) (t : InvestmentThesis)
    → IsLedger s
    → update_thesis u s ≡ (ok t, s')
    → v.user_id ≡ u.user_id
    → v.thesis_id ≡ u.thesis_id
    → v.expected_version ≢ u.expected_version + 1
    → update_thesis v s' ≡ (err repository_conflict, s')
updates_conflict u v s s' t l h user thesis other =
    let done = update_thesis-Updates u s s' t h in
    let (member, hit) = row_hit u s s' t done l in
    let (row_id, _) = hit_by-ids u done.row hit in
    let only =
      λ (a : InvestmentThesis) (m : Memᴰ a s.theses)
          (own : owns_thesis u.user_id u.thesis_id a ≡ true).
        Distinct-injective id_of l.keys m member
          (owns_thesis-ids u.user_id u.thesis_id a own ∙ sym row_id) in
    let after = find?-update_rows u done.instant done.row hit s.theses only done.found in
    let found : find? (owns_thesis v.user_id v.thesis_id) s'.theses
        ≡ some (updated_row u done.instant done.row) =
      simp (user, thesis, done.theses) after in
    let version : t.version ≡ u.expected_version + 1 =
      make_thesis-version _ t done.made ∙ updated_row-version u done.instant done.row in
    stale_update_refused v s' (updated_row u done.instant done.row) t found done.made
      (ground (arith, version, other))
