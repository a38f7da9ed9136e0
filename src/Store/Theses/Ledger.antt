-- ===== src/Store/Theses/Ledger.antt =====
-- The operations of app/database/thesis_repositories.py on theses keep the status history in step
-- with the rows.
use mathlib.Core.List.{Memᴰ}
use mathlib.Core.List.Permᴰ
use stock_master.Prelude.{
  ℕ, ◌≡◌, ◌≢◌, refl, sym, ap, ◌∙◌, subst, List, [], ◌∷◌, ◌++◌, append-nil, map, true, false, ◌==◌,
  none, some, ok, find?, find?-Memᴰ, All, All-append, All-weaken, Bool-cases, inl, inr, arith,
  repository_conflict,
}
use stock_master.Prelude.Exec.{bind-eq-ok, raise_when}
use stock_master.Prelude.Order.Distinct.{Distinct, Distinct-perm, Distinct-injective}
use stock_master.Thesis.{ThesisStatus, InvestmentThesis, ThesisStatusChange, DateTime}
use stock_master.Metric.{contains}
use stock_master.Metric.Series.Laws.{contains→All, all_distinct_iff}
use stock_master.Store.{Session}
use stock_master.Store.Theses.{
  create_thesis, owns_thesis, ThesisUpdate, hit_by, updated_row, update_rows, changes_status,
  check_transition, validate_status_transition, has_status, allowed, or_else,
}
use stock_master.Store.Theses.Lifecycle.{Logged, kept, changed, Updates}
use stock_master.Store.Theses.Replay.{
  replay, replay-snoc, changes_of, changes_of-append, changes_of-fresh, contains-append_left,
  absent-contains, update_rows-ids, All-update_rows, IsLedger,
}

abbrev pub id_of : InvestmentThesis → ℕ
id_of t = t.id

-- The history of a thesis is a run that ends in its status.
abbrev IsRun : List ThesisStatusChange → InvestmentThesis → Type 0
IsRun history t = (first : ThesisStatus) × (replay first (changes_of t history) ≡ some t.status)

abbrev KnownIn : List ℕ → ThesisStatusChange → Type 0
KnownIn ids c = contains c.thesis_id ids ≡ true

pub create_thesis-ok :
    (new t : InvestmentThesis) (s s' : Session)
    → create_thesis new s ≡ (ok t, s')
    → (find? (λ (a : InvestmentThesis). a.id == new.id) s.theses ≡ none)
      × (s'.theses ≡ s.theses ++ new ∷ [])
      × (s'.status_history ≡ s.status_history)
unfolding create_thesis
create_thesis-ok new t s s' h =
    let (_, a1, k1) =
      bind-eq-ok
        (raise_when
          (elim (find? (λ (a : InvestmentThesis). a.id == new.id) s.theses) [
            | none ↦ false
            | some t ↦ true
          ])
          repository_conflict)
        _ s h in
    let final = ap (λ p. p.1) k1 in
    (ground (arith, a1), sym (ap (λ z. z.theses) final), sym (ap (λ z. z.status_history) final))

pub IsLedger-create :
    (new t : InvestmentThesis) (s s' : Session)
    → create_thesis new s ≡ (ok t, s')
    → IsLedger s
    → IsLedger s'
unfolding replay
IsLedger-create new t s s' h l =
    let (absent, theses, history) = create_thesis-ok new t s s' h in
    let fresh = absent-contains new s.theses absent in
    let ids = map id_of s.theses in
    record {
      keys = subst (Distinct id_of) (sym theses) (
          Distinct-perm id_of (Permᴰ.append_comm (new ∷ []) s.theses)
            (contains→All id_of new s.theses fresh, l.keys));
      known =
          rw (theses, history)
            (All-weaken (KnownIn ids) (KnownIn (map id_of (s.theses ++ new ∷ []))) s.status_history
              (λ c. contains-append_left new c.thesis_id s.theses) l.known);
      runs =
          rw (theses, history)
            (All-append (IsRun s.status_history) s.theses (new ∷ []) l.runs
              ((new.status, rw (changes_of-fresh new ids s.status_history fresh l.known)), tt));
    }

contains-Memᴰ :
    (a : InvestmentThesis) (xs : List InvestmentThesis)
    → Memᴰ a xs
    → contains a.id (map id_of xs) ≡ true
unfolding contains
contains-Memᴰ a [] m = elim m [ ]
contains-Memᴰ a (x ∷ xs) (Memᴰ.head e) = let same : a.id ≡ x.id = ap id_of e in ground arith
contains-Memᴰ a (x ∷ xs) (Memᴰ.tail m) = ground (arith, contains-Memᴰ a xs m)

pub hit_by-ids :
    (u : ThesisUpdate) (t : InvestmentThesis)
    → hit_by u t ≡ true
    → (t.id ≡ u.thesis_id) × (t.user_id ≡ u.user_id)
unfolding hit_by owns_thesis
hit_by-ids u t h = ground arith

-- A change that the code makes is a transition that it allows.
pub check_transition-allowed :
    (u : ThesisUpdate) (row : InvestmentThesis)
    → check_transition u row ≡ ok tt
    → changes_status u row ≡ true
    → has_status (or_else u.status row.status) (allowed row.status) ≡ true
unfolding check_transition validate_status_transition
check_transition-allowed u row h k = ground arith

pub changes_status-kept :
    (u : ThesisUpdate) (row : InvestmentThesis)
    → changes_status u row ≡ false
    → or_else u.status row.status ≡ row.status
unfolding changes_status
changes_status-kept u row h = ground arith

changes_of-own :
    (t : InvestmentThesis) (c : ThesisStatusChange) (cs : List ThesisStatusChange)
    → c.thesis_id ≡ t.id
    → c.user_id ≡ t.user_id
    → changes_of t (cs ++ c ∷ []) ≡ changes_of t cs ++ c ∷ []
changes_of-own t c cs h k =
    let here : changes_of t (c ∷ []) ≡ c ∷ [] = ground arith in
    changes_of-append t cs (c ∷ []) ∙ ap (λ z. changes_of t cs ++ z) here

module _ (u : ThesisUpdate) (instant : DateTime) (history : List ThesisStatusChange)
    (row : InvestmentThesis) (legal : check_transition u row ≡ ok tt)
    (hit : hit_by u row ≡ true) where
  updated-IsRun :
      (rows : List ThesisStatusChange)
      → Logged u row rows
      → IsRun history row
      → IsRun (history ++ rows) (updated_row u instant row)
  unfolding updated_row
  updated-IsRun _ (kept e) (first, run) =
      (first, rw (append-nil history) (run ∙ ap some (sym (changes_status-kept u row e))))
  updated-IsRun _ (changed e c o) (first, run) =
      let (id, user) = hit_by-ids u row hit in
      (
        first,
        ap (replay first)
              (changes_of-own row c history (o.thesis_id ∙ sym id) (o.user_id ∙ sym user))
            ∙ replay-snoc first row.status (changes_of row history) c run o.from_status (
                subst (λ z. has_status z (allowed row.status) ≡ true) (sym o.to_status)
                  (check_transition-allowed u row legal e))
            ∙ ap some o.to_status,
      )

  other-IsRun :
      (t : InvestmentThesis) (rows : List ThesisStatusChange)
      → t.id ≢ row.id
      → Logged u row rows
      → IsRun history t
      → IsRun (history ++ rows) t
  other-IsRun t _ apart (kept e) run = rw (append-nil history) run
  other-IsRun t _ apart (changed e c o) (first, run) =
      let (id, user) = hit_by-ids u row hit in
      let other : changes_of t (c ∷ []) ≡ [] = elim (Bool-cases (c.thesis_id == t.id)) [
        | inl same ↦ absurd (apart (ground (arith, id, o.thesis_id)))
        | inr foreign ↦ ground arith
      ] in
      (
        first,
        ap (replay first) (
              changes_of-append t history (c ∷ [])
              ∙ ap (λ z. changes_of t history ++ z) other
              ∙ append-nil (changes_of t history))
            ∙ run,
      )

module _ (u : ThesisUpdate) (s s' : Session) (t : InvestmentThesis) (done : Updates u s s' t)
    (l : IsLedger s) where
  pub row_hit : Memᴰ done.row s.theses × (hit_by u done.row ≡ true)
  row_hit = find?-Memᴰ (hit_by u) s.theses done.row done.found

  -- The update hits one row.
  pub hit-row : (a : InvestmentThesis) → Memᴰ a s.theses → hit_by u a ≡ true → a ≡ done.row
  hit-row a m h =
      let (id, _) = hit_by-ids u a h in
      let (row_id, _) = hit_by-ids u done.row row_hit.1 in
      Distinct-injective id_of l.keys m row_hit.0 (id ∙ sym row_id)

  pub missed-Apart :
      (a : InvestmentThesis) → Memᴰ a s.theses → hit_by u a ≡ false → a.id ≢ done.row.id
  missed-Apart a m h e =
      let same : a ≡ done.row = Distinct-injective id_of l.keys m row_hit.0 e in
      absurd (ground (arith, h, row_hit.1, ap (hit_by u) same))

  ids_kept :
      map id_of (update_rows (hit_by u) (updated_row u done.instant) s.theses) ≡ map id_of s.theses
  unfolding updated_row
  ids_kept = update_rows-ids (hit_by u) (updated_row u done.instant) (λ t. refl) s.theses

  rows-known :
      (rows : List ThesisStatusChange)
      → Logged u done.row rows
      → All (KnownIn (map id_of s.theses)) rows
  rows-known _ (kept e) = tt
  rows-known _ (changed e c o) =
      let (id, _) = hit_by-ids u done.row row_hit.1 in
      (
        subst (λ n. contains n (map id_of s.theses) ≡ true) (id ∙ sym o.thesis_id)
            (contains-Memᴰ done.row s.theses row_hit.0),
        tt,
      )

  pub IsLedger-Updates : IsLedger s'
  IsLedger-Updates =
      let after = update_rows (hit_by u) (updated_row u done.instant) s.theses in
      let history = s.status_history ++ done.rows in
      record {
        keys = subst (Distinct id_of) (sym done.theses) (
            (all_distinct_iff id_of after).0
              (rw ids_kept ((all_distinct_iff id_of s.theses).1 l.keys)));
        known =
            rw (done.theses, done.history, ids_kept)
              (All-append (KnownIn (map id_of s.theses)) s.status_history done.rows l.known
                (rows-known done.rows done.logged));
        runs =
            rw (done.theses, done.history)
              (All-update_rows (IsRun s.status_history) (IsRun history) (hit_by u)
                (updated_row u done.instant) s.theses
                (λ a m run h.
                  subst (λ z. IsRun history (updated_row u done.instant z)) (sym (hit-row a m h))
                    (updated-IsRun u done.instant s.status_history done.row done.allowed_change
                      row_hit.1 done.rows done.logged
                      (subst (IsRun s.status_history) (hit-row a m h) run)))
                (λ a m run h.
                  other-IsRun u done.instant s.status_history done.row done.allowed_change row_hit.1
                    a done.rows (missed-Apart a m h) done.logged run)
                l.runs);
      }
