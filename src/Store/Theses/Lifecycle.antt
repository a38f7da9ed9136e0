-- ===== src/Store/Theses/Lifecycle.antt =====
-- What `update_thesis` of app/database/thesis_repositories.py does when it returns.
use stock_master.Prelude.{
  ℕ, ◌+◌, ◌≡◌, refl, ap, subst, ◌∙◌, sym, List, [], ◌∷◌, ◌++◌, Bool, true, false, ◌&&◌, not, ◌==◌,
  leb, some, ok, find?, or_raise, arith, repository_conflict, integrity_error, data_error,
  append-nil, Bool-cases, inl, inr, Text,
}
use stock_master.Prelude.Exec.{Exec, bind-eq-ok, ◌>>=◌, ◌>>◌, gets, lift, raise_when, modify}
use stock_master.Thesis.{DateTime, InvestmentThesis, ThesisStatusChange, make_thesis}
use stock_master.Store.{Session, uuid4, now}
use stock_master.Store.Theses.{
  owns_thesis, read_thesis, log_change, event_exists, get_thesis, require_thesis, ThesisUpdate,
  updated_row, hit_by, update_rows, changes_status, check_transition, record_change, update_thesis,
  or_else, too_long,
}

pub require_thesis-found :
    (user_id thesis_id : ℕ) (s : Session) (t : InvestmentThesis)
    → (require_thesis user_id thesis_id s).0 ≡ ok t
    → (row : InvestmentThesis) × (find? (owns_thesis user_id thesis_id) s.theses ≡ some row)
      × (t.version ≡ row.version)
      × (t.status ≡ row.status)
      × ((require_thesis user_id thesis_id s).1 ≡ s)
unfolding require_thesis get_thesis read_thesis make_thesis
require_thesis-found user_id thesis_id s t h = ground arith

-- A row of the history for an update of a thesis in some state.
pub record ChangeOf (u : ThesisUpdate) (current : InvestmentThesis) (c : ThesisStatusChange)
    : Type 0 where
  pub thesis_id : c.thesis_id ≡ u.thesis_id
  pub user_id : c.user_id ≡ u.user_id
  pub from_status : c.from_status ≡ current.status
  pub to_status : c.to_status ≡ or_else u.status current.status

abbrev change_row : ThesisUpdate → InvestmentThesis → DateTime → ℕ → Text → ThesisStatusChange
change_row u current instant id reason = record {
  id = id;
  thesis_id = u.thesis_id;
  user_id = u.user_id;
  from_status = current.status;
  to_status = or_else u.status current.status;
  reason = reason;
  triggering_event_id = u.triggering_event_id;
  changed_at = instant;
}

record_change-ok :
    (u : ThesisUpdate) (current : InvestmentThesis) (instant : DateTime) (s : Session)
    → (record_change u current instant s).0 ≡ ok tt
    → (c : ThesisStatusChange) × ChangeOf u current c
      × ((record_change u current instant s).1.theses ≡ s.theses)
      × ((record_change u current instant s).1.status_history ≡ s.status_history ++ c ∷ [])
unfolding record_change uuid4
record_change-ok u current instant s h =
    let (reason, given) : (reason : Text) × (u.reason ≡ some reason) = ground arith in
    let known : event_exists u.user_id u.triggering_event_id s.events ≡ true = ground arith in
    let short : too_long 500 (some reason) ≡ false = ground (arith, given) in
    (
      change_row u current instant (s.world.uuid s.uuids_drawn) reason,
      record { thesis_id = refl; user_id = refl; from_status = refl; to_status = refl },
      rw (given, short, known),
      rw (given, short, known),
    )

-- The rows that an update adds to the history: none, or one for a change of the status.
pub data Logged (u : ThesisUpdate) (current : InvestmentThesis)
    : List ThesisStatusChange → Type 0 where
  kept : changes_status u current ≡ false → Logged u current []
  changed :
      changes_status u current ≡ true
      → (c : ThesisStatusChange) → ChangeOf u current c
      → Logged u current (c ∷ [])

log_change-ok :
    (u : ThesisUpdate) (current : InvestmentThesis) (instant : DateTime) (s : Session)
    → (log_change u current instant s).0 ≡ ok tt
    → (rows : List ThesisStatusChange) × Logged u current rows
      × ((log_change u current instant s).1.theses ≡ s.theses)
      × ((log_change u current instant s).1.status_history ≡ s.status_history ++ rows)
unfolding log_change
log_change-ok u current instant s h = elim (Bool-cases (changes_status u current)) [
  | inr e ↦ ([], kept e, rw e, rw e (sym (append-nil s.status_history)))
  | inl e ↦
      let run : log_change u current instant s ≡ record_change u current instant s = rw e in
      let (c, of_change, theses, history) =
        record_change-ok u current instant s (sym (ap (λ p. p.0) run) ∙ h) in
      (
        c ∷ [],
        changed e c of_change,
        ap (λ p. p.1.theses) run ∙ theses,
        ap (λ p. p.1.status_history) run ∙ history,
      )
]

-- What a successful update did.
pub record Updates (u : ThesisUpdate) (s s' : Session) (t : InvestmentThesis) : Type 0 where
  pub row : InvestmentThesis
  pub instant : DateTime
  pub rows : List ThesisStatusChange
  pub found : find? (hit_by u) s.theses ≡ some row
  pub allowed_change : check_transition u row ≡ ok tt
  pub logged : Logged u row rows
  pub theses : s'.theses ≡ update_rows (hit_by u) (updated_row u instant) s.theses
  pub history : s'.status_history ≡ s.status_history ++ rows
  pub made : make_thesis (updated_row u instant row) ≡ ok t

find?-and :
    (p q : InvestmentThesis → Bool) (xs : List InvestmentThesis) (row : InvestmentThesis)
    → find? p xs ≡ some row
    → q row ≡ true
    → find? (λ x. p x && q x) xs ≡ some row
find?-and p q [] row h k = absurd (ground arith)
find?-and p q (x ∷ xs) row h k = ground (arith, find?-and p q xs row)

-- the steps of `update_thesis` behind `require_thesis`
abbrev write_update : ThesisUpdate → InvestmentThesis → Exec Session InvestmentThesis
write_update u current = do
  raise_when (not (current.version == u.expected_version)) repository_conflict
  lift (check_transition u current)
  instant ← now
  found ← gets (λ s. find? (hit_by u) s.theses)
  row ← lift (or_raise found repository_conflict)
  raise_when (too_long 200 u.title) data_error
  raise_when (not (leb row.created_at.instant instant.instant)) integrity_error
  modify (λ s. record s { theses = update_rows (hit_by u) (updated_row u instant) s.theses })
  log_change u current instant
  lift (make_thesis (updated_row u instant row))

module _ (u : ThesisUpdate) (a b : InvestmentThesis) (h : a.status ≡ b.status) where
  check_transition-status : check_transition u a ≡ check_transition u b
  unfolding check_transition changes_status
  check_transition-status = rw h

  changes_status-status : changes_status u a ≡ changes_status u b
  unfolding changes_status
  changes_status-status = rw h

  Logged-status : {rows : List ThesisStatusChange} → Logged u a rows → Logged u b rows
  Logged-status (kept e) = kept (sym changes_status-status ∙ e)
  Logged-status (changed e c o) = changed (sym changes_status-status ∙ e) c (record {
    thesis_id = o.thesis_id;
    user_id = o.user_id;
    from_status = o.from_status ∙ h;
    to_status = o.to_status ∙ rw h;
  })

hit_by-found :
    (u : ThesisUpdate) (theses : List InvestmentThesis) (row : InvestmentThesis)
    → find? (owns_thesis u.user_id u.thesis_id) theses ≡ some row
    → (row.version == u.expected_version) ≡ true
    → find? (hit_by u) theses ≡ some row
unfolding hit_by
hit_by-found u theses row h k =
    find?-and (owns_thesis u.user_id u.thesis_id) (λ r. r.version == u.expected_version) theses row
      h k

module _ (u : ThesisUpdate) (s s' : Session) (t : InvestmentThesis) where
  first_hit :
      (hit row : InvestmentThesis)
      → find? (owns_thesis u.user_id u.thesis_id) s.theses ≡ some row
      → (row.version == u.expected_version) ≡ true
      → or_raise (find? (hit_by u) s.theses) repository_conflict ≡ ok hit
      → hit ≡ row
  first_hit hit row found version h = ground (arith, h, hit_by-found u s.theses row found version)

  write_update-Updates :
      (current row : InvestmentThesis)
      → find? (owns_thesis u.user_id u.thesis_id) s.theses ≡ some row
      → current.version ≡ row.version
      → current.status ≡ row.status
      → write_update u current s ≡ (ok t, s')
      → Updates u s s' t
  unfolding now
  write_update-Updates current row found version status h =
      let (_, a1, k1) =
        bind-eq-ok (raise_when (not (current.version == u.expected_version)) repository_conflict) _
          s h in
      let (_, a2, k2) = bind-eq-ok (lift (check_transition u current)) _ s k1 in
      let instant = s.world.clock s.instants_drawn in
      let s1 = record s { instants_drawn = s.instants_drawn + 1 } in
      let (hit, a3, k3) =
        bind-eq-ok (lift (or_raise (find? (hit_by u) s.theses) repository_conflict)) _ s1 k2 in
      let (_, _, k4) = bind-eq-ok (raise_when (too_long 200 u.title) data_error) _ s1 k3 in
      let (_, _, k5) =
        bind-eq-ok (raise_when (not (leb hit.created_at.instant instant.instant)) integrity_error) _
          s1 k4 in
      let s2 = record s1 { theses = update_rows (hit_by u) (updated_row u instant) s.theses } in
      let (_, a5, k6) = bind-eq-ok (log_change u current instant) _ s2 k5 in
      let (rows, logged, theses, history) = log_change-ok u current instant s2 a5 in
      let row_version : (row.version == u.expected_version) ≡ true = ground (arith, a1, version) in
      let same : hit ≡ row = first_hit hit row found row_version a3 in
      let final = ap (λ p. p.1) k6 in
      record {
        row = row;
        instant = instant;
        rows = rows;
        found = hit_by-found u s.theses row found row_version;
        allowed_change = sym (check_transition-status u current row status) ∙ (ground (arith, a2));
        logged = Logged-status u current row status logged;
        theses = sym (ap (λ z. z.theses) final) ∙ theses;
        history = sym (ap (λ z. z.status_history) final) ∙ history;
        made = ap (λ r. make_thesis (updated_row u instant r)) (sym same) ∙ ap (λ p. p.0) k6;
      }

  -- An update that returns found a row of the user with the expected version and passed the test of its
  -- transition; it changed the rows that the clause of the UPDATE hits and no others, added to the history
  -- nothing when the status stays and otherwise one row from the old status to the new, and returns
  -- the model of the changed row.
  pub update_thesis-Updates : update_thesis u s ≡ (ok t, s') → Updates u s s' t
  unfolding update_thesis
  update_thesis-Updates h =
      let (current, h1, k1) = bind-eq-ok (require_thesis u.user_id u.thesis_id) _ s h in
      let (row, found, version, status, same) =
        require_thesis-found u.user_id u.thesis_id s current h1 in
      write_update-Updates current row found version status
        (subst (λ z. write_update u current z ≡ (ok t, s')) same k1)
