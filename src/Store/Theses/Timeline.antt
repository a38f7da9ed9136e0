-- ===== src/Store/Theses/Timeline.antt =====
-- The theses of app/database/thesis_repositories.py over a sequence of operations. An operation that
-- raises is rolled back with its transaction, so it makes no step.
use mathlib.Core.List.{Memᴰ}
use stock_master.Prelude.{
  ℕ, ◌≤◌, ◌≡◌, refl, sym, ap, ◌∙◌, subst, List, [], ◌∷◌, ◌++◌, Bool, true, false, ok, All,
  All-of_Memᴰ, Bool-cases, ◌⊎◌, inl, inr, arith,
}
use stock_master.Thesis.{
  ThesisStatus, active, challenged, invalidated, archived, InvestmentThesis, DateTime,
}
use stock_master.Store.{Session, World}
use stock_master.Store.Theses.{
  create_thesis, ThesisUpdate, hit_by, updated_row, update_rows, update_thesis, changes_status,
  check_transition, has_status, allowed, or_else,
}
use stock_master.Store.Theses.Lifecycle.{update_thesis-Updates}
use stock_master.Store.Theses.Replay.{IsLedger}
use stock_master.Store.Theses.Ledger.{
  create_thesis-ok, IsLedger-create, check_transition-allowed, changes_status-kept, hit-row,
  IsLedger-Updates,
}

-- A session with empty tables.
abbrev pub empty_session : World → ℕ → ℕ → Session
empty_session world uuids instants = record {
  world = world;
  uuids_drawn = uuids;
  instants_drawn = instants;
  theses = [];
  status_history = [];
  conditions = [];
  condition_versions = [];
  evaluations = [];
  events = [];
  evidence = [];
  feedback = [];
  daily_bars = [];
  fundamentals = [];
}

-- One operation that returns.
pub data Step (s s' : Session) : Type 0 where
  create : (new t : InvestmentThesis) → create_thesis new s ≡ (ok t, s') → Step s s'
  update : (u : ThesisUpdate) (t : InvestmentThesis) → update_thesis u s ≡ (ok t, s') → Step s s'

-- A sequence of operations, the last one outermost.
pub data Steps (s : Session) : Session → Type 0 where
  stay : Steps s s
  then : {s' s'' : Session} → Steps s s' → Step s' s'' → Steps s s''

Step-IsLedger : {s s' : Session} → Step s s' → IsLedger s → IsLedger s'
Step-IsLedger {s} {s'} (create new t h) l = IsLedger-create new t s s' h l
Step-IsLedger {s} {s'} (update u t h) l =
    IsLedger-Updates u s s' t (update_thesis-Updates u s s' t h) l

Steps-IsLedger : {s s' : Session} → Steps s s' → IsLedger s → IsLedger s'
Steps-IsLedger stay l = l
Steps-IsLedger (then before step) l = Step-IsLedger step (Steps-IsLedger before l)

-- After any sequence of creations and updates from empty tables: no two theses have one identifier,
-- every row of the history is of a thesis that exists, and the history of each thesis, read in the
-- order of insertion, is a run of allowed transitions in which each starts at the status where the
-- one before it ended, and which ends in the status that the row of the thesis has.
pub history_replays_to_status :
    (world : World) (uuids instants : ℕ) (s : Session)
    → Steps (empty_session world uuids instants) s
    → IsLedger s
history_replays_to_status world uuids instants s steps =
    Steps-IsLedger steps (record { keys = tt; known = tt; runs = tt })

-- How final a status is: nothing leads from `archived`, and only `archived` follows `invalidated`.
abbrev pub stage : ThesisStatus → ℕ
stage active = 0
stage challenged = 0
stage invalidated = 1
stage archived = 2

-- A row and the same row later.
pub record Advances (a b : InvestmentThesis) : Type 0 where
  pub id : a.id ≡ b.id
  pub user_id : a.user_id ≡ b.user_id
  pub symbol : a.symbol ≡ b.symbol
  pub created_at : a.created_at ≡ b.created_at
  pub version : a.version ≤ b.version
  pub stage : stage a.status ≤ stage b.status

allowed-stage : (a b : ThesisStatus) → has_status b (allowed a) ≡ true → stage a ≤ stage b
unfolding has_status allowed
allowed-stage a b h = ground arith

check_transition-stage :
    (u : ThesisUpdate) (row : InvestmentThesis)
    → check_transition u row ≡ ok tt
    → stage row.status ≤ stage (or_else u.status row.status)
check_transition-stage u row h = elim (Bool-cases (changes_status u row)) [
  | inl e ↦
      allowed-stage row.status (or_else u.status row.status) (check_transition-allowed u row h e)
  | inr e ↦ omega (arith, ap stage (changes_status-kept u row e))
]

-- A row of one session has a later version in the other.
abbrev AdvancesIn : List InvestmentThesis → InvestmentThesis → Type 0
AdvancesIn later a = (b : InvestmentThesis) × Memᴰ b later × Advances a b

Advances-refl : (a : InvestmentThesis) → Advances a a
Advances-refl a = record {
  id = refl;
  user_id = refl;
  symbol = refl;
  created_at = refl;
  version = omega arith;
  stage = omega arith;
}

Advances-trans : {a b c : InvestmentThesis} → Advances a b → Advances b c → Advances a c
Advances-trans p q = record {
  id = p.id ∙ q.id;
  user_id = p.user_id ∙ q.user_id;
  symbol = p.symbol ∙ q.symbol;
  created_at = p.created_at ∙ q.created_at;
  version = omega (arith, p.version, q.version);
  stage = omega (arith, p.stage, q.stage);
}

hit_by-version :
    (u : ThesisUpdate) (t : InvestmentThesis) → hit_by u t ≡ true → t.version ≡ u.expected_version
unfolding hit_by
hit_by-version u t h = ground arith

updated_row-Advances :
    (u : ThesisUpdate) (instant : DateTime) (row : InvestmentThesis)
    → hit_by u row ≡ true
    → check_transition u row ≡ ok tt
    → Advances row (updated_row u instant row)
unfolding updated_row
updated_row-Advances u instant row hit legal = record {
  id = refl;
  user_id = refl;
  symbol = refl;
  created_at = refl;
  version = omega (arith, hit_by-version u row hit);
  stage = check_transition-stage u row legal;
}

module _ (hit : InvestmentThesis → Bool) (change : InvestmentThesis → InvestmentThesis) where
  Memᴰ-update_rows :
      (xs : List InvestmentThesis) (a : InvestmentThesis)
      → Memᴰ a xs
      → ((hit a ≡ true) × Memᴰ (change a) (update_rows hit change xs))
        ⊎ ((hit a ≡ false) × Memᴰ a (update_rows hit change xs))
  unfolding update_rows
  Memᴰ-update_rows [] a m = elim m [ ]
  Memᴰ-update_rows (x ∷ xs) a (Memᴰ.tail m) = elim (Memᴰ-update_rows xs a m) [
    | inl (h, n) ↦ inl (h, Memᴰ.tail n)
    | inr (h, n) ↦ inr (h, Memᴰ.tail n)
  ]
  Memᴰ-update_rows (x ∷ xs) a (Memᴰ.head e) = elim (Bool-cases (hit a)) [
    | inl h ↦
        let there : hit x ≡ true = sym (ap hit e) ∙ h in inl (h, Memᴰ.head (rw there (ap change e)))
    | inr h ↦ let there : hit x ≡ false = sym (ap hit e) ∙ h in inr (h, Memᴰ.head (rw there e))
  ]

Memᴰ-append_left : {A : Type 0} {a : A} {xs : List A} (ys : List A) → Memᴰ a xs → Memᴰ a (xs ++ ys)
Memᴰ-append_left ys (Memᴰ.head e) = Memᴰ.head e
Memᴰ-append_left ys (Memᴰ.tail m) = Memᴰ.tail (Memᴰ-append_left ys m)

Step-AdvancesIn :
    {s s' : Session}
    → Step s s'
    → IsLedger s
    → (a : InvestmentThesis) → Memᴰ a s.theses
    → AdvancesIn s'.theses a
Step-AdvancesIn {s} {s'} (create new t h) l a m =
    let (_, theses, _) = create_thesis-ok new t s s' h in
    (a, subst (λ z. Memᴰ a z) (sym theses) (Memᴰ-append_left (new ∷ []) m), Advances-refl a)
Step-AdvancesIn {s} {s'} (update u t h) l a m =
    let done = update_thesis-Updates u s s' t h in
    let into =
      λ (b : InvestmentThesis)
          (n : Memᴰ b (update_rows (hit_by u) (updated_row u done.instant) s.theses)).
        subst (λ z. Memᴰ b z) (sym done.theses) n in
    elim (Memᴰ-update_rows (hit_by u) (updated_row u done.instant) s.theses a m) [
      | inr (_, n) ↦ (a, into a n, Advances-refl a)
      | inl (hit, n) ↦
          let legal =
            subst (λ z. check_transition u z ≡ ok tt) (sym (hit-row u s s' t done l a m hit))
              done.allowed_change in
          (updated_row u done.instant a, into _ n, updated_row-Advances u done.instant a hit legal)
    ]

Steps-AdvancesIn :
    {s s' : Session}
    → Steps s s'
    → IsLedger s
    → (a : InvestmentThesis) → Memᴰ a s.theses
    → AdvancesIn s'.theses a
Steps-AdvancesIn stay l a m = (a, m, Advances-refl a)
Steps-AdvancesIn (then before step) l a m =
    let (b, n, p) = Steps-AdvancesIn before l a m in
    let (c, k, q) = Step-AdvancesIn step (Steps-IsLedger before l) b n in (c, k, Advances-trans p q)

-- From any session whose history agrees with its rows, after any sequence of creations and updates:
-- every thesis is still there with its owner, its symbol and its creation time, its version has not
-- decreased, an archived thesis is still archived, and an invalidated one is invalidated or archived.
pub theses_only_advance :
    (s s' : Session)
    → Steps s s'
    → IsLedger s
    → All (λ a. (b : InvestmentThesis) × Memᴰ b s'.theses × Advances a b) s.theses
theses_only_advance s s' steps l =
    All-of_Memᴰ (AdvancesIn s'.theses) s.theses (Steps-AdvancesIn steps l)
