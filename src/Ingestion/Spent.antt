-- ===== src/Ingestion/Spent.antt =====
-- app/services/ingestion_runner.py: what failed attempts leave behind.
use stock_master.Prelude.{
  ℕ, zero, suc, ◌+◌, ◌≤◌, ◌≡◌, refl, ◌∙◌, Text, Option, some, Result, ok, err, Error, arith, ap,
  subst,
}
use stock_master.Prelude.Exec.{bind-eq-ok}
use stock_master.Store.{Session}
use stock_master.Ingestion.Refresh.{IngestionResult, refresh_symbol}
use stock_master.Ingestion.Outcomes.{SymbolIngestionOutcome, IngestionRunItem}
use stock_master.Ingestion.Items.{RunState, drew_item, insert_item, save_item}
use stock_master.Ingestion.{
  Settings, commit, rolled_back, settle, attempt, Attempted, refreshed, exhausted, retry,
  report_failure,
}

-- The tables of market data are as they were, and at most so many attempts were made.
pub record IsUntouched (attempts : ℕ) (s z : RunState) : Type 0 where
  pub bars : z.session.daily_bars ≡ s.session.daily_bars
  pub snapshots : z.session.fundamentals ≡ s.session.fundamentals
  pub calls : z.attempts ≤ s.attempts + attempts

-- What the attempts for a symbol leave, when none succeeded.
unfoldable pub Spent : ℕ → RunState → Attempted × RunState → Type 0
Spent n s (refreshed result, z) = Unit
Spent n s (exhausted last, z) =
    IsUntouched n s z × (z.consecutive_failures ≡ s.consecutive_failures)

-- What saving an item leaves as it was.
pub record IsAside (s z : RunState) : Type 0 where
  pub bars : z.session.daily_bars ≡ s.session.daily_bars
  pub snapshots : z.session.fundamentals ≡ s.session.fundamentals
  pub calls : z.attempts ≡ s.attempts
  pub failures : z.consecutive_failures ≡ s.consecutive_failures

insert_item-IsAside :
    (row : IngestionRunItem) (r : Result (Unit {0})) (s : RunState)
    → IsAside s (insert_item row r (drew_item s)).1
unfolding insert_item drew_item
insert_item-IsAside row (err e) s = record {
  bars = refl;
  snapshots = refl;
  calls = refl;
  failures = refl;
}
insert_item-IsAside row (ok u) s = record {
  bars = refl;
  snapshots = refl;
  calls = refl;
  failures = refl;
}

pub report_failure-IsAside :
    (run_id : ℕ) (o o' : SymbolIngestionOutcome) (s z : RunState)
    → report_failure run_id o s ≡ (ok o', z)
    → (o' ≡ o) × IsAside s z
unfolding report_failure save_item
report_failure-IsAside run_id o o' s z h =
    let (_, _, left) = bind-eq-ok (save_item run_id o) _ s h in
    (ground (arith, left), subst (IsAside s) (ap (λ p. p.1) left) (insert_item-IsAside _ _ s))

commit-failed :
    (s : RunState) (result : IngestionResult) (e : Error) (p : Result (Unit {0}) × RunState)
    → (commit s result p).0 ≡ err e
    → IsUntouched 1 s (commit s result p).1
      × ((commit s result p).1.consecutive_failures ≡ s.consecutive_failures)
unfolding commit rolled_back
commit-failed s result e (err x, z) h =
    (record { bars = refl; snapshots = refl; calls = omega arith }, refl)
commit-failed s result e (ok u, z) h = absurd (ground (arith, h))

settle-failed :
    (run_id : ℕ) (symbol : Text) (s : RunState) (e : Error) (p : Result IngestionResult × Session)
    → (settle run_id symbol s p).0 ≡ err e
    → IsUntouched 1 s (settle run_id symbol s p).1
      × ((settle run_id symbol s p).1.consecutive_failures ≡ s.consecutive_failures)
unfolding settle rolled_back
settle-failed run_id symbol s e (err x, after) h =
    (record { bars = refl; snapshots = refl; calls = omega arith }, refl)
settle-failed run_id symbol s e (ok r, after) h = commit-failed s r e _ h

pub IsUntouched-trans :
    (m n : ℕ) (s z w : RunState) → IsUntouched m s z → IsUntouched n z w → IsUntouched (m + n) s w
IsUntouched-trans m n s z w a b = record {
  bars = b.bars ∙ a.bars;
  snapshots = b.snapshots ∙ a.snapshots;
  calls = omega (arith, a.calls, b.calls);
}

Spent-after :
    (n : ℕ) (s z : RunState) (p : Attempted × RunState)
    → IsUntouched 1 s z × (z.consecutive_failures ≡ s.consecutive_failures)
    → Spent n z p
    → Spent (suc n) s p
unfolding Spent
Spent-after n s z (refreshed result, w) a h = tt
Spent-after n s z (exhausted last, w) (a, same) (h, more) =
    let both = IsUntouched-trans 1 n s z w a h in
    (
      record { bars = both.bars; snapshots = both.snapshots; calls = omega (arith, both.calls) },
      more ∙ same,
    )

module _ (st : Settings) (run_id : ℕ) (symbol : Text) where
  retry_step :
      (n : ℕ) (s : RunState) (tried : Result IngestionResult × RunState) (last : Option Error)
      → ((e : Error)
          → tried.0 ≡ err e
          → IsUntouched 1 s tried.1 × (tried.1.consecutive_failures ≡ s.consecutive_failures))
      → ((e : Error) → Spent n tried.1 (retry st run_id symbol n (some e) tried.1))
      → Spent (suc n) s (elim tried.0 as (λ x. Attempted × RunState) [
        | ok result ↦ (refreshed result, tried.1)
        | err e ↦ retry st run_id symbol n (some e) tried.1
      ])
  unfolding Spent
  retry_step n s (ok result, z) last failed rest = tt
  retry_step n s (err e, z) last failed rest = Spent-after n s z _ (failed e refl) (rest e)

  pub retry-Spent :
      (n : ℕ) (last : Option Error) (s : RunState) → Spent n s (retry st run_id symbol n last s)
  unfolding retry Spent attempt
  retry-Spent zero last s = (record { bars = refl; snapshots = refl; calls = omega arith }, refl)
  retry-Spent (suc n) last s =
      let refresh = refresh_symbol (st.answers s.attempts symbol) symbol s.session in
      retry_step n s (attempt st run_id symbol s) last
        (λ e h. settle-failed run_id symbol s e refresh h)
        (λ e. retry-Spent n (some e) (attempt st run_id symbol s).1)
