-- ===== src/Store/Theses/Replay.antt =====
-- The status history that app/database/thesis_repositories.py keeps of each thesis, read as a run of
-- its state machine.
use mathlib.Core.List.{Memᴰ}
use stock_master.Prelude.{
  ℕ, ◌≡◌, refl, sym, ap, ◌∙◌, subst, List, [], ◌∷◌, ◌++◌, map, Bool, true, false, ◌&&◌, ◌==◌,
  Option, none, some, find?, keep, All, Bool-cases, inl, inr, arith,
}
use stock_master.Prelude.Order.Distinct.{Distinct}
use stock_master.Thesis.{ThesisStatus, InvestmentThesis, ThesisStatusChange, same_status}
use stock_master.Thesis.Laws.{same_status_refl}
use stock_master.Metric.{contains}
use stock_master.Store.{Session}
use stock_master.Store.Theses.{allowed, has_status, update_rows}

-- The status that a list of changes leads to, when each starts where the one before it ended and is
-- a transition that the code allows.
unfoldable pub replay : ThesisStatus → List ThesisStatusChange → Option ThesisStatus
replay a [] = some a
replay a (c ∷ cs) = elim (same_status c.from_status a && has_status c.to_status (allowed a)) [
  | true ↦ replay c.to_status cs
  | false ↦ none
]

pub replay-snoc :
    (a b : ThesisStatus) (cs : List ThesisStatusChange) (c : ThesisStatusChange)
    → replay a cs ≡ some b
    → c.from_status ≡ b
    → has_status c.to_status (allowed b) ≡ true
    → replay a (cs ++ c ∷ []) ≡ some c.to_status
unfolding replay
replay-snoc a b [] c h from step =
    let e : a ≡ b = ground arith in
    let same : same_status c.from_status a ≡ true =
      subst (λ z. same_status z a ≡ true) (e ∙ sym from) (same_status_refl a) in
    let legal : has_status c.to_status (allowed a) ≡ true =
      subst (λ z. has_status c.to_status (allowed z) ≡ true) (sym e) step in
    ground (arith, same, legal)
replay-snoc a b (x ∷ cs) c h from step = ground (arith, replay-snoc x.to_status b cs c)

-- The changes of one thesis.
abbrev pub changes_of : InvestmentThesis → List ThesisStatusChange → List ThesisStatusChange
changes_of t = keep (λ c. (c.thesis_id == t.id) && (c.user_id == t.user_id))

-- The history of each thesis is a run of allowed transitions that ends in the status of its row.
pub record IsLedger (s : Session) : Type 0 where
  pub keys : Distinct (λ (t : InvestmentThesis). t.id) s.theses
  pub known :
      All
        (λ (c : ThesisStatusChange).
          contains c.thesis_id (map (λ (t : InvestmentThesis). t.id) s.theses) ≡ true)
        s.status_history
  pub runs :
      All
        (λ (t : InvestmentThesis).
          (first : ThesisStatus) × (replay first (changes_of t s.status_history) ≡ some t.status))
        s.theses

module _ (t : InvestmentThesis) where
  pub changes_of-append :
      (xs ys : List ThesisStatusChange)
      → changes_of t (xs ++ ys) ≡ changes_of t xs ++ changes_of t ys
  changes_of-append [] ys = refl
  changes_of-append (x ∷ xs) ys = ground (arith, changes_of-append xs ys)

  -- A thesis whose identifier is new has no history.
  pub changes_of-fresh :
      (theses : List ℕ) (cs : List ThesisStatusChange)
      → contains t.id theses ≡ false
      → All (λ (c : ThesisStatusChange). contains c.thesis_id theses ≡ true) cs
      → changes_of t cs ≡ []
  changes_of-fresh theses [] h k = refl
  changes_of-fresh theses (c ∷ cs) h k =
      let other : (c.thesis_id == t.id) ≡ false = elim (Bool-cases (c.thesis_id == t.id)) [
        | inr e ↦ e
        | inl e ↦
            let same : c.thesis_id ≡ t.id = ground arith in
            absurd (ground (arith, h, k.0, ap (λ z. contains z theses) same))
      ] in
      ground (arith, other, changes_of-fresh theses cs h k.1)

  pub contains-append_left :
      (x : ℕ) (xs : List InvestmentThesis)
      → contains x (map (λ (a : InvestmentThesis). a.id) xs) ≡ true
      → contains x (map (λ (a : InvestmentThesis). a.id) (xs ++ t ∷ [])) ≡ true
  unfolding contains
  contains-append_left x [] h = absurd (ground arith)
  contains-append_left x (a ∷ xs) h = ground (arith, contains-append_left x xs)

  pub absent-contains :
      (xs : List InvestmentThesis)
      → find? (λ (a : InvestmentThesis). a.id == t.id) xs ≡ none
      → contains t.id (map (λ (a : InvestmentThesis). a.id) xs) ≡ false
  unfolding contains
  absent-contains [] h = refl
  absent-contains (a ∷ xs) h = ground (arith, absent-contains xs)

module _ (hit : InvestmentThesis → Bool) (change : InvestmentThesis → InvestmentThesis)
    (same_id : (t : InvestmentThesis) → (change t).id ≡ t.id) where
  pub update_rows-ids :
      (xs : List InvestmentThesis)
      → map (λ (t : InvestmentThesis). t.id) (update_rows hit change xs)
        ≡ map (λ (t : InvestmentThesis). t.id) xs
  unfolding update_rows
  update_rows-ids [] = refl
  update_rows-ids (x ∷ xs) = ground (arith, same_id x, update_rows-ids xs)

pub All-update_rows :
    {A : Type 0} (P Q : A → Type 0) (hit : A → Bool) (change : A → A)
    → (xs : List A) → ((t : A) → Memᴰ t xs → P t → hit t ≡ true → Q (change t))
    → ((t : A) → Memᴰ t xs → P t → hit t ≡ false → Q t)
    → All P xs
    → All Q (update_rows hit change xs)
unfolding update_rows
All-update_rows P Q hit change [] on_hit on_miss h = tt
All-update_rows P Q hit change (x ∷ xs) on_hit on_miss h = (
  elim (Bool-cases (hit x)) [
    | inl e ↦ rw e (on_hit x (Memᴰ.head refl) h.0 e)
    | inr e ↦ rw e (on_miss x (Memᴰ.head refl) h.0 e)
  ],
  All-update_rows P Q hit change xs (λ t m. on_hit t (Memᴰ.tail m)) (λ t m. on_miss t (Memᴰ.tail m))
      h.1,
)
