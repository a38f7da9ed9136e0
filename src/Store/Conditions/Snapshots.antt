-- ===== src/Store/Conditions/Snapshots.antt =====
-- app/database/thesis_repositories.py: the snapshots of the versions of conditions, and what
-- the columns store.
use mathlib.Core.List.{Memᴰ}
use mathlib.Core.List.Memᴰ
use stock_master.Prelude.{
  ℕ, ◌+◌, ◌≡◌, refl, sym, ap, ◌∙◌, subst, List, [], ◌∷◌, ◌++◌, true, Option, none, some, ok,
  or_raise, integrity_error, data_error, find?, Option-cases, inl, inr, All, All-weaken,
  Memᴰ-append_right, >>=-eq-ok, arith,
}
use stock_master.Prelude.Exec.{bind-eq-ok, lift, raise_when}
use stock_master.Decimal.{Decimal}
use stock_master.Text.{strip}
use stock_master.Thesis.{DateTime, ThesisCondition, make_condition, condition_fits, strip_optional}
use stock_master.Event.{is_some}
use stock_master.Store.{Session, World, ThesisConditionVersion, uuid4}
use stock_master.Store.Conditions.Rows.{
  condition_version_row, stored_condition, ConditionChanges, stored_change, column,
  changed_condition,
}
use stock_master.Store.Conditions.Writes.{same_version, add_version}

-- The versions have a snapshot of the condition as it is read.
pub record IsSnapshotted (versions : List ThesisConditionVersion) (c : ThesisCondition)
    : Type 0 where
  pub clean : ThesisCondition
  pub read : make_condition c ≡ ok clean
  pub id : ℕ
  pub member : Memᴰ (condition_version_row id clean) versions

-- Every condition has a snapshot of its current version, and a threshold that its column holds.
abbrev pub IsVersioned : Session → Type 0
IsVersioned s =
    All
      (λ c. IsSnapshotted s.condition_versions c × (s.world.numeric c.threshold ≡ some c.threshold))
      s.conditions

pub add_version-ok :
    (c : ThesisCondition) (s s' : Session) (t : Decimal)
    → s.world.numeric c.threshold ≡ some t
    → add_version c s ≡ (ok tt, s')
    → (id : ℕ) × (s'.condition_versions
        ≡ s.condition_versions ++ condition_version_row id (record c { threshold = t }) ∷ [])
      × (s'.conditions ≡ s.conditions)
      × (s'.world ≡ s.world)
unfolding add_version uuid4
add_version-ok c s s' t fits h =
    let id = s.world.uuid s.uuids_drawn in
    let s1 = record s { uuids_drawn = s.uuids_drawn + 1 } in
    let (threshold, got, k1) =
      bind-eq-ok (lift (or_raise (s.world.numeric c.threshold) data_error)) _ s1 h in
    let same : threshold ≡ t = ground (arith, got, fits) in
    let row = condition_version_row id (record c { threshold = threshold }) in
    let taken = is_some (find? (same_version row) s.condition_versions) in
    let (_, _, k2) = bind-eq-ok (raise_when taken integrity_error) _ s1 k1 in
    (
      id,
      sym (ap (λ p. p.1.condition_versions) k2)
          ∙ ap
              (λ x.
                s.condition_versions ++ condition_version_row id (record c { threshold = x }) ∷ [])
              same,
      sym (ap (λ p. p.1.conditions) k2),
      sym (ap (λ p. p.1.world) k2),
    )

condition_fits-threshold :
    (c : ThesisCondition) (t : Decimal)
    → condition_fits (record c { threshold = t }) ≡ condition_fits c
unfolding condition_fits
condition_fits-threshold c t = refl

pub make_condition-threshold :
    (c : ThesisCondition) (t : Decimal)
    → make_condition c ≡ ok c
    → make_condition (record c { threshold = t }) ≡ ok (record c { threshold = t })
unfolding make_condition
make_condition-threshold c t h =
    let clean = record c { name = strip c.name; description = strip_optional c.description } in
    let fits : condition_fits clean ≡ true = ground (arith, h) in
    let same : clean ≡ c = ground (arith, h, fits) in
    let moved = condition_fits-threshold clean t ∙ fits in
    rw moved (ap (λ (x : ThesisCondition). ok (record x { threshold = t })) same)

pub stored_condition-ok :
    (world : World) (c row : ThesisCondition)
    → stored_condition world c ≡ ok row
    → (world.numeric c.threshold ≡ some row.threshold)
      × (row ≡ record c { threshold = row.threshold })
unfolding stored_condition
stored_condition-ok world c row h = ground arith

IsSnapshotted-later :
    (versions : List ThesisConditionVersion) (v : ThesisConditionVersion) (c : ThesisCondition)
    → IsSnapshotted versions c
    → IsSnapshotted (versions ++ v ∷ []) c
IsSnapshotted-later versions v c i = record {
  clean = i.clean;
  read = i.read;
  id = i.id;
  member = Memᴰ.append_left (v ∷ []) i.member;
}

-- A condition of the last snapshot.
pub IsSnapshotted-last :
    (versions : List ThesisConditionVersion) (id : ℕ) (c clean : ThesisCondition)
    → make_condition c ≡ ok clean
    → IsSnapshotted (versions ++ condition_version_row id clean ∷ []) c
IsSnapshotted-last versions id c clean read = record {
  clean = clean;
  read = read;
  id = id;
  member = Memᴰ-append_right versions (Memᴰ.head refl);
}

-- What holds of each condition, with the rows of a table and a world.
unfoldable pub Kept : World → List ThesisConditionVersion → ThesisCondition → Type 0
Kept world versions c = IsSnapshotted versions c × (world.numeric c.threshold ≡ some c.threshold)

pub Kept-later :
    (world : World) (versions : List ThesisConditionVersion) (v : ThesisConditionVersion)
    (cs : List ThesisCondition)
    → All (Kept world versions) cs
    → All (Kept world (versions ++ v ∷ [])) cs
unfolding Kept
Kept-later world versions v cs h =
    All-weaken (Kept world versions) (Kept world (versions ++ v ∷ [])) cs
      (λ c k. (IsSnapshotted-later versions v c k.0, k.1)) h

-- What a column of type NUMERIC does with a number that it has stored: it stores it as it is.
abbrev pub IsStable : World → Type 0
IsStable world = (d e : Decimal) → world.numeric d ≡ some e → world.numeric e ≡ some e

pub IsVersioned-of :
    (world : World) (versions : List ThesisConditionVersion) (cs : List ThesisCondition)
    (s : Session)
    → s.world ≡ world
    → s.condition_versions ≡ versions
    → s.conditions ≡ cs
    → All (Kept world versions) cs
    → IsVersioned s
unfolding Kept
IsVersioned-of world versions cs s p q r h = rw (p, q, r) h

threshold-stored :
    (world : World) (given change : Option (Option Decimal)) (old t : Decimal)
    → IsStable world
    → world.numeric old ≡ some old
    → stored_change world given ≡ ok change
    → column change old ≡ ok t
    → world.numeric t ≡ some t
unfolding stored_change column
threshold-stored world none change old t stable kept a b =
    let same : change ≡ none = ground (arith, a) in
    let answer : old ≡ t = ground (arith, same, b) in
    subst (λ x. world.numeric x ≡ some x) answer kept
threshold-stored world (some none) change old t stable kept a b =
    let same : change ≡ some none = ground (arith, a) in absurd (ground (arith, same, b))
threshold-stored world (some (some value)) change old t stable kept a b =
    elim (Option-cases (world.numeric value)) [
      | inl e ↦ absurd (ground (arith, a, e))
      | inr (stored, e) ↦
          let same : change ≡ some (some stored) = ground (arith, a, e) in
          let answer : stored ≡ t = ground (arith, same, b) in
          subst (λ x. world.numeric x ≡ some x) answer (stable value stored e)
    ]

pub changed_condition-stored :
    (world : World) (changes : ConditionChanges) (version : ℕ) (instant : DateTime)
    (row new : ThesisCondition)
    → IsStable world
    → world.numeric row.threshold ≡ some row.threshold
    → changed_condition world changes version instant row ≡ ok new
    → world.numeric new.threshold ≡ some new.threshold
unfolding changed_condition
changed_condition-stored world changes version instant row new stable kept h =
    let (change, a, h1) = >>=-eq-ok (stored_change world changes.threshold) _ h in
    let (_, _, h2) = >>=-eq-ok (column changes.name row.name) _ h1 in
    let (_, _, h3) = >>=-eq-ok (column changes.kind row.kind) _ h2 in
    let (_, _, h4) = >>=-eq-ok (column changes.metric row.metric) _ h3 in
    let (_, _, h5) = >>=-eq-ok (column changes.operator row.operator) _ h4 in
    let (t, b, h6) = >>=-eq-ok (column change row.threshold) _ h5 in
    let (_, _, h7) = >>=-eq-ok (column changes.consecutive_periods row.consecutive_periods) _ h6 in
    let (_, _, h8) = >>=-eq-ok (column changes.enabled row.enabled) _ h7 in
    let answer : t ≡ new.threshold = ground (arith, h8) in
    subst (λ x. world.numeric x ≡ some x) answer
      (threshold-stored world changes.threshold change row.threshold t stable kept a b)

pub make_condition-keeps :
    (row c : ThesisCondition) → make_condition row ≡ ok c → c.threshold ≡ row.threshold
unfolding make_condition
make_condition-keeps row c h = ground arith
