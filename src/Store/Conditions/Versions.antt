-- ===== src/Store/Conditions/Versions.antt =====
-- app/database/thesis_repositories.py: every condition has a snapshot of its current version.
use mathlib.Core.List.{Memᴰ}
use stock_master.Prelude.{
  ◌+◌, ◌≡◌, sym, ap, ◌∙◌, subst, List, [], ◌∷◌, ◌++◌, not, ◌==◌, some, ok, or_raise,
  repository_conflict, find?, find?-Memᴰ, All, All-append, All-Memᴰ, arith,
}
use stock_master.Prelude.Exec.{bind-eq-ok, run-eq, lift, raise_when}
use stock_master.Thesis.{DateTime, ThesisCondition, make_condition}
use stock_master.Event.{is_some}
use stock_master.Store.{Session, World, ThesisConditionVersion, now}
use stock_master.Store.Theses.{require_thesis, update_rows}
use stock_master.Store.Theses.Replay.{All-update_rows}
use stock_master.Store.Theses.Lifecycle.{require_thesis-found}
use stock_master.Store.Conditions.{require_condition, require_condition-state}
use stock_master.Store.Conditions.Rows.{condition_version_row, stored_condition, changed_condition}
use stock_master.Store.Conditions.Writes.{
  add_version, insert_condition, create_condition, ConditionUpdate, write_version, condition_hit,
  write_condition, update_condition,
}
use stock_master.Store.Conditions.Snapshots.{
  IsVersioned, add_version-ok, make_condition-threshold, stored_condition-ok, IsSnapshotted-last,
  Kept, Kept-later, IsStable, IsVersioned-of, changed_condition-stored, make_condition-keeps,
}

-- The writes of conditions: the creation of a condition that its model validates, and an update.
pub data Writes (s s' : Session) : Type 0 where
  creates :
      (condition c : ThesisCondition)
      → make_condition condition ≡ ok condition
      → create_condition condition s ≡ (ok c, s')
      → Writes s s'
  updates :
      (u : ConditionUpdate) (c : ThesisCondition) → update_condition u s ≡ (ok c, s') → Writes s s'

insert_condition-IsVersioned :
    (condition c : ThesisCondition) (s s' : Session)
    → IsStable s.world
    → make_condition condition ≡ ok condition
    → insert_condition condition s ≡ (ok c, s')
    → IsVersioned s
    → IsVersioned s'
unfolding insert_condition Kept
insert_condition-IsVersioned condition c s s' stable valid h i =
    let (row, stored, k1) = bind-eq-ok (lift (stored_condition s.world condition)) _ s h in
    let taken = is_some (find? (λ (x : ThesisCondition). x.id == condition.id) s.conditions) in
    let (_, _, k2) = bind-eq-ok (raise_when taken repository_conflict) _ s k1 in
    let s1 = record s { conditions = s.conditions ++ row ∷ [] } in
    let (_, added, k3) = bind-eq-ok (add_version condition) _ s1 k2 in
    let s2 = (add_version condition s1).1 in
    let final : s2 ≡ s' = ap (λ p. p.1) k3 in
    let (fits, whole) = stored_condition-ok s.world condition row stored in
    let (id, versions, conditions, world) =
      add_version-ok condition s1 s2 row.threshold fits (run-eq (add_version condition) s1 added) in
    let clean = record condition { threshold = row.threshold } in
    let read : make_condition row ≡ ok clean =
      ap make_condition whole ∙ make_condition-threshold condition row.threshold valid in
    let snapshot = condition_version_row id clean in
    let table = s.condition_versions ++ snapshot ∷ [] in
    let kept = Kept-later s.world s.condition_versions snapshot s.conditions i in
    let new : Kept s.world table row = (
      IsSnapshotted-last s.condition_versions id row clean read,
      stable condition.threshold row.threshold fits,
    ) in
    subst IsVersioned final (
      IsVersioned-of s.world table (s.conditions ++ row ∷ []) s2 world versions conditions
        (All-append (Kept s.world table) s.conditions (row ∷ []) kept (new, tt)))

-- the session after the UPDATE
abbrev after_update : ConditionUpdate → ThesisCondition → Session → Session
after_update u new s = record s {
  conditions = update_rows (condition_hit u) (λ r. new) s.conditions;
}

write_condition-ok :
    (u : ConditionUpdate) (instant : DateTime) (new : ThesisCondition) (s z : Session)
    → write_condition u instant s ≡ (ok new, z)
    → (row : ThesisCondition) × Memᴰ row s.conditions
      × (changed_condition s.world u.changes (u.expected_version + 1) instant row ≡ ok new)
      × (z ≡ after_update u new s)
unfolding write_condition
write_condition-ok u instant new s z h =
    let found = find? (condition_hit u) s.conditions in
    let (row, at, k1) = bind-eq-ok (lift (or_raise found repository_conflict)) _ s h in
    let changed = changed_condition s.world u.changes (u.expected_version + 1) instant row in
    let (made, built, k2) = bind-eq-ok (lift changed) _ s k1 in
    let present : found ≡ some row = ground (arith, at) in
    let (member, _) = find?-Memᴰ (condition_hit u) s.conditions row present in
    let same : made ≡ new = ground (arith, k2) in
    (row, member, built ∙ ap ok same, sym (ap (λ p. p.1) k2) ∙ ap (λ x. after_update u x s) same)

-- The rows after an update and its snapshot.
update_rows-Kept :
    (u : ConditionUpdate) (world : World) (versions : List ThesisConditionVersion)
    (v : ThesisConditionVersion) (new : ThesisCondition) (cs : List ThesisCondition)
    → Kept world (versions ++ v ∷ []) new
    → All (Kept world versions) cs
    → All (Kept world (versions ++ v ∷ [])) (update_rows (condition_hit u) (λ r. new) cs)
update_rows-Kept u world versions v new cs k h =
    let table = versions ++ v ∷ [] in
    All-update_rows (Kept world table) (Kept world table) (condition_hit u) (λ r. new) cs
      (λ c m p e. k) (λ c m p e. p) (Kept-later world versions v cs h)

settle_version :
    (u : ConditionUpdate) (row new updated : ThesisCondition) (instant : DateTime) (s s' : Session)
    → IsStable s.world
    → Memᴰ row s.conditions
    → changed_condition s.world u.changes (u.expected_version + 1) instant row ≡ ok new
    → make_condition new ≡ ok updated
    → add_version updated (after_update u new s) ≡ (ok tt, s')
    → IsVersioned s
    → IsVersioned s'
unfolding Kept
settle_version u row new updated instant s s' stable member changed made added i =
    let held = (All-Memᴰ (Kept s.world s.condition_versions) i member).1 in
    let stored =
      changed_condition-stored s.world u.changes (u.expected_version + 1) instant row new stable
        held changed in
    let same = make_condition-keeps new updated made in
    let fits : s.world.numeric updated.threshold ≡ some updated.threshold =
      subst (λ t. s.world.numeric t ≡ some t) (sym same) stored in
    let (id, versions, conditions, world) =
      add_version-ok updated (after_update u new s) s' updated.threshold fits added in
    let snapshot = condition_version_row id updated in
    let kept : Kept s.world (s.condition_versions ++ snapshot ∷ []) new =
      (IsSnapshotted-last s.condition_versions id new updated made, stored) in
    IsVersioned-of s.world (s.condition_versions ++ snapshot ∷ []) _ s' world versions conditions
      (update_rows-Kept u s.world s.condition_versions snapshot new s.conditions kept i)

write_version-IsVersioned :
    (u : ConditionUpdate) (current c : ThesisCondition) (s s' : Session)
    → IsStable s.world
    → write_version u current s ≡ (ok c, s')
    → IsVersioned s
    → IsVersioned s'
unfolding write_version now
write_version-IsVersioned u current c s s' stable h i =
    let (_, _, k1) =
      bind-eq-ok (raise_when (not (current.version == u.expected_version)) repository_conflict) _ s
        h in
    let instant = s.world.clock s.instants_drawn in
    let s1 = record s { instants_drawn = s.instants_drawn + 1 } in
    let (new, wrote, k2) = bind-eq-ok (write_condition u instant) _ s1 k1 in
    let z = (write_condition u instant s1).1 in
    let (row, member, changed, left) =
      write_condition-ok u instant new s1 z (run-eq (write_condition u instant) s1 wrote) in
    let (updated, made, k3) = bind-eq-ok (lift (make_condition new)) _ z k2 in
    let (_, added, k4) = bind-eq-ok (add_version updated) _ z k3 in
    let run : add_version updated z ≡ (ok tt, s') =
      run-eq (add_version updated) z added ∙ ap (λ x. (ok tt, x)) (ap (λ p. p.1) k4) in
    settle_version u row new updated instant s1 s' stable member changed made
      (subst (λ x. add_version updated x ≡ (ok tt, s')) left run) i

-- In a world whose numeric columns store what they have stored as it is: when a condition that its model
-- validates is created, or a condition is updated, and the call returns, then every condition has a
-- snapshot of its current version, exactly as the condition is read, if that held before.
pub Writes-IsVersioned :
    (s s' : Session) → IsStable s.world → Writes s s' → IsVersioned s → IsVersioned s'
unfolding create_condition update_condition
Writes-IsVersioned s s' stable (creates condition c valid h) i =
    let (t, found, k) = bind-eq-ok (require_thesis condition.user_id condition.thesis_id) _ s h in
    let (_, _, _, _, same) = require_thesis-found condition.user_id condition.thesis_id s t found in
    insert_condition-IsVersioned condition c s s' stable valid
      (subst (λ z. insert_condition condition z ≡ (ok c, s')) same k) i
Writes-IsVersioned s s' stable (updates u c h) i =
    let (current, _, k) =
      bind-eq-ok (require_condition u.user_id u.thesis_id u.condition_id) _ s h in
    let same = require_condition-state u.user_id u.thesis_id u.condition_id s in
    write_version-IsVersioned u current c s s' stable
      (subst (λ z. write_version u current z ≡ (ok c, s')) same k) i
