-- ===== src/Alerts/Evaluation/Pass/Returned.antt =====
-- The ids that `evaluate_storage_alerts` of backend/celery_tasks/tasks/storage_alerts.py returns are those
-- of the alerts that it leaves to be delivered.
use mathlib.Core.List.{append_assoc}
use disk_pulse.Prelude.{
  ℕ, String, ◌≡◌, ◌≢◌, refl, sym, ap, subst, ◌∙◌, inl, inr, Option, none, some, List, [], ◌∷◌, ◌++◌,
  arith, All-append,
}
use disk_pulse.Prelude.Exec.{Error, Result, ok, err, Result-cases}
use disk_pulse.Access.Db.{User}
use disk_pulse.Alerts.Rule.{StorageAlertRule, TargetType}
use disk_pulse.Alerts.Transition.{AlertState}
use disk_pulse.Alerts.Evaluation.{AlertRow, Tables, Settings, Subject, evaluate_one}
use disk_pulse.Alerts.Evaluation.Pass.{
  Refreshed, Resources, system_rule_of, with_id, subjects, evaluate_each, evaluate_storage_alerts,
  in_transaction, append_to, and_then,
}
use disk_pulse.Alerts.Evaluation.Pass.Added.{
  IsNew, Adds, AddsOne, pending_ids, nothing, evaluate_one-Adds,
}

pending_ids-append :
    (xs ys : List AlertRow) → pending_ids (xs ++ ys) ≡ pending_ids xs ++ pending_ids ys
pending_ids-append [] ys = refl
pending_ids-append (r ∷ xs) ys = ground (arith, pending_ids-append xs ys)

with_id-append : (id : Option ℕ) (ids : List ℕ) → with_id id ids ≡ with_id id [] ++ ids
with_id-append none ids = refl
with_id-append (some n) ids = refl

Adds-trans :
    (now : ℕ) (id : Option ℕ) (ids : List ℕ) (db db' db'' : Tables)
    → Adds now db (with_id id []) db'
    → Adds now db' ids db''
    → Adds now db (with_id id ids) db''
Adds-trans now id ids db db' db'' a b = record {
  new = a.new ++ b.new;
  appended =
      b.appended ∙ ap (λ rows. rows ++ b.new) a.appended ∙ append_assoc db.alerts a.new b.new;
  returned =
      with_id-append id ids
      ∙ ap (λ l. l ++ ids) a.returned
      ∙ ap (λ l. pending_ids a.new ++ l) b.returned
      ∙ sym (pending_ids-append a.new b.new);
  untried = All-append (IsNew now) a.new b.new a.untried b.untried;
}

AddsOne-ok :
    (now : ℕ) (db : Tables) (p : Result (Option ℕ) × Tables) (id : Option ℕ)
    → p.0 ≡ ok id
    → AddsOne now db p
    → Adds now db (with_id id []) p.1
AddsOne-ok now db (err e, db') id h a = cc h
AddsOne-ok now db (ok i, db') id h a =
    let same : i ≡ id = cc h in subst (λ j. Adds now db (with_id j []) db') same a

append_to-ok :
    (id : Option ℕ) (q : Result (List ℕ) × Tables) (ids : List ℕ)
    → (append_to id q).0 ≡ ok ids
    → (rest : List ℕ) × (q.0 ≡ ok rest) × (with_id id rest ≡ ids) × ((append_to id q).1 ≡ q.1)
append_to-ok id (err e, db) ids h = cc h
append_to-ok id (ok rest, db) ids h = (rest, refl, cc h, refl)

-- A pass that succeeds: its first target, and the rest.
pub and_then-ok :
    (p : Result (Option ℕ) × Tables) (k : Tables → Result (List ℕ) × Tables) (ids : List ℕ)
    → (and_then p k).0 ≡ ok ids
    → (id : Option ℕ) × (rest : List ℕ) × (p.0 ≡ ok id)
      × ((k p.1).0 ≡ ok rest)
      × (with_id id rest ≡ ids)
      × ((and_then p k).1 ≡ (k p.1).1)
and_then-ok (err e, db) k ids h = cc h
and_then-ok (ok id, db) k ids h =
    let (rest, f, same, after) = append_to-ok id (k db) ids h in (id, rest, refl, f, same, after)

pub committed-err :
    (db : Tables) (p : Result (List ℕ) × Tables) (e : Error) (ids : List ℕ) (db' : Tables)
    → p.0 ≡ err e
    → in_transaction db p ≢ (ok ids, db')
committed-err db (ok i, t) e ids db' f h = cc f
committed-err db (err x, t) e ids db' f h = cc (ap (λ q. q.0) h)

pub committed-ok :
    (db : Tables) (p : Result (List ℕ) × Tables) (ids' ids : List ℕ) (db' : Tables)
    → p.0 ≡ ok ids'
    → in_transaction db p ≡ (ok ids, db')
    → (ids' ≡ ids) × (p.1 ≡ db')
committed-ok db (err x, t) ids' ids db' f h = cc f
committed-ok db (ok i, t) ids' ids db' f h = (cc (sym f ∙ ap (λ q. q.0) h), ap (λ q. q.1) h)

module _ (dc : Option ℕ → String) (dr : ℕ → String) (sig : StorageAlertRule → String) (c : Settings)
    (users : List User) where
  evaluate_each-Adds :
      (rule : StorageAlertRule) (now : ℕ) (xs : List Subject) (db : Tables) (ids : List ℕ)
      → (evaluate_each dc dr sig c users rule now xs db).0 ≡ ok ids
      → Adds now db ids (evaluate_each dc dr sig c users rule now xs db).1
  unfolding evaluate_each
  evaluate_each-Adds rule now [] db ids h =
      subst (λ l. Adds now db l db) (cc h) (nothing now db db.states)
  evaluate_each-Adds rule now (x ∷ xs) db ids h =
      let one = evaluate_one dc dr sig c users rule now x db in
      let rest = evaluate_each dc dr sig c users rule now xs in
      let (id, ids', f, g, same, after) = and_then-ok one rest ids h in
      subst (λ (l : List ℕ). Adds now db l (and_then one rest).1) same
        (subst (λ (t : Tables). Adds now db (with_id id ids') t) (sym after)
          (Adds-trans now id ids' db one.1 (rest one.1).1
            (AddsOne-ok now db one id f (evaluate_one-Adds dc dr sig c users rule now x db))
            (evaluate_each-Adds rule now xs one.1 ids' g)))

  -- A pass that does not raise returns exactly the ids of those alerts which it adds to be delivered, in
  -- their order: all alerts are untried, with a number of attempts that the delivery never exceeds, due at
  -- the time of the sample or skipped, and no recovery is to be delivered.
  pub evaluate_storage_alerts-Adds :
      (rival : TargetType → ℕ → Option AlertState) (order_by_name : List String → List String)
      (w : Resources) (r : Refreshed) (now : ℕ) (db db' : Tables) (ids : List ℕ)
      → evaluate_storage_alerts dc dr sig c users rival order_by_name w r now db ≡ (ok ids, db')
      → Adds now db ids db'
  unfolding evaluate_storage_alerts
  evaluate_storage_alerts-Adds rival order_by_name w r now db db' ids h =
      let rule : StorageAlertRule = system_rule_of w.system_rule in
      let xs : List Subject = subjects rival order_by_name w r now in
      elim (Result-cases (evaluate_each dc dr sig c users rule now xs db).0) [
        | inl (e, f) ↦
            absurd (committed-err db (evaluate_each dc dr sig c users rule now xs db) e ids db' f h)
        | inr (ids', f) ↦
            let (same, after) =
              committed-ok db (evaluate_each dc dr sig c users rule now xs db) ids' ids db' f h in
            subst (λ l. Adds now db l db') same
              (subst (λ t. Adds now db ids' t) after (evaluate_each-Adds rule now xs db ids' f))
      ]
