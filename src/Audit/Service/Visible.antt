-- ===== src/Audit/Service/Visible.antt =====
-- Who sees which rows of the trail, and what they see of them.
use text.Mathlib.Text.{◌==◌ as str_eq}
use disk_pulse.Prelude.{
  ℕ, ◌-◌, ◌*◌, ◌≤◌, String, ◌≡◌, ◌↔◌, ◌⊎◌, inl, inr, sym, subst, ap, Bool, true, false, Option,
  none, some, List, [], ◌∷◌, arith, length, find, select, All, Bool-cases, Option-cases, ==_iff,
}
use disk_pulse.Prelude.Exec.{ok, err, Error, Result-cases}
use disk_pulse.Access.Db.{Db, User, project_admin, is_super_admin}
use disk_pulse.Access.Service.{require_project_permission}
use disk_pulse.Audit.Service.Pages.{take-length, All-take, All-drop}
use disk_pulse.Audit.Service.{
  AuditEvent, Filter, drop, admits, page_of, may_list, column, list_audit_events,
  list_visible_audit_events, visible_event, get_visible_audit_event,
}

-- A super administrator may see every row, and an administrator of a project the rows of the project.
abbrev pub MaySee : Db → User → Option ℕ → Type 0
MaySee db user none = is_super_admin db user ≡ true
MaySee db user (some project_id) =
    (is_super_admin db user ≡ true)
    ⊎ (require_project_permission db (some user) project_id project_admin ≡ ok tt)

-- The selected project of a user who may list.
seen :
    (db : Db) (user : User) (o x : Option ℕ)
    → may_list db user o ≡ ok tt
    → column x o ≡ true
    → MaySee db user x
unfolding may_list
seen db user none x h k = cc
seen db user (some p) none h k = cc
seen db user (some p) (some q) h k = let same : q ≡ p = (==_iff q p).0 k in rw same (inr h)

seen_by_super :
    (db : Db) (user : User) (x : Option ℕ) → is_super_admin db user ≡ true → MaySee db user x
seen_by_super db user none h = h
seen_by_super db user (some p) h = inl h

module _ {Payload : Type 0} where
  visible_event_iff :
      (db : Db) (user : User) (e f : AuditEvent Payload) (project_id : Option ℕ)
      → (visible_event db user e project_id ≡ ok f) ↔ ((e ≡ f) × MaySee db user project_id)
  unfolding visible_event
  visible_event_iff db user e f none = (λ h. (ground arith, ground arith), λ h. ground arith)
  visible_event_iff db user e f (some p) = (λ h. (ground arith, ground arith), λ h. ground arith)

  -- An event is shown exactly if it is the one with the key, and the user is a super administrator or an
  -- administrator of the event's project.
  pub get_visible_audit_event_iff :
      (db : Db) (user : User) (rows : List (AuditEvent Payload)) (event_id : String)
      (f : AuditEvent Payload)
      → (get_visible_audit_event db user rows event_id ≡ ok f) ↔ (
          (find (λ (e : AuditEvent Payload). str_eq e.id event_id) rows ≡ some f)
          × MaySee db user f.project_id)
  unfolding get_visible_audit_event
  get_visible_audit_event_iff db user rows event_id f =
      elim (Option-cases (find (λ (e : AuditEvent Payload). str_eq e.id event_id) rows)) [
        | inl e ↦ rw (e, get_visible_audit_event) (λ h. cc, λ h. elim (none_lem h.0) [ ])
        | inr (x, e) ↦
            let (there, back) = visible_event_iff db user x f x.project_id in
            rw (e, get_visible_audit_event)
              (
                λ h.
                    let (same, may) = there h in
                    (
                      ap some same,
                      subst (λ (z : AuditEvent Payload). MaySee db user z.project_id) same may,
                    ),
                λ h.
                    let same : x ≡ f = ground (arith, h.0) in
                    back (
                      same,
                      subst (λ (z : AuditEvent Payload). MaySee db user z.project_id) (sym same)
                          h.1,
                    ),
              )
      ]
    where
      none_lem : {x : AuditEvent Payload} → none ≡ some x → ⊥
      none_lem h = cc

  admits-column :
      (f : Filter) (x : AuditEvent Payload)
      → admits f x ≡ true
      → column x.project_id f.project_id ≡ true
  unfolding admits
  admits-column f x k = elim (Bool-cases (column x.project_id f.project_id)) [
    | inl e ↦ e
    | inr e ↦ elim (false_lem (rw (e, admits) at k)) [ ]
  ]
    where
      false_lem : false ≡ true → ⊥
      false_lem h = cc

  All-select :
      (P : AuditEvent Payload → Type 0) (p : AuditEvent Payload → Bool)
      → ((x : AuditEvent Payload) → p x ≡ true → P x)
      → (xs : List (AuditEvent Payload)) → All P (select p xs)
  unfolding select
  All-select P p h [] = tt
  All-select P p h (x ∷ xs) = elim (Bool-cases (p x)) [
    | inl e ↦ rw e (h x e, All-select P p h xs)
    | inr e ↦ rw e (All-select P p h xs)
  ]

  module _ (order_by : List (AuditEvent Payload) → List (AuditEvent Payload))
      (keeps : (P : AuditEvent Payload → Type 0) (xs : List (AuditEvent Payload))
        → All P xs
        → All P (order_by xs))
      (db : Db) (user : User) (rows : List (AuditEvent Payload)) (page size : ℕ) (f : Filter) where
    listed-length : length (list_audit_events order_by rows page size f).0 ≤ size
    unfolding list_audit_events page_of
    listed-length = take-length size (drop ((page - 1) * size) (order_by (select (admits f) rows)))

    listed-MaySee :
        ((x : AuditEvent Payload) → admits f x ≡ true → MaySee db user x.project_id)
        → All
            (λ (e : AuditEvent Payload). MaySee db user e.project_id)
            (list_audit_events order_by rows page size f).0
    unfolding list_audit_events page_of
    listed-MaySee h =
        All-take _ size _
          (All-drop _ ((page - 1) * size) _ (keeps _ _ (All-select _ (admits f) h rows)))

    -- Whatever the filter, a page of the list has only rows that the user may see, and no more of them than
    -- the size of a page, if the order of the database brings in no other rows.
    pub list_visible_audit_events-MaySee :
        (rs : List (AuditEvent Payload)) (total : ℕ)
        → list_visible_audit_events order_by db user rows page size f ≡ ok (rs, total)
        → All (λ (e : AuditEvent Payload). MaySee db user e.project_id) rs × (length rs ≤ size)
    unfolding list_visible_audit_events
    list_visible_audit_events-MaySee rs total h = elim (Bool-cases (is_super_admin db user)) [
      | inl s ↦ shown (λ x k. seen_by_super db user x.project_id s) (ground arith)
      | inr s ↦ elim (Result-cases (may_list db user f.project_id)) [
        | inl (x, e) ↦ elim (refused x e s) [ ]
        | inr (_, e) ↦
            shown (λ x k. seen db user f.project_id x.project_id e (admits-column f x k))
              (ground arith)
      ]
    ]
      where
        refused :
            (x : Error) → may_list db user f.project_id ≡ err x → is_super_admin db user ≡ false → ⊥
        refused x e s = ground (arith, h, e, s)

        shown :
            ((x : AuditEvent Payload) → admits f x ≡ true → MaySee db user x.project_id)
            → list_audit_events order_by rows page size f ≡ (rs, total)
            → All (λ (e : AuditEvent Payload). MaySee db user e.project_id) rs × (length rs ≤ size)
        shown k e =
            subst
              (λ (r : List (AuditEvent Payload) × ℕ).
                All (λ (x : AuditEvent Payload). MaySee db user x.project_id) r.0
                × (length r.0 ≤ size))
              e (listed-MaySee k, listed-length)
