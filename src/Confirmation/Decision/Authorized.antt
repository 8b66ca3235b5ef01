-- ===== src/Confirmation/Decision/Authorized.antt =====
-- When the tool of a confirmation is called.
use package.text.Mathlib.Text.{◌==◌ as str_eq}
use disk_pulse.Prelude.{
  ℕ, String, ◌≡◌, ◌⊎◌, inl, inr, refl, true, ◌&&◌, List, [], ◌∷◌, ◌++◌, ◌==◌, arith, find, any,
  Bool-cases, Option-cases, ==_iff,
}
use disk_pulse.Prelude.Time.{Instant}
use disk_pulse.Prelude.Exec.{Result, ok, Result-cases}
use disk_pulse.Access.Db.{Db, User, is_super_admin}
use disk_pulse.Confirmation.Traces.{Decision, confirm, cancel, AiAuditLog, Json, ToolResult}
use disk_pulse.Confirmation.Decision.{
  ConfirmationRecord, ConfirmationStore, Desk, Answer, confirmed_answer, is_quota_write_tool,
  consumed, confirmation_key, carry_out, decide_record, decide_confirmation,
}

module _ {Arguments Store Payload : Type 0} (json : Json Payload) (redis : ConfirmationStore Store)
    (loads : String → ConfirmationRecord Arguments) (execute_tool : String → Arguments → ToolResult)
    (registry : List String) (user : User) (conversation_id : ℕ) (confirmation_id : String)
    (now : Instant) where
  -- A call of the record's tool with the record's arguments, and what is answered.
  pub record IsCalled (r : ConfirmationRecord Arguments) (decision : Decision)
      (desk : Desk Arguments Payload) (answer : Result Answer) (desk' : Desk Arguments Payload)
      : Type 0 where
    pub confirmed : decision ≡ confirm
    pub of_user : r.user_id ≡ user.id
    pub of_conversation : r.conversation_id ≡ conversation_id
    pub registered : any (str_eq r.tool_name) registry ≡ true
    pub quota_tool : is_quota_write_tool r.tool_name ≡ true
    pub calls : desk'.calls ≡ desk.calls ++ (r.tool_name, r.arguments) ∷ []
    pub answered :
        answer ≡ ok (confirmed_answer confirmation_id (execute_tool r.tool_name r.arguments))

  carry_out-IsCalled :
      (decision : Decision) (r : ConfirmationRecord Arguments) (audit : AiAuditLog Payload)
      (desk : Desk Arguments Payload)
      → r.user_id ≡ user.id
      → r.conversation_id ≡ conversation_id
      → let (answer, desk') =
          carry_out json redis loads execute_tool registry confirmation_id decision now r audit
            desk in
        (desk'.calls ≡ desk.calls) ⊎ IsCalled r decision desk answer desk'
  unfolding carry_out
  carry_out-IsCalled cancel r audit desk u c = inl refl
  carry_out-IsCalled confirm r audit desk u c =
      elim (Bool-cases (any (str_eq r.tool_name) registry && is_quota_write_tool r.tool_name)) [
        | inr e ↦ rw (e, carry_out) (inl refl)
        | inl e ↦
            rw (e, carry_out)
              (inr (record {
                confirmed = refl;
                of_user = u;
                of_conversation = c;
                registered = ground (arith, e);
                quota_tool = ground (arith, e);
                calls = refl;
                answered = refl;
              }))
      ]

  decide_record-IsCalled :
      (decision : Decision) (r : ConfirmationRecord Arguments) (desk : Desk Arguments Payload)
      → let (answer, desk') =
          decide_record json redis loads execute_tool registry user conversation_id confirmation_id
            decision now r desk in
        (desk'.calls ≡ desk.calls) ⊎ IsCalled r decision desk answer desk'
  unfolding decide_record
  decide_record-IsCalled decision r desk =
      elim (Bool-cases (r.user_id == user.id && r.conversation_id == conversation_id)) [
        | inr e ↦ rw (e, decide_record) (inl refl)
        | inl e ↦
            elim (Option-cases
              (find (λ (a : AiAuditLog Payload). a.id == r.audit_id) desk.audits)) [
                | inl f ↦ rw (e, f, decide_record) (inl refl)
                | inr (audit, f) ↦
                    rw (e, f, decide_record)
                      (carry_out-IsCalled decision r audit desk
                        ((==_iff r.user_id user.id).0 (ground (arith, e)))
                        ((==_iff r.conversation_id conversation_id).0 (ground (arith, e))))
              ]
      ]

  -- A decision either calls no tool, or a super administrator made it, it was to confirm, its record was read
  -- and consumed and belongs to the user and the conversation, and what is called is the record's tool, once
  -- and with the record's arguments: a quota tool that is still registered. The answer has its result.
  pub decide_confirmation-IsCalled :
      (db : Db) (decision : Decision) (meanwhile : Store → Store) (desk : Desk Arguments Payload)
      (store : Store)
      → let (answer, (desk', store')) =
          decide_confirmation json redis loads execute_tool registry db user conversation_id
            confirmation_id decision now meanwhile
            (desk, store) in
        (desk'.calls ≡ desk.calls)
        ⊎ ((is_super_admin db user ≡ true)
            × ((raw : String) × ((consumed redis
                    (confirmation_key confirmation_id)
                    meanwhile
                    store).0
                  ≡ ok raw)
                × IsCalled (loads raw) decision desk answer desk'))
  unfolding decide_confirmation
  decide_confirmation-IsCalled db decision meanwhile desk store =
      elim (Bool-cases (is_super_admin db user)) [
        | inr s ↦ rw (s, decide_confirmation) (inl refl)
        | inl s ↦
            elim (Result-cases
              (consumed redis (confirmation_key confirmation_id) meanwhile store).0) [
                | inl (x, e) ↦ rw (s, e, decide_confirmation) (inl refl)
                | inr (raw, e) ↦
                    rw (s, e, decide_confirmation)
                      (elim (decide_record-IsCalled decision (loads raw) desk) [
                        | inl same ↦ inl same
                        | inr called ↦ inr (refl, (raw, refl, called))
                      ])
              ]
      ]
