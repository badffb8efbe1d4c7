-- ===== src/Auth/Guards.antt =====
-- Who gets past the guards of index.ts, and what the audit log records.
use home_server_interface.Base.{
  Bool, true, false, [], ◌∷◌, none, some, String, starts_with, mem, is_some, Result, ok, err, ◌≡◌,
  refl, ◌⊎◌, inl, inr, ◌↔◌, arith, Option-cases, Bool-cases, if◌then◌else◌, ◌>>=◌,
}
use home_server_interface.Auth.Session.{TokenPayload}
use home_server_interface.Auth.Procedures.{
  ProcedureType, mutation, Via, assistant, Audit, Context, Code, unauthorized, closed_to_api_tokens,
  is_authed, block_if_must_change_password, block_during_maintenance, role_guard,
  exempt_while_must_change_password, Procedure, protected, admin, user_manager, storage, guards,
  AuditEntry, call, is_assistant, is_mutation, Guard, audit_log, succeeded,
}

abbrev pub HasRole : Procedure → TokenPayload → Type 0
HasRole protected u = Unit
HasRole admin u = u.is_admin ≡ true
HasRole user_manager u = (u.is_admin ≡ true) ⊎ (u.is_user_manager ≡ true)
HasRole storage u = (u.is_admin ≡ true) ⊎ (mem "storage" u.capabilities ≡ true)

-- The call comes from an AI assistant: with an access token, or from the built-in chat.
abbrev pub ByAssistant : Context → Type 0
ByAssistant ctx = (is_some ctx.api_token ≡ true) ⊎ (ctx.via ≡ assistant)

-- What a user needs for a call of a procedure.
pub record IsAllowed (p : Procedure) (maintenance : Bool) (ctx : Context) (path : String)
    (type : ProcedureType) (u : TokenPayload) : Type 0 where
  pub signed_in : ctx.user ≡ some u
  pub open_path : ByAssistant ctx → closed_to_api_tokens path ≡ false
  pub password :
      type ≡ mutation
      → (u.must_change_password ≡ false) ⊎ (mem path exempt_while_must_change_password ≡ true)
  pub running : type ≡ mutation → (starts_with path "auth." ≡ true) ⊎ (maintenance ≡ false)
  pub role : HasRole p u

chain-eq-ok : (m n : Guard) → (m >>= λ _. n) ≡ ok tt → (m ≡ ok tt) × (n ≡ ok tt)
chain-eq-ok (ok _) n h = (refl, h)
chain-eq-ok (err e) n h = absurd (ground arith)

Guard-cases : (m : Guard) → (m ≡ ok tt) ⊎ ((e : Code) × (m ≡ err e))
Guard-cases (ok _) = inl refl
Guard-cases (err e) = inr (e, refl)

Via-cases : (v : Via) → (v ≡ assistant) ⊎ (is_assistant v ≡ false)
Via-cases assistant = inl refl
Via-cases v = inr refl

type-cases : (t : ProcedureType) → (t ≡ mutation) ⊎ (is_mutation t ≡ false)
type-cases mutation = inl refl
type-cases t = inr refl

module _ (ctx : Context) (path : String) (type : ProcedureType) (u : TokenPayload)
    (signed_in : ctx.user ≡ some u) where
  is_authed_sound : is_authed ctx path ≡ ok tt → ByAssistant ctx → closed_to_api_tokens path ≡ false
  unfolding is_authed
  is_authed_sound g by = ground arith

  is_authed_complete :
      (ByAssistant ctx → closed_to_api_tokens path ≡ false) → is_authed ctx path ≡ ok tt
  unfolding is_authed
  is_authed_complete open_path = elim (Bool-cases (closed_to_api_tokens path)) [
    | inr free ↦ ground arith
    | inl closed ↦ elim (Bool-cases (is_some ctx.api_token)) [
      | inl token ↦ let no_token = open_path (inl token) in cc
      | inr none_given ↦ elim (Via-cases ctx.via) [
        | inl chat ↦ let no_chat = open_path (inr chat) in cc
        | inr other ↦ ground arith
      ]
    ]
  ]

  password_iff : (block_if_must_change_password ctx path type ≡ ok tt) ↔ (
      type ≡ mutation
      → (u.must_change_password ≡ false) ⊎ (mem path exempt_while_must_change_password ≡ true))
  unfolding block_if_must_change_password
  password_iff = (
    λ g m. ground arith,
    λ h. elim (type-cases type) [
      | inl m ↦ let fact = h m in ground arith
      | inr other ↦ ground arith
    ],
  )

  running_iff :
      (maintenance : Bool)
      → (block_during_maintenance maintenance path type ≡ ok tt)
        ↔ (type ≡ mutation → (starts_with path "auth." ≡ true) ⊎ (maintenance ≡ false))
  unfolding block_during_maintenance
  running_iff maintenance = (
    λ g m. ground arith,
    λ h. elim (type-cases type) [
      | inl m ↦ let fact = h m in ground arith
      | inr other ↦ ground arith
    ],
  )

  role_guard_iff : (p : Procedure) → (role_guard p ctx ≡ ok tt) ↔ HasRole p u
  unfolding role_guard
  role_guard_iff protected = (λ g. tt, λ r. refl)
  role_guard_iff admin = (λ g. ground arith, λ r. ground arith)
  role_guard_iff user_manager = (λ g. ground arith, λ r. ground arith)
  role_guard_iff storage = (λ g. ground arith, λ r. ground arith)

  guards_parts :
      (p : Procedure) (maintenance : Bool)
      → (guards p maintenance ctx path type ≡ ok tt) ↔ (
          (is_authed ctx path ≡ ok tt)
          × (block_if_must_change_password ctx path type ≡ ok tt)
          × (block_during_maintenance maintenance path type ≡ ok tt)
          × (role_guard p ctx ≡ ok tt))
  unfolding guards
  guards_parts p maintenance = (
    λ g.
        let (a, rest) = chain-eq-ok (is_authed ctx path) _ g in
        let (b, rest') = chain-eq-ok (block_if_must_change_password ctx path type) _ rest in
        let (c, d) = chain-eq-ok (block_during_maintenance maintenance path type) _ rest' in
        (a, b, c, d),
    λ (a, b, c, d). rw (a, b, c, d),
  )

-- A call of a procedure passes its guards exactly when the user is signed in, an AI assistant
-- does not ask for what is closed to it, a mutation is neither blocked by a password that must
-- be changed first nor by an update or restart under way, and the user has the procedure's role.
pub guards_iff :
    (p : Procedure) (maintenance : Bool) (ctx : Context) (path : String) (type : ProcedureType)
    (u : TokenPayload)
    → ctx.user ≡ some u
    → (guards p maintenance ctx path type ≡ ok tt) ↔ IsAllowed p maintenance ctx path type u
guards_iff p maintenance ctx path type u h = (
  λ g.
      let (a, b, c, d) = (guards_parts ctx path type u h p maintenance).0 g in
      record {
        signed_in = h;
        open_path = is_authed_sound ctx path type u h a;
        password = (password_iff ctx path type u h).0 b;
        running = (running_iff ctx path type u h maintenance).0 c;
        role = (role_guard_iff ctx path type u h p).0 d;
      },
  λ r. (guards_parts ctx path type u h p maintenance).1 (
    is_authed_complete ctx path type u h r.open_path,
    (password_iff ctx path type u h).1 r.password,
    (running_iff ctx path type u h maintenance).1 r.running,
    (role_guard_iff ctx path type u h p).1 r.role,
  ),
)

guards-signed_out :
    (p : Procedure) (maintenance : Bool) (ctx : Context) (path : String) (type : ProcedureType)
    → ctx.user ≡ none
    → guards p maintenance ctx path type ≡ err unauthorized
unfolding guards is_authed
guards-signed_out p maintenance ctx path type h = rw h

-- The audit entry of a mutation that `u` was allowed to make.
abbrev pub entry_of {ℓ} :
    {A : Type ℓ} → Context → TokenPayload → String → Result Code A × Audit → AuditEntry
entry_of ctx u path outcome = record {
  user_id = u.user_id;
  action = path;
  target = outcome.1.target;
  success = succeeded outcome.0 outcome.1.success;
  via = ctx.via;
  token_id = ctx.api_token;
}

-- What a call does in the two cases: a guard refuses it, the body does not run and nothing is
-- recorded; or the body runs for the allowed user and a mutation is recorded once, under the
-- user's id, successful only if the body neither threw nor reported a failure.
call_cases {ℓ} :
    {A : Type ℓ} (p : Procedure) (maintenance : Bool) (ctx : Context) (path : String)
    (type : ProcedureType) (body : TokenPayload → Result Code A × Audit)
    → ((e : Code) × (guards p maintenance ctx path type ≡ err e)
        × (call p maintenance ctx path type body ≡ (err e, [])))
      ⊎ ((u : TokenPayload) × IsAllowed p maintenance ctx path type u
          × (call p maintenance ctx path type body
              ≡ ((body u).0, (if is_mutation type then entry_of ctx u path (body u) ∷ [] else []))))
unfolding call audit_log
call_cases p maintenance ctx path type body = elim (Option-cases ctx.user) [
  | inl out ↦ inl (
    unauthorized,
    guards-signed_out p maintenance ctx path type out,
    rw (guards-signed_out p maintenance ctx path type out, call),
  )
  | inr (u, signed) ↦ elim (Guard-cases (guards p maintenance ctx path type)) [
    | inl pass ↦ inr (u, (guards_iff p maintenance ctx path type u signed).0 pass, ground arith)
    | inr (e, stop) ↦ inl (e, stop, rw (stop, call))
  ]
]
