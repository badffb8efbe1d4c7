-- ===== src/ApiTokens/Rights.antt =====
-- What a personal access token grants.
use Prim.Native.String.{String}
use home_server_interface.Base.{
  ◌⊎◌, ℕ, Bool, true, List, [], ◌∷◌, Option, none, some, concat, slice_from, starts_with, filter,
  mem, Result, ok, >>=-eq-ok, arith, ◌<◌, ◌&&◌, ◌||◌, false, str_eq, eq_iff, get_or, sym, ◌≡◌, refl,
  inl, inr, Bool-cases, Option-cases, ◌∙◌, ap,
}
use home_server_interface.Auth.Session.{CurrentUser, current_payload}
use home_server_interface.ApiTokens.{
  ApiToken, TokenUser, token_prefix, api_scopes, parse_scopes, token_usable, not_over, token_user,
  usable_user, authenticate_api_token,
}

-- Whether a list that could be read has the scope.
abbrev pub is_listed : String → Option (List String) → Bool
is_listed s none = false
is_listed s (some v) = mem s v

mem-filter :
    (s : String) (p : String → Bool) (v : List String) → mem s (filter p v) ≡ (p s && mem s v)
mem-filter s p [] = ground arith
mem-filter s p (x ∷ v) = elim (Bool-cases (str_eq x s)) [
  | inl e1 ↦ let same = ap p ((eq_iff x s).0 e1) in ground (arith, e1, same, mem-filter s p v)
  | inr e1 ↦ ground (arith, e1, mem-filter s p v)
]

-- A time to expire at that is either not given or later.
abbrev pub IsAhead : ℕ → Option ℕ → Type 0
IsAhead now expires_at =
    (expires_at ≡ none) ⊎ ((time : ℕ) × (expires_at ≡ some time) × (now < time))

not_over-IsAhead : (o : Option ℕ) (now : ℕ) → not_over o now ≡ true → IsAhead now o
not_over-IsAhead none now e = inl refl
not_over-IsAhead (some t) now e = inr (t, refl, ground (arith, e))

pub mem-parse_scopes :
    (parse : String → Option (List String)) (raw s : String)
    → mem s (parse_scopes parse raw) ≡ (mem s api_scopes && is_listed s (parse raw))
unfolding parse_scopes
mem-parse_scopes parse raw s = elim (Option-cases (parse raw)) [
  | inl e ↦ rw e (ground arith)
  | inr (v, e) ↦ rw e (mem-filter s (λ scope. mem scope api_scopes) v)
]

pub usable_parts :
    (t : ApiToken) (now : ℕ)
    → token_usable t now ≡ true
    → (t.revoked_at ≡ none) × IsAhead now t.expires_at
unfolding token_usable
usable_parts t now usable = elim (Option-cases t.revoked_at) [
  | inl e ↦ (e, not_over-IsAhead t.expires_at now (ground (arith, usable)))
  | inr (at, e) ↦ absurd (ground (arith, usable, e))
]

module _ {E : Type 0} (hash_token : String → String)
    (find_token : String → Result E (Option ApiToken))
    (load_current_user : String → Result E (Option CurrentUser))
    (parse : String → Option (List String)) where
  -- What stands behind an accepted token: a stored token with the hash of the secret that was sent,
  -- neither revoked nor expired, and its user's rights as they are now.
  pub record IsBehind (authorization : String) (now : ℕ) (u : TokenUser) (t : ApiToken)
      (user : CurrentUser) : Type 0 where
    pub bearer : starts_with authorization (concat "Bearer " token_prefix) ≡ true
    pub stored : find_token (hash_token (slice_from authorization 7)) ≡ ok (some t)
    pub unrevoked : t.revoked_at ≡ none
    pub unexpired : IsAhead now t.expires_at
    pub loaded : load_current_user t.user_id ≡ ok (some user)
    pub token : u.token_id ≡ t.id
    pub acts_for : u.payload.user_id ≡ t.user_id
    pub acts_as : u.payload.jti ≡ concat "pat:" t.id
    pub admin : u.payload.is_admin ≡ user.is_admin
    pub manager : u.payload.is_user_manager ≡ (user.is_admin || user.is_user_manager)
    pub must_change : u.payload.must_change_password ≡ user.must_change_password
    pub capable : u.payload.capabilities ≡ user.capabilities
    pub scopes : (s : String) → mem s u.scopes ≡ (mem s api_scopes && is_listed s (parse t.scopes))

  token_user_lem :
      (t : ApiToken) (now : ℕ) (u : TokenUser) (write : Bool) (user : Option CurrentUser)
      → token_user hash_token find_token load_current_user parse t now
          (current_payload t.user_id (concat "pat:" t.id) user)
        ≡ some (u, write)
      → (known : CurrentUser) × (user ≡ some known)
        × (u ≡ record {
          payload = record {
            user_id = t.user_id;
            jti = concat "pat:" t.id;
            is_admin = known.is_admin;
            is_user_manager = known.is_admin || known.is_user_manager;
            must_change_password = known.must_change_password;
            capabilities = known.capabilities;
          };
          token_id = t.id;
          scopes = parse_scopes parse t.scopes;
        })
  unfolding token_user current_payload
  token_user_lem t now u write none e = absurd (ground (arith, e))
  token_user_lem t now u write (some known) e =
      (known, refl, sym (ap (λ o. (get_or {A = TokenUser × Bool} o (u, write)).0) e))

  no_token :
      (now : ℕ) (u : TokenUser) (write : Bool)
      → usable_user hash_token find_token load_current_user parse now none ≡ ok (some (u, write))
      → ⊥
  unfolding usable_user
  no_token now u write e = ground (arith, e)

  usable_user_lem :
      (t : ApiToken) (now : ℕ) (u : TokenUser) (write : Bool)
      → usable_user hash_token find_token load_current_user parse now (some t)
        ≡ ok (some (u, write))
      → (token_usable t now ≡ true)
        × ((user : Option CurrentUser) × (load_current_user t.user_id ≡ ok user)
            × (token_user hash_token find_token load_current_user parse t now
                  (current_payload t.user_id (concat "pat:" t.id) user)
                ≡ some (u, write)))
  unfolding usable_user
  usable_user_lem t now u write e = elim (Bool-cases (token_usable t now)) [
    | inr spent ↦ absurd (ground (arith, rw (usable_user, spent) at e))
    | inl usable ↦
        let (user, loaded, made) =
          >>=-eq-ok (load_current_user t.user_id) _ (rw (usable_user, usable) at e) in
        (usable, (user, loaded, ground (arith, made)))
  ]

  -- A token that is accepted is stored under the hash of the secret sent, is not revoked and, if it
  -- expires, expires later; it acts for its user, under its own id, with the user's admin, manager,
  -- password and capability flags of now, and its scopes are the known ones among those stored.
  pub authenticate_api_token_lem :
      (authorization : String) (now : ℕ) (u : TokenUser) (write : Bool)
      → authenticate_api_token hash_token find_token load_current_user parse
          (some authorization)
          now
        ≡ ok (some (u, write))
      → (t : ApiToken) × (user : CurrentUser) × IsBehind authorization now u t user
  unfolding authenticate_api_token
  authenticate_api_token_lem authorization now u write e =
      elim (Bool-cases (starts_with authorization (concat "Bearer " token_prefix))) [
        | inr no_bearer ↦ absurd (ground (arith, rw (authenticate_api_token, no_bearer) at e))
        | inl bearer ↦
            let (token, stored, rest) =
              >>=-eq-ok (find_token (hash_token (slice_from authorization 7))) _
                (rw (authenticate_api_token, bearer) at e) in
            elim (Option-cases token) [
              | inl unknown ↦ absurd (no_token now u write (rw unknown at rest))
              | inr (t, e_t) ↦
                  let (usable, (user, loaded, made)) =
                    usable_user_lem t now u write (rw e_t at rest) in
                  let (known, is_known, made_of) = token_user_lem t now u write user made in
                  (
                    t,
                    known,
                    record {
                      bearer = bearer;
                      stored = stored ∙ ap ok e_t;
                      unrevoked = (usable_parts t now usable).0;
                      unexpired = (usable_parts t now usable).1;
                      loaded = loaded ∙ ap ok is_known;
                      token = ap (λ v. v.token_id) made_of;
                      acts_for = ap (λ v. v.payload.user_id) made_of;
                      acts_as = ap (λ v. v.payload.jti) made_of;
                      admin = ap (λ v. v.payload.is_admin) made_of;
                      manager = ap (λ v. v.payload.is_user_manager) made_of;
                      must_change = ap (λ v. v.payload.must_change_password) made_of;
                      capable = ap (λ v. v.payload.capabilities) made_of;
                      scopes =
                          λ s. ap (λ v. mem s v.scopes) made_of ∙ mem-parse_scopes parse t.scopes s;
                    },
                  )
            ]
      ]
