-- ===== src/Auth/Logout.antt =====
-- What `authenticateSession` grants, and that a logged-out token is never accepted again although
-- the blacklist forgets it after seven days.
use home_server_interface.Base.{
  ℕ, ◌+◌, ◌/◌, ◌≤◌, ◌<◌, Bool, true, false, not, List, [], ◌∷◌, Option, none, some, String, ◌≡◌,
  refl, inl, inr, Result, ok, err, concat, starts_with-concat, slice_from-concat, truthy, arith,
  Option-cases, retain, leb, lookup, All, Unique, lookup-insert, lookup-retain, eq_refl, str_eq,
  ◌>>=◌, get_or, Bool-cases, ◌↔◌, dec_lt, ◌||◌, sym, ap,
}
use home_server_interface.Auth.Tokens.{Claims, Jwt, session_seconds, sign_token}
use home_server_interface.Auth.Session.{
  CurrentUser, TokenPayload, current_payload, authenticate_session, checked_ids,
}
use home_server_interface.Auth.Blacklist.{
  Blacklist, blacklist_ttl_ms, blacklist_token, is_token_blacklisted, blacklist_all,
  blacklist_token-Unique,
}

module _ (jwt : Jwt) (secret : String) {E : Type 0}
    (load_current_user : String → Result E (Option CurrentUser)) where
  -- All that stands behind a granted session: a verified payload with no purpose, its user and
  -- token ids, not blacklisted, and the rights that the user's record has now.
  pub record Grants (blacklist : Blacklist) (now : ℕ) (token : String) (p : TokenPayload)
      : Type 0 where
    pub claims : Claims
    pub user : CurrentUser
    pub verified : jwt.verify token secret now ≡ some claims
    pub no_purpose : truthy claims.purpose ≡ false
    pub user_id : claims.user_id ≡ some p.user_id
    pub user_named : str_eq p.user_id "" ≡ false
    pub jti : claims.jti ≡ some p.jti
    pub jti_named : str_eq p.jti "" ≡ false
    pub listed : is_token_blacklisted p.jti blacklist ≡ false
    pub loaded : load_current_user p.user_id ≡ ok (some user)
    pub admin : p.is_admin ≡ user.is_admin
    pub manager : p.is_user_manager ≡ (user.is_admin || user.is_user_manager)
    pub must_change : p.must_change_password ≡ user.must_change_password
    pub capable : p.capabilities ≡ user.capabilities

  payload_of_rights :
      (p : TokenPayload) (u : CurrentUser)
      → p.is_admin ≡ u.is_admin
      → p.is_user_manager ≡ (u.is_admin || u.is_user_manager)
      → p.must_change_password ≡ u.must_change_password
      → p.capabilities ≡ u.capabilities
      → current_payload p.user_id p.jti (some u) ≡ some p
  unfolding current_payload
  payload_of_rights p u admin manager must capable i = some (record {
    user_id = p.user_id;
    jti = p.jti;
    is_admin = sym admin i;
    is_user_manager = sym manager i;
    must_change_password = sym must i;
    capabilities = sym capable i;
  })

  rights_of_payload :
      (user_id jti : String) (u : CurrentUser) (p : TokenPayload)
      → current_payload user_id jti (some u) ≡ some p
      → (p.is_admin ≡ u.is_admin)
        × (p.is_user_manager ≡ (u.is_admin || u.is_user_manager))
        × (p.must_change_password ≡ u.must_change_password)
        × (p.capabilities ≡ u.capabilities)
  unfolding current_payload
  rights_of_payload user_id jti u p e =
      let same = sym (ap (λ o. get_or o p) e) in
      (
        ap (λ q. q.is_admin) same,
        ap (λ q. q.is_user_manager) same,
        ap (λ q. q.must_change_password) same,
        ap (λ q. q.capabilities) same,
      )

  Grants→authenticate_session :
      (blacklist : Blacklist) (now : ℕ) (token : String) (p : TokenPayload)
      → Grants blacklist now token p
      → authenticate_session jwt secret load_current_user blacklist now
          (some (concat "Bearer " token))
        ≡ ok (some p)
  unfolding authenticate_session
  Grants→authenticate_session blacklist now token p g =
      let rights = payload_of_rights p g.user g.admin g.manager g.must_change g.capable in
      rw (starts_with-concat "Bearer " token, slice_from-concat "Bearer " token, g.verified)
        (ground (arith, rights))

  authenticate_session→Grants :
      (blacklist : Blacklist) (now : ℕ) (token : String) (p : TokenPayload)
      → authenticate_session jwt secret load_current_user blacklist now
          (some (concat "Bearer " token))
        ≡ ok (some p)
      → Grants blacklist now token p
  unfolding authenticate_session
  authenticate_session→Grants blacklist now token p h =
      let h' = rw (starts_with-concat "Bearer " token, slice_from-concat "Bearer " token) at h in
      elim (Option-cases (jwt.verify token secret now)) [
        | inl bad ↦ absurd (ground arith)
        | inr (c, good) ↦ granted c good (ground arith)
      ]
    where
      user_of :
          (c : Claims) (r : Result E (Option CurrentUser))
          → (r >>= λ user. ok (current_payload (get_or c.user_id "") (get_or c.jti "") user))
            ≡ ok (some p)
          → (u : CurrentUser) × (r ≡ ok (some u))
            × (current_payload (get_or c.user_id "") (get_or c.jti "") (some u) ≡ some p)
      user_of c (ok (some u)) e = (u, refl, ground arith)
      user_of c (ok none) e = absurd (ground arith)
      user_of c (err e) x = absurd (ground arith)

      granted :
          (c : Claims)
          → jwt.verify token secret now ≡ some c
          → (truthy c.purpose ≡ false)
            × (truthy c.user_id ≡ true)
            × (truthy c.jti ≡ true)
            × (is_token_blacklisted (get_or c.jti "") blacklist ≡ false)
            × ((load_current_user (get_or c.user_id "") >>= λ user.
                  ok (current_payload (get_or c.user_id "") (get_or c.jti "") user))
                ≡ ok (some p))
          → Grants blacklist now token p
      granted c good (no_purpose, uid, jti, listed, loaded) =
          let (u, found, rights) = user_of c (load_current_user (get_or c.user_id "")) loaded in
          let (admin, manager, must, capable) =
            rights_of_payload (get_or c.user_id "") (get_or c.jti "") u p rights in
          record {
            claims = c;
            user = u;
            verified = good;
            no_purpose = no_purpose;
            user_id = ground arith;
            user_named = ground arith;
            jti = ground arith;
            jti_named = ground arith;
            listed = ground arith;
            loaded = ground arith;
            admin = admin;
            manager = manager;
            must_change = must;
            capable = capable;
          }

  -- `authenticateSession` grants a payload exactly when the token verifies to claims without a
  -- purpose whose user and token ids are not empty, the token is not blacklisted, the user still
  -- exists, and the payload's rights are those of the user's present record.
  pub authenticate_session_iff :
      (blacklist : Blacklist) (now : ℕ) (token : String) (p : TokenPayload)
      → (authenticate_session jwt secret load_current_user blacklist now
            (some (concat "Bearer " token))
          ≡ ok (some p))
        ↔ Grants blacklist now token p
  authenticate_session_iff blacklist now token p = (
    authenticate_session→Grants blacklist now token p,
    Grants→authenticate_session blacklist now token p,
  )

-- The entry of a logged-out token outlasts `bound` in the blacklist.
abbrev Kept : String → ℕ → Blacklist → Type 0
Kept jti bound blacklist = (until : ℕ) × (lookup jti blacklist ≡ some until) × (bound ≤ until)

blacklist_token-Kept :
    (jti other : String) (bound now : ℕ) (blacklist : Blacklist)
    → Unique blacklist
    → now < bound
    → bound ≤ now + blacklist_ttl_ms
    → Kept jti bound blacklist
    → Kept jti bound (blacklist_token other now blacklist)
unfolding blacklist_token
blacklist_token-Kept jti other bound now blacklist u lt renewed (until, found, le) =
    let p : ℕ → Bool = λ until. not (leb until now) in
    elim (Bool-cases (str_eq other jti)) [
      | inl same ↦ (
        now + blacklist_ttl_ms,
        ground (arith, lookup-insert other jti (now + blacklist_ttl_ms) (retain p blacklist)),
        renewed,
      )
      | inr differ ↦ (
        until,
        ground (
          arith,
          lookup-insert other jti (now + blacklist_ttl_ms) (retain p blacklist),
          lookup-retain p jti blacklist u,
        ),
        le,
      )
    ]

blacklist_all-Kept :
    (jti : String) (bound : ℕ) (ops : List (String × ℕ)) (blacklist : Blacklist)
    → Unique blacklist
    → All (λ op. (op.1 < bound) × (bound ≤ op.1 + blacklist_ttl_ms)) ops
    → Kept jti bound blacklist
    → Kept jti bound (blacklist_all ops blacklist)
blacklist_all-Kept jti bound [] blacklist u times k = k
blacklist_all-Kept jti bound ((other, now) ∷ ops) blacklist u times k =
    blacklist_all-Kept jti bound ops (blacklist_token other now blacklist)
      (blacklist_token-Unique other now blacklist u) times.1
      (blacklist_token-Kept jti other bound now blacklist u times.0.0 times.0.1 k)

blacklist_token-Kept_self :
    (jti : String) (now : ℕ) (blacklist : Blacklist)
    → Kept jti (now + blacklist_ttl_ms) (blacklist_token jti now blacklist)
unfolding blacklist_token
blacklist_token-Kept_self jti now blacklist =
    let p : ℕ → Bool = λ until. not (leb until now) in
    (
      now + blacklist_ttl_ms,
      ground
          (arith, eq_refl jti, lookup-insert jti jti (now + blacklist_ttl_ms) (retain p blacklist)),
      omega arith,
    )

within :
    (out now : ℕ) (ops : List (String × ℕ))
    → now < out + blacklist_ttl_ms
    → All (λ op. (out ≤ op.1) × (op.1 ≤ now)) ops
    → All
        (λ op. (op.1 < out + blacklist_ttl_ms) × (out + blacklist_ttl_ms ≤ op.1 + blacklist_ttl_ms))
        ops
within out now [] early times = tt
within out now (op ∷ ops) early times =
    ((omega arith, omega arith), within out now ops early times.1)

module _ (jwt : Jwt) (secret : String) {E : Type 0}
    (load_current_user : String → Result E (Option CurrentUser)) where
  rejected :
      (blacklist : Blacklist) (now : ℕ) (token : String)
      → jwt.verify token secret now ≡ none
      → authenticate_session jwt secret load_current_user blacklist now
          (some (concat "Bearer " token))
        ≡ ok none
  unfolding authenticate_session
  rejected blacklist now token bad =
      rw (starts_with-concat "Bearer " token, slice_from-concat "Bearer " token, bad, checked_ids)

  listed-rejected :
      (blacklist : Blacklist) (now : ℕ) (token jti : String)
      → ((c : Claims) → jwt.verify token secret now ≡ some c → c.jti ≡ some jti)
      → is_token_blacklisted jti blacklist ≡ true
      → authenticate_session jwt secret load_current_user blacklist now
          (some (concat "Bearer " token))
        ≡ ok none
  unfolding authenticate_session
  listed-rejected blacklist now token jti payload listed =
      rw (starts_with-concat "Bearer " token, slice_from-concat "Bearer " token)
        (elim (Option-cases (jwt.verify token secret now)) [
          | inl bad ↦ ground arith
          | inr (c, good) ↦ ground (arith, payload c good)
        ])

  Kept→listed :
      (jti : String) (bound : ℕ) (blacklist : Blacklist)
      → Kept jti bound blacklist
      → is_token_blacklisted jti blacklist ≡ true
  unfolding is_token_blacklisted
  Kept→listed jti bound blacklist (until, found, le) = rw found

  -- A session token signed at `at` and logged out at `out` is refused at every later time `now`,
  -- whatever other logouts come in between and prune the blacklist. Assumed of `jwt.verify`: the
  -- payload is the signed one, and a token is refused once its lifetime has passed, counted in
  -- whole seconds.
  pub authenticate_session-blacklist_token :
      (user_id jti : String) (is_admin is_user_manager : Bool) (capabilities : List String)
      (must_change_password : Bool) (at out now : ℕ) (ops : List (String × ℕ))
      (blacklist : Blacklist) (token : String)
      → token
        ≡ sign_token jwt secret user_id is_admin is_user_manager capabilities must_change_password
            jti at
      → ((c : Claims) → jwt.verify token secret now ≡ some c → c.jti ≡ some jti)
      → (at / 1000 + session_seconds ≤ now / 1000 → jwt.verify token secret now ≡ none)
      → Unique blacklist
      → at ≤ out
      → All (λ op. (out ≤ op.1) × (op.1 ≤ now)) ops
      → authenticate_session jwt secret load_current_user
          (blacklist_all ops (blacklist_token jti out blacklist))
          now
          (some (concat "Bearer " token))
        ≡ ok none
  authenticate_session-blacklist_token user_id jti a m cs q at out now ops blacklist token signed
        payload expiry u le times =
      let blacklist' : Blacklist = blacklist_all ops (blacklist_token jti out blacklist) in
      elim (dec_lt now (out + blacklist_ttl_ms)) [
        | yes early ↦ listed-rejected blacklist' now token jti payload (
            Kept→listed jti (out + blacklist_ttl_ms) blacklist' (
              blacklist_all-Kept jti (out + blacklist_ttl_ms) ops
                (blacklist_token jti out blacklist) (blacklist_token-Unique jti out blacklist u)
                (within out now ops early times) (blacklist_token-Kept_self jti out blacklist)))
        | no late ↦ rejected blacklist' now token (expiry (omega arith))
      ]
