-- ===== src/Auth/Purposes.antt =====
-- Each signed token of auth.ts opens only what it was minted for.
use home_server_interface.Base.{
  ℕ, Bool, true, false, List, Option, none, some, String, ◌≡◌, refl, ◌⊎◌, inl, inr, Result, ok, err,
  concat, starts_with-concat, slice_from-concat, truthy, arith, Option-cases, ◌∙◌, ap, ◌≢◌, ◌↔◌,
}
use home_server_interface.Auth.Tokens.{
  Claims, Jwt, session_claims, setup_claims, file_claims, wallpaper_claims, share_claims,
  sign_token, sign_setup_session, verify_setup_session, sign_file_token, verify_file_token,
  sign_wallpaper_token, verify_wallpaper_token, sign_share_token, verify_share_token,
}
use home_server_interface.Auth.Session.{
  CurrentUser, TokenPayload, authenticate_session, checked_ids,
}
use home_server_interface.Auth.Blacklist.{Blacklist}

-- What a token was minted for, with what its `sign` function was given.
pub data Minted : Type 0 where
  session : String → Bool → Bool → List String → Bool → String → Minted
  setup : String → Minted
  file : String → String → Minted
  wallpaper : String → Minted
  share : String → Minted

abbrev pub claims_of : Minted → Claims
claims_of (session u a m cs p jti) = session_claims u a m cs p jti
claims_of (setup jti) = setup_claims jti
claims_of (file u p) = file_claims u p
claims_of (wallpaper u) = wallpaper_claims u
claims_of (share l) = share_claims l

pub data Purpose : Type 0 where
  for_session for_setup for_file for_wallpaper for_share : Purpose

abbrev pub purpose_of : Minted → Purpose
purpose_of (session u a m cs p jti) = for_session
purpose_of (setup jti) = for_setup
purpose_of (file u p) = for_file
purpose_of (wallpaper u) = for_wallpaper
purpose_of (share l) = for_share

module _ (jwt : Jwt) (secret : String) where
  unfoldable pub mint : Minted → ℕ → String
  unfolding sign_token sign_setup_session sign_file_token sign_wallpaper_token sign_share_token
  mint (session u a m cs p jti) now = sign_token jwt secret u a m cs p jti now
  mint (setup jti) now = sign_setup_session jwt secret jti now
  mint (file u p) now = sign_file_token jwt secret u p now
  mint (wallpaper u) now = sign_wallpaper_token jwt secret u now
  mint (share l) now = sign_share_token jwt secret l now

  abbrev is_ok {ℓ} : {E : Type 0} {A : Type ℓ} → Result E A → Bool
  is_ok (ok a) = true
  is_ok (err e) = false

  abbrev is_session : {E : Type 0} → Result E (Option TokenPayload) → Bool
  is_session (ok none) = false
  is_session (ok (some p)) = true
  is_session (err e) = false

  -- The check that guards each purpose; a session is checked with the whole `authenticateSession`
  -- of the header that carries the token.
  unfoldable pub accepts :
      {E : Type 0} (load : String → Result E (Option CurrentUser)) (blacklist : Blacklist)
      → Purpose
      → String
      → ℕ
      → Bool
  unfolding authenticate_session verify_setup_session verify_file_token verify_wallpaper_token
      verify_share_token
  accepts load blacklist for_session token now =
      is_session
        (authenticate_session jwt secret load blacklist now (some (concat "Bearer " token)))
  accepts load blacklist for_setup token now = is_ok (verify_setup_session jwt secret token now)
  accepts load blacklist for_file token now = is_ok (verify_file_token jwt secret token now)
  accepts load blacklist for_wallpaper token now =
      is_ok (verify_wallpaper_token jwt secret token now)
  accepts load blacklist for_share token now = is_ok (verify_share_token jwt secret token now)

  -- What a rejected or foreign payload leaves of the checks.
  opens-nothing :
      {E : Type 0} (load : String → Result E (Option CurrentUser)) (blacklist : Blacklist)
      (p : Purpose) (token : String) (now : ℕ)
      → jwt.verify token secret now ≡ none
      → accepts load blacklist p token now ≡ false
  unfolding accepts
  opens-nothing load blacklist for_session token now h =
      rw (starts_with-concat "Bearer " token, slice_from-concat "Bearer " token, h, checked_ids)
  opens-nothing load blacklist for_setup token now h = rw h
  opens-nothing load blacklist for_file token now h = rw h
  opens-nothing load blacklist for_wallpaper token now h = rw h
  opens-nothing load blacklist for_share token now h = rw h

  bearer_of :
      {E : Type 0} (load : String → Result E (Option CurrentUser)) (blacklist : Blacklist)
      (c : Claims) (token : String) (now : ℕ)
      → jwt.verify token secret now ≡ some c
      → truthy c.purpose ≡ true ⊎ (truthy c.user_id ≡ false) ⊎ (truthy c.jti ≡ false)
      → accepts load blacklist for_session token now ≡ false
  unfolding accepts
  bearer_of load blacklist c token now h bad =
      rw (starts_with-concat "Bearer " token, slice_from-concat "Bearer " token, h) (ground arith)

  opens-only :
      {E : Type 0} (load : String → Result E (Option CurrentUser)) (blacklist : Blacklist)
      (m : Minted) (p : Purpose) (token : String) (now : ℕ)
      → jwt.verify token secret now ≡ some (claims_of m)
      → accepts load blacklist p token now ≡ true
      → p ≡ purpose_of m
  unfolding accepts
  opens-only load blacklist (session u a n cs q jti) for_session token now h e = refl
  opens-only load blacklist (setup jti) for_setup token now h e = refl
  opens-only load blacklist (file u q) for_file token now h e = refl
  opens-only load blacklist (wallpaper u) for_wallpaper token now h e = refl
  opens-only load blacklist (share l) for_share token now h e = refl
  opens-only load blacklist (setup jti) for_session token now h e =
      let no_session = bearer_of load blacklist (setup_claims jti) token now h (inl refl) in cc
  opens-only load blacklist (file u q) for_session token now h e =
      let no_session = bearer_of load blacklist (file_claims u q) token now h (inr (inr refl)) in cc
  opens-only load blacklist (wallpaper u) for_session token now h e =
      let no_session = bearer_of load blacklist (wallpaper_claims u) token now h (inr (inr refl)) in
      cc
  opens-only load blacklist (share l) for_session token now h e =
      let no_session = bearer_of load blacklist (share_claims l) token now h (inr (inl refl)) in cc
  opens-only load blacklist m p token now h e = ground arith

  -- A token passes no check but the one of its own kind: session, first-run setup, file,
  -- wallpaper or share. Assumed of `jwt.verify`: if it accepts the token, the payload is the one
  -- that was signed.
  pub accepts-mint :
      {E : Type 0} (load : String → Result E (Option CurrentUser)) (blacklist : Blacklist)
      (m : Minted) (at now : ℕ)
      → ((c : Claims) → jwt.verify (mint m at) secret now ≡ some c → c ≡ claims_of m)
      → (p : Purpose) → accepts load blacklist p (mint m at) now ≡ true
      → p ≡ purpose_of m
  accepts-mint load blacklist m at now verified p e =
      elim (Option-cases (jwt.verify (mint m at) secret now)) [
        | inl bad ↦ let none_opened = opens-nothing load blacklist p (mint m at) now bad in cc
        | inr (c, good) ↦
            opens-only load blacklist m p (mint m at) now (good ∙ ap some (verified c good)) e
      ]

  opens-own :
      {E : Type 0} (load : String → Result E (Option CurrentUser)) (blacklist : Blacklist)
      (m : Minted) (token : String) (now : ℕ)
      → jwt.verify token secret now ≡ some (claims_of m)
      → purpose_of m ≢ for_session
      → accepts load blacklist (purpose_of m) token now ≡ true
  unfolding accepts
  opens-own load blacklist (session u a n cs q jti) token now h no_session =
      absurd (no_session refl)
  opens-own load blacklist m token now h no_session = ground arith

  -- While `jwt.verify` returns its signed payload, a token that is no session token passes the
  -- check of its own kind and no other.
  accepts-mint_iff :
      {E : Type 0} (load : String → Result E (Option CurrentUser)) (blacklist : Blacklist)
      (m : Minted) (at now : ℕ)
      → jwt.verify (mint m at) secret now ≡ some (claims_of m)
      → purpose_of m ≢ for_session
      → (p : Purpose) → (accepts load blacklist p (mint m at) now ≡ true) ↔ (p ≡ purpose_of m)
  accepts-mint_iff load blacklist m at now verified no_session p = (
    opens-only load blacklist m p (mint m at) now verified,
    λ e. rw e (opens-own load blacklist m (mint m at) now verified no_session),
  )
