-- ===== src/Auth/Blacklist.antt =====
-- apps/backend/src/trpc/auth.ts: the in-memory blacklist of logged-out tokens.
use home_server_interface.Base.{
  ℕ, ◌+◌, ◌*◌, Bool, not, List, [], ◌∷◌, String, has, insert, retain, leb, Unique, insert-Unique,
  retain-Unique,
}

abbrev pub blacklist_ttl_ms : ℕ
blacklist_ttl_ms = 7 * 24 * 60 * 60 * 1000

-- From a token's id to the time until which it is kept.
abbrev pub Blacklist : Type 0
Blacklist = List (String × ℕ)

unfoldable pub blacklist_token : String → ℕ → Blacklist → Blacklist
blacklist_token jti now blacklist =
    insert jti (now + blacklist_ttl_ms) (retain (λ until. not (leb until now)) blacklist)

unfoldable pub is_token_blacklisted : String → Blacklist → Bool
is_token_blacklisted jti blacklist = has jti blacklist

-- The logouts of some tokens at some times.
abbrev pub blacklist_all : List (String × ℕ) → Blacklist → Blacklist
blacklist_all [] blacklist = blacklist
blacklist_all ((jti, now) ∷ rest) blacklist = blacklist_all rest (blacklist_token jti now blacklist)

pub blacklist_token-Unique :
    (jti : String) (now : ℕ) (blacklist : Blacklist)
    → Unique blacklist
    → Unique (blacklist_token jti now blacklist)
unfolding blacklist_token
blacklist_token-Unique jti now blacklist u =
    insert-Unique jti (now + blacklist_ttl_ms) (retain (λ until. not (leb until now)) blacklist)
      (retain-Unique (λ until. not (leb until now)) blacklist u)
