-- ===== src/Auth.antt =====
-- Authentication and authorization of the backend (apps/backend/src/trpc): the signed tokens and
-- the logout blacklist of auth.ts, the session check of session.ts, the procedure guards of
-- index.ts, and the login and logout handlers of routers/auth.ts.
pub mod Counts
pub mod Tokens
pub mod Purposes
pub mod Blacklist
pub mod Session
pub mod Logout
pub mod Procedures
pub mod Guards
pub mod Login
pub mod Attempts
mod Tests
