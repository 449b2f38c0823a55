-- ===== src/Auth.antt =====
-- apps/api/src/services/auth and apps/api/src/routes/auth.ts: sessions of the accounts.
pub mod Tokens
pub mod Table
pub mod Spent
pub mod Model
pub mod Keys
pub mod Refinement
pub mod Routes
pub mod Answers
pub mod Signup
