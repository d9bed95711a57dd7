-- ===== src/Auth.antt =====
-- internal/auth: passwords and tokens.
pub mod Password
pub mod Tokens
pub mod TokenLaws
pub mod Samples
mod Tests
