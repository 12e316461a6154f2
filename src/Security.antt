-- ===== src/Security.antt =====
-- app/security and app/services/auth_service.py: passwords, tokens and roles. A text that is taken
-- apart stands here as the list of its code points, and bytes as a list of numbers.
pub mod Split
pub mod Base64
pub mod Crypto
pub mod Tokens
pub mod Passwords
pub mod Access
pub mod Login
