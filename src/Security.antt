-- ===== src/Security.antt =====
-- bounded_contexts/account_security: counting failed logins, the second factor, and passkeys.
pub mod Throttle
pub mod Totp
pub mod Passkeys
