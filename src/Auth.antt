-- ===== src/Auth.antt =====
-- backend/internal/auth and the part of backend/internal/api that signs in, signs out and lets in.
pub mod Throttle
pub mod Jwt
pub mod Session
