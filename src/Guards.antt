-- ===== src/Guards.antt =====
-- The guards of the backend: the circuit breaker of the clients of the KMS and of Vault
-- (backend/internal/platform/breaker) and the rate limit (backend/internal/http/ratelimit).
-- An instant counts nanoseconds since the epoch, a duration nanoseconds.
pub mod Breaker
pub mod RateLimit
mod Examples
