-- ===== src/Guards.antt =====
-- What protects the server: the rate limiter, and the retries of the database's start.
pub mod RateLimit
pub mod SqliteRetry
