-- ===== src/Embedding.antt =====
-- src/embedding: the rate limiter and the API keys.
pub mod RateLimiter
pub mod ApiKeys
