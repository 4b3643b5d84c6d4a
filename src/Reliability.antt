-- ===== src/Reliability.antt =====
-- src/reliability: breaker, retries, state machine, checkpoints, timeouts, dead letters and health.
pub mod CircuitBreaker
pub mod StateMachine
pub mod Retry
pub mod Checkpoints
pub mod CascadeKill
pub mod DeadLetters
pub mod Health
