-- ===== src/Lib.antt =====
-- Verification library of openclaw-enterprise-plugin, the enterprise extension of the OpenClaw gateway.
--
-- The program is a set of services behind interfaces. A kernel (src/kernel, with the in-memory
-- backends of src/kernel-impl/memory) offers storage, queue, cache, lock and event bus; the services
-- of src/reliability, src/governance, src/collaboration and src/embedding are written against the
-- kernel's interfaces. src/audit collects events and hands them to sinks, one of them on the storage
-- and one on the event bus, and src/middleware puts identity, policy, rate limit and audit in front of
-- the handlers of requests. This library models the in-memory backends, and services on top of them.
--
--   Common                        Boolean tests, lists over the native numbers, the least element of a
--                                 list, what sorting keeps, and Dict, the insertion-ordered `Map`
--                                 of the source
--   Reliability/CircuitBreaker    src/reliability/circuit-breaker/circuit-breaker.ts
--   Reliability/StateMachine      src/reliability/state-machine/state-machine.ts
--   Reliability/Retry             src/reliability/retry/retry.ts
--   Reliability/Checkpoints       src/reliability/checkpoint/impl/storage-checkpoint.ts,
--                                 checkpoint-manager.ts
--   Reliability/DeadLetters       src/reliability/dlq/dead-letter-manager.ts
--   Reliability/Health            src/reliability/health/health-checker-impl.ts, health-checker.ts
--   Reliability/CascadeKill       src/reliability/timeout/cascade-kill.ts
--   Governance/Quota              src/governance/quota/impl/token-quota.ts, quota-manager.ts
--   Governance/Identity           src/governance/identity/impl/token-provider.ts, identity-provider.ts
--   Governance/Scopes             src/governance/authorization/impl/scope-policy.ts, policy-engine.ts
--   Governance/Rbac               src/governance/authorization/impl/rbac-policy.ts, policy-engine.ts
--   Governance/ContentFilter      src/governance/data-protection/impl/regex-classifier.ts,
--                                 content-filter.ts
--   Collaboration/TaskFsm         src/collaboration/task/task-fsm.ts and task-types.ts
--   Collaboration/Handoff         src/collaboration/handoff/impl/storage-handoff.ts, handoff-manager.ts
--   Collaboration/Workflow        src/collaboration/workflow/impl/simple-workflow.ts,
--                                 workflow-engine.ts
--   Collaboration/Knowledge       src/collaboration/knowledge/impl/storage-knowledge.ts,
--                                 knowledge-store.ts
--   Kernel/Queue                  src/kernel-impl/memory/queue.ts, src/kernel/queue.ts
--   Kernel/Lock                   src/kernel-impl/memory/lock.ts, src/kernel/lock.ts
--   Kernel/Leader                 `electLeader` of src/kernel-impl/memory/lock.ts
--   Kernel/Secret                 src/kernel-impl/memory/secret.ts
--   Kernel/Cache                  src/kernel-impl/memory/cache.ts
--   Kernel/Storage                src/kernel-impl/memory/storage.ts, src/kernel/storage.ts, types.ts
--   Kernel/EventBus               src/kernel-impl/memory/event-bus.ts, src/kernel/event-bus.ts
--   Embedding/ApiKeys             src/embedding/api-key/impl/storage-api-key.ts, api-key-manager.ts
--   Embedding/RateLimiter         src/embedding/rate-limiter/impl/memory-limiter.ts, rate-limiter.ts
--   Audit                         src/audit/audit-event.ts
--   Audit/Pipeline                src/audit/impl/memory-pipeline.ts, audit-pipeline.ts
--   Audit/StorageSink             src/audit/impl/storage-sink.ts
--   Audit/EventBusSink            src/audit/impl/eventbus-sink.ts
--   Middleware                    src/middleware/types.ts
--   Middleware/Stages             src/middleware/tenant-, authn- and authz-middleware.ts
--   Middleware/Services           src/middleware/rate-limit- and audit-middleware.ts
--
-- A class is a record of its fields (or its one map), and a method is a function with the method's name
-- in snake case that takes the state last and returns it with the result. Errors are constructors of
-- result types. The client of an interface takes it as a record of operations and laws
-- (Kernel/Storage/Interface), and the memory backend is shown to be one (Kernel/Storage/Laws); the
-- same holds of listing by pages (Kernel/Storage/Paging, and Paging/Memory for the instance).
--
-- Conventions:
--   - Dates and times are natural numbers of milliseconds. `Date.now()`, `new Date()` and generated ids
--     are arguments: a method that reads the clock twice takes two readings where they matter.
--   - Subtraction on ℕ stops at 0, so a comparison of a difference is written with the subtraction
--     moved to the other side.
--   - `async` methods are one step where they await nothing; where one awaits another between a read
--     and a write, its halves are separate functions too, so that overlapping calls can be stated.
--   - The values in one storage or cache are of one type; payloads that no operation looks into are
--     texts. A callback of a caller is a parameter; where it may call back or throw in the middle of
--     an operation (the event bus, the cascade of timeouts), the parameter says so.
--   - Loops over maps and arrays are structural recursion. The waiting loop of the lock takes the list
--     of its turns, each with its readings of the clock and what others do in between. The loop of
--     `withRetry` runs on the number of attempts that are left, which is all it may make. The loops
--     over pages run on fuel: as many turns as there are entries, and one more, are enough for pages
--     of any size but zero. `executeStep`, which calls itself, runs on the number of steps and one
--     more; the run then waits for a signal or has ended. The filter's loop over matches takes a turn
--     for each position of the text and one more.
--   - A middleware is what it does before it calls `next`, and what it does with the end of that call.
--
-- Not modelled: the Redis and PostgreSQL backends, containers, the OIDC provider, HTTP routes, the
-- sinks that write lines or HTTP requests, and metrics; they only call systems that are not in the
-- repository, or translate between interfaces. The selection of backends at the start has logic of its
-- own and is not covered here. Of the modelled classes, the listeners of the circuit breaker, and
-- `subscribe` and the timer of the queue are left out.
pub mod Common
pub mod Reliability
pub mod Collaboration
pub mod Kernel
pub mod Embedding
pub mod Governance
pub mod Audit
pub mod Middleware
