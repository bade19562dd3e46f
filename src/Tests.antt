-- ===== src/Tests.antt =====
-- Runs of the model on concrete inputs, and each theorem that has hypotheses at an input that meets
-- them.
mod NonceCache
mod Allowlist
mod Gate
mod Slo
mod Change
mod AuditLimiter
mod Observation
mod Health
mod Scheduler
mod Frame
mod Limiters
mod Planning
