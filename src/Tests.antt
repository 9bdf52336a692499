-- ===== src/Tests.antt =====
-- Concrete inputs, and runs of the theorems on them.
mod Data
mod Decisions
mod Ordering
mod Combining
mod Loading
mod Sinks
mod Profiles
mod Audits
mod Rules
mod Matching
mod Settings
mod Handlers
mod Servers
mod Startups
mod Shutdowns
