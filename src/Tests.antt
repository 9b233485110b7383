-- ===== src/Tests.antt =====
-- The theorems at concrete inputs.
mod Numbers
mod Fixtures
mod Selection
mod Resolving
mod Databases
mod Ownership
mod Brokers
mod Unary
mod Callbacks
mod Starting
mod Exchanges
mod Runs
mod Lifecycles
mod Copies
mod Using
