-- ===== src/Tests.antt =====
-- The theorems of the components at concrete inputs.
mod Pricing
mod Plans
mod Executor
mod Jobs
mod Factors
mod Bytes
mod Deliveries
mod Repricing
mod Sessions
mod Clients
mod Migrations
