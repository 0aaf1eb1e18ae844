-- ===== src/Examples.antt =====
-- Runs of the model at concrete inputs.
mod Fixtures
mod Plans
mod Chains
mod Rebuilds
mod Teardowns
mod Suggestions
mod Orders
mod Unloads
mod Locks
mod Names
mod Totals
mod Reaps
mod Loads
mod Attaches
