-- ===== src/Tests.antt =====
-- A small bank, runs of the services on it, and the theorems at concrete inputs.
mod Sample
mod Reversals
mod Transfers
mod Money
mod Schedules
mod Keys
mod Auth
mod Admin
mod Portal
