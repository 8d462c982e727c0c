-- ===== src/Examples.antt =====
-- Runs of the code on small inputs: each shows an input at which a theorem's conditions hold.
mod Texts
mod Tasks
mod Runs
mod Suite
mod Sequential
mod Events
mod History
mod Documents
mod Requests
mod Steps
mod Schedules
mod Plans
mod Tests
