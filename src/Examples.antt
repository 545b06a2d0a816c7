-- ===== src/Examples.antt =====
-- Runs of the program's parts on concrete inputs, and the theorems at such inputs.
mod Breakers
mod Switches
mod Logs
mod Lifecycles
mod Tokens
mod Executions
mod Ledgers
mod Decisions
mod Schedules
mod Arbitrations
mod Guards
mod Experiments
mod Evidences
