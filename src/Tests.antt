-- ===== src/Tests.antt =====
-- Runs of the definitions on concrete inputs, and uses of the theorems there.
mod Addresses
mod World
mod Plans
mod Results
mod Requests
mod Names
mod Accounts
mod Checks
mod Jobs
mod Interface
mod Publishing
