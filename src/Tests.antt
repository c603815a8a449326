-- ===== src/Tests.antt =====
-- Runs of the program on concrete inputs.
mod Samples
mod Calls
mod Decisions
mod Rules
mod Alerting
mod Credentials
mod Prisma
mod Ledger
mod Migrations
mod Api
mod Views
