-- ===== src/Lib.antt =====
-- FuelTrack EA: the core of a platform that follows the fuel in the tanks of many tenants
-- (packages/core/src). Probes and people send dips of a tank; the platform turns each into a
-- reading, keeps the readings as a ledger, detects deliveries and losses, raises alerts, and has
-- people decide on what it detected.
--
-- The parts and their files.
--   Base, Runtime, Errors, Effect: Booleans, lists, dictionaries, integers, fractions and text; the
--     JavaScript runtime (clock, random identifiers, Date, number formatting, hashing, acos, sqrt) as
--     a record that every definition using it takes; errors.ts; and methods that read and write the
--     store and may throw, as functions from a state to a result and a state. What was written before
--     a throw stays written.
--   Domain/*: packages/core/src/domain/*.ts, a module for each file. Ids is types/ids.ts.
--   Tenancy/*: tenancy/guard.ts, scopes.ts, rate-limit.ts, api-key.ts and
--     credential-health.ts of packages/core/src. A promise that is in flight is a flag, and its then
--     and finally are events.
--   Memory and Memory/*: packages/core/src/adapters/memory. The store is a record of dictionaries in
--     the order of insertion; a World is the store with the numbers of clock readings and of
--     identifiers drawn so far. Memory/Stations and Memory/Tanks are memory-fleet-repositories.ts,
--     Memory/Devices and Memory/Assignments memory-device-repositories.ts, Memory/Events and
--     Memory/Deliveries memory-event-repositories.ts, Memory/RawMessages and Memory/AuditLogs
--     memory-audit-repository.ts,
--     Memory/Tenants memory-repositories.ts, Memory/ApiKeys memory-api-key-registry.ts (a registry of
--     its own, beside the store), and the others the file of their name.
--   Prisma and Prisma/*: packages/core/src/adapters/prisma. Prisma and the modules Stations, Tanks,
--     Readings, Devices, Alerts, Events, Deliveries and Audit are mappers.ts, with the rows and inputs
--     as records and a JSON column as a tree. Prisma/Migrations is migrate.ts, with the table of the
--     bookkeeping as a list of rows and the SQL of a file as what the driver answers to it.
--   Reporting/ReportTable: packages/core/src/reporting/report-table.ts. Its module Reader is a CSV
--     reader of its own, to read the exports by.
--   Api/Auth, Api/Auth/Header, Api/Errors: auth.ts and errors.ts of packages/api/src.
--   Alerts/Engine, Alerts/Selection: packages/core/src/alerts/alert-engine.ts.
--   Events/Detection: packages/core/src/events/detection.ts.
--   Services/Devices, Services/Events, Services/Fleet, Services/Sweep: device-service.ts,
--     event-service.ts, fleet-service.ts and alert-sweep-service.ts of packages/core/src/services.
--     Services/Ingest, Services/Sources and Services/Rules are ingest-service.ts: the way in, the
--     device of a sample and its payload, and runRules, which the sweep calls too.
--     Services/Ledger and its modules say what a single write leaves of the readings.
--   Services/Audit, Services/Dashboard: audit-service.ts and dashboard-service.ts of the same folder.
--   Services/Calls: the calls that the API makes for a tenant, and sequences of them.
-- A function keeps the source's name in snake_case; a long method has its guards, its values and its
-- writes as definitions of their own, composed in the source's order.
--
-- How the parts interact. A service reads and writes through the repositories of one tenant, which
-- guard each write by the entity's tenant and store it under the key tenant:id; an entry of the audit
-- log stands under its id alone. Services/Writes states
-- once what a relation between states needs to admit those writes, and the Moves module of each
-- service that its operations are made of them, so that an invariant or an isolation is shown for
-- single writes and holds for all operations.
--
-- Choices. Litres, levels and percents are exact fractions: the rounding that the program does itself
-- is modelled, that of binary floating point is not. Times are the texts of the source, read by the
-- runtime's date_parse, whose failure is NaN; a number that is not finite is none. Limits of pages are
-- whole and not negative. cloneEntity has nothing to do on values. The search for a level takes the
-- source's 60 halvings. Loops are recursion on their lists; the one that strips a repeated prefix off a
-- secret has the length of the secret as its fuel. A column of an enum of the database schema is that
-- enum, a database date is the milliseconds of its instant, and the evidence and the geometry that a
-- JSON column holds are read field by field where the source takes the column unseen. The queries on
-- the bookkeeping of the migrations succeed, but for the record of a failure. What String writes for a
-- whole number and what Number reads of a decimal, where a round trip needs them, are hypotheses on the
-- runtime that Domain/Quantity/Decimal spells out; that randomUUID gives no text twice and none with a
-- colon is one too.
--
-- Not modelled: logging; the summary of the dashboard and the reports, which only read for display;
-- the routes of the HTTP layer; the zod schemas, whose validated inputs the services take; the Prisma
-- repositories, which call a generated client; the files that the migrations are read from; the
-- simulator, the web interface and the scripts.
pub mod Base
pub mod Runtime
pub mod Domain
pub mod Errors
pub mod Effect
pub mod Ids
pub mod Tenancy
pub mod Memory
pub mod Prisma
pub mod Alerts
pub mod Events
pub mod Services
pub mod Reporting
pub mod Api
pub mod Tests
