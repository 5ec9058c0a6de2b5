-- ===== src/Lib.antt =====
-- A verification of go-web-service, the reference web service of organizations and their documents.
--
-- The program is two domains over a shared data package. The organization domain keeps the tree of
-- organizations in the table `organization`, and their logos. The document domain keeps, for each
-- organization, a hierarchy of directories and files beneath a document root. Rows of the file tree
-- are blobfs's, rows of the service's own tables are written by authored SQL, and each command runs
-- in one transaction with the outbox's write of the events that it raises.
--
-- Parts and files:
--   Prelude: Boolean tests, lists over native numbers, and Go's errors as trees, with errors.Is,
--     errors.As and errors.Join.
--   Data/Status (data/status.go): Status and requestDetail, the answer to an error.
--   Data/Seeds (data/seed.go): NewSeeder, Seed and readSeed. Data/Directives (data/directives.go): the
--     lowering of a request's query, Read, ReadListing and Paging.
--   Data/Storage (data/storage.go): Serve, PutObject, timedOut and the body's reader.
--   Database (data/migrations): the shared state: the tables, blobfs's rows of a type `Tree` and the
--     outbox. Database/Transactions has the code that runs in a transaction, as state passing with
--     errors; Database/Engine has sqlate's Transact and the recorder's Emit, as parameters with laws.
--   Organization/Entities and Code (domain/organization/entities.go): the commands' validation.
--   Organization/Schema and Statements (data/migrations and domain/organization/statements): the
--     table's constraints and what each statement does to the rows.
--   Organization/Store (domain/organization/database.go, messaging.go): create, edit, transfer and
--     delete, with raiseStored. Organization/Store/Registry has their abstract view, a registry of
--     rows by id. Organization/Seed: seed.Apply and seedOne.
--   Organization/Logos (domain/organization/storage.go): putLogo, logo, deleteLogo and their steps.
--     Organization/Logos/Seeds: logoSeed.Write and seedLogo.
--   Organization/Forest and Table: the tree's invariant and the table's.
--   Organization/Service (domain/organization/service.go, handler.go): validation before the store.
--     Organization/Handler (handler.go): the routes that change an organization, over Sdk (sdk/web.go),
--     the inputs of a guarded command. Organization/Reads (database.go, service.go, handler.go): the
--     list, the read by id and the lookup by path. Organization/LogoRoutes: the logo's routes.
--   Blobfs: the library of the file tree, as a parameter: its steps and its protocols.
--   Document/Entities (domain/document/entities.go): commands, validation and event data.
--   Document/Store (domain/document/storage.go, database.go, messaging.go): the scope checks; Roots
--     has ensureRoot and writable, Directories and Files the operations, Listings the listings, Present
--     the presentation.
--   Document/Seeds (domain/document/storage.go): the seed of a named state's hierarchies.
--   Document/Service (domain/document/service.go, handler.go): validation, the nudge of the sweep
--     and the delete route. Document/Handler (handler.go): the other
--     routes, but for the listings'.
--
--   Admin/Schema (admin/database/handler.go, entities.go): the group's verbs, the schema gate and the
--     matcher. Admin/Storage (admin/storage/handler.go): the diagnostics.
--   Config (internal/config): Merge and Finalize, with Sweep, Reads, Admin and Root for the files of
--     those names, config.go being Root.
--   App/Reactors and App/Telemetry (internal/app/reactors.go, telemetry.go): the sweeper's
--     registrations, its nudge, and what its passes report.
--   Slab/Style (tools/slab/style/style.go, sql.go): the coloring of SQL. Slab/Input
--     (tools/slab/input/input.go): Body and GuardedBody. Slab/Repo (tools/slab/repo/root.go): Find.
--
-- The server runs the domains' handlers over the stores; the seeder runs each domain's contribution,
-- the rows in one transaction, then the files; a delete of a branch nudges the sweeper, and a schema
-- verb holds the gate that the sweeper's passes share.
--
-- A transaction is a function from the state to a value with the new state, or an error; a command
-- that fails leaves the state before it. Concurrency is the order in which transactions commit: where
-- one call runs several, what others commit between them is a parameter (`before`, `after`,
-- `between`). The constraints of a table are checked in one order, and a foreign key's cascade
-- is part of the delete that starts it.
--
-- Bounds: the recursive query of in_subtree.sql runs on fuel, one more than the rows of the table,
-- and `in_subtree` is `none` where it does not end; over a forest it always ends, and the commands
-- keep a forest. The coloring of a line runs on the line's length, and a marker that is found
-- shortens the line. Versions and stored sizes are natural numbers; a setting, a duration in
-- nanoseconds and a page's number are signed, and the overflow of a machine integer is not reached.
--
-- Parameters: sqlate's transactions and guard, go-core's recorder, blobfs, the object store,
-- uuid.Parse and strconv.ParseBool, the ids and times that the engine mints. The laws asked of them
-- stand in Database/Engine, Organization/Backend and Organization/Statements/Guard; the Sample modules
-- have instances that satisfy them.
--
-- Not modelled: the SQL of the organization's read view (a parameter of its reads), timestamps of
-- the file tree, decoding of requests and encoding of answers (the web SDK's), the registry, locks and
-- migrations (registrations with the libraries), the wiring of the composition root, and, of the slab
-- client, its requests, its rendering and its scenarios, which are I/O. The test harnesses are not part
-- of the program.
mod Prelude
pub mod Admin
pub mod App
pub mod Blobfs
pub mod Config
pub mod Data
pub mod Database
pub mod Document
pub mod Organization
pub mod Sdk
pub mod Slab
