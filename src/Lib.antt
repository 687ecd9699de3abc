-- ===== src/Lib.antt =====
-- The MultiNic controllers (MultiNic/ in the repository): a Kubernetes controller that reads VM and
-- network data from OpenStack for each OpenstackConfig object and keeps it in MariaDB, an event
-- filter in front of it, an operator that protects the workloads, and the admission webhook that
-- enforces the protection.
--
-- How the parts interact: the filter (Predicate) decides which events reach Reconcile. Reconcile
-- makes sure of the database handle (Connection), reads the object, and either handles its deletion,
-- puts its finalizer in place, or runs reconcileNormal. That hashes the specification and compares
-- it with the table cr_state, asks the trigger (Trigger) whether to go on, makes OpenStack clients
-- (Openstack, Endpoint), finds the servers and the subnet, gathers the interfaces (Collect), and
-- writes them in one transaction (Database), then writes the status. The operator (Operator) creates
-- and updates the workloads of the controller and of its database, reports on them, and labels them
-- (Protection); the webhook (Webhook) reads the labels; all see the objects of Cluster. What the
-- operator writes into the containers' environment is what Connection reads.
--
-- Which file models which code:
--   Api          MultiNic/api/v1alpha1/openstackconfig_types.go; Api.Operator has
--                multinicoperator_types.go
--   Trigger      getReconcileTriggerConfig, shouldReconcile, getNextReconcileInterval, parseInterval
--                of MultiNic/internal/controller/openstackconfig_controller.go (the same file for
--                all modules down to Reconcile)
--   Predicate    TimerBasedPredicate
--   Endpoint     normalizeEndpoint
--   Database     the tables of initializeDatabase and every SQL statement: DELETE, SELECT, UPDATE
--                and INSERT with or without ON DUPLICATE KEY UPDATE, with the unique keys and the
--                foreign keys as the conditions under which a statement is refused
--   Openstack    createOpenStackClient, getSubnetInfoWithClients, findPortByMACAddress, the choice
--                of the target VMs
--   Collect      the loop of reconcileNormal over the target VMs
--   Connection   ensureDBConnectionWithRetry, ensureDBConnection, connectToDatabase,
--                initializeDatabase, getDatabaseConfig, getEnvOrDefault, buildDSN; DatabaseConfig of
--                MultiNic/internal/types/database.go
--   Reconcile    Reconcile (Loop), reconcileNormal (Normal, its transaction in Store), hasCRChanged
--                and calculateCRHash (Changes), handleDeletion (Deletion)
--   Cluster      the objects behind client.Get, client.Create and client.Update (their
--                specifications in Cluster.Objects)
--   Webhook      MultiNic/internal/webhook/multinic_protection_webhook.go
--   Protection   applyProtection of MultiNic/internal/controller/multinicoperator_controller.go,
--                addProtectionLabels, removeProtection, removeProtectionLabels of
--                multinicoperator_helpers.go
--   Operator     the rest of these two files: the builders (Credentials, Quantities, Workloads,
--                Services), needsStatefulSetUpdate, needsDeploymentUpdate and needsServiceUpdate
--                (Compare), reconcileDatabase and reconcileController (Apply), the readiness checks
--                (Ready), reconcileComponents and updateStatusWithComponents (Status), Reconcile and
--                handleDeletion (Loop)
--   Types        SimpleMemoryCache, SimpleRetry and SimpleMetrics of MultiNic/internal/types/optimization.go
--   Performance  the caches, the rate limiter, the client pool and the batches of
--                MultiNic/internal/controller/openstackconfig_performance_optimized.go
--   Health       MultiNic/internal/controller/health.go
--   Startup      MultiNic/cmd/main.go, with the parsing of package flag
-- Examples holds concrete inputs. Base holds the shared helpers.
--
-- Everything outside the repository is an argument: the fields of Reconcile.Environment are the
-- answers of the API server, OpenStack, MariaDB, the clock, json.Marshal with sha256, and
-- time.ParseDuration; those of Operator.Surroundings the answers to each call of the operator, with
-- resource.MustParse; what the server stores on a write is its answer, so defaults are part of it. The state of a pass is Reconcile.World: the handle, the tables, the object.
-- A transaction works on a copy of the tables, which is kept by the commit only; a panic inside is
-- rolled back too, and an error of Commit means that it was rolled back. Look-ups of one MAC address
-- get one answer in a pass. A failed type assertion is a panic. Maps are association lists; a map that is
-- ranged over is the list of its values in the order of the iteration. Times and durations are
-- natural numbers of nanoseconds.
--
-- Bounds: the retry loops run on the number of rounds left, which starts at the bound of the source
-- (dbMaxRetries, 5 rounds; openstackMaxRetries, 3 rounds), so no round is cut. The poll of
-- addProtectionLabels runs on the list of the rounds that start before its timeout. What goroutines
-- do in Performance is a relation over the orders of their steps, without fuel.
--
-- Not modelled: logs, metrics and their registration, HTTP clients, TLS settings, pool sizes,
-- sleeping; the AUTO_INCREMENT, deleted_at and last_updated columns, column widths and collations;
-- the pools of HTTP clients, getSubnetInfo (never called), schemes, generated code and the tests.
pub mod Base
pub mod Api
pub mod Trigger
pub mod Predicate
pub mod Endpoint
pub mod Database
pub mod Openstack
pub mod Operator
pub mod Collect
pub mod Connection
pub mod Reconcile
pub mod Cluster
pub mod Webhook
pub mod Protection
pub mod Types
pub mod Health
pub mod Startup
pub mod Performance
pub mod Examples
