-- ===== src/Lib.antt =====
-- A verification library for the three-tier edge orchestrator: a central orchestrator (CO) serves
-- an API and writes the desired state of a deployment to a git repository, a local orchestrator
-- (LO) for each site watches that repository and sends the deployments on to its edge nodes (EN)
-- over a message broker, and each edge node installs the containers and reports their states back.
-- The CO stores the states and streams them to the clients that follow a deployment.
--
-- The files, and the code that they model:
--   Common       texts, lists, maps and tests that all parts share; fmt.Sprintf, strings and
--                path/filepath as far as they are called
--   Model        pkg/model, pkg/deployment, pkg/application: the messages between the tiers
--   Requests     CreateDeployment of internal/api/handlers/deployment.go, and what it builds
--   Apps         internal/api/handlers/apps.go and persist.go
--   Description  pkg/application: the description of an application
--   Central      internal/co/co.go
--   Git          internal/gitmanager/gitmanager.go; Git/Operations has InitRepo, CommitAndPush and
--                ReadFile
--   Watcher      internal/watcher/watcher.go; Watcher/Selection and Watcher/Reports relate it to
--                Central
--   Observer     internal/gitobserver/observer.go; Observer/Opening has the start of its loop, and
--                Observer/Equivalence compares it with Watcher
--   Fetcher      internal/gitfetcher/fetcher.go
--   Remote       the options with which Observer and Fetcher call the git library
--   Lo           internal/orchestrator/local_orchestrator.go, DeployToEdges in Lo/Deploy
--   Polling      poll.go, sync_engine.go and journal.go of internal/orchestrator, RegisterRequest,
--                and the settings of New; Polling/Modes has mode_detector.go and mode_handlers.go
--   Records      internal/orchestrator/db.go
--   Ent          ent/schema, and the code generated from it for the states of components and of
--                deployments: Ent/Mutation, Ent/Create and Ent/Update have ent/mutation.go and the
--                builders, Ent/Client the statements of Records and of Status made with them,
--                Ent/Query the query of all deployments with their components; Ent/Upsert has the
--                insertion of a host that Health makes
--   Health       internal/orchestrator/health.go, CreateEdgeNode of db.go, and the subscriptions of
--                internal/natsbroker/nats.go
--   EdgeNode     internal/edgenode/edgenode.go
--   Images       internal/ocifetch/fetcher.go, the fetcher of a node
--   Broker       internal/natsbroker/nats.go
--   Status       internal/api/handlers/deploystatus.go, and SaveDeploymentStatus of
--                internal/api/handlers/deployment.go
--   Streams      internal/streammanager, and HandleStreamDeployment of
--                internal/api/handlers/deployment.go in Streams/Follow
--   Fsm          the interface to github.com/looplab/fsm, which is not in the repository
--   Loader       internal/fsmloader/loader.go and internal/orchestrator/resultbus.go
--   Node         internal/fsmloader/container_fsm.go and edge_node_fsm.go
--   Programs     cmd/co/main.go in Programs/Start, cmd/lo/main.go and cmd/en/main.go in
--                Programs/Lower
--   Config       internal/config, pkg/config, internal/testenv and cmd/testenv
--   Router       internal/api/router.go and internal/api/middleware/cors.go
--   Examples     the theorems at concrete inputs, and tests
--
-- A definition is named after its Go function, in this language's spelling; the children of a
-- module hold what is proved of it. The parts meet in their data: Requests calls Central and
-- Status, Central writes the path that Watcher selects, Watcher's DeploymentChange is what
-- Lo/Deploy handles, its DeployRequest is what EdgeNode handles, and the states that EdgeNode
-- reports are what Health records and forwards, and Status broadcasts on Streams. The hosts that
-- Lo/Deploy sends to are the rows that Health makes of the heartbeats of EdgeNode, with Ent/Upsert.
-- Apps fills the registry that Requests reads, and calls Fetcher.
--
-- State is a record, and an operation returns the new record. A panic of the Go runtime is `none`,
-- or `panicked` in Git, where a call can also be `stuck` at a lock that it holds itself. An error
-- is a text, and `none` is nil. Goroutines are modelled by their turns: a turn is one pass of the
-- goroutine's loop, and a list of turns or of calls is one interleaving. The goroutines of
-- DeployToEdges, one for each host, are lists of actions: a schedule is a list of numbers, each of
-- which lets one of them take its next action, and after it they run to their ends, so every
-- interleaving is one schedule. The calls of one batch of files are mixed with each other in the
-- same way, and the report "done" of a call follows its own goroutines. A lock that is held for
-- the whole of a method makes the method one step. Log output is left out. Channels with a buffer
-- are lists with a bound: the bounds are those of the code (10 for a client's stream, 20 for the
-- event queue). CloneOrPull of Fetcher, which calls itself without a bound, runs on fuel, one for
-- each of its rounds; all else is structural recursion.
--
-- Parameters stand for code that is not in the repository, or that is generated: the state machine
-- engine (Fsm.Engine, with the documented laws of NewFSM, Current and Event), the yaml and uuid
-- libraries, go-git and package os (Git.Calls, Central.Calls, Watcher.Answers, Observer.Answers,
-- Observer/Opening.Opened, Fetcher.Client), the database behind the generated client
-- (Status.Database and Records.Tables, which Ent/Client fills, and Apps.Store), the queries of the
-- registry (Requests.Registry), the image fetcher and docker (EdgeNode.Machine), the broker and
-- the network (Health.Network, Polling.Hosts, Polling.Github), the library that runs the
-- statements of the generated client (Ent/Create.Driver, Ent/Query.Queries and
-- Ent/Upsert.CreateNode), the rows of the host table (Health.Hosts, which Ent/Upsert fills), how
-- gin matches a path with a pattern (Router.Matching), what the start of a program finds
-- (Programs/Start.Surroundings), the file system and the yaml library of the settings
-- (Config.Reads), the registry of images (Images.Registry), and the connection and the json codec
-- of the broker (Broker).
--
-- Not modelled: metrics, logging and telemetry, the callbacks of the loader, the other queries of the
-- generated client, its builders of the other tables but for the insertion of a host, and the
-- scheduler, which is commented out.
pub mod Common
pub mod Streams
pub mod Fsm
pub mod Loader
pub mod Node
pub mod Lo
pub mod Model
pub mod Central
pub mod Watcher
pub mod EdgeNode
pub mod Status
pub mod Records
pub mod Ent
pub mod Git
pub mod Observer
pub mod Remote
pub mod Fetcher
pub mod Description
pub mod Apps
pub mod Health
pub mod Polling
pub mod Requests
pub mod Images
pub mod Broker
pub mod Programs
pub mod Config
pub mod Router
pub mod Examples
