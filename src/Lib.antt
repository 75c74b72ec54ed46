-- ===== src/Lib.antt =====
-- A model of the Hub of DARK NOC and the theorems that make it correct.
--
-- The Hub is a FastAPI application over one SQLite database. Its services each run one transaction
-- (`with db() as conn:`), which the routers call for the operator and for the agents, and a
-- maintenance cycle runs in the background. The parts meet in the database only: a service inserts
-- a job, an agent claims it and reports, and the report updates the certificate, monitor, fleet
-- operation or deployment that the job belongs to, and may open or resolve an incident.
--
-- The files:
--   Base                shared names; the clauses of a query over rows (Base/Rows), JSON (Base/Json),
--                       texts and numerals (Base/Text, Base/Numerals)
--   Store               the database of hub/database.py: Table (rising ids), Schema (columns), Bodies
--                       (request bodies of hub/schemas.py), Hub (the state), Tx (statements and
--                       transactions), Cascade (foreign keys), Lift (checks that raise), Valid (the
--                       invariant), Growth (ids are handed out once), and Keeps, Governed, Lookup,
--                       Frame, Ends (how a transaction keeps them, what a row reads after it, what
--                       leaves a job alone, and what holds when it commits)
--   Fallible            functions that raise and touch no database
--   Python              what the program takes from Python and sqlite3, as parameters
--   Incident            hub/monitor_incident_service.py and the incident functions of hub/app.py
--   Guards              the login limit and the sessions of hub/app.py, and hub/auth_router.py
--   Origin              hub/security_runtime.py
--   Lease               `acquire_hub_lease` of hub/maintenance_runtime.py
--   Job                 the agent's job routes of hub/agent_control_router.py
--   Agents              the enrollment, pulse and heartbeat of hub/agent_control_router.py
--   Autoheal            `maybe_autoheal` of agent/agent.py
--   Fleet               the fleet functions of hub/certificate_fleet_service.py,
--                       hub/maintenance_runtime.py and hub/app.py
--   Nodes               the node functions of hub/node_tunnel_service.py and
--                       hub/node_tunnel_repository.py
--   Monitoring          the monitor functions of hub/monitor_incident_service.py,
--                       hub/maintenance_runtime.py and hub/app.py
--   Certificates        the certificate functions of hub/certificate_fleet_service.py and hub/app.py
--   Deployments         the managed deployments of hub/plugin_deployment_service.py (Managed, Deploy),
--                       job payloads and Pair Codes of hub/app.py (Payload), and retrying, removing
--                       and recovering
--   Realm               hub/realm_support.py (Mappings, Names, Settings, Prepare) and the reading of
--                       its settings in agent/realm_plugin.py (Agent, Config, Render)
--   Registry            hub/plugin_registry.py
--   Tunnels             the tunnel functions of hub/node_tunnel_service.py but for reconfiguration
--   Maintenance         `run_maintenance_cycle` of hub/maintenance_runtime.py
--   World               what the services take as arguments from outside the database
--   Requests            the operations together, and the states that they reach
--   Samples, Scenarios  a small database, and the theorems at concrete inputs
--
-- A function keeps its name, and its arguments where they are not the connection. A transaction is
-- a function from the database to a result: `ok` with the new state, or `err` with an HTTP status,
-- an IntegrityError or a crash, and then the database is as before. A table is a list of rows in
-- the order of their ids. A column of JSON text holds the value. Times and counts are natural
-- numbers; a comparison `t < now - age` of the source is written `t + age < now`. The clock is any
-- function of the number of readings. A rollout is cut with as much fuel as it has entries, which
-- is enough because every slice takes one entry at least.
--
-- Not modelled: the tables of metrics, rollups, node services, tunnel samples and the audit log
-- with the statements on them; the creation of Pair Code deployments and the reconfiguration of a
-- tunnel; the notifications over Telegram and WebSockets; the routers, which check the session and
-- call one service; SSH, terminals, file transfer and the static panel; the agent but for its Realm
-- plugin and Auto-Heal. The table of users is a list that no request changes. Encryption,
-- hashing, DNS, IP addresses, the parsing of URLs and SQLite's LIKE are parameters. Of the
-- foreign keys only ON DELETE is modelled, not the check of an INSERT: the ids that the services
-- insert come from rows that the same request has read. A negative integer counts as 0, also the
-- `order` of a plugin, so that plugins of negative order stand by their ids. The log of Auto-Heal
-- in the theorem on its restarts holds those whose command succeeded, as the source's history
-- does.
mod Base
pub mod Autoheal
pub mod Store
pub mod Origin
pub mod Python
pub mod Fallible
pub mod Incident
pub mod Lease
pub mod Fleet
pub mod Guards
pub mod Job
pub mod Nodes
pub mod Monitoring
pub mod Certificates
pub mod Maintenance
pub mod Deployments
pub mod Agents
pub mod Realm
pub mod Registry
pub mod Tunnels
pub mod World
pub mod Requests
pub mod Samples
mod Scenarios
