-- ===== src/Lib.antt =====
-- Switchpilot: a verification library of the backend's core (backend/src), a manager of network
-- switches. The backend polls devices, takes in their telemetry, and changes them through jobs;
-- its replicas share one Postgres, which the models hold as explicit tables.
--
-- Netflow is the ingestion of flow telemetry (services/netflow). Netflow/Buffer and Netflow/Flow
-- are the datagram and the records, V5, Records, Templates and Walk the parts of the decoder, and
-- Decode is `decodeNetflow`; Apps and Collector are the port table and the buckets. A throw is a
-- result of the monad in Action, whose state is the template cache. A datagram is a list of bytes,
-- and every loop of the decoder runs on fuel `suc (length buf)`: a round consumes a byte or more,
-- and the theorem on totality shows that the fuel never runs out. `Safe` files hold what cannot go
-- wrong, `RoundTrip` files the way back from an encoder. Counters are exact numbers: the rounding
-- of doubles above 2^53 is not modelled, and what is proved of the totals is for totals within 2^53.
-- The socket, the timer and the SQL upsert are not modelled.
--
-- Jobs is the job engine (services/jobService.ts and the cancel and clear routes of
-- routes/jobs.ts). Table is the `jobs` table with the conditions of its statements, Service the
-- operations, each statement one atomic step, with the time as an argument. System is the step
-- relation of any number of replicas on one table, where a run may die or outlive its lock. What a
-- job does on a device and the dates of a cron text are parameters.
--
-- Auth is the authorisation (auth/rbac.ts and auth/securityPolicy.ts): Rbac is `requireRole`, with
-- the live-user cache as its state and the database as a function of the time, and Policy the
-- password rules. Login and Account are the routes of routes/auth.ts on the tables of users and of
-- backup codes. SHA-256, bcrypt, the authenticator, LDAP and the verification of JWTs are parameters.
--
-- Campaign is the staged firmware upgrade (routes/campaigns.ts), whose handlers are one step each on
-- the tables and queue their jobs with `create_job` of Jobs: Walk is about the order of the rings,
-- Progress, Enter and Once about the upgrades queued for them.
--
-- Audit is the hash-chained log (audit.ts), a list of rows with SHA-256 as a parameter: Chain is
-- about what `audit` writes, Tamper about what the verification can and cannot tell.
--
-- Aruba is the writing of VLAN bitmaps (aruba/write.ts): Bits is `portBit` and `bitmapSet` on lists
-- of bytes, Trunk the loop of `arubaPortConfig` over the VLANs of a switch.
--
-- Alerts is `raiseAlert` and `resolveAlert` (services/alertService.ts) on one replica: Effects is
-- about single calls, Email about the throttle, Open about the rows that are open. A call of the file
-- itself runs to its end before the next one, which is how the other parts use it; Steps has the
-- awaits of a call as steps of their own, and Overlap is about what comes of calls that interleave.
--
-- Automation is the automation rules (services/automationService.ts), as the calls that a trigger
-- makes; Windows is about what stands behind each, by the maintenance windows of Alerts.
--
-- Config is the backup of configurations and the drift check (services/configService.ts), with the
-- alerts of Alerts: Normal and Stored are about what a backup makes of the rows, Drifted about what a
-- check finds and reports. Util/Text holds the operations on lines that the services share.
--
-- Compliance is the compliance engine (services/complianceService.ts), with the backups of Config
-- and the windows of Alerts: Rules is one rule on one text, Results the table and its evaluation,
-- and the file itself the remediation and the sweep. Evaluated and Pushed are about what these leave
-- in the table and send to a device. The devices of a sweep stand one after the other.
--
-- Events is what devices send: Trap the SNMP traps (services/snmpTrapService.ts), which raise and
-- resolve alerts of Alerts, and Syslog the flood guard of the syslog listener
-- (services/syslogService.ts). Versions is about traps of SNMPv1 and v2, Links about those of a link,
-- Rate about the messages of one second.
--
-- Pool is the pool of SSH sessions (cisco/sshPool.ts) as a machine of events on the chains of one
-- device; Serial is about how many calls drive the device at once.
--
-- Polling is the reachability poll of a device (services/monitorService.ts and
-- services/firmwareState.ts), with the alerts of Alerts; Sync is about its offline alert.
--
-- HostKey is the trust on first use of SSH host keys (cisco/hostKey.ts, and pinHostKey of
-- services/deviceComms.ts); Pinned is about what a pin decides.
--
-- Leader is the leader election (leader.ts), for any number of replicas on one advisory lock; Single
-- is about who leads.
--
-- Monitor is the flap counter of the ports (services/monitorShared.ts and its use in
-- services/ciscoMonitor.ts); Flap is about what it counts over any sweeps.
--
-- Util is the batch writer, the worker pool and the HTTP retry (util/batcher.ts,
-- util/concurrency.ts, util/httpRetry.ts), the first two as machines of events, the last as a loop on
-- the attempts left.
--
-- Not modelled: device I/O and the parsers of its text, the HTTP routes beyond those named, the
-- SQL of the other services, and the web interface.
pub mod Prelude
pub mod Alerts
pub mod Aruba
pub mod Audit
pub mod Auth
pub mod Automation
pub mod Campaign
pub mod Compliance
pub mod Config
pub mod Events
pub mod HostKey
pub mod Jobs
pub mod Leader
pub mod Monitor
pub mod Netflow
pub mod Polling
pub mod Pool
pub mod Util
