-- ===== src/Lib.antt =====
-- tgproxy-panel: a panel that configures and watches nodes running the Telegram proxy engine telemt.
-- A server (internal/api, internal/worker, internal/store) keeps nodes, keys and policies in
-- PostgreSQL. Workers apply the desired state to each node, sweep the nodes for statistics and
-- reports, turn the findings of the reports into alerts and announce them. An agent on each node
-- (internal/agent) runs the engine and sends the reports.
--
-- The parts modelled, and where.
--
-- Domain is internal/domain. Domain/WebPolicy.antt is webpolicy.go: the WEB policy of a node and of
-- its profiles, the deadlines of carrier negotiation, the limits, and their validation.
-- Domain/WebCapacity.antt and its Presets are webcapacity.go: the limits of each size of node. The
-- API validates a request with them before it is stored.
--
-- Reliability is internal/reliability, the contract between an agent's reports and the panel.
-- Reliability/Policy.antt and Reliability/Report.antt are types.go, Reliability/Probe.antt is
-- probe.go (the report of an external probe), and Reliability/Findings.antt is findings.go: which
-- checks fail, pass or are unknown on a report.
--
-- Worker is internal/worker. Worker/Incidents.antt is incidents.go: the findings of successive
-- sweeps are counted in streaks, and streaks open and close rows of the table alerts.
-- Worker/Notifications.antt is alerts.go and notification_state.go: how a problem and its end are
-- announced on the webhook and on Telegram, with one state for each node and kind that is kept in
-- memory or in a row of notification_states. Worker/ReliabilityNotifications.antt is
-- reliability_notifications.go: snapshots of findings are kept as rows, the rows of a node and its
-- open diagnostics give one phase, and a phase that lasts is announced through the states of
-- Worker/Notifications.antt. Worker/ApplySchedule.antt is applyschedule.go: which
-- node a background sweep may apply now, how many at once, and the delay after a failure.
--
-- Api is internal/api. Api/RateLimit.antt is ratelimit.go: the sliding window of attempts of an
-- address. Api/TokenPolicy.antt and its Routes are api_token_policy.go with the roles of rbac.go
-- and the Principal of session.go: what an API token may call. Api/Session.antt is session.go with
-- RequireRole: the address of a client, the principal of a session, and the guards.
--
-- Agent is internal/agent, the process on a node. Agent/Recovery.antt is recovery.go: the policy
-- that the panel sets, the log, and the tick that restarts the engine or moves it to the reserve
-- route; Agent/Configure.antt is its configureReliability, Agent/Egress.antt its applyEgress, and
-- Agent/Files.antt the atomic write of files.go. Agent/Lives.antt puts ticks, requests and restarts
-- of the agent together. Agent/Apply.antt is Apply of apply.go for the relay engine: the files of
-- the node are backed up, written and put back on failure. Agent/Update.antt and its children are
-- telemtupdate.go and updatejournal.go with backupFile and restoreFile of upgraderun.go: Disk the
-- files and the journal, Preflight and Steps the steps, Run the whole update with its rollback, and
-- Restore the recovery at the next start. A Course keeps each disk that it has written, so that a
-- crash is any disk of it.
--
-- NodeDriver/Convert.antt is ProfileToProto and ProfileFromProto of internal/nodedriver/convert.go: a
-- profile as it goes over the wire from the panel to the agent.
--
-- Updates is internal/updates. Updates/Version.antt is the order of versions in updates.go, and
-- Updates/Checker.antt its cached answer about the newest release. Totp.antt is the part of
-- internal/totp that makes recovery codes.
--
-- How the models stand to the code. State is a record that each operation takes and returns, and
-- sequences of calls are data types of steps or lists of events. The methods hold a mutex
-- (applySchedule, ipLimiter, findingRun) or the lock of a key or row (withState), so that each is
-- one step. A conversion of convert.go to a narrower or an unsigned type keeps its wrap-around. The
-- clock is an argument; a time is a natural number of nanoseconds from an arbitrary zero, which
-- holds all the differences that the code compares. A Go map is an association list, whose reading
-- of a missing key is written out. A UUID is a number or a string. Go's int is an unbounded integer
-- where the code only compares it, since no operation of the modelled code can leave its range: the
-- counters that grow are bounded (attempts of a retry), count calls or sweeps of one process, or sum
-- two such counters. The int64 counters of a report's Window are natural numbers, since they
-- count connections and requests. The ratios of findings.go are compared as exact fractions where the
-- code divides floats, and the percentage of used inodes is a number of thousandths.
--
-- What other packages decide is an argument: rand.Int64N (a draw below its bound), the bytes of
-- crypto/rand, the patterns of regexp, net.SplitHostPort, net.ParseIP, strconv.Atoi, strconv.Itoa,
-- url.Parse, strings.TrimSpace and strings.TrimPrefix, hex.DecodeString, filepath.Clean, SHA-256,
-- the renderers of the relay's files, the signer of cookies, and the answers of the settings, the
-- webhook, Telegram, GitHub, the database, telemt and systemd. The files of an update are written by
-- the agent alone, save that a new telemt may rewrite its config while it runs. The loop that waits
-- for a drain runs over the statuses that arrive before its deadline. No model needs fuel: the loops
-- of applyRetryDelay and NewRecoveryCodes run over the attempts that are left, which the code bounds
-- itself, and the other loops over lists.
--
-- Not modelled: the rest of the agent's work on its host, the handlers that decode JSON and call the
-- store, the generated queries and protocol code, the drivers of remote hosts, texts, pages, and the
-- web interface.
--
-- Prelude re-exports the library's names and holds the shared types and lemmas: natural numbers
-- (Prelude/Tests), lists (Prelude/Lists), association lists (Prelude/Assoc, Prelude/Keys), integers
-- (Prelude/Int) and strings (Prelude/Texts). The modules below a component hold its proofs, and a
-- module called Tests its runs on concrete values.
pub mod Prelude
pub mod Domain
pub mod Reliability
pub mod Worker
pub mod Agent
pub mod NodeDriver
pub mod Updates
pub mod Totp
pub mod Api
