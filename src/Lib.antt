-- ===== src/Lib.antt =====
-- Retune manages Windows devices: a server keeps groups, assignments and agent builds, and an agent on
-- each device checks in, applies what is assigned to it and replaces itself by a newer build. This
-- library models the parts of both that decide something.
--
-- SelfUpdate: internal/agent/selfupdate, the agent's replacement of itself.
--   Record: the update record (record.go).
--   Decide: Decide, AlreadyRefused and Reconcile (decide.go). Decide/Rules: when each acts.
--   Device: the service, the record file and the folders of staged builds, and actions on them. A call
--     of the service manager or of the file system ends as a script says: it succeeds, or it fails
--     with or without its effect. Device/Ensures and Device/Keeps: rules for such actions.
--   Supervise: Supervise, rollback, restoreBuild and pruneOldBuilds (supervise.go). The rounds of the
--     polling loop are a list of ticks: what the clock, the record file and the context say in each.
--     Supervise/Wiring, Supervise/Verdict, Supervise/Deadline, Supervise/Builds: what is shown of it.
-- Window: internal/protocol/window.go, maintenance windows. Texts are byte strings, instants are
--   seconds, and a time zone gives the local day and clock of an instant and the instant of a local
--   day and clock (time.Date). Window/Valid: what Validate accepts. Window/Contains: when a window
--   covers an instant. Window/Opening: when a device is open.
-- Groups: internal/server/groups, the rules of dynamic groups.
--   Ast, Lex, Parse, Compile: the files of these names, over bytes and lists of tokens;
--     strconv.ParseFloat is a parameter. The lexer has a unit of fuel for each byte and one more, the
--     parser four for each token and five more. Lex/Progress, Parse/Safe, Parse/Conditions and Parse/Total show that this is
--     enough. Compile/Total: which trees compile. Compile/Erase: what the SQL text depends on.
-- Rollout: internal/server/releasefeed/rollout.go, automatic rollouts of agent builds.
--   Rows, Db: the tables and the queries of internal/server/store that rollouts use, with identifiers
--     as numbers. Db/Keeps, Db/Returns: rules for actions on them.
--   Moves: wait, halt, include, promote, supersede. Pilot: stepPilot. Engine: stepPromoting, step,
--     Advance, Resume and Start. The clock, the version order and formatted messages are a parameter.
--   Identity: what a step leaves of every row. Gate: what a pilot must show. Builds: which builds are
--     rolled out. Spared: which assignments a promotion leaves.
-- Policy: internal/agent/policy, the settings of profiles.
--   Plan: engine.go. Agent: the handlers, the machine and the agent's records. Apply: apply and
--     rememberPrior. Profiles, Reconcile: the rest of reconcile.go. Apply/Evidence: what a reported
--     status stands on. Reconcile/Claimed: what undoing a profile leaves.
-- Release: internal/release, versions and signatures.
--   Precedence, Version: ParseVersion, Compare and Newer (manifest.go); this Newer is the version order
--     that Rollout takes as a parameter. Version/Number: numbers that are written in one way.
--     Version/Order, Version/Newer, Version/Ties: where Newer is an order.
--   Signing: Verify and the signed bytes (release.go). Manifest: Validate and VerifyReleaseManifest.
--     TrustList: DecodePublicKey, ParseTrustList and EncodeTrustList. SHA-256, Ed25519, base64 and the
--     reading of JSON are parameters. Signing/Soundness, Manifest/Verified, TrustList/RoundTrip: what
--     is shown of them.
-- Opsign: internal/opsign, the signatures on scripts and on wipe orders. Opsign/Sound: what they say.
-- Commands: internal/server/commands/service.go, the command queue.
--   Rows, Store: the tables and the queries of internal/server/store/commands.go. Output: clampOutput.
--   Payload: normalizePayload, with the payloads of internal/protocol/commands.go. Queue: Queue, Check
--     and checkSignature. Service: Deliver, Start, Complete and Get. OnComplete is a parameter.
--   Passwords: the OnComplete that the program sets (internal/server/laps/service.go over
--     internal/server/store/adminpasswords.go). Passwords/Settled: it leaves commands and results alone.
--   Delivery: what a device is owed. Results: which results are stored, with Results/Hook on
--     OnComplete. Progress: the steps and runs of the queue. Queue/Wipes, Queue/Placed: what queue has
--     checked and done. Payload/Normal, Output/Size: the bounds. How a jsonb column writes a payload
--     is a parameter.
-- Limiter: internal/server/auth/ratelimit.go, the limit on failed attempts. Each reading of the clock is
--   an argument, so the readings of one Fail may differ.
--   Refines: the table against a full record of failures. Runs: what Allowed answers.
-- Base: what these share: lists, byte strings, tests. Commands calls Opsign, which uses the keys
--   of Release; the other parts meet in the database and in the messages of a check-in, which are
--   arguments here.
--
-- Left out: HTTP handlers, SQL other than the queries above, JSON, logging, the setting handlers and
-- other calls of the operating system, cryptography, and the web console. A panic in a setting's
-- Revert, which ends the agent, is left out. Errors of the database other than a missing row, and
-- errors of the agent's own store, are left out. The update's service runs or stops only by the
-- supervisor's calls: a build that crashes or is restarted while the supervisor polls is left out,
-- and a service that was asked to stop as the context ended counts as stopped. Unicode case and space
-- are those of ASCII.
pub mod Base
pub mod Commands
pub mod Groups
pub mod Limiter
pub mod Opsign
pub mod Policy
pub mod Release
pub mod Rollout
pub mod SelfUpdate
pub mod Window
