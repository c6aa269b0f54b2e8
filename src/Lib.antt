-- ===== src/Lib.antt =====
-- remnawave-node-go, the node of a proxy panel: it runs a core (sing-box), forwards ports,
-- and reports traffic to the panel. This library models the parts that keep state by themselves.
--
-- The parts, and the files that model them (paths from the repository's root):
--
-- internal/usagesnapshot/store.go: UsageSnapshot and its children. A file of three buckets
-- (`Db`) holds the mode's metadata, the last value of each counter and the queue of snapshots.
-- `Activate` is `activate` (its transaction `activate_tx`), `Capture` is `capture` (`capture_tx`,
-- whose loop is `capture_counters` and whose end is `append_snapshot`), `Pull` is `pull`
-- (`pull_loop`), `Ack` is `ack` (`ack_tx`, `delete_through`), `Status` is `status`. Types, Capture,
-- Store and Queue hold the definitions; the other children hold the proofs.
-- internal/forwarding/forwarding.go: Forwarding and its children. `normalizeConfig` is
-- `normalize_config`, `resolveTargetIPv4` is `resolve_target`, `validateLocked` is `validate`. The
-- loop of `validateLocked` writes the caller's array of rules, so `validate` also gives back the
-- caller's configuration as it is left. `applyPreparedLocked` is `apply_prepared`, `SyncWithHash` is
-- `sync`, `RefreshDNS` is `refresh_dns`, `Restore` is `restore`, `ValidateCoreConfig` is
-- `validate_core`, `runtimeStateLocked` is `runtime_state`, `UsageCounters` is `usage_counters`; they work on a `Node`: the service, its
-- file and the hash of its nftables table. `Calls` holds what the commands and writes of one
-- operation answer. Types, Names, Resolve, Validate, Service, Sync, Restore and Usage hold the
-- definitions.
-- internal/forwarding/listeners.go: Forwarding.Listeners and Forwarding.Extract; there
-- `ExtractCoreListeners` is `extract_core_listeners`.
-- internal/state/state.go: Runtime and its children. The runtime is one record; each mutator is a
-- function under its own name (`RecordUserIP` is `record_user_ip`), `reindexLocked` is `reindex` and
-- `ShouldRestart` is `should_restart`. Types, Inbounds, Addresses and Core hold the definitions.
-- internal/statname/user_inbound.go: Statname, whole.
-- internal/accessaudit/store.go: AccessAudit. Policy has `Validate` (`validate`), Store has
-- `Configure` (`configure`), `Enabled`, `Runtime` (`set_runtime`) and `Ack` (`ack`), Records what an
-- event makes of a record, Applying `Apply` (`apply_audit`), and Reading `Open` (`open_audit`),
-- `Status` (`audit_status`), `Pull` (`pull_audit`) and `Prune` (`prune`). A record's text in the file is
-- a parameter (`DiskFormats`), as the splitting of addresses and the control characters of Unicode are
-- (`Addressing`). internal/accessaudit/native.go: `Event` and `Connection`, in Records.
-- internal/auth/jwt.go: Auth (`Verify` is `verify`); `Verifier` holds the key's test of a signature and
-- the reading of JSON.
-- internal/config/config.go: Settings (`Load` is `load_settings`); `Secrets` holds what reads the secret.
-- internal/node/manager.go: Node and its children. Stats has the traffic statistics
-- (`fetchGroupedStats` is `fetch_grouped_stats`, `GetUsersStats` is `get_users_stats`), Usage the
-- captures (`captureUsageSnapshot` is `capture_usage_snapshot`), Config and ApiConfig what is changed
-- in a configuration (`applySingBoxAPIConfig` is `apply_sing_box_api_config`), Files how files are
-- written (`writeFileAtomic`), Health the wait for the process (`waitForSingBoxHealthy`), Activation
-- and Restart the activation (`restartSingBox` is `restart_sing_box`, `rollbackSingBox` is
-- `rollback_sing_box`), Users the requests that change users (`applyAddUserRequest`), Start the
-- requests Start and Stop. `Outside` holds what the calls of one activation return;
-- a stop that returns an error leaves the process as it is.
-- The plugin of the node: Node.Lists has the shared lists (`readSharedLists` is `read_shared_lists`),
-- Node.Plugin how a plugin is compiled (`compilePluginState` is `compile_plugin_state`), Node.Nft the
-- sets of nft and SyncPlugin (`applyPluginNFTState` is `apply_plugin_nft_state`), Node.Blocking the
-- addresses that are blocked for a time. `Compiling` holds what the resolver and the clock return,
-- `Firewall` what nft answers. The text of a command's argument is kept, that of an error is not.
-- internal/node/validation.go: Node.Validation (`AddUserItem.validate` is `validate_item`).
-- internal/node/runtime_status.go: Node.Status (`runtimeStatus` is `runtime_status`).
-- internal/node/user_connection_provider.go: Node.Connections (`UserIPList` is `user_ip_list`), where
-- `Provider` holds what the API of sing-box answers.
-- internal/coreapi/stats.go and internal/supervisor/client.go: their results are parameters; Node.Stats
-- has the statistic and Node.Health the states of a process.
-- Base: texts as lists of bytes, results with `do`, 64-bit words, big-endian numbers, hex, base64,
-- JSON values, and the functions of package strings that the code calls. Bolt: the interface of go.etcd.io/bbolt, a
-- parameter with its documented behaviour, and an instance in memory.
--
-- Signed integers are 64-bit patterns: 2^63 and above stand for the negative ones. All loops are
-- structural recursions over the list they walk, so there is no fuel, but for
-- the digits of a number, which take as many steps as the number at most, and the wait for a process,
-- which takes a poll for each nanosecond of its timeout and one at most, as the time is up by then. A commit's error, the random
-- bytes of a generation and the time are arguments of the operations that meet them. The resolver,
-- package net, encoding/json and the node's interfaces are parameters (`System`, `Net`, `Formats`).
--
-- Not modelled: the HTTP API, gRPC and XML-RPC themselves, what nft does with its commands, the
-- benchmark and the system statistics, which are input and output; the collector of the access audit
-- and the rendered ruleset of the forwarding, which are texts and messages for other programs.
pub mod Base
pub mod Bolt
pub mod UsageSnapshot
pub mod Statname
pub mod Runtime
pub mod AccessAudit
pub mod Auth
pub mod Settings
pub mod Forwarding
pub mod Node
