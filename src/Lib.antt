-- ===== src/Lib.antt =====
-- coold: flux, the broker between the Coolify control plane and its hosts, and coold, the agent on
-- each host.
--
-- The control plane posts a command to flux over a local socket (flux/src/unix_bridge.rs). flux
-- looks up the stream of the host, checks the host's capabilities and builds the message
-- (flux/src/routing.rs), records the dispatch as pending (flux/src/state.rs), sends the message down
-- the stream, and answers the request when the host's response comes back. A host opens its stream
-- with a token (flux/src/auth.rs), which the denylist may revoke (flux/src/revocation.rs); the
-- session in flux/src/main.rs checks it, registers the stream and takes in what the host sends. On
-- the host, the agent keeps the connection open (coold/src/grpc/client.rs), carries out the commands
-- that come (coold/src/grpc/handlers.rs), compares what Podman shows with what is recorded
-- (coold/src/model.rs) and reports the differences (coold/src/sync.rs). coolify-cli gives the hosts of a
-- mesh their addresses (coolify-cli/src/wireguard/subnet.rs), plans the actions that set it up, and
-- filters them by what the run is meant to do (coolify-cli/src/wireguard/intent.rs).
--
-- What models what:
--   Flux/Streams        flux/src/state.rs, `Streams`: `insert_stream` is `insert`, `remove_stream` is
--                       `remove`, `get_stream` is `get`; `mark_stale` is the map that it leaves
--                       (`mark_stale_entries`) and the hosts that it reports (`stale_hosts`)
--   Flux/Pending        flux/src/state.rs, `Pending`: `remove_pending` is `remove`, `get_pending` is
--                       `get`; `park` and `deliver` are two critical sections each, as in the source,
--                       and Flux/Pending/Race runs them in any interleaving
--   Flux/Inventory      flux/src/state.rs, `Streams::snapshot`
--   Flux/Capabilities   the capability helpers of `grpc_server` in flux/src/main.rs
--   Flux/Auth           flux/src/auth.rs; Flux/Auth/Binding is `decide_host_binding`
--   Flux/Revocation     flux/src/revocation.rs, memory and file
--   Flux/Denylist       the endpoints of the denylist in flux/src/unix_bridge.rs
--   Flux/Envelope       flux/src/envelope.rs, the commands and replies
--   Flux/Routing        flux/src/routing.rs; Flux/Routing/Messages is proto/agent.proto and the
--                       building of a message
--   Flux/Session        `FluxAgent::stream` and `deliver_response` of flux/src/main.rs: `admit` is
--                       what runs before the registration, `open_stream` the registration,
--                       `on_inbound` a round of the loop, `close_stream` what follows the loop
--   Flux/Bridge         `coold_dispatch` and what it calls in flux/src/unix_bridge.rs
--   Agent/Model         coold/src/model.rs
--   Agent/Podman        coold/src/podman/types.rs and `NamespaceConfig` of coold/src/config.rs
--   Agent/Sync          `desired_container_statuses`, `desired_endpoints` and
--                       `reconcile_container_status_snapshot` of coold/src/sync.rs; Agent/Sync/Once is
--                       `reconcile_once`, `build_statements` and `propagate`
--   Flux/Replies        the answers of proto/agent.proto, and `ResponseBody::try_from_proto` of
--                       flux/src/envelope.rs
--   Agent/Client        coold/src/grpc/client.rs: `turn` is one turn of the loop of `run`, `turns` is
--                       the loop, `on_server_msg` what is done with a message, the spawned task run to
--                       its end, and Agent/Client/Statuses the task that forwards updates; Agent/Dial has the checks of the token, the URL and the TLS settings
--   Agent/Handlers      coold/src/grpc/handlers.rs: Agent/Handlers/Commands has a function for each
--                       arm of `handle`, and `body_for` is its match; Agent/Containers and Agent/Ingress are helpers of it
--   Agent/Firewall      the firewall commands of coold/src/grpc/handlers.rs, on the files and the
--                       kernel's chains; Agent/Rules is the text of the files
--   Agent/HostJwt       coold/src/grpc/host_jwt.rs
--   Agent/Dns           coold/src/dns/resolver.rs, and the retries of server.rs
--   System              flux and an agent together
--   Mesh/Addresses      `allocate_mgmt_ips` of coolify-cli/src/wireguard/subnet.rs
--   Mesh/Subnets        `allocate` and `allocate_namespaced` of subnet.rs
--   Mesh/Requests       `build_desired` of coolify-cli/src/commands/init/mod.rs, and the checks on names
--                       of coolify-cli/src/meshnet.rs
--   Mesh/State          coolify-cli/src/wireguard/state.rs
--   Mesh/Planning       `build_plan` of coolify-cli/src/wireguard/plan.rs: `check_request` is what it
--                       checks first, Mesh/Planning/Hosts the body of its loop, where each part is the
--                       list of the actions that it pushes
--   Mesh/Phases         `phase1`, `phase2` and `phase3` of coolify-cli/src/wireguard/apply.rs, each the
--                       list of the steps that it would take; Mesh/Apply runs them, and is `apply_mesh`
--   Mesh/Config         coolify-cli/src/wireguard/config.rs; Mesh/Firewall is firewall.rs, and
--                       Mesh/Services coolify-cli/src/services: texts of files and commands
--   Mesh/Intent         coolify-cli/src/wireguard/intent.rs, and the plan types of plan.rs and state.rs
--                       that it reads
--   Tests               runs on concrete values
--
-- Conventions. A shared `DashMap` or `HashMap` is an association list; its order is not fixed by the
-- program, and statements speak of lookups. An operation takes the state and gives the new one. Times
-- are natural numbers and `now` is an argument; subtraction stops at 0, as `saturating_sub` and
-- `duration_since` do. Expiry times, ports and counts are only compared or passed on, so their width
-- does not matter; `exp <= now + max` is stated without the wrap that the source avoids by
-- subtracting. Loops are over lists, but for the searches of a free address and of a free
-- subnet, which run on fuel: they go up by at least one and stop at the last address of the pool, so
-- that address is fuel enough.
-- Addresses are 32-bit, with `saturating_add` as it is.
--
-- Parameters. `JwtLibrary` stands for the crate `jsonwebtoken`; its `decode` is what checks the
-- signature, the audience and the expiry with the leeway that it is given. `parse_ip` reads an address
-- from text, `try_send` is the bounded channel of a host, `to_lowercase` is the method of `str`, and
-- `emit` is the broadcast channel of the agent. `JsonLibrary` stands for `serde_json`. `Host` is what
-- Podman, Corrosion, the journal, the installation of Caddy, the firewall and the token file do for a
-- command; `Outside` is the kernel's commands, Corrosion, Podman and the parser of addresses for the
-- firewall; `Surroundings` is what one turn of the agent's loop meets, with the gRPC library as
-- `serve`. `sub_of_json` is what
-- `serde_json` finds as the subject in the bytes of a payload. `NameLibrary` is what the
-- DNS crate does with names, `NetLibrary` the crate `ipnet`, whose laws for one pool are `PoolLaws`,
-- `PlanLibrary` what is printed of addresses and networks, their equality and the hash, `Runner` what a
-- command gives on a host of the mesh after those that were run on it, `self_signed` the generator of
-- certificates, `parse_net` the parser of networks, `Readings` what Podman and Corrosion answer in one
-- round of the agent, and `upstream` the resolver that other names go to. How each write of a
-- firewall file goes is the argument `Disk`. A number of the rules file
-- is a `u32` and has ten digits at most, which is the fuel of its printing. For the denylist, the disk is the argument `io`, whether a write goes
-- well: the file is replaced by a rename, so a write that fails leaves it as it was.
--
-- Not modelled. Of `run` in coold/src/grpc/client.rs, the switch that turns it off and the load of the
-- token before its loop, which ends the task if it fails. Logging, metrics, gRPC and HTTP set-up and the calls to the control plane of flux; the
-- Podman and Corrosion clients, the sockets of the DNS server and the steps of the installation of Caddy.
-- coold/src/builder/mod.rs is no part of the agent: coold/src/main.rs does not declare it, and
-- proto/agent.proto lacks the messages that it reads. Of coolify-cli, the command line, SSH and the
-- output; the probe of the hosts is a parameter of `apply_mesh`, and the hosts of a phase, which
-- share nothing, run one after another.
mod Prelude
pub mod Flux
pub mod Agent
pub mod System
pub mod Mesh
mod Tests
