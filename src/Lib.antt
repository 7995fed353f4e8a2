-- ===== src/Lib.antt =====
-- Daisyway: keys from quantum key distribution (QKD) for WireGuard. Two daemons fetch the same key
-- from their QKD devices, agree on a key that is derived from it and from a pre-shared key, and
-- put it into WireGuard or into a file. This library models the Rust code of the daemon and of the
-- simulated QKD device.
--
-- Crypto: daisyway/src/internal/daisyway/crypto. Crypto.HashDomain and Crypto.Basics are
-- hash_domain.rs and basics.rs, Crypto.Server and Crypto.Client the two sides of the exchange in
-- server.rs and client.rs. What a side works with is Crypto.World: a socket, a device, a runtime
-- and a key handler, each of a type of its own with the operations that the code calls (Parts). A
-- method is an Action, a function from the state to a result and the next state; what it changed
-- stays changed when it fails. Crypto.Agreement puts the two sides together, for one exchange of a
-- key and, in Crypto.Agreement.Sessions and Crypto.Agreement.Completing, for any number of them.
--
-- Osk: daisyway/src/internal/osk. Osk is the trait of the handlers of output keys, over the state
-- that a handler changes; Osk.Deadman is deadman.rs, Osk.Outfile outfile.rs, and Osk.WireGuard
-- wireguard.rs; Osk.WireGuard.Kernel says what the kernel does with what is set, and Osk.Recording
-- has handlers that keep a log of their keys.
--
-- TcpServer: daisyway/src/internal/daisyway/net/tcp_server. TcpServer.Manager is
-- connection_manager.rs, with its maps in TcpServer.BTreeMap and the tasks of tokio in
-- TcpServer.Tasks; TcpServer.Manager.View is an abstract view of the manager, without the maps and
-- the tasks, TcpServer.Manager.Refinement the runs of this view over what is polled, and
-- TcpServer.Manager.Waiting what it says of an accepted connection; TcpServer.Fanout is the task
-- of one connection, which runs the protocol of Crypto.Server with a handler that sends each key
-- to the manager. The events that select! yields are a list, in the order in which they arrive.
-- TcpServer.Listener is mod.rs there, from the address to the manager. TcpServer.Running puts the
-- manager and the tasks together: a step relation in which the manager accepts a connection or
-- serves an event of the queue, or a task runs a round of its protocol, in any order.
--
-- TcpClient: net/tcp_client.rs there, the loop that connects again and again, over Crypto.Client.
-- Setup: setup.rs and net/tcp_participant.rs, from a configuration to the participant,
-- Setup.Worker the thread behind its output, and Setup.Renewals the times at which a server's keys
-- reach this thread, over Crypto.Server.Renewals and Osk.Deadman.Renewals. Etsi014:
-- daisyway/src/internal/etsi014.rs. Util: internal/util.rs. Simulator: simulator/src/main.rs, its
-- handler of requests and, in Simulator.Serving, its start and its connections; Simulator.Device
-- lets both daemons fetch their keys from it, and Simulator.Device.Sessions runs them so. Cli:
-- daisyway/src/main.rs, from the parsed command line to the loop that runs; Cli.Exchange says what
-- ends the command exchange, and Cli.Client follows it, over Daemon, from the configuration file
-- of a client to its keys. Daemon puts the parts of a daemon together: the fields of the protocols
-- and of the connection tasks, with the connection to the key management entity and the key
-- handler that each is given, and what a participant runs; Daemon.Session is about two daemons
-- that were set up, each on a machine of its own, and their protocols over one connection, and
-- Daemon.Outputs follows the keys into the outputs of both.
--
-- Base: the result type of anyhow with a panic as a third outcome, actions, tests on numbers, and
-- lists measured by native numbers.
--
-- The loops that do not end, those of the protocol, the client and the deadman's worker, are cut
-- after a number of rounds: where the result is a success, the loop is still running after that
-- number of rounds, and in the deadman's worker the result tells this from a return. What is said
-- of any number of rounds holds of each prefix of the run. read_to_end_up_to has fuel for two
-- rounds more than the reader has pieces: each round uses one up or fills the buffer. The event
-- loop of the manager is recursion on the list of events. Numbers of 64 bits wrap around as in a
-- release build; adding to a time beyond the last one that the clock can represent is a panic.
--
-- Parameters, with what the code relies on as named hypotheses: SHAKE256 (Xof), the crates uuid,
-- base64ct, rustls, reqwest, clap, env_logger and wireguard_uapi, the program man, TOML, sockets,
-- channels, the clock, the file system, random numbers and QKD devices.
--
-- Not modelled: the texts that are logged, parsing of the command line, which is clap's, HTTP, the
-- scheduling of threads, and a failure to build the tokio runtime of the deadman's worker, which
-- is a panic of its thread before any write. Where a connection is promoted, the handles of the
-- older ones are dropped before the key is handed over, in the source after it; nothing that is
-- proved tells these two apart.
pub mod Base
pub mod Crypto
pub mod Osk
pub mod Etsi014
pub mod TcpServer
pub mod TcpClient
pub mod Setup
pub mod Simulator
pub mod Util
pub mod Cli
pub mod Daemon
