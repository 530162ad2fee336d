-- ===== src/Lib.antt =====
-- rps relays TCP and UDP through agents behind a firewall. A controller listens for users; each
-- agent keeps connections to it, encrypted with the agent's key, and a multiplexer carries many
-- streams over one of them. The controller keeps clients, tunnels, proxy accounts and traffic
-- counters in a database, and refuses tunnels and accounts that are past their expiry or limit.
--
-- Mux (crates/rps-mux). Mux/Frame: `read_frame` and `write_frame` of src/frame.rs on lists of bytes.
-- Mux/Session: src/session.rs. The record `Mux` is what the tasks and the handles share: the table
-- of streams, the next id, the inbound channels, the channel to the writer task and the channel of
-- accepted streams. `on_frame` is a round of the reader task, `write_loop` the writer task,
-- `open_stream`, `send_data`, `close_stream`, `recv_data` and `accept` the handles; `Step` is any of
-- them. A `StreamTx` is an index of the channels, so that two entries of the table can be seen to
-- share none. Channels have no capacity here: a full one only delays.
--
-- Core (crates/rps-core). Core/Protocol: the messages and `write_json`, `read_json` of
-- src/protocol.rs, over a parameter for serde_json whose only law is that what it writes it reads
-- back. Core/Psk: `decode_psk` of src/noise.rs. Core/Noise: the length-prefixed messages and the two
-- tasks of `spawn_transport`, over a parameter for the transport state of snow: a message grows by
-- 16 bytes, and what one side writes its peer reads. Core/Config: records of src/config.rs.
--
-- Controller (crates/rps-controller). Controller/Policy: src/policy.rs, with the clock as an
-- argument and the revoke queue with its capacity. Controller/Db: src/db.rs, a table as the list of
-- its rows and Controller/Sql the statements; a statement that breaks a unique constraint fails.
-- Sums past 63 bits become a `real`, which cannot be read as an integer. Controller/Db/Migration: the
-- tables that the migration of old clients moves between. Controller/Traffic: src/traffic.rs on top.
-- Controller/Routes: what both make of a route's name.
-- Controller/TunnelManager: src/tunnel_manager.rs, with the counters, tables and signals that runs
-- and guards share in stores of the state.
--
-- Controller/App: the state that they share (main.rs), the loading of the policies, the start of the
-- enabled tunnels, and the task of src/policy.rs that revokes what has expired: `tick` is a round of
-- its interval and `receive` takes an event from the queue.
-- Controller/ProxyManager: src/proxy_manager.rs, with the watch channels in a store.
-- Controller/Streams: the routes and the recorder of src/proxy_tcp.rs, and `open_pool_stream`, where
-- a pooled connection is what it answers; Controller/Streams/Multiplexed: `open_stream`.
-- Controller/Pipe: `pipe_pool_inner` of src/proxy_tcp.rs on the events of its three tasks, in any
-- order; Controller/TcpTunnel: `handle_tcp`.
-- Controller/Socks5: addresses and UDP packets of src/proxy_socks5.rs; Controller/Socks5/Handshake:
-- what is said on a connection, from the hello to the reply, with what is written as part of the
-- result; Controller/Socks5/Associations and Controller/Socks5/Relay: the associations, the relay of
-- datagrams and the cleanup, as operations on one state. The text of IPv6 addresses is a parameter.
-- Controller/HttpProxy: src/proxy_http.rs on the chunks that the reads return; Base64 is a parameter.
-- Controller/UdpRelay: src/proxy_udp.rs; the task of the socket, the readers and the cleanup are
-- operations on one state, with the tunnel manager in it.
-- Controller/Bridge: src/bridge.rs, the admission of agents and the life of their connections.
-- Controller/Web: src/web.rs: login and sessions (Web/Auth), clients, tunnels and accounts, what the
-- console reports (Web/Reports), and the routes (Web/Api). HMAC-SHA1 is a parameter.
--
-- Agent (crates/rps-agent/src/main.rs). Agent: the configuration from the environment, `connect_role`
-- and what it answers to open requests; Agent/Target sets these against the controller's side.
-- Agent/Pool: `run_pool_manager` as a step relation on the number of slots that are free, dialling,
-- idle or waiting, over the connections of `run_agent`.
--
-- Machine integers: the stream id is 32 bits and wraps, lengths are cut to 32 bits when they are
-- written, usage is 64 bits and wraps or saturates as in the source. `read_loop` and `inbound` take
-- fuel: each round takes bytes from the input, so as many rounds as bytes are enough.
--
-- `acquire` takes the four tries of the source as fuel. `decimal` prints up to 20 digits, enough for
-- 64 bits.
--
-- Not modelled: the handshake of snow, socket options and the loading of files (system calls and
-- third-party code); opening a database and adding columns to it; JSON and the headers of the
-- console's answers; the relays of the agent, which copy as those of the controller do; the load test
-- and the test target, which only measure.
pub mod Base
pub mod Mux
pub mod Core
pub mod Controller
pub mod Agent
