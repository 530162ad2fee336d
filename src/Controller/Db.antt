-- ===== src/Controller/Db.antt =====
-- crates/rps-controller/src/db.rs. A table is the list of its rows; a statement that breaks a
-- unique constraint fails and changes nothing. Failures of the disk and the migration of old
-- databases are left out. The clock and fresh identifiers are arguments.
pub mod Migration
pub mod Columns
pub mod Clients
pub mod Tunnels
pub mod ProxyAccounts
pub mod Counters
pub mod Sessions
pub mod Seed
use rps.Base.{ℕ, Bool, Option, List, []}
use rps.Base.Int.{ℤ}
use rps.Base.Text.{Text}
use rps.Core.Config.{TunnelMode}

pub record DbClient : Type 0 where
  pub id : Text
  pub psk : Text
  pub enabled : Bool
  pub remark : Option Text
  pub max_connections : Option ℕ
  pub compress : Bool
  pub encrypt : Bool

pub record DbTunnel : Type 0 where
  pub id : Text
  pub client_id : Text
  pub mode : TunnelMode
  pub listen : Text
  pub target : Option Text
  pub enabled : Bool
  pub expires_at : Option ℤ
  pub traffic_limit_bytes : Option ℕ
  pub rx_bytes : ℕ
  pub tx_bytes : ℕ
  pub disabled_reason : Option Text

pub record DbProxyAccount : Type 0 where
  pub id : Text
  pub kind : Text
  pub client_id : Text
  pub username : Text
  pub password : Text
  pub enabled : Bool
  pub remark : Option Text
  pub expires_at : Option ℤ
  pub traffic_limit_bytes : Option ℕ
  pub rx_bytes : ℕ
  pub tx_bytes : ℕ
  pub disabled_reason : Option Text

pub record NewClient : Type 0 where
  pub id : Text
  pub psk : Text
  pub enabled : Bool
  pub remark : Option Text
  pub max_connections : Option ℕ
  pub compress : Bool
  pub encrypt : Bool

pub record UpdateClient : Type 0 where
  pub psk : Text
  pub enabled : Bool
  pub remark : Option Text
  pub max_connections : Option ℕ
  pub compress : Bool
  pub encrypt : Bool

pub record NewTunnel : Type 0 where
  pub id : Text
  pub client_id : Text
  pub mode : TunnelMode
  pub listen : Text
  pub target : Option Text
  pub enabled : Bool
  pub expires_at : Option ℤ
  pub traffic_limit_bytes : Option ℕ

pub record UpdateTunnel : Type 0 where
  pub client_id : Text
  pub mode : TunnelMode
  pub listen : Text
  pub target : Option Text
  pub enabled : Bool
  pub expires_at : Option ℤ
  pub traffic_limit_bytes : Option ℕ

pub record NewProxyAccount : Type 0 where
  pub id : Text
  pub kind : Text
  pub client_id : Text
  pub username : Text
  pub password : Text
  pub enabled : Bool
  pub remark : Option Text
  pub expires_at : Option ℤ
  pub traffic_limit_bytes : Option ℕ

pub record UpdateProxyAccount : Type 0 where
  pub kind : Text
  pub client_id : Text
  pub username : Text
  pub password : Text
  pub enabled : Bool
  pub remark : Option Text
  pub expires_at : Option ℤ
  pub traffic_limit_bytes : Option ℕ

pub record TrafficCounter : Type 0 where
  pub rx_bytes : ℕ
  pub tx_bytes : ℕ

-- What `anyhow::Error` carries here.
pub data DbError : Type 0 where
  constraint : DbError
  decode : DbError
  invalid_mode : Text → DbError
  invalid_kind : Text → DbError
  not_inserted : Text → DbError
  row_not_found : DbError

-- A sum of integers past 64 bits is a `real`.
pub data Sum : Type 0 where
  integer : ℤ → Sum
  real : Sum

pub record ClientRow : Type 0 where
  pub id : Text
  pub psk : Text
  pub enabled : ℤ
  pub remark : Option Text
  pub max_connections : Option ℤ
  pub compress : ℤ
  pub encrypt : ℤ
  pub created_at : ℤ
  pub updated_at : ℤ

pub record TunnelRow : Type 0 where
  pub id : Text
  pub client_id : Text
  pub mode : Text
  pub listen : Text
  pub target : Option Text
  pub enabled : ℤ
  pub expires_at : Option ℤ
  pub traffic_limit_bytes : Option ℤ
  pub rx_bytes : Sum
  pub tx_bytes : Sum
  pub disabled_reason : Option Text
  pub created_at : ℤ
  pub updated_at : ℤ

pub record ProxyListenerRow : Type 0 where
  pub kind : Text
  pub listen : Text
  pub client_id : Text
  pub enabled : ℤ
  pub created_at : ℤ
  pub updated_at : ℤ

pub record ProxyAccountRow : Type 0 where
  pub id : Text
  pub kind : Text
  pub client_id : Text
  pub username : Text
  pub password : Text
  pub enabled : ℤ
  pub remark : Option Text
  pub expires_at : Option ℤ
  pub traffic_limit_bytes : Option ℤ
  pub rx_bytes : Sum
  pub tx_bytes : Sum
  pub disabled_reason : Option Text
  pub created_at : ℤ
  pub updated_at : ℤ

pub record ClientOnlineRow : Type 0 where
  pub client_id : Text
  pub online : ℤ
  pub control_connected_at : Option ℤ
  pub data_connected_at : Option ℤ
  pub last_seen : Option ℤ

pub record AgentSessionRow : Type 0 where
  pub id : Text
  pub client_id : Text
  pub role : Text
  pub remote_addr : Option Text
  pub connected_at : ℤ
  pub disconnected_at : Option ℤ

pub record StreamSessionRow : Type 0 where
  pub id : Text
  pub client_id : Text
  pub tunnel_id : Text
  pub protocol : Text
  pub target : Text
  pub remote_addr : Text
  pub rx_bytes : ℤ
  pub tx_bytes : ℤ
  pub opened_at : ℤ
  pub closed_at : Option ℤ

pub record TrafficCounterRow : Type 0 where
  pub scope : Text
  pub key : Text
  pub rx_bytes : Sum
  pub tx_bytes : Sum
  pub updated_at : ℤ

pub record UsageSnapshotRow : Type 0 where
  pub id : Text
  pub scope : Text
  pub key : Text
  pub rx_bytes : ℤ
  pub tx_bytes : ℤ
  pub captured_at : ℤ

pub record Database : Type 0 where
  pub clients : List ClientRow
  pub tunnels : List TunnelRow
  pub proxy_listeners : List ProxyListenerRow
  pub proxy_accounts : List ProxyAccountRow
  pub client_online : List ClientOnlineRow
  pub agent_sessions : List AgentSessionRow
  pub stream_sessions : List StreamSessionRow
  pub traffic_counters : List TrafficCounterRow
  pub usage_snapshots : List UsageSnapshotRow

-- The tables as `migrate` creates them.
abbrev pub empty : Database
empty = record {
  clients = [];
  tunnels = [];
  proxy_listeners = [];
  proxy_accounts = [];
  client_online = [];
  agent_sessions = [];
  stream_sessions = [];
  traffic_counters = [];
  usage_snapshots = [];
}
