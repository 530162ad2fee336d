-- ===== src/Core/Config.antt =====
-- crates/rps-core/src/config.rs: the parts of the controller's configuration that the database is
-- seeded from.
use rps.Base.{ℕ, Bool, Option, List}
use rps.Base.Text.{Text}

pub record ProxyListenConfig : Type 0 where
  pub listen : Text
  pub client_id : Text
  pub public_udp_addr : Option Text
  pub enabled : Bool

pub record ClientConfig : Type 0 where
  pub id : Text
  pub psk : Text
  pub enabled : Bool
  pub remark : Option Text
  pub max_connections : Option ℕ
  pub compress : Bool
  pub encrypt : Bool

pub data TunnelMode : Type 0 where
  tcp : TunnelMode
  udp : TunnelMode

pub record TunnelConfig : Type 0 where
  pub id : Text
  pub client_id : Text
  pub mode : TunnelMode
  pub listen : Text
  pub target : Option Text
  pub enabled : Bool

-- `ControllerConfig`, with the fields of `server` that the database reads.
pub record ControllerConfig : Type 0 where
  pub http_proxy : Option ProxyListenConfig
  pub socks5 : Option ProxyListenConfig
  pub clients : List ClientConfig
  pub tunnels : List TunnelConfig

pub record AgentConfig : Type 0 where
  pub server_addr : Text
  pub client_id : Text
  pub psk : Text
  pub reconnect_interval_secs : ℕ
