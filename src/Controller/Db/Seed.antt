-- ===== src/Controller/Db/Seed.antt =====
-- crates/rps-controller/src/db.rs: the rows that the configuration brings in at the start.
use rps.Base.{Option, none, some, List, [], ◌∷◌, Result, ok, err}
use rps.Base.Int.{ℤ}
use rps.Base.Text.{Text, text}
use rps.Core.Config.{ClientConfig, TunnelConfig, ProxyListenConfig, ControllerConfig}
use rps.Controller.Db.{Database, DbError}
use rps.Controller.Db.Clients.{insert_config_client}
use rps.Controller.Db.Tunnels.{insert_config_tunnel}
use rps.Controller.Db.ProxyAccounts.{insert_config_proxy}

-- The first client that fails ends the seeding; what was inserted before it stays.
unfoldable pub seed_clients :
    Database → ℤ → List ClientConfig → Result DbError (Unit {0}) × Database
seed_clients db now [] = (ok tt, db)
seed_clients db now (client ∷ clients) = elim (insert_config_client db now client) [
  | err e ↦ (err e, db)
  | ok db' ↦ seed_clients db' now clients
]

unfoldable pub seed_tunnels : Database → ℤ → List TunnelConfig → Database
seed_tunnels db now [] = db
seed_tunnels db now (tunnel ∷ tunnels) =
    seed_tunnels (insert_config_tunnel db now tunnel) now tunnels

abbrev pub seed_proxy : Database → ℤ → Text → Option ProxyListenConfig → Database
seed_proxy db now kind none = db
seed_proxy db now kind (some proxy) = insert_config_proxy db now kind proxy

unfoldable pub seed_from_config :
    Database → ℤ → ControllerConfig → Result DbError (Unit {0}) × Database
seed_from_config db now config =
    let seeded = seed_clients db now config.clients in
    let tunnels = seed_tunnels seeded.1 now config.tunnels in
    elim seeded.0 [
      | err e ↦ (err e, seeded.1)
      | ok _ ↦ (
        ok tt,
        seed_proxy (seed_proxy tunnels now (text "http") config.http_proxy) now (text "socks5")
            config.socks5,
      )
    ]
