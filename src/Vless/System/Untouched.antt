-- ===== src/Vless/System/Untouched.antt =====
-- What the end of a connection and a configuration leave alone in proxy/vless.
use vgate_server.Base.{ℕ, ◌≡◌, arith}
use vgate_server.Base.Text.{Bytes}
use vgate_server.Model.{Config}
use vgate_server.Vless.Server.{Externals, Server}
use vgate_server.Vless.User.{remove_conn, remove_found}
use vgate_server.Vless.Config.{update_vless, update_config}

module _ {e : Externals} where
  pub books-remove_conn :
      (uuid : Bytes) (conn : ℕ) (s : Server e)
      → let t = remove_conn uuid conn s in
        (t.user_traffic ≡ s.user_traffic) × (t.user_quota ≡ s.user_quota)
  unfolding remove_conn remove_found
  books-remove_conn uuid conn s = ground arith

  pub books-update_config :
      (cfg : Config e.Settings) (s : Server e)
      → let t = (update_config cfg s).0 in
        (t.user_traffic ≡ s.user_traffic) × (t.user_quota ≡ s.user_quota)
  unfolding update_config update_vless
  books-update_config cfg s = ground arith
