-- ===== src/Cmd.antt =====
-- cmd/root.go and proxy/proxy.go: the synchronisation with the manager, over the interface that the
-- server of proxy/vless implements. The order of a Go map is not modelled; `usageEndpointMissing`
-- only silences a log line.
pub mod Pending
pub mod Rounds
pub mod Startup
pub mod Life
pub mod Supply
pub mod Program
pub mod Books
pub mod Reports
pub mod Conserve
use vgate_server.Base.{ℕ, List, [], ◌∷◌, ◌++◌, Option, none, some, Bool, true, false, if◌then◌else◌}
use vgate_server.Base.Int.{add64}
use vgate_server.Base.Text.{Bytes, bytes_key}
use vgate_server.Base.Dict.{Dict, get, put}
use vgate_server.Model.{Config, User, UserTraffic, UserUsage}
use vgate_server.Api.{
  Answer, Fetched, fetched, not_modified, no_usage_endpoint, fetch_error, Client, fetch_config,
  fetch_users, fetch_usage, report_traffic,
}
use vgate_server.Vless.Server.{Externals, Server}
use vgate_server.Vless.Config.{update_config}
use vgate_server.Vless.User.{update_users}
use vgate_server.Vless.Quota.{apply_usage}
use vgate_server.Vless.Traffic.{get_and_reset_traffic}

-- proxy.Inbound, without Start
pub record Inbound (Settings S : Type 0) : Type 0 where
  pub update_config : Config Settings → S → S
  pub update_users : List User → S → S
  pub apply_usage : List UserUsage → S → S
  pub get_and_reset_traffic : S → S × List UserTraffic

-- The server of proxy/vless; that UpdateConfig closes the listener concerns Start alone.
abbrev pub vless_inbound : (e : Externals) → Inbound e.Settings (Server e)
vless_inbound e = record {
  update_config = λ cfg s. (update_config cfg s).0;
  update_users = update_users;
  apply_usage = apply_usage;
  get_and_reset_traffic = get_and_reset_traffic;
}

-- What the manager answers in one round.
pub record Answers (Settings : Type 0) : Type 0 where
  pub config : Answer (Config Settings)
  pub users : Answer (List User)
  pub report : Answer (Unit {0})
  pub usage : Answer (List UserUsage)

pub record Node (S : Type 0) : Type 0 where
  pub client : Client
  pub server : S
  pub pending : Dict Bytes UserTraffic

-- s.Email + "\x00" + s.NodeID
unfoldable pub pending_key : UserTraffic → Bytes
pending_key t = t.email ++ 0 ∷ t.node_id

unfoldable pub add_stat : UserTraffic → Option UserTraffic → UserTraffic
add_stat t none = t
add_stat t (some old) = record old { up = add64 old.up t.up; down = add64 old.down t.down }

-- The loop over the deltas of this round.
unfoldable pub merge : List UserTraffic → Dict Bytes UserTraffic → Dict Bytes UserTraffic
merge [] m = m
merge (t ∷ ts) m = merge ts (put m (pending_key t) (add_stat t (get m (pending_key t))))

abbrev pub values : Dict Bytes UserTraffic → List UserTraffic
values [] = []
values ((k, t) ∷ m) = t ∷ values m

-- Only a value that was fetched is handed over.
unfoldable pub hand_over : {A S : Type 0} → (A → S → S) → Fetched A → S → S
hand_over f (fetched a) s = f a s
hand_over f not_modified s = s
hand_over f no_usage_endpoint s = s
hand_over f fetch_error s = s

-- What the connections and Start do to the server during a round of sync, which holds no lock while
-- it waits for the manager: before UpdateConfig, before UpdateUsers, before GetAndResetTraffic, and
-- before ApplyUsage. A gap whose call is left out is there all the same.
pub record Meanwhile (S : Type 0) : Type 0 where
  pub loading : S → S
  pub listing : S → S
  pub collecting : S → S
  pub reporting : S → S

-- Nothing happens.
abbrev pub alone : {S : Type 0} → Meanwhile S
alone = record { loading = λ s. s; listing = λ s. s; collecting = λ s. s; reporting = λ s. s }

module _ {Settings S : Type 0} (inbound : Inbound Settings S) (w : Meanwhile S) where
  -- The report, and the usage after it: the node, and the traffic that the manager acknowledged.
  unfoldable pub report_pending :
      Answers Settings → Client → S → Dict Bytes UserTraffic → Node S × List UserTraffic
  unfolding hand_over
  report_pending a c s [] = (
    record {
      client = c;
      server = hand_over inbound.apply_usage (fetch_usage a.usage) (w.reporting s);
      pending = [];
    },
    [],
  )
  report_pending a c s (p ∷ ps) =
      if report_traffic a.report
      then (
        record {
          client = c;
          server = hand_over inbound.apply_usage (fetch_usage a.usage) (w.reporting s);
          pending = [];
        },
        values (p ∷ ps),
      )
      else (record { client = c; server = w.reporting s; pending = p ∷ ps }, [])

  -- The server as GetAndResetTraffic finds it, after the configuration and the users of a round.
  unfoldable pub reload : Answers Settings → Client → S → Client × S
  unfolding hand_over
  reload a c s =
      let (c', config) = fetch_config c a.config in
      let (c'', users) = fetch_users c' a.users in
      let configured = hand_over inbound.update_config config (w.loading s) in
      (c'', w.collecting (hand_over inbound.update_users users (w.listing configured)))

  -- sync
  unfoldable pub sync : Answers Settings → Node S → Node S × List UserTraffic
  sync a n =
      let (client, server) = reload a n.client n.server in
      let (server', stats) = inbound.get_and_reset_traffic server in
      report_pending a client server' (merge stats n.pending)
