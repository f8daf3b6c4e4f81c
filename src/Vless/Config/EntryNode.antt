-- ===== src/Vless/Config/EntryNode.antt =====
-- The entry points of Reality short IDs after UpdateConfig.
use vgate_server.Base.{
  List, [], ◌∷◌, Option, none, some, Option-cases, ◌≡◌, refl, inl, inr, ◌∙◌, ite, ap,
}
use vgate_server.Base.Text.{Bytes, bytes_key, Bytes-discrete}
use vgate_server.Base.Dict.{Dict, get, put, get-put}
use vgate_server.Model.{TrafficSid, Config}
use vgate_server.Vless.Server.{Externals, Server}
use vgate_server.Vless.Handler.{entry_node}
use vgate_server.Vless.Traffic.{node_for_short_id}
use vgate_server.Vless.Config.{sid_nodes, update_config}
use vgate_server.Vless.Config.Keys.{sid_key}

-- The node of the last entry whose short ID has this key.
abbrev pub owner : Bytes → List TrafficSid → Bytes → Bytes
owner key [] node = node
owner key (t ∷ ts) node =
    owner key ts
      (elim (sid_key t.sid) [ none ↦ node | some k ↦ ite (Bytes-discrete k key) t.node_id node ])

abbrev pub node_or_none : Option Bytes → Bytes
node_or_none none = []
node_or_none (some node) = node

get-put_node :
    (m : Dict Bytes Bytes) (k key node : Bytes)
    → node_or_none (get (put m k node) key)
      ≡ ite (Bytes-discrete k key) node (node_or_none (get m key))
get-put_node m k key node =
    rw (get-put m k key node)
      (elim (Bytes-discrete k key)
        as (λ d.
          node_or_none (ite d (some node) (get m key)) ≡ ite d node (node_or_none (get m key))) [
            | yes hit ↦ refl
            | no miss ↦ refl
          ])

get-sid_nodes :
    (ts : List TrafficSid) (m : Dict Bytes Bytes) (key : Bytes)
    → node_or_none (get (sid_nodes ts m) key) ≡ owner key ts (node_or_none (get m key))
unfolding sid_nodes
get-sid_nodes [] m key = refl
get-sid_nodes (t ∷ ts) m key = elim (Option-cases (sid_key t.sid)) [
  | inl bad ↦ rw bad (get-sid_nodes ts m key)
  | inr (k, good) ↦ rw good (
      get-sid_nodes ts (put m k t.node_id) key ∙ ap (owner key ts) (get-put_node m k key t.node_id))
]

entry_node_lem :
    {e : Externals} (t : Server e) (sid : Bytes)
    → entry_node (some sid) t ≡ node_or_none (get t.sid_node sid)
unfolding entry_node node_for_short_id
entry_node_lem t sid = elim (Option-cases (get t.sid_node sid)) [
  | inl absent ↦ rw (absent, entry_node, node_for_short_id)
  | inr (node, known) ↦ rw (known, entry_node, node_for_short_id)
]

module _ {e : Externals} (cfg : Config e.Settings) (s : Server e) where
  sid_node-update_config : (update_config cfg s).0.sid_node ≡ sid_nodes cfg.traffic_sids []
  unfolding update_config
  sid_node-update_config = refl

  -- After an update, traffic of a Reality connection counts for the node that the configuration
  -- lists last with the connection's short ID, and for the empty name if it lists none, whatever the
  -- server had before.
  pub entry_node-update_config :
      (sid : Bytes) → entry_node (some sid) (update_config cfg s).0 ≡ owner sid cfg.traffic_sids []
  unfolding get
  entry_node-update_config sid =
      entry_node_lem (update_config cfg s).0 sid
      ∙ ap (λ m. node_or_none (get m sid)) sid_node-update_config
      ∙ get-sid_nodes cfg.traffic_sids [] sid
