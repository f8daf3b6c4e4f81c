-- ===== src/Cmd/Life.antt =====
-- The life of a node: the rounds of cmd/root.go on the server of proxy/vless, with what the
-- connections and Start do with that server before and during each round.
use vgate_server.Base.{
  ◌≡◌, refl, sym, ap, ◌∙◌, inl, inr, List, [], ◌∷◌, ◌++◌, Bool-cases, if◌then◌else◌, All,
}
use vgate_server.Base.Text.{Bytes}
use vgate_server.Base.Dict.{Dict}
use vgate_server.Model.{UserTraffic}
use vgate_server.Api.{
  Fetched, fetched, not_modified, no_usage_endpoint, fetch_error, Client, fetch_config, fetch_users,
  fetch_usage, report_traffic,
}
use vgate_server.Vless.Server.{Externals, Server}
use vgate_server.Vless.Traffic.{get_and_reset_traffic}
use vgate_server.Vless.System.{Op, configure, set_users, set_usage, collect, perform, perform_all}
use vgate_server.Cmd.{
  Answers, Node, Meanwhile, vless_inbound, merge, hand_over, report_pending, reload, sync,
}

-- A round: the operations of connections and of Start since the last round and while the
-- configuration is fetched, while the users are fetched, before the collection, and while the
-- traffic is reported and the usage fetched; and what the manager answers.
pub record Round (e : Externals) : Type 0 where
  pub loading : List (Op e)
  pub listing : List (Op e)
  pub collecting : List (Op e)
  pub reporting : List (Op e)
  pub answers : Answers e.Settings

-- Every operation of the round that is not a call of sync has this property.
abbrev pub AllOps : {e : Externals} → (Op e → Type 0) → Round e → Type 0
AllOps P r = All P r.loading × (All P r.listing × (All P r.collecting × All P r.reporting))

pub All-append :
    {A : Type 0} (P : A → Type 0) (xs ys : List A) → All P xs → All P ys → All P (xs ++ ys)
All-append P [] ys p q = q
All-append P (x ∷ xs) ys p q = (p.0, All-append P xs ys p.1 q)

module _ {e : Externals} where
  abbrev pub meanwhile : Round e → Meanwhile (Server e)
  meanwhile r = record {
    loading = perform_all r.loading;
    listing = perform_all r.listing;
    collecting = perform_all r.collecting;
    reporting = perform_all r.reporting;
  }

  abbrev pub one_round : Round e → Node (Server e) → Node (Server e) × List UserTraffic
  one_round r = sync (vless_inbound e) (meanwhile r) r.answers

  unfoldable pub run_rounds :
      List (Round e) → Node (Server e) → Node (Server e) × List (List UserTraffic)
  run_rounds [] n = (n, [])
  run_rounds (r ∷ rs) n =
      let (next, sent) = one_round r n in
      let (last, later) = run_rounds rs next in (last, sent ∷ later)

  -- The operation that a fetched value makes.
  abbrev pub fetched_ops : {A : Type 0} → (A → Op e) → Fetched A → List (Op e)
  fetched_ops f (fetched a) = f a ∷ []
  fetched_ops f not_modified = []
  fetched_ops f no_usage_endpoint = []
  fetched_ops f fetch_error = []

  abbrev pub configure_ops : Answers e.Settings → Client → List (Op e)
  configure_ops a c = fetched_ops configure (fetch_config c a.config).1

  abbrev pub users_ops : Answers e.Settings → Client → List (Op e)
  users_ops a c = fetched_ops set_users (fetch_users (fetch_config c a.config).0 a.users).1

  -- What happens before the collection.
  abbrev pub reload_ops : Round e → Client → List (Op e)
  reload_ops r c =
      r.loading
      ++ (configure_ops r.answers c ++ (r.listing ++ (users_ops r.answers c ++ r.collecting)))

  -- No usage is asked for if traffic waits and cannot be reported.
  abbrev pub usage_ops : Answers e.Settings → Dict Bytes UserTraffic → List (Op e)
  usage_ops a [] = fetched_ops set_usage (fetch_usage a.usage)
  usage_ops a (p ∷ ps) =
      if report_traffic a.report then fetched_ops set_usage (fetch_usage a.usage) else []

  -- The traffic that waits after the collection.
  abbrev pub merged : Round e → Node (Server e) → Dict Bytes UserTraffic
  merged r n =
      merge (get_and_reset_traffic (perform_all (reload_ops r n.client) n.server)).1 n.pending

  -- All that happens to the server in a round, in its order.
  abbrev pub sync_ops : Round e → Node (Server e) → List (Op e)
  sync_ops r n =
      reload_ops r n.client ++ collect ∷ (r.reporting ++ usage_ops r.answers (merged r n))

  abbrev pub life_ops : List (Round e) → Node (Server e) → List (Op e)
  life_ops [] n = []
  life_ops (r ∷ rs) n = sync_ops r n ++ life_ops rs (one_round r n).0

  pub perform_all-append :
      (xs ys : List (Op e)) (s : Server e)
      → perform_all (xs ++ ys) s ≡ perform_all ys (perform_all xs s)
  unfolding perform_all
  perform_all-append [] ys s = refl
  perform_all-append (x ∷ xs) ys s = perform_all-append xs ys (perform x s)

  hand_over_lem :
      {A : Type 0} (f : A → Op e) (r : Fetched A) (s : Server e)
      → hand_over (λ a t. perform (f a) t) r s ≡ perform_all (fetched_ops f r) s
  unfolding hand_over perform_all
  hand_over_lem f (fetched a) s = refl
  hand_over_lem f not_modified s = refl
  hand_over_lem f no_usage_endpoint s = refl
  hand_over_lem f fetch_error s = refl

  pub reload_lem :
      (r : Round e) (c : Client) (s : Server e)
      → (reload (vless_inbound e) (meanwhile r) r.answers c s).1 ≡ perform_all (reload_ops r c) s
  unfolding reload perform
  reload_lem r c s =
      let (c', config) = fetch_config c r.answers.config in
      let users = (fetch_users c' r.answers.users).1 in
      let with_config = configure_ops r.answers c in
      let with_users = users_ops r.answers c in
      rw
        (
          perform_all-append r.loading (with_config ++ (r.listing ++ (with_users ++ r.collecting)))
              s,
          perform_all-append with_config (r.listing ++ (with_users ++ r.collecting)) _,
          perform_all-append r.listing (with_users ++ r.collecting) _,
          perform_all-append with_users r.collecting _,
          ← hand_over_lem configure config (perform_all r.loading s),
          ← hand_over_lem set_users users _,
        )
        refl

  usage_lem :
      (r : Round e) (c : Client) (s : Server e) (m : Dict Bytes UserTraffic)
      → (report_pending (vless_inbound e) (meanwhile r) r.answers c s m).0.server
        ≡ perform_all (r.reporting ++ usage_ops r.answers m) s
  unfolding report_pending perform
  usage_lem r c s [] =
      hand_over_lem set_usage (fetch_usage r.answers.usage) _
      ∙ sym (perform_all-append r.reporting (usage_ops r.answers []) s)
  usage_lem r c s (p ∷ ps) = elim (Bool-cases (report_traffic r.answers.report)) [
    | inl sent ↦
        rw (sent, perform_all-append r.reporting)
          (hand_over_lem set_usage (fetch_usage r.answers.usage) _)
    | inr kept ↦ rw (kept, perform_all-append r.reporting) (unfold perform_all in refl)
  ]

  -- Whatever the connections do between the calls of sync, and whatever the manager answers, a round
  -- is a sequence of operations of the server.
  pub sync_performs :
      (r : Round e) (n : Node (Server e))
      → (one_round r n).0.server ≡ perform_all (sync_ops r n) n.server
  unfolding sync perform perform_all
  sync_performs r n =
      let (client, server) = reload (vless_inbound e) (meanwhile r) r.answers n.client n.server in
      let loaded = perform_all (reload_ops r n.client) n.server in
      let after = λ (s : Server e).
        (report_pending (vless_inbound e) (meanwhile r) r.answers client (get_and_reset_traffic s).0
          (merge (get_and_reset_traffic s).1 n.pending)).0.server in
      ap after (reload_lem r n.client n.server)
      ∙ usage_lem r client (get_and_reset_traffic loaded).0 (merged r n)
      ∙ sym (
          perform_all-append (reload_ops r n.client)
            (collect ∷ (r.reporting ++ usage_ops r.answers (merged r n))) n.server)

  pub run_rounds_performs :
      (rs : List (Round e)) (n : Node (Server e))
      → (run_rounds rs n).0.server ≡ perform_all (life_ops rs n) n.server
  unfolding run_rounds perform_all
  run_rounds_performs [] n = refl
  run_rounds_performs (r ∷ rs) n =
      let next = (one_round r n).0 in
      run_rounds_performs rs next
      ∙ ap (perform_all (life_ops rs next)) (sync_performs r n)
      ∙ sym (perform_all-append (sync_ops r n) (life_ops rs next) n.server)
