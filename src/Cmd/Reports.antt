-- ===== src/Cmd/Reports.antt =====
-- What a round of cmd/root.go collects, as reports of the server of proxy/vless: only sync collects.
use vgate_server.Base.{
  ℕ, ◌+◌, ◌^◌, ◌<◌, ◌≡◌, refl, ap, ◌∙◌, sym, List, [], ◌∷◌, ◌++◌, append_assoc, append-nil, arith,
  All, true, inl, inr, Bool-cases,
}
use vgate_server.Base.Text.{Bytes, bytes_key}
use vgate_server.Base.Dict.{Dict}
use vgate_server.Model.{UserTraffic}
use vgate_server.Api.{
  Client, Fetched, fetched, not_modified, no_usage_endpoint, fetch_error, report_traffic,
  fetch_usage, fetch_config, fetch_users,
}
use vgate_server.Vless.Server.{Externals, Server}
use vgate_server.Vless.Traffic.{get_and_reset_traffic}
use vgate_server.Vless.Traffic.Ledger.{upload}
use vgate_server.Vless.System.{
  Op, configure, set_users, set_usage, collect, name_node, listen_on, open_conn, count, end_conn,
  refuse, perform, perform_all,
}
use vgate_server.Vless.System.Books.{IsTally}
use vgate_server.Vless.System.Conserve.{
  report_of, reports, all_bytes, AllAttributed, perform_all-IsTally,
}
use vgate_server.Cmd.{Answers, Node, vless_inbound}
use vgate_server.Cmd.Pending.{IsCount}
use vgate_server.Cmd.Rounds.{deltas}
use vgate_server.Cmd.Life.{
  Round, AllOps, All-append, meanwhile, fetched_ops, configure_ops, users_ops, reload_ops,
  usage_ops, merged, sync_ops, reload_lem,
}
use vgate_server.Cmd.Books.{report-IsCount, append-IsCount}

module _ {e : Externals} where
  -- Only sync collects.
  abbrev pub IsCollectFree : Op e → Type 0
  IsCollectFree collect = ⊥
  IsCollectFree op = Unit

  report_of_none : (op : Op e) (s : Server e) → IsCollectFree op → report_of op s ≡ []
  report_of_none (configure cfg) s h = refl
  report_of_none (set_users us) s h = refl
  report_of_none (set_usage us) s h = refl
  report_of_none collect s h = absurd h
  report_of_none (name_node id) s h = refl
  report_of_none (listen_on l) s h = refl
  report_of_none (open_conn uuid conn) s h = refl
  report_of_none (count uuid node up down) s h = refl
  report_of_none (end_conn uuid conn) s h = refl
  report_of_none (refuse conn) s h = refl

  reports_none : (ops : List (Op e)) (s : Server e) → All IsCollectFree ops → reports ops s ≡ []
  reports_none [] s h = refl
  reports_none (op ∷ ops) s h = rw (report_of_none op s h.0) (reports_none ops (perform op s) h.1)

  reports-append :
      (xs ys : List (Op e)) (s : Server e)
      → reports (xs ++ ys) s ≡ reports xs s ++ reports ys (perform_all xs s)
  unfolding perform_all
  reports-append [] ys s = refl
  reports-append (x ∷ xs) ys s =
      rw (reports-append xs ys (perform x s))
        (sym (append_assoc (report_of x s) (reports xs (perform x s)) _))

  fetched-IsCollectFree :
      {A : Type 0} (f : A → Op e) (r : Fetched A)
      → ((a : A) → IsCollectFree (f a))
      → All IsCollectFree (fetched_ops f r)
  fetched-IsCollectFree f (fetched a) h = (h a, tt)
  fetched-IsCollectFree f not_modified h = tt
  fetched-IsCollectFree f no_usage_endpoint h = tt
  fetched-IsCollectFree f fetch_error h = tt

  reload_ops-IsCollectFree :
      (r : Round e) (c : Client) → AllOps IsCollectFree r → All IsCollectFree (reload_ops r c)
  reload_ops-IsCollectFree r c (loading, (listing, (collecting, reporting))) =
      let (c', config) = fetch_config c r.answers.config in
      let configured = configure_ops r.answers c in
      let renewed = users_ops r.answers c in
      let join = All-append IsCollectFree in
      join r.loading (configured ++ (r.listing ++ (renewed ++ r.collecting))) loading (
        join configured (r.listing ++ (renewed ++ r.collecting))
          (fetched-IsCollectFree configure config (λ cfg. tt))
          (join r.listing (renewed ++ r.collecting) listing (
            join renewed r.collecting
              (fetched-IsCollectFree set_users (fetch_users c' r.answers.users).1 (λ us. tt))
              collecting)))

module _ (e : Externals) where
  usage_ops-IsCollectFree :
      (a : Answers e.Settings) (m : Dict Bytes UserTraffic)
      → All IsCollectFree (usage_ops {e = e} a m)
  usage_ops-IsCollectFree a [] = fetched-IsCollectFree set_usage (fetch_usage a.usage) (λ us. tt)
  usage_ops-IsCollectFree a (p ∷ ps) = elim (Bool-cases (report_traffic a.report)) [
    | inl sent ↦ rw sent (fetched-IsCollectFree set_usage (fetch_usage a.usage) (λ us. tt))
    | inr kept ↦ rw kept tt
  ]

module _ {e : Externals} where
  -- The reports of a round are the deltas that sync collects.
  pub reports-sync_ops :
      (r : Round e) (n : Node (Server e))
      → AllOps IsCollectFree r
      → reports (sync_ops r n) n.server ≡ deltas (vless_inbound e) (meanwhile r) r.answers n
  reports-sync_ops r n free =
      let before = reload_ops r n.client in
      let behind = r.reporting ++ usage_ops r.answers (merged r n) in
      let loaded = perform_all before n.server in
      let behind-IsCollectFree =
        All-append IsCollectFree r.reporting (usage_ops r.answers (merged r n)) free.1.1.1
          (usage_ops-IsCollectFree e r.answers (merged r n)) in
      reports-append before (collect ∷ behind) n.server
      ∙ rw
          (
            reports_none before n.server (reload_ops-IsCollectFree r n.client free),
            reports_none behind (perform collect loaded) behind-IsCollectFree,
            append-nil (get_and_reset_traffic loaded).1,
          )
          (ap (λ (s : Server e). (get_and_reset_traffic s).1)
            (sym (reload_lem r n.client n.server)))

  report_of-IsCount :
      (op : Op e) (t : ℕ) (s : Server e)
      → All (IsTally t) s.user_traffic
      → All IsCount (report_of op s)
  unfolding get_and_reset_traffic
  report_of-IsCount (configure cfg) t s h = tt
  report_of-IsCount (set_users us) t s h = tt
  report_of-IsCount (set_usage us) t s h = tt
  report_of-IsCount collect t s h = report-IsCount s.users t s.user_traffic h
  report_of-IsCount (name_node id) t s h = tt
  report_of-IsCount (listen_on l) t s h = tt
  report_of-IsCount (open_conn uuid conn) t s h = tt
  report_of-IsCount (count uuid node up down) t s h = tt
  report_of-IsCount (end_conn uuid conn) t s h = tt
  report_of-IsCount (refuse conn) t s h = tt

  pub reports-IsCount :
      (ops : List (Op e)) (t : ℕ) (s : Server e)
      → All (IsTally t) s.user_traffic
      → AllAttributed ops s
      → t + all_bytes ops < 2 ^ 63
      → All IsCount (reports ops s)
  reports-IsCount [] t s h k f = tt
  reports-IsCount (op ∷ ops) t s h k f =
      let next = perform_all-IsTally (λ x y. true) upload (op ∷ []) t s h (k.0, tt) (omega arith) in
      append-IsCount (report_of op s) (reports ops (perform op s)) (report_of-IsCount op t s h) (
        reports-IsCount ops (t + all_bytes (op ∷ [])) (perform op s) (unfold perform_all in next)
          k.1 (omega arith))
