-- ===== src/Cmd/Supply.antt =====
-- What the manager and the connections may put into the rounds of cmd/root.go.
use vgate_server.Base.{ℕ, inl, inr, List, [], ◌∷◌, ◌++◌, Option, none, some, All, Bool-cases, ◌==◌}
use vgate_server.Base.Text.{Bytes}
use vgate_server.Base.Dict.{Dict}
use vgate_server.Model.{User, UserTraffic}
use vgate_server.Api.{
  Answer, unreachable, replied, Fetched, fetched, not_modified, no_usage_endpoint, fetch_error,
  Client, decoded, fetch_tagged, fetch_config, fetch_users, fetch_usage, report_traffic,
}
use vgate_server.Vless.Server.{Externals, Server}
use vgate_server.Vless.System.{Op, configure, set_users, set_usage, collect}
use vgate_server.Vless.System.Emails.{OwnEmails, IsSupplied}
use vgate_server.Cmd.{Answers, Node}
use vgate_server.Cmd.Life.{
  Round, AllOps, All-append, one_round, fetched_ops, configure_ops, users_ops, reload_ops,
  usage_ops, merged, sync_ops, life_ops,
}

-- A list of users in an answer gives each user an email of their own.
abbrev pub OwnAnswer : Answer (List User) → Type 0
OwnAnswer unreachable = Unit
OwnAnswer (replied status etag none) = Unit
OwnAnswer (replied status etag (some us)) = OwnEmails us

abbrev pub Supplies : {e : Externals} → Round e → Type 0
Supplies r = AllOps IsSupplied r × OwnAnswer r.answers.users

module _ (e : Externals) where
  -- Operations other than a list of users ask for nothing.
  fetched_ops-IsSupplied :
      {A : Type 0} (f : A → Op e) (r : Fetched A)
      → ((a : A) → IsSupplied (f a))
      → All IsSupplied (fetched_ops f r)
  fetched_ops-IsSupplied f (fetched a) h = (h a, tt)
  fetched_ops-IsSupplied f not_modified h = tt
  fetched_ops-IsSupplied f no_usage_endpoint h = tt
  fetched_ops-IsSupplied f fetch_error h = tt

  decoded-IsSupplied :
      (body : Option (List User)) (status : ℕ) (t : Bytes)
      → OwnAnswer (replied status t body)
      → All IsSupplied (fetched_ops {e = e} set_users (decoded body))
  unfolding decoded
  decoded-IsSupplied none status t own = tt
  decoded-IsSupplied (some us) status t own = (own, tt)

  fetch_tagged-IsSupplied :
      (etag : Bytes) (a : Answer (List User))
      → OwnAnswer a
      → All IsSupplied (fetched_ops {e = e} set_users (fetch_tagged etag a).1)
  unfolding fetch_tagged
  fetch_tagged-IsSupplied etag unreachable own = tt
  fetch_tagged-IsSupplied etag (replied status t body) own = elim (Bool-cases (status == 304)) [
    | inl same ↦ rw same tt
    | inr new ↦ elim (Bool-cases (status == 200)) [
      | inl good ↦ rw (new, good) (decoded-IsSupplied body status t own)
      | inr bad ↦ rw (new, bad) tt
    ]
  ]

  reload_ops-IsSupplied : (r : Round e) (c : Client) → Supplies r → All IsSupplied (reload_ops r c)
  unfolding fetch_users
  reload_ops-IsSupplied r c h =
      let c' = (fetch_config c r.answers.config).0 in
      let configured = configure_ops r.answers c in
      let renewed = users_ops r.answers c in
      let join = All-append (IsSupplied {e = e}) in
      join r.loading (configured ++ (r.listing ++ (renewed ++ r.collecting))) h.0.0 (
        join configured (r.listing ++ (renewed ++ r.collecting))
          (fetched_ops-IsSupplied configure (fetch_config c r.answers.config).1 (λ cfg. tt))
          (join r.listing (renewed ++ r.collecting) h.0.1.0 (
            join renewed r.collecting (fetch_tagged-IsSupplied c'.users_etag r.answers.users h.1)
              h.0.1.1.0)))

  usage_ops-IsSupplied :
      (a : Answers e.Settings) (m : Dict Bytes UserTraffic) → All IsSupplied (usage_ops {e = e} a m)
  usage_ops-IsSupplied a [] = fetched_ops-IsSupplied set_usage (fetch_usage a.usage) (λ us. tt)
  usage_ops-IsSupplied a (p ∷ ps) = elim (Bool-cases (report_traffic a.report)) [
    | inl sent ↦ rw sent (fetched_ops-IsSupplied set_usage (fetch_usage a.usage) (λ us. tt))
    | inr kept ↦ rw kept tt
  ]

  sync_ops-IsSupplied :
      (r : Round e) (n : Node (Server e)) → Supplies r → All IsSupplied (sync_ops r n)
  sync_ops-IsSupplied r n h =
      let asked = usage_ops r.answers (merged r n) in
      All-append IsSupplied (reload_ops r n.client) (collect ∷ (r.reporting ++ asked))
        (reload_ops-IsSupplied r n.client h)
        (
          tt,
          All-append IsSupplied r.reporting asked h.0.1.1.1
              (usage_ops-IsSupplied r.answers (merged r n)),
        )

  pub life_ops-IsSupplied :
      (rs : List (Round e)) (n : Node (Server e)) → All Supplies rs → All IsSupplied (life_ops rs n)
  life_ops-IsSupplied [] n h = tt
  life_ops-IsSupplied (r ∷ rs) n h =
      let next = (one_round r n).0 in
      All-append IsSupplied (sync_ops r n) (life_ops rs next) (sync_ops-IsSupplied r n h.0)
        (life_ops-IsSupplied rs next h.1)
