-- ===== src/Vless/Quota/Cut.antt =====
-- The local cut of quota.go over any sequence of counted chunks.
use mathlib.Core.Option
use vgate_server.Base.{
  ℕ, ◌+◌, ◌≡◌, ◌≢◌, refl, sym, ap, inl, inr, List, [], ◌∷◌, ◌++◌, Option, none, some, false, not,
  ◌&&◌, if◌then◌else◌, arith, Bool-cases,
}
use vgate_server.Base.Int.{ℤ, pos, ltb_ℤ, add64}
use vgate_server.Base.Text.{Bytes, bytes_key}
use vgate_server.Base.Dict.{get}
use vgate_server.Vless.Server.{Externals, Server, QuotaState}
use vgate_server.Vless.Quota.{members, conns_or_none, user_over_quota}
use vgate_server.Vless.Quota.Accrual.{
  meter, quota-accrue_quota_locked, quota-accrue_quota_locked_ne, closed-accrue_quota_locked,
  conns-accrue_quota_locked,
}
use vgate_server.Vless.Traffic.{add_traffic}

-- Bytes that one Read or Write transferred.
pub record Chunk : Type 0 where
  pub node : Bytes
  pub up : ℕ
  pub down : ℕ

abbrev pub total : List Chunk → ℕ
total [] = 0
total (c ∷ cs) = c.up + c.down + total cs

meter_idle : (n : ℤ) (qs : QuotaState) → ltb_ℤ (pos 0) n ≡ false → meter n qs ≡ qs
unfolding meter
meter_idle n qs h = ground arith

map-meter_idle :
    (n : ℤ) (o : Option QuotaState) → ltb_ℤ (pos 0) n ≡ false → Option.map (meter n) o ≡ o
map-meter_idle n none h = refl
map-meter_idle n (some qs) h = ap some (meter_idle n qs h)

abbrev pub conns_of : {e : Externals} → Bytes → Server e → List ℕ
conns_of uuid s = members (conns_or_none (get s.user_conns uuid))

module _ {e : Externals} (uuid node : Bytes) (up down : ℤ) (s : Server e) where
  -- Counting bytes puts them on the meter of the user.
  pub quota-add_traffic :
      get (add_traffic uuid node up down s).user_quota uuid
      ≡ Option.map (meter (add64 up down)) (get s.user_quota uuid)
  unfolding add_traffic
  quota-add_traffic = elim (Bool-cases (ltb_ℤ (pos 0) (add64 up down))) [
    | inl more ↦ rw more (quota-accrue_quota_locked uuid _ (add64 up down) _)
    | inr idle ↦ rw idle (sym (map-meter_idle (add64 up down) (get s.user_quota uuid) idle))
  ]

  pub quota-add_traffic_ne :
      (other : Bytes)
      → uuid ≢ other
      → get (add_traffic uuid node up down s).user_quota other ≡ get s.user_quota other
  unfolding add_traffic
  quota-add_traffic_ne other h = elim (Bool-cases (ltb_ℤ (pos 0) (add64 up down))) [
    | inl more ↦ rw more (quota-accrue_quota_locked_ne uuid _ other (add64 up down) _ h)
    | inr idle ↦ rw idle
  ]

  -- Counting bytes closes the user's connections exactly when it is what puts the user over quota.
  pub closed-add_traffic :
      let t = add_traffic uuid node up down s in
      t.closed ≡ (
        if user_over_quota uuid t && not (user_over_quota uuid s)
        then conns_of uuid s ++ s.closed
        else s.closed)
  unfolding add_traffic user_over_quota
  closed-add_traffic = elim (Bool-cases (ltb_ℤ (pos 0) (add64 up down))) [
    | inl more ↦
        rw more (unfold user_over_quota in closed-accrue_quota_locked uuid _ (add64 up down) _)
    | inr idle ↦ rw idle (ground arith)
  ]

  pub conns-add_traffic : (add_traffic uuid node up down s).user_conns ≡ s.user_conns
  unfolding add_traffic
  conns-add_traffic = elim (Bool-cases (ltb_ℤ (pos 0) (add64 up down))) [
    | inl more ↦ rw more (conns-accrue_quota_locked uuid _ (add64 up down) _)
    | inr idle ↦ rw idle
  ]
