-- ===== src/Vless/Handler/Admission.antt =====
-- Whom handler.go lets through, and what it leaves behind for the others.
use vgate_server.Base.{
  ℕ, ◌≡◌, refl, sym, ◌∙◌, ◌⊎◌, inl, inr, List, Option, none, some, true, false, arith, take, drop,
  get_or, Option-cases, Bool-cases, ◌==◌,
}
use vgate_server.Base.Text.{Bytes, bytes_key}
use vgate_server.Base.Dict.{get}
use vgate_server.Model.{User}
use vgate_server.Vless.Server.{Externals, Server}
use vgate_server.Vless.Protocol.{version}
use vgate_server.Vless.Quota.{user_over_quota}
use vgate_server.Vless.Handler.Wire.{
  Step, ok, reject, panic, Reason, Reading, read_at_least, buffer_size, unknown_user, over_quota,
  bad_read, bad_version,
}
use vgate_server.Vless.Handler.{
  Incoming, Forward, authorise, first_read, gate, opened, close_conn, settle, handle_connection,
}

-- The UUID that the first read of an opened connection claims.
abbrev pub claimed : List Bytes → Bytes
claimed chunks = take 16 (drop 1 (read_at_least 18 buffer_size chunks).got)

module _ {e : Externals} where
  authorise-ok :
      (uuid : Bytes) (r : Reading) (s : Server e) (a : Bytes × Reading)
      → authorise uuid r s ≡ ok a
      → ((u : User) × (get s.users uuid ≡ some u))
        × (user_over_quota uuid s ≡ false)
        × (a ≡ (uuid, r))
  unfolding authorise
  authorise-ok uuid r s a h = elim (Option-cases (get s.users uuid)) [
    | inl absent ↦ absurd (ground arith)
    | inr known ↦ (known, ground arith, ground arith)
  ]

  first_read-ok :
      (r : Reading) (s : Server e) (a : Bytes × Reading)
      → first_read r s ≡ ok a
      → authorise (take 16 (drop 1 r.got)) r s ≡ ok a
  unfolding first_read
  first_read-ok r s a h = ground arith

  gate_lem :
      (c : Incoming e) (s : Server e) (chunks : List Bytes)
      → opened c s.decryption ≡ some chunks
      → gate c s ≡ first_read (read_at_least 18 buffer_size chunks) s
  unfolding gate
  gate_lem c s chunks h = rw (h, gate)

  settle-ok :
      (uuid : Bytes) (conn : ℕ) (x : Step Forward × Server e) (f : Forward)
      → (settle uuid conn x).0 ≡ ok f
      → x.0 ≡ ok f
  unfolding settle
  settle-ok uuid conn (ok g, s) f h = h
  settle-ok uuid conn (reject r, s) f h = h
  settle-ok uuid conn (panic, s) f h = h

module _ {e : Externals} (flow_of : Bytes → Option Bytes) (c : Incoming e) (s : Server e) where
  gate_of_forward :
      (f : Forward)
      → (handle_connection flow_of c s).0 ≡ ok f
      → (a : Bytes × Reading) × (gate c s ≡ ok a)
  unfolding handle_connection
  gate_of_forward f h = go (gate c s) refl
    where
      go : (g : Step (Bytes × Reading)) → gate c s ≡ g → (a : Bytes × Reading) × (gate c s ≡ ok a)
      go (ok a) p = (a, p)
      go (reject r) p = absurd (ground arith)
      go panic p = absurd (ground arith)

  -- Only a user of the set who is not cut gets a forwarder: the UUID of the first read is a user's,
  -- and the user is not over quota.
  pub forwards_only_users :
      (chunks : List Bytes) (f : Forward)
      → opened c s.decryption ≡ some chunks
      → (handle_connection flow_of c s).0 ≡ ok f
      → ((u : User) × (get s.users (claimed chunks) ≡ some u))
        × (user_over_quota (claimed chunks) s ≡ false)
  forwards_only_users chunks f open_ h =
      let (a, let_in) = gate_of_forward f h in
      let r = read_at_least 18 buffer_size chunks in
      let known =
        authorise-ok (claimed chunks) r s a
          (first_read-ok r s a (sym (gate_lem c s chunks open_) ∙ let_in)) in
      (known.0, known.1)

  authorise_refuses :
      (uuid : Bytes) (r : Reading)
      → (get s.users uuid ≡ none) ⊎ (user_over_quota uuid s ≡ true)
      → (x : Reason) × (authorise uuid r s ≡ reject x)
  unfolding authorise
  authorise_refuses uuid r (inl absent) = (unknown_user, rw (absent, authorise))
  authorise_refuses uuid r (inr over) = elim (Option-cases (get s.users uuid)) [
    | inl absent ↦ (unknown_user, rw (absent, authorise))
    | inr (u, known) ↦ (over_quota, rw (known, authorise, over))
  ]

  first_read_refuses :
      (r : Reading)
      → (get s.users (take 16 (drop 1 r.got)) ≡ none)
        ⊎ (user_over_quota (take 16 (drop 1 r.got)) s ≡ true)
      → (x : Reason) × (first_read r s ≡ reject x)
  unfolding first_read
  first_read_refuses r h = elim (Bool-cases r.enough) [
    | inr short ↦ (bad_read, rw short)
    | inl enough ↦ elim (Bool-cases (get_or r.got 0 0 == version)) [
      | inr other ↦ (bad_version, rw (enough, other))
      | inl same ↦
          let (x, refused) = authorise_refuses (take 16 (drop 1 r.got)) r h in
          (x, ground (arith, refused))
    ]
  ]

  -- A stranger or a cut user is refused, and the only trace is the closed connection: nothing is
  -- registered or counted.
  pub refused_leaves_no_trace :
      (chunks : List Bytes)
      → opened c s.decryption ≡ some chunks
      → (get s.users (claimed chunks) ≡ none) ⊎ (user_over_quota (claimed chunks) s ≡ true)
      → (x : Reason) × (handle_connection flow_of c s ≡ (reject x, close_conn c.conn s))
  unfolding handle_connection
  refused_leaves_no_trace chunks open_ h =
      let (x, refused) = first_read_refuses (read_at_least 18 buffer_size chunks) h in
      (x, rw (gate_lem c s chunks open_ ∙ refused, handle_connection))
