-- ===== src/Transport/Bridge/Versions.antt =====
-- TLS versions and certificates where a configuration goes to xray-core.
use vgate_server.Base.{
  ℕ, ◌≡◌, refl, sym, ap, ◌∙◌, [], ◌∷◌, Option, some, arith, inl, inr, Option-cases,
}
use vgate_server.Base.Text.{Bytes}
use vgate_server.Model.{TlsConfig}
use vgate_server.Transport.Settings.{
  Fault, unknown_min_version, unknown_max_version, Checked, ok, bad, ◌>>=◌,
}
use vgate_server.Transport.Tls.{TlsSettings, tls_version, decode_tls_config}
use vgate_server.Transport.Bridge.{XrayTls, tls_version_string, choose_pem, build_xray_tls_config}
use vgate_server.Vless.Security.{tls_map}
use vgate_server.Vless.Security.Tls.{version_of, tls_settings, decode_tls_config-tls_map}

-- A chain that succeeded, seen from its first step.
record Passed {A B : Type 0} (first : Checked A) (next : A → Checked B) (result : B) : Type 0 where
  value : A
  from_first : first ≡ ok value
  from_next : next value ≡ ok result

passed_lem :
    {A B : Type 0} {result : B} (first : Checked A) (next : A → Checked B)
    → (first >>= next) ≡ ok result
    → Passed first next result
passed_lem (bad fault) next h = cc
passed_lem (ok value) next h = record { value = value; from_first = refl; from_next = h }

tls_version_lem : (s : Bytes) (n : ℕ) → tls_version s ≡ some n → tls_version_string n ≡ s
unfolding tls_version tls_version_string
tls_version_lem s n h = ground arith

version_of_lem : (x : Fault) (s : Bytes) (n : ℕ) → version_of x s ≡ ok n → tls_version_string n ≡ s
unfolding tls_version_string
version_of_lem x [] n h = ground arith
version_of_lem x (c ∷ s) n h = elim (Option-cases (tls_version (c ∷ s))) [
  | inl unknown ↦ absurd (ground arith)
  | inr (m, known) ↦ tls_version_lem (c ∷ s) n (ground arith)
]

abbrev min_of : Checked TlsSettings → ℕ
min_of (ok cfg) = cfg.min_version
min_of (bad x) = 0

abbrev max_of : Checked TlsSettings → ℕ
max_of (ok cfg) = cfg.max_version
max_of (bad x) = 0

abbrev seen_min : Checked XrayTls → Bytes
seen_min (ok x) = x.min_version
seen_min (bad x) = []

abbrev seen_max : Checked XrayTls → Bytes
seen_max (ok x) = x.max_version
seen_max (bad x) = []

-- The decoded versions are those of the configuration.
decoded_versions :
    (t : TlsConfig) (cfg : TlsSettings)
    → tls_settings t ≡ ok cfg
    → (tls_version_string cfg.min_version ≡ t.min_version)
      × (tls_version_string cfg.max_version ≡ t.max_version)
decoded_versions t cfg h =
    let low = passed_lem (version_of unknown_min_version t.min_version) _ h in
    let high = passed_lem (version_of unknown_max_version t.max_version) _ low.from_next in
    (
      ap tls_version_string (sym (ap min_of high.from_next))
          ∙ version_of_lem unknown_min_version t.min_version low.value low.from_first,
      ap tls_version_string (sym (ap max_of high.from_next))
          ∙ version_of_lem unknown_max_version t.max_version high.value high.from_first,
    )

-- The TLS versions of a configuration reach xray-core as they are written.
build_xray_tls_config-versions :
    (read_file : Bytes → Option Bytes) (t : TlsConfig) (x : XrayTls)
    → build_xray_tls_config read_file (some (tls_map t)) ≡ ok x
    → (x.min_version ≡ t.min_version) × (x.max_version ≡ t.max_version)
unfolding build_xray_tls_config
build_xray_tls_config-versions read_file t x h =
    let decoded = passed_lem (decode_tls_config (some (tls_map t))) _ h in
    let chosen = passed_lem (choose_pem read_file decoded.value) _ decoded.from_next in
    let kept =
      decoded_versions t decoded.value (sym (decode_tls_config-tls_map t) ∙ decoded.from_first) in
    (sym (ap seen_min chosen.from_next) ∙ kept.0, sym (ap seen_max chosen.from_next) ∙ kept.1)
