-- ===== src/Api.antt =====
-- api/client.go: the requests to the manager. What the manager answers, after the retries of the
-- HTTP client, is an argument.
pub mod Etag
pub mod Current
use vgate_server.Base.{
  ℕ, List, [], ◌∷◌, Option, none, some, Bool, true, false, not, ◌==◌, if◌then◌else◌,
}
use vgate_server.Base.Text.{Bytes}
use vgate_server.Model.{Config, User, UserUsage}

-- An answer: no response, or a status, the ETag header and the body, `none` if it is not decoded.
pub data Answer {ℓ} (A : Type ℓ) : Type ℓ where
  unreachable : Answer A
  replied : ℕ → Bytes → Option A → Answer A

-- What a fetch returns: the value, ErrNotModified, ErrNoUsageEndpoint or another error.
pub data Fetched {ℓ} (A : Type ℓ) : Type ℓ where
  fetched : A → Fetched A
  not_modified no_usage_endpoint fetch_error : Fetched A

pub record Client : Type 0 where
  pub base_url : Bytes
  pub node_id : Bytes
  pub token : Bytes
  pub config_etag : Bytes
  pub users_etag : Bytes

-- NewClient
abbrev pub new_client : Bytes → Bytes → Bytes → Client
new_client base_url node_id token = record {
  base_url = base_url;
  node_id = node_id;
  token = token;
  config_etag = [];
  users_etag = [];
}

-- The If-None-Match header that goes with a stored ETag.
unfoldable pub if_none_match : Bytes → Option Bytes
if_none_match [] = none
if_none_match (c ∷ s) = some (c ∷ s)

unfoldable pub decoded {ℓ} : {A : Type ℓ} → Option A → Fetched A
decoded none = fetch_error
decoded (some a) = fetched a

-- The ETag stored before, and the answer: the ETag stored then, and the result.
unfoldable pub fetch_tagged {ℓ} : {A : Type ℓ} → Bytes → Answer A → Bytes × Fetched A
unfolding decoded
fetch_tagged tag unreachable = (tag, fetch_error)
fetch_tagged tag (replied status etag body) =
    if status == 304
    then (tag, not_modified)
    else if not (status == 200)
    then (tag, fetch_error)
    else (etag, decoded body)

-- FetchConfig
unfoldable pub fetch_config :
    {Settings : Type 0} → Client → Answer (Config Settings) → Client × Fetched (Config Settings)
fetch_config c a =
    let (etag, result) = fetch_tagged c.config_etag a in (record c { config_etag = etag }, result)

-- FetchUsers
unfoldable pub fetch_users : Client → Answer (List User) → Client × Fetched (List User)
fetch_users c a =
    let (etag, result) = fetch_tagged c.users_etag a in (record c { users_etag = etag }, result)

-- FetchUsage
unfoldable pub fetch_usage : Answer (List UserUsage) → Fetched (List UserUsage)
unfolding decoded
fetch_usage unreachable = fetch_error
fetch_usage (replied status etag body) =
    if status == 404
    then no_usage_endpoint
    else if not (status == 200)
    then fetch_error
    else decoded body

-- ReportTraffic, without an error
unfoldable pub report_traffic : Answer (Unit {0}) → Bool
report_traffic unreachable = false
report_traffic (replied status etag body) = status == 200
