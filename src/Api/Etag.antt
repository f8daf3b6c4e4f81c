-- ===== src/Api/Etag.antt =====
-- The ETag of a body that was not decoded.
use vgate_server.Base.{ℕ, ◌≡◌, refl, none, some, ◌∷◌}
use vgate_server.Base.Text.{Bytes}
use vgate_server.Api.{
  replied, fetch_error, not_modified, Client, fetch_config, fetch_tagged, if_none_match,
}

-- If the body of a new configuration is not decoded, its ETag is stored all the same: the next
-- request sends it, and the answer 304 of a manager whose configuration is still the same counts as
-- unchanged, although the configuration was never handed over.
pub undecoded_config_lost :
    {Settings : Type 0} (c : Client) (b : ℕ) (etag later : Bytes)
    → let first = fetch_config {Settings = Settings} c (replied 200 (b ∷ etag) none) in
      (first.1 ≡ fetch_error)
      × (if_none_match first.0.config_etag ≡ some (b ∷ etag))
      × (fetch_config {Settings = Settings} first.0 (replied 304 later none)
          ≡ (first.0, not_modified))
unfolding fetch_config fetch_tagged if_none_match
undecoded_config_lost c b etag later = (refl, refl, refl)
