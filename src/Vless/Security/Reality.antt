-- ===== src/Vless/Security/Reality.antt =====
-- The Reality settings of a configuration on their way through the opaque map.
use vgate_server.Base.{
  ℕ, zero, suc, ◌≡◌, ◌<◌, refl, sym, ap, ◌∙◌, arith, List, [], ◌∷◌, Option, none, some, map,
}
use vgate_server.Base.Int.{ℤ, pos, negsuc, pos_part, wrap64}
use vgate_server.Base.Text.{Bytes, codes, bytes_key, Bytes-discrete}
use vgate_server.Base.Dict.{get}
use vgate_server.Model.{RealityConfig}
use vgate_server.Transport.Settings.{
  Floats, IsFloats, IsExact, Value, Fault, target_required, server_name_required,
  private_key_required, Checked, ok, bad, ◌>>=◌, text?, flag?, array?, flag_or_false,
}
use vgate_server.Transport.Reality.{
  RealitySettings, milliseconds, parse_client_ver, decode_short_ids, required_text, decode_xver,
  decode_private_key, items, default_short_ids, client_ver, decode_time_diff, decode_reality_config,
}
use vgate_server.Vless.Security.{
  text_value, flag_value, number_value, list_value, reality_fields, reality_map,
}
use vgate_server.Vless.Security.Fields.{or_else-none, find, get-present, flag_or_false-flag_value}
use vgate_server.Vless.Security.Tls.{list_or_empty}

-- A text that must not be empty.
abbrev pub needed : Fault → Bytes → Checked Bytes
needed x [] = bad x
needed x (c ∷ s) = ok (c ∷ s)

-- The key of a configuration; no text is no key.
abbrev pub key_of : Bytes → Checked Bytes
key_of [] = bad private_key_required
key_of (c ∷ s) = decode_private_key (some (c ∷ s))

-- The settings that a configuration means, for a version of the PROXY protocol that is a byte.
abbrev pub reality_settings : RealityConfig → Checked RealitySettings
reality_settings r = do
  target ← needed target_required r.target
  server_name ← needed server_name_required r.server_name
  key ← key_of r.private_key
  sids ← decode_short_ids (map some (list_or_empty r.short_ids)) []
  ok (record {
    show = r.show;
    target = target;
    xver = pos_part r.xver;
    server_names = (server_name, tt) ∷ [];
    private_key = key;
    short_ids = default_short_ids sids;
    min_client_ver = parse_client_ver r.min_client_ver;
    max_client_ver = parse_client_ver r.max_client_ver;
    max_time_diff = milliseconds r.max_time_diff;
  })

needed_lem : (x : Fault) (s : Bytes) → required_text x (text? (text_value s)) ≡ needed x s
needed_lem x [] = refl
needed_lem x (c ∷ s) = refl

key_lem : (s : Bytes) → decode_private_key (text? (text_value s)) ≡ key_of s
unfolding decode_private_key
key_lem [] = refl
key_lem (c ∷ s) = refl

module _ (f : Floats) (laws : IsFloats f) where
  xver_lem : (n : ℕ) → n < 256 → decode_xver f (number_value f (pos n)) ≡ ok n
  unfolding decode_xver
  xver_lem zero h = refl
  xver_lem (suc n) h =
      ap ok
        (ap f.to_byte (laws.exact (pos (suc n)) (omega arith, omega arith)) ∙ laws.byte (suc n) h)

  time_diff_lem : (z : ℤ) → IsExact z → decode_time_diff f (number_value f z) ≡ milliseconds z
  unfolding decode_time_diff
  time_diff_lem (pos zero) h = unfold milliseconds wrap64 in refl
  time_diff_lem (pos (suc n)) h = ap milliseconds (
      ap f.to_int64 (laws.exact (pos (suc n)) h)
      ∙ laws.int64 (pos (suc n)) (record { below = omega (arith, h.0); above = omega arith }))
  time_diff_lem (negsuc n) h = ap milliseconds (
      ap f.to_int64 (laws.exact (negsuc n) h)
      ∙ laws.int64 (negsuc n) (record { below = omega arith; above = omega (arith, h.1) }))

items_lem : (o : Option (List Bytes)) → items (array? (list_value o)) ≡ map some (list_or_empty o)
items_lem none = refl
items_lem (some []) = refl
items_lem (some (s ∷ xs)) = refl

client_ver_lem : (s : Bytes) → client_ver (text? (text_value s)) ≡ parse_client_ver s
unfolding parse_client_ver
client_ver_lem [] = refl
client_ver_lem (c ∷ s) = refl

module _ (f : Floats) (r : RealityConfig) where
  field_lem : (k : Bytes) → get (reality_map f r) k ≡ find k (reality_fields f r)
  unfolding reality_map
  field_lem k = get-present k (reality_fields f r)

  -- What a decoder makes of a field depends on the field's value alone.
  decoded_lem :
      {A : Type 0} (decode : Option Value → A) (k : Bytes) (v : Option Value) (a : A)
      → find k (reality_fields f r) ≡ v
      → decode v ≡ a
      → decode (get (reality_map f r) k) ≡ a
  decoded_lem decode k v a h e = ap decode (field_lem k ∙ h) ∙ e

  -- The opaque map of structToMap loses nothing of a Reality configuration: it is decoded to the
  -- settings that the configuration means, or fails as these do. Its xver is a byte, and its
  -- max_time_diff is an int that a float64 holds exactly.
  pub decode_reality_config-reality_map :
      IsFloats f
      → (n : ℕ) → n < 256
      → r.xver ≡ pos n
      → IsExact r.max_time_diff
      → decode_reality_config f (some (reality_map f r)) ≡ reality_settings r
  unfolding decode_reality_config Bytes-discrete
  decode_reality_config-reality_map laws n small at exact = rw (
    decoded_lem (λ v. required_text target_required (text? v)) (codes "target")
        (text_value r.target) _ (or_else-none _) (needed_lem target_required r.target),
    decoded_lem (decode_xver f) (codes "xver") (number_value f r.xver) _ (or_else-none _) (
        ap (λ z. decode_xver f (number_value f z)) at
        ∙ xver_lem f laws n small
        ∙ ap (λ z. ok (pos_part z)) (sym at)),
    decoded_lem (λ v. required_text server_name_required (text? v)) (codes "server_name")
        (text_value r.server_name) _ (or_else-none _)
        (needed_lem server_name_required r.server_name),
    decoded_lem (λ v. decode_private_key (text? v)) (codes "private_key") (text_value r.private_key)
        _ (or_else-none _) (key_lem r.private_key),
    decoded_lem (λ v. items (array? v)) (codes "short_ids") (list_value r.short_ids) _
        (or_else-none _) (items_lem r.short_ids),
    decoded_lem (λ v. flag_or_false (flag? v)) (codes "show") (flag_value r.show) _ (or_else-none _)
        (flag_or_false-flag_value r.show),
    decoded_lem (λ v. client_ver (text? v)) (codes "min_client_ver") (text_value r.min_client_ver) _
        (or_else-none _) (client_ver_lem r.min_client_ver),
    decoded_lem (λ v. client_ver (text? v)) (codes "max_client_ver") (text_value r.max_client_ver) _
        (or_else-none _) (client_ver_lem r.max_client_ver),
    decoded_lem (decode_time_diff f) (codes "max_time_diff") (number_value f r.max_time_diff) _
        (or_else-none _) (time_diff_lem f laws r.max_time_diff exact),
  )
