-- ===== src/System/Environments.antt =====
-- Two processes whose environments fit are paired: connector/config.py on one side, and
-- upstream_patches/sgraph/connector_hook.py on the other.
use Prim.Native.String.{String}
use sgraph_omega_connector.Base.{
  true, false, List, [], ◌∷◌, Option, some, ok, All, ◌≡◌, ◌≢◌, sym, ap, ◌∙◌, inl, inr, Bool-cases,
  some_injective,
}
use sgraph_omega_connector.Base.Int.{ℤ}
use sgraph_omega_connector.Text.{
  Text, Unicode, codes, starts_with, strip, strip_idem, split, truthy,
}
use sgraph_omega_connector.Codec.{Crypto}
use sgraph_omega_connector.Auth.ApiKey.{IsAscii, IsComparable, Accepts, Exists, is_digest}
use sgraph_omega_connector.Auth.Signature.{truthy_of_ne}
use sgraph_omega_connector.Config.{Settings, strip_all, as_bool, load_settings}
use sgraph_omega_connector.Config.Startup.{load_settings_elim, new_runtime}
use sgraph_omega_connector.SGraph.{ConnectorClientConfig}
use sgraph_omega_connector.SGraph.Settings.{load_config, load_config-IsLoaded}
use sgraph_omega_connector.System.Pairing.{IsPaired}

-- The environments state the same secret, and one of the connector's keys is the client's, up to white
-- space around them; HMAC is not switched off. The client's key is ASCII, not blank and not written as
-- a digest, and the connector's keys are digests or ASCII.
pub record IsMatched (u : Unicode) (connector client : String → Option Text) : Type 0 where
  pub secret : Text
  pub some_secret : secret ≢ []
  pub connector_secret : connector "CONNECTOR_HMAC_SECRET" ≡ some secret
  pub client_secret : client "SGRAPH_CONNECTOR_HMAC_SECRET" ≡ some secret
  pub required : as_bool u (connector "CONNECTOR_REQUIRE_HMAC") true ≡ true
  pub key : Text
  pub client_key : client "SGRAPH_CONNECTOR_API_KEY" ≡ some key
  pub some_key : strip key ≢ []
  pub ascii : IsAscii (strip key)
  pub plain : is_digest key ≡ false
  pub keys : Text
  pub connector_keys : connector "CONNECTOR_API_KEYS" ≡ some keys
  pub listed : Exists (λ item. strip item ≡ strip key) (split b',' keys)
  pub comparable : All IsComparable (split b',' keys)

strip_all-Exists :
    (key : Text) (items : List Text)
    → key ≢ []
    → Exists (λ item. strip item ≡ key) items
    → Exists (λ item. item ≡ key) (strip_all items)
unfolding strip_all
strip_all-Exists key [] n e = e
strip_all-Exists key (s ∷ r) n (inl same) =
    rw (truthy_of_ne (strip s) (λ e. n (sym same ∙ e))) (inl same)
strip_all-Exists key (s ∷ r) n (inr later) = elim (Bool-cases (truthy (strip s))) [
  | inl kept ↦ rw kept (inr (strip_all-Exists key r n later))
  | inr blank ↦ rw blank (strip_all-Exists key r n later)
]

strip_all-IsComparable :
    (items : List Text) → All IsComparable items → All IsComparable (strip_all items)
unfolding strip_all
strip_all-IsComparable [] h = tt
strip_all-IsComparable (s ∷ r) (h, hs) = elim (Bool-cases (truthy (strip s))) [
  | inl kept ↦ rw kept (rw (strip_idem s) h, strip_all-IsComparable r hs)
  | inr blank ↦ rw blank (strip_all-IsComparable r hs)
]

module _ (k : Crypto) (u : Unicode) where
  accepted_key :
      (key : Text)
      → is_digest key ≡ false
      → (items : List Text) → Exists (λ item. item ≡ strip key) items
      → Exists (Accepts k u (strip key)) items
  accepted_key key plain [] e = e
  accepted_key key plain (s ∷ r) (inl same) =
      let digest = ap (starts_with (codes "sha256:")) (strip_idem key) in
      inl (inl (ap is_digest same ∙ digest ∙ plain, ap strip same ∙ strip_idem key))
  accepted_key key plain (s ∷ r) (inr later) = inr (accepted_key key plain r later)

  -- Where the environments of the connector and of the hook match, and both start, they are paired.
  pub load-IsPaired :
      (connector client : String → Option Text) (c : Settings) (loaded : ConnectorClientConfig × ℤ)
      → IsMatched u connector client
      → load_settings u connector ≡ ok c
      → load_config u client ≡ ok loaded
      → IsPaired k u loaded.0 (new_runtime c).auth
  unfolding new_runtime
  load-IsPaired connector client c loaded m starts loads =
      let l = load_config-IsLoaded u client loaded loads in
      let same_key : loaded.0.api_key ≡ m.key =
        some_injective loaded.0.api_key m.key (sym l.api_key ∙ m.client_key) in
      let same_secret : loaded.0.hmac_secret ≡ m.secret =
        some_injective loaded.0.hmac_secret m.secret (sym l.hmac_secret ∙ m.client_secret) in
      let items = split b',' m.keys in
      load_settings_elim u connector (λ c. IsPaired k u loaded.0 (new_runtime c).auth)
        (λ port ttl skew timeout retries fails reset. record {
          path = l.path;
          required = m.required;
          secret = rw (m.connector_secret) same_secret;
          set = rw (m.connector_secret) m.some_secret;
          some_key = rw same_key m.some_key;
          ascii = rw same_key m.ascii;
          comparable = rw (m.connector_keys) (strip_all-IsComparable items m.comparable);
          known =
              rw (same_key, m.connector_keys)
                (accepted_key m.key m.plain (strip_all items)
                  (strip_all-Exists (strip m.key) items m.some_key m.listed));
        })
        c starts
