-- ===== src/Scripts/Signed.antt =====
-- The script's headers and those of the SGraph client.
use sgraph_omega_connector.Base.{ℕ, ◌/◌, List, ◌≡◌, refl}
use sgraph_omega_connector.Text.{
  Text, Unicode, codes, upper, ascii_upper, strip, is_space, strip-NoSpace, NoSpace, str_ℕ,
  str_ℕ-NoSpace,
}
use sgraph_omega_connector.Codec.{Crypto}
use sgraph_omega_connector.Json.{Json}
use sgraph_omega_connector.Security.{ticks_per_sec}
use sgraph_omega_connector.SGraph.{ConnectorClientConfig, text_of, canonical, sign_headers}
use sgraph_omega_connector.Scripts.{build_canonical, sign, build_headers}

post-NoSpace : NoSpace (codes "POST")
unfolding is_space
post-NoSpace = (refl, (refl, (refl, (refl, tt))))

-- The script signs as the SGraph client does, where the path, the tenant and the request id have no
-- white space around them and the nonce has none at all.
pub build_headers-eq-sign_headers :
    (k : Crypto) (u : Unicode) (repr : Json → Text) (dump : List (Text × Json) → List ℕ) (now : ℕ)
    (nonce : Text) (config : ConnectorClientConfig) (payload : List (Text × Json))
    → strip config.path_scan_attachment ≡ config.path_scan_attachment
    → strip (text_of repr payload (codes "tenant_id")) ≡ text_of repr payload (codes "tenant_id")
    → strip (text_of repr payload (codes "request_id")) ≡ text_of repr payload (codes "request_id")
    → NoSpace nonce
    → build_headers k u repr dump now nonce config.hmac_secret config.api_key
        config.path_scan_attachment payload
      ≡ sign_headers k u repr config now nonce payload (dump payload)
unfolding build_headers build_canonical sign sign_headers canonical upper ascii_upper
build_headers-eq-sign_headers k u repr dump now nonce config payload path tenant id plain =
    let post : strip (codes "POST") ≡ codes "POST" = strip-NoSpace (codes "POST") post-NoSpace in
    rw
      (
        path,
        tenant,
        id,
        post,
        strip-NoSpace (str_ℕ (now / ticks_per_sec)) (str_ℕ-NoSpace (now / ticks_per_sec)),
        strip-NoSpace nonce plain,
      )
      refl
