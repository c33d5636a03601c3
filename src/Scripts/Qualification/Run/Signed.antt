-- ===== src/Scripts/Qualification/Run/Signed.antt =====
-- The requests of the report, checked by the connector.
use sgraph_omega_connector.Base.{
  ℕ, ◌/◌, ◌≤◌, false, List, [], ◌∷◌, ok, length, All-append, ◌≡◌, ◌≢◌, refl, sym, ◌∙◌,
}
use sgraph_omega_connector.Base.Int.{pos, dist_ℤ, ◌≤ℤ◌}
use sgraph_omega_connector.Text.{
  Text, codes, strip, is_space, strip-NoSpace, NoSpace, text_eq, str_ℕ, str_ℕ-NoSpace,
  max_str_digits,
}
use sgraph_omega_connector.Codec.{IsCrypto}
use sgraph_omega_connector.Dict.{lookup, set}
use sgraph_omega_connector.Json.{Json, is_truthy, str_json}
use sgraph_omega_connector.Security.{ticks_per_sec}
use sgraph_omega_connector.Models.{ScanAttachmentRequest, or_empty}
use sgraph_omega_connector.Auth.{AuthConfig, verify_signature}
use sgraph_omega_connector.App.{text_or}
use sgraph_omega_connector.SGraph.{ConnectorClientConfig, text_of}
use sgraph_omega_connector.SGraph.Signed.{delivered, sign_headers-verify_signature}
use sgraph_omega_connector.Scripts.{build_headers}
use sgraph_omega_connector.Scripts.Signed.{build_headers-eq-sign_headers}
use sgraph_omega_connector.Scripts.Transfer.{Libraries}
use sgraph_omega_connector.Scripts.Qualification.{
  Scenario, scenario_allow, scenario_quarantine, scenario_block,
}
use sgraph_omega_connector.Scripts.Qualification.Report.{scenario_name}
use sgraph_omega_connector.Scripts.Qualification.Run.{
  RoundDraw, QualificationArgs, scenario_payload, request_id_or, with_id, round_id, round_payload,
}

name-NoSpace : (sc : Scenario) → NoSpace (scenario_name sc)
unfolding is_space
name-NoSpace scenario_allow = (refl, (refl, (refl, (refl, (refl, tt)))))
name-NoSpace scenario_quarantine =
    let p = refl in (p, (p, (p, (p, (p, (p, (p, (p, (p, (p, tt))))))))))
name-NoSpace scenario_block = (refl, (refl, (refl, (refl, (refl, tt)))))

round_id-NoSpace : (sc : Scenario) (idx : ℕ) → NoSpace (round_id sc idx)
unfolding is_space
round_id-NoSpace sc idx =
    let p = refl in
    (
      p,
      (
        p,
        (
          p,
          (
            p,
            (
              p,
              All-append (λ c. is_space c ≡ false) (scenario_name sc) (b'-' ∷ str_ℕ idx)
                  (name-NoSpace sc) (p, str_ℕ-NoSpace idx),
            ),
          ),
        ),
      ),
    )

text_of-with_id :
    (repr : Json → Text) (d : RoundDraw) (idx : ℕ)
    → (text_of repr (with_id d (round_payload d.scenario idx)) (codes "tenant_id")
        ≡ codes "tenant-qualification")
      × (text_of repr (with_id d (round_payload d.scenario idx)) (codes "request_id")
          ≡ round_id d.scenario idx)
unfolding with_id scenario_payload request_id_or set lookup text_eq text_or is_truthy str_json
text_of-with_id repr d idx =
    elim d.scenario
      as (λ sc.
        (text_of repr (with_id d (round_payload sc idx)) (codes "tenant_id")
          ≡ codes "tenant-qualification")
        × (text_of repr (with_id d (round_payload sc idx)) (codes "request_id")
            ≡ round_id sc idx)) [
              | scenario_allow ↦ (refl, refl)
              | scenario_quarantine ↦ (refl, refl)
              | scenario_block ↦ (refl, refl)
            ]

tenant-NoSpace : NoSpace (codes "tenant-qualification")
unfolding is_space
tenant-NoSpace =
    let p = refl in
    (
      p,
      (
        p,
        (
          p,
          (p, (p, (p, (p, (p, (p, (p, (p, (p, (p, (p, (p, (p, (p, (p, (p, (p, tt))))))))))))))))),
        ),
      ),
    )

-- The settings of a client with the arguments of the report.
abbrev pub config_of : QualificationArgs → ConnectorClientConfig
config_of args = record {
  base_url = [];
  api_key = args.api_key;
  hmac_secret = args.hmac_secret;
  path_scan_attachment = args.path;
}

-- The payload of a round, as it is sent.
abbrev pub sent_payload : RoundDraw → ℕ → List (Text × Json)
sent_payload d idx = with_id d (round_payload d.scenario idx)

module _ (l : Libraries) (ck : IsCrypto l.crypto) (args : QualificationArgs) (server : AuthConfig)
    (d : RoundDraw) (idx now : ℕ) (payload : ScanAttachmentRequest) where
  -- Each request that the report makes passes the connector's signature check. The two share the
  -- secret, the path has no white space around it and the nonce has none at all, the connector has
  -- parsed the tenant and the request id of the round, the clocks are at most the allowed skew apart,
  -- and the clock of the report has no more digits than `int` reads.
  pub round-verify_signature :
      args.hmac_secret ≡ server.hmac_secret
      → server.hmac_secret ≢ []
      → strip args.path ≡ args.path
      → NoSpace d.nonce
      → d.nonce ≢ []
      → payload.tenant_id ≡ codes "tenant-qualification"
      → or_empty payload.request_id ≡ round_id d.scenario idx
      → length (str_ℕ (d.now / ticks_per_sec)) ≤ max_str_digits
      → pos (dist_ℤ (now / ticks_per_sec) (pos (d.now / ticks_per_sec)))
        ≤ℤ server.max_clock_skew_sec
      → verify_signature l.crypto l.unicode server now
          (delivered
            (config_of args)
            (build_headers l.crypto l.unicode l.repr l.dump d.now d.nonce args.hmac_secret
              args.api_key args.path
              (sent_payload d idx))
            (l.dump (sent_payload d idx)))
          payload
        ≡ ok d.nonce
  round-verify_signature secret set path plain some_nonce tenant id short near =
      let (of_tenant, of_id) = text_of-with_id l.repr d idx in
      let same =
        build_headers-eq-sign_headers l.crypto l.unicode l.repr l.dump d.now d.nonce
          (config_of args) (sent_payload d idx) path
          (rw of_tenant (strip-NoSpace (codes "tenant-qualification") tenant-NoSpace))
          (rw of_id (strip-NoSpace (round_id d.scenario idx) (round_id-NoSpace d.scenario idx)))
          plain in
      rw same (
        sign_headers-verify_signature l.crypto l.unicode l.repr ck (config_of args) server d.now now
          d.nonce (sent_payload d idx) (l.dump (sent_payload d idx)) payload secret set plain
          some_nonce (tenant ∙ sym of_tenant) (id ∙ sym of_id) short near)
