-- ===== src/App/Admission.antt =====
-- The way of a request through an endpoint: who is admitted, and what a refusal leaves behind.
use sgraph_omega_connector.Base.{
  Bool, true, false, ◌⊎◌, sym, all, [], ◌∷◌, ◌++◌, Result, Result-cases, ok, raise, ◌≡◌, ◌∙◌, ap,
  inl, inr, arith,
}
use sgraph_omega_connector.Text.{Text}
use sgraph_omega_connector.Codec.{Crypto}
use sgraph_omega_connector.Security.{NonceReplayCache}
use sgraph_omega_connector.Errors.{Exception}
use sgraph_omega_connector.Models.{ScanAttachmentRequest, ScanAttachmentResponse}
use sgraph_omega_connector.Auth.{Request, validate_api_key, validate_hmac}
use sgraph_omega_connector.OmegaClient.{scan_attachment, scan_path}
use sgraph_omega_connector.Audit.{AuditRecord, encode_error}
use sgraph_omega_connector.Codec.Utf8.{is_scalar}
use sgraph_omega_connector.App.Verdicts.{Explains, respond-Answers}
use sgraph_omega_connector.App.Records.{IsRecordOf, record_of-IsRecordOf, write_audit_cases}
use sgraph_omega_connector.App.Endpoint.{
  ConnectorRuntime, State, Environment, read_payload, write_audit, scan_and_respond,
  authenticate_and_scan, serve_scan,
}

raise_injective :
    {A : Type 0} {d e : Exception} → ◌≡◌ {A = Result Exception A} (raise d) (raise e) → d ≡ e
raise_injective h = cc

module _ (k : Crypto) (rt : ConnectorRuntime) (env : Environment) (request : Request)
    (s : State) where
  -- The replay cache behind `validate_hmac`, and its result.
  abbrev pub hmac_check :
      ScanAttachmentRequest → Text → Result Exception (Unit {0}) × NonceReplayCache
  hmac_check payload api_key =
      validate_hmac k env.runtime.unicode rt.auth env.now env.marked_at request payload api_key
        s.replay_cache

  -- The body is a valid payload, and the API key and the signature are accepted.
  pub record IsAdmitted (payload : ScanAttachmentRequest) (api_key : Text) : Type 0 where
    pub read : read_payload env request.body ≡ ok payload
    pub key :
        validate_api_key k env.runtime.unicode rt.auth request.x_api_key payload.request_id
        ≡ ok api_key
    pub signed : (hmac_check payload api_key).0 ≡ ok tt

  -- The state behind the authentication.
  abbrev pub admitted_state : ScanAttachmentRequest → Text → State
  admitted_state payload api_key = record s { replay_cache = (hmac_check payload api_key).1 }

  pub serve_scan_admitted :
      (debug : Bool) (payload : ScanAttachmentRequest) (api_key : Text)
      → IsAdmitted payload api_key
      → serve_scan k rt env debug request s
        ≡ scan_and_respond k rt env debug payload (admitted_state payload api_key)
  unfolding serve_scan authenticate_and_scan
  serve_scan_admitted debug payload api_key a = ground (arith, a.read, a.key, a.signed)

  pub serve_scan_ok :
      (debug : Bool) (r : ScanAttachmentResponse)
      → (serve_scan k rt env debug request s).0 ≡ ok r
      → (payload : ScanAttachmentRequest) × (api_key : Text) × IsAdmitted payload api_key
  unfolding serve_scan authenticate_and_scan
  serve_scan_ok debug r h = elim (Result-cases (read_payload env request.body)) [
    | inl (e, bad) ↦ absurd (ground arith)
    | inr (payload, read) ↦
        elim (Result-cases
          (validate_api_key k env.runtime.unicode rt.auth request.x_api_key payload.request_id)) [
            | inl (e, bad) ↦ absurd (ground arith)
            | inr (api_key, key) ↦ elim (Result-cases (hmac_check payload api_key).0) [
              | inl (e, bad) ↦ absurd (ground arith)
              | inr (done, signed) ↦
                  (payload, api_key, record { read = read; key = key; signed = ground arith })
            ]
          ]
  ]

  -- The response `r` is the answer, and the audit log ends with its record.
  abbrev pub Recorded : Bool → ScanAttachmentResponse → Type 0
  Recorded debug r =
      (a : AuditRecord) × IsRecordOf k rt (scan_path debug) r a
      × ((serve_scan k rt env debug request s).0 ≡ ok r)
      × ((serve_scan k rt env debug request s).1.audit ≡ s.audit ++ a ∷ [])

  -- With redaction, the tenant of the response `r` has a character that UTF-8 does not encode; the
  -- answer is the exception for it, and the audit log is as it was.
  abbrev pub Unrecorded : Bool → ScanAttachmentResponse → Type 0
  Unrecorded debug r =
      (rt.audit_redaction ≡ true)
      × (all is_scalar r.tenant_id ≡ false)
      × ((serve_scan k rt env debug request s).0 ≡ raise encode_error)
      × ((serve_scan k rt env debug request s).1.audit ≡ s.audit)

  -- What an admitted request leads to: a response that explains itself by Omega's answer, the new
  -- state of the circuit, and one audit record, unless the record cannot be made.
  pub record IsServed (debug : Bool) (payload : ScanAttachmentRequest) (api_key : Text)
      (r : ScanAttachmentResponse) : Type 0 where
    pub explained :
        Explains env.runtime payload rt.fail_mode
          (scan_attachment k env.runtime.unicode rt.omega env.upstream payload debug s.circuit).0
          r
    pub circuit :
        (serve_scan k rt env debug request s).1.circuit
        ≡ (scan_attachment k env.runtime.unicode rt.omega env.upstream payload debug s.circuit).1
    pub replay_cache :
        (serve_scan k rt env debug request s).1.replay_cache ≡ (hmac_check payload api_key).1
    pub outcome : Recorded debug r ⊎ Unrecorded debug r

  pub serve_scan-IsServed :
      (debug : Bool) (payload : ScanAttachmentRequest) (api_key : Text)
      → IsAdmitted payload api_key
      → (r : ScanAttachmentResponse) × IsServed debug payload api_key r
  unfolding scan_and_respond
  serve_scan-IsServed debug payload api_key a =
      let path = serve_scan_admitted debug payload api_key a in
      let scanned =
        scan_attachment k env.runtime.unicode rt.omega env.upstream payload debug s.circuit in
      let (r, made, why) = respond-Answers env.runtime payload rt.fail_mode scanned.0 in
      let written = ap (λ x. write_audit k rt (scan_path debug) x s.audit) made in
      (
        r,
        record {
          explained = why;
          circuit = ap (λ x. x.1.circuit) path;
          replay_cache = ap (λ x. x.1.replay_cache) path;
          outcome = elim (write_audit_cases k rt (scan_path debug) r s.audit) [
            | inl (line, audited, w) ↦ inl (
              line,
              record_of-IsRecordOf k rt (scan_path debug) r line audited,
              ap (λ x. x.0) path ∙ ap (λ x. x.0) (written ∙ w),
              ap (λ x. x.1.audit) path ∙ ap (λ x. x.1) (written ∙ w),
            )
            | inr (on, lone, w) ↦ inr (
              on,
              lone,
              ap (λ x. x.0) path ∙ ap (λ x. x.0) (written ∙ w),
              ap (λ x. x.1.audit) path ∙ ap (λ x. x.1) (written ∙ w),
            )
          ];
        },
      )

  -- A refused request leaves the audit log as it was, and also the circuit, unless the exception is
  -- that of an audit record whose tenant cannot be encoded.
  pub serve_scan_refused :
      (debug : Bool) (e : Exception)
      → (serve_scan k rt env debug request s).0 ≡ raise e
      → (((serve_scan k rt env debug request s).1.circuit ≡ s.circuit) ⊎ (e ≡ encode_error))
        × ((serve_scan k rt env debug request s).1.audit ≡ s.audit)
  unfolding serve_scan authenticate_and_scan
  serve_scan_refused debug e h = elim (Result-cases (read_payload env request.body)) [
    | inl (x, bad) ↦ (inl (ground arith), ground arith)
    | inr (payload, read) ↦
        elim (Result-cases
          (validate_api_key k env.runtime.unicode rt.auth request.x_api_key payload.request_id)) [
            | inl (x, bad) ↦ (inl (ground arith), ground arith)
            | inr (api_key, key) ↦ elim (Result-cases (hmac_check payload api_key).0) [
              | inl (x, bad) ↦ (inl (ground arith), ground arith)
              | inr (done, signed) ↦
                  let (r, served) =
                    serve_scan-IsServed debug payload api_key
                      (record { read = read; key = key; signed = ground arith }) in
                  elim served.outcome [
                    | inl (line, audited, result, log) ↦ absurd (ground (arith, result))
                    | inr (on, lone, result, log) ↦ (inr (raise_injective (sym h ∙ result)), log)
                  ]
            ]
          ]
  ]

  -- The error of the signature check is the endpoint's.
  pub serve_scan_hmac_refused :
      (debug : Bool) (payload : ScanAttachmentRequest) (api_key : Text) (e : Exception)
      → read_payload env request.body ≡ ok payload
      → validate_api_key k env.runtime.unicode rt.auth request.x_api_key payload.request_id
        ≡ ok api_key
      → (hmac_check payload api_key).0 ≡ raise e
      → (serve_scan k rt env debug request s).0 ≡ raise e
  unfolding serve_scan authenticate_and_scan
  serve_scan_hmac_refused debug payload api_key e read key check = ground arith
