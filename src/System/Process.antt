-- ===== src/System/Process.antt =====
-- The two processes from their start: the lifespan of connector/app.py, and one call of the hook of
-- upstream_patches/sgraph/connector_hook.py with the settings of its environment.
use Prim.Native.String.{String}
use sgraph_omega_connector.Base.{
  true, all, ◌⊎◌, raise, ℕ, false, ◌++◌, List, [], ◌∷◌, Option, some, Result, ok, ◌>>=◌, ◌≡◌,
}
use sgraph_omega_connector.Text.{Text, Unicode}
use sgraph_omega_connector.Codec.{Crypto, IsCrypto}
use sgraph_omega_connector.Json.{Fields, object}
use sgraph_omega_connector.Errors.{Exception}
use sgraph_omega_connector.Models.{ScanAttachmentResponse}
use sgraph_omega_connector.Audit.{AuditRecord}
use sgraph_omega_connector.Codec.Utf8.{is_scalar}
use sgraph_omega_connector.App.Records.{IsRecordOf}
use sgraph_omega_connector.OmegaClient.{scan_path}
use sgraph_omega_connector.App.{ConnectorRuntime, State, Environment}
use sgraph_omega_connector.Config.{Settings, load_settings}
use sgraph_omega_connector.Config.Startup.{new_runtime, new_state}
use sgraph_omega_connector.SGraph.{HookError, client_error, connector_http_error}
use sgraph_omega_connector.SGraph.Payload.{IsPydantic}
use sgraph_omega_connector.SGraph.Settings.{load_config}
use sgraph_omega_connector.System.{internal_error, Channel, IsFaithful, hook_round}
use sgraph_omega_connector.System.Pairing.{Enforces, HookCall, payload_of, IsComplete}
use sgraph_omega_connector.System.Environments.{IsMatched}

-- `lifespan`: what a connector starts with.
unfoldable pub lifespan :
    Unicode → (String → Option Text) → Result Exception (ConnectorRuntime × State)
lifespan u getenv = load_settings u getenv >>= λ c. ok (new_runtime c, new_state c)

-- `run_connector_scan` and `enforce_connector_verdict`, in a process with the environment `getenv`.
unfoldable pub hook_call :
    {B : Type 0}
    → Channel B
    → Crypto
    → ConnectorRuntime
    → Environment
    → (String → Option Text)
    → ℕ
    → Text
    → (Fields → List ℕ)
    → HookCall
    → State
    → Result Exception (Result HookError Text × State)
hook_call c k rt env getenv sent nonce dump call s =
    load_config env.runtime.unicode getenv >>= λ loaded.
    ok (hook_round c k rt env loaded.0 loaded.1 sent nonce dump (payload_of call) s)

module _ {B : Type 0} (c : Channel B) (f : IsFaithful c) (k : Crypto) (ck : IsCrypto k)
    (env : Environment) (cp : IsPydantic env.pydantic) (connector client : String → Option Text)
    (matched : IsMatched env.runtime.unicode connector client) (sent : ℕ) (nonce : Text)
    (dump : Fields → List ℕ) (call : HookCall) (complete : IsComplete call)
    (decoded : env.loads_body (dump (payload_of call)) ≡ some (object (payload_of call))) where
  -- What the first call gives, at a runtime and a state.
  abbrev pub FirstServed : ConnectorRuntime → State → Type 0
  FirstServed rt s =
      (r : ScanAttachmentResponse) × (x : Result HookError Text) × (s' : State) × (hook_call c k rt
          env client sent nonce dump call s
        ≡ ok (x, s'))
      × (((a : AuditRecord) × IsRecordOf k rt (scan_path false) r a
            × Enforces x r.verdict
            × (s'.audit ≡ s.audit ++ a ∷ []))
          ⊎ ((rt.audit_redaction ≡ true)
              × (all is_scalar r.tenant_id ≡ false)
              × (x ≡ raise (client_error (connector_http_error 500 (internal_error c))))
              × (s'.audit ≡ s.audit)))
