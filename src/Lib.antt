-- ===== src/Lib.antt =====
-- The SGraph Omega connector: a web service between SGraph and the Omega scanner. A request to
-- scan an attachment is authenticated (API key, HMAC signature, timestamp, nonce), sent on to Omega
-- with retries behind a circuit breaker, and answered by a verdict: Omega's, or a fallback by the
-- configured fail mode. On the SGraph side a client signs the request and a hook enforces the verdict.
--
-- Security: connector/security.py. Its `NonceReplayCache` is an association list of keys and expiry
--   times, with `_cleanup` as `cleanup` and `check_and_mark` as a function that returns the new cache.
--   Replay, Window, Survival, Calls and Overflow have its theorems, Canonical those of the canonical
--   string.
-- Auth: connector/auth.py, `validate_api_key` and `validate_hmac`. A raised exception is the
--   constructor `raise` of `Result` (Base).
-- OmegaClient: connector/omega_client.py, with its circuit breaker (Client) and the loop over the
--   attempts (Posts). Loop, Attempts and Breaker have the theorems of scans one after another,
--   Interleaving those of scans that overlap.
-- App: connector/app.py. `serve_scan` is the body of both endpoints, which differ in the path and in
--   the gate of the debug endpoint; `State` holds the replay cache, the circuit and the audit log.
--   Records, Admission, Verdicts, Statuses, Guarantees and MissingId have the theorems. Concurrent
--   splits the endpoint where it waits for Omega, into `arrive` and `conclude`, and has a step relation for
--   requests that overlap; its children have the theorems.
--   Wire has the routes (`dispatch`) and the JSON of a reply.
-- Models, Errors, Audit, Config: the modules of connector/ of the same contents.
-- SGraph: upstream_patches/sgraph, the client, the hook with its settings and its payload.
-- System: the hook and the application together. `hook_round` signs a payload, hands the request to
--   the routes and enforces the verdict of what comes back over a `Channel`, which renders and parses
--   JSON, and says what `urlopen` does under the client's timeout: the reply is read in time, or the
--   request does not arrive, or the reply is late or lost. Pairing and Environments say when the two
--   sides are set up for each other, Process has their start; Allows, Answers and Serves have the
--   theorems of a round.
-- Contract: contracts/schemas/snapshots, as data, with a predicate that reads the keywords that they
--   use; Replies, Requests and Clients compare the documents of the code with them.
-- Scripts: scripts/signature_helper.py, and in Qualification scripts/generate_qualification_report.py:
--   the counters, in Report the decision and the rendering, in Run the loop of signed requests. In
--   Performance is scripts/perf_report.py, in Healthcheck scripts/compose_healthcheck.py.
--   SgMeta, Flow, Answers, Transfer, Pdf and Scenarios are scripts/e2e_sgraph_real_path.py, and with
--   another route scripts/e2e_sgraph_upstream_connector_path.py: `run` acts on a state that stands for
--   the services, through a function `send` from a call to what comes over the wire. Probe and Probing
--   are scripts/e2e_connector_body_limit_probe.py and scripts/e2e_connector_boundary_20mb.py, where the
--   loop of `_mk_bytes` runs on fuel, of which as much as bytes are asked for is enough. Preflight is
--   scripts/preflight_upstream.py, Smoke and its Post are scripts/smoke_local.py.
-- Base, Text, Codec, Dict, Json: lists, results and integers; Python's `str`, `bytes`, `dict` and
--   JSON values, as far as the code uses them.
--
-- Texts are lists of code points. The clock is a number of microseconds, so the sums of `float`
-- times are exact. Digests, Unicode's tables beyond ASCII, `repr`, pydantic, UUIDs, JSON texts and
-- httpx are arguments; of the digests it is assumed that they are 32 bytes (`IsCrypto`), of AES-GCM
-- that it decrypts what it has encrypted and adds a tag (`IsAesgcm`). The loop of the retries is
-- recursion on the number of rounds that are left, which is `retry_count` + 1. `int` refuses texts
-- of more than 4300 digits, as Python does.
--
-- The audit record of a response is written behind the `try`, and its digest raises where the tenant
-- has a lone surrogate; the exception leads to the status 500. Elsewhere a text with a lone surrogate is
-- encoded like any other (`IsFaithful` supposes that every document can be sent), and an exception while
-- the body of an error is read is left out.
-- Whether pydantic and httpx can build the request to Omega is an argument (`can_build`).
--
-- `serve_scan` and `scan_attachment` are what a request or a scan does alone. Requests that overlap at
-- `await` are modelled by the step relation of App/Concurrent, and the circuit under scans that overlap
-- by that of OmegaClient/Interleaving. Starlette, uvicorn, the logger, most of the command lines of the
-- scripts, the opening of connections, the writing of files and the deployment are not modelled.
pub mod Base
pub mod Text
pub mod Codec
pub mod Dict
pub mod Security
pub mod Json
pub mod Errors
pub mod Models
pub mod Auth
pub mod OmegaClient
pub mod Audit
pub mod App
pub mod Config
pub mod SGraph
pub mod Scripts
mod Tests
pub mod Contract
pub mod System
