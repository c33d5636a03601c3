-- ===== src/Scripts/Transfer/Honest.antt =====
-- A file that goes through a store that keeps what it is given reaches the connector unchanged.
use sgraph_omega_connector.Base.{ℕ, true, List, [], some, ok, length, ◌≡◌, refl}
use sgraph_omega_connector.Text.{Text, codes, truthy, text_eq, text_eq_refl}
use sgraph_omega_connector.Codec.Hex.{hex}
use sgraph_omega_connector.Dict.{lookup}
use sgraph_omega_connector.Json.{
  Json, Fields, field, end, text, object, fields, is_truthy, str_json,
}
use sgraph_omega_connector.App.{text_or}
use sgraph_omega_connector.Scripts.Flow.{
  resume, Wire, loads_bytes, http_json, http_bytes, ◌>>=◌, lift,
}
use sgraph_omega_connector.Scripts.SgMeta.{
  package_with_sgmeta, sgmeta_fields, IsAesgcm, encrypt_like_sgraph_ui,
}
use sgraph_omega_connector.Scripts.SgMeta.Laws.{
  extract-package_with_sgmeta, decrypt-encrypt_like_sgraph_ui,
}
use sgraph_omega_connector.Scripts.Answers.{get_dict, filename_of}
use sgraph_omega_connector.Scripts.Transfer.{
  Scenario, Call, create, upload, complete, download, Draw, Libraries, Args, Route, Walked,
  transfer, connector_payload, judge, walk,
}

-- A store that answers 200 and keeps what is uploaded; `holds s id b`: in the state `s` the transfer
-- `id` has the bytes `b`.
pub record IsStore {S : Type 0} (l : Libraries) (send : Call → S → S × Wire)
    (holds : S → Text → List ℕ → Type 0) : Type 1 where
  pub creates :
      (n : ℕ) (mime : Text) (s : S)
      → (s' : S) × (w : Wire) × (id : Text) × (fs : Fields) × (send (create n mime) s ≡ (s', w))
        × (http_json l.decoder w ≡ ok (200, object fs))
        × (text_or l.repr (lookup (codes "transfer_id") (fields fs)) [] ≡ id)
        × (truthy id ≡ true)
  pub keeps :
      (id : Text) (b : List ℕ) (s : S)
      → (s' : S) × (w : Wire) × (raw : List ℕ) × (send (upload id b) s ≡ (s', w))
        × (http_bytes w ≡ ok (200, raw))
        × holds s' id b
  pub completes :
      (id : Text) (b : List ℕ) (s : S)
      → holds s id b
      → (s' : S) × (w : Wire) × (j : Json) × (send (complete id) s ≡ (s', w))
        × (http_json l.decoder w ≡ ok (200, j))
        × holds s' id b
  pub gives_back :
      (id : Text) (b : List ℕ) (s : S)
      → holds s id b
      → (s' : S) × (w : Wire) × (send (download id) s ≡ (s', w)) × (http_bytes w ≡ ok (200, b))

filename_of-sgmeta :
    (repr : Json → Text) (name other : Text)
    → truthy name ≡ true
    → filename_of repr (some (object (field (codes "filename") (text name) end))) other ≡ ok name
unfolding filename_of text_or lookup text_eq is_truthy str_json
filename_of-sgmeta repr name other named = rw (named) refl

-- The entry of the results for a file that came through as it was.
abbrev pub delivered : Libraries → Scenario → Draw → List ℕ → Text → Json → Walked
delivered l sc d packaged id response =
    let encrypted = encrypt_like_sgraph_ui l.aesgcm d.key d.iv packaged in
    record {
      scenario = sc.name;
      transfer_id = id;
      uploaded_encrypted_sha256 = hex (l.crypto.sha256 encrypted);
      downloaded_encrypted_sha256 = hex (l.crypto.sha256 encrypted);
      encrypted_roundtrip_match = true;
      sgmeta_metadata = some (object (field (codes "filename") (text sc.filename) end));
      decrypted_content_sha256 = hex (l.crypto.sha256 sc.content);
      decrypted_content_size = length sc.content;
      response = response;
    }

module _ {S : Type 0} (l : Libraries) (send : Call → S → S × Wire)
    (holds : S → Text → List ℕ → Type 0) (h : IsStore l send holds) where
  transfer_lem :
      (n : ℕ) (mime : Text) (b : List ℕ) (s : S)
      → (s' : S) × (id : Text) × (transfer l send n mime b s ≡ (s', ok (id, b)))
  unfolding transfer get_dict resume
  transfer_lem n mime b s =
      let (s₁, w₁, id, fs, sent₁, read₁, named, nonempty) = h.creates n mime s in
      let (s₂, w₂, raw, sent₂, read₂, held₂) = h.keeps id b s₁ in
      let (s₃, w₃, j, sent₃, read₃, held₃) = h.completes id b s₂ held₂ in
      let (s₄, w₄, sent₄, read₄) = h.gives_back id b s₃ held₃ in
      (
        s₄,
        id,
        rw (sent₁, read₁) rw (named) rw (nonempty, sent₂, read₂, sent₃, read₃, sent₄, read₄) refl,
      )

  -- Where the store keeps what it is given and the metadata of the envelope decode to what was
  -- encoded, a round asks the connector to scan exactly the file of the scenario, under its own
  -- name, and ends the way that this call ends; what has come back is what was uploaded.
  pub walk-delivers :
      (route : Route) (args : Args) (sc : Scenario) (d : Draw) (s : S) (packaged : List ℕ)
      → IsAesgcm l.aesgcm
      → length d.iv ≡ 12
      → package_with_sgmeta l.dump sc.content sc.filename ≡ ok packaged
      → loads_bytes l.decoder (l.dump (sgmeta_fields sc.filename))
        ≡ some (object (field (codes "filename") (text sc.filename) end))
      → truthy sc.filename ≡ true
      → (s' : S) × (id : Text) × (walk l send route args sc d s
          ≡ (judge l send route args d
                  (connector_payload l send route args sc d id sc.filename sc.content)
                >>= λ response. lift (ok (delivered l sc d packaged id response)))
              s')
  unfolding walk resume
  walk-delivers route args sc d s packaged a twelve made read named =
      let encrypted = encrypt_like_sgraph_ui l.aesgcm d.key d.iv packaged in
      let (s', id, fetched) = transfer_lem (length packaged) sc.mime encrypted s in
      (
        s',
        id,
        rw (made) rw (fetched) rw
            (decrypt-encrypt_like_sgraph_ui l.aesgcm d.key d.iv packaged a twelve) rw
            (extract-package_with_sgmeta l.dump (loads_bytes l.decoder) sc.content packaged
              sc.filename _ made read)
            rw (filename_of-sgmeta l.repr sc.filename sc.filename named) rw (text_eq_refl encrypted)
            refl,
      )
