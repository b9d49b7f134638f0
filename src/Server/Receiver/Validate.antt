-- ===== src/Server/Receiver/Validate.antt =====
-- How the receiver server validates the request of a webhook: `validate`, a function for each case
-- of its switch, and what these call. Signatures of other packages, decoders of payloads, the HMAC
-- and the request to Google's token endpoint are the fields of `Checks`. A decoded payload is only
-- logged, so a decoder gives an error or nothing.
pub mod Laws
pub mod Status
use Prim.Native.String.{slice}
use notification_controller.Prelude.{
  ℕ, String, ◌<>◌, ◌==◌, Bool, true, false, not, ◌&&◌, ◌||◌, List, [], ◌∷◌, Option, none, some,
  if◌then◌else◌, Result, ok, err, ◌>>=◌, ◌>>◌, wrap, switch, ltb, nat_eq, length, len,
}
use notification_controller.Prelude.Dict.{lookup}
use notification_controller.Api.{Receiver, Secret, NamespacedName}
use notification_controller.Api.Event.{Unicode, equal_fold}

-- http.Request, as far as it is read; `body` is what io.ReadAll gives.
pub record HttpRequest : Type 0 where
  pub request_uri : String
  pub header : String → String
  pub body : Result String

-- http.Response
pub record HttpResponse : Type 0 where
  pub status_code : ℕ
  pub body : Result String

pub record Checks : Type 0 where
  -- s.kubeClient.Get of a secret
  pub get_secret : NamespacedName → Result Secret
  -- its `String` method
  pub show_name : NamespacedName → String
  -- github.ValidateSignature(signature, body, token), github.ValidatePayload(r, token) and
  -- github.WebHookType(r)
  pub validate_signature : String → String → String → Result (Unit {0})
  pub validate_payload : HttpRequest → String → Result (Unit {0})
  pub web_hook_type : HttpRequest → String
  -- cdevents04.NewFromJsonBytes and cdevents.Validate
  pub cdevent_from_json : String → Result String
  pub validate_cdevent : String → Result (Unit {0})
  -- json.NewDecoder(r.Body).Decode and json.Unmarshal into the payload of each type of receiver
  pub decode_quay : Result String → Result (Unit {0})
  pub decode_docker_hub : Result String → Result (Unit {0})
  pub decode_gcr : Result String → Result String
  pub base64_decode : String → String
  pub unmarshal_gcr_body : String → Result (Unit {0})
  pub unmarshal_nexus : String → Result (Unit {0})
  pub decode_acr : Result String → Result (Unit {0})
  pub decode_auth : Result String → Result (Unit {0})
  -- c.Get(url) of an http.Client
  pub http_get : String → Result HttpResponse
  -- hex.EncodeToString of the HMAC-SHA1 of a payload under a key
  pub hmac_sha1_hex : String → String → String
  pub unicode : Unicode

-- The loop over `receiver.Spec.Events`.
unfoldable pub matches_event : Unicode → String → List String → Bool
matches_event u event [] = false
matches_event u event (e ∷ events) = equal_fold u event e || matches_event u event events

-- An error without the text of its cause.
abbrev pub replaced : {A : Type 0} → String → Result A → Result A
replaced words (ok a) = ok a
replaced words (err _) = err words

module _ (env : Checks) where
  unfoldable pub token : Receiver → Result String
  token receiver =
      let name : NamespacedName = record {
        namespace = receiver.meta.namespace;
        name = receiver.spec.secret_ref;
      } in
      wrap ("unable to read token from secret '" <> (env.show_name name <> "' error: "))
        (env.get_secret name)
      >>= λ secret. elim (lookup "token" secret.entries) [
        | some value ↦ ok value
        | none ↦
            err ("invalid '" <> (env.show_name name <> "' secret data: required field 'token'"))
      ]

  -- `if len(receiver.Spec.Events) > 0 { ... if !allowed { return ... } }`; `words` begin the error.
  unfoldable pub authorise_event : String → String → List String → Result (Unit {0})
  unfolding matches_event
  authorise_event words event events =
      if ltb 0 (length events) && not (matches_event env.unicode event events)
      then err (words <> (" '" <> (event <> "' is not authorised")))
      else ok tt

  unfoldable pub validate_generic_hmac : String → HttpRequest → Result (Unit {0})
  validate_generic_hmac token r = do
    b ← wrap "unable to read request body: " r.body
    wrap "unable to validate HMAC signature: "
        (env.validate_signature (r.header "X-Signature") b token)

  unfoldable pub validate_git_hub : String → List String → HttpRequest → Result (Unit {0})
  unfolding authorise_event
  validate_git_hub token events r = do
    wrap "the GitHub signature header is invalid, err: " (env.validate_payload r token)
    authorise_event "the GitHub event" (env.web_hook_type r) events

  unfoldable pub validate_git_lab : String → List String → HttpRequest → Result (Unit {0})
  unfolding authorise_event
  validate_git_lab token events r =
      if not (r.header "X-Gitlab-Token" == token)
      then err "the X-Gitlab-Token header value does not match the receiver token"
      else authorise_event "the GitLab event" (r.header "X-Gitlab-Event") events

  unfoldable pub validate_cd_events : List String → HttpRequest → Result (Unit {0})
  unfolding authorise_event
  validate_cd_events events r = do
    b ← wrap "unable to read CDEvent request body: " r.body
    cdevent ← wrap "unable to validate CDEvent event: " (env.cdevent_from_json b)
    wrap "unable to validate CDEvent event: " (env.validate_cdevent cdevent)
    authorise_event "the CDEvent" (r.header "Ce-Type") events

  unfoldable pub validate_bitbucket : String → List String → HttpRequest → Result (Unit {0})
  unfolding authorise_event
  validate_bitbucket token events r = do
    wrap "the Bitbucket server signature header is invalid, err: " (env.validate_payload r token)
    authorise_event "the Bitbucket server event" (r.header "X-Event-Key") events

  unfoldable pub validate_quay : HttpRequest → Result (Unit {0})
  validate_quay r = replaced "cannot decode Quay webhook payload" (env.decode_quay r.body)

  unfoldable pub validate_harbor : String → HttpRequest → Result (Unit {0})
  validate_harbor token r =
      if not (r.header "Authorization" == token)
      then err "the Harbor Authorization header value does not match the receiver token"
      else ok tt

  unfoldable pub validate_docker_hub : HttpRequest → Result (Unit {0})
  validate_docker_hub r =
      replaced "cannot decode DockerHub webhook payload" (env.decode_docker_hub r.body)

  -- `bearer[tokenIndex:]` counts bytes, as `slice` and `len` do.
  unfoldable pub authenticate_gcr_request : String → ℕ → Result (Unit {0})
  authenticate_gcr_request bearer token_index =
      if ltb (len bearer) token_index
      then err ("Authorization header is missing or malformed: " <> bearer)
      else (do
        let url =
            "https://oauth2.googleapis.com/tokeninfo?id_token="
            <> slice bearer token_index (len bearer)
        resp ← wrap "cannot verify authenticity of payload: " (env.http_get url)
        wrap "cannot decode auth payload: " (env.decode_auth resp.body))

  -- `tokenIndex` is the length of "Bearer ".
  unfoldable pub validate_gcr : HttpRequest → Result (Unit {0})
  unfolding authenticate_gcr_request
  validate_gcr r = do
    wrap "cannot authenticate GCR request: " (authenticate_gcr_request (r.header "Authorization") 7)
    message ← replaced "cannot decode GCR webhook payload" (env.decode_gcr r.body)
    replaced "cannot decode GCR webhook body" (env.unmarshal_gcr_body (env.base64_decode message))

  unfoldable pub verify_hmac_signature : String → String → String → Bool
  verify_hmac_signature key signature payload = signature == env.hmac_sha1_hex key payload

  unfoldable pub validate_nexus : String → HttpRequest → Result (Unit {0})
  unfolding verify_hmac_signature
  validate_nexus token r =
      let signature = r.header "X-Nexus-Webhook-Signature" in
      if nat_eq (len signature) 0 then err "Nexus signature is missing from header" else (do
        b ← wrap "cannot read Nexus payload. error: " r.body
        if verify_hmac_signature token signature b
            then wrap "cannot decode Nexus webhook payload: " (env.unmarshal_nexus b)
            else err "invalid Nexus signature")

  unfoldable pub validate_acr : HttpRequest → Result (Unit {0})
  validate_acr r = wrap "cannot decode ACR webhook payload: " (env.decode_acr r.body)

  -- The cases of the switch on `receiver.Spec.Type`.
  unfoldable pub validate_cases :
      List String → String → HttpRequest → List (String × Result (Unit {0}))
  validate_cases events token r =
      ("generic", ok tt)
      ∷ ("generic-hmac", validate_generic_hmac token r)
      ∷ ("github", validate_git_hub token events r)
      ∷ ("gitlab", validate_git_lab token events r)
      ∷ ("cdevents", validate_cd_events events r)
      ∷ ("bitbucket", validate_bitbucket token events r)
      ∷ ("quay", validate_quay r)
      ∷ ("harbor", validate_harbor token r)
      ∷ ("dockerhub", validate_docker_hub r)
      ∷ ("gcr", validate_gcr r)
      ∷ ("nexus", validate_nexus token r)
      ∷ ("acr", validate_acr r)
      ∷ []

  unfoldable pub validate_type : String → List String → String → HttpRequest → Result (Unit {0})
  unfolding validate_cases
  validate_type type events token r =
      switch type (validate_cases events token r)
        (err ("recevier type '" <> (type <> "' not supported")))

  unfoldable pub validate : Receiver → HttpRequest → Result (Unit {0})
  unfolding token validate_type
  validate receiver r = do
    t ← wrap "unable to read token, error: " (token receiver)
    validate_type receiver.spec.type receiver.spec.events t r
