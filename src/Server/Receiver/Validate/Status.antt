-- ===== src/Server/Receiver/Validate/Status.antt =====
-- What the webhook receivers of internal/server/receiver_handlers.go make of the status of an answer
-- of Google's tokeninfo endpoint.
use notification_controller.Prelude.{
  ℕ, String, ◌<>◌, ◌≡◌, refl, ap, inl, inr, Bool-cases, List, [], ◌∷◌, switch, Result, ok, err,
  ◌>>=◌, wrap, len, ltb,
}
use notification_controller.Api.{Receiver}
use notification_controller.Server.Receiver.Validate.{
  HttpRequest, HttpResponse, Checks, token, authenticate_gcr_request, validate_gcr, validate_cases,
  validate_type, validate, replaced, validate_generic_hmac, validate_git_hub, validate_git_lab,
  validate_cd_events, validate_bitbucket, validate_quay, validate_harbor, validate_docker_hub,
  validate_nexus, validate_acr, verify_hmac_signature,
}

-- The body of an answer, or the error of the call.
abbrev pub body_of : Result HttpResponse → Result (Result String)
body_of answer = answer >>= λ response. ok response.body

-- What is done with an answer.
abbrev decoded : Checks → Result HttpResponse → Result (Unit {0})
decoded env answer = wrap "cannot verify authenticity of payload: " answer >>= λ resp.
    wrap "cannot decode auth payload: " (env.decode_auth resp.body)

decoded_of_body :
    (env : Checks) (answer answer' : Result HttpResponse)
    → body_of answer ≡ body_of answer'
    → decoded env answer ≡ decoded env answer'
decoded_of_body env (err e) (err e') h =
    let same : e ≡ e' = cc in ap (λ t. err ("cannot verify authenticity of payload: " <> t)) same
decoded_of_body env (err e) (ok answer) h = cc
decoded_of_body env (ok answer) (err e) h = cc
decoded_of_body env (ok answer) (ok answer') h =
    let same : answer.body ≡ answer'.body = cc in
    ap (λ b. wrap "cannot decode auth payload: " (env.decode_auth b)) same

module _ (env : Checks) (http_get : String → Result HttpResponse) where
  -- The same server with other answers.
  abbrev pub with_answers : Checks
  with_answers = record env { http_get = http_get }

  module _ (same : (url : String) → body_of (env.http_get url) ≡ body_of (http_get url)) where
    authenticate_same :
        (bearer : String) (token_index : ℕ)
        → authenticate_gcr_request env bearer token_index
          ≡ authenticate_gcr_request with_answers bearer token_index
    unfolding authenticate_gcr_request
    authenticate_same bearer token_index = elim (Bool-cases (ltb (len bearer) token_index)) [
      | inl short ↦ rw (authenticate_gcr_request, short) refl
      | inr long ↦ rw (authenticate_gcr_request, long) (decoded_of_body env _ _ (same _))
    ]

    gcr_same : (r : HttpRequest) → validate_gcr env r ≡ validate_gcr with_answers r
    unfolding validate_gcr
    gcr_same r = λ i.
        wrap "cannot authenticate GCR request: " (authenticate_same (r.header "Authorization") 7 i)
        >>= λ _. replaced "cannot decode GCR webhook payload" (env.decode_gcr r.body) >>= λ message.
            replaced "cannot decode GCR webhook body"
              (env.unmarshal_gcr_body (env.base64_decode message))

    cases_same :
        (events : List String) (secret : String) (r : HttpRequest)
        → validate_cases env events secret r ≡ validate_cases with_answers events secret r
    unfolding validate_cases validate_generic_hmac validate_git_hub validate_git_lab
        validate_cd_events validate_bitbucket validate_quay validate_harbor validate_docker_hub
        validate_nexus validate_acr verify_hmac_signature
    cases_same events secret r = λ i.
        ("generic", ok tt)
        ∷ ("generic-hmac", validate_generic_hmac env secret r)
        ∷ ("github", validate_git_hub env secret events r)
        ∷ ("gitlab", validate_git_lab env secret events r)
        ∷ ("cdevents", validate_cd_events env events r)
        ∷ ("bitbucket", validate_bitbucket env secret events r)
        ∷ ("quay", validate_quay env r)
        ∷ ("harbor", validate_harbor env secret r)
        ∷ ("dockerhub", validate_docker_hub env r)
        ∷ ("gcr", gcr_same r i)
        ∷ ("nexus", validate_nexus env secret r)
        ∷ ("acr", validate_acr env r)
        ∷ []

    -- Whether a request is accepted, and with which error it is refused, does not depend on the
    -- statuses of the tokeninfo endpoint's answers, for any receiver and request: where each answer
    -- has the same body, or each call the same error, the outcome is the same, so that an error
    -- status with a body that can be decoded passes like a success.
    pub validate_same :
        (receiver : Receiver) (r : HttpRequest)
        → validate env receiver r ≡ validate with_answers receiver r
    unfolding validate token validate_type
    validate_same receiver r = λ i.
        wrap "unable to read token, error: " (token env receiver) >>= λ secret.
        switch receiver.spec.type (cases_same receiver.spec.events secret r i)
          (err ("recevier type '" <> (receiver.spec.type <> "' not supported")))
