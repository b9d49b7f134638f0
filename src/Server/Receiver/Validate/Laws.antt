-- ===== src/Server/Receiver/Validate/Laws.antt =====
-- Which requests pass the validation, for each type of receiver.
use notification_controller.Prelude.{
  wrap-eq-ok, Option-cases, String, ◌≡◌, ◌↔◌, ◌⊎◌, inl, inr, true, false, List, [], ◌∷◌, some,
  Result, ok, err, wrap, nat_eq, len, arith, eq_iff, Any, Result-cases, >>=-eq-ok, switch-eq-ok,
}
use notification_controller.Prelude.Dict.{lookup}
use notification_controller.Api.{Receiver, Secret, NamespacedName}
use notification_controller.Api.Event.{equal_fold}
use notification_controller.Server.Receiver.Validate.{
  HttpRequest, Checks, matches_event, token, authorise_event, validate_generic_hmac,
  validate_git_hub, validate_git_lab, validate_cd_events, validate_bitbucket, validate_quay,
  validate_harbor, validate_docker_hub, validate_gcr, replaced, authenticate_gcr_request,
  validate_nexus, validate_acr, validate_cases, validate_type, validate,
}

replaced-eq-ok :
    {A : Type 0} (words : String) (r : Result A) (a : A) → replaced words r ≡ ok a → r ≡ ok a
replaced-eq-ok words (ok a) b h = h
replaced-eq-ok words (err e) b h = cc

module _ (env : Checks) where
  -- The receiver handles all events, or this one up to letter case.
  abbrev pub IsAllowed : String → List String → Type 0
  IsAllowed event events = (events ≡ []) ⊎ Any (λ e. equal_fold env.unicode event e ≡ true) events

  matches_event_iff :
      (event : String) (events : List String)
      → (matches_event env.unicode event events ≡ true)
        ↔ Any (λ e. equal_fold env.unicode event e ≡ true) events
  unfolding matches_event
  matches_event_iff event [] = ground arith
  matches_event_iff event (e ∷ events) = ground (arith, matches_event_iff event events)

  authorise_event_iff :
      (words event : String) (events : List String)
      → (authorise_event env words event events ≡ ok tt) ↔ IsAllowed event events
  unfolding authorise_event
  authorise_event_iff words event events = ground (arith, matches_event_iff event events)

  -- The body has the signature that the receiver's token gives it.
  abbrev pub IsSigned : String → HttpRequest → Type 0
  IsSigned secret r =
      (b : String) × (r.body ≡ ok b)
      × (env.validate_signature (r.header "X-Signature") b secret ≡ ok tt)

  abbrev pub IsCdEvent : HttpRequest → Type 0
  IsCdEvent r =
      (b : String) × (cdevent : String) × (r.body ≡ ok b)
      × (env.cdevent_from_json b ≡ ok cdevent)
      × (env.validate_cdevent cdevent ≡ ok tt)

  abbrev pub IsNexusSigned : String → HttpRequest → Type 0
  IsNexusSigned secret r =
      (b : String) × (r.body ≡ ok b)
      × (nat_eq (len (r.header "X-Nexus-Webhook-Signature")) 0 ≡ false)
      × (r.header "X-Nexus-Webhook-Signature" ≡ env.hmac_sha1_hex secret b)
      × (env.unmarshal_nexus b ≡ ok tt)

  -- The bearer's token has a decodable answer from Google's endpoint, and the payload and the
  -- message in it can be decoded.
  abbrev pub IsGcrPush : HttpRequest → Type 0
  IsGcrPush r =
      (message : String) × (authenticate_gcr_request env (r.header "Authorization") 7 ≡ ok tt)
      × (env.decode_gcr r.body ≡ ok message)
      × (env.unmarshal_gcr_body (env.base64_decode message) ≡ ok tt)

  -- What a receiver of each type asks of a request, by its events and its token.
  abbrev pub Accepts : String → List String → String → HttpRequest → Type 0
  Accepts type events secret r =
      (type ≡ "generic")
      ⊎ ((type ≡ "generic-hmac") × IsSigned secret r)
      ⊎ ((type ≡ "github")
          × (env.validate_payload r secret ≡ ok tt)
          × IsAllowed (env.web_hook_type r) events)
      ⊎ ((type ≡ "gitlab")
          × (r.header "X-Gitlab-Token" ≡ secret)
          × IsAllowed (r.header "X-Gitlab-Event") events)
      ⊎ ((type ≡ "cdevents") × IsCdEvent r × IsAllowed (r.header "Ce-Type") events)
      ⊎ ((type ≡ "bitbucket")
          × (env.validate_payload r secret ≡ ok tt)
          × IsAllowed (r.header "X-Event-Key") events)
      ⊎ ((type ≡ "quay") × (env.decode_quay r.body ≡ ok tt))
      ⊎ ((type ≡ "harbor") × (r.header "Authorization" ≡ secret))
      ⊎ ((type ≡ "dockerhub") × (env.decode_docker_hub r.body ≡ ok tt))
      ⊎ ((type ≡ "gcr") × IsGcrPush r)
      ⊎ ((type ≡ "nexus") × IsNexusSigned secret r)
      ⊎ ((type ≡ "acr") × (env.decode_acr r.body ≡ ok tt))

  module _ (secret : String) (events : List String) (r : HttpRequest) where
    generic_hmac_iff : (validate_generic_hmac env secret r ≡ ok tt) ↔ IsSigned secret r
    unfolding validate_generic_hmac
    generic_hmac_iff = (
      λ h.
          let (b, read, signed) = >>=-eq-ok (wrap "unable to read request body: " r.body) _ h in
          (b, ground arith, ground arith),
      λ (b, read, signed). ground arith,
    )

    git_hub_iff :
        (validate_git_hub env secret events r ≡ ok tt)
        ↔ ((env.validate_payload r secret ≡ ok tt) × IsAllowed (env.web_hook_type r) events)
    unfolding validate_git_hub
    git_hub_iff =
        ground (arith, authorise_event_iff "the GitHub event" (env.web_hook_type r) events)

    git_lab_iff :
        (validate_git_lab env secret events r ≡ ok tt)
        ↔ ((r.header "X-Gitlab-Token" ≡ secret) × IsAllowed (r.header "X-Gitlab-Event") events)
    unfolding validate_git_lab
    git_lab_iff = ground (
      arith,
      eq_iff (r.header "X-Gitlab-Token") secret,
      authorise_event_iff "the GitLab event" (r.header "X-Gitlab-Event") events,
    )

    bitbucket_iff :
        (validate_bitbucket env secret events r ≡ ok tt)
        ↔ ((env.validate_payload r secret ≡ ok tt) × IsAllowed (r.header "X-Event-Key") events)
    unfolding validate_bitbucket
    bitbucket_iff =
        ground
          (arith, authorise_event_iff "the Bitbucket server event" (r.header "X-Event-Key") events)

    cd_events_iff :
        (validate_cd_events env events r ≡ ok tt)
        ↔ (IsCdEvent r × IsAllowed (r.header "Ce-Type") events)
    unfolding validate_cd_events
    cd_events_iff = (
      λ h.
          let (b, read, h1) = >>=-eq-ok (wrap "unable to read CDEvent request body: " r.body) _ h in
          let (cdevent, parsed, h2) =
            >>=-eq-ok (wrap "unable to validate CDEvent event: " (env.cdevent_from_json b)) _ h1 in
          let (_, valid, h3) =
            >>=-eq-ok (wrap "unable to validate CDEvent event: " (env.validate_cdevent cdevent)) _
              h2 in
          (
            (b, cdevent, wrap-eq-ok _ _ _ read, wrap-eq-ok _ _ _ parsed, wrap-eq-ok _ _ _ valid),
            (authorise_event_iff "the CDEvent" (r.header "Ce-Type") events).0 h3,
          ),
      λ ((b, cdevent, read, parsed, valid), allowed).
          ground (arith, (authorise_event_iff "the CDEvent" (r.header "Ce-Type") events).1 allowed),
    )

    nexus_iff : (validate_nexus env secret r ≡ ok tt) ↔ IsNexusSigned secret r
    unfolding validate_nexus
    nexus_iff = (
      λ h. elim (Result-cases r.body) [
        | inl (b, read) ↦ (
          b,
          read,
          ground arith,
          ground
              (arith, eq_iff (r.header "X-Nexus-Webhook-Signature") (env.hmac_sha1_hex secret b)),
          ground
              (arith, eq_iff (r.header "X-Nexus-Webhook-Signature") (env.hmac_sha1_hex secret b)),
        )
        | inr (e, read) ↦ ground arith
      ],
      λ (b, read, present, signed, decoded).
          ground
            (arith, eq_iff (r.header "X-Nexus-Webhook-Signature") (env.hmac_sha1_hex secret b)),
    )

    gcr_iff : (validate_gcr env r ≡ ok tt) ↔ IsGcrPush r
    unfolding validate_gcr
    gcr_iff = (
      λ h.
          let (_, authentic, h1) =
            >>=-eq-ok
              (wrap "cannot authenticate GCR request: "
                (authenticate_gcr_request env (r.header "Authorization") 7))
              _ h in
          let (message, decoded, h2) =
            >>=-eq-ok (replaced "cannot decode GCR webhook payload" (env.decode_gcr r.body)) _ h1 in
          (
            message,
            wrap-eq-ok _ _ _ authentic,
            replaced-eq-ok _ _ _ decoded,
            replaced-eq-ok _ _ _ h2,
          ),
      λ (message, authentic, decoded, read). ground arith,
    )

    harbor_iff : (validate_harbor env secret r ≡ ok tt) ↔ (r.header "Authorization" ≡ secret)
    unfolding validate_harbor
    harbor_iff = ground (arith, eq_iff (r.header "Authorization") secret)

    quay_iff : (validate_quay env r ≡ ok tt) ↔ (env.decode_quay r.body ≡ ok tt)
    unfolding validate_quay
    quay_iff = ground arith

    docker_hub_iff : (validate_docker_hub env r ≡ ok tt) ↔ (env.decode_docker_hub r.body ≡ ok tt)
    unfolding validate_docker_hub
    docker_hub_iff = ground arith

    acr_iff : (validate_acr env r ≡ ok tt) ↔ (env.decode_acr r.body ≡ ok tt)
    unfolding validate_acr
    acr_iff = ground arith

    -- A request passes the switch exactly if its type is known and its condition holds.
    validate_type_iff :
        (type : String)
        → (validate_type env type events secret r ≡ ok tt) ↔ Accepts type events secret r
    unfolding validate_cases validate_type
    validate_type_iff type = (
      λ h. elim (switch-eq-ok type (validate_cases env events secret r) _ tt h) [
        | inl (t, a) ↦ inl t
        | inr (inl (t, a)) ↦ inr (inl (t, generic_hmac_iff.0 a))
        | inr (inr (inl (t, a))) ↦ inr (inr (inl (t, (git_hub_iff.0 a).0, (git_hub_iff.0 a).1)))
        | inr (inr (inr (inl (t, a)))) ↦
            inr (inr (inr (inl (t, (git_lab_iff.0 a).0, (git_lab_iff.0 a).1))))
        | inr (inr (inr (inr (inl (t, a))))) ↦
            inr (inr (inr (inr (inl (t, (cd_events_iff.0 a).0, (cd_events_iff.0 a).1)))))
        | inr (inr (inr (inr (inr (inl (t, a)))))) ↦
            inr (inr (inr (inr (inr (inl (t, (bitbucket_iff.0 a).0, (bitbucket_iff.0 a).1))))))
        | inr (inr (inr (inr (inr (inr (inl (t, a))))))) ↦
            inr (inr (inr (inr (inr (inr (inl (t, quay_iff.0 a)))))))
        | inr (inr (inr (inr (inr (inr (inr (inl (t, a)))))))) ↦
            inr (inr (inr (inr (inr (inr (inr (inl (t, harbor_iff.0 a))))))))
        | inr (inr (inr (inr (inr (inr (inr (inr (inl (t, a))))))))) ↦
            inr (inr (inr (inr (inr (inr (inr (inr (inl (t, docker_hub_iff.0 a)))))))))
        | inr (inr (inr (inr (inr (inr (inr (inr (inr (inl (t, a)))))))))) ↦
            inr (inr (inr (inr (inr (inr (inr (inr (inr (inl (t, gcr_iff.0 a))))))))))
        | inr (inr (inr (inr (inr (inr (inr (inr (inr (inr (inl (t, a))))))))))) ↦
            inr (inr (inr (inr (inr (inr (inr (inr (inr (inr (inl (t, nexus_iff.0 a)))))))))))
        | inr (inr (inr (inr (inr (inr (inr (inr (inr (inr (inr (inl (t, a)))))))))))) ↦
            inr (inr (inr (inr (inr (inr (inr (inr (inr (inr (inr ((t, acr_iff.0 a))))))))))))
        | inr (inr (inr (inr (inr (inr (inr (inr (inr (inr (inr (inr x))))))))))) ↦ elim x [ ]
      ],
      λ h. elim h [
        | inl t ↦ rw t
        | inr (inl (t, a)) ↦ rw (t, generic_hmac_iff.1 a)
        | inr (inr (inl (t, a, b))) ↦ rw (t, git_hub_iff.1 (a, b))
        | inr (inr (inr (inl (t, a, b)))) ↦ rw (t, git_lab_iff.1 (a, b))
        | inr (inr (inr (inr (inl (t, a, b))))) ↦ rw (t, cd_events_iff.1 (a, b))
        | inr (inr (inr (inr (inr (inl (t, a, b)))))) ↦ rw (t, bitbucket_iff.1 (a, b))
        | inr (inr (inr (inr (inr (inr (inl (t, a))))))) ↦ rw (t, quay_iff.1 a)
        | inr (inr (inr (inr (inr (inr (inr (inl (t, a)))))))) ↦ rw (t, harbor_iff.1 a)
        | inr (inr (inr (inr (inr (inr (inr (inr (inl (t, a))))))))) ↦ rw (t, docker_hub_iff.1 a)
        | inr (inr (inr (inr (inr (inr (inr (inr (inr (inl (t, a)))))))))) ↦ rw (t, gcr_iff.1 a)
        | inr (inr (inr (inr (inr (inr (inr (inr (inr (inr (inl (t, a))))))))))) ↦
            rw (t, nexus_iff.1 a)
        | inr (inr (inr (inr (inr (inr (inr (inr (inr (inr (inr ((t, a)))))))))))) ↦
            rw (t, acr_iff.1 a)
      ],
    )

  -- The secret that the receiver refers to, in its namespace, has the token under its key.
  abbrev pub HasToken : Receiver → String → Type 0
  HasToken receiver t =
      (secret : Secret) × (env.get_secret
          (record { namespace = receiver.meta.namespace; name = receiver.spec.secret_ref })
        ≡ ok secret)
      × (lookup "token" secret.entries ≡ some t)

  token_iff : (receiver : Receiver) (t : String) → (token env receiver ≡ ok t) ↔ HasToken receiver t
  unfolding token
  token_iff receiver t =
      let name : NamespacedName = record {
        namespace = receiver.meta.namespace;
        name = receiver.spec.secret_ref;
      } in
      (
        λ h. elim (Result-cases (env.get_secret name)) [
          | inl (secret, found) ↦ elim (Option-cases (lookup "token" secret.entries)) [
            | inl none_there ↦ ground arith
            | inr (value, there) ↦ (secret, found, ground arith)
          ]
          | inr (e, found) ↦ ground arith
        ],
        λ (secret, found, there). ground arith,
      )

  -- A request is accepted exactly if the receiver's secret can be read and has a token, the type is
  -- one of the twelve, and the type's condition holds of the request for this token and the
  -- receiver's events.
  pub validate_iff :
      (receiver : Receiver) (r : HttpRequest)
      → (validate env receiver r ≡ ok tt)
        ↔ ((t : String) × HasToken receiver t × Accepts receiver.spec.type receiver.spec.events t r)
  unfolding validate
  validate_iff receiver r = (
    λ h.
        let (t, found, accepted) =
          >>=-eq-ok (wrap "unable to read token, error: " (token env receiver)) _ h in
        (
          t,
          (token_iff receiver t).0 (wrap-eq-ok _ _ _ found),
          (validate_type_iff t receiver.spec.events r receiver.spec.type).0 accepted,
        ),
    λ (t, has, accepts). rw (
      (token_iff receiver t).1 has,
      (validate_type_iff t receiver.spec.events r receiver.spec.type).1 accepts,
    ),
  )
