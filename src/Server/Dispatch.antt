-- ===== src/Server/Dispatch.antt =====
-- From an event and its alerts to the notifications that are posted: internal/server/event_handlers.go.
-- The reads of the cluster, YAML, URLs, certificates and the masking of tokens are not the
-- program's: they are the fields of `Services`. A notification that a goroutine posts is a
-- `Posting`; `post_notification` is the body of that goroutine.
pub mod Postings
pub mod Secrets
pub mod Providers
use notification_controller.Prelude.{
  ℕ, String, ◌<>◌, ◌==◌, Bool, true, false, not, ◌&&◌, ◌||◌, List, [], ◌∷◌, ◌++◌, Option, none,
  some, if◌then◌else◌, Result, ok, err, ◌>>=◌, ◌>>◌, wrap, ltb, nat_eq, length, len, trim_space,
}
use notification_controller.Prelude.Dict.{Dict, lookup}
use notification_controller.Prelude.Recorder.{Recorded, warning, Writer, pure, and_then, eventf}
use notification_controller.Api.{Alert, Provider, Secret, NamespacedName, get_timeout}
use notification_controller.Api.Event.{Event, EventApi, ObjectReference, Unicode}
use notification_controller.Prelude.Actions.{Action}
use notification_controller.Notifier.Factory.{Constructors, Notifier, NotifierOptions, notifier}
use notification_controller.Server.Matching.{
  Lookups, alert_subject, filter_alerts_for_event, involved_object_string,
}
use notification_controller.Server.Metadata.{combine_event_metadata, exclude_internal_metadata}

pub record Services (N Pool : Type 0) : Type 0 where
  pub lookups : Lookups
  -- s.kubeClient.List of all alerts, s.kubeClient.Get of a provider and of a secret
  pub list_alerts : Result (List Alert)
  pub get_provider : NamespacedName → Result Provider
  pub get_secret : NamespacedName → Result Secret
  -- url.Parse and yaml.Unmarshal
  pub url_parse : String → Result (Unit {0})
  pub unmarshal : String → Result (Dict String)
  -- x509's AppendCertsFromPEM on an empty pool
  pub append_certs : String → Option Pool
  pub constructors : Constructors N Pool
  -- masktoken.MaskTokenFromString(text, token)
  pub mask_token : String → String → Result String

-- The local variables of `createNotifier` that a secret may set.
pub record Credentials : Type 0 where
  pub webhook : String
  pub username : String
  pub proxy : String
  pub token : String
  pub password : String
  pub headers : Dict String

-- A key of the secret, or the value that the variable had.
abbrev pub trimmed_or : Option String → String → String
trimmed_or none old = old
trimmed_or (some value) old = trim_space value

-- What `dispatchNotification` hands to its goroutine.
pub record Posting (N : Type 0) : Type 0 where
  pub sender : Notifier N
  pub notification : Event
  pub token : String
  pub timeout : ℕ
  pub alert : Alert
  pub involved_object : ObjectReference

module _ {N Pool : Type 0} (env : Services N Pool) where
  abbrev pub spec_credentials : Provider → Credentials
  spec_credentials provider = record {
    webhook = provider.spec.address;
    username = provider.spec.username;
    proxy = provider.spec.proxy;
    token = "";
    password = "";
    headers = [];
  }

  abbrev pub check_address : Option String → Result (Unit {0})
  check_address none = ok tt
  check_address (some value) =
      if ltb 2048 (len value)
      then err "invalid address in secret: address exceeds maximum length of 2048 bytes"
      else ok tt

  abbrev pub check_proxy : Option String → Result (Unit {0})
  check_proxy none = ok tt
  check_proxy (some value) =
      let proxy = trim_space value in
      wrap ("invalid proxy in secret '" <> (proxy <> "': ")) (env.url_parse proxy)

  abbrev pub read_headers : Option String → Result (Dict String)
  read_headers none = ok []
  read_headers (some value) = wrap "failed to read headers from secret: " (env.unmarshal value)

  -- The part of `createNotifier` under `provider.Spec.SecretRef != nil`, after the secret is read.
  unfoldable pub secret_credentials : Credentials → Dict String → Result Credentials
  secret_credentials c entries = do
    check_address (lookup "address" entries)
    check_proxy (lookup "proxy" entries)
    headers ← read_headers (lookup "headers" entries)
    ok (record {
      webhook = trimmed_or (lookup "address" entries) c.webhook;
      username = trimmed_or (lookup "username" entries) c.username;
      proxy = trimmed_or (lookup "proxy" entries) c.proxy;
      token = trimmed_or (lookup "token" entries) c.token;
      password = trimmed_or (lookup "password" entries) c.password;
      headers = headers;
    })

  unfoldable pub read_credentials : Provider → Result Credentials
  unfolding secret_credentials
  read_credentials provider = elim provider.spec.secret_ref [
    | none ↦ ok (spec_credentials provider)
    | some name ↦ do
      secret ←
          wrap "failed to read secret: "
            (env.get_secret (record { namespace = provider.meta.namespace; name = name }))
      secret_credentials (spec_credentials provider) secret.entries
  ]

  abbrev pub is_certificate_type : String → Bool
  is_certificate_type type = type == "Opaque" || type == "kubernetes.io/tls" || type == ""

  unfoldable pub ca_file : Secret → Result String
  ca_file secret = elim (lookup "ca.crt" secret.entries) [
    | some value ↦ ok value
    | none ↦ elim (lookup "caFile" secret.entries) [
      | some value ↦ ok value
      | none ↦ err ("no 'ca.crt' key found in Secret '" <> (secret.name <> "'"))
    ]
  ]

  abbrev append_certs : Option Pool → Result (Option Pool)
  append_certs none = err "could not append to cert pool"
  append_certs (some pool) = ok (some pool)

  unfoldable pub secret_cert_pool : Secret → Result (Option Pool)
  unfolding ca_file
  secret_cert_pool secret =
      if not (is_certificate_type secret.type)
      then err (
          "cannot use Secret '"
          <> (secret.name
              <> ("' to get TLS certificate: invalid Secret type: '" <> (secret.type <> "'"))))
      else do file ← ca_file secret; append_certs (env.append_certs file)

  -- The part of `createNotifier` under `provider.Spec.CertSecretRef != nil`.
  unfoldable pub read_cert_pool : Provider → Result (Option Pool)
  unfolding secret_cert_pool
  read_cert_pool provider = elim provider.spec.cert_secret_ref [
    | none ↦ ok none
    | some name ↦ do
      secret ←
          wrap "failed to read cert secret: "
            (env.get_secret (record { namespace = provider.meta.namespace; name = name }))
      secret_cert_pool secret
  ]

  -- notifier.NewFactory
  unfoldable pub new_factory : Provider → Credentials → Option Pool → NotifierOptions Pool
  new_factory provider c pool = record {
    url = c.webhook;
    proxy_url = c.proxy;
    username = c.username;
    channel = provider.spec.channel;
    token = c.token;
    headers = c.headers;
    cert_pool = pool;
    password = c.password;
    provider_uid = provider.meta.uid;
  }

  abbrev pub made_or_error : Notifier N × Option String → Result (Notifier N)
  made_or_error (n, none) = ok n
  made_or_error (n, some e) = err ("failed to initialize notifier: " <> e)

  -- The end of `createNotifier`.
  unfoldable pub make_sender : Provider → Credentials → Option Pool → Result (Notifier N × String)
  make_sender provider c pool = if c.webhook == "" then err "provider has no address" else (do
    sender ←
        made_or_error (notifier env.constructors (new_factory provider c pool) provider.spec.type)
    ok (sender, c.token))

  unfoldable pub create_notifier : Provider → Result (Notifier N × String)
  unfolding read_credentials read_cert_pool make_sender
  create_notifier provider = do
    c ← read_credentials provider
    pool ← read_cert_pool provider
    make_sender provider c pool

abbrev metadata_conflict_message : String
metadata_conflict_message =
    "metadata key conflicts detected (please refer to the Alert API docs and Flux RFC 0008 for more information)"

-- The warning at the end of `combineEventMetadata`, by its annotations.
unfoldable pub conflict_warning : Alert → Dict String → List Recorded
conflict_warning alert annotations =
    if ltb 0 (length annotations)
    then record {
      subject = alert_subject alert;
      type = warning;
      reason = "MetadataAppendFailed";
      message = metadata_conflict_message;
      annotations = annotations;
    }
      ∷ []
    else []

-- The error about an alert of another namespace.
unfoldable pub denied_message : Event → Alert → String
unfolding involved_object_string
denied_message event alert =
    "discarding event, access denied to cross-namespace sources: alert '"
    <> (alert.meta.namespace
        <> ("/"
            <> (alert.meta.name
                <> ("' can't process event from '"
                    <> (involved_object_string event.involved_object
                        <> "', cross-namespace references have been blocked")))))

-- No goroutine for a provider that is suspended.
abbrev pub started : {N : Type 0} → Result (Option (Posting N)) → Result (List (Posting N))
started (err e) = err e
started (ok none) = ok []
started (ok (some posting)) = ok (posting ∷ [])

module _ (api : EventApi) {N Pool : Type 0} (env : Services N Pool) where
  -- The notification is a copy of the event with the combined metadata.
  unfoldable pub post_params : Event → Alert → Provider → Notifier N × String → Writer (Posting N)
  unfolding conflict_warning
  post_params event alert provider (sender, token) =
      let (notification, annotations) = combine_event_metadata api event alert in
      (
        record {
          sender = sender;
          notification = notification;
          token = token;
          timeout = get_timeout provider;
          alert = alert;
          involved_object = event.involved_object;
        },
        conflict_warning alert annotations,
      )

  -- An error is returned before anything is recorded.
  unfoldable pub get_notification_params :
      Bool → Event → Alert → Writer (Result (Option (Posting N)))
  unfolding involved_object_string post_params
  get_notification_params no_cross_namespace_refs event alert =
      if no_cross_namespace_refs && not (event.involved_object.namespace == alert.meta.namespace)
      then pure (err (denied_message event alert))
      else elim (env.get_provider
          (record { namespace = alert.meta.namespace; name = alert.spec.provider_ref })) [
            | err e ↦ pure (err ("failed to read provider: " <> e))
            | ok provider ↦
                if provider.spec.suspend
                then pure (ok none)
                else elim (create_notifier env provider) [
                  | err e ↦ pure (
                      err (
                        "failed to initialize notifier for provider '"
                        <> (provider.meta.name <> ("': " <> e))))
                  | ok made ↦
                      and_then (post_params event alert provider made)
                        (λ posting. pure (ok (some posting)))
                ]
          ]

  -- The goroutines that `dispatchNotification` starts, at most one, or its error.
  unfoldable pub dispatch_notification : Bool → Event → Alert → Writer (Result (List (Posting N)))
  unfolding get_notification_params
  dispatch_notification no_cross_namespace_refs event alert =
      and_then (get_notification_params no_cross_namespace_refs event alert) (λ r. pure (started r))

  -- The body of the loop of `handleEvent`: an error is recorded, and the loop goes on.
  unfoldable pub dispatch_or_record : Bool → Event → Alert → Writer (List (Posting N))
  unfolding dispatch_notification
  dispatch_or_record no_cross_namespace_refs event alert =
      and_then (dispatch_notification no_cross_namespace_refs event alert) λ r. elim r [
        | ok postings ↦ pure postings
        | err e ↦
            and_then
              (eventf (alert_subject alert) warning "NotificationDispatchFailed" (
                "failed to dispatch notification for "
                <> (involved_object_string event.involved_object <> (": " <> e))))
              (λ _. pure [])
      ]

  unfoldable pub dispatch_all : Bool → Event → List Alert → Writer (List (Posting N))
  unfolding dispatch_or_record
  dispatch_all no_cross_namespace_refs event [] = pure []
  dispatch_all no_cross_namespace_refs event (alert ∷ alerts) =
      let rest = dispatch_all no_cross_namespace_refs event alerts in
      and_then (dispatch_or_record no_cross_namespace_refs event alert)
        λ postings. and_then rest λ more. pure (postings ++ more)

  -- An error of the list is logged; there are no alerts then.
  unfoldable pub get_all_alerts_for_event : Event → Writer (List Alert)
  unfolding filter_alerts_for_event
  get_all_alerts_for_event event = elim env.list_alerts [
    | err _ ↦ pure []
    | ok alerts ↦ filter_alerts_for_event api env.lookups alerts event
  ]

  -- The handler's status and the goroutines that it starts. The loop over no alerts is the early
  -- return.
  unfoldable pub handle_event : Bool → Event → Writer (ℕ × List (Posting N))
  unfolding dispatch_all get_all_alerts_for_event
  handle_event no_cross_namespace_refs event =
      let event' = exclude_internal_metadata api event in
      and_then (get_all_alerts_for_event event') λ alerts.
        if nat_eq (length alerts) 0
        then pure (202, [])
        else and_then (dispatch_all no_cross_namespace_refs event' alerts)
            λ postings. pure (202, postings)

module _ {N Pool : Type 0} (env : Services N Pool) where
  -- The text that is recorded of an error of `Post`: masked, or the error of the masking.
  abbrev pub masked : String → String → String
  masked text token = elim (env.mask_token text token) [ ok masked_text ↦ masked_text | err e ↦ e ]

  -- What is recorded of the result of `Post`.
  abbrev pub recorded_of : Posting N → Result (Unit {0}) → Writer (Unit {0})
  unfolding involved_object_string
  recorded_of p (ok _) = pure tt
  recorded_of p (err text) = eventf (alert_subject p.alert) warning "NotificationDispatchFailed" (
      "failed to send notification for "
      <> (involved_object_string p.involved_object <> (": " <> masked text p.token)))

module _ {S N Pool : Type 0} (env : Services N Pool)
    (post : Notifier N → Event → Action S (Unit {0})) where
  -- The goroutine of `dispatchNotification`, over the notifier's method `Post`, from a state of the
  -- services that it calls.
  unfoldable pub post_notification : Posting N → S → S × Writer (Unit {0})
  unfolding involved_object_string
  post_notification p s =
      let (after, result) = post p.sender p.notification s in (after, recorded_of env p result)
