-- ===== src/Notifier/Telemetry.antt =====
-- The notifiers of Sentry and Datadog, internal/notifier/sentry.go and datadog.go. The clients of
-- these services are parameters, of types `Client` and `EventsApi`.
use notification_controller.Prelude.{
  ℕ, String, ◌<>◌, ◌==◌, Bool, true, false, List, [], ◌∷◌, ◌++◌, map, Option, none, some,
  if◌then◌else◌, Result, ok, ◌>>=◌, ◌>>◌, wrap, map_chars,
}
use notification_controller.Prelude.Dict.{Dict, insert}
use notification_controller.Prelude.Actions.{Action, wrap_action}
use notification_controller.Api.Event.{Event}
use notification_controller.Notifier.Tools.{Tools}
use notification_controller.Notifier.Status.{fail_if}
use notification_controller.Notifier.Chat.{entries, on_error}

-- sentry.Event, as far as it is set, and the tags of the one span of a trace.
pub record SentryEvent : Type 0 where
  pub type : String
  pub level : String
  pub server_name : String
  pub transaction : String
  pub message : String
  pub tags : Dict String
  pub extra : Dict String
  pub timestamp : ℕ
  pub start_time : Option ℕ
  pub has_span : Bool

-- datadogV1.EventCreateRequest
pub record EventCreateRequest : Type 0 where
  pub title : String
  pub text : String
  pub tags : List String
  pub source_type_name : String
  pub date_happened : ℕ
  pub alert_type : String

pub record DataDog (EventsApi : Type 0) : Type 0 where
  pub events_api : EventsApi
  pub api_key : String

pub record Telemetry (S Client EventsApi Pool : Type 0) : Type 0 where
  -- sentry.NewClient with a pool, a DSN and an environment, and CaptureEvent; nil is `none`
  pub new_sentry_client : Option Pool → String → String → Result Client
  pub capture_event : Client → Option SentryEvent → S → S
  -- The events API of a host and a scheme, a proxy's address and a pool, and CreateEvent with a key
  pub new_events_api : String → String → Option String → Option Pool → EventsApi
  pub create_event : EventsApi → String → EventCreateRequest → Action S (Unit {0})

module _ {S Client EventsApi Pool : Type 0} (tools : Tools S Pool)
    (telemetry : Telemetry S Client EventsApi Pool) where
  -- `Sentry`, its client.
  unfoldable pub new_sentry : Option Pool → String → String → Result Client
  new_sentry cert_pool dsn environment = telemetry.new_sentry_client cert_pool dsn environment

  unfoldable pub event_summary : Event → String
  event_summary event =
      event.involved_object.kind
      <> (": " <> (event.involved_object.namespace <> ("/" <> event.involved_object.name)))

  -- The loop that sets a tag for each entry.
  unfoldable pub set_tags : Dict String → Dict String → Dict String
  unfolding insert
  set_tags [] tags = tags
  set_tags ((k, v) ∷ metadata) tags = set_tags metadata (insert k v tags)

  unfoldable pub event_to_span : Event → SentryEvent
  unfolding event_summary set_tags
  event_to_span event = record {
    type = "transaction";
    level = "";
    server_name = "";
    transaction = event_summary event;
    message = event.message;
    tags = set_tags event.metadata (
        ("flux_involved_object_kind", event.involved_object.kind)
        ∷ ("flux_involved_object_namespace", event.involved_object.namespace)
        ∷ ("flux_involved_object_name", event.involved_object.name)
        ∷ ("flux_reporting_controller", event.reporting_controller)
        ∷ ("flux_reporting_instance", event.reporting_instance)
        ∷ ("flux_reason", event.reason)
        ∷ []);
    extra = [];
    timestamp = event.timestamp;
    start_time = some event.timestamp;
    has_span = true;
  }

  unfoldable pub to_sentry_event : Event → SentryEvent
  unfolding event_summary set_tags
  to_sentry_event event = record {
    type = "";
    level = event.severity;
    server_name = event.reporting_controller;
    transaction = event_summary event;
    message = event.message;
    tags = [];
    extra = set_tags event.metadata [];
    timestamp = event.timestamp;
    start_time = none;
    has_span = false;
  }

  -- The switch on the severity; no case leaves the event nil.
  unfoldable pub sentry_event : Event → Option SentryEvent
  unfolding event_to_span to_sentry_event
  sentry_event event =
      if event.severity == tools.api.severity_info
      then some (event_to_span event)
      else (if event.severity == tools.api.severity_error
          then some (to_sentry_event event)
          else none)

  unfoldable pub post_sentry : Client → Event → Action S (Unit {0})
  unfolding sentry_event
  post_sentry client event = λ s. (telemetry.capture_event client (sentry_event event) s, ok tt)

  -- The proxy's address, if it can be parsed.
  abbrev parsed_proxy : String → Result (Option String)
  parsed_proxy proxy_url =
      if proxy_url == ""
      then ok none
      else (wrap ("failed to parse proxy URL " <> (tools.http.quote proxy_url <> ": "))
            (tools.http.url_parse proxy_url)
          >>= λ _. ok (some proxy_url))

  unfoldable pub new_data_dog : String → String → Option Pool → String → Result (DataDog EventsApi)
  new_data_dog address proxy_url cert_pool token = do
    fail_if (token == "") "token cannot be empty"
    base_url ←
        wrap ("failed to parse address " <> (tools.http.quote address <> ": "))
          (tools.http.url_parse address)
    proxy ← parsed_proxy proxy_url
    ok (record {
      events_api = telemetry.new_events_api base_url.host base_url.scheme proxy cert_pool;
      api_key = token;
    })

  unfoldable pub to_data_dog_tags : Event → List String
  unfolding map_chars
  to_data_dog_tags event = map (map_chars tools.unicode.to_lower) (
      (("flux_reporting_controller:" <> event.reporting_controller)
        ∷ ("flux_reason:" <> event.reason)
        ∷ ("kube_kind:" <> event.involved_object.kind)
        ∷ ("kube_name:" <> event.involved_object.name)
        ∷ ("kube_namespace:" <> event.involved_object.namespace)
        ∷ [])
      ++ entries (λ k v. k <> (":" <> v)) event.metadata)

  -- The two alert types, datadogV1.EVENTALERTTYPE_ERROR and _INFO.
  unfoldable pub to_data_dog_alert_type : Event → String
  to_data_dog_alert_type event = on_error tools event "error" "info"

  unfoldable pub to_data_dog_event : Event → EventCreateRequest
  unfolding to_data_dog_tags to_data_dog_alert_type
  to_data_dog_event event = record {
    title =
        "Events from the "
        <> (event.involved_object.kind
            <> (" " <> (event.involved_object.name <> ("/" <> event.involved_object.namespace))));
    text = event.message;
    tags = to_data_dog_tags event;
    source_type_name = "fluxcd";
    date_happened = event.timestamp;
    alert_type = to_data_dog_alert_type event;
  }

  unfoldable pub post_data_dog : DataDog EventsApi → Event → Action S (Unit {0})
  unfolding to_data_dog_event
  post_data_dog d event =
      wrap_action "failed to post event to DataDog: "
        (telemetry.create_event d.events_api d.api_key (to_data_dog_event event))
