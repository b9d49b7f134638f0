-- ===== src/Notifier/Incident.antt =====
-- The notifiers of alerts, incidents and annotations over HTTP: internal/notifier/alertmanager.go,
-- opsgenie.go, pagerduty.go and grafana.go.
pub mod Laws
use notification_controller.Prelude.{
  String, code, ◌<>◌, ◌==◌, not, ◌&&◌, ◌||◌, [], ◌∷◌, Option, none, some, if◌then◌else◌, Result, ok,
  ◌>>=◌, ◌>>◌, nat_eq, map_chars,
}
use notification_controller.Prelude.Dict.{Dict, lookup, insert, delete}
use notification_controller.Prelude.Actions.{Action, ◌>>>◌, lift, wrap_action}
use notification_controller.Api.Event.{Event, is_commit_status}
use notification_controller.Notifier.Client.{PostRequest, post_message, set_header}
use notification_controller.Notifier.Payload.{
  AlertManagerAlert, GraphitePayload, V2Event, V2Payload, ChangeEvent, alertmanager_payload,
  opsgenie_payload, graphite_payload, pager_duty_payload, change_event_payload,
}
use notification_controller.Notifier.Tools.{Tools}
use notification_controller.Notifier.Util.{format_name_and_description}
use notification_controller.Notifier.Status.{fail_if}
use notification_controller.Notifier.Chat.{
  quoted, replaced, object_name, entries, unless_commit_status, authorize,
}

pub record Alertmanager (Pool : Type 0) : Type 0 where
  pub url : String
  pub proxy_url : String
  pub cert_pool : Option Pool

pub record Opsgenie (Pool : Type 0) : Type 0 where
  pub url : String
  pub proxy_url : String
  pub cert_pool : Option Pool
  pub api_key : String

pub record PagerDuty (Pool : Type 0) : Type 0 where
  pub endpoint : String
  pub routing_key : String
  pub proxy_url : String
  pub cert_pool : Option Pool

pub record Grafana (Pool : Type 0) : Type 0 where
  pub url : String
  pub token : String
  pub proxy_url : String
  pub cert_pool : Option Pool
  pub username : String
  pub password : String

-- The summary of the metadata, if there is one, among the annotations.
abbrev pub with_summary : Option String → Dict String → Dict String
with_summary none annotations = annotations
with_summary (some summary) annotations = insert "summary" summary annotations

-- strings.ReplaceAll(s, ":", "|")
abbrev pub bar_for_colon : String → String
bar_for_colon s = map_chars (λ c. if nat_eq (code c) 58 then "|" else c) s

module _ {S Pool : Type 0} (tools : Tools S Pool) where
  unfoldable pub new_alertmanager : String → String → Option Pool → Result (Alertmanager Pool)
  new_alertmanager hook_url proxy_url cert_pool = do
    quoted ("invalid Alertmanager URL " <> hook_url) (tools.http.parse_request_uri hook_url)
    ok (record { url = hook_url; proxy_url = proxy_url; cert_pool = cert_pool })

  -- The labels, on the metadata without the summary.
  unfoldable pub alert_labels : Event → Dict String
  unfolding insert delete
  alert_labels event =
      let labels = delete "summary" event.metadata in
      let labels =
        insert "alertname" ("Flux" <> (event.involved_object.kind <> tools.title event.reason))
          labels in
      let labels = insert "severity" event.severity labels in
      let labels = insert "reason" event.reason labels in
      let labels = insert "kind" event.involved_object.kind labels in
      let labels = insert "name" event.involved_object.name labels in
      let labels = insert "namespace" event.involved_object.namespace labels in
      insert "reportingcontroller" event.reporting_controller labels

  unfoldable pub alert_of : Event → AlertManagerAlert
  unfolding alert_labels lookup insert
  alert_of event = record {
    status = "firing";
    labels = alert_labels event;
    annotations = with_summary (lookup "summary" event.metadata) (("message", event.message) ∷ []);
    starts_at = event.timestamp;
    ends_at = none;
  }

  unfoldable pub post_alertmanager : Alertmanager Pool → Event → Action S (Unit {0})
  unfolding alert_of post_message
  post_alertmanager s event = unless_commit_status tools event (
      wrap_action "postMessage failed: " (
        post_message tools.http s.url s.proxy_url s.cert_pool
          (alertmanager_payload (alert_of event ∷ [])) []))

  unfoldable pub new_opsgenie : String → String → Option Pool → String → Result (Opsgenie Pool)
  new_opsgenie hook_url proxy_url cert_pool token = do
    quoted ("invalid Opsgenie hook URL " <> hook_url) (tools.http.parse_request_uri hook_url)
    fail_if (token == "") "empty Opsgenie apikey/token"
    ok (record { url = hook_url; proxy_url = proxy_url; cert_pool = cert_pool; api_key = token })

  -- `req.Header.Set("Authorization", "GenieKey "+s.ApiKey)`
  abbrev genie_key : String → PostRequest Pool → PostRequest Pool
  genie_key api_key req = record req {
    headers = set_header tools.http "Authorization" ("GenieKey " <> api_key) req.headers;
  }

  unfoldable pub post_opsgenie : Opsgenie Pool → Event → Action S (Unit {0})
  unfolding insert post_message
  post_opsgenie s event = unless_commit_status tools event (
      wrap_action "postMessage failed: " (
        post_message tools.http s.url s.proxy_url s.cert_pool
          (opsgenie_payload (record {
            message = event.involved_object.kind <> ("/" <> event.involved_object.name);
            description = event.message;
            details = insert "severity" event.severity event.metadata;
          }))
          (genie_key s.api_key ∷ [])))

  unfoldable pub new_pager_duty : String → String → Option Pool → String → Result (PagerDuty Pool)
  new_pager_duty endpoint proxy_url cert_pool routing_key = do
    url ←
        quoted ("invalid PagerDuty endpoint URL " <> tools.http.quote endpoint)
          (tools.http.parse_request_uri endpoint)
    ok (record {
      endpoint = url.scheme <> ("://" <> url.host);
      routing_key = routing_key;
      proxy_url = proxy_url;
      cert_pool = cert_pool;
    })

  unfoldable pub to_pager_duty_severity : String → String
  to_pager_duty_severity severity =
      if severity == tools.api.severity_error
      then "error"
      else (if severity == tools.api.severity_info
          then severity
          else (if severity == tools.api.severity_trace then "info" else "error"))

  -- `desc + ": " + name`
  abbrev pager_duty_summary : Event → String
  pager_duty_summary event =
      (format_name_and_description tools.unicode event).1
      <> (": " <> (format_name_and_description tools.unicode event).0)

  unfoldable pub pager_duty_v2_payload : Event → V2Payload
  unfolding to_pager_duty_severity format_name_and_description
  pager_duty_v2_payload event = record {
    summary = pager_duty_summary event;
    source = "Flux " <> event.reporting_controller;
    severity = to_pager_duty_severity event.severity;
    timestamp = tools.format_rfc3339 event.timestamp;
    component = event.involved_object.name;
    group = event.involved_object.kind;
    details = record { message = event.message; metadata = event.metadata };
  }

  unfoldable pub to_pager_duty_v2_event : Event → String → V2Event
  unfolding pager_duty_v2_payload
  to_pager_duty_v2_event event routing_key =
      let e : V2Event = record {
        routing_key = routing_key;
        action = "resolve";
        dedup_key = event.involved_object.uid;
        payload = none;
      } in
      if event.severity == tools.api.severity_error
      then record e { action = "trigger"; payload = some (pager_duty_v2_payload event) }
      else e

  unfoldable pub to_pager_duty_change_event : Event → String → ChangeEvent
  unfolding format_name_and_description
  to_pager_duty_change_event event routing_key = record {
    routing_key = routing_key;
    summary = pager_duty_summary event;
    source = "Flux " <> event.reporting_controller;
    timestamp = tools.format_rfc3339 event.timestamp;
    custom_details = record { message = event.message; metadata = event.metadata };
  }

  -- The change event that follows the event of an info.
  unfoldable pub send_change_event : PagerDuty Pool → Event → Action S (Unit {0})
  unfolding to_pager_duty_change_event post_message
  send_change_event p event =
      if event.severity == tools.api.severity_info
      then wrap_action "failed sending change event: " (
          post_message tools.http (p.endpoint <> "/v2/change/enqueue") p.proxy_url p.cert_pool
            (change_event_payload (to_pager_duty_change_event event p.routing_key)) [])
      else lift (ok tt)

  unfoldable pub post_pager_duty : PagerDuty Pool → Event → Action S (Unit {0})
  unfolding to_pager_duty_v2_event send_change_event post_message
  post_pager_duty p event =
      if is_commit_status tools.api event || tools.api.has_reason event tools.api.progressing_reason
      then lift (ok tt)
      else (wrap_action "failed sending event: " (
            post_message tools.http (p.endpoint <> "/v2/enqueue") p.proxy_url p.cert_pool
              (pager_duty_payload (to_pager_duty_v2_event event p.routing_key)) [])
          >>> λ _. send_change_event p event)

  unfoldable pub new_grafana :
      String → String → String → Option Pool → String → String → Result (Grafana Pool)
  new_grafana url proxy_url token cert_pool username password = do
    replaced ("invalid Grafana URL " <> url) (tools.http.parse_request_uri url)
    ok (record {
      url = url;
      token = token;
      proxy_url = proxy_url;
      cert_pool = cert_pool;
      username = username;
      password = password;
    })

  abbrev tag : String → String → String
  tag k v = bar_for_colon k <> (": " <> bar_for_colon v)

  unfoldable pub graphite_annotation : Event → GraphitePayload
  unfolding map_chars
  graphite_annotation event = record {
    posted_at = event.timestamp;
    text = object_name tools.unicode event;
    tags = "flux" ∷ event.reporting_controller ∷ entries tag event.metadata;
  }

  -- The two conditions of the request's function.
  unfoldable pub grafana_options : Grafana Pool → PostRequest Pool → PostRequest Pool
  grafana_options g request =
      let basic =
        if not (g.username == "") && not (g.password == "") && g.token == ""
        then authorize tools ("Basic " <> tools.http.base64 (g.username <> (":" <> g.password)))
            request
        else request in
      if g.token == "" then basic else authorize tools ("Bearer " <> g.token) basic

  unfoldable pub post_grafana : Grafana Pool → Event → Action S (Unit {0})
  unfolding graphite_annotation grafana_options post_message
  post_grafana g event = unless_commit_status tools event (
      wrap_action "postMessage failed: " (
        post_message tools.http g.url g.proxy_url g.cert_pool
          (graphite_payload (graphite_annotation event)) (grafana_options g ∷ [])))
