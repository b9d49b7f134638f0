-- ===== src/Notifier/Stream.antt =====
-- The notifiers that publish an event to a stream: internal/notifier/nats.go, google_pubsub.go and
-- azure_eventhub.go. The clients of these services are parameters; `Hub` is the type of a hub.
use notification_controller.Prelude.{
  String, ◌<>◌, ◌==◌, not, ◌&&◌, Option, none, some, if◌then◌else◌, Result, ok, err, ◌>>◌, wrap,
  nat_eq, len,
}
use notification_controller.Prelude.Dict.{Dict}
use notification_controller.Prelude.Actions.{Action, ◌>>>◌, lift, wrap_action}
use notification_controller.Api.Event.{Event}
use notification_controller.Notifier.Payload.{event_payload}
use notification_controller.Notifier.Tools.{Tools}
use notification_controller.Notifier.Status.{fail_if}
use notification_controller.Notifier.Chat.{unless_commit_status}

pub record Nats : Type 0 where
  pub subject : String
  pub server : String
  pub username : String
  pub password : String

-- Nil attributes are none.
pub record GooglePubSub : Type 0 where
  pub topic_id : String
  pub attrs : Dict String
  pub topic_name : String
  pub project_id : String
  pub json_creds : String

pub record Streams (S Hub : Type 0) : Type 0 where
  -- nats.Connect with a user if there is one; publish, flush and the last error of the connection
  pub nats_connect : String → Option (String × String) → Action S (Unit {0})
  pub nats_publish : String → String → Action S (Unit {0})
  pub nats_close : S → S
  -- pubsub.NewClient with credentials if there are any; the message to a topic; the client's Close
  pub pubsub_client : String → Option String → Action S (Unit {0})
  pub pubsub_publish : String → String → Dict String → Action S String
  pub pubsub_close : S → S × Option String
  -- kerrors.NewAggregate of two errors
  pub aggregate : String → String → String
  -- eventhub.NewHub with a JWT provider, NewHubFromConnectionString, and the hub's Send and Close
  pub new_hub : String → String → String → Result Hub
  pub hub_from_connection_string : String → Result Hub
  pub hub_send : Hub → String → Action S (Unit {0})
  pub hub_close : Hub → Action S (Unit {0})

module _ {S Hub Pool : Type 0} (tools : Tools S Pool) (streams : Streams S Hub) where
  unfoldable pub new_nats : String → String → String → String → Result Nats
  new_nats server subject username password = do
    fail_if (server == "") "NATS server (address) cannot be empty"
    fail_if (subject == "") "NATS subject (channel) cannot be empty"
    ok (record { subject = subject; server = server; username = username; password = password })

  -- A deferred call at the end of a call that may fail.
  abbrev closed : S × Result (Unit {0}) → S × Result (Unit {0})
  closed (s, r) = (streams.nats_close s, r)

  -- The method `publish` of `natsClient`.
  unfoldable pub nats_client_publish : Nats → String → Action S (Unit {0})
  nats_client_publish n payload =
      wrap_action "error connecting to server: " (
        streams.nats_connect n.server (
          if not (n.username == "") && not (n.password == "")
          then some (n.username, n.password)
          else none))
      >>> λ _ s. closed (
          wrap_action "error publishing message to server: "
            (streams.nats_publish n.subject payload) s)

  unfoldable pub post_nats : Nats → Event → Action S (Unit {0})
  unfolding nats_client_publish
  post_nats n event = unless_commit_status tools event (
      lift (wrap "error json-marshaling event: " (tools.http.marshal (event_payload event)))
      >>> λ payload.
          wrap_action ("error publishing event to subject " <> (n.subject <> ": "))
            (nats_client_publish n payload))

  unfoldable pub new_google_pub_sub : String → String → String → Dict String → Result GooglePubSub
  new_google_pub_sub project_id topic_id json_creds attrs = do
    fail_if (project_id == "") "GCP project ID cannot be empty"
    fail_if (topic_id == "") "GCP Pub/Sub topic ID cannot be empty"
    ok (record {
      topic_id = topic_id;
      attrs = attrs;
      topic_name = "projects/" <> (project_id <> ("/topics/" <> topic_id));
      project_id = project_id;
      json_creds = json_creds;
    })

  -- The deferred function, on the result and the error of Close.
  abbrev with_close : Result String → Option String → Result String
  with_close r none = r
  with_close (err e) (some close_err) = err (streams.aggregate e close_err)
  with_close (ok _) (some close_err) = err close_err

  abbrev pubsub_closed : S × Result String → S × Result String
  pubsub_closed (s, r) = let (t, close_err) = streams.pubsub_close s in (t, with_close r close_err)

  -- The method `publish` of `googlePubSubClient`.
  unfoldable pub pub_sub_client_publish : GooglePubSub → String → Action S String
  pub_sub_client_publish g payload =
      streams.pubsub_client g.project_id
        (if nat_eq (len g.json_creds) 0 then none else some g.json_creds)
      >>> λ _ s. pubsub_closed (streams.pubsub_publish g.topic_id payload g.attrs s)

  unfoldable pub post_google_pub_sub : GooglePubSub → Event → Action S (Unit {0})
  unfolding pub_sub_client_publish
  post_google_pub_sub g event = unless_commit_status tools event (
      lift (wrap "error json-marshaling event: " (tools.http.marshal (event_payload event)))
      >>> λ payload.
          wrap_action ("error publishing event to topic " <> (g.topic_name <> ": "))
            (pub_sub_client_publish g payload)
          >>> λ _. lift (ok tt))

  -- `AzureEventHub`, its hub.
  unfoldable pub new_azure_event_hub : String → String → String → Result Hub
  new_azure_event_hub endpoint_url token event_hub_namespace =
      if token == ""
      then wrap "failed to create a eventhub using SAS "
          (streams.hub_from_connection_string endpoint_url)
      else wrap "failed to create a eventhub using JWT "
          (streams.new_hub event_hub_namespace endpoint_url token)

  unfoldable pub post_azure_event_hub : Hub → Event → Action S (Unit {0})
  post_azure_event_hub hub event = unless_commit_status tools event (
      lift (wrap "unable to marshall event: " (tools.http.marshal (event_payload event)))
      >>> λ event_bytes.
          wrap_action "failed to send msg: " (streams.hub_send hub event_bytes) >>> λ _.
          wrap_action "unable to close connection: " (streams.hub_close hub))
