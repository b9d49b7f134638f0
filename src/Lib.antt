-- ===== src/Lib.antt =====
-- The notification controller of Flux: it receives events of the other controllers and sends
-- notifications about them, and it receives webhooks and requests reconciliations for them.
--
-- The parts and the files that model them, by the paths of the repository:
-- internal/server/event_handlers.go: Server/Matching for the filters (`filterAlertsForEvent`,
--   `eventMatchesAlertSource`, `messageIsIncluded`, `messageIsExcluded`), Server/Dispatch for
--   `handleEvent`, `dispatchNotification`, `getNotificationParams` and `createNotifier`, and
--   Server/Metadata for `combineEventMetadata` and `excludeInternalMetadata`.
-- internal/server/event_server.go: Server/Middleware for the chain of handlers,
--   Server/EventKey for `eventKeyFunc`, and Server/Metadata for `cleanupMetadata`.
-- internal/server/receiver_handlers.go: Server/Receiver, with Validate for `validate` and `token`,
--   Reconcile for `requestReconciliation`, `annotate` and `getGroupVersion`, and Handler for
--   `handlePayload`.
-- internal/notifier: Notifier/Factory for factory.go, Notifier/Client for `postMessage` of client.go
--   with the bodies in Notifier/Payload, Notifier/Forwarder for forwarder.go, Notifier/Util for the
--   helpers of util.go. The other notifiers: Notifier/Chat for the chat services, Notifier/Incident
--   for alertmanager.go, opsgenie.go, pagerduty.go and grafana.go, Notifier/Stream for nats.go,
--   google_pubsub.go and azure_eventhub.go, Notifier/Telemetry for sentry.go and datadog.go, and
--   Notifier/Status with Github, Gitlab, Gitea, Bitbucket, BitbucketServer and AzureDevops for the
--   commit statuses. Notifier/Sender puts the types together, with the constructors of the factory.
-- internal/controller: Controller/Receiver for receiver_controller.go and Controller/Migration for
--   alert_controller.go, provider_controller.go and finalizer_predicate.go.
-- api/v1 and api/v1beta3: Api, with the event of package fluxcd/pkg in Api/Event.
--
-- How they interact: the chain of handlers cleans an event's metadata and hands it to `handle_event`,
-- which filters the alerts, makes each one's notifier by the factory and gives postings, each of
-- which `post_notification` carries out, by the notifiers of Notifier/Sender. The receiver's
-- reconciler puts the webhook path into a receiver's status, by which `handle_payload` finds it and
-- patches its resources (Server/Receiver/Handler/Registered).
--
-- How it is modelled: a Go function that returns an error is a function into `Result`; one that
-- records Kubernetes events is a `Writer`; one that changes the cluster takes a state and returns the
-- next one. The state is a parameter, with the calls of the Kubernetes API as fields of a record, and
-- so are regular expressions, label selectors, decoders, hashes, signatures, the rate limiter and the
-- conditions of an object. A Go map is a list of entries with each key once. Texts are sequences of
-- code points. What is only logged is left out. A call of another service is an `Action` of
-- Prelude/Actions, which takes the state of the services and returns the next one. Every loop goes
-- over a list, but for the loop of `escapeString`, which has one step of fuel for each character of its
-- string and one for the end: a turn that is not the last leaves fewer characters behind the start.
--
-- Not modelled: main.go, internal/features and the starting of servers, which call other packages;
-- the retries, timeouts and transports of HTTP clients; generated code and the older versions of
-- the API.
pub mod Api
pub mod Controller
pub mod Notifier
pub mod Prelude
pub mod Server
pub mod Tests
