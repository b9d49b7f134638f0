-- ===== src/Tests/Registered.antt =====
-- A test of the receivers' reconciler and the webhook handler together, on a cluster that is one
-- receiver.
use notification_controller.Prelude.{◌<>◌, [], ok, err}
use notification_controller.Api.{Receiver}
use notification_controller.Controller.Receiver.{ReceiverStore, reconcile_receiver}
use notification_controller.Server.Receiver.Validate.{HttpRequest}
use notification_controller.Server.Receiver.Reconcile.{Cluster}
use notification_controller.Tests.Controllers.{
  conditions, receiver, hook_secret, objects, path, hook_name,
}

-- The state is the receiver.
abbrev store : ReceiverStore Receiver
store = record {
  get = λ s name. ok s;
  get_secret = λ s name. ok hook_secret;
  patch = λ s old new. (new, ok tt);
  show_name = λ name. name.namespace <> ("/" <> name.name);
  show_duration = λ duration. "10m";
  sha256_hex = λ text. text;
}

-- The cluster has no other objects.
abbrev cluster : Cluster Receiver
cluster = record {
  list = λ s gvk namespace labels. ok [];
  get = λ s gvk key. err "not found";
  patch = λ s old new. (s, ok tt);
  now = λ s. "now";
  reconcile_request_annotation = "reconcile.fluxcd.io/requestedAt";
  show_name = λ name. name.namespace <> ("/" <> name.name);
  quote = λ text. text;
  quote_labels = λ labels. "";
}

abbrev request : HttpRequest
request = record { request_uri = path; header = λ name. ""; body = ok "{}" }

abbrev after : Receiver
after = (reconcile_receiver objects conditions store receiver hook_name).state
