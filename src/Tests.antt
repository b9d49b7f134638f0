-- ===== src/Tests.antt =====
-- The data of the tests: concrete values for the parameters of the model, an alert, a provider and
-- an event of a GitRepository, and a receiver with its cluster.
mod Notifications
mod Webhooks
mod Controllers
mod Registered
mod Posts
mod Senders
mod Statuses
use notification_controller.Prelude.{
  ℕ, suc, String, ◌<>◌, ◌==◌, Bool, true, false, not, List, [], ◌∷◌, Option, none, some,
  if◌then◌else◌, Result, ok, err, is_some,
}
use notification_controller.Prelude.Dict.{Dict, lookup}
use notification_controller.Api.{
  ObjectMeta, NamespacedName, CrossNamespaceObjectReference, Alert, AlertSpec, Provider,
  ProviderSpec, Secret, Receiver, ReceiverSpec, ReceiverStatus,
}
use notification_controller.Api.Event.{ObjectReference, Event, EventApi, Unicode}
use notification_controller.Notifier.Factory.{Constructors, Notifier}
use notification_controller.Notifier.Client.{Http}
use notification_controller.Notifier.Payload.{Payload, event_payload}
use notification_controller.Notifier.Tools.{Tools}
use notification_controller.Server.Matching.{Lookups}
use notification_controller.Server.Dispatch.{Services}

abbrev pub source_group : String
source_group = "source.toolkit.fluxcd.io"

abbrev is_text : Option String → String → Bool
is_text none value = false
is_text (some text) value = text == value

abbrev pub api : EventApi
api = record {
  group = "event.toolkit.fluxcd.io";
  revision_key = "revision";
  token_key = "token";
  checksum_key = "checksum";
  digest_key = "digest";
  severity_info = "info";
  severity_error = "error";
  severity_trace = "trace";
  commit_status_key = "commit_status";
  commit_status_update_value = "update";
  progressing_reason = "Progressing";
  has_metadata = λ e key value. is_text (lookup key e.metadata) value;
  has_reason = λ e reason. e.reason == reason;
  group_of = λ v. if v == "source.toolkit.fluxcd.io/v1" then "source.toolkit.fluxcd.io" else "";
}

-- Texts that are compared as they are.
abbrev pub unicode : Unicode
unicode = record {
  fold = λ c. c;
  to_lower = λ c. c;
  is_lower = λ c. true;
  is_upper = λ c. false;
  is_digit = λ c. false;
}

abbrev pub meta_of : String → String → ObjectMeta
meta_of namespace name = record {
  name = name;
  namespace = namespace;
  uid = "uid";
  generation = 2;
  deleting = false;
  finalizers = [];
  annotations = [];
}

abbrev pub repository : ObjectReference
repository = record {
  api_version = "source.toolkit.fluxcd.io/v1";
  kind = "GitRepository";
  namespace = "apps";
  name = "web";
  uid = "uid-of-web";
}

abbrev pub event_of : String → Dict String → Event
event_of message metadata = record {
  involved_object = repository;
  severity = "info";
  timestamp = 1700000000;
  message = message;
  reason = "Succeeded";
  metadata = metadata;
  reporting_controller = "source-controller";
  reporting_instance = "source-controller-0";
}

abbrev pub event : Event
event =
    event_of "stored"
      (("source.toolkit.fluxcd.io/revision", "main") ∷ ("event.toolkit.fluxcd.io/team", "web") ∷ [])

abbrev pub reference_of : String → CrossNamespaceObjectReference
reference_of name = record {
  api_version = "";
  kind = "GitRepository";
  name = name;
  namespace = "";
  match_labels = none;
}

abbrev pub alert_in : String → Alert
alert_in namespace = record {
  meta = meta_of namespace "on-call";
  spec = record {
    provider_ref = "chat";
    event_severity = "info";
    event_sources = reference_of "*" ∷ [];
    inclusion_list = [];
    event_metadata = ("team", "platform") ∷ [];
    exclusion_list = "noise" ∷ [];
    summary = "production";
    suspend = false;
  };
}

abbrev pub alert : Alert
alert = alert_in "apps"

abbrev pub provider : Provider
provider = record {
  meta = meta_of "apps" "chat";
  spec = record {
    type = "slack";
    channel = "general";
    username = "flux";
    address = "https://example.com";
    timeout = none;
    proxy = "";
    secret_ref = some "chat-token";
    cert_secret_ref = none;
    suspend = false;
  };
}

abbrev pub secret : Secret
secret = record { name = "chat-token"; type = "Opaque"; entries = ("token", "abc") ∷ [] }

-- An expression matches the text that it is.
abbrev pub lookups : Lookups
lookups = record {
  compile = λ exp. ok (λ msg. msg == exp);
  get_labels = λ o. ok [];
  selector = λ labels. ok (λ of_object. true);
}

-- A notifier is the name of its constructor.
abbrev pub constructors : Constructors String String
constructors = record {
  new_forwarder = λ url proxy headers pool key. ok "forwarder";
  new_slack = λ url proxy token pool username channel. ok "slack";
  new_discord = λ url proxy username channel. ok "discord";
  new_rocket = λ url proxy pool username channel. ok "rocket";
  new_ms_teams = λ url proxy pool. ok "msteams";
  new_google_chat = λ url proxy. ok "googlechat";
  new_google_pub_sub = λ url topic token headers. ok "googlepubsub";
  new_webex = λ url proxy pool channel token. ok "webex";
  new_sentry = λ pool url channel. ok "sentry";
  new_azure_event_hub = λ url token channel. ok "azureeventhub";
  new_telegram = λ channel token. ok "telegram";
  new_lark = λ url. ok "lark";
  new_matrix = λ url token channel pool. ok "matrix";
  new_opsgenie = λ url proxy pool token. ok "opsgenie";
  new_alertmanager = λ url proxy pool. ok "alertmanager";
  new_grafana = λ url proxy token pool username password. ok "grafana";
  new_pager_duty = λ url proxy pool channel. ok "pagerduty";
  new_data_dog = λ url proxy pool token. ok "datadog";
  new_nats = λ url channel username password. ok "nats";
  new_git_hub = λ uid url token pool. ok ("github " <> token);
  new_git_hub_dispatch = λ url token pool. ok "githubdispatch";
  new_git_lab = λ uid url token pool. ok "gitlab";
  new_gitea = λ uid url token pool. ok "gitea";
  new_bitbucket_server = λ uid url token pool username password. ok "bitbucketserver";
  new_bitbucket = λ uid url token pool. ok "bitbucket";
  new_azure_dev_ops = λ uid url token pool. ok "azuredevops";
}

abbrev pub services : Services String String
services = record {
  lookups = lookups;
  list_alerts = ok (alert ∷ []);
  get_provider = λ name. ok provider;
  get_secret = λ name. ok secret;
  url_parse = λ url. ok tt;
  unmarshal = λ text. ok [];
  append_certs = λ file. some file;
  constructors = constructors;
  mask_token = λ text token. ok "***";
}

abbrev pub body_of : Payload → String
body_of (event_payload e) = e.message
body_of _ = "{}"

-- A client of servers that take every request.
abbrev pub http_of : {S : Type 0} → (S → S) → Http S String
http_of received = record {
  url_parse = λ url. ok (record { scheme = "https"; host = url; path = ""; others = "" });
  parse_request_uri = λ url. ok (record { scheme = "https"; host = url; path = ""; others = "" });
  url_string = λ url. url.host <> url.path;
  path_join = λ a b. a <> ("/" <> b);
  marshal = λ payload. ok (body_of payload);
  new_request = λ address. ok tt;
  send = λ request s. (received s, ok (record { status_code = 202; body = ok "" }));
  canonical = λ name. name;
  hmac_sha256_hex = λ key payload. key <> payload;
  sha1_hex = λ text. text;
  base64 = λ text. text;
  show_number = λ n. "";
  quote = λ text. text;
}

-- The state of the servers is the number of requests that they have received.
abbrev pub counted : Http ℕ String
counted = http_of suc

abbrev pub tools_of : {S : Type 0} → (S → S) → Tools S String
tools_of received = record {
  api = api;
  unicode = unicode;
  http = http_of received;
  git = record {
    parse = λ text. ok (record { scheme = "https"; host = "github.com"; path = "/apps/web.git" });
    extract_hash = λ rev. some rev;
  };
  title = λ text. text;
  format_rfc3339 = λ n. "";
}
