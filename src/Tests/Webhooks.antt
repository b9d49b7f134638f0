-- ===== src/Tests/Webhooks.antt =====
-- Tests of the server's middlewares and of the webhook receiver: concrete requests, a receiver and
-- a cluster that is a list of objects.
use Prim.Native.Char.{code}
use Prim.Native.String.{[] as nil, ◌∷◌ as cons}
use notification_controller.Prelude.{
  not, arith, ap, sym, ◌∙◌, length, ne_of_test, ℕ, String, ◌<>◌, ◌==◌, ◌&&◌, ◌≡◌, ◌≢◌, ◌↔◌, ◌⊎◌,
  inl, inr, refl, Bool, true, false, List, [], ◌∷◌, Option, none, some, Result, ok, err, In, nat_eq,
  if◌then◌else◌,
}
use notification_controller.Prelude.Dict.{Dict, lookup}
use notification_controller.Api.{Receiver, Secret}
use notification_controller.Api.Event.{Event}
use notification_controller.Tests.{api, unicode, event, event_of, meta_of, reference_of, repository}
use notification_controller.Server.EventKey.{
  event_key, event_key_func, event_key_iff, attributes, revision, token, event_key_collision,
  HasPlainNames,
}
use notification_controller.Prelude.Slash.{HasNoSlash}
use notification_controller.Server.Middleware.{
  Request, responded, panicked, Handler, IsLimiter, serve, Decodes, serve_decoded,
  serve-ne-panicked,
}
use notification_controller.Server.Receiver.Validate.{
  HttpRequest, HttpResponse, Checks, validate, authenticate_gcr_request,
}
use notification_controller.Server.Receiver.Validate.Status.{with_answers, validate_same}
use notification_controller.Server.Receiver.Validate.Laws.{HasToken, Accepts, validate_iff}
use notification_controller.Server.Receiver.Reconcile.{
  ObjectMetadata, Cluster, api_version_of, gvk_of, namespace_of, get_group_version,
  request_reconciliation,
}
use notification_controller.Server.Receiver.Reconcile.Laws.{
  Annotates, Selects, request_reconciliation_iff,
}
use notification_controller.Server.Receiver.Reconcile.Version.{get_group_version-append}
use notification_controller.Server.Receiver.Handler.{handle_payload}
use notification_controller.Server.Receiver.Handler.Laws.{
  IsAdmitted, Succeeds, after_all, handle_payload_iff, handle_payload_changed,
}

-- Every request is let through.
abbrev no_limit : (Request → Option String) → Handler ℕ → Handler ℕ
no_limit key h r = elim (key r) [ none ↦ panicked | some k ↦ h r ]

no_limit-IsLimiter : IsLimiter 0 no_limit
no_limit-IsLimiter = record {
  without_key = λ key h r missing. rw (no_limit, missing) refl;
  with_key = λ key h r k there. inl (rw (no_limit, there) refl);
}

abbrev unmarshal : String → Result Event
unmarshal body = ok (event_of body event.metadata)

abbrev handle : Event → ℕ × ℕ
handle e = (202, 1)

abbrev request : Request
request = record { body = ok "stored"; closed = ok tt; event = none }

decoded : Decodes 0 api unicode (λ s. s) unmarshal handle no_limit request event
decoded = record { body = "stored"; read = refl; closed = refl; decoded = refl }

abbrev chain : Handler ℕ
chain = serve 0 api unicode (λ s. s) unmarshal handle no_limit

serve_decoded_example :
    (chain request
      ≡ responded (record { status = 202; effects = 1; discard_logged = nat_eq 202 429 }))
    ⊎ (chain request ≡ responded (record { status = 429; effects = 0; discard_logged = true }))
serve_decoded_example =
    serve_decoded 0 api unicode (λ s. s) unmarshal handle no_limit no_limit-IsLimiter request event
      decoded

serve-ne-panicked_example : chain request ≢ panicked
serve-ne-panicked_example =
    serve-ne-panicked 0 api unicode (λ s. s) unmarshal handle no_limit no_limit-IsLimiter request

abbrev has_no_slash : String → Bool
has_no_slash nil = true
has_no_slash (cons c s) = not (nat_eq (code c) 47) && has_no_slash s

has_no_slash_sound : (s : String) → has_no_slash s ≡ true → HasNoSlash s
has_no_slash_sound nil h = tt
has_no_slash_sound (cons c s) h = (ground arith, has_no_slash_sound s (ground arith))

-- The names of the repository have no slash.
repository-HasPlainNames : HasPlainNames repository
repository-HasPlainNames = record {
  name = has_no_slash_sound "web" refl;
  namespace = has_no_slash_sound "apps" refl;
  kind = has_no_slash_sound "GitRepository" refl;
}

-- The event again, with another severity.
abbrev repeated : Event
repeated = record event { severity = "error" }

event_key_iff_example : (event_key api event ≡ event_key api repeated) ↔ (
    (event.involved_object.name ≡ repeated.involved_object.name)
    × (event.involved_object.namespace ≡ repeated.involved_object.namespace)
    × (event.involved_object.kind ≡ repeated.involved_object.kind)
    × (attributes event.message (revision api event) (token api event)
        ≡ attributes repeated.message (revision api repeated) (token api repeated)))
event_key_iff_example =
    event_key_iff api event repeated repository-HasPlainNames repository-HasPlainNames

abbrev ends_like_revision : Event
ends_like_revision = event_of "stored/revision=main" []

-- Two different events have one key.
event_key_collision_example :
    event_key_func api (λ s. s) ends_like_revision ≡ event_key_func api (λ s. s) event
unfolding lookup
event_key_collision_example =
    event_key_collision api (λ s. s) ends_like_revision event "main" refl refl refl refl refl refl

-- A receiver of generic webhooks for one repository.
abbrev receiver : Receiver
receiver = record {
  meta = meta_of "apps" "hook";
  spec = record {
    type = "harbor";
    interval = none;
    events = [];
    resources = reference_of "web" ∷ [];
    secret_ref = "hook-token";
    suspend = false;
  };
  status = record {
    last_handled_reconcile_at = "";
    conditions = [];
    webhook_path = "/hook/1";
    observed_generation = 0;
  };
}

abbrev hook_secret : Secret
hook_secret = record { name = "hook-token"; type = "Opaque"; entries = ("token", "abc") ∷ [] }

abbrev pub checks : Checks
checks = record {
  get_secret = λ name. ok hook_secret;
  show_name = λ name. name.namespace <> ("/" <> name.name);
  validate_signature = λ signature body token. ok tt;
  validate_payload = λ r token. ok tt;
  web_hook_type = λ r. r.header "X-Github-Event";
  cdevent_from_json = λ body. ok body;
  validate_cdevent = λ event. ok tt;
  decode_quay = λ body. ok tt;
  decode_docker_hub = λ body. ok tt;
  decode_gcr = λ body. body;
  base64_decode = λ text. text;
  unmarshal_gcr_body = λ body. ok tt;
  unmarshal_nexus = λ body. ok tt;
  decode_acr = λ body. ok tt;
  decode_auth = λ body. ok tt;
  http_get = λ url. ok (record { status_code = 400; body = ok "{}" });
  hmac_sha1_hex = λ key payload. key <> payload;
  unicode = unicode;
}

abbrev hook_request : HttpRequest
hook_request = record {
  request_uri = "/hook/1";
  header = λ name. if name == "Authorization" then "abc" else "";
  body = ok "{}";
}

validate_iff_example :
    (validate checks receiver hook_request ≡ ok tt)
    ↔ ((t : String) × HasToken checks receiver t × Accepts checks "harbor" [] t hook_request)
validate_iff_example = validate_iff checks receiver hook_request

-- The request has the receiver's token.
validate_test : validate checks receiver hook_request ≡ ok tt
unfolding validate lookup notification_controller.Server.Receiver.Validate.validate_harbor
validate_test = refl

-- The answers to a valid and to an invalid token, with one body.
abbrev valid_answer : String → Result HttpResponse
valid_answer url = ok (record { status_code = 200; body = ok "{}" })

abbrev invalid_answer : String → Result HttpResponse
invalid_answer url = ok (record { status_code = 400; body = ok "{}" })

abbrev gcr_receiver : Receiver
gcr_receiver = record receiver { spec = record receiver.spec { type = "gcr" } }

validate_same_example :
    validate (with_answers checks valid_answer) gcr_receiver hook_request
    ≡ validate (with_answers checks invalid_answer) gcr_receiver hook_request
validate_same_example =
    validate_same (with_answers checks valid_answer) invalid_answer (λ url. refl) gcr_receiver
      hook_request

get_group_version-append_example : get_group_version "apps/v1" ≡ ("apps", "v1")
get_group_version-append_example =
    get_group_version-append "apps" "v1" (has_no_slash_sound "apps" refl)
      (has_no_slash_sound "v1" refl)

-- The cluster is a list of objects; a patched one is put in front.
abbrev object : ObjectMetadata
object = record {
  gvk = record { group = "source.toolkit.fluxcd.io"; version = "v1"; kind = "GitRepository" };
  namespace = "apps";
  name = "web";
  annotations = [];
}

abbrev first_named : String → List ObjectMetadata → Result ObjectMetadata
first_named name [] = err "not found"
first_named name (o ∷ os) = if o.name == name then ok o else first_named name os

abbrev cluster : Cluster (List ObjectMetadata)
cluster = record {
  list = λ s gvk namespace labels. ok s;
  get = λ s gvk key. first_named key.name s;
  patch = λ s old new. (new ∷ s, ok tt);
  now = λ s. "now";
  reconcile_request_annotation = "reconcile.fluxcd.io/requestedAt";
  show_name = λ name. name.namespace <> ("/" <> name.name);
  quote = λ text. text;
  quote_labels = λ labels. "";
}

abbrev requested : ObjectMetadata
requested = record object { annotations = ("reconcile.fluxcd.io/requestedAt", "now") ∷ [] }

abbrev after : List ObjectMetadata
after = requested ∷ object ∷ []

request_reconciliation_iff_example :
    (request_reconciliation cluster (object ∷ []) (reference_of "web") "apps" ≡ (after, ok tt)) ↔ (
      (api_version : String) × (objects : List ObjectMetadata) × (api_version_of
          (reference_of "web")
        ≡ ok api_version)
      × Selects cluster
          (object ∷ [])
          (gvk_of api_version "GitRepository")
          (namespace_of (reference_of "web") "apps")
          (reference_of "web")
          objects
      × Annotates cluster (object ∷ []) objects after)
request_reconciliation_iff_example =
    request_reconciliation_iff cluster (object ∷ []) after (reference_of "web") "apps"

-- The repository that is named has the annotation.
request_reconciliation_test :
    request_reconciliation cluster (object ∷ []) (reference_of "web") "apps" ≡ (after, ok tt)
unfolding request_reconciliation api_version_of lookup notification_controller.Prelude.Dict.insert
request_reconciliation_test = refl

abbrev receivers : List ObjectMetadata → String → Result (List Receiver)
receivers s path = if path == "/hook/1" then ok (receiver ∷ []) else ok []

abbrev handled_payload : List ObjectMetadata → HttpRequest → List ObjectMetadata × ℕ
handled_payload = handle_payload cluster checks receivers (λ r. true)

handle_payload_iff_example : (handled_payload (object ∷ []) hook_request ≡ (after, 200)) ↔ (
    (r : Receiver) × IsAdmitted cluster checks receivers (λ r. true) (object ∷ []) hook_request r
    × Succeeds cluster (object ∷ []) r.meta.namespace r.spec.resources after)
handle_payload_iff_example =
    handle_payload_iff cluster checks receivers (λ r. true) (object ∷ []) after hook_request

-- The webhook of the receiver annotates its repository.
handle_payload_test : handled_payload (object ∷ []) hook_request ≡ (after, 200)
unfolding handle_payload validate lookup
    notification_controller.Server.Receiver.Validate.validate_harbor request_reconciliation
    api_version_of notification_controller.Prelude.Dict.insert
handle_payload_test = refl

changed : (handled_payload (object ∷ []) hook_request).0 ≢ (object ∷ [])
changed h = omega (arith, ap length (sym (ap (λ p. p.0) handle_payload_test) ∙ h))

handle_payload_changed_example :
    (r : Receiver) × IsAdmitted cluster checks receivers (λ r. true) (object ∷ []) hook_request r
    × ((handled_payload (object ∷ []) hook_request).0
        ≡ after_all cluster (object ∷ []) r.meta.namespace r.spec.resources)
handle_payload_changed_example =
    handle_payload_changed cluster checks receivers (λ r. true) (object ∷ []) hook_request changed
