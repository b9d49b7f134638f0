-- ===== src/Tests/Senders.antt =====
-- Tests of the notifiers together: services that take every call, with the number of the calls as
-- their state.
use notification_controller.Prelude.{
  eq_cases, subst, inl, inr, ℕ, suc, String, ◌<>◌, ◌≡◌, refl, [], ◌∷◌, none, some, ok,
}
use notification_controller.Prelude.Dict.{Dict, SameMap, lookup}
use notification_controller.Api.Event.{Event}
use notification_controller.Tests.{event_of, tools_of}
use notification_controller.Notifier.Escape.{escape_all, escape_string, special_chars}
use notification_controller.Notifier.Escape.Laws.{escaped, escape_string_ends}
use notification_controller.Notifier.Incident.{alert_of}
use notification_controller.Notifier.Incident.Laws.{alert_of_lem}
use notification_controller.Notifier.Chat.Cards.{adaptive_facts}
use notification_controller.Notifier.Chat.Cards.Facts.{adaptive_facts_order}
use notification_controller.Notifier.Sender.{Platform, Sender, slack, post_sender}

escape_string_ends_example :
    (escape_all special_chars "v1.2-rc\\" ≡ some (escaped special_chars "v1.2-rc\\"))
    × (escape_string "v1.2-rc\\" ≡ escaped special_chars "v1.2-rc\\")
escape_string_ends_example = escape_string_ends "v1.2-rc\\"

escaped_text : escape_string "v1.2-rc\\" ≡ "v1\\.2\\-rc\\\\"
unfolding escape_string
escaped_text = refl

abbrev platform : Platform ℕ String String String String String String String String String String
platform = record {
  tools = tools_of suc;
  streams = record {
    nats_connect = λ server user s. (suc s, ok tt);
    nats_publish = λ subject payload s. (suc s, ok tt);
    nats_close = λ s. s;
    pubsub_client = λ project creds s. (suc s, ok tt);
    pubsub_publish = λ topic payload attrs s. (suc s, ok "id");
    pubsub_close = λ s. (s, none);
    aggregate = λ e close_err. e <> close_err;
    new_hub = λ namespace url token. ok url;
    hub_from_connection_string = λ url. ok url;
    hub_send = λ hub payload s. (suc s, ok tt);
    hub_close = λ hub s. (s, ok tt);
  };
  telemetry = record {
    new_sentry_client = λ pool dsn environment. ok dsn;
    capture_event = λ client e s. suc s;
    new_events_api = λ host scheme proxy pool. host;
    create_event = λ events_api key e s. (suc s, ok tt);
  };
  shoutrrr_send = λ url message s. (suc s, ok tt);
  github = record {
    new_client = λ token. token;
    new_enterprise_client = λ host token pool. ok token;
    list_statuses = λ client owner repo rev size s. (s, ok []);
    create_status = λ client owner repo rev status s. (suc s, ok tt);
    dispatch = λ client owner repo type payload s. (suc s, ok tt);
  };
  gitlab = record {
    new_client = λ token url pool. ok token;
    success = "success";
    failed = "failed";
    get_commit_statuses = λ client id sha s. (s, ok []);
    set_commit_status = λ client id sha options s. (suc s, ok tt);
  };
  gitea_api = record {
    new_client = λ url token. ok token;
    set_http_client = λ pool client. client;
    getenv = λ name. "";
    list_statuses = λ client owner repo rev page size s. (s, ok []);
    create_status = λ client owner repo rev status s. (suc s, ok tt);
  };
  bitbucket_api = record {
    new_basic_auth = λ user password. user;
    set_http_client = λ pool client. client;
    get_commit_status = λ client cmo key s. (s, (none, none));
    create_commit_status = λ client cmo cso s. (suc s, ok tt);
    marshal = λ answer. ok "null";
    unmarshal = λ text. ok (record { state = ""; key = ""; name = ""; description = ""; url = "" });
  };
  server = record {
    join_path = λ url path. record url { path = url.path <> ("/" <> path) };
    encode_query = λ key value. key <> ("=" <> value);
    new_request = λ method address. ok tt;
    do_request = λ request s. (suc s, ok (record { status_code = 200; body = ok "{}" }));
    status_text = λ n. "";
    encode = λ request. ok request.key;
    unmarshal = λ text. ok (record { name = ""; key = ""; state = ""; description = "" });
  };
  azure = record {
    new_client = λ url token pool. token;
    succeeded = "succeeded";
    error = "error";
    get_statuses = λ client project repo rev s. (s, ok (some []));
    create_commit_status = λ client project repo rev status s. (suc s, ok tt);
  };
}

abbrev chat : Sender String String String String String String String String String
chat = slack (record {
  url = "https://example.com/hook";
  proxy_url = "";
  token = "";
  username = "flux";
  channel = "general";
  cert_pool = none;
})

-- A message is posted, and an update of a commit status is not.
chat_message : post_sender platform chat (event_of "stored" []) 0 ≡ (1, ok tt)
unfolding post_sender
chat_message = refl

chat_update :
    post_sender platform chat (event_of "posted" (("commit_status", "update") ∷ [])) 0 ≡ (0, ok tt)
unfolding post_sender lookup
chat_update = refl

-- A label of the metadata, and one that the event's severity hides.
abbrev labelled : Event
labelled =
    event_of "stored" (("summary", "production") ∷ ("severity", "none") ∷ ("team", "web") ∷ [])

alert_of_lem_example :
    (lookup "severity" (alert_of platform.tools labelled).labels ≡ some "info")
    × (lookup "summary" (alert_of platform.tools labelled).annotations ≡ some "production")
    × (lookup "message" (alert_of platform.tools labelled).annotations ≡ some "stored")
unfolding lookup
alert_of_lem_example = alert_of_lem platform.tools labelled "severity"

abbrev listed_metadata : Dict String
listed_metadata = ("summary", "web") ∷ ("team", "apps") ∷ ("env", "test") ∷ []

abbrev swapped_metadata : Dict String
swapped_metadata = ("env", "test") ∷ ("team", "apps") ∷ ("summary", "web") ∷ []

abbrev one_map : SameMap listed_metadata swapped_metadata
unfolding lookup
one_map k = elim (eq_cases "summary" k) [
  | inl same ↦ subst (λ j. lookup j listed_metadata ≡ lookup j swapped_metadata) same refl
  | inr summary ↦ elim (eq_cases "team" k) [
    | inl same ↦ subst (λ j. lookup j listed_metadata ≡ lookup j swapped_metadata) same refl
    | inr team ↦ rw (lookup, summary, team) refl
  ]
]

adaptive_facts_order_example : adaptive_facts listed_metadata ≡ adaptive_facts swapped_metadata
unfolding lookup
adaptive_facts_order_example =
    adaptive_facts_order listed_metadata swapped_metadata (refl, (refl, (refl, tt)))
      (refl, (refl, (refl, tt))) one_map
