-- ===== src/Tests/Notifications.antt =====
-- Tests of the notifications' part: concrete events, alerts and providers.
use notification_controller.Prelude.{
  suc, ne_of_test, ℕ, String, ◌<>◌, ◌≡◌, ◌≢◌, ◌↔◌, ◌⊎◌, ◌<◌, inl, inr, refl, Bool, true, false,
  List, [], ◌∷◌, ◌++◌, Option, none, some, Result, ok, err, In, arith,
}
use notification_controller.Prelude.Dict.{Dict, lookup, NodupKeys}
use notification_controller.Prelude.Actions.{Action}
use notification_controller.Api.{Alert}
use notification_controller.Api.Event.{Event}
use notification_controller.Notifier.Factory.{Notifier, NotifierOptions, made, notifier, notifiers}
use notification_controller.Notifier.Factory.Laws.{
  provider_types, supported_iff, notifier_token_or_password,
}
use notification_controller.Tests.{
  api, unicode, event, event_of, alert, provider, lookups, constructors, services, repository,
}
use notification_controller.Server.Matching.{
  alert_wants_event, filter_alerts_for_event, involved_object_string, alert_subject,
}
use notification_controller.Server.Matching.Wanted.{IsWanted, alert_wants_event_iff}
use notification_controller.Server.Metadata.{
  combine, sources_of, combine_event_metadata, cleanup_metadata, exclude_internal_metadata,
  source_object_group, source_alert_summary, source_alert_event_metadata, source_event_group,
}
use notification_controller.Server.Metadata.Combine.{over, from_summary, from_alert, from_event}
use notification_controller.Server.Metadata.Clean.{
  preferred, cleanup_metadata-IsClean, lookup-combine_event_metadata,
}
use notification_controller.Server.Metadata.Delivery.{delivered, internal, lookup-delivered_token}
use notification_controller.Server.Metadata.Conflicts.{number_of_sources, conflict_iff}
use notification_controller.Server.Dispatch.{
  Posting, Credentials, handle_event, create_notifier, read_credentials, post_notification,
  dispatch_or_record, denied_message,
}
use notification_controller.Server.Dispatch.Postings.{IsPostingOf, handle_event_iff}
use notification_controller.Server.Metadata.Cleanup.{IsOf, IsOther, cleanup_metadata_iff}
use notification_controller.Server.Dispatch.Secrets.{
  AreEntries, AreCredentials, read_credentials_sound,
}
use notification_controller.Server.Dispatch.Providers.{
  IsCreated, create_notifier_sound, post_notification_masked,
}

-- The notification that the event starts.
abbrev posting : Posting String
posting = record {
  sender = made "slack";
  notification = (combine_event_metadata api event alert).0;
  token = "abc";
  timeout = 15;
  alert = alert;
  involved_object = repository;
}

handle_event_iff_example :
    ((handle_event api services true event).0.0 ≡ 202)
    × (In posting (handle_event api services true event).0.1 ↔ (
        (a : Alert) × In a (alert ∷ [])
        × IsWanted api lookups (exclude_internal_metadata api event) a
        × IsPostingOf api services true (exclude_internal_metadata api event) a posting))
handle_event_iff_example = handle_event_iff api services true event posting refl

alert_wants_event_iff_example :
    ((alert_wants_event api lookups event alert).0 ≡ true) ↔ IsWanted api lookups event alert
alert_wants_event_iff_example = alert_wants_event_iff api lookups event alert

-- The alert wants the event, and an excluded message does not reach it.
alert_wants_event_test :
    ((alert_wants_event api lookups event alert).0 ≡ true)
    × ((alert_wants_event api lookups (event_of "noise" []) alert).0 ≡ false)
unfolding alert_wants_event notification_controller.Server.Matching.event_matches_alert_sources
    notification_controller.Server.Matching.event_matches_alert_source
    notification_controller.Server.Matching.defaulted
    notification_controller.Server.Matching.message_is_included
    notification_controller.Server.Matching.message_is_excluded
alert_wants_event_test = (refl, refl)

event-NodupKeys : NodupKeys event.metadata
unfolding lookup
event-NodupKeys = (refl, (refl, tt))

alert-NodupKeys : NodupKeys alert.spec.event_metadata
unfolding lookup
alert-NodupKeys = (refl, tt)

cleanup_metadata_iff_example :
    (lookup "event.toolkit.fluxcd.io/team" (cleanup_metadata api unicode event).metadata
      ≡ some "web")
    ↔ ((lookup "event.toolkit.fluxcd.io/team" event.metadata ≡ some "web")
        × (IsOf "event.toolkit.fluxcd.io" "event.toolkit.fluxcd.io/team"
            ⊎ IsOf "source.toolkit.fluxcd.io" "event.toolkit.fluxcd.io/team")
        × (IsOther unicode "source.toolkit.fluxcd.io" "checksum" "event.toolkit.fluxcd.io/team"
            × IsOther unicode "source.toolkit.fluxcd.io" "digest" "event.toolkit.fluxcd.io/team"))
cleanup_metadata_iff_example =
    cleanup_metadata_iff api unicode event "event.toolkit.fluxcd.io/team" "web"

lookup-combine_event_metadata_example :
    lookup "team" (combine_event_metadata api (cleanup_metadata api unicode event) alert).0.metadata
    ≡ preferred api (cleanup_metadata api unicode event) alert "team"
lookup-combine_event_metadata_example =
    lookup-combine_event_metadata api (cleanup_metadata api unicode event) alert "team"
      (cleanup_metadata-IsClean api unicode event event-NodupKeys) alert-NodupKeys

-- The alert's value goes before the annotation's.
lookup-combine_test : lookup "team" (combine api event alert).metadata ≡ some "platform"
unfolding lookup combine notification_controller.Server.Metadata.put_prefixed
    notification_controller.Prelude.strip notification_controller.Server.Metadata.put
    notification_controller.Prelude.Dict.insert notification_controller.Server.Metadata.put_summary
    notification_controller.Server.Metadata.put_all
lookup-combine_test = refl

conflict_iff_example :
    (lookup "team" (combine_event_metadata api event alert).1 ≢ none)
    ↔ (1 < number_of_sources api event alert "team")
conflict_iff_example = conflict_iff api event alert "team" event-NodupKeys alert-NodupKeys

lookup-delivered_token_example :
    lookup "token" (delivered api unicode event alert).metadata
    ≡ over (from_summary api event alert "token") (
        over
          (from_alert api event alert "token")
          (from_event api (internal api unicode event) alert "token"))
lookup-delivered_token_example =
    lookup-delivered_token api unicode event alert event-NodupKeys alert-NodupKeys

create_notifier_sound_example : IsCreated services provider (made "slack") "abc"
unfolding create_notifier lookup notifier notification_controller.Server.Dispatch.new_factory
    notification_controller.Notifier.Factory.slack_notifier_func
    notification_controller.Prelude.trim_space
create_notifier_sound_example = create_notifier_sound services provider refl

abbrev credentials : Credentials
credentials = record {
  webhook = "https://example.com";
  username = "flux";
  proxy = "";
  token = "abc";
  password = "";
  headers = [];
}

read_credentials_sound_example :
    (entries : Dict String) × AreEntries services provider entries
    × AreCredentials services provider entries credentials
unfolding read_credentials lookup notification_controller.Prelude.trim_space
read_credentials_sound_example = read_credentials_sound services provider credentials refl

-- The state is the number of the calls.
abbrev refused : String → Notifier String → Event → Action ℕ (Unit {0})
refused words n e s = (suc s, err words)

post_notification_masked_example :
    post_notification services (refused "bad token abc") posting 0
    ≡ post_notification services (refused "bad token abc!") posting 0
post_notification_masked_example =
    post_notification_masked services posting (refused "bad token abc") (refused "bad token abc!") 0
      1 "bad token abc" "bad token abc!" refl refl refl

supported_iff_example : (lookup "slack" (notifiers constructors) ≢ none) ↔ In "slack" provider_types
supported_iff_example = supported_iff constructors "slack"

abbrev options : NotifierOptions String
options = record {
  url = "https://github.com/org/repo";
  proxy_url = "";
  username = "";
  channel = "";
  token = "";
  headers = [];
  cert_pool = none;
  password = "";
  provider_uid = "uid";
}

notifier_token_or_password_example :
    notifier constructors (record options { token = ""; password = "abc" }) "github"
    ≡ notifier constructors (record options { token = "abc"; password = "" }) "github"
notifier_token_or_password_example =
    notifier_token_or_password constructors options "github" "abc" "" (inl refl)
      (ne_of_test "abc" "" refl)
