-- ===== src/Server/Matching.antt =====
-- Which alerts an event is for: the filters of internal/server/event_handlers.go. The compiler of
-- regular expressions, the reads of the cluster and label selectors are not the program's: they are
-- the fields of `Lookups`. What is logged and not recorded is left out.
pub mod Wanted
use notification_controller.Prelude.{
  String, ◌<>◌, ◌==◌, Bool, true, false, not, ◌&&◌, ◌||◌, List, [], ◌∷◌, none, some, if◌then◌else◌,
  Result, ok, err,
}
use notification_controller.Prelude.Dict.{Dict}
use notification_controller.Prelude.Recorder.{Subject, warning, Writer, pure, and_then, eventf}
use notification_controller.Api.{Alert, CrossNamespaceObjectReference}
use notification_controller.Api.Event.{Event, EventApi, ObjectReference}

pub record Lookups : Type 0 where
  -- regexp.Compile(exp), and Match of what it returns
  pub compile : String → Result (String → Bool)
  -- s.kubeClient.Get of the metadata of an object, and its labels
  pub get_labels : ObjectReference → Result (Dict String)
  -- metav1.LabelSelectorAsSelector of match labels, and Matches of what it returns
  pub selector : Dict String → Result (Dict String → Bool)

unfoldable pub involved_object_string : ObjectReference → String
involved_object_string o = o.kind <> ("/" <> (o.namespace <> ("/" <> o.name)))

unfoldable pub cross_ns_object_ref_string : CrossNamespaceObjectReference → String
cross_ns_object_ref_string o = o.kind <> ("/" <> (o.namespace <> ("/" <> o.name)))

abbrev pub alert_subject : Alert → Subject
alert_subject a = record { kind = "Alert"; namespace = a.meta.namespace; name = a.meta.name }

-- A source without a namespace means the alert's.
unfoldable pub defaulted : Alert → CrossNamespaceObjectReference → CrossNamespaceObjectReference
defaulted alert source =
    if source.namespace == "" then record source { namespace = alert.meta.namespace } else source

module _ (api : EventApi) (env : Lookups) where
  -- The loop of `messageIsIncluded` and `messageIsExcluded`; `words` are those of the warning.
  unfoldable pub any_matches : String → String → Alert → List String → Writer Bool
  any_matches words msg alert [] = pure false
  any_matches words msg alert (exp ∷ exps) =
      let rest = any_matches words msg alert exps in
      elim (env.compile exp) [
        | ok r ↦ if r msg then pure true else rest
        | err _ ↦
            and_then (eventf (alert_subject alert) warning "InvalidConfig" (words <> exp))
              (λ _. rest)
      ]

  unfoldable pub message_is_included : String → Alert → Writer Bool
  unfolding any_matches
  message_is_included msg alert = elim alert.spec.inclusion_list [
    | [] ↦ pure true
    | exp ∷ exps ↦ any_matches "failed to compile inclusion regex: " msg alert (exp ∷ exps)
  ]

  unfoldable pub message_is_excluded : String → Alert → Writer Bool
  unfolding any_matches
  message_is_excluded msg alert = elim alert.spec.exclusion_list [
    | [] ↦ pure false
    | exp ∷ exps ↦ any_matches "failed to compile exclusion regex: " msg alert (exp ∷ exps)
  ]

  -- The last part of `eventMatchesAlertSource`, for a source with match labels.
  unfoldable pub labels_match :
      Event → Alert → CrossNamespaceObjectReference → Dict String → Writer Bool
  unfolding involved_object_string cross_ns_object_ref_string
  labels_match event alert source match_labels = elim (env.get_labels event.involved_object) [
    | err _ ↦
        and_then
          (eventf (alert_subject alert) warning "SourceFetchFailed"
            ("error getting source object " <> involved_object_string event.involved_object))
          (λ _. pure false)
    | ok labels ↦ elim (env.selector match_labels) [
      | err _ ↦
          and_then
            (eventf (alert_subject alert) warning "InvalidConfig"
              ("error using matchLabels from event source " <> cross_ns_object_ref_string source))
            (λ _. pure false)
      | ok matches ↦ pure (matches labels)
    ]
  ]

  unfoldable pub event_matches_alert_source :
      Event → Alert → CrossNamespaceObjectReference → Writer Bool
  unfolding labels_match
  event_matches_alert_source event alert source =
      let severity = alert.spec.event_severity in
      if not (event.involved_object.namespace == source.namespace)
        || not (event.involved_object.kind == source.kind)
      then pure false
      else if not (event.severity == severity) && not (severity == api.severity_info)
      then pure false
      else if not (source.name == "*") && not (source.name == event.involved_object.name)
      then pure false
      else elim source.match_labels [
        | none ↦ pure true
        | some match_labels ↦ labels_match event alert source match_labels
      ]

  -- The loop of `eventMatchesAlertSources`.
  unfoldable pub any_source_matches :
      Event → Alert → List CrossNamespaceObjectReference → Writer Bool
  any_source_matches event alert [] = pure false
  any_source_matches event alert (source ∷ sources) =
      let rest = any_source_matches event alert sources in
      and_then (event_matches_alert_source event alert (defaulted alert source))
        (λ found. if found then pure true else rest)

  unfoldable pub event_matches_alert_sources : Event → Alert → Writer Bool
  unfolding any_source_matches
  event_matches_alert_sources event alert = any_source_matches event alert alert.spec.event_sources

  -- The body of the loop of `filterAlertsForEvent`: whether it appends the alert.
  unfoldable pub alert_wants_event : Event → Alert → Writer Bool
  alert_wants_event event alert =
      if alert.spec.suspend
      then pure false
      else and_then (event_matches_alert_sources event alert) λ matches.
        if not matches
        then pure false
        else and_then (message_is_included event.message alert) λ included.
          if not included
          then pure false
          else and_then (message_is_excluded event.message alert) λ excluded. pure (not excluded)

  unfoldable pub filter_alerts_for_event : List Alert → Event → Writer (List Alert)
  unfolding alert_wants_event
  filter_alerts_for_event [] event = pure []
  filter_alerts_for_event (alert ∷ alerts) event =
      let rest = filter_alerts_for_event alerts event in
      and_then (alert_wants_event event alert)
        λ wanted. and_then rest λ results. pure (if wanted then alert ∷ results else results)
