-- ===== src/Server/Matching/Wanted.antt =====
-- When an alert is for an event, as a relation beside the filters of internal/server/event_handlers.go.
use notification_controller.Prelude.{
  String, ◌==◌, ◌≡◌, ◌≢◌, refl, ◌↔◌, ◌⊎◌, inl, inr, Bool, true, false, ◌&&◌, ◌||◌, List, [], ◌∷◌,
  Option, none, some, if◌then◌else◌, ok, arith, eq_iff, subst, sym, Any, In, Result-cases,
  Bool-cases,
}
use notification_controller.Prelude.Dict.{Dict}
use notification_controller.Prelude.Recorder.{Writer, and_then}
use notification_controller.Api.{Alert, CrossNamespaceObjectReference}
use notification_controller.Api.Event.{Event, EventApi}
use notification_controller.Server.Matching.{
  Lookups, any_matches, message_is_included, message_is_excluded, labels_match,
  event_matches_alert_source, defaulted, any_source_matches, event_matches_alert_sources,
  alert_wants_event, filter_alerts_for_event,
}

module _ (api : EventApi) (env : Lookups) where
  -- The expression compiles and matches.
  abbrev pub Matches : String → String → Type 0
  Matches msg exp = (r : String → Bool) × (env.compile exp ≡ ok r) × (r msg ≡ true)

  abbrev pub IsIncluded : String → Alert → Type 0
  IsIncluded msg alert =
      (alert.spec.inclusion_list ≡ []) ⊎ Any (Matches msg) alert.spec.inclusion_list

  abbrev pub IsExcluded : String → Alert → Type 0
  IsExcluded msg alert = Any (Matches msg) alert.spec.exclusion_list

  -- The labels of the involved object can be read and match the selector.
  pub record LabelsMatch (event : Event) (match_labels : Dict String) : Type 0 where
    pub labels : Dict String
    pub matches : Dict String → Bool
    pub read : env.get_labels event.involved_object ≡ ok labels
    pub valid : env.selector match_labels ≡ ok matches
    pub matched : matches labels ≡ true

  abbrev pub LabelsAllow : Event → Option (Dict String) → Type 0
  LabelsAllow event none = Unit
  LabelsAllow event (some match_labels) = LabelsMatch event match_labels

  -- The source names the involved object and the severity suits the alert.
  pub record SourceMatches (event : Event) (alert : Alert) (source : CrossNamespaceObjectReference)
      : Type 0 where
    pub namespace :
        ((source.namespace ≡ "") × (event.involved_object.namespace ≡ alert.meta.namespace))
        ⊎ ((source.namespace ≢ "") × (event.involved_object.namespace ≡ source.namespace))
    pub kind : event.involved_object.kind ≡ source.kind
    pub severity :
        (event.severity ≡ alert.spec.event_severity)
        ⊎ (alert.spec.event_severity ≡ api.severity_info)
    pub name : (source.name ≡ "*") ⊎ (source.name ≡ event.involved_object.name)
    pub labels : LabelsAllow event source.match_labels

  pub record IsWanted (event : Event) (alert : Alert) : Type 0 where
    pub active : alert.spec.suspend ≡ false
    pub source : Any (SourceMatches event alert) alert.spec.event_sources
    pub included : IsIncluded event.message alert
    pub not_excluded : ¬ IsExcluded event.message alert

  and_then-value {ℓ κ} :
      {A : Type ℓ} {B : Type κ} (m : Writer A) (f : A → Writer B) → (and_then m f).0 ≡ (f m.0).0
  and_then-value (a, w) f = refl

  any_matches_iff :
      (words msg : String) (alert : Alert) (exps : List String)
      → ((any_matches api env words msg alert exps).0 ≡ true) ↔ Any (Matches msg) exps
  unfolding any_matches
  any_matches_iff words msg alert [] = ground arith
  any_matches_iff words msg alert (exp ∷ exps) = elim (Result-cases (env.compile exp)) [
    | inl (r, compiled) ↦ (
      λ h. elim (Bool-cases (r msg)) [
        | inl hit ↦ inl (r, compiled, hit)
        | inr miss ↦ inr ((any_matches_iff words msg alert exps).0 (ground arith))
      ],
      λ e. elim e [
        | inl (r', compiled', hit) ↦ ground arith
        | inr rest ↦ ground (arith, (any_matches_iff words msg alert exps).1 rest)
      ],
    )
    | inr (e, failed) ↦ (
      λ h. inr ((any_matches_iff words msg alert exps).0 (ground arith)),
      λ e. elim e [
        | inl (r', compiled', hit) ↦ cc
        | inr rest ↦ ground (arith, (any_matches_iff words msg alert exps).1 rest)
      ],
    )
  ]

  message_is_included_iff :
      (msg : String) (alert : Alert)
      → ((message_is_included api env msg alert).0 ≡ true) ↔ IsIncluded msg alert
  unfolding message_is_included
  message_is_included_iff msg alert = ground (
    arith,
    any_matches_iff "failed to compile inclusion regex: " msg alert alert.spec.inclusion_list,
  )

  labels_match_iff :
      (event : Event) (alert : Alert) (source : CrossNamespaceObjectReference)
      (match_labels : Dict String)
      → ((labels_match api env event alert source match_labels).0 ≡ true)
        ↔ LabelsMatch event match_labels
  unfolding labels_match
  labels_match_iff event alert source match_labels = (
    λ h. elim (Result-cases (env.get_labels event.involved_object)) [
      | inr (e, failed) ↦ ground arith
      | inl (labels, read) ↦ elim (Result-cases (env.selector match_labels)) [
        | inr (e, failed) ↦ ground arith
        | inl (matches, valid) ↦ record {
          labels = labels;
          matches = matches;
          read = read;
          valid = valid;
          matched = ground arith;
        }
      ]
    ],
    λ h. ground (arith, h.read, h.valid, h.matched),
  )

  -- The three guards of the code, and the test of the labels behind them.
  abbrev passes : Event → Alert → CrossNamespaceObjectReference → Bool
  passes event alert source =
      (if source.namespace == ""
        then event.involved_object.namespace == alert.meta.namespace
        else event.involved_object.namespace == source.namespace)
      && (event.involved_object.kind == source.kind)
      && (event.severity == alert.spec.event_severity
          || alert.spec.event_severity == api.severity_info)
      && (source.name == "*" || source.name == event.involved_object.name)

  abbrev labels_allow : Event → Alert → CrossNamespaceObjectReference → Option (Dict String) → Bool
  labels_allow event alert source none = true
  labels_allow event alert source (some match_labels) =
      (labels_match api env event alert source match_labels).0

  labels_allow_iff :
      (event : Event) (alert : Alert) (source : CrossNamespaceObjectReference)
      (o : Option (Dict String))
      → (labels_allow event alert source o ≡ true) ↔ LabelsAllow event o
  labels_allow_iff event alert source none = (λ _. tt, λ _. refl)
  labels_allow_iff event alert source (some match_labels) =
      labels_match_iff event alert source match_labels

  event_matches_alert_source_lem :
      (event : Event) (alert : Alert) (source : CrossNamespaceObjectReference)
      → (event_matches_alert_source api env event alert (defaulted alert source)).0 ≡ (
          passes event alert source
          && labels_allow event alert (defaulted alert source) source.match_labels)
  unfolding event_matches_alert_source defaulted
  event_matches_alert_source_lem event alert source = ground arith

  passes-eq-true :
      (event : Event) (alert : Alert) (source : CrossNamespaceObjectReference)
      → SourceMatches event alert source
      → passes event alert source ≡ true
  passes-eq-true event alert source h =
      let o = event.involved_object in
      ground (
        arith,
        h.namespace,
        h.kind,
        h.severity,
        h.name,
        eq_iff source.namespace "",
        eq_iff o.namespace source.namespace,
        eq_iff o.namespace alert.meta.namespace,
        eq_iff o.kind source.kind,
        eq_iff event.severity alert.spec.event_severity,
        eq_iff alert.spec.event_severity api.severity_info,
        eq_iff source.name "*",
        eq_iff source.name o.name,
      )

  event_matches_alert_source_iff :
      (event : Event) (alert : Alert) (source : CrossNamespaceObjectReference)
      → ((event_matches_alert_source api env event alert (defaulted alert source)).0 ≡ true)
        ↔ SourceMatches event alert source
  event_matches_alert_source_iff event alert source =
      let o = event.involved_object in
      let labels = labels_allow_iff event alert (defaulted alert source) source.match_labels in
      rw event_matches_alert_source_lem (
        λ h. record {
          namespace = ground (
            arith,
            eq_iff source.namespace "",
            eq_iff o.namespace source.namespace,
            eq_iff o.namespace alert.meta.namespace,
          );
          kind = ground (arith, eq_iff o.kind source.kind);
          severity = ground (
            arith,
            eq_iff event.severity alert.spec.event_severity,
            eq_iff alert.spec.event_severity api.severity_info,
          );
          name = ground (arith, eq_iff source.name "*", eq_iff source.name o.name);
          labels = labels.0 (ground arith);
        },
        λ h. ground (arith, passes-eq-true event alert source h, labels.1 h.labels),
      )

  any_source_matches_iff :
      (event : Event) (alert : Alert) (sources : List CrossNamespaceObjectReference)
      → ((any_source_matches api env event alert sources).0 ≡ true)
        ↔ Any (SourceMatches event alert) sources
  unfolding any_source_matches
  any_source_matches_iff event alert [] = ground arith
  any_source_matches_iff event alert (source ∷ sources) = ground (
    arith,
    any_source_matches_iff event alert sources,
    event_matches_alert_source_iff event alert source,
  )

  message_is_excluded_iff :
      (msg : String) (alert : Alert)
      → ((message_is_excluded api env msg alert).0 ≡ true) ↔ IsExcluded msg alert
  unfolding message_is_excluded
  message_is_excluded_iff msg alert = ground (
    arith,
    any_matches_iff "failed to compile exclusion regex: " msg alert alert.spec.exclusion_list,
  )

  excluded-eq-false : (b : Bool) → ¬ (b ≡ true) → b ≡ false
  excluded-eq-false b h = ground arith

  -- An alert is chosen exactly when it is not suspended, one of its sources matches the event, and
  -- the message is in the inclusion list, if there is one, and not in the exclusion list.
  pub alert_wants_event_iff :
      (event : Event) (alert : Alert)
      → ((alert_wants_event api env event alert).0 ≡ true) ↔ IsWanted event alert
  unfolding alert_wants_event event_matches_alert_sources
  alert_wants_event_iff event alert = (
    λ h. record {
      active = ground arith;
      source = (any_source_matches_iff event alert alert.spec.event_sources).0 (ground arith);
      included = (message_is_included_iff event.message alert).0 (ground arith);
      not_excluded = λ e. ground (arith, (message_is_excluded_iff event.message alert).1 e);
    },
    λ h. ground (
      arith,
      h.active,
      (any_source_matches_iff event alert alert.spec.event_sources).1 h.source,
      (message_is_included_iff event.message alert).1 h.included,
      excluded-eq-false (message_is_excluded api env event.message alert).0
          (λ e. h.not_excluded ((message_is_excluded_iff event.message alert).0 e)),
    ),
  )

  -- The filter returns exactly the alerts of the list that want the event.
  pub filter_alerts_for_event_iff :
      (event : Event) (alerts : List Alert) (alert : Alert)
      → In alert (filter_alerts_for_event api env alerts event).0
        ↔ (In alert alerts × IsWanted event alert)
  unfolding filter_alerts_for_event
  filter_alerts_for_event_iff event [] alert = (λ h. absurd h, λ h. h.0)
  filter_alerts_for_event_iff event (a ∷ alerts) alert =
      let wants = alert_wants_event_iff event a in
      let ih = filter_alerts_for_event_iff event alerts alert in
      elim (Bool-cases (alert_wants_event api env event a).0) [
        | inl yes' ↦ rw yes' (
          λ m. elim m [
            | inl e ↦ (inl e, subst (IsWanted event) e (wants.0 yes'))
            | inr r ↦ let (x, y) = ih.0 r in (inr x, y)
          ],
          λ (m, w). elim m [ inl e ↦ inl e | inr r ↦ inr (ih.1 (r, w)) ],
        )
        | inr no' ↦ rw no' (
          λ m. let (x, y) = ih.0 m in (inr x, y),
          λ (m, w). elim m [
            | inl e ↦ cc (wants.1 (subst (IsWanted event) (sym e) w))
            | inr r ↦ ih.1 (r, w)
          ],
        )
      ]
