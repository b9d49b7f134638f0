-- ===== src/Notifier/Incident/Laws.antt =====
-- Which labels and annotations an alert of Alertmanager has, and which events PagerDuty gets, for
-- internal/notifier/alertmanager.go and pagerduty.go.
use notification_controller.Prelude.{
  ◌<>◌, ◌≡◌, refl, String, ◌==◌, Option, none, some, if◌then◌else◌, [], ◌∷◌,
}
use notification_controller.Prelude.Dict.{Dict, lookup, insert, lookup-insert, lookup-delete}
use notification_controller.Api.Event.{Event}
use notification_controller.Notifier.Tools.{Tools}
use notification_controller.Notifier.Incident.{alert_labels, with_summary, alert_of}

-- The value at a key of a table, or another.
abbrev pub choose : String → Dict (Option String) → Option String → Option String
choose key [] otherwise = otherwise
choose key ((k, v) ∷ table) otherwise = if k == key then v else choose key table otherwise

with_summary_lem :
    (o : Option String) (message : String)
    → (lookup "summary" (with_summary o (("message", message) ∷ [])) ≡ o)
      × (lookup "message" (with_summary o (("message", message) ∷ [])) ≡ some message)
unfolding lookup insert
with_summary_lem none message = (refl, refl)
with_summary_lem (some summary) message = (refl, refl)

module _ {S Pool : Type 0} (tools : Tools S Pool) where
  -- The label of a key, whatever order the labels are set in.
  abbrev pub label_of : Event → String → Option String
  label_of event key =
      choose key
        (("reportingcontroller", some event.reporting_controller)
          ∷ ("namespace", some event.involved_object.namespace)
          ∷ ("name", some event.involved_object.name)
          ∷ ("kind", some event.involved_object.kind)
          ∷ ("reason", some event.reason)
          ∷ ("severity", some event.severity)
          ∷ ("alertname", some ("Flux" <> (event.involved_object.kind <> tools.title event.reason)))
          ∷ ("summary", none)
          ∷ [])
        (lookup key event.metadata)

  lookup-alert_labels :
      (event : Event) (key : String) → lookup key (alert_labels tools event) ≡ label_of event key
  unfolding alert_labels
  lookup-alert_labels event key =
      rw
        (
          alert_labels, lookup-insert, lookup-insert, lookup-insert, lookup-insert, lookup-insert,
          lookup-insert, lookup-insert, lookup-delete,
        )
        refl

  -- The labels are the seven of the event, whatever the metadata have under these keys, and the
  -- metadata but for the summary, which is an annotation, beside the message.
  pub alert_of_lem :
      (event : Event) (key : String)
      → (lookup key (alert_of tools event).labels ≡ label_of event key)
        × (lookup "summary" (alert_of tools event).annotations ≡ lookup "summary" event.metadata)
        × (lookup "message" (alert_of tools event).annotations ≡ some event.message)
  unfolding alert_of
  alert_of_lem event key =
      let (summary, message) = with_summary_lem (lookup "summary" event.metadata) event.message in
      (lookup-alert_labels event key, summary, message)
