-- ===== src/Server/Metadata/Delivery.antt =====
-- The metadata of an event on their whole way: `eventMiddleware` cleans them up, `handleEvent`
-- takes the internal ones out, and `getNotificationParams` combines them with the alert's.
use notification_controller.Prelude.{
  String, ◌<>◌, ◌==◌, ◌≡◌, ◌∙◌, none, if◌then◌else◌, arith, eq_refl,
}
use text.Mathlib.TextLemmas.{append_assoc}
use notification_controller.Prelude.Dict.{lookup, NodupKeys}
use notification_controller.Api.{Alert}
use notification_controller.Api.Event.{Event, EventApi, Unicode, object_group}
use notification_controller.Server.Metadata.{
  combine_event_metadata, object_group_prefix, cleanup_metadata, exclude_internal_metadata,
}
use notification_controller.Server.Metadata.Combine.{
  over, from_object, from_summary, from_alert, from_event,
}
use notification_controller.Server.Metadata.Clean.{
  token_name, preferred, cleanup_metadata-IsClean, lookup-exclude_internal_metadata,
  exclude_internal_metadata-IsClean, lookup-combine_event_metadata,
}

-- The prefix `group/` with a key.
slash : (group k : String) → (group <> "/") <> k ≡ group <> ("/" <> k)
slash group k = append_assoc group "/" k

module _ (api : EventApi) (u : Unicode) where
  -- The event that a notifier is given.
  abbrev pub delivered : Event → Alert → Event
  delivered event alert =
      (combine_event_metadata api (exclude_internal_metadata api (cleanup_metadata api u event))
        alert).0

  -- The event after the middleware and the handler.
  abbrev pub internal : Event → Event
  internal event = exclude_internal_metadata api (cleanup_metadata api u event)

  lookup-internal :
      (event : Event) (k : String)
      → lookup k (internal event).metadata ≡ (
          if token_name api event == k
          then none
          else lookup k (cleanup_metadata api u event).metadata)
  unfolding cleanup_metadata
  lookup-internal event k = lookup-exclude_internal_metadata api (cleanup_metadata api u event) k

  involved_object-internal :
      (event : Event) → (internal event).involved_object ≡ event.involved_object
  unfolding exclude_internal_metadata cleanup_metadata
  involved_object-internal event = ground arith

  from_object-internal :
      (event : Event) (alert : Alert) (j : String)
      → from_object api (internal event) alert j
        ≡ lookup (object_group_prefix api event <> j) (internal event).metadata
  from_object-internal event alert j = rw involved_object-internal

  token_hidden :
      (event : Event)
      → lookup (object_group_prefix api event <> api.token_key) (internal event).metadata ≡ none
  token_hidden event =
      lookup-internal event _
      ∙ rw (slash (object_group api event) api.token_key, eq_refl (token_name api event))

  module _ (event : Event) (alert : Alert) (n : NodupKeys event.metadata)
      (w : NodupKeys alert.spec.event_metadata) where
    lookup-delivered :
        (j : String)
        → lookup j (delivered event alert).metadata ≡ preferred api (internal event) alert j
    lookup-delivered j =
        lookup-combine_event_metadata api (internal event) alert j
          (exclude_internal_metadata-IsClean api _ (cleanup_metadata-IsClean api u event n)) w

    -- The token of the involved object's controller is not delivered: the key `token` has a value
    -- only where the alert or an annotation gives one. The maps of the event and of the alert have
    -- each key once.
    pub lookup-delivered_token :
        lookup api.token_key (delivered event alert).metadata
        ≡ over (from_summary api event alert api.token_key) (
            over
              (from_alert api event alert api.token_key)
              (from_event api (internal event) alert api.token_key))
    lookup-delivered_token =
        lookup-delivered api.token_key ∙ rw (from_object-internal, token_hidden event)
