-- ===== src/Server/Metadata.antt =====
-- The metadata of an event, in internal/server/event_server.go and internal/server/event_handlers.go:
-- what the middleware keeps of it, what the handler takes out, and how the alert's metadata joins.
-- A map is a list of entries in the order in which `range` goes through it; the log is left out.
pub mod Clean
pub mod Cleanup
pub mod Combine
pub mod Conflicts
pub mod Delivery
use notification_controller.Prelude.{
  String, ◌<>◌, ◌==◌, Bool, false, not, ◌&&◌, ◌||◌, List, [], ◌∷◌, ◌++◌, if◌then◌else◌, has_prefix,
  trim_prefix, join, get_or, ltb, nat_eq, length,
}
use notification_controller.Prelude.Dict.{Dict, lookup, insert, delete, filter_keys}
use notification_controller.Api.{Alert}
use notification_controller.Api.Event.{Event, EventApi, Unicode, equal_fold, object_group}

unfoldable pub in_list : Unicode → List String → String → Bool
in_list u [] i = false
in_list u (v ∷ l) i = equal_fold u v i || in_list u l i

-- The loop of `excludeInternalMetadata` over its list.
unfoldable pub delete_all : List String → Dict String → Dict String
delete_all [] m = m
delete_all (k ∷ ks) m = delete_all ks (delete k m)

module _ (api : EventApi) where
  abbrev pub event_group_prefix : String
  event_group_prefix = api.group <> "/"

  abbrev pub object_group_prefix : Event → String
  object_group_prefix event = object_group api event <> "/"

  module _ (u : Unicode) where
    unfoldable pub cleanup_metadata : Event → Event
    unfolding in_list
    cleanup_metadata event =
        let prefix = object_group_prefix event in
        let exclude_list : List String =
          (prefix <> api.checksum_key) ∷ (prefix <> api.digest_key) ∷ [] in
        record event {
          metadata =
              filter_keys
                (λ key.
                  not (in_list u exclude_list key)
                  && (has_prefix key event_group_prefix || has_prefix key prefix))
                event.metadata;
        }

  unfoldable pub exclude_internal_metadata : Event → Event
  unfolding delete_all
  exclude_internal_metadata event =
      let exclude_list : List String = (object_group api event <> ("/" <> api.token_key)) ∷ [] in
      if nat_eq (length event.metadata) 0
      then event
      else record event { metadata = delete_all exclude_list event.metadata }

-- The two maps that `combineEventMetadata` builds.
pub record Combined : Type 0 where
  pub metadata : Dict String
  pub sources : Dict (List String)

unfoldable pub sources_of : String → Dict (List String) → List String
sources_of key m = get_or (lookup key m) []

-- `metadata[key] = v; metadataSources[key] = append(metadataSources[key], source)`
unfoldable pub put : String → String → String → Combined → Combined
unfolding sources_of
put key v source c = record {
  metadata = insert key v c.metadata;
  sources = insert key (sources_of key c.sources ++ source ∷ []) c.sources;
}

-- The loops of steps 1 and 4 over the event's metadata.
unfoldable pub put_prefixed : String → String → Dict String → Combined → Combined
put_prefixed prefix source [] c = c
put_prefixed prefix source ((k, v) ∷ m) c =
    put_prefixed prefix source m
      (if has_prefix k prefix then put (trim_prefix k prefix) v source c else c)

-- The loop of step 2 over the alert's metadata.
unfoldable pub put_all : String → Dict String → Combined → Combined
put_all source [] c = c
put_all source ((k, v) ∷ m) c = put_all source m (put k v source c)

unfoldable pub put_summary : String → String → Combined → Combined
put_summary source summary c = if summary == "" then c else put "summary" summary source c

abbrev pub source_event_group : String
source_event_group = "involved object annotations"

abbrev pub source_alert_event_metadata : String
source_alert_event_metadata = "Alert object .spec.eventMetadata"

abbrev pub source_alert_summary : String
source_alert_summary = "Alert object .spec.summary"

abbrev pub source_object_group : String
source_object_group = "involved object controller metadata"

-- `conflictEventAnnotations`: the keys with more than one source, with their sources.
unfoldable pub conflict_annotations : Dict (List String) → Dict String
conflict_annotations [] = []
conflict_annotations ((key, sources) ∷ m) =
    let rest = conflict_annotations m in
    if ltb 1 (length sources) then (key, join ", " sources) ∷ rest else rest

module _ (api : EventApi) where
  unfoldable pub combine : Event → Alert → Combined
  combine event alert =
      put_prefixed (object_group_prefix api event) source_object_group event.metadata (
        put_summary source_alert_summary alert.spec.summary (
          put_all source_alert_event_metadata alert.spec.event_metadata (
            put_prefixed (event_group_prefix api) source_event_group event.metadata
              (record { metadata = []; sources = [] }))))

  -- The event with its new metadata, and the annotations of the warning about conflicts; there is
  -- a warning if there are any.
  unfoldable pub combine_event_metadata : Event → Alert → Event × Dict String
  combine_event_metadata event alert =
      let c = combine event alert in
      (
        if ltb 0 (length c.metadata) then record event { metadata = c.metadata } else event,
        conflict_annotations c.sources,
      )
