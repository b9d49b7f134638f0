-- ===== src/Server/Metadata/Clean.antt =====
-- The metadata that reach the notifiers: the middleware's cleanup, the handler's exclusion and the
-- combination with the alert, one after the other.
use notification_controller.Prelude.{
  String, ◌<>◌, ◌==◌, ◌≡◌, sym, ◌∙◌, inl, inr, Bool, true, false, not, ◌&&◌, ◌||◌, [], ◌∷◌, Option,
  none, if◌then◌else◌, has_prefix, strip, strip_sound, arith, Bool-cases, Option-cases, nat_eq,
  length,
}
use notification_controller.Prelude.Dict.{
  lookup, lookup-delete, lookup_of_empty, lookup-filter_keys, NodupKeys, filter_keys-NodupKeys,
  delete-NodupKeys,
}
use notification_controller.Api.{Alert}
use notification_controller.Api.Event.{Event, EventApi, Unicode, object_group}
use notification_controller.Server.Metadata.{
  combine, combine_event_metadata, event_group_prefix, object_group_prefix, in_list,
  cleanup_metadata, exclude_internal_metadata,
}
use notification_controller.Server.Metadata.Combine.{
  over, from_object, from_summary, from_alert, from_event, lookup-combine,
}

over-eq-none :
    (a b c d : Option String) → over a (over b (over c d)) ≡ none → (a ≡ none) × (d ≡ none)
over-eq-none a b c d h = ground arith

module _ (api : EventApi) where
  abbrev pub is_prefixed : Event → String → Bool
  is_prefixed event k =
      has_prefix k (event_group_prefix api) || has_prefix k (object_group_prefix api event)

  -- Each key once, and each with one of the two prefixes.
  pub record IsClean (event : Event) : Type 0 where
    pub nodup : NodupKeys event.metadata
    pub prefixed : (k : String) → is_prefixed event k ≡ false → lookup k event.metadata ≡ none

  -- The keys that the middleware takes out whatever their prefix.
  abbrev pub is_excluded : Unicode → Event → String → Bool
  is_excluded u event k =
      in_list u
        ((object_group_prefix api event <> api.checksum_key)
          ∷ (object_group_prefix api event <> api.digest_key)
          ∷ [])
        k

  pub lookup-cleanup_metadata :
      (u : Unicode) (event : Event) (k : String)
      → lookup k (cleanup_metadata api u event).metadata ≡ (
          if not (is_excluded u event k) && is_prefixed event k
          then lookup k event.metadata
          else none)
  unfolding cleanup_metadata
  lookup-cleanup_metadata u event k = lookup-filter_keys k _ event.metadata

  -- The middleware's cleanup makes the metadata of any event clean: each key once, and each with
  -- one of the two prefixes. The event's map has each key once.
  pub cleanup_metadata-IsClean :
      (u : Unicode) (event : Event)
      → NodupKeys event.metadata
      → IsClean (cleanup_metadata api u event)
  unfolding cleanup_metadata
  cleanup_metadata-IsClean u event n = record {
    nodup = filter_keys-NodupKeys _ event.metadata n;
    prefixed = λ k h. rw lookup-filter_keys (ground arith);
  }

  abbrev pub token_name : Event → String
  token_name event = object_group api event <> ("/" <> api.token_key)

  pub lookup-exclude_internal_metadata :
      (event : Event) (k : String)
      → lookup k (exclude_internal_metadata api event).metadata
        ≡ (if token_name event == k then none else lookup k event.metadata)
  unfolding exclude_internal_metadata
  lookup-exclude_internal_metadata event k =
      ground
        (arith, lookup_of_empty k event.metadata, lookup-delete k (token_name event) event.metadata)

  pub exclude_internal_metadata-IsClean :
      (event : Event) → IsClean event → IsClean (exclude_internal_metadata api event)
  unfolding exclude_internal_metadata
  exclude_internal_metadata-IsClean event h = record {
    nodup = ground (arith, h.nodup, delete-NodupKeys (token_name event) event.metadata h.nodup);
    prefixed = λ k p. ground (arith, h.prefixed k, lookup-exclude_internal_metadata event k);
  }

  module _ (event : Event) (alert : Alert) where
    -- The value of a key by the precedence order.
    abbrev pub preferred : String → Option String
    preferred j = over (from_object api event alert j) (
        over (from_summary api event alert j)
          (over (from_alert api event alert j) (from_event api event alert j)))

    module _ (h : IsClean event) (w : NodupKeys alert.spec.event_metadata)
        (empty : nat_eq (length (combine api event alert).metadata) 0 ≡ true) where
      preferred-eq-none : (j : String) → preferred j ≡ none
      preferred-eq-none j =
          sym (lookup-combine api event alert j h.nodup w) ∙ lookup_of_empty j _ empty

      no_sources :
          (j : String)
          → (from_object api event alert j ≡ none) × (from_event api event alert j ≡ none)
      no_sources j =
          over-eq-none (from_object api event alert j) (from_summary api event alert j)
            (from_alert api event alert j) (from_event api event alert j) (preferred-eq-none j)

      -- With no entry in the combined map the event had no metadata either.
      lookup-eq-none : (k : String) → lookup k event.metadata ≡ none
      lookup-eq-none k = elim (Option-cases (strip k (object_group_prefix api event))) [
        | inr (r, found) ↦ rw (strip_sound k _ r found) (no_sources r).0
        | inl missed ↦ elim (Option-cases (strip k (event_group_prefix api))) [
          | inr (r, found) ↦ rw (strip_sound k _ r found) (no_sources r).1
          | inl missed' ↦ h.prefixed k (rw (missed, missed'))
        ]
      ]

    -- On clean metadata the event goes on with exactly the combined metadata, also where the
    -- combined map is empty and the code keeps the map that the event had. The alert's map has each
    -- key once.
    pub lookup-combine_event_metadata :
        (j : String)
        → IsClean event
        → NodupKeys alert.spec.event_metadata
        → lookup j (combine_event_metadata api event alert).0.metadata ≡ preferred j
    unfolding combine_event_metadata
    lookup-combine_event_metadata j h w =
        elim (Bool-cases (nat_eq (length (combine api event alert).metadata) 0)) [
          | inl empty ↦ ground (arith, lookup-eq-none h w empty j, preferred-eq-none h w empty j)
          | inr more ↦ ground (arith, lookup-combine api event alert j h.nodup w)
        ]
