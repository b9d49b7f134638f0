-- ===== src/Server/Metadata/Cleanup.antt =====
-- Which entries of an event's metadata `cleanupMetadata` of internal/server/event_server.go keeps.
use notification_controller.Prelude.{
  String, ◌<>◌, ◌≡◌, ◌≢◌, ◌↔◌, ◌⊎◌, refl, sym, ◌∙◌, inl, inr, Bool, true, false, not, ◌&&◌, Option,
  none, some, if◌then◌else◌, has_prefix, strip, strip_sound, strip-append, arith, eq_iff,
  Option-cases, map_chars,
}
use text.Mathlib.TextLemmas.{append_assoc}
use notification_controller.Prelude.Dict.{lookup}
use notification_controller.Api.Event.{Event, EventApi, Unicode, equal_fold}
use notification_controller.Server.Metadata.{in_list, cleanup_metadata}
use notification_controller.Server.Metadata.Clean.{
  is_prefixed, is_excluded, lookup-cleanup_metadata,
}

-- A key of a group: the group, a slash and more.
abbrev pub IsOf : String → String → Type 0
IsOf group k = (rest : String) × (k ≡ group <> ("/" <> rest))

-- The key is not the one of a group and a name, whatever the letter case.
abbrev pub IsOther : Unicode → String → String → String → Type 0
IsOther u group name k = map_chars u.fold (group <> ("/" <> name)) ≢ map_chars u.fold k

prefix_iff : (group k : String) → (has_prefix k (group <> "/") ≡ true) ↔ IsOf group k
prefix_iff group k = (
  λ h. elim (Option-cases (strip k (group <> "/"))) [
    | inl missing ↦ let no = rw missing at h in cc
    | inr (rest, found) ↦
        (rest, strip_sound k (group <> "/") rest found ∙ append_assoc group "/" rest)
  ],
  λ (rest, same).
      rw (same, sym (append_assoc group "/" rest), strip-append (group <> "/") rest) refl,
)

fold_iff :
    (u : Unicode) (group name k : String)
    → (equal_fold u ((group <> "/") <> name) k ≡ false) ↔ IsOther u group name k
unfolding equal_fold
fold_iff u group name k =
    rw (append_assoc group "/" name)
      (ground (arith, eq_iff (map_chars u.fold (group <> ("/" <> name))) (map_chars u.fold k)))

kept_iff :
    (excluded prefixed : Bool) (found : Option String) (v : String)
    → ((if not excluded && prefixed then found else none) ≡ some v)
      ↔ ((found ≡ some v) × (prefixed ≡ true) × (excluded ≡ false))
kept_iff true true found v = (λ h. cc, λ h. cc)
kept_iff true false found v = (λ h. cc, λ h. cc)
kept_iff false true found v = (λ h. (h, refl, refl), λ h. h.0)
kept_iff false false found v = (λ h. cc, λ h. cc)

module _ (api : EventApi) (u : Unicode) (event : Event) where
  -- The API group of the involved object.
  abbrev pub involved_group : String
  involved_group = api.group_of event.involved_object.api_version

  is_excluded_iff :
      (k : String)
      → (is_excluded api u event k ≡ false)
        ↔ (IsOther u involved_group api.checksum_key k × IsOther u involved_group api.digest_key k)
  unfolding in_list
  is_excluded_iff k = ground (
    arith,
    fold_iff u involved_group api.checksum_key k,
    fold_iff u involved_group api.digest_key k,
  )

  is_prefixed_iff :
      (k : String) → (is_prefixed api event k ≡ true) ↔ (IsOf api.group k ⊎ IsOf involved_group k)
  is_prefixed_iff k = ground (arith, prefix_iff api.group k, prefix_iff involved_group k)

  -- After the cleanup a key has a value exactly if it had this value before, is a key of the event
  -- group or of the involved object's API group, that is the group, a slash and more, and is,
  -- whatever the letter case, neither the checksum nor the digest of the involved object's group.
  pub cleanup_metadata_iff :
      (k v : String)
      → (lookup k (cleanup_metadata api u event).metadata ≡ some v) ↔ (
          (lookup k event.metadata ≡ some v)
          × (IsOf api.group k ⊎ IsOf involved_group k)
          × (IsOther u involved_group api.checksum_key k
              × IsOther u involved_group api.digest_key k))
  cleanup_metadata_iff k v =
      let kept =
        kept_iff (is_excluded api u event k) (is_prefixed api event k) (lookup k event.metadata)
          v in
      let same = lookup-cleanup_metadata api u event k in
      (
        λ h.
            let (found, prefixed, other) = kept.0 (sym same ∙ h) in
            (found, (is_prefixed_iff k).0 prefixed, (is_excluded_iff k).0 other),
        λ (found, prefixed, other).
            same ∙ kept.1 (found, (is_prefixed_iff k).1 prefixed, (is_excluded_iff k).1 other),
      )
