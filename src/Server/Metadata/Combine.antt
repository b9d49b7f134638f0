-- ===== src/Server/Metadata/Combine.antt =====
-- What the combined metadata of an event hold for each key, by the precedence of its sources.
use notification_controller.Prelude.{
  String, ◌<>◌, ◌==◌, ◌≡◌, refl, ◌∙◌, inl, inr, ap, false, List, [], ◌∷◌, ◌++◌, Option, none, some,
  if◌then◌else◌, has_prefix, trim_prefix, strip, strip-append, strip_sound, get_or, arith, eq_iff,
  eq_refl, eq_cases, Option-cases,
}
use notification_controller.Prelude.Dict.{Dict, lookup, lookup-insert, NodupKeys}
use notification_controller.Api.{Alert}
use notification_controller.Api.Event.{Event, EventApi}
use notification_controller.Server.Metadata.{
  Combined, sources_of, put, put_prefixed, put_all, put_summary, combine, event_group_prefix,
  object_group_prefix, source_event_group, source_alert_event_metadata, source_alert_summary,
  source_object_group,
}

-- The value of a key in one source of metadata, and in an earlier one.
abbrev pub over : Option String → Option String → Option String
over none old = old
over (some v) old = some v

abbrev pub add_source : Option String → String → List String → List String
add_source none source old = old
add_source (some v) source old = old ++ source ∷ []

pub put-metadata :
    (key v source j : String) (c : Combined)
    → lookup j (put key v source c).metadata ≡ (if key == j then some v else lookup j c.metadata)
unfolding put
put-metadata key v source j c = lookup-insert j key v c.metadata

pub put-sources :
    (key v source j : String) (c : Combined)
    → sources_of j (put key v source c).sources
      ≡ (if key == j then sources_of j c.sources ++ source ∷ [] else sources_of j c.sources)
unfolding put sources_of
put-sources key v source j c = ground (
  arith,
  lookup-insert j key (get_or (lookup key c.sources) [] ++ source ∷ []) c.sources,
  eq_iff key j,
)

over-none : (o : Option String) → over o none ≡ o
over-none none = refl
over-none (some v) = refl

lookup-nil : (j : String) → lookup {V = String} j [] ≡ none
unfolding lookup
lookup-nil j = refl

sources_of-nil : (j : String) → sources_of j [] ≡ []
unfolding sources_of lookup
sources_of-nil j = refl

-- One round of the loop over the event's metadata.
abbrev put_if_prefixed : String → String → String → String → Combined → Combined
put_if_prefixed prefix source k v c =
    if has_prefix k prefix then put (trim_prefix k prefix) v source c else c

strip-ne :
    (k prefix j r : String)
    → (k == (prefix <> j)) ≡ false
    → strip k prefix ≡ some r
    → (r == j) ≡ false
strip-ne k prefix j r h e = elim (eq_cases r j) [
  | inl same ↦
      ground
        (arith, (eq_iff k (prefix <> j)).1 (strip_sound k prefix r e ∙ ap (λ t. prefix <> t) same))
  | inr other ↦ other
]

put_if_prefixed-metadata :
    (prefix source k v j : String) (c : Combined)
    → lookup j (put_if_prefixed prefix source k v c).metadata
      ≡ (if k == (prefix <> j) then some v else lookup j c.metadata)
put_if_prefixed-metadata prefix source k v j c = elim (eq_cases k (prefix <> j)) [
  | inl same ↦
      rw (same, strip-append, eq_refl (prefix <> j))
        (ground (arith, put-metadata j v source j c, eq_refl j))
  | inr other ↦ elim (Option-cases (strip k prefix)) [
    | inl missed ↦ rw (missed, other)
    | inr (r, found) ↦
        rw (found, other)
          (ground (arith, put-metadata r v source j c, strip-ne k prefix j r other found))
  ]
]

put_if_prefixed-sources :
    (prefix source k v j : String) (c : Combined)
    → sources_of j (put_if_prefixed prefix source k v c).sources ≡ (
        if k == (prefix <> j)
        then sources_of j c.sources ++ source ∷ []
        else sources_of j c.sources)
put_if_prefixed-sources prefix source k v j c = elim (eq_cases k (prefix <> j)) [
  | inl same ↦
      rw (same, strip-append, eq_refl (prefix <> j))
        (ground (arith, put-sources j v source j c, eq_refl j))
  | inr other ↦ elim (Option-cases (strip k prefix)) [
    | inl missed ↦ rw (missed, other)
    | inr (r, found) ↦
        rw (found, other)
          (ground (arith, put-sources r v source j c, strip-ne k prefix j r other found))
  ]
]

pub put_prefixed-metadata :
    (prefix source j : String) (m : Dict String) (c : Combined)
    → NodupKeys m
    → lookup j (put_prefixed prefix source m c).metadata
      ≡ over (lookup (prefix <> j) m) (lookup j c.metadata)
unfolding put_prefixed lookup
put_prefixed-metadata prefix source j [] c u = refl
put_prefixed-metadata prefix source j ((k, v) ∷ m) c (fresh, u) = ground (
  arith,
  put_prefixed-metadata prefix source j m (put_if_prefixed prefix source k v c) u,
  put_if_prefixed-metadata prefix source k v j c,
  eq_iff k (prefix <> j),
)

pub put_prefixed-sources :
    (prefix source j : String) (m : Dict String) (c : Combined)
    → NodupKeys m
    → sources_of j (put_prefixed prefix source m c).sources
      ≡ add_source (lookup (prefix <> j) m) source (sources_of j c.sources)
unfolding put_prefixed lookup
put_prefixed-sources prefix source j [] c u = refl
put_prefixed-sources prefix source j ((k, v) ∷ m) c (fresh, u) = ground (
  arith,
  put_prefixed-sources prefix source j m (put_if_prefixed prefix source k v c) u,
  put_if_prefixed-sources prefix source k v j c,
  eq_iff k (prefix <> j),
)

pub put_all-metadata :
    (source j : String) (m : Dict String) (c : Combined)
    → NodupKeys m
    → lookup j (put_all source m c).metadata ≡ over (lookup j m) (lookup j c.metadata)
unfolding put_all lookup
put_all-metadata source j [] c u = refl
put_all-metadata source j ((k, v) ∷ m) c (fresh, u) = ground (
  arith,
  put_all-metadata source j m (put k v source c) u,
  put-metadata k v source j c,
  eq_iff k j,
)

pub put_all-sources :
    (source j : String) (m : Dict String) (c : Combined)
    → NodupKeys m
    → sources_of j (put_all source m c).sources
      ≡ add_source (lookup j m) source (sources_of j c.sources)
unfolding put_all lookup
put_all-sources source j [] c u = refl
put_all-sources source j ((k, v) ∷ m) c (fresh, u) =
    ground (
      arith,
      put_all-sources source j m (put k v source c) u,
      put-sources k v source j c,
      eq_iff k j,
    )

-- The alert's summary as a source of metadata.
abbrev pub summary_value : String → String → Option String
summary_value summary j =
    if summary == "" then none else if "summary" == j then some summary else none

pub put_summary-metadata :
    (source summary j : String) (c : Combined)
    → lookup j (put_summary source summary c).metadata
      ≡ over (summary_value summary j) (lookup j c.metadata)
unfolding put_summary
put_summary-metadata source summary j c = ground (arith, put-metadata "summary" summary source j c)

pub put_summary-sources :
    (source summary j : String) (c : Combined)
    → sources_of j (put_summary source summary c).sources
      ≡ add_source (summary_value summary j) source (sources_of j c.sources)
unfolding put_summary
put_summary-sources source summary j c = ground (arith, put-sources "summary" summary source j c)

module _ (api : EventApi) (event : Event) (alert : Alert) where
  -- The four sources of a key, from the highest precedence to the lowest.
  abbrev pub from_object : String → Option String
  from_object j = lookup (object_group_prefix api event <> j) event.metadata

  abbrev pub from_summary : String → Option String
  from_summary j = summary_value alert.spec.summary j

  abbrev pub from_alert : String → Option String
  from_alert j = lookup j alert.spec.event_metadata

  abbrev pub from_event : String → Option String
  from_event j = lookup (event_group_prefix api <> j) event.metadata

  -- The first source that has the key wins: the involved object's controller, then the alert's
  -- summary, then the alert's metadata, then the annotations of the event API group. The maps of
  -- the event and of the alert have each key once.
  pub lookup-combine :
      (j : String)
      → NodupKeys event.metadata
      → NodupKeys alert.spec.event_metadata
      → lookup j (combine api event alert).metadata
        ≡ over (from_object j) (over (from_summary j) (over (from_alert j) (from_event j)))
  unfolding combine
  lookup-combine j u w =
      rw
        (
          put_prefixed-metadata _ _ _ _ _ u,
          put_summary-metadata,
          put_all-metadata _ _ _ _ w,
          put_prefixed-metadata _ _ _ _ _ u,
          lookup-nil,
        )
        (ground (arith, over-none (from_event j)))

  -- The sources that are recorded for a key are those that have it, from the lowest precedence.
  -- The maps of the event and of the alert have each key once.
  pub sources_of-combine :
      (j : String)
      → NodupKeys event.metadata
      → NodupKeys alert.spec.event_metadata
      → sources_of j (combine api event alert).sources
        ≡ add_source (from_object j) source_object_group (
            add_source (from_summary j) source_alert_summary (
              add_source
                (from_alert j)
                source_alert_event_metadata
                (add_source (from_event j) source_event_group [])))
  unfolding combine
  sources_of-combine j u w = rw (
    put_prefixed-sources _ _ _ _ _ u,
    put_summary-sources,
    put_all-sources _ _ _ _ w,
    put_prefixed-sources _ _ _ _ _ u,
    sources_of-nil,
  )
