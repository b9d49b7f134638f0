-- ===== src/Server/Metadata/Conflicts.antt =====
-- The warning about keys that more than one source of metadata has.
use notification_controller.Prelude.{
  ℕ, ◌<◌, String, ◌≡◌, ◌≢◌, refl, ◌∙◌, ◌↔◌, ap, List, [], ◌∷◌, ◌++◌, Option, none, some,
  if◌then◌else◌, arith, eq_iff, ltb, length, join, get_or, trim_prefix, ◌+◌, length-append,
}
use notification_controller.Prelude.Dict.{Dict, lookup, insert-NodupKeys, NodupKeys}
use notification_controller.Api.{Alert}
use notification_controller.Api.Event.{Event, EventApi}
use notification_controller.Server.Metadata.{
  Combined, sources_of, put, put_prefixed, put_all, put_summary, combine, combine_event_metadata,
  conflict_annotations,
}
use notification_controller.Server.Metadata.Combine.{
  from_object, from_summary, from_alert, from_event, sources_of-combine, add_source,
}

lookup-conflict_annotations :
    (j : String) (m : Dict (List String))
    → NodupKeys m
    → lookup j (conflict_annotations m)
      ≡ (if ltb 1 (length (sources_of j m)) then some (join ", " (sources_of j m)) else none)
unfolding lookup conflict_annotations sources_of
lookup-conflict_annotations j [] u = refl
lookup-conflict_annotations j ((k, sources) ∷ m) (fresh, u) =
    ground (arith, lookup-conflict_annotations j m u, eq_iff k j)

put_prefixed-NodupKeys :
    (prefix source : String) (m : Dict String) (c : Combined)
    → NodupKeys c.sources
    → NodupKeys (put_prefixed prefix source m c).sources
unfolding put_prefixed put
put_prefixed-NodupKeys prefix source [] c u = u
put_prefixed-NodupKeys prefix source ((k, v) ∷ m) c u = put_prefixed-NodupKeys prefix source m _ (
    ground (
      arith,
      insert-NodupKeys (trim_prefix k prefix)
          (get_or (lookup (trim_prefix k prefix) c.sources) [] ++ source ∷ []) c.sources u,
    ))

put_all-NodupKeys :
    (source : String) (m : Dict String) (c : Combined)
    → NodupKeys c.sources
    → NodupKeys (put_all source m c).sources
unfolding put_all put
put_all-NodupKeys source [] c u = u
put_all-NodupKeys source ((k, v) ∷ m) c u =
    put_all-NodupKeys source m _ (insert-NodupKeys k _ c.sources u)

put_summary-NodupKeys :
    (source summary : String) (c : Combined)
    → NodupKeys c.sources
    → NodupKeys (put_summary source summary c).sources
unfolding put_summary put
put_summary-NodupKeys source summary c u =
    ground (
      arith,
      insert-NodupKeys "summary" (sources_of "summary" c.sources ++ source ∷ []) c.sources u,
    )

combine-NodupKeys :
    (api : EventApi) (event : Event) (alert : Alert) → NodupKeys (combine api event alert).sources
unfolding combine
combine-NodupKeys api event alert =
    put_prefixed-NodupKeys _ _ _ _
      (put_summary-NodupKeys _ _ _ (put_all-NodupKeys _ _ _ (put_prefixed-NodupKeys _ _ _ _ tt)))

abbrev count_some : Option String → ℕ
count_some none = 0
count_some (some _) = 1

-- How many of the four sources have a key.
abbrev pub number_of_sources : EventApi → Event → Alert → String → ℕ
number_of_sources api event alert j =
    count_some (from_object api event alert j)
    + count_some (from_summary api event alert j)
    + count_some (from_alert api event alert j)
    + count_some (from_event api event alert j)

length-add_source :
    (o : Option String) (source : String) (old : List String)
    → length (add_source o source old) ≡ count_some o + length old
length-add_source none source old = omega arith
length-add_source (some v) source old = omega (arith, length-append old (source ∷ []))

length-add_sources :
    (a b c d : Option String) (s t x y : String)
    → length (add_source a s (add_source b t (add_source c x (add_source d y []))))
      ≡ count_some a + count_some b + count_some c + count_some d
length-add_sources a b c d s t x y =
    rw (length-add_source a, length-add_source b, length-add_source c, length-add_source d)
      (omega arith)

length-sources_of :
    (api : EventApi) (event : Event) (alert : Alert) (j : String)
    → NodupKeys event.metadata
    → NodupKeys alert.spec.event_metadata
    → length (sources_of j (combine api event alert).sources) ≡ number_of_sources api event alert j
length-sources_of api event alert j u w =
    ap length (sources_of-combine api event alert j u w)
    ∙ length-add_sources (from_object api event alert j) (from_summary api event alert j)
        (from_alert api event alert j) (from_event api event alert j) _ _ _ _

-- The warning names a key exactly when at least two of the four sources have it. The maps of
-- the event and of the alert have each key once.
pub conflict_iff :
    (api : EventApi) (event : Event) (alert : Alert) (j : String)
    → NodupKeys event.metadata
    → NodupKeys alert.spec.event_metadata
    → (lookup j (combine_event_metadata api event alert).1 ≢ none)
      ↔ (1 < number_of_sources api event alert j)
unfolding combine_event_metadata
conflict_iff api event alert j u w = ground (
  arith,
  lookup-conflict_annotations j (combine api event alert).sources
      (combine-NodupKeys api event alert),
  length-sources_of api event alert j u w,
)
