-- ===== src/Server/Receiver/Reconcile/Laws.antt =====
-- What a request for reconciliation does: which objects it patches, in which order, and when it
-- succeeds.
use notification_controller.Prelude.{
  String, ◌<>◌, ◌==◌, ◌≡◌, ◌≢◌, ◌↔◌, ◌⊎◌, inl, inr, refl, ap, sym, subst, false, List, [], ◌∷◌,
  Option, none, some, Result, ok, err, wrap, arith, eq_iff, eq_cases, Result-cases,
}
use mathlib.Core.Option
use notification_controller.Prelude.Dict.{Dict}
use notification_controller.Api.{CrossNamespaceObjectReference}
use notification_controller.Server.Receiver.Reconcile.{
  GroupVersionKind, ObjectMetadata, Cluster, api_version_of, gvk_of, namespace_of, annotated,
  annotate, failed_to_annotate, annotate_all, annotate_matching, annotate_named,
  request_reconciliation,
}

-- An action that ends in words around an error works exactly if the action does.
wrapped_iff :
    {S : Type 0} (words : String) (p : S × Result (Unit {0})) (next : S)
    → ◌≡◌ {A = S × Result (Unit {0})} (p.0, wrap words p.1) (next, ok tt) ↔ (p ≡ (next, ok tt))
wrapped_iff words (s, ok _) next = (λ h. h, λ h. h)
wrapped_iff words (s, err e) next = (λ h. cc, λ h. cc)

module _ {S : Type 0} (c : Cluster S) where
  -- The objects are patched, each in its turn with the annotation of that time, all with success,
  -- and this takes the one state to the other.
  abbrev pub Annotates : S → List ObjectMetadata → S → Type 0
  Annotates s [] last = s ≡ last
  Annotates s (o ∷ os) last =
      (next : S) × (c.patch s o (annotated c s o) ≡ (next, ok tt)) × Annotates next os last

  annotate_iff :
      (s next : S) (o : ObjectMetadata)
      → (annotate c s o ≡ (next, ok tt)) ↔ (c.patch s o (annotated c s o) ≡ (next, ok tt))
  unfolding annotate
  annotate_iff s next o = wrapped_iff _ (c.patch s o (annotated c s o)) next

  -- A step and the rest of the loop.
  continued_iff :
      (p : S × Result (Unit {0})) (rest : S → S × Result (Unit {0})) (fail : String → String)
      (last : S)
      → (◌≡◌ {A = S × Result (Unit {0})}
          (elim p.1 [ ok _ ↦ rest p.0 | err e ↦ (p.0, err (fail e)) ])
          (last, ok tt))
        ↔ ((next : S) × (p ≡ (next, ok tt)) × (rest next ≡ (last, ok tt)))
  continued_iff (s, ok u) rest fail last = (
    λ h. (s, refl, h),
    λ (next, now, h). subst (λ n. rest n ≡ (last, ok tt)) (sym (ap (λ p. p.0) now)) h,
  )
  continued_iff (s, err e) rest fail last = (λ h. cc, λ (next, now, h). cc)

  annotate_all_iff :
      (s last : S) (namespace : String) (os : List ObjectMetadata)
      → (annotate_all c s namespace os ≡ (last, ok tt)) ↔ Annotates s os last
  unfolding annotate_all
  annotate_all_iff s last namespace [] = ground arith
  annotate_all_iff s last namespace (o ∷ os) =
      let split =
        continued_iff (annotate c s o) (λ n. annotate_all c n namespace os)
          (λ e. failed_to_annotate c o.gvk.kind o.name namespace <> e) last in
      (
        λ h.
            let (next, now, rest) = split.0 h in
            (next, (annotate_iff s next o).0 now, (annotate_all_iff next last namespace os).0 rest),
        λ (next, now, rest).
            split.1 (
              next,
              (annotate_iff s next o).1 now,
              (annotate_all_iff next last namespace os).1 rest,
            ),
      )

  named_iff :
      (s last : S) (gvk : GroupVersionKind) (namespace name : String)
      → (annotate_named c s gvk namespace name ≡ (last, ok tt)) ↔ (
          (o : ObjectMetadata) × (c.get s gvk (record { namespace = namespace; name = name })
            ≡ ok o)
          × Annotates s (o ∷ []) last)
  unfolding annotate_named
  named_iff s last gvk namespace name = (
    λ h. elim (Result-cases (c.get s gvk (record { namespace = namespace; name = name }))) [
      | inl (o, found) ↦
          let once =
            wrapped_iff (failed_to_annotate c gvk.kind name namespace) (annotate c s o) last in
          (
            o,
            found,
            (last, (annotate_iff s last o).0 (once.0 (rw (annotate_named, found) at h)), refl),
          )
      | inr (e, missing) ↦ ground arith
    ],
    λ (o, found, (next, now, same)).
        let once =
          wrapped_iff (failed_to_annotate c gvk.kind name namespace) (annotate c s o) last in
        rw (annotate_named, found)
          (once.1 (
            (annotate_iff s last o).1
              (subst (λ n. c.patch s o (annotated c s o) ≡ (n, ok tt)) same now))),
  )

  matching_iff :
      (s last : S) (gvk : GroupVersionKind) (namespace : String)
      (match_labels : Option (Dict String))
      → (annotate_matching c s gvk namespace match_labels ≡ (last, ok tt)) ↔ (
          (labels : Dict String) × (objects : List ObjectMetadata) × (match_labels ≡ some labels)
          × (c.list s gvk namespace labels ≡ ok objects)
          × Annotates s objects last)
  unfolding annotate_matching
  matching_iff s last gvk namespace none = (λ h. cc, λ (labels, objects, h, _, _). cc)
  matching_iff s last gvk namespace (some labels) = (
    λ h. elim (Result-cases (c.list s gvk namespace labels)) [
      | inl (objects, found) ↦ (
        labels,
        objects,
        refl,
        found,
        (annotate_all_iff s last namespace objects).0 (rw (annotate_matching, found) at h),
      )
      | inr (e, missing) ↦ ground arith
    ],
    λ (labels', objects, same, found, h).
        let listed : c.list s gvk namespace labels ≡ ok objects =
          rw (Option.some-injective _ _ same) found in
        rw (annotate_matching, listed) ((annotate_all_iff s last namespace objects).1 h),
  )

  -- The objects that a reference stands for: those that match its labels under the name "*", where
  -- it has labels, and the one of its name otherwise.
  abbrev pub Selects :
      S → GroupVersionKind → String → CrossNamespaceObjectReference → List ObjectMetadata → Type 0
  Selects s gvk namespace ref objects =
      ((ref.name ≡ "*")
        × ((labels : Dict String) × (ref.match_labels ≡ some labels)
            × (c.list s gvk namespace labels ≡ ok objects)))
      ⊎ ((ref.name ≢ "*")
          × ((o : ObjectMetadata) × (c.get s gvk (record { namespace = namespace; name = ref.name })
                ≡ ok o)
              × (objects ≡ o ∷ [])))

  -- A request for reconciliation succeeds exactly if the reference has an API version, of its own or
  -- by its kind, the objects that it stands for can be read, and each of them is patched in turn with
  -- success; and it leaves the state that these patches lead to.
  pub request_reconciliation_iff :
      (s last : S) (ref : CrossNamespaceObjectReference) (default_namespace : String)
      → (request_reconciliation c s ref default_namespace ≡ (last, ok tt)) ↔ (
          (api_version : String) × (objects : List ObjectMetadata) × (api_version_of ref
            ≡ ok api_version)
          × Selects s (gvk_of api_version ref.kind) (namespace_of ref default_namespace) ref objects
          × Annotates s objects last)
  unfolding request_reconciliation
  request_reconciliation_iff s last ref default_namespace =
      let namespace = namespace_of ref default_namespace in
      (
        λ h. elim (Result-cases (api_version_of ref)) [
          | inl (v, versioned) ↦ elim (eq_cases ref.name "*") [
            | inl wild ↦
                let (labels, objects, labelled, found, all) =
                  (matching_iff s last (gvk_of v ref.kind) namespace ref.match_labels).0
                    (rw (request_reconciliation, versioned, (eq_iff ref.name "*").1 wild) at h) in
                (v, objects, versioned, inl (wild, (labels, labelled, found)), all)
            | inr named ↦
                let (o, found, all) =
                  (named_iff s last (gvk_of v ref.kind) namespace ref.name).0
                    (rw (request_reconciliation, versioned, named) at h) in
                (
                  v,
                  o ∷ [],
                  versioned,
                  inr (ground (arith, eq_iff ref.name "*"), (o, found, refl)),
                  all,
                )
          ]
          | inr (e, missing) ↦ ground arith
        ],
        λ (v, objects, versioned, selected, all). elim selected [
          | inl (wild, (labels, labelled, found)) ↦
              rw (request_reconciliation, versioned, (eq_iff ref.name "*").1 wild)
                ((matching_iff s last (gvk_of v ref.kind) namespace ref.match_labels).1
                  (labels, objects, labelled, found, all))
          | inr (named, (o, found, one)) ↦
              let test : (ref.name == "*") ≡ false = ground (arith, eq_iff ref.name "*") in
              rw (request_reconciliation, versioned, test)
                ((named_iff s last (gvk_of v ref.kind) namespace ref.name).1
                  (o, found, subst (λ os. Annotates s os last) one all))
        ],
      )
