-- ===== src/Server/Receiver/Reconcile.antt =====
-- How the receiver server requests the reconciliation of a resource: `requestReconciliation`,
-- `annotate` and `getGroupVersion`. The Kubernetes API is a parameter: a state of the cluster, with
-- the calls that read it and `patch`, which gives the next state.
pub mod Laws
pub mod Version
use notification_controller.Prelude.{
  ℕ, String, ◌<>◌, ◌==◌, Bool, true, false, List, [], ◌∷◌, Option, none, some, if◌then◌else◌,
  Result, ok, err, wrap, split, get_or,
}
use notification_controller.Prelude.Dict.{Dict, lookup, insert}
use notification_controller.Api.{NamespacedName, CrossNamespaceObjectReference}

-- schema.GroupVersionKind
pub record GroupVersionKind : Type 0 where
  pub group : String
  pub version : String
  pub kind : String

-- metav1.PartialObjectMetadata, as far as it is read or written.
pub record ObjectMetadata : Type 0 where
  pub gvk : GroupVersionKind
  pub namespace : String
  pub name : String
  pub annotations : Dict String

pub record Cluster (S : Type 0) : Type 0 where
  -- s.kubeClient.List in a namespace by labels
  pub list : S → GroupVersionKind → String → Dict String → Result (List ObjectMetadata)
  -- s.kubeClient.Get
  pub get : S → GroupVersionKind → NamespacedName → Result ObjectMetadata
  -- s.kubeClient.Patch of the second object, with the patch from the first
  pub patch : S → ObjectMetadata → ObjectMetadata → S × Result (Unit {0})
  -- metav1.Now().String()
  pub now : S → String
  -- meta.ReconcileRequestAnnotation
  pub reconcile_request_annotation : String
  -- how fmt writes a name, a quoted text and a map
  pub show_name : NamespacedName → String
  pub quote : String → String
  pub quote_labels : Dict String → String

unfoldable pub default_flux_api_versions : Dict String
default_flux_api_versions =
    ("Bucket", "source.toolkit.fluxcd.io/v1")
    ∷ ("HelmChart", "source.toolkit.fluxcd.io/v1")
    ∷ ("HelmRepository", "source.toolkit.fluxcd.io/v1")
    ∷ ("GitRepository", "source.toolkit.fluxcd.io/v1")
    ∷ ("OCIRepository", "source.toolkit.fluxcd.io/v1beta2")
    ∷ ("ImageRepository", "image.toolkit.fluxcd.io/v1beta2")
    ∷ []

-- A missing key of a Go map of texts is read as the empty text.
unfoldable pub api_version_of : CrossNamespaceObjectReference → Result String
unfolding default_flux_api_versions
api_version_of resource =
    let default = get_or (lookup resource.kind default_flux_api_versions) "" in
    if resource.api_version == ""
    then (if default == ""
        then err ("apiVersion must be specified for kind '" <> (resource.kind <> "'"))
        else ok default)
    else ok resource.api_version

-- `strings.Split` at "/" and its first two parts.
unfoldable pub get_group_version : String → String × String
get_group_version s = elim (split 47 s) [
  | [] ↦ ("", "")
  | version ∷ [] ↦ ("", version)
  | group ∷ (version ∷ _) ↦ (group, version)
]

-- The reference's kind in the group and version of a text.
unfoldable pub gvk_of : String → String → GroupVersionKind
unfolding get_group_version
gvk_of api_version kind =
    let (group, version) = get_group_version api_version in
    record { group = group; version = version; kind = kind }

unfoldable pub namespace_of : CrossNamespaceObjectReference → String → String
namespace_of resource default_namespace =
    if resource.namespace == "" then default_namespace else resource.namespace

module _ {S : Type 0} (c : Cluster S) where
  -- The object with the annotation that requests its reconciliation.
  abbrev pub annotated : S → ObjectMetadata → ObjectMetadata
  annotated s resource = record resource {
    annotations = insert c.reconcile_request_annotation (c.now s) resource.annotations;
  }

  unfoldable pub annotate : S → ObjectMetadata → S × Result (Unit {0})
  annotate s resource =
      let (after, patched) = c.patch s resource (annotated s resource) in
      (
        after,
        wrap
            ("unable to annotate "
              <> (resource.gvk.kind
                  <> (" '"
                      <> (c.show_name
                            (record { namespace = resource.namespace; name = resource.name })
                          <> "' error: "))))
            patched,
      )

  -- The words for a resource by its kind, its name and a namespace.
  abbrev pub failed_to_annotate : String → String → String → String
  failed_to_annotate kind name namespace =
      "failed to annotate resource: '" <> (kind <> ("/" <> (name <> ("." <> (namespace <> "': ")))))

  -- The loop over the resources of a list; it ends at the first failure.
  unfoldable pub annotate_all : S → String → List ObjectMetadata → S × Result (Unit {0})
  unfolding annotate
  annotate_all s namespace [] = (s, ok tt)
  annotate_all s namespace (resource ∷ resources) =
      let (after, done) = annotate s resource in
      elim done [
        | ok _ ↦ annotate_all after namespace resources
        | err e ↦ (after, err (failed_to_annotate resource.gvk.kind resource.name namespace <> e))
      ]

  -- The resources that match the labels.
  unfoldable pub annotate_matching :
      S → GroupVersionKind → String → Option (Dict String) → S × Result (Unit {0})
  unfolding annotate_all
  annotate_matching s gvk namespace match_labels = elim match_labels [
    | none ↦ (s, err "matchLabels field not set when using wildcard '*' as name")
    | some labels ↦ elim (c.list s gvk namespace labels) [
      | err e ↦ (
        s,
        err (
            "failed listing resources in namespace "
            <> (c.quote namespace
                <> (" by matching labels " <> (c.quote_labels labels <> (": " <> e))))),
      )
      | ok resources ↦ annotate_all s namespace resources
    ]
  ]

  -- The resource of the name.
  unfoldable pub annotate_named : S → GroupVersionKind → String → String → S × Result (Unit {0})
  unfolding annotate
  annotate_named s gvk namespace name =
      let object_key : NamespacedName = record { namespace = namespace; name = name } in
      elim (c.get s gvk object_key) [
        | err e ↦ (
          s,
          err (
              "unable to read "
              <> (gvk.kind <> (" '" <> (c.show_name object_key <> ("' error: " <> e))))),
        )
        | ok u ↦
            let (after, done) = annotate s u in
            (after, wrap (failed_to_annotate gvk.kind name namespace) done)
      ]

  unfoldable pub request_reconciliation :
      S → CrossNamespaceObjectReference → String → S × Result (Unit {0})
  unfolding annotate_matching annotate_named
  request_reconciliation s resource default_namespace =
      let namespace = namespace_of resource default_namespace in
      elim (api_version_of resource) [
        | err e ↦ (s, err e)
        | ok api_version ↦
            let gvk = gvk_of api_version resource.kind in
            if resource.name == "*"
            then annotate_matching s gvk namespace resource.match_labels
            else annotate_named s gvk namespace resource.name
      ]
