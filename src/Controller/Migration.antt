-- ===== src/Controller/Migration.antt =====
-- The reconcilers of alerts and providers, which only take the finalizer of an earlier version away,
-- and the predicate that filters their events: alert_controller.go, provider_controller.go and
-- finalizer_predicate.go of internal/controller. The two reconcilers differ in the type of the
-- object and its name, so they are one function over both.
pub mod Laws
use notification_controller.Prelude.{
  ◌<>◌, String, Bool, true, false, not, ◌&&◌, Option, none, some, List, [], ◌∷◌, if◌then◌else◌,
  Result, ok, err,
}
use notification_controller.Prelude.Recorder.{Recorded, Subject, EventType, normal}
use notification_controller.Api.{
  ObjectMeta, NamespacedName, Alert, Provider, notification_finalizer,
}
use notification_controller.Controller.{CtrlResult, no_requeue, Objects}

-- An API object of a kind: the fields that the reconcilers use.
pub record Kind (O : Type 0) : Type 0 where
  pub name : String
  pub meta : O → ObjectMeta
  pub suspend : O → Bool
  pub set_finalizers : List String → O → O

abbrev with_finalizers : List String → ObjectMeta → ObjectMeta
with_finalizers fs m = record m { finalizers = fs }

abbrev pub alert_kind : Kind Alert
alert_kind = record {
  name = "Alert";
  meta = λ a. a.meta;
  suspend = λ a. a.spec.suspend;
  set_finalizers = λ fs a. record a { meta = with_finalizers fs a.meta };
}

abbrev pub provider_kind : Kind Provider
provider_kind = record {
  name = "Provider";
  meta = λ p. p.meta;
  suspend = λ p. p.spec.suspend;
  set_finalizers = λ fs p. record p { meta = with_finalizers fs p.meta };
}

-- The Kubernetes API for one kind: r.Get, patch.NewHelper, which fails or not, and the helper's
-- Patch from the object it was made with to the object it is given.
pub record Store (S O : Type 0) : Type 0 where
  pub get : S → NamespacedName → Result O
  pub new_helper : S → O → Result (Unit {0})
  pub patch : S → O → O → S × Result (Unit {0})

pub record Reconciled (S : Type 0) : Type 0 where
  pub state : S
  pub result : CtrlResult
  pub error : Option String
  pub recorded : List Recorded

abbrev pub error_of : {A : Type 0} → Result A → Option String
error_of (ok _) = none
error_of (err e) = some e

module _ {S O : Type 0} (o : Objects) (k : Kind O) (store : Store S O) where
  abbrev untouched : S → Option String → Reconciled S
  untouched s e = record { state = s; result = no_requeue; error = e; recorded = [] }

  unfoldable pub reconcile : S → NamespacedName → Reconciled S
  reconcile s request = elim (store.get s request) [
    | err e ↦ untouched s (o.ignore_not_found e)
    | ok obj ↦
        if not (o.contains_finalizer (k.meta obj).finalizers notification_finalizer)
        then untouched s none
        else (if k.suspend obj && not (k.meta obj).deleting
            then untouched s none
            else (elim (store.new_helper s obj) [
              | err e ↦ untouched s (some e)
              | ok _ ↦
                  let migrated =
                    k.set_finalizers
                      (o.remove_finalizer (k.meta obj).finalizers notification_finalizer) obj in
                  let (after, patched) = store.patch s obj migrated in
                  record {
                    state = after;
                    result = no_requeue;
                    error = error_of patched;
                    recorded =
                        record {
                          subject = record {
                            kind = k.name;
                            namespace = (k.meta obj).namespace;
                            name = (k.meta obj).name;
                          };
                          type = normal;
                          reason = "Migration";
                          message =
                              "removed finalizer from "
                              <> (k.name <> (" to migrate to static " <> k.name));
                          annotations = [];
                        }
                        ∷ [];
                  }
            ]))
  ]

-- alert_controller.go and provider_controller.go
unfoldable pub reconcile_alert :
    {S : Type 0} → Objects → Store S Alert → S → NamespacedName → Reconciled S
unfolding reconcile
reconcile_alert o = reconcile o alert_kind

unfoldable pub reconcile_provider :
    {S : Type 0} → Objects → Store S Provider → S → NamespacedName → Reconciled S
unfolding reconcile
reconcile_provider o = reconcile o provider_kind

-- The predicate's Create, Update and Delete, on the metadata of the event's object.
unfoldable pub predicate_create : Objects → ObjectMeta → Bool
predicate_create o object = o.contains_finalizer object.finalizers notification_finalizer

unfoldable pub predicate_update : Objects → Option ObjectMeta → Bool
predicate_update o none = false
predicate_update o (some object_new) =
    o.contains_finalizer object_new.finalizers notification_finalizer

unfoldable pub predicate_delete : Objects → ObjectMeta → Bool
predicate_delete o object = o.contains_finalizer object.finalizers notification_finalizer
