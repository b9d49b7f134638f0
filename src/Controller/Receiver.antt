-- ===== src/Controller/Receiver.antt =====
-- The reconciler of receivers, internal/controller/receiver_controller.go: `Reconcile` with its
-- deferred function, `reconcile`, `patch` and `token`. The conditions of package
-- fluxcd/pkg/runtime, the Kubernetes API and the hash are parameters.
pub mod Laws
pub mod Runs
use notification_controller.Prelude.{
  ℕ, ◌<>◌, ◌==◌, ◌&&◌, String, Bool, true, false, not, Option, none, some, is_some, List, [], ◌∷◌,
  if◌then◌else◌, Result, ok, err, ◌>>=◌, wrap,
}
use notification_controller.Prelude.Dict.{lookup, Dict}
use notification_controller.Prelude.Recorder.{Recorded, Subject, EventType, normal, warning}
use notification_controller.Api.{
  ObjectMeta, NamespacedName, Condition, Receiver, Secret, notification_finalizer, get_webhook_path,
  get_interval,
}
use notification_controller.Controller.{CtrlResult, no_requeue, Objects, new_aggregate}
use notification_controller.Controller.Migration.{Reconciled, error_of}

-- The functions of package conditions, on the conditions of an object, and the texts of package
-- meta: the types of conditions, the reasons and the annotation of a request for reconciliation.
pub record Conditions : Type 0 where
  pub mark_reconciling : String → String → List Condition → List Condition
  pub mark_true : String → String → String → List Condition → List Condition
  pub mark_false : String → String → String → List Condition → List Condition
  pub is_ready : List Condition → Bool
  pub is_true : List Condition → String → Bool
  pub is_false : List Condition → String → Bool
  pub has : List Condition → String → Bool
  pub get : List Condition → String → Option Condition
  pub set : List Condition → Condition → List Condition
  pub delete : List Condition → String → List Condition
  pub ready_condition : String
  pub reconciling_condition : String
  pub stalled_condition : String
  pub progressing_reason : String
  pub progressing_with_retry_reason : String
  pub succeeded_reason : String
  pub failed_reason : String
  -- meta.ReconcileAnnotationValue
  pub reconcile_annotation_value : Dict String → Option String

abbrev pub token_not_found_reason : String
token_not_found_reason = "TokenNotFound"

-- The Kubernetes API: r.Get of a receiver and of a secret, and the serial patcher's Patch from the
-- receiver it was made with; and how fmt writes a name and a duration.
pub record ReceiverStore (S : Type 0) : Type 0 where
  pub get : S → NamespacedName → Result Receiver
  pub get_secret : S → NamespacedName → Result Secret
  pub patch : S → Receiver → Receiver → S × Result (Unit {0})
  pub show_name : NamespacedName → String
  pub show_duration : ℕ → String
  pub sha256_hex : String → String

-- What the reconciler's body gives: the object as it changed it, the result and the error.
pub record Progress : Type 0 where
  pub object : Receiver
  pub result : CtrlResult
  pub error : Option String

abbrev pub with_conditions : List Condition → Receiver → Receiver
with_conditions cs obj = record obj { status = record obj.status { conditions = cs } }

abbrev pub with_webhook_path : String → Receiver → Receiver
with_webhook_path path obj = record obj { status = record obj.status { webhook_path = path } }

abbrev pub with_finalizers : List String → Receiver → Receiver
with_finalizers fs obj = record obj { meta = record obj.meta { finalizers = fs } }

abbrev pub subject_of : Receiver → Subject
subject_of obj = record { kind = "Receiver"; namespace = obj.meta.namespace; name = obj.meta.name }

module _ (c : Conditions) where
  -- The steps of `patch` before the object is patched. `conditions.Get` gives a condition where
  -- `conditions.Has` says so.
  unfoldable pub handled : Receiver → Receiver
  handled obj = elim (c.reconcile_annotation_value obj.meta.annotations) [
    | some v ↦ record obj { status = record obj.status { last_handled_reconcile_at = v } }
    | none ↦ obj
  ]

  unfoldable pub observed : Receiver → Receiver
  observed obj =
      if c.is_true obj.status.conditions c.ready_condition
      then record obj {
        status = record obj.status {
          conditions = c.delete obj.status.conditions c.reconciling_condition;
          observed_generation = obj.meta.generation;
        };
      }
      else obj

  unfoldable pub retrying : Receiver → Receiver
  retrying obj =
      if c.is_false obj.status.conditions c.ready_condition
        && c.has obj.status.conditions c.reconciling_condition
      then (elim (c.get obj.status.conditions c.reconciling_condition) [
        | some rc ↦
            with_conditions
              (c.set obj.status.conditions (record rc { reason = c.progressing_with_retry_reason }))
              obj
        | none ↦ obj
      ])
      else obj

  unfoldable pub summarised : Receiver → Receiver
  unfolding handled observed retrying
  summarised obj = retrying (observed (handled obj))

module _ {S : Type 0} (o : Objects) (c : Conditions) (store : ReceiverStore S) where
  unfoldable pub token : S → Receiver → Result String
  token s receiver =
      let name : NamespacedName = record {
        namespace = receiver.meta.namespace;
        name = receiver.spec.secret_ref;
      } in
      wrap ("unable to read token from secret '" <> (store.show_name name <> "' error: "))
        (store.get_secret s name)
      >>= λ secret. elim (lookup "token" secret.entries) [
        | some value ↦ ok value
        | none ↦
            err ("invalid '" <> (store.show_name name <> "' secret data: required fields 'token'"))
      ]

  abbrev pub initialized : String → String
  initialized webhook_path = "Receiver initialized for path: " <> webhook_path

  unfoldable pub reconcile_tasks : S → Receiver → Progress
  unfolding token
  reconcile_tasks s obj =
      let marked =
        c.mark_reconciling c.progressing_reason "Reconciliation in progress"
          obj.status.conditions in
      elim (token s obj) [
        | err e ↦ record {
          object = with_webhook_path "" (
              with_conditions (c.mark_false c.ready_condition token_not_found_reason e marked) obj);
          result = record { requeue = true; requeue_after = 0 };
          error = some e;
        }
        | ok t ↦
            let webhook_path = get_webhook_path store.sha256_hex obj t in
            let ready =
              with_conditions
                (c.mark_true c.ready_condition c.succeeded_reason (initialized webhook_path) marked)
                obj in
            record {
              object =
                  if not (obj.status.webhook_path == webhook_path)
                  then with_webhook_path webhook_path ready
                  else ready;
              result = record { requeue = false; requeue_after = get_interval obj };
              error = none;
            }
      ]

  -- `Reconcile` from the object it got, without the deferred function.
  unfoldable pub reconcile_object : S → Receiver → Progress
  unfolding reconcile_tasks
  reconcile_object s obj =
      if obj.meta.deleting
      then record {
        object =
            with_finalizers (o.remove_finalizer obj.meta.finalizers notification_finalizer) obj;
        result = no_requeue;
        error = none;
      }
      else (if not (o.contains_finalizer obj.meta.finalizers notification_finalizer)
          then record {
            object =
                with_finalizers (o.add_finalizer obj.meta.finalizers notification_finalizer) obj;
            result = record { requeue = true; requeue_after = 0 };
            error = none;
          }
          else (if obj.spec.suspend
              then record { object = obj; result = no_requeue; error = none }
              else reconcile_tasks s obj))

  unfoldable pub patch : S → Receiver → Receiver → S × Option String
  unfolding summarised
  patch s original obj =
      let object = summarised c obj in
      let (after, patched) = store.patch s original object in
      (
        after,
        elim patched [
          | ok _ ↦ none
          | err e ↦ if object.meta.deleting then o.filter_not_found e else some e
        ],
      )

  -- The events of the deferred function.
  unfoldable pub reported : Receiver → Option String → List Recorded
  reported obj (some e) =
      record {
        subject = subject_of obj;
        type = warning;
        reason = c.failed_reason;
        message = e;
        annotations = [];
      }
      ∷ []
  reported obj none =
      if c.is_ready obj.status.conditions
      then record {
        subject = subject_of obj;
        type = normal;
        reason = c.succeeded_reason;
        message = "Reconciliation finished, next run in " <> store.show_duration (get_interval obj);
        annotations = [];
      }
        ∷ []
      else []

  unfoldable pub reconcile_receiver : S → NamespacedName → Reconciled S
  unfolding reconcile_object patch reported
  reconcile_receiver s request = elim (store.get s request) [
    | err e ↦ record { state = s; result = no_requeue; error = o.ignore_not_found e; recorded = [] }
    | ok obj ↦
        let progress = reconcile_object s obj in
        let (after, patch_error) = patch s obj progress.object in
        let error = new_aggregate o progress.error patch_error in
        record {
          state = after;
          result = progress.result;
          error = error;
          recorded = reported (summarised c progress.object) error;
        }
  ]
