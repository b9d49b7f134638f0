-- ===== src/Tests/Controllers.antt =====
-- Tests of the controllers: conditions as a list with at most one of each type.
use notification_controller.Prelude.{
  not, ne_of_test, String, ◌<>◌, ◌==◌, ◌≡◌, ◌≢◌, inl, inr, refl, ap, ◌∙◌, Bool, true, false, List,
  [], ◌∷◌, Option, none, some, is_some, Result, ok, err, if◌then◌else◌, eq_refl, eq_cases, eq_iff,
  arith, length, sym,
}
use notification_controller.Prelude.Dict.{lookup}
use notification_controller.Api.{
  Condition, Receiver, Secret, NamespacedName, Alert, notification_finalizer, get_webhook_path,
  get_interval,
}
use notification_controller.Controller.{IsFinalizers, Objects}
use notification_controller.Controller.Migration.{
  Store, Reconciled, reconcile, alert_kind, reconcile_alert,
}
use notification_controller.Controller.Migration.Laws.{IsDue, reconcile-IsDue}
use notification_controller.Controller.Receiver.{
  Conditions, ReceiverStore, token, initialized, summarised, reconcile_tasks,
}
use notification_controller.Controller.Receiver.Laws.{
  has_status, shows_ready, IsConditions, IsInitialized, IsFailed, reconcile_tasks-IsFailed,
}
use notification_controller.Controller.Receiver.Runs.{
  reconcile_object-contains, reconcile_receiver-IsInitialized,
}
use notification_controller.Controller.Receiver.{reconcile_object, reconcile_receiver}
use notification_controller.Controller.Migration.{error_of}
use notification_controller.Tests.{alert, meta_of, reference_of}

abbrev find : List Condition → String → Option Condition
find [] t = none
find (x ∷ xs) t = if x.type == t then some x else find xs t

abbrev remove : List Condition → String → List Condition
remove [] t = []
remove (x ∷ xs) t = if x.type == t then remove xs t else x ∷ remove xs t

abbrev mark : String → String → String → String → List Condition → List Condition
mark status t reason message cs =
    record { type = t; status = status; reason = reason; message = message } ∷ cs

abbrev pub conditions : Conditions
conditions = record {
  mark_reconciling =
      λ reason message cs. mark "True" "Reconciling" reason message (remove cs "Stalled");
  mark_true = mark "True";
  mark_false = mark "False";
  is_ready = λ cs. shows_ready (find cs "Ready") (find cs "Reconciling") (find cs "Stalled");
  is_true = λ cs t. has_status (find cs t) "True";
  is_false = λ cs t. has_status (find cs t) "False";
  has = λ cs t. is_some (find cs t);
  get = find;
  set = λ cs x. x ∷ cs;
  delete = remove;
  ready_condition = "Ready";
  reconciling_condition = "Reconciling";
  stalled_condition = "Stalled";
  progressing_reason = "Progressing";
  progressing_with_retry_reason = "ProgressingWithRetry";
  succeeded_reason = "Succeeded";
  failed_reason = "Failed";
  reconcile_annotation_value = lookup "reconcile.fluxcd.io/requestedAt";
}

find_first : (x : Condition) (cs : List Condition) → find (x ∷ cs) x.type ≡ some x
find_first x cs = rw (eq_refl x.type) refl

find_other :
    (x : Condition) (cs : List Condition) (t : String) → x.type ≢ t → find (x ∷ cs) t ≡ find cs t
find_other x cs t h = ground (arith, eq_iff x.type t)

find-remove : (cs : List Condition) (t : String) → find (remove cs t) t ≡ none
find-remove [] t = refl
find-remove (x ∷ cs) t = elim (eq_cases x.type t) [
  | inl same ↦ ground (arith, eq_iff x.type t, find-remove cs t)
  | inr other ↦ ground (arith, eq_iff x.type t, find-remove cs t)
]

find-remove_other :
    (cs : List Condition) (t t' : String) → t ≢ t' → find (remove cs t) t' ≡ find cs t'
find-remove_other [] t t' h = refl
find-remove_other (x ∷ cs) t t' h = elim (eq_cases x.type t) [
  | inl same ↦ ground (arith, eq_iff x.type t, eq_iff x.type t', find-remove_other cs t t' h)
  | inr other ↦ ground (arith, eq_iff x.type t', find-remove_other cs t t' h)
]

pub conditions-IsConditions : IsConditions conditions
conditions-IsConditions = record {
  ready-ne-reconciling = ne_of_test "Ready" "Reconciling" refl;
  ready-ne-stalled = ne_of_test "Ready" "Stalled" refl;
  reconciling-ne-stalled = ne_of_test "Reconciling" "Stalled" refl;
  is_ready-get = λ cs. refl;
  is_true-get = λ cs t. refl;
  is_false-get = λ cs t. refl;
  has-get = λ cs t. refl;
  get-mark_true = λ t reason message cs. find_first _ cs;
  get-mark_true_other = λ t t' reason message cs h. find_other _ cs t' h;
  get-mark_false = λ t reason message cs. find_first _ cs;
  get-mark_false_other = λ t t' reason message cs h. find_other _ cs t' h;
  get-mark_reconciling = λ reason message cs. find_first _ (remove cs "Stalled");
  get-mark_reconciling_stalled = λ reason message cs. find-remove cs "Stalled";
  get-set = λ cs x. find_first x cs;
  get-set_other = λ cs x t h. find_other x cs t h;
  get-delete = find-remove;
  get-delete_other = find-remove_other;
}

abbrev pub receiver : Receiver
receiver = record {
  meta = record (meta_of "apps" "hook") { finalizers = notification_finalizer ∷ [] };
  spec = record {
    type = "generic";
    interval = none;
    events = [];
    resources = reference_of "web" ∷ [];
    secret_ref = "hook-token";
    suspend = false;
  };
  status = record {
    last_handled_reconcile_at = "";
    conditions = [];
    webhook_path = "";
    observed_generation = 0;
  };
}

abbrev pub hook_secret : Secret
hook_secret = record { name = "hook-token"; type = "Opaque"; entries = ("token", "abc") ∷ [] }

-- The state says whether there is a secret.
abbrev secret_if : Bool → Result Secret
secret_if true = ok hook_secret
secret_if false = err "not found"

abbrev receiver_store : ReceiverStore Bool
receiver_store = record {
  get = λ s name. ok receiver;
  get_secret = λ s name. secret_if s;
  patch = λ s old new. (s, ok tt);
  show_name = λ name. name.namespace <> ("/" <> name.name);
  show_duration = λ duration. "10m";
  sha256_hex = λ text. text;
}

abbrev without_finalizer : List String → String → List String
without_finalizer [] f = []
without_finalizer (g ∷ fs) f = if g == f then without_finalizer fs f else g ∷ without_finalizer fs f

abbrev has_finalizer : List String → String → Bool
has_finalizer [] f = false
has_finalizer (g ∷ fs) f = if g == f then true else has_finalizer fs f

abbrev pub objects : Objects
objects = record {
  contains_finalizer = has_finalizer;
  add_finalizer = λ fs f. f ∷ fs;
  remove_finalizer = without_finalizer;
  ignore_not_found = λ e. if e == "not found" then none else some e;
  filter_not_found = λ e. if e == "not found" then none else some e;
  aggregate = λ e e'. e <> (", " <> e');
}

has-without : (fs : List String) (f : String) → has_finalizer (without_finalizer fs f) f ≡ false
has-without [] f = refl
has-without (g ∷ fs) f = elim (eq_cases g f) [
  | inl same ↦ ground (arith, eq_iff g f, has-without fs f)
  | inr other ↦ ground (arith, eq_iff g f, has-without fs f)
]

objects-IsFinalizers : IsFinalizers objects
objects-IsFinalizers = record {
  contains-add = λ fs f. rw (eq_refl f) refl;
  contains-remove = has-without;
}

reconcile_object-contains_example :
    has_finalizer
      (reconcile_object objects conditions receiver_store true receiver).object.meta.finalizers
      notification_finalizer
    ≡ not receiver.meta.deleting
reconcile_object-contains_example =
    reconcile_object-contains objects conditions receiver_store objects-IsFinalizers true receiver

abbrev pub path : String
path = get_webhook_path (λ text. text) receiver "abc"

abbrev pub hook_name : NamespacedName
hook_name = record { namespace = "apps"; name = "hook" }

reconcile_receiver-IsInitialized_example :
    (object : Receiver) × IsInitialized conditions object path
      (initialized objects conditions receiver_store path)
    × (object.meta ≡ receiver.meta)
    × (object.spec ≡ receiver.spec)
    × ((reconcile_receiver objects conditions receiver_store true hook_name).state
        ≡ (receiver_store.patch true receiver object).0)
    × ((reconcile_receiver objects conditions receiver_store true hook_name).error
        ≡ error_of (receiver_store.patch true receiver object).1)
    × ((reconcile_receiver objects conditions receiver_store true hook_name).result
        ≡ record { requeue = false; requeue_after = get_interval receiver })
unfolding token lookup
reconcile_receiver-IsInitialized_example =
    reconcile_receiver-IsInitialized objects conditions receiver_store conditions-IsConditions true
      hook_name receiver "abc" refl refl refl refl refl

abbrev no_secret : String
no_secret = "unable to read token from secret 'apps/hook-token' error: not found"

reconcile_tasks-IsFailed_example :
    IsFailed conditions
      (summarised conditions
        (reconcile_tasks objects conditions receiver_store false receiver).object)
      no_secret
    × ((reconcile_tasks objects conditions receiver_store false receiver).error ≡ some no_secret)
    × ((reconcile_tasks objects conditions receiver_store false receiver).result
        ≡ record { requeue = true; requeue_after = 0 })
unfolding token
reconcile_tasks-IsFailed_example =
    reconcile_tasks-IsFailed conditions conditions-IsConditions objects receiver_store false
      receiver no_secret refl

-- The path and the readiness, computed.
reconcile_tasks_test :
    (reconcile_tasks objects conditions receiver_store true receiver).object.status.webhook_path
    ≡ "/hook/abchookapps"
unfolding reconcile_tasks lookup get_webhook_path
reconcile_tasks_test = refl

-- The state is the alert itself.
abbrev alert_store : Store Alert Alert
alert_store = record {
  get = λ s name. ok s;
  new_helper = λ s a. ok tt;
  patch = λ s old new. (new, ok tt);
}

abbrev old_alert : Alert
old_alert = record alert { meta = record alert.meta { finalizers = notification_finalizer ∷ [] } }

abbrev name_of : Alert → NamespacedName
name_of a = record { namespace = a.meta.namespace; name = a.meta.name }

abbrev migrated : Reconciled Alert
migrated = reconcile objects alert_kind alert_store old_alert (name_of alert)

-- The migration takes the finalizer away.
reconcile_alert_test : (reconcile_alert objects alert_store old_alert (name_of alert)).state ≡ alert
unfolding reconcile_alert
reconcile_alert_test = refl

migrated_test : migrated.state ≡ alert
unfolding reconcile
migrated_test = refl

changed : migrated.state ≢ old_alert
changed h = omega (arith, ap (λ a. length a.meta.finalizers) (sym migrated_test ∙ h))

reconcile-IsDue_example :
    (a : Alert) × IsDue objects alert_kind alert_store old_alert (name_of alert) a
    × (migrated.state
        ≡ (alert_store.patch old_alert a (
            alert_kind.set_finalizers
              (objects.remove_finalizer (alert_kind.meta a).finalizers notification_finalizer)
              a)).0)
reconcile-IsDue_example =
    reconcile-IsDue objects alert_kind alert_store old_alert (name_of alert) (inl changed)
