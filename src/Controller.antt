-- ===== src/Controller.antt =====
-- The controllers of internal/controller. An error is its text; of the errors of other packages the
-- controllers only ask whether one says that an object was not found.
pub mod Migration
pub mod Receiver
use notification_controller.Prelude.{
  ◌≡◌, String, Bool, true, false, ℕ, Option, none, some, List, [], ◌∷◌, if◌then◌else◌,
}

-- ctrl.Result
pub record CtrlResult : Type 0 where
  pub requeue : Bool
  pub requeue_after : ℕ

abbrev pub no_requeue : CtrlResult
no_requeue = record { requeue = false; requeue_after = 0 }

-- Functions of controllerutil on an object's finalizers, and of the API's errors.
pub record Objects : Type 0 where
  pub contains_finalizer : List String → String → Bool
  pub add_finalizer : List String → String → List String
  pub remove_finalizer : List String → String → List String
  -- client.IgnoreNotFound
  pub ignore_not_found : String → Option String
  -- kerrors.FilterOut(err, apierrors.IsNotFound)
  pub filter_not_found : String → Option String
  -- kerrors.NewAggregate of two errors
  pub aggregate : String → String → String

-- kerrors.NewAggregate of two values that may be nil: an aggregate of one error has its text.
unfoldable pub new_aggregate : Objects → Option String → Option String → Option String
new_aggregate o none e = e
new_aggregate o (some e) none = some e
new_aggregate o (some e) (some e') = some (o.aggregate e e')

-- What is relied on of the finalizers' functions.
pub record IsFinalizers (o : Objects) : Type 0 where
  pub contains-add :
      (fs : List String) (f : String) → o.contains_finalizer (o.add_finalizer fs f) f ≡ true
  pub contains-remove :
      (fs : List String) (f : String) → o.contains_finalizer (o.remove_finalizer fs f) f ≡ false
