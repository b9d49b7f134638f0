-- ===== src/Prelude/Recorder.antt =====
-- The Kubernetes events that the controller records, `Eventf` of its recorder, in their order. An
-- action returns its value and what it recorded.
use Prim.Native.String.{String}
use mathlib.Core.List.{List, [], ◌∷◌, ◌++◌}
use notification_controller.Prelude.Dict.{Dict}

-- corev1.EventTypeNormal and corev1.EventTypeWarning
pub data EventType : Type 0 where
  normal warning : EventType

-- The object that an event is about, by kind, namespace and name.
pub record Subject : Type 0 where
  pub kind : String
  pub namespace : String
  pub name : String

pub record Recorded : Type 0 where
  pub subject : Subject
  pub type : EventType
  pub reason : String
  pub message : String
  pub annotations : Dict String

abbrev pub Writer {ℓ} : Type ℓ → Type ℓ
Writer A = A × List Recorded

module _ {ℓ} {A : Type ℓ} where
  abbrev pub pure : A → Writer A
  pure a = (a, [])

-- The value of the second action, after what both recorded.
module _ {ℓ κ} {A : Type ℓ} {B : Type κ} where
  abbrev pub and_then : Writer A → (A → Writer B) → Writer B
  and_then m f = let (a, before) = m in let (b, after) = f a in (b, before ++ after)

abbrev pub eventf : Subject → EventType → String → String → Writer (Unit {0})
eventf subject type reason message = (
  tt,
  record { subject = subject; type = type; reason = reason; message = message; annotations = [] }
      ∷ [],
)
