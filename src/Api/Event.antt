-- ===== src/Api/Event.antt =====
-- Of package github.com/fluxcd/pkg/apis/event/v1beta1 the event, and the constants and accessors
-- that the program calls, as a record: the program does not define them. Beside it the tables of
-- Go's package unicode.
use notification_controller.Prelude.{ℕ, String, Char, Bool, map_chars, ◌==◌}
use notification_controller.Prelude.Dict.{Dict}

-- corev1.ObjectReference
pub record ObjectReference : Type 0 where
  pub api_version : String
  pub kind : String
  pub namespace : String
  pub name : String
  pub uid : String

pub record Event : Type 0 where
  pub involved_object : ObjectReference
  pub severity : String
  -- The Unix time.
  pub timestamp : ℕ
  pub message : String
  pub reason : String
  pub metadata : Dict String
  pub reporting_controller : String
  pub reporting_instance : String

pub record EventApi : Type 0 where
  pub group : String
  pub revision_key : String
  pub token_key : String
  pub checksum_key : String
  pub digest_key : String
  pub severity_info : String
  pub severity_error : String
  pub severity_trace : String
  pub commit_status_key : String
  pub commit_status_update_value : String
  -- meta.ProgressingReason
  pub progressing_reason : String
  -- event.HasMetadata(key, value) and event.HasReason(reason)
  pub has_metadata : Event → String → String → Bool
  pub has_reason : Event → String → Bool
  -- The API group of an API version, as `GroupVersionKind().Group` gives it.
  pub group_of : String → String

pub record Unicode : Type 0 where
  -- One character for each class of characters that are equal under case folding.
  pub fold : Char → Char
  pub to_lower : Char → Char
  pub is_lower : Char → Bool
  pub is_upper : Char → Bool
  pub is_digit : Char → Bool

-- strings.EqualFold(s, t)
unfoldable pub equal_fold : Unicode → String → String → Bool
equal_fold u s t = map_chars u.fold s == map_chars u.fold t

-- event.InvolvedObject.GroupVersionKind().Group
abbrev pub object_group : EventApi → Event → String
object_group api event = api.group_of event.involved_object.api_version

-- Whether an event only updates a commit status, as the notifiers ask it.
abbrev pub is_commit_status : EventApi → Event → Bool
is_commit_status api event =
    api.has_metadata event api.commit_status_key api.commit_status_update_value
