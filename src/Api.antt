-- ===== src/Api.antt =====
-- The data of the program: the objects of api/v1 and api/v1beta3, and of other packages' types the
-- fields that the code reads. A `nil` map or pointer is `none`; durations are in seconds.
pub mod Event
use notification_controller.Prelude.{ℕ, String, ◌<>◌, Bool, Option, none, some, List}
use notification_controller.Prelude.Dict.{Dict}

pub record NamespacedName : Type 0 where
  pub namespace : String
  pub name : String

-- metav1.ObjectMeta, as far as it is read or written.
pub record ObjectMeta : Type 0 where
  pub name : String
  pub namespace : String
  pub uid : String
  pub generation : ℕ
  pub deleting : Bool
  pub finalizers : List String
  pub annotations : Dict String

-- api/v1/reference_types.go
pub record CrossNamespaceObjectReference : Type 0 where
  pub api_version : String
  pub kind : String
  pub name : String
  pub namespace : String
  pub match_labels : Option (Dict String)

-- api/v1beta3/alert_types.go
pub record AlertSpec : Type 0 where
  pub provider_ref : String
  pub event_severity : String
  pub event_sources : List CrossNamespaceObjectReference
  pub inclusion_list : List String
  pub event_metadata : Dict String
  pub exclusion_list : List String
  pub summary : String
  pub suspend : Bool

pub record Alert : Type 0 where
  pub meta : ObjectMeta
  pub spec : AlertSpec

-- api/v1beta3/provider_types.go
pub record ProviderSpec : Type 0 where
  pub type : String
  pub channel : String
  pub username : String
  pub address : String
  pub timeout : Option ℕ
  pub proxy : String
  pub secret_ref : Option String
  pub cert_secret_ref : Option String
  pub suspend : Bool

pub record Provider : Type 0 where
  pub meta : ObjectMeta
  pub spec : ProviderSpec

unfoldable pub get_timeout : Provider → ℕ
get_timeout p = elim p.spec.timeout [ none ↦ 15 | some duration ↦ duration ]

-- metav1.Condition; `status` is "True", "False" or "Unknown".
pub record Condition : Type 0 where
  pub type : String
  pub status : String
  pub reason : String
  pub message : String

-- api/v1/receiver_types.go
pub record ReceiverSpec : Type 0 where
  pub type : String
  pub interval : Option ℕ
  pub events : List String
  pub resources : List CrossNamespaceObjectReference
  pub secret_ref : String
  pub suspend : Bool

pub record ReceiverStatus : Type 0 where
  pub last_handled_reconcile_at : String
  pub conditions : List Condition
  pub webhook_path : String
  pub observed_generation : ℕ

pub record Receiver : Type 0 where
  pub meta : ObjectMeta
  pub spec : ReceiverSpec
  pub status : ReceiverStatus

abbrev pub receiver_webhook_path : String
receiver_webhook_path = "/hook/"

abbrev pub notification_finalizer : String
notification_finalizer = "finalizers.fluxcd.io"

-- `sha256_hex` is `fmt.Sprintf("%x", sha256.Sum256(...))`.
unfoldable pub get_webhook_path : (String → String) → Receiver → String → String
get_webhook_path sha256_hex r token =
    receiver_webhook_path <> sha256_hex (token <> (r.meta.name <> r.meta.namespace))

unfoldable pub get_interval : Receiver → ℕ
get_interval r = elim r.spec.interval [ none ↦ 600 | some duration ↦ duration ]

-- corev1.Secret
pub record Secret : Type 0 where
  pub name : String
  pub type : String
  pub entries : Dict String
