-- ===== src/Notifier/Chat.antt =====
-- What the notifiers of chat services in internal/notifier share: the check of a hook's address, the
-- name of an event's object, the loops over its metadata, and the request's authorization.
pub mod Slack
pub mod Messages
pub mod Cards
use notification_controller.Prelude.{
  String, ◌<>◌, ◌==◌, List, [], ◌∷◌, if◌then◌else◌, Result, ok, err, map_chars,
}
use notification_controller.Prelude.Dict.{Dict}
use notification_controller.Prelude.Actions.{Action, lift}
use notification_controller.Api.Event.{Event, Unicode, is_commit_status}
use notification_controller.Notifier.Client.{PostRequest, Http, add_header}
use notification_controller.Notifier.Tools.{Tools}

-- `fmt.Errorf(words + " %s: '%w'", url, err)` on the error path.
abbrev pub quoted {ℓ} : {A : Type ℓ} → String → Result A → Result A
quoted words (err text) = err (words <> (": '" <> (text <> "'")))
quoted words (ok value) = ok value

-- An error that is replaced by another.
abbrev pub replaced {ℓ} : {A : Type ℓ} → String → Result A → Result A
replaced text (err _) = err text
replaced text (ok value) = ok value

-- `fmt.Sprintf("%s/%s.%s", strings.ToLower(kind), name, namespace)` of the object.
abbrev pub object_name : Unicode → Event → String
object_name u event =
    map_chars u.to_lower event.involved_object.kind
    <> ("/" <> (event.involved_object.name <> ("." <> event.involved_object.namespace)))

-- A text that a loop over the metadata makes, of a text for each entry.
abbrev pub lines : (String → String → String) → Dict String → String
lines line [] = ""
lines line ((k, v) ∷ metadata) = line k v <> lines line metadata

-- A list that such a loop makes.
abbrev pub entries {ℓ} : {A : Type ℓ} → (String → String → A) → Dict String → List A
entries entry [] = []
entries entry ((k, v) ∷ metadata) = entry k v ∷ entries entry metadata

module _ {S Pool : Type 0} (tools : Tools S Pool) where
  -- One of two texts, by whether the event is an error.
  abbrev pub on_error : {A : Type 0} → Event → A → A → A
  on_error event a b = if event.severity == tools.api.severity_error then a else b

  -- `Post` that skips the updates of commit statuses.
  abbrev pub unless_commit_status : Event → Action S (Unit {0}) → Action S (Unit {0})
  unless_commit_status event call = if is_commit_status tools.api event then lift (ok tt) else call

  -- `request.Header.Add("Authorization", value)`
  abbrev pub authorize : String → PostRequest Pool → PostRequest Pool
  authorize value req = record req {
    headers = add_header tools.http "Authorization" value req.headers;
  }
