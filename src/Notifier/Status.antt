-- ===== src/Notifier/Status.antt =====
-- What the notifiers of commit statuses share: the revision of an event, the parts of a repository's
-- identifier, and the sequence in which they list the statuses of a commit and create one.
pub mod Laws
pub mod Latest
use notification_controller.Prelude.{
  String, Bool, true, false, List, [], ◌∷◌, Option, none, some, if◌then◌else◌, Result, ok, err,
  ◌>>=◌, ◌<>◌, split,
}
use notification_controller.Prelude.Actions.{Action, ◌>>>◌, lift}
use notification_controller.Prelude.Dict.{lookup}
use notification_controller.Api.Event.{Event, EventApi}
use notification_controller.Notifier.Tools.{Git}

abbrev pub hash_or_error : String → Option String → Result String
hash_or_error rev none = err ("failed to extract commit hash from '" <> (rev <> "' revision"))
hash_or_error rev (some hash) = ok hash

unfoldable pub parse_revision : Git → String → Result String
parse_revision git rev = hash_or_error rev (git.extract_hash rev)

-- `revString, ok := event.Metadata[eventv1.MetaRevisionKey]`, and the error without one.
abbrev pub present : Option String → Result String
present none = err "missing revision metadata"
present (some rev_string) = ok rev_string

abbrev pub revision_of : EventApi → Event → Result String
revision_of api event = present (lookup api.revision_key event.metadata)

-- The two parts of `strings.Split(id, "/")`, or the error.
abbrev pub pair_or : String → List String → Result (String × String)
pair_or text (a ∷ b ∷ []) = ok (a, b)
pair_or text _ = err text

unfoldable pub owner_and_repo : (String → String) → String → Result (String × String)
owner_and_repo quote id = pair_or ("invalid repository id " <> quote id) (split 47 id)

-- `if dupe { return nil }` between the list of the statuses and the creation of one.
abbrev pub post_unless :
    {S Statuses : Type 0}
    → Action S Statuses
    → (Statuses → Bool)
    → Action S (Unit {0})
    → Action S (Unit {0})
post_unless list duplicate create =
    list >>> λ statuses. if duplicate statuses then lift (ok tt) else create

-- `if test { return nil, errors.New(text) }`
abbrev pub fail_if : Bool → String → Result (Unit {0})
fail_if true text = err text
fail_if false text = ok tt
