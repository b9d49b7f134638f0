-- ===== src/Server/EventKey.antt =====
-- `eventKeyFunc` of internal/server/event_server.go: the key by which the rate limiter takes two
-- events for duplicates. `sha256_hex` is `fmt.Sprintf("%x", sha256.Sum256(...))`.
use notification_controller.Prelude.{
  String, ◌<>◌, ◌≡◌, ◌↔◌, sym, ◌∙◌, ap, List, [], ◌∷◌, ◌++◌, Option, none, some, join,
}
use mathlib.Core.Path.{◌≡⟨◌⟩◌, ◌∎}
use text.Mathlib.TextLemmas.{append_assoc, append_cancel_left, append-nil, nil-append}
use notification_controller.Prelude.Dict.{lookup}
use notification_controller.Prelude.Slash.{HasNoSlash, cut_slash}
use notification_controller.Api.Event.{Event, EventApi, ObjectReference, object_group}

-- `if ok { comps = append(comps, words+value) }`
abbrev pub with_value : String → Option String → List String → List String
with_value words none comps = comps
with_value words (some value) comps = comps ++ (words <> value) ∷ []

-- `comps`, from the attributes of the event, its revision and its token.
unfoldable pub components : ObjectReference → String → Option String → Option String → List String
components o message revision token = with_value "token=" token (
    with_value "revision=" revision (
      "event"
      ∷ ("name=" <> o.name)
      ∷ ("namespace=" <> o.namespace)
      ∷ ("kind=" <> o.kind)
      ∷ ("message=" <> message)
      ∷ []))

module _ (api : EventApi) where
  abbrev pub revision : Event → Option String
  revision event = lookup (object_group api event <> ("/" <> api.revision_key)) event.metadata

  abbrev pub token : Event → Option String
  token event = lookup (object_group api event <> ("/" <> api.token_key)) event.metadata

  -- The key before it is hashed.
  unfoldable pub event_key : Event → String
  unfolding components join
  event_key event =
      join "/" (components event.involved_object event.message (revision event) (token event))

  unfoldable pub event_key_func : (String → String) → Event → String
  unfolding event_key
  event_key_func sha256_hex event = sha256_hex (event_key event)

abbrev key_text : ObjectReference → String → Option String → Option String → String
key_text o message revision token = join "/" (components o message revision token)

slash_revision : (r : String) → "/" <> ("revision=" <> r) ≡ "/revision=" <> r
slash_revision r = sym (append_assoc "/" "revision=" r)

slash_token : (t : String) → "/" <> ("token=" <> t) ≡ "/token=" <> t
slash_token t = sym (append_assoc "/" "token=" t)

longer_message :
    (o : ObjectReference) (m r : String)
    → key_text o (m <> ("/revision=" <> r)) none none ≡ key_text o m (some r) none
unfolding components join
longer_message o m r = simp (append_assoc, slash_revision r)

-- What stands behind the kind in a key.
abbrev rest_text : String → Option String → Option String → String
rest_text message revision token =
    join "/"
      (with_value "token=" token (with_value "revision=" revision (("message=" <> message) ∷ [])))

-- A key by its parts.
abbrev key_of : String → String → String → String → String
key_of name namespace kind rest =
    "event"
    <> ("/"
        <> ("name="
            <> (name
                <> ("/"
                    <> ("namespace="
                        <> (namespace <> ("/" <> ("kind=" <> (kind <> ("/" <> rest))))))))))

key_text_lem :
    (o : ObjectReference) (m : String) (v t : Option String)
    → key_text o m v t ≡ key_of o.name o.namespace o.kind (rest_text m v t)
unfolding components join
key_text_lem o m none none = simp append_assoc
key_text_lem o m none (some t) = simp append_assoc
key_text_lem o m (some v) none = simp append_assoc
key_text_lem o m (some v) (some t) = simp append_assoc

module _ (api : EventApi) where
  -- Two events of one object share a key if the message of the one, which has no revision, ends in
  -- "/revision=" and the other's revision, and is otherwise the other's message: the identifiers
  -- in front of the attributes do not keep different events apart.
  pub event_key_collision :
      (sha256_hex : String → String) (a b : Event) (r : String)
      → a.involved_object ≡ b.involved_object
      → a.message ≡ b.message <> ("/revision=" <> r)
      → revision api a ≡ none
      → revision api b ≡ some r
      → token api a ≡ none
      → token api b ≡ none
      → event_key_func api sha256_hex a ≡ event_key_func api sha256_hex b
  unfolding event_key_func
  event_key_collision sha256_hex a b r same longer no_rev rev no_token no_token' = ap sha256_hex (
      key_text a.involved_object a.message (revision api a) (token api a)
      ≡⟨ (rw (no_rev, no_token, longer, same)) ⟩
        key_text b.involved_object (b.message <> ("/revision=" <> r)) none none
      ≡⟨ longer_message b.involved_object b.message r ⟩
        key_text b.involved_object b.message (some r) none
      ≡⟨ (rw (rev, no_token')) ⟩
        key_text b.involved_object b.message (revision api b) (token api b) ∎)

-- Names, namespaces and kinds that the Kubernetes API accepts have no slash.
pub record HasPlainNames (o : ObjectReference) : Type 0 where
  pub name : HasNoSlash o.name
  pub namespace : HasNoSlash o.namespace
  pub kind : HasNoSlash o.kind

key_text_inj :
    (o o' : ObjectReference) (m m' : String) (v v' t t' : Option String)
    → HasPlainNames o
    → HasPlainNames o'
    → key_text o m v t ≡ key_text o' m' v' t'
    → (o.name ≡ o'.name)
      × (o.namespace ≡ o'.namespace)
      × (o.kind ≡ o'.kind)
      × (rest_text m v t ≡ rest_text m' v' t')
key_text_inj o o' m m' v v' t t' h h' e =
    let e1 = append_cancel_left "name=" _ _ (
      append_cancel_left "/" _ _ (
        append_cancel_left "event" _ _
          (sym (key_text_lem o m v t) ∙ e ∙ key_text_lem o' m' v' t'))) in
    let (name, e2) = cut_slash o.name o'.name _ _ h.name h'.name e1 in
    let (namespace, e3) =
      cut_slash o.namespace o'.namespace _ _ h.namespace h'.namespace
        (append_cancel_left "namespace=" _ _ e2) in
    let (kind, e4) =
      cut_slash o.kind o'.kind _ _ h.kind h'.kind (append_cancel_left "kind=" _ _ e3) in
    (name, namespace, kind, e4)

-- `words` and a value, if there is one.
abbrev pub suffix : String → Option String → String
suffix words none = ""
suffix words (some value) = words <> value

-- The attributes of a key that can be any text, one behind the other.
abbrev pub attributes : String → Option String → Option String → String
attributes message revision token =
    message <> (suffix "/revision=" revision <> suffix "/token=" token)

rest_text_lem :
    (m : String) (v t : Option String) → rest_text m v t ≡ "message=" <> attributes m v t
unfolding join
rest_text_lem m none none = simp (append_assoc, append-nil)
rest_text_lem m none (some t) = simp (append_assoc, nil-append, slash_token)
rest_text_lem m (some v) none = simp (append_assoc, append-nil, slash_revision)
rest_text_lem m (some v) (some t) = simp (append_assoc, slash_revision, slash_token)

-- Events whose objects have names, namespaces and kinds without a slash have the same key exactly if
-- their objects have the same name, namespace and kind, and their messages, each with its revision
-- and token behind it, are the same text. The API groups of the objects may differ.
pub event_key_iff :
    (api : EventApi) (a b : Event)
    → HasPlainNames a.involved_object
    → HasPlainNames b.involved_object
    → (event_key api a ≡ event_key api b) ↔ (
        (a.involved_object.name ≡ b.involved_object.name)
        × (a.involved_object.namespace ≡ b.involved_object.namespace)
        × (a.involved_object.kind ≡ b.involved_object.kind)
        × (attributes a.message (revision api a) (token api a)
            ≡ attributes b.message (revision api b) (token api b)))
unfolding event_key
event_key_iff api a b h h' = (
  λ e.
      let (name, namespace, kind, rest) =
        key_text_inj a.involved_object b.involved_object a.message b.message (revision api a)
          (revision api b) (token api a) (token api b) h h' e in
      (
        name,
        namespace,
        kind,
        append_cancel_left "message=" _ _ (
            sym (rest_text_lem a.message (revision api a) (token api a))
            ∙ rest
            ∙ rest_text_lem b.message (revision api b) (token api b)),
      ),
  λ (name, namespace, kind, rest).
      let same =
        rest_text_lem a.message (revision api a) (token api a)
        ∙ ap (λ t. "message=" <> t) rest
        ∙ sym (rest_text_lem b.message (revision api b) (token api b)) in
      key_text_lem a.involved_object a.message (revision api a) (token api a)
      ∙ (λ i. key_of (name i) (namespace i) (kind i) (same i))
      ∙ sym (key_text_lem b.involved_object b.message (revision api b) (token api b)),
)
