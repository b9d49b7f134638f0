-- ===== src/Notifier/Util.antt =====
-- The helpers of internal/notifier/util.go that work on texts: the parts of a camel case word, the
-- name and the description of a commit status, its identifier, and the parts of a git address. The
-- tables of package unicode and the parser of addresses are parameters. A text is valid UTF-8.
pub mod Camelcase
use Prim.Native.Char.{Char}
use Prim.Native.String.{[] as nil, ◌∷◌ as cons}
use notification_controller.Prelude.{
  ℕ, String, ◌<>◌, ◌==◌, Bool, true, false, ◌&&◌, List, [], ◌∷◌, if◌then◌else◌, Result, ok, err,
  ◌>>=◌, wrap, nat_eq, split, join, map_chars, trim_left, trim_suffix,
}
use notification_controller.Api.Event.{Event, Unicode}

-- giturls.Parse, as far as its result is read.
pub record GitUrl : Type 0 where
  pub scheme : String
  pub host : String
  pub path : String

unfoldable pub parse_git_address :
    (String → Result GitUrl) → (String → String) → String → Result (String × String)
parse_git_address parse quote s = do
  u ← wrap ("failed parsing URL " <> (quote s <> ": ")) (parse s)
  let scheme = if u.scheme == "ssh" then "https" else u.scheme
  let id = trim_suffix (trim_left 47 u.path) ".git"
  ok (scheme <> ("://" <> u.host), id)

-- `runes[len(runes)-1] = append(runes[len(runes)-1], r)`
unfoldable pub append_last : List String → Char → List String
append_last [] r = cons r nil ∷ []
append_last (x ∷ []) r = (x <> cons r nil) ∷ []
append_last (x ∷ (y ∷ xs)) r = x ∷ append_last (y ∷ xs) r

-- `runes = append(runes, []rune{r})`
unfoldable pub append_new : List String → Char → List String
append_new [] r = cons r nil ∷ []
append_new (x ∷ xs) r = x ∷ append_new xs r

-- `p(runes[i][0])`; a part is not empty when it is read.
abbrev pub first_is : (Char → Bool) → String → Bool
first_is p nil = false
first_is p (cons r s) = p r

-- All but the last character of a part, and the last one.
unfoldable pub cut_last : String → String × String
cut_last nil = (nil, nil)
cut_last (cons r nil) = (nil, cons r nil)
cut_last (cons r (cons r' s)) = let (before, last) = cut_last (cons r' s) in (cons r before, last)

-- The third loop.
unfoldable pub non_empty : List String → List String
non_empty [] = []
non_empty (nil ∷ xs) = non_empty xs
non_empty (cons r s ∷ xs) = cons r s ∷ non_empty xs

-- `strings.Split(providerUID, "-")[0]`
unfoldable pub first_part : String → String
first_part uid = elim (split 45 uid) [ [] ↦ "" | part ∷ parts ↦ part ]

module _ (u : Unicode) where
  -- The switch on a character.
  unfoldable pub class_of : Char → ℕ
  class_of r =
      if u.is_lower r then 1 else (if u.is_upper r then 2 else (if u.is_digit r then 3 else 4))

  -- The first loop, from the runes and the class of the character before.
  unfoldable pub split_classes : List String → ℕ → String → List String
  unfolding class_of append_last append_new
  split_classes runes last_class nil = runes
  split_classes runes last_class (cons r src) =
      split_classes
        (if nat_eq (class_of r) last_class then append_last runes r else append_new runes r)
        (class_of r) src

  -- The second loop from a part and those after it.
  unfoldable pub move_upper : String → List String → List String
  unfolding cut_last
  move_upper x [] = x ∷ []
  move_upper x (y ∷ ys) = elim (first_is u.is_upper x && first_is u.is_lower y) [
    | true ↦ (cut_last x).0 ∷ move_upper ((cut_last x).1 <> y) ys
    | false ↦ x ∷ move_upper y ys
  ]

  unfoldable pub move_all : List String → List String
  unfolding move_upper
  move_all [] = []
  move_all (x ∷ xs) = move_upper x xs

  unfoldable pub split_camelcase : String → List String
  unfolding split_classes move_all non_empty
  split_camelcase src = non_empty (move_all (split_classes [] 0 src))

  unfoldable pub format_name_and_description : Event → String × String
  unfolding split_camelcase
  format_name_and_description event =
      let name = event.involved_object.kind <> ("/" <> event.involved_object.name) in
      (map_chars u.to_lower name, map_chars u.to_lower (join " " (split_camelcase event.reason)))

  unfoldable pub generate_commit_status_id : String → Event → String
  unfolding first_part
  generate_commit_status_id provider_uid event = map_chars u.to_lower (
      event.involved_object.kind
      <> ("/" <> (event.involved_object.name <> ("/" <> first_part provider_uid))))
