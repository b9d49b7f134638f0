-- ===== src/Prelude/Text.antt =====
-- The functions of Go's package `strings` that the program calls. A text is a sequence of code
-- points, so the texts are those in valid UTF-8; for such texts a prefix, a suffix or a separator
-- is the same thing counted in bytes.
use Prim.Native.Nat.{ℕ}
use Prim.Native.Char.{Char, code}
use Prim.Native.String.{String, [], ◌∷◌, ◌++◌}
use mathlib.Core.Path.{◌≡◌}
use mathlib.Core.Logic.{inl, inr}
use mathlib.Core.Bool.{Bool, true, false, ◌&&◌, ◌||◌}
use mathlib.Core.Option
use mathlib.Core.Option.{Option, none, some}
use mathlib.Core.List.{List}
use native.Mathlib.Omega.{arith}
use text.Mathlib.Text.{◌==◌}
use text.Mathlib.TextEquality.{Char-path}
use text.Mathlib.TextLemmas.{nil-append, cons-append}
use notification_controller.Prelude.Tests.{nat_eq, nat_eq-cases, nat_eq_refl, leb, if◌then◌else◌}

-- What follows a prefix, if the text has it.
unfoldable pub strip : String → String → Option String
strip s [] = some s
strip [] (d ∷ p) = none
strip (c ∷ s) (d ∷ p) = let rest = strip s p in if nat_eq (code c) (code d) then rest else none

abbrev pub is_some {ℓ} : {A : Type ℓ} → Option A → Bool
is_some none = false
is_some (some _) = true

abbrev pub get_or {ℓ} : {A : Type ℓ} → Option A → A → A
get_or none a = a
get_or (some b) a = b

-- strings.HasPrefix(s, prefix)
abbrev pub has_prefix : String → String → Bool
has_prefix s p = is_some (strip s p)

-- strings.TrimPrefix(s, prefix)
abbrev pub trim_prefix : String → String → String
trim_prefix s p = get_or (strip s p) s

pub strip-append : (p r : String) → strip (p ++ r) p ≡ some r
unfolding strip
strip-append [] r = rw nil-append
strip-append (c ∷ p) r = rw cons-append (ground (arith, strip-append p r))

pub strip_sound : (s p r : String) → strip s p ≡ some r → s ≡ p ++ r
unfolding strip
strip_sound s [] r h = rw nil-append (Option.some-injective _ _ h)
strip_sound [] (d ∷ p) r h = cc
strip_sound (c ∷ s) (d ∷ p) r h = elim (nat_eq-cases (code c) (code d)) [
  | inl same ↦
      rw (cons-append, ← strip_sound s p r (rw (same, nat_eq_refl) at h), Char-path c d same)
  | inr other ↦ ground arith
]

-- strings.TrimSuffix(s, suffix), by what stands before the suffix.
unfoldable pub trim_suffix : String → String → String
trim_suffix [] suffix = []
trim_suffix (c ∷ s) suffix =
    let rest = trim_suffix s suffix in if c ∷ s == suffix then [] else c ∷ rest

-- unicode.IsSpace
abbrev pub is_space : ℕ → Bool
is_space c =
    (leb 9 c && leb c 13)
    || nat_eq c 32
    || nat_eq c 0x85
    || nat_eq c 0xa0
    || nat_eq c 0x1680
    || (leb 0x2000 c && leb c 0x200a)
    || nat_eq c 0x2028
    || nat_eq c 0x2029
    || nat_eq c 0x202f
    || nat_eq c 0x205f
    || nat_eq c 0x3000

unfoldable pub trim_left_space : String → String
trim_left_space [] = []
trim_left_space (c ∷ s) = let rest = trim_left_space s in if is_space (code c) then rest else c ∷ s

unfoldable pub trim_right_space : String → String
trim_right_space [] = []
trim_right_space (c ∷ s) =
    let rest = trim_right_space s in if rest == [] && is_space (code c) then [] else c ∷ rest

-- strings.TrimSpace(s)
unfoldable pub trim_space : String → String
unfolding trim_left_space trim_right_space
trim_space s = trim_right_space (trim_left_space s)

-- strings.TrimLeft(s, cutset) for a cutset of one character.
unfoldable pub trim_left : ℕ → String → String
trim_left d [] = []
trim_left d (c ∷ s) = let rest = trim_left d s in if nat_eq (code c) d then rest else c ∷ s

abbrev cons_head : Char → List String → List String
cons_head c List.[] = List.◌∷◌ (c ∷ []) List.[]
cons_head c (List.◌∷◌ part parts) = List.◌∷◌ (c ∷ part) parts

-- strings.Split(s, separator) for a separator of one character: at least one part, always.
unfoldable pub split : ℕ → String → List String
split d [] = List.◌∷◌ [] List.[]
split d (c ∷ s) =
    let rest = split d s in if nat_eq (code c) d then List.◌∷◌ [] rest else cons_head c rest

-- strings.Join(parts, separator)
unfoldable pub join : String → List String → String
join sep List.[] = []
join sep (List.◌∷◌ part List.[]) = part
join sep (List.◌∷◌ part (List.◌∷◌ next parts)) = part ++ (sep ++ join sep (List.◌∷◌ next parts))

-- A text with every character mapped: strings.ToLower(s), or a canonical form for
-- strings.EqualFold, by the Unicode table that is given.
unfoldable pub map_chars : (Char → Char) → String → String
map_chars f [] = []
map_chars f (c ∷ s) = f c ∷ map_chars f s

-- strings.Contains(s, part)
unfoldable pub has_part : String → String → Bool
unfolding strip
has_part [] part = has_prefix [] part
has_part (c ∷ s) part = let rest = has_part s part in has_prefix (c ∷ s) part || rest

abbrev pub first_of {ℓ} : {A : Type ℓ} → Option A → Option A → Option A
first_of (some a) o = some a
first_of none o = o

abbrev before_with : Char → Option (String × String) → Option (String × String)
before_with c none = none
before_with c (some (before, after)) = some (c ∷ before, after)

abbrev at_start : Option String → Option (String × String)
at_start none = none
at_start (some after) = some ([], after)

-- What stands before and after the last place where a part occurs: the slices at
-- strings.LastIndex(s, part).
unfoldable pub cut_last_index : String → String → Option (String × String)
unfolding strip
cut_last_index [] part = at_start (strip [] part)
cut_last_index (c ∷ s) part =
    let rest = cut_last_index s part in
    first_of (before_with c rest) (at_start (strip (c ∷ s) part))

-- strings.HasSuffix(s, suffix)
unfoldable pub has_suffix : String → String → Bool
has_suffix [] suffix = [] == suffix
has_suffix (c ∷ s) suffix = let rest = has_suffix s suffix in c ∷ s == suffix || rest
