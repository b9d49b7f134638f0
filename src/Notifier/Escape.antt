-- ===== src/Notifier/Escape.antt =====
-- The escapes of `escapeString` of internal/notifier/telegram.go. An index counts code points; the
-- characters that are escaped are one byte long, so an index of a byte selects the same place.
pub mod Laws
use Prim.Native.String.{[] as nil, ◌∷◌ as cons}
use notification_controller.Prelude.{
  ℕ, zero, suc, ◌+◌, String, Char, code, ◌<>◌, Option, none, some, if◌then◌else◌, nat_eq, ltb,
  get_or,
}

-- `len(str)`, in code points like the indices.
abbrev pub count : String → ℕ
count nil = 0
count (cons c s) = suc (count s)

-- `str[:n]` and `str[n:]`
unfoldable pub take : ℕ → String → String
take zero s = nil
take (suc n) nil = nil
take (suc n) (cons c s) = cons c (take n s)

unfoldable pub drop : ℕ → String → String
drop zero s = s
drop (suc n) nil = nil
drop (suc n) (cons c s) = drop n s

abbrev pub one_more : Option ℕ → Option ℕ
one_more none = none
one_more (some n) = some (suc n)

-- strings.IndexRune, `none` for -1
unfoldable pub index_rune : String → Char → Option ℕ
index_rune nil c = none
index_rune (cons d s) c =
    let rest = index_rune s c in if nat_eq (code d) (code c) then some 0 else one_more rest

-- The inner loop from a string and a start, `none` out of fuel.
unfoldable pub escape_loop : ℕ → Char → String → ℕ → Option String
unfolding take drop index_rune
escape_loop zero c str start = none
escape_loop (suc fuel) c str start =
    if ltb start (count str)
    then (elim (index_rune (drop start str) c) [
      | none ↦ some str
      | some idx ↦
          escape_loop fuel c (take (start + idx) str <> ("\\" <> drop (start + idx) str))
            (start + idx + 2)
    ])
    else some str

-- The outer loop, with a step of fuel for each character of the string and one for the end.
unfoldable pub escape_all : String → String → Option String
unfolding escape_loop
escape_all nil str = some str
escape_all (cons c chars) str = elim (escape_loop (suc (count str)) c str 0) [
  | none ↦ none
  | some escaped ↦ escape_all chars escaped
]

abbrev pub special_chars : String
special_chars = "\\.-_[]()~>`#+=|{}!*"

-- The loops do not run out of fuel.
unfoldable pub escape_string : String → String
unfolding escape_all
escape_string str = get_or (escape_all special_chars str) str
