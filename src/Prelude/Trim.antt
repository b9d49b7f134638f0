-- ===== src/Prelude/Trim.antt =====
-- What strings.TrimSpace gives, told without its loops.
use Prim.Native.String.{String, [], ◌∷◌, ◌++◌}
use Prim.Native.Char.{Char, code}
use mathlib.Core.Path.{◌≡◌, sym, ap, ◌∙◌, subst}
use mathlib.Core.Logic.{inl, inr}
use mathlib.Core.Bool.{true, false, ◌&&◌}
use native.Mathlib.Omega.{arith}
use text.Mathlib.Text.{◌==◌}
use text.Mathlib.TextEquality.{eq_iff}
use text.Mathlib.TextLemmas.{cons-append, nil-append}
use notification_controller.Prelude.Tests.{Bool-cases}
use notification_controller.Prelude.Text.{is_space, trim_left_space, trim_right_space, trim_space}

abbrev pub IsSpaces : String → Type 0
IsSpaces [] = Unit
IsSpaces (c ∷ s) = (is_space (code c) ≡ true) × IsSpaces s

-- The first character, and the last one, is no space.
abbrev pub StartsPlain : String → Type 0
StartsPlain [] = Unit
StartsPlain (c ∷ s) = is_space (code c) ≡ false

abbrev pub EndsPlain : String → Type 0
EndsPlain [] = Unit
EndsPlain (c ∷ []) = is_space (code c) ≡ false
EndsPlain (c ∷ (d ∷ s)) = EndsPlain (d ∷ s)

-- A text stands in another one between spaces, and has none itself at its ends.
pub record IsTrimOf (s t : String) : Type 0 where
  pub before : String
  pub after : String
  pub whole : s ≡ before ++ (t ++ after)
  pub spaces_before : IsSpaces before
  pub spaces_after : IsSpaces after
  pub starts : StartsPlain t
  pub ends : EndsPlain t

left_lem :
    (s : String)
    → (before : String) × (s ≡ before ++ trim_left_space s)
      × IsSpaces before
      × StartsPlain (trim_left_space s)
unfolding trim_left_space
left_lem [] = ([], sym (nil-append _), tt, tt)
left_lem (c ∷ s) = elim (Bool-cases (is_space (code c))) [
  | inl space ↦
      let (before, whole, spaces, starts) = left_lem s in
      rw (trim_left_space, space)
        (c ∷ before, ap (λ t. c ∷ t) whole ∙ sym (cons-append _ _ _), (space, spaces), starts)
  | inr plain ↦ rw (trim_left_space, plain) ([], sym (nil-append _), tt, plain)
]

EndsPlain-cons :
    (c : Char) (t : String)
    → EndsPlain t
    → (t == [] && is_space (code c)) ≡ false
    → EndsPlain (c ∷ t)
EndsPlain-cons c [] h test = ground (arith, eq_iff [] [])
EndsPlain-cons c (d ∷ t) h test = h

right_lem :
    (s : String)
    → (after : String) × (s ≡ trim_right_space s ++ after)
      × IsSpaces after
      × EndsPlain (trim_right_space s)
      × (StartsPlain s → StartsPlain (trim_right_space s))
unfolding trim_right_space
right_lem [] = ([], sym (nil-append _), tt, tt, λ h. h)
right_lem (c ∷ s) =
    let (after, whole, spaces, ends, _) = right_lem s in
    elim (Bool-cases (trim_right_space s == [] && is_space (code c))) [
      | inl gone ↦
          let empty : trim_right_space s ≡ [] = ground (arith, eq_iff (trim_right_space s) []) in
          let space : is_space (code c) ≡ true = ground arith in
          let same : s ≡ after = whole ∙ ap (λ t. t ++ after) empty ∙ nil-append _ in
          rw (trim_right_space, gone)
            (c ∷ s, sym (nil-append _), (space, subst IsSpaces (sym same) spaces), tt, λ h. tt)
      | inr kept ↦
          rw (trim_right_space, kept)
            (
              after,
              ap (λ t. c ∷ t) whole ∙ sym (cons-append _ _ _),
              spaces,
              EndsPlain-cons c (trim_right_space s) ends kept,
              λ h. h,
            )
    ]

pub trim_space_lem : (s : String) → IsTrimOf s (trim_space s)
unfolding trim_space
trim_space_lem s =
    let (before, whole, spaces_before, starts) = left_lem s in
    let (after, rest, spaces_after, ends, keeps) = right_lem (trim_left_space s) in
    record {
      before = before;
      after = after;
      whole = whole ∙ ap (λ t. before ++ t) rest;
      spaces_before = spaces_before;
      spaces_after = spaces_after;
      starts = keeps starts;
      ends = ends;
    }
