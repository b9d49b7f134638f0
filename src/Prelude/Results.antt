-- ===== src/Prelude/Results.antt =====
-- A Go call that returns a value and an error. An error is modelled by its text; wrapping by
-- `fmt.Errorf("...: %w", err)` puts words in front of it.
use Prim.Native.String.{String, ◌++◌ as ◌<>◌}
use mathlib.Core.Path.{◌≡◌, refl}
use mathlib.Core.List.{List, [], ◌∷◌}
use native.Mathlib.Omega.{arith}
use text.Mathlib.Text.{◌==◌}
use text.Mathlib.TextEquality.{eq_iff}
use notification_controller.Prelude.Lists.{Any}
use notification_controller.Prelude.Tests.{eq_cases, if◌then◌else◌}
use mathlib.Core.Logic.{◌⊎◌, inl, inr}

pub data Result {ℓ} (A : Type ℓ) : Type ℓ where
  err : (text : String) → Result A
  ok : (value : A) → Result A

-- `fmt.Errorf(words + "%w", err)` on the error path.
abbrev pub wrap {ℓ} : {A : Type ℓ} → String → Result A → Result A
wrap words (err text) = err (words <> text)
wrap words (ok value) = ok value

-- Words around an error leave what is fine.
pub wrap-eq-ok {ℓ} :
    {A : Type ℓ} (words : String) (r : Result A) (a : A) → wrap words r ≡ ok a → r ≡ ok a
wrap-eq-ok words (err text) a h = cc
wrap-eq-ok words (ok value) a h = h

-- Which of the two a result is, with its part.
pub Result-cases {ℓ} :
    {A : Type ℓ} (r : Result A) → ((a : A) × (r ≡ ok a)) ⊎ ((e : String) × (r ≡ err e))
Result-cases (err text) = inr (text, refl)
Result-cases (ok value) = inl (value, refl)

-- `if err != nil { return err }` between two calls.
module _ {ℓ κ} {From : Type ℓ} {To : Type κ} where
  infixl 5 ◌>>=◌
  abbrev pub ◌>>=◌ : Result From → (From → Result To) → Result To
  err text >>= next = err text
  ok value >>= next = next value

  infixl 5 ◌>>◌
  abbrev pub ◌>>◌ : Result From → Result To → Result To
  first >> second = first >>= λ _. second

  -- Where the whole is fine, so is each of the two calls.
  pub >>=-eq-ok :
      (first : Result From) (next : From → Result To) {last : To}
      → (first >>= next) ≡ ok last
      → (value : From) × (first ≡ ok value) × (next value ≡ ok last)
  >>=-eq-ok (err text) next both = cc
  >>=-eq-ok (ok value) next both = (value, refl, both)

-- A `switch` statement over texts: the first case that is equal, or the default.
abbrev pub switch {ℓ} : {A : Type ℓ} → String → List (String × A) → A → A
switch t [] otherwise = otherwise
switch t ((c, a) ∷ cases) otherwise = if t == c then a else switch t cases otherwise

-- Where the default fails, a result comes from a case.
pub switch-eq-ok :
    {A : Type 0} (t : String) (cases : List (String × Result A)) (e : String) (a : A)
    → switch t cases (err e) ≡ ok a
    → Any (λ c. (t ≡ c.0) × (c.1 ≡ ok a)) cases
switch-eq-ok t [] e a h = cc
switch-eq-ok t ((c, r) ∷ cases) e a h = elim (eq_cases t c) [
  | inl same ↦ inl (same, ground (arith, eq_iff t c))
  | inr other ↦ inr (switch-eq-ok t cases e a (ground arith))
]
