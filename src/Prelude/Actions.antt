-- ===== src/Prelude/Actions.antt =====
-- A Go call that changes a state outside the program, such as the one that a server keeps, and
-- returns a value and an error: a function of this state.
use mathlib.Core.Path.{◌≡◌, refl}
use Prim.Native.String.{String, ◌++◌ as ◌<>◌}
use notification_controller.Prelude.Results.{Result, err, ok}

abbrev pub Action : Type 0 → Type 0 → Type 0
Action S A = S → S × Result A

module _ {S From To : Type 0} where
  abbrev pub next_call : S × Result From → (From → Action S To) → S × Result To
  next_call (s, err text) next = (s, err text)
  next_call (s, ok value) next = next value s

  infixl 5 ◌>>>◌
  abbrev pub ◌>>>◌ : Action S From → (From → Action S To) → Action S To
  first >>> next = λ s. next_call (first s) next

  -- Where the whole is fine, so is each of the two calls.
  pub next_call-eq-ok :
      (first : S × Result From) (next : From → Action S To) (last : S) {value : To}
      → next_call first next ≡ (last, ok value)
      → (s : S) × (a : From) × (first ≡ (s, ok a)) × (next a s ≡ (last, ok value))
  next_call-eq-ok (s, err text) next last both = cc
  next_call-eq-ok (s, ok a) next last both = (s, a, refl, both)

module _ {S A : Type 0} where
  -- A call that leaves the state.
  abbrev pub lift : Result A → Action S A
  lift r = λ s. (s, r)

  abbrev pub wrap_second : String → S × Result A → S × Result A
  wrap_second words (s, err text) = (s, err (words <> text))
  wrap_second words (s, ok value) = (s, ok value)

  -- `fmt.Errorf(words + "%w", err)` on the error path.
  abbrev pub wrap_action : String → Action S A → Action S A
  wrap_action words call = λ s. wrap_second words (call s)

  pub wrap_second-eq-ok :
      (words : String) (end : S × Result A) (last : S) (a : A)
      → wrap_second words end ≡ (last, ok a)
      → end ≡ (last, ok a)
  wrap_second-eq-ok words (s, err text) last a h = cc
  wrap_second-eq-ok words (s, ok value) last a h = h

  pub wrap_second-state : (words : String) (end : S × Result A) → (wrap_second words end).0 ≡ end.0
  wrap_second-state words (s, err text) = refl
  wrap_second-state words (s, ok value) = refl

-- A call after a result that leaves the state can be made again where it alone can.
pub lift-again :
    {S A : Type 0} (r : Result A) (next : A → Action S (Unit {0})) (before after : S)
    → ((a : A) → next a before ≡ (after, ok tt) → next a after ≡ (after, ok tt))
    → (lift r >>> next) before ≡ (after, ok tt)
    → (lift r >>> next) after ≡ (after, ok tt)
lift-again (err text) next before after again h = cc
lift-again (ok a) next before after again h = again a h

-- Where the whole is fine, so are the result and the call after it, from the same state.
pub lift-eq-ok :
    {S A B : Type 0} (r : Result A) (next : A → Action S B) (before after : S) {b : B}
    → (lift r >>> next) before ≡ (after, ok b)
    → (a : A) × (r ≡ ok a) × (next a before ≡ (after, ok b))
lift-eq-ok (err text) next before after h = cc
lift-eq-ok (ok a) next before after h = (a, refl, h)
