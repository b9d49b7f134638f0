-- ===== src/Prelude/Lists.antt =====
-- Lists measured by native numbers, and predicates over them.
use Prim.Native.Nat.{ℕ, suc, ◌+◌}
use mathlib.Core.Path.{◌≡◌, refl, sym, subst}
use mathlib.Core.Bool.{Bool, true, ◌&&◌, false, ◌||◌}
use mathlib.Core.List.{List, [], ◌∷◌, ◌++◌}
use mathlib.Core.Logic.{◌⊎◌, inl, inr}
use text.Mathlib.Text.{◌==◌}
use text.Mathlib.TextEquality.{eq_iff}
use Prim.Native.String.{String}
use native.Mathlib.Omega.{arith}

module _ {ℓ} {A : Type ℓ} where
  abbrev pub length : List A → ℕ
  length [] = 0
  length (x ∷ xs) = suc (length xs)

  pub length-append : (xs ys : List A) → length (xs ++ ys) ≡ length xs + length ys
  length-append [] ys = omega arith
  length-append (x ∷ xs) ys = omega (arith, length-append xs ys)

  abbrev pub All {κ} : (A → Type κ) → List A → Type κ
  All P [] = Unit
  All P (x ∷ xs) = P x × All P xs

  abbrev pub any : (A → Bool) → List A → Bool
  any p [] = false
  any p (x ∷ xs) = p x || any p xs

  abbrev pub Any : (A → Type 0) → List A → Type 0
  Any P [] = ⊥
  Any P (x ∷ xs) = P x ⊎ Any P xs

-- The item stands in the list.
abbrev pub In : {A : Type 0} → A → List A → Type 0
In a xs = Any (λ x. x ≡ a) xs

pub Any-append :
    {A : Type 0} (P : A → Type 0) (xs ys : List A) → Any P (xs ++ ys) → Any P xs ⊎ Any P ys
Any-append P [] ys h = inr h
Any-append P (x ∷ xs) ys (inl h) = inl (inl h)
Any-append P (x ∷ xs) ys (inr h) = ground (arith, Any-append P xs ys h)

pub Any-append_left : {A : Type 0} (P : A → Type 0) (xs ys : List A) → Any P xs → Any P (xs ++ ys)
Any-append_left P [] ys h = absurd h
Any-append_left P (x ∷ xs) ys (inl h) = inl h
Any-append_left P (x ∷ xs) ys (inr h) = inr (Any-append_left P xs ys h)

pub Any-append_right : {A : Type 0} (P : A → Type 0) (xs ys : List A) → Any P ys → Any P (xs ++ ys)
Any-append_right P [] ys h = h
Any-append_right P (x ∷ xs) ys h = inr (Any-append_right P xs ys h)

-- What holds of some item, with the item.
pub Any-witness : {A : Type 0} (P : A → Type 0) (xs : List A) → Any P xs → (a : A) × In a xs × P a
Any-witness P [] h = absurd h
Any-witness P (x ∷ xs) (inl h) = (x, inl refl, h)
Any-witness P (x ∷ xs) (inr h) = let (a, m, p) = Any-witness P xs h in (a, inr m, p)

pub In-Any : {A : Type 0} (P : A → Type 0) (a : A) (xs : List A) → In a xs → P a → Any P xs
In-Any P a [] m p = absurd m
In-Any P a (x ∷ xs) (inl e) p = inl (subst P (sym e) p)
In-Any P a (x ∷ xs) (inr m) p = inr (In-Any P a xs m p)

-- Whether a text stands in a list, and whether all of a list's do in another.
unfoldable pub contains : List String → String → Bool
contains [] k = false
contains (x ∷ xs) k = x == k || contains xs k

unfoldable pub all_in : List String → List String → Bool
unfolding contains
all_in [] ys = true
all_in (x ∷ xs) ys = contains ys x && all_in xs ys

pub contains_sound : (xs : List String) (k : String) → contains xs k ≡ true → In k xs
unfolding contains
contains_sound [] k h = cc
contains_sound (x ∷ xs) k h = ground (arith, contains_sound xs k, eq_iff x k)

pub contains_complete : (xs : List String) (k : String) → In k xs → contains xs k ≡ true
unfolding contains
contains_complete [] k h = absurd h
contains_complete (x ∷ xs) k h = ground (arith, contains_complete xs k, eq_iff x k)

pub all_in_sound : (xs ys : List String) (k : String) → all_in xs ys ≡ true → In k xs → In k ys
unfolding all_in
all_in_sound [] ys k h m = absurd m
all_in_sound (x ∷ xs) ys k h (inl e) = subst (λ t. In t ys) e (contains_sound ys x (ground arith))
all_in_sound (x ∷ xs) ys k h (inr m) = all_in_sound xs ys k (ground arith) m
