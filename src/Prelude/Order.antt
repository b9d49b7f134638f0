-- ===== src/Prelude/Order.antt =====
-- The order of texts by `strings.Compare`.
use Prim.Native.Nat.{ℕ, Ordering, compare as compare_ℕ}
use Prim.Native.Char.{Char, code}
use Prim.Native.String.{String, [], ◌∷◌, then, compare}
use Prim.Native.String.compare
use mathlib.Core.Path.{◌≡◌, refl, sym, ap, ◌∙◌, subst}
use mathlib.Core.Logic.{◌⊎◌, inl, inr}
use native.Mathlib.Omega.{arith}
use mathlib.Core.Bool.{false}
use text.Mathlib.Text.{◌==◌}
use text.Mathlib.TextEquality.{path_by_compare}
use text.Mathlib.TextPositions.{compare_refl}

-- A text stands before another one.
abbrev pub IsBefore : String → String → Type 0
IsBefore s t = compare s t ≡ Ordering.lt

Ordering-cases : (o : Ordering) → (o ≡ Ordering.lt) ⊎ ((o ≡ Ordering.eq) ⊎ (o ≡ Ordering.gt))
Ordering-cases Ordering.lt = inl refl
Ordering-cases Ordering.eq = inr (inl refl)
Ordering-cases Ordering.gt = inr (inr refl)

code_lt_trans :
    (l m n : ℕ)
    → compare_ℕ l m ≡ Ordering.lt
    → compare_ℕ m n ≡ Ordering.lt
    → compare_ℕ l n ≡ Ordering.lt
code_lt_trans l m n h k = ground arith

code_eq : (m n : ℕ) → compare_ℕ m n ≡ Ordering.eq → m ≡ n
code_eq m n h = ground arith

code_gt : (m n : ℕ) → compare_ℕ m n ≡ Ordering.gt → compare_ℕ n m ≡ Ordering.lt
code_gt m n h = ground arith

-- The order of two texts with a first character, by that of the characters.
then_lt :
    (o r : Ordering)
    → then o r ≡ Ordering.lt
    → (o ≡ Ordering.lt) ⊎ ((o ≡ Ordering.eq) × (r ≡ Ordering.lt))
then_lt Ordering.lt r h = inl refl
then_lt Ordering.eq r h = inr (refl, h)
then_lt Ordering.gt r h = cc

then_gt :
    (o r : Ordering)
    → then o r ≡ Ordering.gt
    → (o ≡ Ordering.gt) ⊎ ((o ≡ Ordering.eq) × (r ≡ Ordering.gt))
then_gt Ordering.lt r h = cc
then_gt Ordering.eq r h = inr (refl, h)
then_gt Ordering.gt r h = inl refl

-- A first character before the other one, or equal ones before texts in order.
cons-IsBefore :
    (c d : Char) (s t : String)
    → (compare_ℕ (code c) (code d) ≡ Ordering.lt) ⊎ ((code c ≡ code d) × IsBefore s t)
    → IsBefore (c ∷ s) (d ∷ t)
cons-IsBefore c d s t (inl first) = compare.cons-cons c d s t ∙ ap (λ o. then o (compare s t)) first
cons-IsBefore c d s t (inr (same, rest)) =
    let equal : compare_ℕ (code c) (code d) ≡ Ordering.eq = ground arith in
    compare.cons-cons c d s t ∙ ap (λ o. then o (compare s t)) equal ∙ rest

IsBefore-cons :
    (c d : Char) (s t : String)
    → IsBefore (c ∷ s) (d ∷ t)
    → (compare_ℕ (code c) (code d) ≡ Ordering.lt) ⊎ ((code c ≡ code d) × IsBefore s t)
IsBefore-cons c d s t h =
    elim (then_lt (compare_ℕ (code c) (code d)) (compare s t)
      (sym (compare.cons-cons c d s t) ∙ h)) [
        | inl first ↦ inl first
        | inr (same, rest) ↦ inr (code_eq (code c) (code d) same, rest)
      ]

pub IsBefore-trans : (s t u : String) → IsBefore s t → IsBefore t u → IsBefore s u
IsBefore-trans [] [] u h k = let no = sym compare.nil-nil ∙ h in cc
IsBefore-trans [] (d ∷ t) [] h k = let no = sym (compare.cons-nil d t) ∙ k in cc
IsBefore-trans [] (d ∷ t) (e ∷ u) h k = compare.nil-cons e u
IsBefore-trans (c ∷ s) [] u h k = let no = sym (compare.cons-nil c s) ∙ h in cc
IsBefore-trans (c ∷ s) (d ∷ t) [] h k = let no = sym (compare.cons-nil d t) ∙ k in cc
IsBefore-trans (c ∷ s) (d ∷ t) (e ∷ u) h k = cons-IsBefore c e s u (elim (IsBefore-cons c d s t h) [
  | inl cd ↦ elim (IsBefore-cons d e t u k) [
    | inl de ↦ inl (code_lt_trans (code c) (code d) (code e) cd de)
    | inr (same, _) ↦ inl (subst (λ n. compare_ℕ (code c) n ≡ Ordering.lt) same cd)
  ]
  | inr (same, st) ↦ elim (IsBefore-cons d e t u k) [
    | inl de ↦ inl (subst (λ n. compare_ℕ n (code e) ≡ Ordering.lt) (sym same) de)
    | inr (equal, tu) ↦ inr (same ∙ equal, IsBefore-trans s t u st tu)
  ]
])

-- A text that does not stand before another one or is equal to it stands behind it.
pub IsBefore-flip : (s t : String) → compare s t ≡ Ordering.gt → IsBefore t s
IsBefore-flip [] [] h = let no = sym compare.nil-nil ∙ h in cc
IsBefore-flip [] (d ∷ t) h = let no = sym (compare.nil-cons d t) ∙ h in cc
IsBefore-flip (c ∷ s) [] h = compare.nil-cons c s
IsBefore-flip (c ∷ s) (d ∷ t) h =
    cons-IsBefore d c t s
      (elim (then_gt (compare_ℕ (code c) (code d)) (compare s t)
        (sym (compare.cons-cons c d s t) ∙ h)) [
          | inl first ↦ inl (code_gt (code c) (code d) first)
          | inr (same, rest) ↦ inr (sym (code_eq (code c) (code d) same), IsBefore-flip s t rest)
        ])

-- Of two texts one stands before the other, or they are equal.
pub order_cases : (s t : String) → IsBefore s t ⊎ ((s ≡ t) ⊎ IsBefore t s)
order_cases s t = elim (Ordering-cases (compare s t)) [
  | inl before ↦ inl before
  | inr (inl same) ↦ inr (inl (path_by_compare s t same))
  | inr (inr behind) ↦ inr (inr (IsBefore-flip s t behind))
]

pub IsBefore-ne : (s t : String) → IsBefore s t → (s == t) ≡ false
IsBefore-ne s t h = rw h refl

pub IsBefore-absurd : (s : String) → IsBefore s s → ⊥
IsBefore-absurd s h = let no = sym (compare_refl s) ∙ h in cc

pub IsBefore-behind : (s t : String) → IsBefore s t → compare t s ≡ Ordering.gt
IsBefore-behind s t h = elim (Ordering-cases (compare t s)) [
  | inl before ↦ absurd (IsBefore-absurd s (IsBefore-trans s t s h before))
  | inr (inl same) ↦
      absurd (IsBefore-absurd s (subst (λ u. IsBefore s u) (path_by_compare t s same) h))
  | inr (inr behind) ↦ behind
]
