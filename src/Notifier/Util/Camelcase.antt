-- ===== src/Notifier/Util/Camelcase.antt =====
-- The parts of a camel case word, `splitCamelcase` of internal/notifier/util.go.
use Prim.Native.Char.{Char}
use Prim.Native.String.{[] as nil, ◌∷◌ as cons}
use text.Mathlib.TextLemmas.{nil-append, cons-append, append-nil, append_assoc}
use notification_controller.Prelude.{
  ℕ, String, ◌<>◌, ◌≡◌, ◌≢◌, refl, sym, ap, ◌∙◌, inl, inr, Bool, true, false, ◌&&◌, List, [], ◌∷◌,
  All, nat_eq, arith, Bool-cases,
}
use notification_controller.Api.Event.{Unicode}
use notification_controller.Notifier.Util.{
  class_of, append_last, append_new, split_classes, first_is, cut_last, move_upper, move_all,
  non_empty, split_camelcase,
}

-- The parts, one after the other.
abbrev pub joined : List String → String
joined [] = nil
joined (x ∷ xs) = x <> joined xs

joined-append_new :
    (xs : List String) (r : Char) → joined (append_new xs r) ≡ joined xs <> cons r nil
unfolding append_new
joined-append_new [] r = rw (append-nil, nil-append) refl
joined-append_new (x ∷ xs) r =
    rw (joined-append_new xs r) (sym (append_assoc x (joined xs) (cons r nil)))

joined-append_last :
    (xs : List String) (r : Char) → joined (append_last xs r) ≡ joined xs <> cons r nil
unfolding append_last
joined-append_last [] r = rw (append-nil, nil-append) refl
joined-append_last (x ∷ []) r = rw (append-nil, append-nil) refl
joined-append_last (x ∷ (y ∷ xs)) r =
    rw (joined-append_last (y ∷ xs) r) (sym (append_assoc x (joined (y ∷ xs)) (cons r nil)))

cut_last-append : (x : String) → (cut_last x).0 <> (cut_last x).1 ≡ x
unfolding cut_last
cut_last-append nil = nil-append nil
cut_last-append (cons r nil) = nil-append (cons r nil)
cut_last-append (cons r (cons r' s)) = rw cons-append (ap (cons r) (cut_last-append (cons r' s)))

joined-non_empty : (xs : List String) → joined (non_empty xs) ≡ joined xs
unfolding non_empty
joined-non_empty [] = refl
joined-non_empty (nil ∷ xs) = joined-non_empty xs ∙ sym (nil-append (joined xs))
joined-non_empty (cons r s ∷ xs) = ap (λ t. cons r s <> t) (joined-non_empty xs)

abbrev is_cons : String → Bool
is_cons nil = false
is_cons (cons r s) = true

true-ne-false : true ≢ false
true-ne-false h = ground arith

non_empty-ne : (xs : List String) → All (λ e. e ≢ nil) (non_empty xs)
unfolding non_empty
non_empty-ne [] = tt
non_empty-ne (nil ∷ xs) = non_empty-ne xs
non_empty-ne (cons r s ∷ xs) = (λ h. true-ne-false (ap is_cons h), non_empty-ne xs)

module _ (u : Unicode) where
  joined-move_upper : (x : String) (ys : List String) → joined (move_upper u x ys) ≡ x <> joined ys
  unfolding move_upper
  joined-move_upper x [] = refl
  joined-move_upper x (y ∷ ys) =
      elim (Bool-cases (first_is u.is_upper x && first_is u.is_lower y)) [
        | inl holds ↦
            rw (move_upper, holds)
              (ap (λ t. (cut_last x).0 <> t)
                  (joined-move_upper ((cut_last x).1 <> y) ys
                    ∙ append_assoc (cut_last x).1 y (joined ys))
                ∙ sym (append_assoc (cut_last x).0 (cut_last x).1 (y <> joined ys))
                ∙ ap (λ t. t <> (y <> joined ys)) (cut_last-append x))
        | inr fails ↦ rw (move_upper, fails) (ap (λ t. x <> t) (joined-move_upper y ys))
      ]

  onward :
      (runes : List String) (r : Char) (src : String) (next : List String) {t : String}
      → joined next ≡ joined runes <> cons r nil
      → t ≡ joined next <> src
      → t ≡ joined runes <> cons r src
  onward runes r src next added rest =
      rest
      ∙ ap (λ t. t <> src) added
      ∙ append_assoc (joined runes) (cons r nil) src
      ∙ ap (λ t. joined runes <> t) (cons-append r nil src ∙ ap (cons r) (nil-append src))

  joined-split_classes :
      (runes : List String) (last_class : ℕ) (src : String)
      → joined (split_classes u runes last_class src) ≡ joined runes <> src
  unfolding split_classes
  joined-split_classes runes last_class nil = sym (append-nil (joined runes))
  joined-split_classes runes last_class (cons r src) =
      elim (Bool-cases (nat_eq (class_of u r) last_class)) [
        | inl same ↦
            rw (split_classes, same)
              (onward runes r src (append_last runes r) (joined-append_last runes r)
                (joined-split_classes (append_last runes r) (class_of u r) src))
        | inr other ↦
            rw (split_classes, other)
              (onward runes r src (append_new runes r) (joined-append_new runes r)
                (joined-split_classes (append_new runes r) (class_of u r) src))
      ]

  joined-move_all : (parts : List String) → joined (move_all u parts) ≡ joined parts
  unfolding move_all
  joined-move_all [] = refl
  joined-move_all (x ∷ xs) = joined-move_upper x xs

  -- No part of a word is empty, and the parts, one after the other, are the word.
  pub joined-split_camelcase :
      (src : String)
      → (joined (split_camelcase u src) ≡ src) × All (λ e. e ≢ nil) (split_camelcase u src)
  unfolding split_camelcase
  joined-split_camelcase src =
      let parts = split_classes u [] 0 src in
      (
        joined-non_empty (move_all u parts)
            ∙ joined-move_all parts
            ∙ joined-split_classes [] 0 src
            ∙ nil-append src,
        non_empty-ne (move_all u parts),
      )
