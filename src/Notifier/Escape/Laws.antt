-- ===== src/Notifier/Escape/Laws.antt =====
-- That the loops of `escapeString` end, with each special character behind one backslash.
use Prim.Native.String.{[] as nil, ◌∷◌ as cons}
use text.Mathlib.TextLemmas.{nil-append, cons-append, append_assoc, append-nil}
use text.Mathlib.TextEquality.{Char-path}
use notification_controller.Prelude.{
  ℕ, zero, suc, ◌+◌, ◌<◌, String, Char, code, ◌<>◌, ◌≡◌, refl, sym, ap, ◌∙◌, subst, inl, inr, Bool,
  not, true, false, ◌||◌, ◌&&◌, none, some, if◌then◌else◌, nat_eq, nat_eq_refl, nat_eq-cases,
  Bool-cases, ltb, arith,
}
use notification_controller.Notifier.Escape.{
  count, take, drop, index_rune, escape_loop, escape_all, special_chars, escape_string,
}

take-append : (p s : String) → take (count p) (p <> s) ≡ p
unfolding take
take-append nil s = refl
take-append (cons c p) s = rw (cons-append, take-append p s) refl

drop-append : (p s : String) → drop (count p) (p <> s) ≡ s
unfolding drop
drop-append nil s = nil-append s
drop-append (cons c p) s = rw (cons-append, drop-append p s) refl

count-append : (p s : String) → count (p <> s) ≡ count p + count s
count-append nil s = rw nil-append (omega arith)
count-append (cons c p) s = rw cons-append (omega (arith, count-append p s))

-- A backslash in front of each occurrence of a character.
unfoldable pub mark : Char → String → String
mark c nil = nil
mark c (cons d s) =
    let rest = mark c s in if nat_eq (code d) (code c) then cons "\\" (cons d rest) else cons d rest

-- Where a character is first, if it is in the text.
data Found (c : Char) (s : String) : Type 0 where
  nowhere : index_rune s c ≡ none → mark c s ≡ s → Found c s
  at :
      (q : String) (d : Char) (r : String)
      → s ≡ q <> cons d r
      → index_rune s c ≡ some (count q)
      → mark c s ≡ q <> cons "\\" (cons d (mark c r))
      → Found c s

Found-cons :
    (c d : Char) (s : String) → nat_eq (code d) (code c) ≡ false → Found c s → Found c (cons d s)
unfolding index_rune mark
Found-cons c d s other (nowhere missing same) =
    nowhere (rw (other, missing) refl) (rw (other, same) refl)
Found-cons c d s other (at q e r split index marked) =
    at (cons d q) e r (rw (cons-append, ← split) refl) (rw (other, index) refl)
      (rw (other, marked, cons-append) refl)

find : (c : Char) (s : String) → Found c s
unfolding index_rune mark
find c nil = nowhere refl refl
find c (cons d s) = elim (nat_eq-cases (code d) (code c)) [
  | inl same ↦
      at nil d s (sym (nil-append _)) (rw (same, nat_eq_refl (code c)) refl)
        (rw (same, nat_eq_refl (code c), nil-append) refl)
  | inr other ↦ Found-cons c d s other (find c s)
]

take_at : (p q r : String) → take (count p + count q) (p <> (q <> r)) ≡ p <> q
take_at p q r =
    ap (λ t. take (count p + count q) t) (sym (append_assoc p q r))
    ∙ ap (λ n. take n ((p <> q) <> r)) (sym (count-append p q))
    ∙ take-append (p <> q) r

drop_at : (p q r : String) → drop (count p + count q) (p <> (q <> r)) ≡ r
drop_at p q r =
    ap (λ t. drop (count p + count q) t) (sym (append_assoc p q r))
    ∙ ap (λ n. drop n ((p <> q) <> r)) (sym (count-append p q))
    ∙ drop-append (p <> q) r

-- A text with a backslash and a character behind it.
abbrev behind : String → Char → String
behind p d = p <> cons "\\" (cons d nil)

behind-append : (p : String) (d : Char) (r : String) → p <> cons "\\" (cons d r) ≡ behind p d <> r
behind-append p d r = sym (
    append_assoc p (cons "\\" (cons d nil)) r
    ∙ ap (λ t. p <> t)
        (cons-append _ _ r
          ∙ ap (λ t. cons "\\" t) (cons-append d nil r ∙ ap (cons d) (nil-append r))))

ltb_irrefl : (n : ℕ) → ltb n n ≡ false
ltb_irrefl n = ground arith

-- One turn of the loop, by what the loop does from the next start.
loop_turn :
    (fuel : ℕ) (c : Char) (p s : String)
    → ((q r : String)
        → count r < fuel
        → escape_loop fuel c (q <> r) (count q) ≡ some (q <> mark c r))
    → count s < suc fuel
    → ltb (count p) (count (p <> s)) ≡ true
    → Found c s
    → escape_loop (suc fuel) c (p <> s) (count p) ≡ some (p <> mark c s)
unfolding escape_loop
loop_turn fuel c p s next bound more (nowhere missing same) =
    rw (more, drop-append p s, missing, same) refl
loop_turn fuel c p s next bound more (at q d r split index marked) =
    let text =
      ap (λ t. (p <> q) <> t) (cons-append "\\" nil (cons d r) ∙ ap (cons "\\") (nil-append _))
      ∙ behind-append (p <> q) d r in
    let start : count p + count q + 2 ≡ count (behind (p <> q) d) =
      omega (arith, count-append p q, count-append (p <> q) (cons "\\" (cons d nil))) in
    let result = sym (append_assoc p q _) ∙ behind-append (p <> q) d (mark c r) in
    rw
      (
        more,
        drop-append p s,
        index,
        marked,
        split,
        take_at p q (cons d r),
        drop_at p q (cons d r),
        text,
        start,
        result,
      )
      (next (behind (p <> q) d) r
        (omega (arith, bound, ap count split ∙ count-append q (cons d r))))

loop_ends :
    (fuel : ℕ) (c : Char) (p s : String)
    → count s < fuel
    → escape_loop fuel c (p <> s) (count p) ≡ some (p <> mark c s)
unfolding escape_loop mark
loop_ends zero c p s bound = absurd (omega arith)
loop_ends (suc fuel) c p nil bound = rw (append-nil) rw (ltb_irrefl (count p)) refl
loop_ends (suc fuel) c p (cons d s) bound =
    loop_turn fuel c p (cons d s) (λ q r less. loop_ends fuel c q r less) bound
      (ground (arith, count-append p (cons d s))) (find c (cons d s))

-- What the outer loop does, character by character.
unfoldable mark_all : String → String → String
unfolding mark
mark_all nil s = s
mark_all (cons c chars) s = mark_all chars (mark c s)

loop_start : (c : Char) (s : String) → escape_loop (suc (count s)) c s 0 ≡ some (mark c s)
loop_start c s =
    let start = loop_ends (suc (count s)) c nil s (omega arith) in
    rw (nil-append s, nil-append (mark c s)) at start

escape_all-ends : (chars s : String) → escape_all chars s ≡ some (mark_all chars s)
unfolding escape_all mark_all
escape_all-ends nil s = refl
escape_all-ends (cons c chars) s =
    rw (escape_all, loop_start c s) (escape_all-ends chars (mark c s))

same_test : (d c : Char) → code d ≡ code c → nat_eq (code d) (code c) ≡ true
same_test d c same = rw same (nat_eq_refl (code c))

both_false : (a b : Bool) → (a || b) ≡ false → (a ≡ false) × (b ≡ false)
both_false a b h = ground arith

mark-append : (c : Char) (s t : String) → mark c (s <> t) ≡ mark c s <> mark c t
unfolding mark
mark-append c nil t = rw (nil-append, nil-append) refl
mark-append c (cons d s) t = elim (nat_eq-cases (code d) (code c)) [
  | inl same ↦
      rw (cons-append, same_test d c same, mark-append c s t, cons-append, cons-append) refl
  | inr other ↦ rw (cons-append, other, mark-append c s t, cons-append) refl
]

mark_all-append :
    (chars s t : String) → mark_all chars (s <> t) ≡ mark_all chars s <> mark_all chars t
unfolding mark_all
mark_all-append nil s t = refl
mark_all-append (cons c chars) s t = rw (mark-append c s t, mark_all-append chars) refl

-- Whether a character is one of some.
unfoldable pub is_among : String → Char → Bool
is_among nil d = false
is_among (cons c chars) d = nat_eq (code d) (code c) || is_among chars d

-- No character stands twice.
abbrev Distinct : String → Type 0
Distinct nil = Unit
Distinct (cons c chars) = (is_among chars c ≡ false) × Distinct chars

-- One pass over the text, with a backslash in front of each special character.
unfoldable pub escaped : String → String → String
unfolding is_among
escaped chars nil = nil
escaped chars (cons d s) =
    let rest = escaped chars s in if is_among chars d then cons "\\" (cons d rest) else cons d rest

mark_all-other :
    (chars : String) (d : Char)
    → is_among chars d ≡ false
    → mark_all chars (cons d nil) ≡ cons d nil
unfolding mark_all mark is_among
mark_all-other nil d other = refl
mark_all-other (cons c chars) d other =
    let (here, rest) = both_false (nat_eq (code d) (code c)) (is_among chars d) other in
    rw here (mark_all-other chars d rest)

mark_all-behind :
    (chars : String) (d : Char)
    → is_among chars d ≡ false
    → is_among chars "\\" ≡ false
    → mark_all chars (cons "\\" (cons d nil)) ≡ cons "\\" (cons d nil)
unfolding mark_all mark is_among
mark_all-behind nil d other plain = refl
mark_all-behind (cons c chars) d other plain =
    let (here, rest) = both_false (nat_eq (code d) (code c)) (is_among chars d) other in
    let (plain_here, plain_rest) = both_false (nat_eq 92 (code c)) (is_among chars "\\") plain in
    rw (plain_here, here) (mark_all-behind chars d rest plain_rest)

mark_all-same :
    (chars : String) (d : Char)
    → is_among chars d ≡ true
    → Distinct chars
    → is_among chars "\\" ≡ false
    → mark_all chars (cons d nil) ≡ cons "\\" (cons d nil)
unfolding mark_all mark is_among
mark_all-same nil d found distinct plain = cc
mark_all-same (cons c chars) d found (fresh, distinct) plain =
    elim (nat_eq-cases (code d) (code c)) [
      | inl same ↦ rw (same_test d c same) (
          mark_all-behind chars d
            (subst (λ e. is_among chars e ≡ false) (sym (Char-path d c same)) fresh)
            (both_false (nat_eq 92 (code c)) (is_among chars "\\") plain).1)
      | inr other ↦ rw other (
          mark_all-same chars d (ground arith) distinct
            (both_false (nat_eq 92 (code c)) (is_among chars "\\") plain).1)
    ]

mark_all-nil : (chars : String) → mark_all chars nil ≡ nil
unfolding mark_all mark
mark_all-nil nil = refl
mark_all-nil (cons c chars) = mark_all-nil chars

escaped-cons :
    (chars : String) (d : Char) (s : String)
    → escaped chars (cons d s) ≡ escaped chars (cons d nil) <> escaped chars s
unfolding escaped
escaped-cons chars d s = elim (Bool-cases (is_among chars d)) [
  | inl found ↦ rw (found, cons-append, cons-append, nil-append) refl
  | inr other ↦ rw (other, cons-append, nil-append) refl
]

module _ (chars : String) (distinct : Distinct chars) (plain : is_among chars "\\" ≡ false) where
  mark_all-char :
      (d : Char) → mark_all (cons "\\" chars) (cons d nil) ≡ escaped (cons "\\" chars) (cons d nil)
  unfolding mark_all mark escaped is_among
  mark_all-char d = elim (nat_eq-cases (code d) 92) [
    | inl same ↦ rw (same_test d "\\" same) (
        mark_all-behind chars d
          (subst (λ e. is_among chars e ≡ false) (sym (Char-path d "\\" same)) plain) plain)
    | inr other ↦ elim (Bool-cases (is_among chars d)) [
      | inl found ↦ rw (other, found) (mark_all-same chars d found distinct plain)
      | inr free ↦ rw (other, free) (mark_all-other chars d free)
    ]
  ]

  mark_all-escaped : (s : String) → mark_all (cons "\\" chars) s ≡ escaped (cons "\\" chars) s
  unfolding escaped
  mark_all-escaped nil = mark_all-nil (cons "\\" chars)
  mark_all-escaped (cons d s) =
      ap (mark_all (cons "\\" chars)) (sym (cons-append d nil s ∙ ap (cons d) (nil-append s)))
      ∙ mark_all-append (cons "\\" chars) (cons d nil) s
      ∙ ap (λ t. t <> mark_all (cons "\\" chars) s) (mark_all-char d)
      ∙ ap (λ t. escaped (cons "\\" chars) (cons d nil) <> t) (mark_all-escaped s)
      ∙ sym (escaped-cons (cons "\\" chars) d s)

unfoldable has_distinct : String → Bool
unfolding is_among
has_distinct nil = true
has_distinct (cons c chars) = not (is_among chars c) && has_distinct chars

has_distinct_sound : (chars : String) → has_distinct chars ≡ true → Distinct chars
unfolding has_distinct
has_distinct_sound nil h = tt
has_distinct_sound (cons c chars) h = (ground arith, has_distinct_sound chars (ground arith))

-- The loops do not run out of fuel, and what they return is the text in which one pass has put a
-- backslash in front of each special character.
pub escape_string_ends :
    (s : String)
    → (escape_all special_chars s ≡ some (escaped special_chars s))
      × (escape_string s ≡ escaped special_chars s)
unfolding escape_string is_among has_distinct
escape_string_ends s =
    let ends =
      escape_all-ends special_chars s
      ∙ ap some (
          mark_all-escaped ".-_[]()~>`#+=|{}!*" (has_distinct_sound ".-_[]()~>`#+=|{}!*" refl) refl
            s) in
    (ends, rw ends refl)
