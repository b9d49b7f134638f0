-- ===== src/Prelude/Slash.antt =====
-- Texts without a slash: what a slash after them leaves known.
use Prim.Native.Char.{code}
use Prim.Native.String.{String, [] as nil, ◌∷◌ as cons, ◌++◌ as ◌<>◌}
use mathlib.Core.Path.{◌≡◌, refl, sym, ap, ap₂, ◌∙◌}
use mathlib.Core.Logic.{◌≢◌}
use mathlib.Core.List.{[], ◌∷◌}
use native.Mathlib.Omega.{arith}
use text.Mathlib.TextLemmas.{
  nil-append, cons-append, append_cancel_left, head-eq_of_cons-eq, tail-eq_of_cons-eq,
}
use notification_controller.Prelude.Text.{split}

abbrev pub HasNoSlash : String → Type 0
HasNoSlash nil = Unit
HasNoSlash (cons c s) = (code c ≢ b'/') × HasNoSlash s

slash_text : (r : String) → "/" <> r ≡ cons "/" (nil <> r)
slash_text r = cons-append "/" nil r

-- Texts without a slash in front of one can be read off.
pub cut_slash :
    (n n' r r' : String)
    → HasNoSlash n
    → HasNoSlash n'
    → n <> ("/" <> r) ≡ n' <> ("/" <> r')
    → (n ≡ n') × (r ≡ r')
cut_slash nil nil r r' h h' e =
    (refl, append_cancel_left "/" r r' (sym (nil-append _) ∙ e ∙ nil-append _))
cut_slash nil (cons d n') r r' h h' e = absurd (
    h'.0 (
      ap code (
        sym
          (head-eq_of_cons-eq (sym (slash_text r) ∙ sym (nil-append _) ∙ e ∙ cons-append d n' _)))))
cut_slash (cons c n) nil r r' h h' e = absurd (
    h.0 (ap code (head-eq_of_cons-eq (sym (cons-append c n _) ∙ e ∙ nil-append _ ∙ slash_text r'))))
cut_slash (cons c n) (cons d n') r r' h h' e =
    let e' = sym (cons-append c n _) ∙ e ∙ cons-append d n' _ in
    let (same, rest) = cut_slash n n' r r' h.1 h'.1 (tail-eq_of_cons-eq e') in
    (ap₂ cons (head-eq_of_cons-eq e') same, rest)

pub split_plain : (s : String) → HasNoSlash s → split 47 s ≡ s ∷ []
unfolding split
split_plain nil h = ground arith
split_plain (cons c s) h = ground (arith, split_plain s h.1)

pub split-append : (g r : String) → HasNoSlash g → split 47 (g <> ("/" <> r)) ≡ g ∷ split 47 r
unfolding split
split-append nil r h = rw (nil-append, cons-append "/" nil r, nil-append) refl
split-append (cons c g) r h = rw cons-append (ground (arith, split-append g r h.1))
