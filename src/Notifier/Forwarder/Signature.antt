-- ===== src/Notifier/Forwarder/Signature.antt =====
-- What a forwarder with a key sends, `Post` of internal/notifier/forwarder.go.
use Prim.Native.String.{[] as nil, ◌∷◌ as cons}
use text.Mathlib.TextLemmas.{cons-append}
use notification_controller.Prelude.{
  subst, ◌∷◌, String, ◌<>◌, ◌==◌, ◌≡◌, refl, sym, ap, ◌∙◌, Bool, true, false, [], some, ok, wrap,
  wrap-eq-ok, >>=-eq-ok, nat_eq, len, arith, eq_iff, eq_refl,
}
use notification_controller.Prelude.Dict.{lookup, lookup-insert}
use notification_controller.Api.Event.{Event}
use notification_controller.Prelude.Actions.{next_call-eq-ok, wrap_second-eq-ok}
use notification_controller.Notifier.Payload.{event_payload}
use notification_controller.Notifier.Client.{PostRequest, Http}
use notification_controller.Notifier.Client.Laws.{
  ok-injective, IsAnswered, plain_request, post_message_sound,
}
use notification_controller.Notifier.Forwarder.{Forwarder, sign, signature, set_headers, post}

abbrev is_cons : String → Bool
is_cons nil = false
is_cons (cons r s) = true

signature-ne : (t : String) → (("sha256=" <> t) == "") ≡ false
signature-ne t =
    let starts : is_cons ("sha256=" <> t) ≡ true = ap is_cons (cons-append "s" "ha256=" t) in
    ground (arith, eq_iff ("sha256=" <> t) "", λ (e : "sha256=" <> t ≡ ""). ap is_cons e)

module _ {S Pool : Type 0} (http : Http S Pool) where
  signature_sound :
      (key : String) (event : Event) (sig : String)
      → nat_eq (len key) 0 ≡ false
      → signature http (some key) event ≡ ok sig
      → (json : String) × (http.marshal (event_payload event) ≡ ok json)
        × (sig ≡ "sha256=" <> sign http json key)
  unfolding signature
  signature_sound key event sig full h =
      let (json, marshalled, signed) =
        >>=-eq-ok (wrap "failed marshalling event: " (http.marshal (event_payload event))) _
          (rw (signature, full) at h) in
      (json, wrap-eq-ok _ _ _ marshalled, sym (ok-injective _ _ signed))

  lookup-set_headers :
      (f : Forwarder Pool) (event : Event) (t : String) (req : PostRequest Pool)
      → lookup
          (http.canonical "X-Signature")
          (set_headers http f event ("sha256=" <> t) req).headers
        ≡ some (("sha256=" <> t) ∷ [])
  unfolding set_headers
  lookup-set_headers f event t req =
      rw (set_headers, signature-ne t, lookup-insert, eq_refl (http.canonical "X-Signature")) refl

  -- Where a forwarder with a non-empty key reports success, it has sent a request to its address
  -- with the event's JSON as the body and, as the signature's header, the HMAC of this body under
  -- its key, and the answer's status was 200, 201 or 202.
  pub post_signed :
      (f : Forwarder Pool) (event : Event) (key : String) (before after : S)
      → f.hmac_key ≡ some key
      → nat_eq (len key) 0 ≡ false
      → post http f event before ≡ (after, ok tt)
      → (sent : PostRequest Pool) × (sent.address ≡ f.url)
        × (http.marshal (event_payload event) ≡ ok sent.body)
        × (lookup (http.canonical "X-Signature") sent.headers
            ≡ some (("sha256=" <> sign http sent.body key) ∷ []))
        × IsAnswered http sent before after
  unfolding post set_headers
  post_signed f event key before after keyed full h =
      let (s, sig, signed, h1) =
        next_call-eq-ok (before, signature http f.hmac_key event) _ after h in
      let (json, marshalled, same) =
        signature_sound key event sig full
          (ap (λ k. signature http k event) (sym keyed) ∙ ap (λ e. e.1) signed) in
      let (body, posted, answered) =
        post_message_sound http f.url f.proxy_url f.cert_pool (event_payload event)
          (set_headers http f event sig ∷ []) s after (wrap_second-eq-ok _ _ _ _ h1) in
      let plain = plain_request http f.url f.proxy_url f.cert_pool body in
      let one_json : json ≡ body = ok-injective _ _ (sym marshalled ∙ posted) in
      (
        set_headers http f event sig plain,
        refl,
        posted,
        rw same (
            lookup-set_headers f event (sign http json key) plain
            ∙ ap (λ j. some (("sha256=" <> sign http j key) ∷ [])) one_json),
        subst (λ b. IsAnswered http (set_headers http f event sig plain) b after)
            (sym (ap (λ e. e.0) signed)) answered,
      )
