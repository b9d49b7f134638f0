-- ===== src/Notifier/Client/Laws.antt =====
-- What a request of `postMessage` carries, and when the call is fine.
use notification_controller.Prelude.{
  subst, String, ◌≡◌, ◌⊎◌, ap, sym, ◌∙◌, List, [], Option, ok, wrap, wrap-eq-ok, >>=-eq-ok, arith,
}
use notification_controller.Prelude.Actions.{next_call-eq-ok, wrap_second, wrap_second-eq-ok}
use notification_controller.Notifier.Payload.{Payload}
use notification_controller.Notifier.Client.{
  PostRequest, PostResponse, Http, set_header, apply_options, parse_proxy, make_request,
  check_status, send_request, post_message,
}

pub ok-injective : {A : Type 0} (a b : A) → ok a ≡ ok b → a ≡ b
ok-injective a b h = cc

module _ {S Pool : Type 0} (http : Http S Pool) where
  check_status_sound :
      (response : PostResponse)
      → check_status http response ≡ ok tt
      → (response.status_code ≡ 200) ⊎ (response.status_code ≡ 202) ⊎ (response.status_code ≡ 201)
  unfolding check_status
  check_status_sound response h = ground arith

  -- The request was answered with one of the three statuses that are fine.
  abbrev pub IsAnswered : PostRequest Pool → S → S → Type 0
  IsAnswered sent before after =
      (response : PostResponse) × (http.send sent before ≡ (after, ok response))
      × ((response.status_code ≡ 200) ⊎ (response.status_code ≡ 202) ⊎ (response.status_code ≡ 201))

  send_request-IsAnswered :
      (sent : PostRequest Pool) (before after : S)
      → send_request http sent before ≡ (after, ok tt)
      → IsAnswered sent before after
  unfolding send_request
  send_request-IsAnswered sent before after h =
      let (s, response, answered, fine) =
        next_call-eq-ok (wrap_second "failed to execute request: " (http.send sent before)) _ after
          h in
      (
        response,
        wrap_second-eq-ok _ _ _ _ answered ∙ ap (λ e. (e.0, ok response)) fine,
        check_status_sound response (ap (λ e. e.1) fine),
      )

  -- The request that `make_request` starts from.
  abbrev pub plain_request : String → String → Option Pool → String → PostRequest Pool
  plain_request address proxy pool json = record {
    method = "POST";
    address = address;
    proxy = proxy;
    cert_pool = pool;
    headers = set_header http "Content-Type" "application/json" [];
    body = json;
  }

  make_request_sound :
      (address proxy : String) (pool : Option Pool) (payload : Payload)
      (options : List (PostRequest Pool → PostRequest Pool)) (sent : PostRequest Pool)
      → make_request http address proxy pool payload options ≡ ok sent
      → (json : String) × (http.marshal payload ≡ ok json)
        × (sent ≡ apply_options http options (plain_request address proxy pool json))
  unfolding make_request
  make_request_sound address proxy pool payload options sent h =
      let (_, _, h1) = >>=-eq-ok (parse_proxy http proxy) _ h in
      let (json, marshalled, h2) =
        >>=-eq-ok (wrap "marshalling notification payload failed: " (http.marshal payload)) _ h1 in
      let (_, _, h3) =
        >>=-eq-ok (wrap "failed to create a new request: " (http.new_request address)) _ h2 in
      (json, wrap-eq-ok _ _ _ marshalled, sym (ok-injective _ _ h3))

  -- Where `postMessage` is fine, it has sent the JSON of the payload.
  pub post_message_sound :
      (address proxy : String) (pool : Option Pool) (payload : Payload)
      (options : List (PostRequest Pool → PostRequest Pool)) (before after : S)
      → post_message http address proxy pool payload options before ≡ (after, ok tt)
      → (json : String) × (http.marshal payload ≡ ok json)
        × IsAnswered
            (apply_options http options (plain_request address proxy pool json))
            before
            after
  unfolding post_message
  post_message_sound address proxy pool payload options before after h =
      let (s, sent, made, done) =
        next_call-eq-ok (before, make_request http address proxy pool payload options) _ after h in
      let (json, marshalled, same) =
        make_request_sound address proxy pool payload options sent (ap (λ e. e.1) made) in
      (
        json,
        marshalled,
        subst (λ r. IsAnswered r before after) same
            (send_request-IsAnswered sent before after
              (ap (λ e. send_request http sent e.0) made ∙ done)),
      )
