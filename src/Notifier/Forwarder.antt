-- ===== src/Notifier/Forwarder.antt =====
-- The notifier that forwards an event, internal/notifier/forwarder.go. JSON, the hash and the HTTP
-- client are parameters of the client.
pub mod Signature
use notification_controller.Prelude.{
  String, ◌<>◌, ◌==◌, Bool, false, [], ◌∷◌, Option, none, some, if◌then◌else◌, Result, ok, err,
  ◌>>=◌, ◌>>◌, wrap, nat_eq, len,
}
use notification_controller.Prelude.Dict.{Dict}
use notification_controller.Prelude.Actions.{Action, ◌>>>◌, lift, wrap_action}
use notification_controller.Api.Event.{Event}
use notification_controller.Notifier.Payload.{event_payload}
use notification_controller.Notifier.Client.{PostRequest, Http, Header, set_header, post_message}

-- A `nil` key is `none`.
pub record Forwarder (Pool : Type 0) : Type 0 where
  pub url : String
  pub proxy_url : String
  pub headers : Dict String
  pub cert_pool : Option Pool
  pub hmac_key : Option String

abbrev is_empty : Option String → Bool
is_empty none = false
is_empty (some key) = nat_eq (len key) 0

module _ {S Pool : Type 0} (http : Http S Pool) where
  unfoldable pub new_forwarder :
      String → String → Dict String → Option Pool → Option String → Result (Forwarder Pool)
  new_forwarder hook_url proxy_url headers cert_pool hmac_key = do
    wrap ("invalid hook URL " <> (hook_url <> ": ")) (http.parse_request_uri hook_url)
    if is_empty hmac_key
        then err "HMAC key is empty"
        else ok (record {
          url = hook_url;
          proxy_url = proxy_url;
          headers = headers;
          cert_pool = cert_pool;
          hmac_key = hmac_key;
        })

  unfoldable pub sign : String → String → String
  sign payload key = http.hmac_sha256_hex key payload

  -- `sig`, empty without a key.
  unfoldable pub signature : Option String → Event → Result String
  unfolding sign
  signature none event = ok ""
  signature (some key) event = if nat_eq (len key) 0 then ok "" else (do
    event_json ← wrap "failed marshalling event: " (http.marshal (event_payload event))
    ok ("sha256=" <> sign event_json key))

  -- The loop over the forwarder's headers.
  unfoldable pub set_all : Dict String → Header → Header
  set_all [] headers = headers
  set_all ((key, val) ∷ more) headers = set_all more (set_header http key val headers)

  -- The function that sets the request's headers.
  unfoldable pub set_headers : Forwarder Pool → Event → String → PostRequest Pool → PostRequest Pool
  unfolding set_all
  set_headers f event sig req =
      let own =
        set_all f.headers
          (set_header http "gotk-component" event.reporting_controller req.headers) in
      record req { headers = if sig == "" then own else set_header http "X-Signature" sig own }

  unfoldable pub post : Forwarder Pool → Event → Action S (Unit {0})
  unfolding signature set_headers post_message
  post f event = lift (signature f.hmac_key event) >>> λ sig. wrap_action "postMessage failed: " (
      post_message http f.url f.proxy_url f.cert_pool (event_payload event)
        (set_headers f event sig ∷ []))
