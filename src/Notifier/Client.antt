-- ===== src/Notifier/Client.antt =====
-- The HTTP POST of internal/notifier/client.go. JSON, URLs, hashes, the canonical form of a header's
-- name and the HTTP client with its retries are parameters; `S` is the state of the servers.
pub mod Laws
use notification_controller.Prelude.{
  ℕ, String, ◌<>◌, ◌==◌, ◌||◌, List, [], ◌∷◌, ◌++◌, Option, none, some, if◌then◌else◌, Result, ok,
  err, ◌>>=◌, ◌>>◌, wrap, nat_eq,
}
use notification_controller.Prelude.Dict.{Dict, lookup, insert}
use notification_controller.Prelude.Actions.{Action, ◌>>>◌, lift, wrap_action}
use notification_controller.Notifier.Payload.{Payload}

-- url.URL: three of its fields, and what else it has.
pub record Url : Type 0 where
  pub scheme : String
  pub host : String
  pub path : String
  pub others : String

-- http.Header
abbrev pub Header : Type 0
Header = Dict (List String)

pub record PostRequest (Pool : Type 0) : Type 0 where
  pub method : String
  pub address : String
  pub proxy : String
  pub cert_pool : Option Pool
  pub headers : Header
  pub body : String

pub record PostResponse : Type 0 where
  pub status_code : ℕ
  pub body : Result String

pub record Http (S Pool : Type 0) : Type 0 where
  -- url.Parse, url.ParseRequestURI, and the method `String` of a URL
  pub url_parse : String → Result Url
  pub parse_request_uri : String → Result Url
  pub url_string : Url → String
  -- path.Join of two paths
  pub path_join : String → String → String
  -- json.Marshal
  pub marshal : Payload → Result String
  -- retryablehttp.NewRequest with an address, and the client's Do
  pub new_request : String → Result (Unit {0})
  pub send : PostRequest Pool → S → S × Result PostResponse
  -- textproto.CanonicalMIMEHeaderKey, which Header.Set and Header.Add apply
  pub canonical : String → String
  -- In hexadecimal digits, the HMAC-SHA256 of a payload under a key, and the SHA1 of a text.
  pub hmac_sha256_hex : String → String → String
  pub sha1_hex : String → String
  pub base64 : String → String
  -- The verbs %d and %q
  pub show_number : ℕ → String
  pub quote : String → String

abbrev pub values_or_none : Option (List String) → List String
values_or_none none = []
values_or_none (some values) = values

module _ {S Pool : Type 0} (http : Http S Pool) where
  -- req.Header.Set(key, value)
  abbrev pub set_header : String → String → Header → Header
  set_header key value headers = insert (http.canonical key) (value ∷ []) headers

  -- req.Header.Add(key, value)
  abbrev pub add_header : String → String → Header → Header
  add_header key value headers =
      insert (http.canonical key)
        (values_or_none (lookup (http.canonical key) headers) ++ (value ∷ [])) headers

  -- The loop over the request's options.
  abbrev pub apply_options :
      List (PostRequest Pool → PostRequest Pool) → PostRequest Pool → PostRequest Pool
  apply_options [] request = request
  apply_options (option ∷ options) request = apply_options options (option request)

  abbrev pub parse_proxy : String → Result (Unit {0})
  parse_proxy proxy =
      if proxy == ""
      then ok tt
      else wrap ("unable to parse proxy URL '" <> (proxy <> "', error: "))
          (http.url_parse proxy >>= λ _. ok tt)

  -- The request of `postMessage`.
  unfoldable pub make_request :
      String
      → String
      → Option Pool
      → Payload
      → List (PostRequest Pool → PostRequest Pool)
      → Result (PostRequest Pool)
  make_request address proxy cert_pool payload options = do
    parse_proxy proxy
    json ← wrap "marshalling notification payload failed: " (http.marshal payload)
    wrap "failed to create a new request: " (http.new_request address)
    ok (
        apply_options options (record {
          method = "POST";
          address = address;
          proxy = proxy;
          cert_pool = cert_pool;
          headers = set_header "Content-Type" "application/json" [];
          body = json;
        }))

  -- The end of `postMessage`, on the answer.
  unfoldable pub check_status : PostResponse → Result (Unit {0})
  check_status resp =
      if nat_eq resp.status_code 200 || nat_eq resp.status_code 202 || nat_eq resp.status_code 201
      then ok tt
      else (do
        b ← wrap "unable to read response body, " resp.body
        err (
            "request failed with status code "
            <> (http.show_number resp.status_code <> (", " <> b))))

  unfoldable pub send_request : PostRequest Pool → Action S (Unit {0})
  unfolding check_status
  send_request request = wrap_action "failed to execute request: " (http.send request) >>> λ resp.
      lift (check_status resp)

  unfoldable pub post_message :
      String
      → String
      → Option Pool
      → Payload
      → List (PostRequest Pool → PostRequest Pool)
      → Action S (Unit {0})
  unfolding make_request send_request
  post_message address proxy cert_pool payload options =
      lift (make_request address proxy cert_pool payload options) >>> send_request
