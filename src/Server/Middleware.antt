-- ===== src/Server/Middleware.antt =====
-- The chain of handlers of internal/server/event_server.go. A handler maps a request to an
-- outcome: a status and effects of type `A`, or a panic, which is what `eventKeyFunc` and
-- `handleEvent` do without an event in the request's context. The rate limiter is that of another
-- package: a parameter.
use notification_controller.Prelude.{
  ℕ, String, ◌≡◌, ◌≢◌, ◌⊎◌, ◌||◌, Bool, true, false, [], ◌∷◌, Option, none, some, Result, ok, err,
  nat_eq, arith, Result-cases, refl, ap, ◌∙◌, inl, inr,
}
use mathlib.Core.List.{foldl}
use notification_controller.Api.Event.{Event, EventApi, Unicode}
use notification_controller.Server.Metadata.{cleanup_metadata}
use notification_controller.Server.EventKey.{event_key_func}

-- What reading and closing the body give, and the event of the request's context.
pub record Request : Type 0 where
  pub body : Result String
  pub closed : Result (Unit {0})
  pub event : Option Event

pub record Response (A : Type 0) : Type 0 where
  pub status : ℕ
  pub effects : A
  -- "Discarding event, rate limiting duplicate events" was logged.
  pub discard_logged : Bool

pub data Outcome (A : Type 0) : Type 0 where
  responded : Response A → Outcome A
  panicked : Outcome A

abbrev pub Handler : Type 0 → Type 0
Handler A = Request → Outcome A

module _ {A : Type 0} (no_effects : A) where
  abbrev pub write_header : ℕ → Outcome A
  write_header status =
      responded (record { status = status; effects = no_effects; discard_logged = false })

  -- `unmarshal` is json.Unmarshal into an event.
  unfoldable pub event_middleware :
      EventApi → Unicode → (String → Result Event) → Handler A → Handler A
  event_middleware api u unmarshal h r = elim r.body [
    | err _ ↦ write_header 400
    | ok body ↦ elim r.closed [
      | err _ ↦ write_header 400
      | ok _ ↦ elim (unmarshal body) [
        | err _ ↦ write_header 400
        | ok event ↦
            h (record {
              body = ok body;
              closed = ok tt;
              event = some (cleanup_metadata api u event);
            })
      ]
    ]
  ]

abbrev log_if_limited : {A : Type 0} → Outcome A → Outcome A
log_if_limited panicked = panicked
log_if_limited (responded response) =
    responded
      (record response { discard_logged = response.discard_logged || nat_eq response.status 429 })

-- The status is what the inner handler wrote to the recorder.
unfoldable pub log_rate_limit_middleware : {A : Type 0} → Handler A → Handler A
log_rate_limit_middleware h r = log_if_limited (h r)

-- `eventKeyFunc` on a request: a panic where the context has no event.
unfoldable pub request_key : EventApi → (String → String) → Request → Option String
request_key api sha256_hex r = elim r.event [
  | none ↦ none
  | some event ↦ some (event_key_func api sha256_hex event)
]

-- `handleEvent` on a request, over what it does with the event.
unfoldable pub event_handler : {A : Type 0} → (Event → ℕ × A) → Handler A
event_handler handle r = elim r.event [
  | none ↦ panicked
  | some event ↦
      let (status, effects) = handle event in
      responded (record { status = status; effects = effects; discard_logged = false })
]

-- httplimit's `Handle` over its store and key function, as a parameter. It takes the key of the
-- request, where a panic is a panic, and either calls the handler with the same request or answers
-- 429 by itself.
pub record IsLimiter {A : Type 0} (no_effects : A)
    (limit : (Request → Option String) → Handler A → Handler A) : Type 0 where
  pub without_key :
      (key : Request → Option String) (h : Handler A) (r : Request)
      → key r ≡ none
      → limit key h r ≡ panicked
  pub with_key :
      (key : Request → Option String) (h : Handler A) (r : Request) (k : String)
      → key r ≡ some k
      → (limit key h r ≡ h r) ⊎ (limit key h r ≡ write_header no_effects 429)

module _ {A : Type 0} (no_effects : A) (api : EventApi) (u : Unicode) (sha256_hex : String → String)
    (unmarshal : String → Result Event) (handle : Event → ℕ × A)
    (limit : (Request → Option String) → Handler A → Handler A) where
  -- The loop of `ListenAndServe` over the middlewares: the last one is the outermost.
  unfoldable pub serve : Handler A
  unfolding event_middleware log_rate_limit_middleware request_key event_handler
  serve =
      foldl (λ handler middleware. middleware handler) (event_handler handle)
        (limit (request_key api sha256_hex)
          ∷ log_rate_limit_middleware
          ∷ event_middleware no_effects api u unmarshal
          ∷ [])

  -- The body can be read, closed and decoded.
  pub record Decodes (r : Request) (event : Event) : Type 0 where
    pub body : String
    pub read : r.body ≡ ok body
    pub closed : r.closed ≡ ok tt
    pub decoded : unmarshal body ≡ ok event

  serve_inner :
      (r : Request) (event : Event)
      → Decodes r event
      → (r' : Request) × (r'.event ≡ some (cleanup_metadata api u event))
        × (serve r ≡ log_if_limited (limit (request_key api sha256_hex) (event_handler handle) r'))
  unfolding serve
  serve_inner r event d = (
    record { body = ok d.body; closed = ok tt; event = some (cleanup_metadata api u event) },
    refl,
    ground (arith, d.read, d.closed, d.decoded),
  )

  request_key_lem :
      (r : Request) {event : Event}
      → r.event ≡ some event
      → request_key api sha256_hex r ≡ some (event_key_func api sha256_hex event)
  unfolding request_key
  request_key_lem r has = ground arith

  event_handler_lem :
      (r : Request) {event : Event}
      → r.event ≡ some event
      → event_handler handle r
        ≡ responded (record {
          status = (handle event).0;
          effects = (handle event).1;
          discard_logged = false;
        })
  unfolding event_handler
  event_handler_lem r has = ground arith

  serve_refused : (r : Request) → serve r ≡ write_header no_effects 400 → serve r ≢ panicked
  serve_refused r e h = cc

  served_ne_panicked :
      (r : Request) {a b : Response A}
      → (serve r ≡ responded a) ⊎ (serve r ≡ responded b)
      → serve r ≢ panicked
  served_ne_panicked r (inl e) h = cc
  served_ne_panicked r (inr e) h = cc

  -- A request whose body decodes to an event is answered by the handler for the event with its
  -- metadata cleaned up, or with 429 by the rate limiter, and then the discarding is logged; a
  -- handler's answer is logged as discarded only if its status is 429.
  pub serve_decoded :
      IsLimiter no_effects limit
      → (r : Request) (event : Event) → Decodes r event
      → let (status, effects) = handle (cleanup_metadata api u event) in
        (serve r
          ≡ responded
              (record { status = status; effects = effects; discard_logged = nat_eq status 429 }))
        ⊎ (serve r
            ≡ responded (record { status = 429; effects = no_effects; discard_logged = true }))
  serve_decoded l r event d =
      let (r', has, inner) = serve_inner r event d in
      let k = event_key_func api sha256_hex (cleanup_metadata api u event) in
      elim (l.with_key (request_key api sha256_hex) (event_handler handle) r' k
        (request_key_lem r' has)) [
          | inl e ↦ inl (inner ∙ ap log_if_limited (e ∙ event_handler_lem r' has))
          | inr e ↦ inr (inner ∙ ap log_if_limited e)
        ]

  -- No request makes the chain panic: the rate limiter's key function and the handler run behind
  -- the middleware that puts the event into the context.
  pub serve-ne-panicked : IsLimiter no_effects limit → (r : Request) → serve r ≢ panicked
  unfolding serve
  serve-ne-panicked l r = elim (Result-cases r.body) [
    | inr (e, unread) ↦ serve_refused r (ground (arith, unread))
    | inl (body, read) ↦ elim (Result-cases r.closed) [
      | inr (e, open') ↦ serve_refused r (ground arith)
      | inl (_, closed) ↦ elim (Result-cases (unmarshal body)) [
        | inr (e, bad) ↦ serve_refused r (ground arith)
        | inl (event, decoded) ↦ served_ne_panicked r (
            serve_decoded l r event
              (record { body = body; read = read; closed = closed; decoded = decoded }))
      ]
    ]
  ]
