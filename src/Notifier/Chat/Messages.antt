-- ===== src/Notifier/Chat/Messages.antt =====
-- The notifiers whose message is one text: internal/notifier/webex.go, matrix.go, lark.go and
-- telegram.go. The Telegram service, by package shoutrrr, is a parameter.
use notification_controller.Prelude.{
  String, ◌<>◌, ◌==◌, true, [], ◌∷◌, Option, none, Result, ok, ◌>>=◌, ◌>>◌, wrap, map_chars,
}
use notification_controller.Prelude.Actions.{Action, ◌>>>◌, lift, wrap_action}
use notification_controller.Api.Event.{Event}
use notification_controller.Notifier.Client.{PostRequest, post_message}
use notification_controller.Notifier.Payload.{
  event_payload, webex_payload, matrix_payload, lark_payload,
}
use notification_controller.Notifier.Payload.Cards.{LarkElement, LarkCard}
use notification_controller.Notifier.Tools.{Tools}
use notification_controller.Notifier.Status.{fail_if}
use notification_controller.Notifier.Chat.{
  quoted, replaced, object_name, lines, on_error, unless_commit_status, authorize,
}
use notification_controller.Notifier.Escape.{escape_string}

pub record Webex (Pool : Type 0) : Type 0 where
  pub url : String
  pub room_id : String
  pub token : String
  pub proxy_url : String
  pub cert_pool : Option Pool

pub record Matrix (Pool : Type 0) : Type 0 where
  pub token : String
  pub url : String
  pub room_id : String
  pub cert_pool : Option Pool

pub record Lark : Type 0 where
  pub url : String

-- The field `send` is the parameter of the method below.
pub record Telegram : Type 0 where
  pub channel : String
  pub token : String

module _ {S Pool : Type 0} (tools : Tools S Pool) where
  unfoldable pub new_webex : String → String → Option Pool → String → String → Result (Webex Pool)
  new_webex hook_url proxy_url cert_pool channel token = do
    quoted ("invalid Webex hook URL " <> hook_url) (tools.http.parse_request_uri hook_url)
    ok (record {
      url = hook_url;
      room_id = channel;
      token = token;
      proxy_url = proxy_url;
      cert_pool = cert_pool;
    })

  unfoldable pub create_markdown : Event → String
  create_markdown event =
      on_error tools event "💣" "✅"
      <> (" **"
          <> (object_name tools.unicode event
              <> ("**\n"
                  <> (event.message
                      <> ("\n"
                          <> lines (λ k v. ">**" <> (k <> ("**: " <> (v <> "\n"))))
                              event.metadata)))))

  unfoldable pub post_webex : Webex Pool → Event → Action S (Unit {0})
  unfolding create_markdown post_message
  post_webex s event = unless_commit_status tools event (
      wrap_action "postMessage failed: " (
        post_message tools.http s.url s.proxy_url s.cert_pool
          (webex_payload (record { room_id = s.room_id; markdown = create_markdown event }))
          (authorize tools ("Bearer " <> s.token) ∷ [])))

  unfoldable pub new_matrix : String → String → String → Option Pool → Result (Matrix Pool)
  new_matrix server_url token room_id cert_pool = do
    quoted ("invalid Matrix homeserver URL " <> server_url)
        (tools.http.parse_request_uri server_url)
    ok (record { token = token; url = server_url; room_id = room_id; cert_pool = cert_pool })

  unfoldable pub sha1sum : Event → Result String
  sha1sum event = do val ← tools.http.marshal (event_payload event); ok (tools.http.sha1_hex val)

  -- The text of the message; also Lark's and Telegram's sign of an event is the one here.
  abbrev emoji : Event → String
  emoji event = on_error tools event "🚨" "💫"

  unfoldable pub matrix_message : Event → String
  matrix_message event =
      emoji event
      <> (" "
          <> (object_name tools.unicode event
              <> ("\n"
                  <> (event.message
                      <> ("\n"
                          <> lines (λ k v. "- " <> (k <> (": " <> (v <> "\n")))) event.metadata)))))

  -- `request.Method = http.MethodPut` and the authorization.
  abbrev put_request : String → PostRequest Pool → PostRequest Pool
  put_request token request =
      authorize tools ("Bearer " <> token) (record request { method = "PUT" })

  unfoldable pub post_matrix : Matrix Pool → Event → Action S (Unit {0})
  unfolding sha1sum matrix_message post_message
  post_matrix m event = lift (wrap "unable to generate unique tx id: " (sha1sum event)) >>> λ tx_id.
      wrap_action "postMessage failed: " (
        post_message tools.http
          (m.url
            <> ("/_matrix/client/r0/rooms/" <> (m.room_id <> ("/send/m.room.message/" <> tx_id))))
          "" m.cert_pool
          (matrix_payload (record { body = matrix_message event; msg_type = "m.text" }))
          (put_request m.token ∷ []))

  unfoldable pub new_lark : String → Result Lark
  new_lark address = do
    replaced ("invalid Slack hook URL " <> address) (tools.http.parse_request_uri address)
    ok (record { url = address })

  unfoldable pub lark_message : Event → String
  lark_message event =
      "**"
      <> (event.message <> ("**\n\n" <> lines (λ k v. k <> (": " <> (v <> "\n"))) event.metadata))

  unfoldable pub lark_card : Event → LarkCard
  unfolding lark_message
  lark_card event =
      let element : LarkElement = record {
        tag = "div";
        text = record { tag = "lark_md"; content = lark_message event };
      } in
      record {
        config = record { wide_screen_mode = true };
        header = record {
          title = record {
            tag = "plain_text";
            content = emoji event <> (" " <> object_name tools.unicode event);
          };
          template = on_error tools event "red" "turquoise";
        };
        elements = element ∷ [];
      }

  unfoldable pub post_lark : Lark → Event → Action S (Unit {0})
  unfolding lark_card post_message
  post_lark l event = unless_commit_status tools event (
      post_message tools.http l.url "" none
        (lark_payload (record { msg_type = "interactive"; card = lark_card event })) [])

  unfoldable pub new_telegram : String → String → Result Telegram
  new_telegram channel token = do
    fail_if (channel == "") "empty Telegram channel"
    ok (record { channel = channel; token = token })

  unfoldable pub telegram_message : Event → String
  unfolding escape_string
  telegram_message event =
      let heading =
        emoji event
        <> (" "
            <> (map_chars tools.unicode.to_lower event.involved_object.kind
                <> ("/"
                    <> (event.involved_object.name
                        <> ("/" <> event.involved_object.namespace))))) in
      let metadata =
        lines (λ k v. "\\- *" <> (escape_string k <> ("*: " <> (escape_string v <> "\n"))))
          event.metadata in
      "*"
      <> (escape_string heading <> ("*\n" <> (escape_string event.message <> ("\n" <> metadata))))

  -- `send` is shoutrrr.Send.
  unfoldable pub post_telegram :
      (String → String → Action S (Unit {0})) → Telegram → Event → Action S (Unit {0})
  unfolding telegram_message
  post_telegram send t event = unless_commit_status tools event (
      send
        ("telegram://"
          <> (t.token <> ("@telegram?channels=" <> (t.channel <> "&parseMode=markDownv2"))))
        (telegram_message event))
