-- ===== src/Notifier/Chat/Slack.antt =====
-- The notifiers that post a message in the format of Slack: internal/notifier/slack.go, discord.go
-- and rocket.go.
use notification_controller.Prelude.{
  String, ◌<>◌, ◌==◌, false, [], ◌∷◌, Option, none, if◌then◌else◌, Result, ok, ◌>>=◌, ◌>>◌,
  has_suffix,
}
use notification_controller.Prelude.Actions.{Action, wrap_action}
use notification_controller.Api.Event.{Event}
use notification_controller.Notifier.Client.{Url, post_message}
use notification_controller.Notifier.Payload.{
  SlackField, SlackAttachment, SlackPayload, slack_payload,
}
use notification_controller.Notifier.Tools.{Tools}
use notification_controller.Notifier.Chat.{
  quoted, object_name, entries, on_error, unless_commit_status, authorize,
}

pub record Slack (Pool : Type 0) : Type 0 where
  pub url : String
  pub proxy_url : String
  pub token : String
  pub username : String
  pub channel : String
  pub cert_pool : Option Pool

pub record Discord : Type 0 where
  pub url : String
  pub proxy_url : String
  pub username : String
  pub channel : String

pub record Rocket (Pool : Type 0) : Type 0 where
  pub url : String
  pub proxy_url : String
  pub username : String
  pub channel : String
  pub cert_pool : Option Pool

-- A field of an attachment.
abbrev pub field : String → String → SlackField
field k v = record { title = k; value = v; short = false }

module _ {S Pool : Type 0} (tools : Tools S Pool) where
  unfoldable pub new_slack :
      String → String → String → Option Pool → String → String → Result (Slack Pool)
  new_slack hook_url proxy_url token cert_pool username channel = do
    quoted ("invalid Slack hook URL " <> hook_url) (tools.http.parse_request_uri hook_url)
    ok (record {
      url = hook_url;
      proxy_url = proxy_url;
      token = token;
      username = username;
      channel = channel;
      cert_pool = cert_pool;
    })

  -- The attachment, in a colour.
  unfoldable pub slack_attachment : Event → String → SlackAttachment
  slack_attachment event color = record {
    color = color;
    author_name = object_name tools.unicode event;
    text = event.message;
    mrkdwn_in = "text" ∷ [];
    fields = entries field event.metadata;
  }

  -- The payload of a channel, a username and a colour.
  unfoldable pub slack_message : String → String → Event → String → SlackPayload
  unfolding slack_attachment
  slack_message channel username event color = record {
    channel = channel;
    username = username;
    icon_url = "";
    icon_emoji = "";
    text = "";
    attachments = slack_attachment event color ∷ [];
  }

  abbrev name_or_controller : String → Event → String
  name_or_controller username event =
      if username == "" then event.reporting_controller else username

  unfoldable pub post_slack : Slack Pool → Event → Action S (Unit {0})
  unfolding slack_message post_message
  post_slack s event = unless_commit_status tools event (
      wrap_action "postMessage failed: " (
        post_message tools.http s.url s.proxy_url s.cert_pool
          (slack_payload (
            slack_message (if s.channel == "" then "" else s.channel)
              (name_or_controller s.username event) event (on_error tools event "danger" "good")))
          ((λ request.
              if s.token == "" then request else authorize tools ("Bearer " <> s.token) request)
            ∷ [])))

  -- The address of the hook, in Slack's format.
  unfoldable pub discord_url : String → Url → String
  unfolding has_suffix
  discord_url hook_url webhook =
      if has_suffix hook_url "/slack"
      then hook_url
      else tools.http.url_string
          (record webhook { path = tools.http.path_join webhook.path "slack" })

  unfoldable pub new_discord : String → String → String → String → Result Discord
  unfolding discord_url
  new_discord hook_url proxy_url username channel = do
    webhook ←
        quoted ("invalid Discord hook URL " <> hook_url) (tools.http.parse_request_uri hook_url)
    ok (record {
      url = discord_url hook_url webhook;
      proxy_url = proxy_url;
      username = username;
      channel = channel;
    })

  unfoldable pub post_discord : Discord → Event → Action S (Unit {0})
  unfolding slack_message post_message
  post_discord s event = unless_commit_status tools event (
      wrap_action "postMessage failed: " (
        post_message tools.http s.url s.proxy_url none
          (slack_payload (
            slack_message "" (name_or_controller s.username event) event
              (on_error tools event "danger" "good")))
          []))

  unfoldable pub new_rocket : String → String → Option Pool → String → String → Result (Rocket Pool)
  new_rocket hook_url proxy_url cert_pool username channel = do
    quoted ("invalid Rocket hook URL " <> hook_url) (tools.http.parse_request_uri hook_url)
    ok (record {
      url = hook_url;
      proxy_url = proxy_url;
      username = username;
      channel = channel;
      cert_pool = cert_pool;
    })

  unfoldable pub post_rocket : Rocket Pool → Event → Action S (Unit {0})
  unfolding slack_message post_message
  post_rocket s event = unless_commit_status tools event (
      wrap_action "postMessage failed: " (
        post_message tools.http s.url s.proxy_url s.cert_pool
          (slack_payload
            (slack_message s.channel s.username event (on_error tools event "#FF0000" "#0076D7")))
          []))
