-- ===== src/Notifier/Payload.antt =====
-- The bodies that the notifiers of internal/notifier post, before they are JSON: a Go value of type
-- `interface{}` is the sum `Payload` of the types that reach it. A pointer that may be nil is an
-- option, and an address of a literal is the value.
pub mod Cards
use notification_controller.Prelude.{String, ℕ, Bool, List, Option}
use notification_controller.Prelude.Dict.{Dict}
use notification_controller.Api.Event.{Event}
use notification_controller.Notifier.Payload.Cards.{
  GoogleChatPayload, LarkPayload, MsTeamsPayload, MsAdaptiveCardMessage,
}

pub record SlackField : Type 0 where
  pub title : String
  pub value : String
  pub short : Bool

pub record SlackAttachment : Type 0 where
  pub color : String
  pub author_name : String
  pub text : String
  pub mrkdwn_in : List String
  pub fields : List SlackField

pub record SlackPayload : Type 0 where
  pub channel : String
  pub username : String
  pub icon_url : String
  pub icon_emoji : String
  pub text : String
  pub attachments : List SlackAttachment

pub record WebexPayload : Type 0 where
  pub room_id : String
  pub markdown : String

pub record MatrixPayload : Type 0 where
  pub body : String
  pub msg_type : String

-- A time is its Unix time; the end that is never set is `none`.
pub record AlertManagerAlert : Type 0 where
  pub status : String
  pub labels : Dict String
  pub annotations : Dict String
  pub starts_at : ℕ
  pub ends_at : Option ℕ

pub record OpsgenieAlert : Type 0 where
  pub message : String
  pub description : String
  pub details : Dict String

pub record GraphitePayload : Type 0 where
  pub posted_at : ℕ
  pub text : String
  pub tags : List String

-- `map[string]interface{}{"message": ..., "metadata": ...}`
pub record Details : Type 0 where
  pub message : String
  pub metadata : Dict String

-- pagerduty.V2Payload, V2Event and ChangeEvent, as far as they are set.
pub record V2Payload : Type 0 where
  pub summary : String
  pub source : String
  pub severity : String
  pub timestamp : String
  pub component : String
  pub group : String
  pub details : Details

pub record V2Event : Type 0 where
  pub routing_key : String
  pub action : String
  pub dedup_key : String
  pub payload : Option V2Payload

pub record ChangeEvent : Type 0 where
  pub routing_key : String
  pub summary : String
  pub source : String
  pub timestamp : String
  pub custom_details : Details

pub data Payload : Type 0 where
  event_payload : Event → Payload
  slack_payload : SlackPayload → Payload
  webex_payload : WebexPayload → Payload
  google_chat_payload : GoogleChatPayload → Payload
  lark_payload : LarkPayload → Payload
  ms_teams_payload : MsTeamsPayload → Payload
  adaptive_card_payload : MsAdaptiveCardMessage → Payload
  matrix_payload : MatrixPayload → Payload
  alertmanager_payload : List AlertManagerAlert → Payload
  opsgenie_payload : OpsgenieAlert → Payload
  graphite_payload : GraphitePayload → Payload
  pager_duty_payload : V2Event → Payload
  change_event_payload : ChangeEvent → Payload
