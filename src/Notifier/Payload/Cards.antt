-- ===== src/Notifier/Payload/Cards.antt =====
-- The cards of Google Chat, Lark and Microsoft Teams, from internal/notifier/google_chat.go, lark.go
-- and teams.go.
use notification_controller.Prelude.{String, Bool, List, Option}

pub record GoogleChatCardHeader : Type 0 where
  pub title : String
  pub sub_title : String
  pub image_url : Option String
  pub image_style : Option String

pub record GoogleChatCardWidgetTextParagraph : Type 0 where
  pub text : String

pub record GoogleChatCardWidgetKeyValue : Type 0 where
  pub top_label : String
  pub content : String
  pub content_multi_line : Bool
  pub bottom_label : Option String
  pub icon : Option String

pub record GoogleChatCardWidget : Type 0 where
  pub text_paragraph : Option GoogleChatCardWidgetTextParagraph
  pub key_value : Option GoogleChatCardWidgetKeyValue

pub record GoogleChatCardSection : Type 0 where
  pub header : String
  pub widgets : List GoogleChatCardWidget

pub record GoogleChatCard : Type 0 where
  pub header : GoogleChatCardHeader
  pub sections : List GoogleChatCardSection

pub record GoogleChatPayload : Type 0 where
  pub cards : List GoogleChatCard

pub record LarkText : Type 0 where
  pub tag : String
  pub content : String

pub record LarkElement : Type 0 where
  pub tag : String
  pub text : LarkText

pub record LarkTitle : Type 0 where
  pub tag : String
  pub content : String

pub record LarkHeader : Type 0 where
  pub title : LarkTitle
  pub template : String

pub record LarkConfig : Type 0 where
  pub wide_screen_mode : Bool

pub record LarkCard : Type 0 where
  pub config : LarkConfig
  pub header : LarkHeader
  pub elements : List LarkElement

pub record LarkPayload : Type 0 where
  pub msg_type : String
  pub card : LarkCard

pub record MsTeamsField : Type 0 where
  pub name : String
  pub value : String

pub record MsTeamsSection : Type 0 where
  pub activity_title : String
  pub activity_subtitle : String
  pub facts : List MsTeamsField

pub record MsTeamsPayload : Type 0 where
  pub type : String
  pub context : String
  pub theme_color : String
  pub summary : String
  pub sections : List MsTeamsSection

pub record MsAdaptiveCardTextBlock : Type 0 where
  pub text : String
  pub size : String
  pub weight : String
  pub color : String
  pub wrap : Bool

pub record MsAdaptiveCardFact : Type 0 where
  pub title : String
  pub value : String

-- An element of a card's body: its `Type`, and the one embedded struct that is not nil. The second
-- type is the list of them.
mutual
  pub data MsAdaptiveCardBodyElement : Type 0 where
    container : String → MsAdaptiveCardBody → MsAdaptiveCardBodyElement
    text_block : String → MsAdaptiveCardTextBlock → MsAdaptiveCardBodyElement
    fact_set : String → List MsAdaptiveCardFact → MsAdaptiveCardBodyElement

  pub data MsAdaptiveCardBody : Type 0 where
    no_element : MsAdaptiveCardBody
    element : MsAdaptiveCardBodyElement → MsAdaptiveCardBody → MsAdaptiveCardBody

pub record MsAdaptiveCardMsTeams : Type 0 where
  pub width : String

pub record MsAdaptiveCardContent : Type 0 where
  pub schema : String
  pub type : String
  pub version : String
  pub body : MsAdaptiveCardBody
  pub ms_teams : MsAdaptiveCardMsTeams

pub record MsAdaptiveCardAttachment : Type 0 where
  pub content_type : String
  pub content : MsAdaptiveCardContent

pub record MsAdaptiveCardMessage : Type 0 where
  pub type : String
  pub attachments : List MsAdaptiveCardAttachment
