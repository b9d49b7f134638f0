-- ===== src/Notifier/Chat/Cards.antt =====
-- The notifiers that post a card: internal/notifier/google_chat.go and teams.go.
pub mod Facts
use Prim.Native.Nat.{Ordering}
use Prim.Native.String.{compare}
use notification_controller.Prelude.{
  String, ◌<>◌, ◌==◌, not, Bool, true, false, List, [], ◌∷◌, ◌++◌, Option, none, some,
  if◌then◌else◌, Result, ok, ◌>>=◌, ◌>>◌, split, has_suffix,
}
use notification_controller.Prelude.Dict.{Dict, lookup, filter_keys}
use notification_controller.Prelude.Actions.{Action, wrap_action}
use notification_controller.Api.Event.{Event}
use notification_controller.Notifier.Client.{Url, post_message}
use notification_controller.Notifier.Payload.{
  Payload, google_chat_payload, ms_teams_payload, adaptive_card_payload,
}
use notification_controller.Notifier.Payload.Cards.{
  GoogleChatCard, GoogleChatCardSection, GoogleChatCardWidget, MsTeamsField, MsTeamsPayload,
  MsAdaptiveCardTextBlock, MsAdaptiveCardFact, MsAdaptiveCardMessage, MsAdaptiveCardBody, container,
  text_block, fact_set, no_element, element,
}
use notification_controller.Notifier.Tools.{Tools}
use notification_controller.Notifier.Chat.{
  quoted, replaced, object_name, entries, on_error, unless_commit_status,
}

-- The fields that are never set are left out.
pub record GoogleChat : Type 0 where
  pub url : String
  pub proxy_url : String

-- The two schemas of a Teams message.
pub data Schema : Type 0 where
  deprecated_connector : Schema
  adaptive_card : Schema

pub record MsTeams (Pool : Type 0) : Type 0 where
  pub url : String
  pub proxy_url : String
  pub cert_pool : Option Pool
  pub schema : Schema

-- A widget for an entry of the metadata.
abbrev pub kv_field : String → String → GoogleChatCardWidget
kv_field k v = record {
  text_paragraph = none;
  key_value = some (record {
    top_label = k;
    content = v;
    content_multi_line = false;
    bottom_label = none;
    icon = none;
  });
}

-- The section of the metadata, if there are any.
abbrev pub metadata_sections : Dict String → List GoogleChatCardSection
metadata_sections [] = []
metadata_sections (entry ∷ metadata) =
    record { header = ""; widgets = entries kv_field (entry ∷ metadata) } ∷ []

abbrev pub fact : String → String → MsAdaptiveCardFact
fact k v = record { title = k; value = v }

-- `strings.Compare(a.Title, b.Title) <= 0`
abbrev pub title_le : MsAdaptiveCardFact → MsAdaptiveCardFact → Bool
title_le a b = elim (compare a.title b.title) [ Ordering.gt ↦ false | _ ↦ true ]

-- slices.SortFunc by the titles, which are all different.
unfoldable pub insert_fact : MsAdaptiveCardFact → List MsAdaptiveCardFact → List MsAdaptiveCardFact
insert_fact a [] = a ∷ []
insert_fact a (b ∷ facts) =
    let rest = insert_fact a facts in if title_le a b then a ∷ b ∷ facts else b ∷ rest

unfoldable pub sort_facts : List MsAdaptiveCardFact → List MsAdaptiveCardFact
unfolding insert_fact
sort_facts [] = []
sort_facts (a ∷ facts) = insert_fact a (sort_facts facts)

-- The fact of the summary, if there is one.
abbrev pub summary_facts : Option String → List MsAdaptiveCardFact
summary_facts none = []
summary_facts (some summary) = fact "summary" summary ∷ []

unfoldable pub adaptive_facts : Dict String → List MsAdaptiveCardFact
unfolding sort_facts lookup filter_keys
adaptive_facts metadata =
    summary_facts (lookup "summary" metadata)
    ++ sort_facts (entries fact (filter_keys (λ k. not (k == "summary")) metadata))

module _ {S Pool : Type 0} (tools : Tools S Pool) where
  unfoldable pub new_google_chat : String → String → Result GoogleChat
  new_google_chat hook_url proxy_url = do
    replaced ("invalid Google Chat hook URL " <> hook_url) (tools.http.parse_request_uri hook_url)
    ok (record { url = hook_url; proxy_url = proxy_url })

  unfoldable pub google_chat_card : Event → GoogleChatCard
  google_chat_card event =
      let message_text =
        on_error tools event ("<font color=\"#ff0000\">" <> (event.message <> "</font>"))
          event.message in
      record {
        header = record {
          title = object_name tools.unicode event;
          sub_title = event.reporting_controller;
          image_url = none;
          image_style = none;
        };
        sections =
            record {
              header = "";
              widgets =
                  record {
                    text_paragraph = some (record { text = message_text });
                    key_value = none;
                  }
                  ∷ [];
            }
            ∷ metadata_sections event.metadata;
      }

  unfoldable pub post_google_chat : GoogleChat → Event → Action S (Unit {0})
  unfolding google_chat_card post_message
  post_google_chat s event = unless_commit_status tools event (
      wrap_action "postMessage failed: " (
        post_message tools.http s.url s.proxy_url none
          (google_chat_payload (record { cards = google_chat_card event ∷ [] })) []))

  -- The first part of the host.
  abbrev host_name : List String → String
  host_name [] = ""
  host_name (name ∷ _) = name

  unfoldable pub schema_of : Url → Schema
  unfolding split has_suffix
  schema_of u =
      if has_suffix (host_name (split 58 u.host)) ".webhook.office.com"
      then deprecated_connector
      else adaptive_card

  unfoldable pub new_ms_teams : String → String → Option Pool → Result (MsTeams Pool)
  unfolding schema_of
  new_ms_teams hook_url proxy_url cert_pool = do
    u ← quoted ("invalid MS Teams webhook URL " <> hook_url) (tools.http.parse_request_uri hook_url)
    ok (record {
      url = hook_url;
      proxy_url = proxy_url;
      cert_pool = cert_pool;
      schema = schema_of u;
    })

  abbrev team_field : String → String → MsTeamsField
  team_field k v = record { name = k; value = v }

  unfoldable pub build_ms_teams_deprecated_connector_payload : Event → String → MsTeamsPayload
  build_ms_teams_deprecated_connector_payload event obj_name = record {
    type = "MessageCard";
    context = "http://schema.org/extensions";
    theme_color = on_error tools event "FF0000" "0076D7";
    summary = obj_name;
    sections =
        record {
          activity_title = event.message;
          activity_subtitle = obj_name;
          facts = entries team_field event.metadata;
        }
        ∷ [];
  }

  -- The text block of the object's name.
  abbrev title_block : String → MsAdaptiveCardTextBlock
  title_block obj_name = record {
    text = obj_name;
    size = "large";
    weight = "bolder";
    color = "";
    wrap = true;
  }

  abbrev message_block : Event → MsAdaptiveCardTextBlock
  message_block event = record {
    text = event.message;
    size = "";
    weight = "";
    color = on_error tools event "attention" "";
    wrap = true;
  }

  abbrev card_items : Event → String → MsAdaptiveCardBody
  unfolding adaptive_facts
  card_items event obj_name = element (text_block "TextBlock" (title_block obj_name)) (
      element (text_block "TextBlock" (message_block event))
        (element (fact_set "FactSet" (adaptive_facts event.metadata)) no_element))

  unfoldable pub build_ms_teams_adaptive_card_payload : Event → String → MsAdaptiveCardMessage
  unfolding adaptive_facts
  build_ms_teams_adaptive_card_payload event obj_name = record {
    type = "message";
    attachments =
        record {
          content_type = "application/vnd.microsoft.card.adaptive";
          content = record {
            schema = "http://adaptivecards.io/schemas/adaptive-card.json";
            type = "AdaptiveCard";
            version = "1.4";
            body = element (container "Container" (card_items event obj_name)) no_element;
            ms_teams = record { width = "Full" };
          };
        }
        ∷ [];
  }

  -- The switch on the schema.
  abbrev teams_payload : Schema → Event → String → Payload
  unfolding build_ms_teams_deprecated_connector_payload build_ms_teams_adaptive_card_payload
  teams_payload deprecated_connector event obj_name =
      ms_teams_payload (build_ms_teams_deprecated_connector_payload event obj_name)
  teams_payload adaptive_card event obj_name =
      adaptive_card_payload (build_ms_teams_adaptive_card_payload event obj_name)

  unfoldable pub post_ms_teams : MsTeams Pool → Event → Action S (Unit {0})
  unfolding post_message build_ms_teams_deprecated_connector_payload
      build_ms_teams_adaptive_card_payload
  post_ms_teams s event = unless_commit_status tools event (
      wrap_action "postMessage failed: " (
        post_message tools.http s.url s.proxy_url s.cert_pool
          (teams_payload s.schema event (object_name tools.unicode event)) []))
