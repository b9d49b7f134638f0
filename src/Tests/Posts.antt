-- ===== src/Tests/Posts.antt =====
-- Tests of the forwarder and of the helpers on texts.
use notification_controller.Prelude.{String, ◌<>◌, ◌≡◌, ◌≢◌, refl, [], ◌∷◌, none, some, ok, All}
use notification_controller.Prelude.Dict.{lookup}
use notification_controller.Tests.{unicode, event, counted}
use notification_controller.Notifier.Forwarder.{Forwarder, sign, post}
use notification_controller.Notifier.Client.{PostRequest}
use notification_controller.Notifier.Payload.{event_payload}
use notification_controller.Notifier.Client.Laws.{IsAnswered}
use notification_controller.Notifier.Forwarder.Signature.{post_signed}
use notification_controller.Notifier.Util.{split_camelcase}
use notification_controller.Notifier.Util.Camelcase.{joined, joined-split_camelcase}

joined-split_camelcase_example :
    (joined (split_camelcase unicode "ReconciliationSucceeded") ≡ "ReconciliationSucceeded")
    × All (λ e. e ≢ "") (split_camelcase unicode "ReconciliationSucceeded")
joined-split_camelcase_example = joined-split_camelcase unicode "ReconciliationSucceeded"

abbrev forwarder : Forwarder String
forwarder = record {
  url = "https://example.com/hook";
  proxy_url = "";
  headers = ("X-Signature", "forged") ∷ [];
  cert_pool = none;
  hmac_key = some "key";
}

post_signed_example :
    (sent : PostRequest String) × (sent.address ≡ "https://example.com/hook")
    × (counted.marshal (event_payload event) ≡ ok sent.body)
    × (lookup "X-Signature" sent.headers ≡ some (("sha256=" <> sign counted sent.body "key") ∷ []))
    × IsAnswered counted sent 0 1
unfolding post
post_signed_example = post_signed counted forwarder event "key" 0 1 refl refl refl
