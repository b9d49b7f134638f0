-- ===== src/Server/Dispatch/Providers.antt =====
-- What `createNotifier` makes of a provider and its secrets, and what is recorded of failures.
use notification_controller.Prelude.{
  String, ◌<>◌, ◌==◌, ◌≡◌, refl, ◌≢◌, ap, ◌∙◌, inl, inr, true, false, [], ◌∷◌, Option, none, some,
  ok, err, arith, eq_iff, Result-cases, Bool-cases, >>=-eq-ok,
}
use notification_controller.Prelude.Recorder.{warning}
use notification_controller.Api.{Alert, Provider}
use notification_controller.Prelude.Actions.{Action}
use notification_controller.Api.Event.{Event, EventApi}
use notification_controller.Notifier.Factory.{Notifier, made, notifier}
use notification_controller.Notifier.Factory.Laws.{notifier_made}
use notification_controller.Server.Matching.{alert_subject, involved_object_string}
use notification_controller.Server.Dispatch.{
  Services, Credentials, Posting, read_credentials, read_cert_pool, made_or_error, make_sender,
  denied_message, new_factory, create_notifier, dispatch_or_record, post_notification, recorded_of,
  masked,
}

module _ {N Pool : Type 0} (env : Services N Pool) where
  -- What a successful `createNotifier` has done: the notifier is one that a constructor made for
  -- the provider's type, with a non-empty address, never the one that does nothing.
  pub record IsCreated (provider : Provider) (sender : Notifier N) (token : String) : Type 0 where
    pub credentials : Credentials
    pub pool : Option Pool
    pub read : read_credentials env provider ≡ ok credentials
    pub certified : read_cert_pool env provider ≡ ok pool
    pub address : credentials.webhook ≢ ""
    pub token_of : token ≡ credentials.token
    pub n : N
    pub made_of : sender ≡ made n
    pub by_factory :
        notifier env.constructors (new_factory env provider credentials pool) provider.spec.type
        ≡ (made n, none)

  url_given :
      (provider : Provider) (c : Credentials) (pool : Option Pool)
      → (c.webhook == "") ≡ false
      → ((new_factory env provider c pool).url == "") ≡ false
  unfolding new_factory
  url_given provider c pool h = h

  made_or_error_ok :
      (r : Notifier N × Option String) {n : Notifier N} → made_or_error env r ≡ ok n → r ≡ (n, none)
  made_or_error_ok (n, none) h = ground arith
  made_or_error_ok (n, some e) h = cc

  make_sender_sound :
      (provider : Provider) (c : Credentials) (pool : Option Pool) {sender : Notifier N}
      {token : String}
      → make_sender env provider c pool ≡ ok (sender, token)
      → ((c.webhook == "") ≡ false)
        × (token ≡ c.token)
        × (notifier env.constructors (new_factory env provider c pool) provider.spec.type
            ≡ (sender, none))
  unfolding make_sender
  make_sender_sound provider c pool {sender} {token} h =
      let r = notifier env.constructors (new_factory env provider c pool) provider.spec.type in
      elim (Bool-cases (c.webhook == "")) [
        | inl empty ↦ ground arith
        | inr given ↦ elim (Result-cases (made_or_error env r)) [
          | inl (n, done) ↦
              let same : n ≡ sender = ground arith in
              (given, ground arith, made_or_error_ok r (done ∙ ap (λ (m : Notifier N). ok m) same))
          | inr (e, failed) ↦ ground arith
        ]
      ]

  -- Where `createNotifier` succeeds, it has read the credentials and the certificates, and has
  -- called the factory for the provider's type with a non-empty address; the notifier is one that
  -- a constructor made, never the one that does nothing.
  pub create_notifier_sound :
      (provider : Provider) {sender : Notifier N} {token : String}
      → create_notifier env provider ≡ ok (sender, token)
      → IsCreated provider sender token
  unfolding create_notifier
  create_notifier_sound provider h =
      let (c, read, h1) = >>=-eq-ok (read_credentials env provider) _ h in
      let (pool, certified, h2) = >>=-eq-ok (read_cert_pool env provider) _ h1 in
      let (given, same, by_factory) = make_sender_sound provider c pool h2 in
      let (n, made_of) =
        notifier_made env.constructors (new_factory env provider c pool) provider.spec.type
          (url_given provider c pool given) by_factory in
      record {
        credentials = c;
        pool = pool;
        read = read;
        certified = certified;
        address = ground (arith, eq_iff c.webhook "");
        token_of = same;
        n = n;
        made_of = made_of;
        by_factory = by_factory ∙ ap (λ (m : Notifier N). (m, none)) made_of;
      }

  -- Two errors of `Post` that the masking of the token makes alike are recorded alike: the text
  -- of the error reaches the record through the masking only.
  pub post_notification_masked :
      {S : Type 0} (p : Posting N) (post post' : Notifier N → Event → Action S (Unit {0}))
      (s after : S) (text text' : String)
      → post p.sender p.notification s ≡ (after, err text)
      → post' p.sender p.notification s ≡ (after, err text')
      → env.mask_token text p.token ≡ env.mask_token text' p.token
      → post_notification env post p s ≡ post_notification env post' p s
  unfolding post_notification
  post_notification_masked p post post' s after text text' h h' same =
      rw (post_notification, h, h', recorded_of, masked, same) refl

  -- Where cross-namespace references are blocked, an alert of another namespace than the involved
  -- object's starts nothing, and a warning about the alert says that access was denied.
  dispatch_or_record_denied :
      (api : EventApi) (event : Event) (alert : Alert)
      → event.involved_object.namespace ≢ alert.meta.namespace
      → dispatch_or_record api env true event alert ≡ (
        [],
        record {
          subject = alert_subject alert;
          type = warning;
          reason = "NotificationDispatchFailed";
          message =
              "failed to dispatch notification for "
              <> (involved_object_string event.involved_object
                  <> (": " <> denied_message event alert));
          annotations = [];
        }
            ∷ [],
      )
  unfolding dispatch_or_record
  dispatch_or_record_denied api event alert h =
      ground (arith, eq_iff event.involved_object.namespace alert.meta.namespace)
