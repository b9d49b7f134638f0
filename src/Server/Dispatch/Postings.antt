-- ===== src/Server/Dispatch/Postings.antt =====
-- Which notifications an event starts.
use notification_controller.Prelude.{
  ℕ, String, ◌==◌, ◌≡◌, refl, subst, ap, ◌∙◌, ◌↔◌, ◌⊎◌, inl, inr, Bool, false, not, ◌&&◌, List, [],
  ◌∷◌, if◌then◌else◌, ok, arith, eq_iff, In, Any, Any-append, Any-append_left, Any-append_right,
  Any-witness, In-Any, Result-cases, Bool-cases, length, nat_eq,
}
use notification_controller.Prelude.Recorder.{and_then, pure}
use notification_controller.Api.{Alert, Provider, NamespacedName, get_timeout}
use notification_controller.Api.Event.{Event, EventApi}
use notification_controller.Notifier.Factory.{Notifier}
use notification_controller.Server.Metadata.{combine_event_metadata, exclude_internal_metadata}
use notification_controller.Server.Matching.{filter_alerts_for_event}
use notification_controller.Server.Matching.Wanted.{IsWanted, filter_alerts_for_event_iff}
use notification_controller.Server.Dispatch.{
  Services, Posting, create_notifier, post_params, dispatch_or_record, dispatch_all,
  get_all_alerts_for_event, handle_event,
}

In_one-elim : {A : Type 0} {a p : A} (P : A → Type 0) → In p (a ∷ []) → P a → P p
In_one-elim P (inl e) h = subst P e h
In_one-elim P (inr e) h = absurd e

module _ (api : EventApi) {N Pool : Type 0} (env : Services N Pool) (blocked : Bool)
    (event : Event) where
  -- The alert may process the event, its provider exists in the alert's namespace, is not
  -- suspended and yields a notifier, and the posting holds that notifier with the combined event.
  pub record IsPostingOf (alert : Alert) (p : Posting N) : Type 0 where
    pub allowed : (blocked ≡ false) ⊎ (event.involved_object.namespace ≡ alert.meta.namespace)
    pub provider : Provider
    pub read :
        env.get_provider
          (record { namespace = alert.meta.namespace; name = alert.spec.provider_ref })
        ≡ ok provider
    pub active : provider.spec.suspend ≡ false
    pub created : create_notifier env provider ≡ ok (p.sender, p.token)
    pub notification : p.notification ≡ (combine_event_metadata api event alert).0
    pub timeout : p.timeout ≡ get_timeout provider
    pub alert_of : p.alert ≡ alert
    pub involved_object : p.involved_object ≡ event.involved_object

  same_posting :
      (alert : Alert) (p : Posting N) (h : IsPostingOf alert p)
      → (post_params api env event alert h.provider (p.sender, p.token)).0 ≡ p
  unfolding post_params
  same_posting alert p h = ground (arith, h.notification, h.timeout, h.alert_of, h.involved_object)

  abbrev reference : Alert → NamespacedName
  reference alert = record { namespace = alert.meta.namespace; name = alert.spec.provider_ref }

  -- The guards of `getNotificationParams` all pass for a provider and what is created for it.
  module _ (alert : Alert) (provider : Provider) (made : Notifier N × String)
      (allowed : (blocked && not (event.involved_object.namespace == alert.meta.namespace)) ≡ false)
      (read : env.get_provider (reference alert) ≡ ok provider)
      (active : provider.spec.suspend ≡ false)
      (created : create_notifier env provider ≡ ok made) where
    dispatch_or_record_lem :
        (dispatch_or_record api env blocked event alert).0
        ≡ (post_params api env event alert provider made).0 ∷ []
    unfolding dispatch_or_record
    dispatch_or_record_lem = rw (allowed, read, created, active)

    post_params-IsPostingOf : IsPostingOf alert (post_params api env event alert provider made).0
    unfolding post_params
    post_params-IsPostingOf = record {
      allowed = ground (arith, eq_iff event.involved_object.namespace alert.meta.namespace);
      provider = provider;
      read = read;
      active = active;
      created = created;
      notification = refl;
      timeout = refl;
      alert_of = refl;
      involved_object = refl;
    }

  -- A guard that does not pass starts nothing.
  dispatch_or_record_none :
      (alert : Alert) (p : Posting N)
      → (dispatch_or_record api env blocked event alert).0 ≡ []
      → In p (dispatch_or_record api env blocked event alert).0
      → ⊥
  dispatch_or_record_none alert p e h = rw e at h

  dispatch_or_record_sound :
      (alert : Alert) (p : Posting N)
      → In p (dispatch_or_record api env blocked event alert).0
      → IsPostingOf alert p
  unfolding dispatch_or_record
  dispatch_or_record_sound alert p h =
      elim (Bool-cases (blocked && not (event.involved_object.namespace == alert.meta.namespace))) [
        | inl denied ↦ absurd (dispatch_or_record_none alert p (rw denied) h)
        | inr allowed ↦ elim (Result-cases (env.get_provider (reference alert))) [
          | inr (e, missing) ↦ absurd (dispatch_or_record_none alert p (rw (allowed, missing)) h)
          | inl (provider, read) ↦ elim (Bool-cases provider.spec.suspend) [
            | inl suspended ↦
                absurd (dispatch_or_record_none alert p (rw (allowed, read, suspended)) h)
            | inr active ↦ elim (Result-cases (create_notifier env provider)) [
              | inr (e, failed) ↦
                  absurd (dispatch_or_record_none alert p (rw (allowed, read, failed, active)) h)
              | inl (made, created) ↦
                  In_one-elim (IsPostingOf alert)
                    (rw (dispatch_or_record_lem alert provider made allowed read active created) at
                      h)
                    (post_params-IsPostingOf alert provider made allowed read active created)
            ]
          ]
        ]
      ]

  dispatch_or_record_complete :
      (alert : Alert) (p : Posting N)
      → IsPostingOf alert p
      → In p (dispatch_or_record api env blocked event alert).0
  dispatch_or_record_complete alert p h =
      rw
        (dispatch_or_record_lem alert h.provider (p.sender, p.token)
          (ground (arith, h.allowed, eq_iff event.involved_object.namespace alert.meta.namespace))
          h.read h.active h.created)
        (inl (same_posting alert p h))

  dispatch_all_iff :
      (alerts : List Alert) (p : Posting N)
      → In p (dispatch_all api env blocked event alerts).0
        ↔ Any (λ alert. IsPostingOf alert p) alerts
  unfolding dispatch_all
  dispatch_all_iff [] p = (λ h. h, λ h. h)
  dispatch_all_iff (alert ∷ alerts) p =
      let ih = dispatch_all_iff alerts p in
      (
        λ h. elim (Any-append (λ q. q ≡ p) (dispatch_or_record api env blocked event alert).0 _ h) [
          | inl here ↦ inl (dispatch_or_record_sound alert p here)
          | inr later ↦ inr (ih.0 later)
        ],
        λ h. elim h [
          | inl here ↦ Any-append_left (λ q. q ≡ p) _ _ (dispatch_or_record_complete alert p here)
          | inr later ↦
              Any-append_right (λ q. q ≡ p) (dispatch_or_record api env blocked event alert).0 _
                (ih.1 later)
        ],
      )

length_nonzero : {A : Type 0} (x : A) (xs : List A) → nat_eq (length (x ∷ xs)) 0 ≡ false
length_nonzero x xs = ground arith

module _ (api : EventApi) {N Pool : Type 0} (env : Services N Pool) (blocked : Bool) where
  -- The early return for no alerts is the loop over none.
  no_alerts :
      (event : Event) (alerts : List Alert)
      → (if nat_eq (length alerts) 0
          then pure (202, [])
          else and_then
              (dispatch_all api env blocked event alerts)
              λ postings. pure {A = ℕ × List (Posting N)} (202, postings)).0
        ≡ (202, (dispatch_all api env blocked event alerts).0)
  unfolding dispatch_all
  no_alerts event [] = refl
  no_alerts event (alert ∷ alerts) = rw (length_nonzero alert alerts)

  get_all_alerts_for_event_lem :
      (event : Event) {alerts : List Alert}
      → env.list_alerts ≡ ok alerts
      → get_all_alerts_for_event api env event
        ≡ filter_alerts_for_event api env.lookups alerts event
  unfolding get_all_alerts_for_event
  get_all_alerts_for_event_lem event listed = ground arith

  handle_event_lem :
      (event : Event)
      → (handle_event api env blocked event).0 ≡ (
        202,
        (dispatch_all api env blocked
            (exclude_internal_metadata api event)
            (get_all_alerts_for_event api env (exclude_internal_metadata api event)).0).0,
      )
  unfolding handle_event
  handle_event_lem event =
      let event' = exclude_internal_metadata api event in
      no_alerts event' (get_all_alerts_for_event api env event').0

-- Where the alerts can be listed, the handler answers 202 and starts exactly the postings of those listed alerts
-- that want the event: one alert's failure stops no other.
pub handle_event_iff :
    (api : EventApi) {N Pool : Type 0} (env : Services N Pool) (blocked : Bool) (event : Event)
    (p : Posting N) {alerts : List Alert}
    → env.list_alerts ≡ ok alerts
    → ((handle_event api env blocked event).0.0 ≡ 202)
      × (In p (handle_event api env blocked event).0.1 ↔ (
          (alert : Alert) × In alert alerts
          × IsWanted api env.lookups (exclude_internal_metadata api event) alert
          × IsPostingOf api env blocked (exclude_internal_metadata api event) alert p))
handle_event_iff api env blocked event p {alerts} listed =
    let event' = exclude_internal_metadata api event in
    let wanted = filter_alerts_for_event api env.lookups alerts event' in
    let e : (handle_event api env blocked event).0
        ≡ (202, (dispatch_all api env blocked event' wanted.0).0) =
      handle_event_lem api env blocked event
      ∙ ap (λ alerts'. (202, (dispatch_all api env blocked event' alerts'.0).0))
          (get_all_alerts_for_event_lem api env blocked event' listed) in
    (
      ap (λ r. r.0) e,
      rw (ap (λ r. r.1) e) (
        λ h.
            let (alert, m, q) =
              Any-witness _ _ ((dispatch_all_iff api env blocked event' wanted.0 p).0 h) in
            let (listed', wants) =
              (filter_alerts_for_event_iff api env.lookups event' alerts alert).0 m in
            (alert, listed', wants, q),
        λ (alert, m, wants, q). (dispatch_all_iff api env blocked event' wanted.0 p).1 (
            In-Any _ alert _
              ((filter_alerts_for_event_iff api env.lookups event' alerts alert).1 (m, wants)) q),
      ),
    )
