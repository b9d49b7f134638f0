-- ===== src/Server/Receiver/Handler/Registered.antt =====
-- The receivers' reconciler and the webhook handler together: a request for the path that a run has
-- put into a receiver's status is answered for this receiver.
use notification_controller.Prelude.{
  ℕ, String, ◌≡◌, List, [], ◌∷◌, if◌then◌else◌, ok, err, In, contains,
}
use notification_controller.Api.{Receiver}
use notification_controller.Controller.{Objects}
use notification_controller.Controller.Receiver.{Conditions, ReceiverStore}
use notification_controller.Server.Receiver.Validate.{HttpRequest, Checks, validate}
use notification_controller.Server.Receiver.Reconcile.{Cluster}
use notification_controller.Server.Receiver.Handler.{
  index_receiver_webhook_path, request_all, handle_payload,
}

-- The client's list by the index, with its limit of one.
unfoldable pub by_path : List Receiver → String → List Receiver
unfolding index_receiver_webhook_path contains
by_path [] path = []
by_path (r ∷ receivers) path =
    if contains (index_receiver_webhook_path r) path then r ∷ [] else by_path receivers path

-- A receiver stands in a list, and no other one with its path.
abbrev pub IsAlone : Receiver → List Receiver → Type 0
IsAlone r receivers =
    In r receivers
    × ((r' : Receiver) → In r' receivers → r'.status.webhook_path ≡ r.status.webhook_path → r' ≡ r)

module _ {S : Type 0} (o : Objects) (c : Conditions) (store : ReceiverStore S) (cluster : Cluster S)
    (env : Checks) (receivers : S → List Receiver) where
  -- The handler's answer for a receiver that it has found, active and ready.
  abbrev pub answer_for : Receiver → S → HttpRequest → S × ℕ
  answer_for receiver s r = elim (validate env receiver r) [
    | err _ ↦ (s, 400)
    | ok _ ↦
        let (after, with_errors) =
          request_all cluster s receiver.meta.namespace receiver.spec.resources in
        (after, if with_errors then 500 else 200)
  ]

  -- The handler over the receivers of the cluster.
  abbrev pub handle : S → HttpRequest → S × ℕ
  handle s r =
      handle_payload cluster env (λ s path. ok (by_path (receivers s) path))
        (λ x. c.is_ready x.status.conditions) s r
