-- ===== src/Server/Receiver/Handler.antt =====
-- The handler of the webhook receiver's requests, `handlePayload` of
-- internal/server/receiver_handlers.go, and the index function by which it finds the receiver. It
-- maps a state of the cluster and a request to the next state and the status of the answer.
pub mod Laws
pub mod Registered
use notification_controller.Prelude.{
  ℕ, String, ◌==◌, Bool, true, false, not, ◌||◌, List, [], ◌∷◌, if◌then◌else◌, Result, ok, err,
}
use notification_controller.Api.{Receiver, CrossNamespaceObjectReference}
use notification_controller.Server.Receiver.Validate.{HttpRequest, Checks, validate}
use notification_controller.Server.Receiver.Reconcile.{Cluster, request_reconciliation}

unfoldable pub index_receiver_webhook_path : Receiver → List String
index_receiver_webhook_path receiver =
    if not (receiver.status.webhook_path == "") then receiver.status.webhook_path ∷ [] else []

module _ {S : Type 0} (c : Cluster S) where
  -- The loop over the resources: the state after it and whether one had an error.
  unfoldable pub request_all : S → String → List CrossNamespaceObjectReference → S × Bool
  request_all s namespace [] = (s, false)
  request_all s namespace (resource ∷ resources) =
      let (after, requested) = request_reconciliation c s resource namespace in
      let (last, with_errors) = request_all after namespace resources in
      (last, elim requested [ err _ ↦ true | ok _ ↦ with_errors ])

module _ {S : Type 0} (c : Cluster S) (env : Checks)
    (list_receivers : S → String → Result (List Receiver)) (is_ready : Receiver → Bool) where
  -- `list_receivers` is s.kubeClient.List by the index on the webhook path with a limit of one, and
  -- `is_ready` is conditions.IsReady.
  unfoldable pub handle_payload : S → HttpRequest → S × ℕ
  unfolding request_all
  handle_payload s r = elim (list_receivers s r.request_uri) [
    | err _ ↦ (s, 500)
    | ok [] ↦ (s, 404)
    | ok (receiver ∷ _) ↦
        if receiver.spec.suspend || not (is_ready receiver)
        then (s, 503)
        else (elim (validate env receiver r) [
          | err _ ↦ (s, 400)
          | ok _ ↦
              let (after, with_errors) =
                request_all c s receiver.meta.namespace receiver.spec.resources in
              (after, if with_errors then 500 else 200)
        ])
  ]
