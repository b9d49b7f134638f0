-- ===== src/Server/Receiver/Handler/Laws.antt =====
-- When a webhook's request changes the cluster, and with which status it is answered.
use notification_controller.Prelude.{
  ℕ, String, ◌≡◌, ◌≢◌, ◌↔◌, ◌⊎◌, inl, inr, refl, ap, ◌∙◌, sym, subst, Bool, true, false, not, ◌||◌,
  List, [], ◌∷◌, if◌then◌else◌, Result, ok, err, arith, Result-cases, Bool-cases,
}
use notification_controller.Api.{Receiver, CrossNamespaceObjectReference}
use notification_controller.Server.Receiver.Validate.{HttpRequest, Checks, validate}
use notification_controller.Server.Receiver.Reconcile.{Cluster, request_reconciliation}
use notification_controller.Server.Receiver.Handler.{request_all, handle_payload}

-- The answer to an admitted request is 200 exactly if there were no errors.
answer_iff :
    {S : Type 0} (p : S × Bool) (last : S)
    → (◌≡◌ {A = S × ℕ} (p.0, if p.1 then 500 else 200) (last, 200)) ↔ (p ≡ (last, false))
answer_iff (s, true) last = (λ h. absurd (omega (arith, ap (λ p. p.1) h)), λ h. cc)
answer_iff (s, false) last = (λ h. ap (λ p. (p.0, false)) h, λ h. ap (λ p. (p.0, 200)) h)

module _ {S : Type 0} (c : Cluster S) where
  -- Reconciliation is requested of each resource in turn, with success, and this takes the one
  -- state to the other.
  abbrev pub Succeeds : S → String → List CrossNamespaceObjectReference → S → Type 0
  Succeeds s namespace [] last = s ≡ last
  Succeeds s namespace (ref ∷ refs) last =
      (next : S) × (request_reconciliation c s ref namespace ≡ (next, ok tt))
      × Succeeds next namespace refs last

  -- The state after one request for each resource, in order, whatever their results.
  abbrev pub after_all : S → String → List CrossNamespaceObjectReference → S
  after_all s namespace [] = s
  after_all s namespace (ref ∷ refs) =
      after_all (request_reconciliation c s ref namespace).0 namespace refs

  request_all-state :
      (s : S) (namespace : String) (refs : List CrossNamespaceObjectReference)
      → (request_all c s namespace refs).0 ≡ after_all s namespace refs
  unfolding request_all
  request_all-state s namespace [] = refl
  request_all-state s namespace (ref ∷ refs) =
      request_all-state (request_reconciliation c s ref namespace).0 namespace refs

  step_iff :
      (p : S × Result (Unit {0})) (rest : S → S × Bool) (last : S)
      → (◌≡◌ {A = S × Bool}
          ((rest p.0).0, elim p.1 [ err _ ↦ true | ok _ ↦ (rest p.0).1 ])
          (last, false))
        ↔ ((next : S) × (p ≡ (next, ok tt)) × (rest next ≡ (last, false)))
  step_iff (s, ok _) rest last = (
    λ h. (s, refl, h),
    λ (next, now, h). subst (λ n. rest n ≡ (last, false)) (sym (ap (λ p. p.0) now)) h,
  )
  step_iff (s, err e) rest last = (λ h. cc, λ (next, now, h). cc)

  request_all_iff :
      (s last : S) (namespace : String) (refs : List CrossNamespaceObjectReference)
      → (request_all c s namespace refs ≡ (last, false)) ↔ Succeeds s namespace refs last
  unfolding request_all
  request_all_iff s last namespace [] = ground arith
  request_all_iff s last namespace (ref ∷ refs) =
      let split =
        step_iff (request_reconciliation c s ref namespace) (λ n. request_all c n namespace refs)
          last in
      (
        λ h.
            let (next, now, rest) = split.0 h in
            (next, now, (request_all_iff next last namespace refs).0 rest),
        λ (next, now, rest). split.1 (next, now, (request_all_iff next last namespace refs).1 rest),
      )

module _ {S : Type 0} (c : Cluster S) (env : Checks)
    (list_receivers : S → String → Result (List Receiver)) (is_ready : Receiver → Bool) where
  -- The receiver at the request's path, where it is neither suspended nor not ready and the request
  -- passes its validation.
  abbrev pub IsAdmitted : S → HttpRequest → Receiver → Type 0
  IsAdmitted s r receiver =
      ((others : List Receiver) × (list_receivers s r.request_uri ≡ ok (receiver ∷ others)))
      × (receiver.spec.suspend ≡ false)
      × (is_ready receiver ≡ true)
      × (validate env receiver r ≡ ok tt)

  -- What an admitted request does.
  handle_payload_admitted :
      (s : S) (r : HttpRequest) (receiver : Receiver)
      → IsAdmitted s r receiver
      → handle_payload c env list_receivers is_ready s r ≡ (
          let (after, with_errors) =
            request_all c s receiver.meta.namespace receiver.spec.resources in
          (after, if with_errors then 500 else 200))
  unfolding handle_payload
  handle_payload_admitted s r receiver ((others, found), active, ready, valid) =
      rw (handle_payload, found, ready, valid, active) refl

  -- Every request either is admitted, or leaves the state and has another status.
  handle_payload-cases :
      (s : S) (r : HttpRequest)
      → ((receiver : Receiver) × IsAdmitted s r receiver)
        ⊎ (((handle_payload c env list_receivers is_ready s r).0 ≡ s)
            × ((handle_payload c env list_receivers is_ready s r).1 ≢ 200))
  unfolding handle_payload
  handle_payload-cases s r = elim (Result-cases (list_receivers s r.request_uri)) [
    | inl ([], found) ↦ inr (ground arith)
    | inl (receiver ∷ others, found) ↦
        elim (Bool-cases (receiver.spec.suspend || not (is_ready receiver))) [
          | inl barred ↦ inr (rw (handle_payload, found, barred) (refl, ground arith))
          | inr admits ↦ elim (Result-cases (validate env receiver r)) [
            | inl (_, valid) ↦ inl (receiver, ((others, found), ground arith, ground arith, valid))
            | inr (e, invalid) ↦
                inr (rw (handle_payload, found, admits, invalid) (refl, ground arith))
          ]
        ]
    | inr (e, found) ↦ inr (ground arith)
  ]

  -- The answer is 200, with a state, exactly if the request is admitted for some receiver and
  -- reconciliation is requested of all its resources with success, which leads to that state.
  pub handle_payload_iff :
      (s last : S) (r : HttpRequest)
      → (handle_payload c env list_receivers is_ready s r ≡ (last, 200)) ↔ (
          (receiver : Receiver) × IsAdmitted s r receiver
          × Succeeds c s receiver.meta.namespace receiver.spec.resources last)
  handle_payload_iff s last r = (
    λ h. elim (handle_payload-cases s r) [
      | inl (receiver, admitted) ↦ (
        receiver,
        admitted,
        (request_all_iff c s last receiver.meta.namespace receiver.spec.resources).0 (
            (answer_iff (request_all c s receiver.meta.namespace receiver.spec.resources) last).0
              (sym (handle_payload_admitted s r receiver admitted) ∙ h)),
      )
      | inr (_, other) ↦ absurd (other (ap (λ p. p.1) h))
    ],
    λ (receiver, admitted, succeeds).
        handle_payload_admitted s r receiver admitted
        ∙ (answer_iff (request_all c s receiver.meta.namespace receiver.spec.resources) last).1
            ((request_all_iff c s last receiver.meta.namespace receiver.spec.resources).1 succeeds),
  )

  -- A request that changes the state is admitted for a receiver, and the state it leads to is that
  -- after one request for reconciliation for each of the receiver's resources, in order, also those
  -- after a failure.
  pub handle_payload_changed :
      (s : S) (r : HttpRequest)
      → (handle_payload c env list_receivers is_ready s r).0 ≢ s
      → (receiver : Receiver) × IsAdmitted s r receiver
        × ((handle_payload c env list_receivers is_ready s r).0
            ≡ after_all c s receiver.meta.namespace receiver.spec.resources)
  handle_payload_changed s r changed = elim (handle_payload-cases s r) [
    | inl (receiver, admitted) ↦ (
      receiver,
      admitted,
      ap (λ p. p.0) (handle_payload_admitted s r receiver admitted)
          ∙ request_all-state c s receiver.meta.namespace receiver.spec.resources,
    )
    | inr (same, _) ↦ absurd (changed same)
  ]
