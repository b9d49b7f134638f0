-- ===== src/Controller/Receiver/Runs.antt =====
-- A whole run of the receivers' reconciler: what it patches, what it returns and the finalizer.
use notification_controller.Prelude.{
  ◌≡◌, inl, inr, refl, ap, ◌∙◌, sym, ◌==◌, String, true, false, not, ◌&&◌, ok, Bool-cases,
  Option-cases, Result-cases,
}
use notification_controller.Api.{
  ObjectMeta, ReceiverSpec, Receiver, NamespacedName, notification_finalizer, get_webhook_path,
  get_interval,
}
use notification_controller.Controller.{Objects, IsFinalizers, new_aggregate}
use notification_controller.Controller.Migration.{error_of}
use notification_controller.Controller.Receiver.{
  Conditions, ReceiverStore, token, initialized, reconcile_tasks, reconcile_object, observed,
  retrying, handled, summarised, patch, reconcile_receiver,
}
use notification_controller.Controller.Receiver.Laws.{
  IsConditions, IsInitialized, handled-same, reconcile_tasks-IsInitialized,
}

-- What of a receiver is not its status.
abbrev parts : Receiver → ObjectMeta × ReceiverSpec
parts r = (r.meta, r.spec)

parts_path : (r r' : Receiver) → r.meta ≡ r'.meta → r.spec ≡ r'.spec → parts r ≡ parts r'
parts_path r r' m s = λ i. (m i, s i)

module _ (c : Conditions) where
  observed-parts : (obj : Receiver) → parts (observed c obj) ≡ parts obj
  unfolding observed
  observed-parts obj = elim (Bool-cases (c.is_true obj.status.conditions c.ready_condition)) [
    | inl holds ↦ rw (observed, holds) refl
    | inr fails ↦ rw (observed, fails) refl
  ]

  retrying-parts : (obj : Receiver) → parts (retrying c obj) ≡ parts obj
  unfolding retrying
  retrying-parts obj =
      elim (Bool-cases (
        c.is_false obj.status.conditions c.ready_condition
        && c.has obj.status.conditions c.reconciling_condition)) [
          | inl holds ↦ elim (Option-cases (c.get obj.status.conditions c.reconciling_condition)) [
            | inl missing ↦ rw (retrying, holds, missing) refl
            | inr (rc, there) ↦ rw (retrying, holds, there) refl
          ]
          | inr fails ↦ rw (retrying, fails) refl
        ]

  summarised-parts : (obj : Receiver) → parts (summarised c obj) ≡ parts obj
  unfolding summarised
  summarised-parts obj =
      let (_, _, same, same_spec) = handled-same c obj in
      retrying-parts (observed c (handled c obj))
      ∙ observed-parts (handled c obj)
      ∙ parts_path (handled c obj) obj same same_spec

module _ {S : Type 0} (o : Objects) (c : Conditions) (store : ReceiverStore S) where
  reconcile_tasks-parts :
      (s : S) (obj : Receiver) → parts (reconcile_tasks o c store s obj).object ≡ parts obj
  unfolding reconcile_tasks
  reconcile_tasks-parts s obj = elim (Result-cases (token o c store s obj)) [
    | inr (e, missing) ↦ rw (reconcile_tasks, missing) refl
    | inl (t, found) ↦
        elim (Bool-cases (obj.status.webhook_path == get_webhook_path store.sha256_hex obj t)) [
          | inl same ↦ rw (reconcile_tasks, found, same) refl
          | inr other ↦ rw (reconcile_tasks, found, other) refl
        ]
  ]

  reconcile_object-active :
      (s : S) (obj : Receiver)
      → obj.meta.deleting ≡ false
      → o.contains_finalizer obj.meta.finalizers notification_finalizer ≡ true
      → obj.spec.suspend ≡ false
      → reconcile_object o c store s obj ≡ reconcile_tasks o c store s obj
  unfolding reconcile_object
  reconcile_object-active s obj alive has active = simp (reconcile_object, alive, has, active)

  -- After every run's body the object has the finalizer exactly if it is not being deleted.
  pub reconcile_object-contains :
      IsFinalizers o
      → (s : S) (obj : Receiver)
      → o.contains_finalizer
          (reconcile_object o c store s obj).object.meta.finalizers
          notification_finalizer
        ≡ not obj.meta.deleting
  unfolding reconcile_object reconcile_tasks
  reconcile_object-contains laws s obj = elim (Bool-cases obj.meta.deleting) [
    | inl deleted ↦ simp (reconcile_object, deleted, laws.contains-remove)
    | inr alive ↦
        elim (Bool-cases (o.contains_finalizer obj.meta.finalizers notification_finalizer)) [
          | inr without ↦ simp (reconcile_object, alive, without, laws.contains-add)
          | inl has ↦ elim (Bool-cases obj.spec.suspend) [
            | inl suspended ↦ simp (reconcile_object, alive, has, suspended)
            | inr active ↦
                ap (λ p. o.contains_finalizer p.object.meta.finalizers notification_finalizer)
                  (reconcile_object-active s obj alive has active)
                ∙ ap (λ m. o.contains_finalizer m.finalizers notification_finalizer)
                    (ap (λ q. q.0) (reconcile_tasks-parts s obj))
                ∙ has
                ∙ sym (ap not alive)
          ]
        ]
  ]

  patch-active :
      (s : S) (original obj : Receiver)
      → obj.meta.deleting ≡ false
      → patch o c store s original obj ≡ (
        (store.patch s original (summarised c obj)).0,
        error_of (store.patch s original (summarised c obj)).1,
      )
  unfolding patch
  patch-active s original obj alive =
      let kept : (summarised c obj).meta.deleting ≡ false =
        ap (λ m. m.deleting) (ap (λ q. q.0) (summarised-parts c obj)) ∙ alive in
      elim (Result-cases (store.patch s original (summarised c obj)).1) [
        | inl (_, worked) ↦ simp (patch, worked)
        | inr (e, failed) ↦ simp (patch, failed, kept)
      ]

  reconcile_receiver-found :
      (s : S) (request : NamespacedName) (obj : Receiver)
      → store.get s request ≡ ok obj
      → let progress = reconcile_object o c store s obj in
        ((reconcile_receiver o c store s request).state ≡ (patch o c store s obj progress.object).0)
        × ((reconcile_receiver o c store s request).error
            ≡ new_aggregate o progress.error (patch o c store s obj progress.object).1)
        × ((reconcile_receiver o c store s request).result ≡ progress.result)
  unfolding reconcile_receiver
  reconcile_receiver-found s request obj found = (
    rw (reconcile_receiver, found) refl,
    rw (reconcile_receiver, found) refl,
    rw (reconcile_receiver, found) refl,
  )

  -- A run for a receiver that is neither deleted nor suspended, has the finalizer and a token that
  -- can be read makes one patch, to an object with the same metadata and spec that has the webhook
  -- path and is ready; it returns the patch's error, if there is one, and asks for the next run
  -- after the interval.
  pub reconcile_receiver-IsInitialized :
      IsConditions c
      → (s : S) (request : NamespacedName) (obj : Receiver) (t : String)
      → store.get s request ≡ ok obj
      → obj.meta.deleting ≡ false
      → o.contains_finalizer obj.meta.finalizers notification_finalizer ≡ true
      → obj.spec.suspend ≡ false
      → token o c store s obj ≡ ok t
      → (object : Receiver) × IsInitialized c object
          (get_webhook_path store.sha256_hex obj t)
          (initialized o c store (get_webhook_path store.sha256_hex obj t))
        × (object.meta ≡ obj.meta)
        × (object.spec ≡ obj.spec)
        × ((reconcile_receiver o c store s request).state ≡ (store.patch s obj object).0)
        × ((reconcile_receiver o c store s request).error ≡ error_of (store.patch s obj object).1)
        × ((reconcile_receiver o c store s request).result
            ≡ record { requeue = false; requeue_after = get_interval obj })
  unfolding new_aggregate
  reconcile_receiver-IsInitialized laws s request obj t found alive has active read =
      let (ready, fine, next) = reconcile_tasks-IsInitialized c laws o store s obj t read in
      let kept =
        summarised-parts c (reconcile_tasks o c store s obj).object ∙ reconcile_tasks-parts s obj in
      let body = reconcile_object-active s obj alive has active in
      let patched =
        patch-active s obj (reconcile_tasks o c store s obj).object
          (ap (λ q. q.0.deleting) (reconcile_tasks-parts s obj) ∙ alive) in
      let (state, error, result) = reconcile_receiver-found s request obj found in
      (
        summarised c (reconcile_tasks o c store s obj).object,
        ready,
        ap (λ q. q.0) kept,
        ap (λ q. q.1) kept,
        state ∙ rw body (ap (λ p. p.0) patched),
        error ∙ rw (body, fine) (ap (λ p. p.1) patched),
        result ∙ rw body next,
      )
