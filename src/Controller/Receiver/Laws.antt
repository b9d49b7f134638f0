-- ===== src/Controller/Receiver/Laws.antt =====
-- What a reconciliation leaves in a receiver's status.
use notification_controller.Prelude.{
  subst, ◌==◌, ◌≡◌, ◌≢◌, inl, inr, refl, ap, not, ◌&&◌, ◌∙◌, sym, String, Bool, true, false, Option,
  none, some, is_some, List, ok, err, eq_iff, eq_cases, Option-cases,
}
use notification_controller.Api.{Condition, Receiver, get_webhook_path, get_interval}
use notification_controller.Controller.{Objects}
use notification_controller.Controller.Receiver.{
  Conditions, ReceiverStore, token, initialized, reconcile_tasks, handled, observed, retrying,
  summarised, token_not_found_reason,
}

-- The condition is there with the status.
abbrev pub has_status : Option Condition → String → Bool
has_status none status = false
has_status (some c) status = c.status == status

-- The three conditions say that an object is ready.
abbrev pub shows_ready : Option Condition → Option Condition → Option Condition → Bool
shows_ready ready reconciling stalled =
    let is_reconciling = has_status reconciling "True" && not (has_status stalled "True") in
    let is_stalled = has_status stalled "True" && not (has_status reconciling "True") in
    not is_stalled && not is_reconciling && has_status ready "True"

-- What is relied on of package conditions: `Get` after `MarkTrue`, `MarkFalse`, `MarkReconciling`
-- (which deletes the Stalled condition), `Set` and `Delete`, and that the tests read what `Get` gives.
-- `IsReconciling` is that Reconciling is True and Stalled is not, `IsStalled` the other way round, and
-- `IsReady` that Ready is True and neither holds.
pub record IsConditions (c : Conditions) : Type 0 where
  pub ready-ne-reconciling : c.ready_condition ≢ c.reconciling_condition
  pub ready-ne-stalled : c.ready_condition ≢ c.stalled_condition
  pub reconciling-ne-stalled : c.reconciling_condition ≢ c.stalled_condition
  pub is_ready-get :
      (cs : List Condition)
      → c.is_ready cs
        ≡ shows_ready
            (c.get cs c.ready_condition)
            (c.get cs c.reconciling_condition)
            (c.get cs c.stalled_condition)
  pub is_true-get :
      (cs : List Condition) (t : String) → c.is_true cs t ≡ has_status (c.get cs t) "True"
  pub is_false-get :
      (cs : List Condition) (t : String) → c.is_false cs t ≡ has_status (c.get cs t) "False"
  pub has-get : (cs : List Condition) (t : String) → c.has cs t ≡ is_some (c.get cs t)
  pub get-mark_true :
      (t reason message : String) (cs : List Condition)
      → c.get (c.mark_true t reason message cs) t
        ≡ some (record { type = t; status = "True"; reason = reason; message = message })
  pub get-mark_true_other :
      (t t' reason message : String) (cs : List Condition)
      → t ≢ t'
      → c.get (c.mark_true t reason message cs) t' ≡ c.get cs t'
  pub get-mark_false :
      (t reason message : String) (cs : List Condition)
      → c.get (c.mark_false t reason message cs) t
        ≡ some (record { type = t; status = "False"; reason = reason; message = message })
  pub get-mark_false_other :
      (t t' reason message : String) (cs : List Condition)
      → t ≢ t'
      → c.get (c.mark_false t reason message cs) t' ≡ c.get cs t'
  pub get-mark_reconciling :
      (reason message : String) (cs : List Condition)
      → c.get (c.mark_reconciling reason message cs) c.reconciling_condition
        ≡ some (record {
          type = c.reconciling_condition;
          status = "True";
          reason = reason;
          message = message;
        })
  pub get-mark_reconciling_stalled :
      (reason message : String) (cs : List Condition)
      → c.get (c.mark_reconciling reason message cs) c.stalled_condition ≡ none
  pub get-set : (cs : List Condition) (x : Condition) → c.get (c.set cs x) x.type ≡ some x
  pub get-set_other :
      (cs : List Condition) (x : Condition) (t : String)
      → x.type ≢ t
      → c.get (c.set cs x) t ≡ c.get cs t
  pub get-delete : (cs : List Condition) (t : String) → c.get (c.delete cs t) t ≡ none
  pub get-delete_other :
      (cs : List Condition) (t t' : String) → t ≢ t' → c.get (c.delete cs t) t' ≡ c.get cs t'

-- A status of a receiver that is ready.
pub record IsInitialized (c : Conditions) (obj : Receiver) (path message : String) : Type 0 where
  pub webhook_path : obj.status.webhook_path ≡ path
  pub observed_generation : obj.status.observed_generation ≡ obj.meta.generation
  pub ready :
      c.get obj.status.conditions c.ready_condition
      ≡ some (record {
        type = c.ready_condition;
        status = "True";
        reason = c.succeeded_reason;
        message = message;
      })
  pub settled : c.get obj.status.conditions c.reconciling_condition ≡ none
  pub unstalled : c.get obj.status.conditions c.stalled_condition ≡ none

-- A status of a receiver whose token was not found.
pub record IsFailed (c : Conditions) (obj : Receiver) (message : String) : Type 0 where
  pub webhook_path : obj.status.webhook_path ≡ ""
  pub ready :
      c.get obj.status.conditions c.ready_condition
      ≡ some (record {
        type = c.ready_condition;
        status = "False";
        reason = token_not_found_reason;
        message = message;
      })
  pub retrying :
      c.get obj.status.conditions c.reconciling_condition
      ≡ some (record {
        type = c.reconciling_condition;
        status = "True";
        reason = c.progressing_with_retry_reason;
        message = "Reconciliation in progress";
      })

module _ (c : Conditions) where
  -- Only the request that was handled is set first.
  pub handled-same :
      (obj : Receiver)
      → ((handled c obj).status.conditions ≡ obj.status.conditions)
        × ((handled c obj).status.webhook_path ≡ obj.status.webhook_path)
        × ((handled c obj).meta ≡ obj.meta)
        × ((handled c obj).spec ≡ obj.spec)
  unfolding handled
  handled-same obj = elim (Option-cases (c.reconcile_annotation_value obj.meta.annotations)) [
    | inl missing ↦ rw (handled, missing) (refl, refl, refl, refl)
    | inr (v, there) ↦ rw (handled, there) (refl, refl, refl, refl)
  ]

  module _ (laws : IsConditions c) where
    observed-IsInitialized :
        (obj : Receiver) (path message : String)
        → obj.status.webhook_path ≡ path
        → c.get obj.status.conditions c.ready_condition
          ≡ some (record {
            type = c.ready_condition;
            status = "True";
            reason = c.succeeded_reason;
            message = message;
          })
        → c.get obj.status.conditions c.stalled_condition ≡ none
        → IsInitialized c (observed c obj) path message
    unfolding observed
    observed-IsInitialized obj path message same ready moving =
        let is : c.is_true obj.status.conditions c.ready_condition ≡ true =
          rw (laws.is_true-get, ready) refl in
        record {
          webhook_path = rw (observed, is) same;
          observed_generation = rw (observed, is) refl;
          ready =
              rw (observed, is)
                (laws.get-delete_other _ _ _ (λ e. laws.ready-ne-reconciling (sym e)) ∙ ready);
          settled = rw (observed, is) (laws.get-delete _ _);
          unstalled =
              rw (observed, is) (laws.get-delete_other _ _ _ laws.reconciling-ne-stalled ∙ moving);
        }

    retrying-IsInitialized :
        (obj : Receiver) (path message : String)
        → IsInitialized c obj path message
        → IsInitialized c (retrying c obj) path message
    unfolding retrying
    retrying-IsInitialized obj path message h =
        let is : c.is_false obj.status.conditions c.ready_condition ≡ false =
          rw (laws.is_false-get, h.ready) refl in
        rw (retrying, is) h

    summarised-IsInitialized :
        (obj : Receiver) (path message : String)
        → obj.status.webhook_path ≡ path
        → c.get obj.status.conditions c.ready_condition
          ≡ some (record {
            type = c.ready_condition;
            status = "True";
            reason = c.succeeded_reason;
            message = message;
          })
        → c.get obj.status.conditions c.stalled_condition ≡ none
        → IsInitialized c (summarised c obj) path message
    unfolding summarised
    summarised-IsInitialized obj path message same ready moving =
        let (conditions, webhook_path, _, _) = handled-same obj in
        retrying-IsInitialized (observed c (handled c obj)) path message (
          observed-IsInitialized (handled c obj) path message (webhook_path ∙ same)
            (rw conditions ready) (rw conditions moving))

    retrying-IsFailed :
        (obj : Receiver) (message : String)
        → obj.status.webhook_path ≡ ""
        → c.get obj.status.conditions c.ready_condition
          ≡ some (record {
            type = c.ready_condition;
            status = "False";
            reason = token_not_found_reason;
            message = message;
          })
        → c.get obj.status.conditions c.reconciling_condition
          ≡ some (record {
            type = c.reconciling_condition;
            status = "True";
            reason = c.progressing_reason;
            message = "Reconciliation in progress";
          })
        → IsFailed c (retrying c obj) message
    unfolding retrying
    retrying-IsFailed obj message same ready reconciling =
        let is_false : c.is_false obj.status.conditions c.ready_condition ≡ true =
          rw (laws.is_false-get, ready) refl in
        let has : c.has obj.status.conditions c.reconciling_condition ≡ true =
          rw (laws.has-get, reconciling) refl in
        record {
          webhook_path = rw (retrying, is_false, has, reconciling) same;
          ready =
              rw (retrying, is_false, has, reconciling)
                (laws.get-set_other _ _ _ (λ e. laws.ready-ne-reconciling (sym e)) ∙ ready);
          retrying = rw (retrying, is_false, has, reconciling) (laws.get-set _ _);
        }

    summarised-IsFailed :
        (obj : Receiver) (message : String)
        → obj.status.webhook_path ≡ ""
        → c.get obj.status.conditions c.ready_condition
          ≡ some (record {
            type = c.ready_condition;
            status = "False";
            reason = token_not_found_reason;
            message = message;
          })
        → c.get obj.status.conditions c.reconciling_condition
          ≡ some (record {
            type = c.reconciling_condition;
            status = "True";
            reason = c.progressing_reason;
            message = "Reconciliation in progress";
          })
        → IsFailed c (summarised c obj) message
    unfolding summarised observed
    summarised-IsFailed obj message same ready reconciling =
        let (conditions, webhook_path, _, _) = handled-same obj in
        let not_true : c.is_true (handled c obj).status.conditions c.ready_condition ≡ false =
          rw (conditions, laws.is_true-get, ready) refl in
        let kept : observed c (handled c obj) ≡ handled c obj = rw (observed, not_true) refl in
        subst (λ x. IsFailed c (retrying c x) message) (sym kept)
          (retrying-IsFailed (handled c obj) message (webhook_path ∙ same)
            (ap (λ cs. c.get cs c.ready_condition) conditions ∙ ready)
            (ap (λ cs. c.get cs c.reconciling_condition) conditions ∙ reconciling))

    module _ {S : Type 0} (o : Objects) (store : ReceiverStore S) where
      -- Where the token can be read, the tasks end without an error and ask for the next run after the
      -- receiver's interval, and the object to patch has the webhook path of the token, is ready, no
      -- longer reconciling, and observed in its generation.
      pub reconcile_tasks-IsInitialized :
          (s : S) (obj : Receiver) (t : String)
          → token o c store s obj ≡ ok t
          → IsInitialized c
              (summarised c (reconcile_tasks o c store s obj).object)
              (get_webhook_path store.sha256_hex obj t)
              (initialized o c store (get_webhook_path store.sha256_hex obj t))
            × ((reconcile_tasks o c store s obj).error ≡ none)
            × ((reconcile_tasks o c store s obj).result
                ≡ record { requeue = false; requeue_after = get_interval obj })
      unfolding reconcile_tasks
      reconcile_tasks-IsInitialized s obj t found =
          let not_stalled =
            laws.get-mark_true_other c.ready_condition c.stalled_condition c.succeeded_reason
              (initialized o c store (get_webhook_path store.sha256_hex obj t))
              (c.mark_reconciling c.progressing_reason "Reconciliation in progress"
                obj.status.conditions)
              laws.ready-ne-stalled
            ∙ laws.get-mark_reconciling_stalled c.progressing_reason "Reconciliation in progress"
                obj.status.conditions in
          elim (eq_cases obj.status.webhook_path (get_webhook_path store.sha256_hex obj t)) [
            | inl same ↦
                let test =
                  (eq_iff obj.status.webhook_path (get_webhook_path store.sha256_hex obj t)).1
                    same in
                (
                  rw (reconcile_tasks, found, test)
                      (summarised-IsInitialized _ _ _ same (laws.get-mark_true _ _ _ _)
                        not_stalled),
                  rw (reconcile_tasks, found) refl,
                  rw (reconcile_tasks, found) refl,
                )
            | inr other ↦ (
              rw (reconcile_tasks, found, other)
                  (summarised-IsInitialized _ _ _ refl (laws.get-mark_true _ _ _ _) not_stalled),
              rw (reconcile_tasks, found) refl,
              rw (reconcile_tasks, found) refl,
            )
          ]

      -- Where the token cannot be read, the tasks end with its error and ask for a new run, and the
      -- object to patch has no webhook path, is not ready for this reason and is to be retried.
      pub reconcile_tasks-IsFailed :
          (s : S) (obj : Receiver) (e : String)
          → token o c store s obj ≡ err e
          → IsFailed c (summarised c (reconcile_tasks o c store s obj).object) e
            × ((reconcile_tasks o c store s obj).error ≡ some e)
            × ((reconcile_tasks o c store s obj).result
                ≡ record { requeue = true; requeue_after = 0 })
      unfolding reconcile_tasks
      reconcile_tasks-IsFailed s obj e missing = (
        rw (reconcile_tasks, missing)
            (summarised-IsFailed _ e refl (laws.get-mark_false _ _ _ _) (
              laws.get-mark_false_other _ _ _ _ _ laws.ready-ne-reconciling
              ∙ laws.get-mark_reconciling _ _ _)),
        rw (reconcile_tasks, missing) refl,
        rw (reconcile_tasks, missing) refl,
      )
