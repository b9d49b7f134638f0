-- ===== src/Controller/Migration/Laws.antt =====
-- The migration of alerts and providers: when it is due, and what it does.
use notification_controller.Prelude.{
  ◌≡◌, ◌≢◌, ◌⊎◌, inl, inr, refl, true, false, not, ◌&&◌, [], ok, arith, Bool-cases, Result-cases,
}
use notification_controller.Api.{NamespacedName, notification_finalizer}
use notification_controller.Controller.{Objects}
use notification_controller.Controller.Migration.{Kind, Store, reconcile}

module _ {S O : Type 0} (o : Objects) (k : Kind O) (store : Store S O) where
  -- The object still has the finalizer, is deleted or not suspended, and can be patched.
  abbrev pub IsDue : S → NamespacedName → O → Type 0
  IsDue s request obj =
      (store.get s request ≡ ok obj)
      × (o.contains_finalizer (k.meta obj).finalizers notification_finalizer ≡ true)
      × ((k.suspend obj && not (k.meta obj).deleting) ≡ false)
      × (store.new_helper s obj ≡ ok tt)

  -- A reconciliation that changes the state or records an event is of an object that is due, and
  -- what it does to it is one patch, which only takes the finalizer away.
  pub reconcile-IsDue :
      (s : S) (request : NamespacedName)
      → ((reconcile o k store s request).state ≢ s)
        ⊎ ((reconcile o k store s request).recorded ≢ [])
      → (obj : O) × IsDue s request obj
        × ((reconcile o k store s request).state
            ≡ (store.patch s obj (
                k.set_finalizers
                  (o.remove_finalizer (k.meta obj).finalizers notification_finalizer)
                  obj)).0)
  unfolding reconcile
  reconcile-IsDue s request h = elim (Result-cases (store.get s request)) [
    | inr (e, missing) ↦ ground arith
    | inl (obj, found) ↦
        elim (Bool-cases (o.contains_finalizer (k.meta obj).finalizers notification_finalizer)) [
          | inr without ↦ ground arith
          | inl with ↦ elim (Bool-cases (k.suspend obj && not (k.meta obj).deleting)) [
            | inl suspended ↦ ground arith
            | inr active ↦ elim (Result-cases (store.new_helper s obj)) [
              | inl (_, helped) ↦ (
                obj,
                (found, with, active, helped),
                rw (reconcile, found, with, active, helped) refl,
              )
              | inr (e, failed) ↦ ground arith
            ]
          ]
        ]
  ]
