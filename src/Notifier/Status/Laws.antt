-- ===== src/Notifier/Status/Laws.antt =====
-- A status that a host shows is not created again.
use notification_controller.Prelude.{
  ◌≡◌, refl, sym, ap, ◌∙◌, Bool, true, inl, inr, Bool-cases, Result, ok, if◌then◌else◌, subst,
}
use notification_controller.Prelude.Actions.{Action, lift, next_call-eq-ok}
use notification_controller.Notifier.Status.{post_unless}

module _ {S Statuses : Type 0} (list : Action S Statuses) (duplicate : Statuses → Bool)
    (create : Action S (Unit {0})) where
  -- The host shows, in a state, statuses among which is the one that was posted.
  abbrev pub IsShown : S → Type 0
  IsShown s = (statuses : Statuses) × (list s ≡ (s, ok statuses)) × (duplicate statuses ≡ true)

  IsShown-quiet : (s : S) → IsShown s → post_unless list duplicate create s ≡ (s, ok tt)
  IsShown-quiet s (statuses, listed, same) = rw (listed, same) refl

  list-IsShown :
      (s r t : S) (statuses : Statuses)
      → (list s).0 ≡ s
      → list s ≡ (r, ok statuses)
      → duplicate statuses ≡ true
      → ◌≡◌ {A = S × Result (Unit {0})} (r, ok tt) (t, ok tt)
      → IsShown t
  list-IsShown s r t statuses reads listed same done =
      let end : s ≡ t = sym reads ∙ ap (λ e. e.0) listed ∙ ap (λ e. e.0) done in
      (
        statuses,
        subst (λ u. list u ≡ (u, ok statuses)) end
            (listed ∙ ap (λ u. (u, ok statuses)) (sym (ap (λ e. e.0) listed) ∙ reads)),
        same,
      )

  -- Where a list leaves the host's state and what is created is shown, a status that was posted is
  -- shown.
  pub post_unless-IsShown :
      (s t : S)
      → ((r : S) → (list r).0 ≡ r)
      → ((r t : S) → create r ≡ (t, ok tt) → IsShown t)
      → post_unless list duplicate create s ≡ (t, ok tt)
      → IsShown t
  post_unless-IsShown s t reads shows h =
      let (r, statuses, listed, next) =
        next_call-eq-ok (list s) (λ e. if duplicate e then lift (ok tt) else create) t h in
      elim (Bool-cases (duplicate statuses)) [
        | inl same ↦ list-IsShown s r t statuses (reads s) listed same (rw same at next)
        | inr new ↦ shows r t (rw new at next)
      ]

  -- Then posting it again changes nothing.
  pub post_unless-again :
      (s t : S)
      → ((r : S) → (list r).0 ≡ r)
      → ((r t : S) → create r ≡ (t, ok tt) → IsShown t)
      → post_unless list duplicate create s ≡ (t, ok tt)
      → post_unless list duplicate create t ≡ (t, ok tt)
  post_unless-again s t reads shows h = IsShown-quiet t (post_unless-IsShown s t reads shows h)

  -- Where the host answers both calls without an error, so does the post.
  pub post_unless_answered :
      (s : S)
      → ((statuses : Statuses) × (list s ≡ (s, ok statuses)))
      → ((t : S) × (create s ≡ (t, ok tt)))
      → (t : S) × (post_unless list duplicate create s ≡ (t, ok tt))
  post_unless_answered s (statuses, listed) (t, created) = elim (Bool-cases (duplicate statuses)) [
    | inl old ↦ (s, rw (listed, old) refl)
    | inr new ↦ (t, rw (listed, new) created)
  ]
