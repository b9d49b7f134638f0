-- ===== src/Notifier/Github/Laws.antt =====
-- What is a duplicate of a commit status for internal/notifier/github.go, and what the host lists
-- after a post.
use notification_controller.Prelude.{
  ap, String, ◌==◌, ◌≡◌, ◌↔◌, refl, inl, inr, Bool, true, false, Bool-cases, List, ◌∷◌, Option,
  none, some, ok, eq_iff, texts_iff, eq_refl, ◌&&◌, Option-cases,
}
use notification_controller.Prelude.Actions.{
  Action, wrap_action, wrap_second-eq-ok, lift-eq-ok, lift-again,
}
use notification_controller.Api.Event.{Event}
use notification_controller.Notifier.Tools.{Tools}
use notification_controller.Notifier.Status.Latest.{
  Loop, turn, complete, latest, duplicate_iff, ShowsFirst, IsLatestAt, post_status-IsLatestAt,
  post_status-again,
}
use notification_controller.Notifier.Github.{
  RepoStatus, NewStatus, GithubApi, GitHub, duplicate_github_status, git_hub_status,
  post_git_hub_status, post_git_hub,
}

-- A status in the form in which the host lists it.
abbrev pub listed : NewStatus → RepoStatus
listed status = record {
  state = some status.state;
  context = some status.context;
  description = some status.description;
}

-- The texts of a status that has the three.
abbrev pub texts_of : RepoStatus → Option NewStatus
texts_of s = elim s.context [
  | none ↦ none
  | some context ↦ elim s.state [
    | none ↦ none
    | some state ↦ elim s.description [
      | none ↦ none
      | some description ↦
          some (record { state = state; context = context; description = description })
    ]
  ]
]

abbrev pub same_context : NewStatus → NewStatus → Bool
same_context s t = s.context == t.context

abbrev pub same_rest : NewStatus → NewStatus → Bool
same_rest s t = s.state == t.state && s.description == t.description

duplicate_cons :
    (r : RepoStatus) (rs : List RepoStatus) (n : NewStatus)
    → duplicate_github_status (r ∷ rs) n
      ≡ turn same_context same_rest n (duplicate_github_status rs n) (texts_of r)
unfolding duplicate_github_status
duplicate_cons r rs n = elim (Option-cases r.context) [
  | inl no_context ↦ rw no_context refl
  | inr (c, context) ↦ elim (Option-cases r.state) [
    | inl no_state ↦ rw (context, no_state) refl
    | inr (st, state) ↦ elim (Option-cases r.description) [
      | inl no_description ↦ rw (context, state, no_description) refl
      | inr (d, description) ↦ rw (context, state, description) refl
    ]
  ]
]

NewStatus-path :
    (s t : NewStatus)
    → s.state ≡ t.state
    → s.context ≡ t.context
    → s.description ≡ t.description
    → s ≡ t
NewStatus-path s t same_state same_context same_description =
    λ i. record { state = same_state i; context = same_context i; description = same_description i }

same_rest_iff : (s t : NewStatus) → same_context s t ≡ true → (same_rest s t ≡ true) ↔ (s ≡ t)
same_rest_iff s t about = (
  λ h.
      let (state, description) = (texts_iff s.state t.state s.description t.description).0 h in
      NewStatus-path s t state ((eq_iff s.context t.context).0 about) description,
  λ h.
      (texts_iff s.state t.state s.description t.description).1
        (ap (λ r. r.state) h, ap (λ r. r.description) h),
)

unfoldable git_hub_loop : Loop RepoStatus NewStatus
unfolding duplicate_github_status
git_hub_loop = record {
  texts = texts_of;
  about = same_context;
  same = same_rest;
  duplicate = duplicate_github_status;
  duplicate_nil = λ n. refl;
  duplicate_cons = duplicate_cons;
  about_self = λ n. eq_refl n.context;
  same_iff = same_rest_iff;
}

-- A status is a duplicate just if it is the latest of the complete statuses with its context.
duplicate_iff_latest :
    (statuses : List RepoStatus) (status : NewStatus)
    → (duplicate_github_status statuses status ≡ true)
      ↔ (latest same_context status (complete texts_of statuses) ≡ some status)
unfolding git_hub_loop
duplicate_iff_latest = duplicate_iff git_hub_loop

module _ {S C Pool : Type 0} (tools : Tools S Pool) (github : GithubApi S C Pool)
    (g : GitHub C) where
  -- The host's list of the statuses of a commit.
  abbrev pub list_at : String → Action S (List RepoStatus)
  list_at rev = github.list_statuses g.client g.owner g.repo rev 50

  abbrev pub create_at : String → NewStatus → Action S (Unit {0})
  create_at rev status = github.create_status g.client g.owner g.repo rev status

  -- Listing leaves the host's state, and what was created is listed first.
  abbrev pub IsOrdered : Type 0
  IsOrdered =
      ((rev : String) (s : S) → (list_at rev s).0 ≡ s)
      × ((rev : String) (status : NewStatus) (s t : S)
          → create_at rev status s ≡ (t, ok tt)
          → ShowsFirst (λ rs. rs) (list_at rev) (listed status) t)

  -- The latest of the complete statuses with the context of a status is this status.
  abbrev pub IsLatest : String → NewStatus → S → Type 0
  IsLatest rev status = IsLatestAt (λ rs. rs) (list_at rev) texts_of same_context status

  module _ (ordered : IsOrdered) (rev : String) (status : NewStatus) where
    abbrev create : Action S (Unit {0})
    create = wrap_action "could not create commit status: " (create_at rev status)

    shows :
        (s t : S) → create s ≡ (t, ok tt) → ShowsFirst (λ rs. rs) (list_at rev) (listed status) t
    shows s t created = ordered.1 rev status s t (wrap_second-eq-ok _ _ _ _ created)

    pub posted-IsLatest :
        (before after : S)
        → post_git_hub_status tools github g rev status before ≡ (after, ok tt)
        → IsLatest rev status after
    unfolding post_git_hub_status git_hub_loop
    posted-IsLatest =
        post_status-IsLatestAt git_hub_loop (λ rs. rs) (list_at rev) status (listed status) refl
          "could not list commit statuses: " create (ordered.0 rev) shows

    posted-again :
        (before after : S)
        → post_git_hub_status tools github g rev status before ≡ (after, ok tt)
        → post_git_hub_status tools github g rev status after ≡ (after, ok tt)
    unfolding post_git_hub_status git_hub_loop
    posted-again =
        post_status-again git_hub_loop (λ rs. rs) (list_at rev) status (listed status) refl
          "could not list commit statuses: " create (ordered.0 rev) shows

  -- Where the host's list of statuses leaves its state and starts with a status that was created,
  -- an event that was posted without an error can be posted again: this is fine too, and the state
  -- of the host stays as it is.
  pub post_git_hub_again :
      (event : Event) (before after : S)
      → IsOrdered
      → post_git_hub tools github g event before ≡ (after, ok tt)
      → post_git_hub tools github g event after ≡ (after, ok tt)
  unfolding post_git_hub
  post_git_hub_again event before after ordered h =
      elim (Bool-cases (tools.api.has_reason event tools.api.progressing_reason)) [
        | inl skipped ↦ rw skipped refl
        | inr other ↦ rw other (
            lift-again (git_hub_status tools github g event)
              (λ made. post_git_hub_status tools github g made.0 made.1) before after
              (λ made posted. posted-again ordered made.0 made.1 before after posted)
              (rw other at h))
      ]

  -- Where the host's list of statuses leaves its state and starts with a status that was created,
  -- and an event that is not progressing was posted without an error, its status is the latest of
  -- the complete statuses with its context that the host lists.
  pub post_git_hub-IsLatest :
      (event : Event) (before after : S)
      → IsOrdered
      → tools.api.has_reason event tools.api.progressing_reason ≡ false
      → post_git_hub tools github g event before ≡ (after, ok tt)
      → (made : String × NewStatus) × (git_hub_status tools github g event ≡ ok made)
        × IsLatest made.0 made.1 after
  unfolding post_git_hub
  post_git_hub-IsLatest event before after ordered other h =
      let (made, same, posted) =
        lift-eq-ok (git_hub_status tools github g event)
          (λ made. post_git_hub_status tools github g made.0 made.1) before after (rw other at h) in
      (made, same, posted-IsLatest ordered made.0 made.1 before after posted)
