-- ===== src/Notifier/Github/Answers.antt =====
-- A post of internal/notifier/github.go to a host that answers.
use notification_controller.Prelude.{
  String, ◌==◌, ◌≡◌, ◌⊎◌, refl, inl, inr, false, List, some, ok, eq_refl, sym, Bool-cases,
}
use notification_controller.Prelude.Dict.{lookup}
use notification_controller.Prelude.Actions.{wrap_action}
use notification_controller.Api.Event.{Event}
use notification_controller.Notifier.Tools.{Tools}
use notification_controller.Notifier.Util.{format_name_and_description, generate_commit_status_id}
use notification_controller.Notifier.Status.{parse_revision}
use notification_controller.Notifier.Status.Laws.{post_unless_answered}
use notification_controller.Notifier.Github.{
  RepoStatus, NewStatus, GithubApi, GitHub, duplicate_github_status, to_git_hub_state,
  git_hub_status, post_git_hub_status, post_git_hub,
}
use notification_controller.Notifier.Github.Laws.{
  list_at, create_at, IsOrdered, IsLatest, posted-IsLatest,
}

module _ {S C Pool : Type 0} (tools : Tools S Pool) (github : GithubApi S C Pool)
    (g : GitHub C) where
  -- The host answers both calls without an error.
  abbrev pub IsAnswering : Type 0
  IsAnswering =
      ((rev : String) (s : S)
        → (statuses : List RepoStatus) × (list_at tools github g rev s ≡ (s, ok statuses)))
      × ((rev : String) (status : NewStatus) (s : S)
          → (t : S) × (create_at tools github g rev status s ≡ (t, ok tt)))

  -- The severity is one of the two that have a state.
  abbrev pub HasState : Event → Type 0
  HasState event =
      (event.severity ≡ tools.api.severity_info) ⊎ (event.severity ≡ tools.api.severity_error)

  state_of_severity :
      (event : Event)
      → HasState event
      → (state : String) × (to_git_hub_state tools github event.severity ≡ ok state)
  unfolding to_git_hub_state
  state_of_severity event (inl info) = ("success", rw (sym info, eq_refl event.severity) refl)
  state_of_severity event (inr failed) =
      elim (Bool-cases (event.severity == tools.api.severity_info)) [
        | inl info ↦ ("success", rw info refl)
        | inr other ↦ ("failure", rw (other, sym failed, eq_refl event.severity) refl)
      ]

  git_hub_status_made :
      (event : Event) (rev_string hash : String)
      → lookup tools.api.revision_key event.metadata ≡ some rev_string
      → tools.git.extract_hash rev_string ≡ some hash
      → HasState event
      → (status : NewStatus) × (git_hub_status tools github g event ≡ ok (hash, status))
  unfolding git_hub_status parse_revision
  git_hub_status_made event rev_string hash revision extracted severity =
      let (state, made) = state_of_severity event severity in
      (
        record {
          state = state;
          context = generate_commit_status_id tools.unicode g.provider_uid event;
          description = (format_name_and_description tools.unicode event).1;
        },
        rw (revision, extracted, made) refl,
      )

  post_answered :
      (rev : String) (status : NewStatus) (before : S)
      → IsAnswering
      → (after : S) × (post_git_hub_status tools github g rev status before ≡ (after, ok tt))
  unfolding post_git_hub_status
  post_answered rev status before (lists, creates) =
      let (statuses, listed) = lists rev before in
      let (after, created) = creates rev status before in
      post_unless_answered
        (wrap_action "could not list commit statuses: " (list_at tools github g rev))
        (λ rs. duplicate_github_status rs status)
        (wrap_action "could not create commit status: " (create_at tools github g rev status))
        before (statuses, rw listed refl) (after, rw created refl)

  -- Where the host answers without an error, lists without a change and lists first what was
  -- created, an event of severity info or error that is not progressing, with a revision that has a
  -- commit's hash, is posted without an error, and then its status is the latest of the complete
  -- statuses with its context that the host lists for this commit.
  pub post_git_hub_arrives :
      (event : Event) (rev_string hash : String) (before : S)
      → IsAnswering
      → IsOrdered tools github g
      → tools.api.has_reason event tools.api.progressing_reason ≡ false
      → lookup tools.api.revision_key event.metadata ≡ some rev_string
      → tools.git.extract_hash rev_string ≡ some hash
      → HasState event
      → (after : S) × (status : NewStatus) × (post_git_hub tools github g event before
          ≡ (after, ok tt))
        × (git_hub_status tools github g event ≡ ok (hash, status))
        × IsLatest tools github g hash status after
  unfolding post_git_hub
  post_git_hub_arrives event rev_string hash before answers ordered other revision extracted
        severity =
      let (status, made) = git_hub_status_made event rev_string hash revision extracted severity in
      let (after, posted) = post_answered hash status before answers in
      (
        after,
        status,
        rw (other, made) posted,
        made,
        posted-IsLatest tools github g ordered hash status before after posted,
      )
