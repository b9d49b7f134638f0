-- ===== src/Notifier/Gitlab.antt =====
-- The commit statuses of internal/notifier/gitlab.go. The client of package go-gitlab is a parameter.
use notification_controller.Prelude.{
  String, ◌==◌, ◌||◌, ◌&&◌, Bool, false, List, [], ◌∷◌, Option, if◌then◌else◌, Result, ok, err,
  ◌>>=◌, ◌>>◌, nat_eq, len,
}
use notification_controller.Prelude.Actions.{Action, ◌>>>◌, lift, wrap_action}
use notification_controller.Api.Event.{Event}
use notification_controller.Notifier.Tools.{Tools}
use notification_controller.Notifier.Util.{
  parse_git_address, format_name_and_description, generate_commit_status_id,
}
use notification_controller.Notifier.Status.{parse_revision, revision_of, post_unless, fail_if}

-- gitlab.CommitStatus; a state is its text.
pub record CommitStatus : Type 0 where
  pub name : String
  pub sha : String
  pub status : String
  pub description : String

-- gitlab.SetCommitStatusOptions
pub record SetCommitStatusOptions : Type 0 where
  pub name : String
  pub description : String
  pub state : String

pub record GitlabApi (S C Pool : Type 0) : Type 0 where
  -- gitlab.NewClient with the base URL, and with the HTTP client of a pool if there is one
  pub new_client : String → String → Option Pool → Result C
  -- gitlab.Success and gitlab.Failed
  pub success : String
  pub failed : String
  pub get_commit_statuses : C → String → String → Action S (List CommitStatus)
  pub set_commit_status : C → String → String → SetCommitStatusOptions → Action S (Unit {0})

pub record GitLab (C : Type 0) : Type 0 where
  pub id : String
  pub provider_uid : String
  pub client : C

unfoldable pub duplicate_gitlab_status : List CommitStatus → CommitStatus → Bool
duplicate_gitlab_status [] status = false
duplicate_gitlab_status (s ∷ statuses) status =
    (s.sha == status.sha
      && (s.status == status.status
          && s.description == status.description
          && s.name == status.name))
    || duplicate_gitlab_status statuses status

module _ {S C Pool : Type 0} (tools : Tools S Pool) (gitlab : GitlabApi S C Pool) where
  unfoldable pub new_git_lab : String → String → String → Option Pool → Result (GitLab C)
  unfolding parse_git_address
  new_git_lab provider_uid addr token cert_pool = do
    fail_if (nat_eq (len token) 0) "gitlab token cannot be empty"
    address ← parse_git_address tools.git.parse tools.http.quote addr
    client ← gitlab.new_client token address.0 cert_pool
    ok (record { id = address.1; provider_uid = provider_uid; client = client })

  unfoldable pub to_git_lab_state : String → Result String
  to_git_lab_state severity =
      if severity == tools.api.severity_info
      then ok gitlab.success
      else (if severity == tools.api.severity_error
          then ok gitlab.failed
          else err "can't convert to gitlab state")

  -- The status of an event; its SHA is the revision.
  unfoldable pub git_lab_status : GitLab C → Event → Result CommitStatus
  unfolding parse_revision to_git_lab_state format_name_and_description generate_commit_status_id
  git_lab_status g event = do
    rev_string ← revision_of tools.api event
    rev ← parse_revision tools.git rev_string
    state ← to_git_lab_state event.severity
    ok (record {
      name = generate_commit_status_id tools.unicode g.provider_uid event;
      sha = rev;
      status = state;
      description = (format_name_and_description tools.unicode event).1;
    })

  -- The end of `Post`, from the list of the statuses.
  unfoldable pub post_git_lab_status : GitLab C → CommitStatus → Action S (Unit {0})
  unfolding duplicate_gitlab_status
  post_git_lab_status g status =
      post_unless
        (wrap_action "unable to list commit status: "
          (gitlab.get_commit_statuses g.client g.id status.sha))
        (λ statuses. duplicate_gitlab_status statuses status)
        (gitlab.set_commit_status g.client g.id status.sha
          (record { name = status.name; description = status.description; state = status.status }))

  unfoldable pub post_git_lab : GitLab C → Event → Action S (Unit {0})
  unfolding git_lab_status post_git_lab_status
  post_git_lab g event =
      if tools.api.has_reason event tools.api.progressing_reason
      then lift (ok tt)
      else (lift (git_lab_status g event) >>> post_git_lab_status g)
