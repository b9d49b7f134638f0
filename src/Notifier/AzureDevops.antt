-- ===== src/Notifier/AzureDevops.antt =====
-- The commit statuses of internal/notifier/azure_devops.go. The client of the Azure DevOps API is a
-- parameter.
pub mod Laws
use notification_controller.Prelude.{
  String, ◌<>◌, ◌==◌, ◌&&◌, Bool, false, List, [], ◌∷◌, Option, none, some, if◌then◌else◌, Result,
  ok, err, ◌>>=◌, ◌>>◌, nat_eq, len, split,
}
use notification_controller.Prelude.Actions.{Action, ◌>>>◌, lift, wrap_action}
use notification_controller.Prelude.Dict.{lookup}
use notification_controller.Api.Event.{Event}
use notification_controller.Notifier.Tools.{Tools}
use notification_controller.Notifier.Util.{
  parse_git_address, format_name_and_description, generate_commit_status_id,
}
use notification_controller.Notifier.Status.{parse_revision, revision_of, post_unless, fail_if}

-- git.GitStatusContext and git.GitStatus, of which the parts may be nil, and a status that is made,
-- with all of them.
pub record GitStatusContext : Type 0 where
  pub genre : Option String
  pub name : Option String

pub record GitStatus : Type 0 where
  pub description : Option String
  pub state : Option String
  pub context : Option GitStatusContext

pub record NewGitStatus : Type 0 where
  pub description : String
  pub state : String
  pub genre : String
  pub name : String

pub record AzureApi (S C Pool : Type 0) : Type 0 where
  -- The client of an organisation's URL, a token and a pool.
  pub new_client : String → String → Option Pool → C
  -- git.GitStatusStateValues
  pub succeeded : String
  pub error : String
  -- By the project, the repository and the commit; a nil list is `none`.
  pub get_statuses : C → String → String → String → Action S (Option (List GitStatus))
  pub create_commit_status : C → String → String → String → NewGitStatus → Action S (Unit {0})

pub record AzureDevOps (C : Type 0) : Type 0 where
  pub project : String
  pub repo : String
  pub provider_uid : String
  pub client : C

abbrev pub genre : String
genre = "fluxcd"

abbrev genre_with : Option String → String
genre_with none = genre
genre_with (some summary) = genre <> (":" <> summary)

unfoldable pub commit_status_genre : Event → String
commit_status_genre event = genre_with (lookup "summary" event.metadata)

-- The status with all its parts, if it has them.
unfoldable pub full_status : GitStatus → Option NewGitStatus
full_status s = elim s.context [
  | none ↦ none
  | some c ↦ elim c.name [
    | none ↦ none
    | some name ↦ elim c.genre [
      | none ↦ none
      | some genre_ ↦ elim s.state [
        | none ↦ none
        | some state ↦ elim s.description [
          | none ↦ none
          | some description ↦
              some
                (record { description = description; state = state; genre = genre_; name = name })
        ]
      ]
    ]
  ]
]

-- The loop.
unfoldable pub duplicate_azure_status : List GitStatus → NewGitStatus → Bool
unfolding full_status
duplicate_azure_status [] status = false
duplicate_azure_status (s ∷ statuses) status =
    let rest = duplicate_azure_status statuses status in
    elim (full_status s) [
      | none ↦ rest
      | some t ↦
          if t.name == status.name && t.genre == status.genre
          then t.state == status.state && t.description == status.description
          else rest
    ]

unfoldable pub duplicate_azure_dev_ops_status : Option (List GitStatus) → NewGitStatus → Bool
unfolding duplicate_azure_status
duplicate_azure_dev_ops_status none status = false
duplicate_azure_dev_ops_status (some statuses) status = duplicate_azure_status statuses status

-- The parts of the identifier that are used, or the error.
abbrev organisation_and_repo : String → List String → Result (String × String × String)
organisation_and_repo text (org ∷ proj ∷ _ ∷ repo ∷ []) = ok (org, proj, repo)
organisation_and_repo text _ = err text

module _ {S C Pool : Type 0} (tools : Tools S Pool) (azure : AzureApi S C Pool) where
  unfoldable pub new_azure_dev_ops : String → String → String → Option Pool → Result (AzureDevOps C)
  unfolding parse_git_address
  new_azure_dev_ops provider_uid addr token cert_pool = do
    fail_if (nat_eq (len token) 0) "azure devops token cannot be empty"
    address ← parse_git_address tools.git.parse tools.http.quote addr
    comp ←
        organisation_and_repo ("invalid repository id " <> tools.http.quote address.1)
          (split 47 address.1)
    ok (record {
      project = comp.1;
      repo = comp.2;
      provider_uid = provider_uid;
      client = azure.new_client (address.0 <> ("/" <> comp.0)) token cert_pool;
    })

  unfoldable pub to_azure_dev_ops_state : String → Result String
  to_azure_dev_ops_state severity =
      if severity == tools.api.severity_info
      then ok azure.succeeded
      else (if severity == tools.api.severity_error
          then ok azure.error
          else err "can't convert to azure devops state")

  -- The revision and the status of an event.
  unfoldable pub azure_dev_ops_status : AzureDevOps C → Event → Result (String × NewGitStatus)
  unfolding parse_revision to_azure_dev_ops_state format_name_and_description
      generate_commit_status_id commit_status_genre
  azure_dev_ops_status a event = do
    rev_string ← revision_of tools.api event
    rev ← parse_revision tools.git rev_string
    state ← to_azure_dev_ops_state event.severity
    ok (
      rev,
      record {
        description = (format_name_and_description tools.unicode event).1;
        state = state;
        genre = commit_status_genre event;
        name = generate_commit_status_id tools.unicode a.provider_uid event;
      },
    )

  -- The end of `Post`, from the list of the statuses.
  unfoldable pub post_azure_status : AzureDevOps C → String → NewGitStatus → Action S (Unit {0})
  unfolding duplicate_azure_dev_ops_status
  post_azure_status a rev status =
      post_unless
        (wrap_action "could not list commit statuses: "
          (azure.get_statuses a.client a.project a.repo rev))
        (λ statuses. duplicate_azure_dev_ops_status statuses status)
        (wrap_action "could not create commit status: "
          (azure.create_commit_status a.client a.project a.repo rev status))

  unfoldable pub post_azure_dev_ops : AzureDevOps C → Event → Action S (Unit {0})
  unfolding azure_dev_ops_status post_azure_status
  post_azure_dev_ops a event =
      if tools.api.has_reason event tools.api.progressing_reason
      then lift (ok tt)
      else (lift (azure_dev_ops_status a event) >>> λ made. post_azure_status a made.0 made.1)
