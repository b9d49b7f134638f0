-- ===== src/Notifier/Github.antt =====
-- The commit statuses of internal/notifier/github.go and the dispatch events of github_dispatch.go.
-- The client of package go-github is a parameter.
pub mod Laws
pub mod Answers
use notification_controller.Prelude.{
  ℕ, String, ◌<>◌, ◌==◌, ◌&&◌, Bool, true, false, List, [], ◌∷◌, Option, none, some, if◌then◌else◌,
  Result, ok, err, ◌>>=◌, ◌>>◌, wrap, nat_eq, len,
}
use notification_controller.Prelude.Actions.{Action, ◌>>>◌, lift, wrap_action}
use notification_controller.Api.Event.{Event, is_commit_status}
use notification_controller.Notifier.Tools.{Tools}
use notification_controller.Notifier.Payload.{event_payload}
use notification_controller.Notifier.Util.{
  parse_git_address, format_name_and_description, generate_commit_status_id,
}
use notification_controller.Notifier.Status.{
  parse_revision, revision_of, owner_and_repo, post_unless, fail_if,
}

-- github.RepoStatus, as the host lists it and as `Post` makes it, with the three texts.
pub record RepoStatus : Type 0 where
  pub state : Option String
  pub context : Option String
  pub description : Option String

pub record NewStatus : Type 0 where
  pub state : String
  pub context : String
  pub description : String

pub record GithubApi (S C Pool : Type 0) : Type 0 where
  -- github.NewClient and NewEnterpriseClient, on the HTTP client of a token and a pool
  pub new_client : String → C
  pub new_enterprise_client : String → String → Option Pool → Result C
  -- By the owner, the repository and the revision; the number is the size of a page.
  pub list_statuses : C → String → String → String → ℕ → Action S (List RepoStatus)
  pub create_status : C → String → String → String → NewStatus → Action S (Unit {0})
  -- By the owner, the repository, the event's type and the payload.
  pub dispatch : C → String → String → String → String → Action S (Unit {0})

pub record GitHub (C : Type 0) : Type 0 where
  pub owner : String
  pub repo : String
  pub provider_uid : String
  pub client : C

pub record GitHubDispatch (C : Type 0) : Type 0 where
  pub owner : String
  pub repo : String
  pub client : C

unfoldable pub duplicate_github_status : List RepoStatus → NewStatus → Bool
duplicate_github_status [] status = false
duplicate_github_status (s ∷ statuses) status =
    let rest = duplicate_github_status statuses status in
    elim s.context [
      | none ↦ rest
      | some context ↦ elim s.state [
        | none ↦ rest
        | some state ↦ elim s.description [
          | none ↦ rest
          | some description ↦
              if context == status.context
              then state == status.state && description == status.description
              else rest
        ]
      ]
    ]

module _ {S C Pool : Type 0} (tools : Tools S Pool) (github : GithubApi S C Pool) where
  -- The client of a token, by the host of the address.
  abbrev client_of : String → String → String → Option Pool → Result C
  client_of url_host host token cert_pool =
      if url_host == "github.com"
      then ok (github.new_client token)
      else wrap "could not create enterprise GitHub client: "
          (github.new_enterprise_client host token cert_pool)

  unfoldable pub new_git_hub : String → String → String → Option Pool → Result (GitHub C)
  unfolding parse_git_address owner_and_repo
  new_git_hub provider_uid addr token cert_pool = do
    fail_if (nat_eq (len token) 0) "github token cannot be empty"
    address ← parse_git_address tools.git.parse tools.http.quote addr
    base_url ← tools.http.url_parse address.0
    comp ← owner_and_repo tools.http.quote address.1
    client ← client_of base_url.host address.0 token cert_pool
    ok (record { owner = comp.0; repo = comp.1; provider_uid = provider_uid; client = client })

  unfoldable pub to_git_hub_state : String → Result String
  to_git_hub_state severity =
      if severity == tools.api.severity_info
      then ok "success"
      else (if severity == tools.api.severity_error
          then ok "failure"
          else err "can't convert to github state")

  -- The revision and the status of an event.
  unfoldable pub git_hub_status : GitHub C → Event → Result (String × NewStatus)
  unfolding parse_revision to_git_hub_state format_name_and_description generate_commit_status_id
  git_hub_status g event = do
    rev_string ← revision_of tools.api event
    rev ← parse_revision tools.git rev_string
    state ← to_git_hub_state event.severity
    ok (
      rev,
      record {
        state = state;
        context = generate_commit_status_id tools.unicode g.provider_uid event;
        description = (format_name_and_description tools.unicode event).1;
      },
    )

  -- The end of `Post`, from the list of the statuses.
  unfoldable pub post_git_hub_status : GitHub C → String → NewStatus → Action S (Unit {0})
  unfolding duplicate_github_status
  post_git_hub_status g rev status =
      post_unless
        (wrap_action "could not list commit statuses: "
          (github.list_statuses g.client g.owner g.repo rev 50))
        (λ statuses. duplicate_github_status statuses status)
        (wrap_action "could not create commit status: "
          (github.create_status g.client g.owner g.repo rev status))

  unfoldable pub post_git_hub : GitHub C → Event → Action S (Unit {0})
  unfolding git_hub_status post_git_hub_status
  post_git_hub g event =
      if tools.api.has_reason event tools.api.progressing_reason
      then lift (ok tt)
      else (lift (git_hub_status g event) >>> λ made. post_git_hub_status g made.0 made.1)

  unfoldable pub new_git_hub_dispatch : String → String → Option Pool → Result (GitHubDispatch C)
  unfolding parse_git_address owner_and_repo
  new_git_hub_dispatch addr token cert_pool = do
    fail_if (nat_eq (len token) 0) "github token cannot be empty"
    address ← parse_git_address tools.git.parse tools.http.quote addr
    base_url ← tools.http.url_parse address.0
    comp ← owner_and_repo tools.http.quote address.1
    client ← client_of base_url.host address.0 token cert_pool
    ok (record { owner = comp.0; repo = comp.1; client = client })

  unfoldable pub post_git_hub_dispatch : GitHubDispatch C → Event → Action S (Unit {0})
  post_git_hub_dispatch g event =
      if is_commit_status tools.api event
      then lift (ok tt)
      else (lift
            (wrap "failed to marshal object into json: " (tools.http.marshal (event_payload event)))
          >>> λ event_data. wrap_action "could not send github repository dispatch webhook: " (
              github.dispatch g.client g.owner g.repo
                (event.involved_object.kind
                  <> ("/"
                      <> (event.involved_object.name <> ("." <> event.involved_object.namespace))))
                event_data))
