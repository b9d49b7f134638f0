-- ===== src/Notifier/Gitea.antt =====
-- The commit statuses of internal/notifier/gitea.go. The client of the Gitea SDK is a parameter; the
-- lines that only log are left out.
pub mod Laws
use notification_controller.Prelude.{
  ℕ, String, ◌==◌, ◌||◌, ◌&&◌, Bool, false, List, [], ◌∷◌, Option, none, some, if◌then◌else◌,
  Result, ok, err, ◌>>=◌, ◌>>◌, wrap, nat_eq, len,
}
use notification_controller.Prelude.Actions.{Action, ◌>>>◌, lift, wrap_action}
use notification_controller.Api.Event.{Event}
use notification_controller.Notifier.Tools.{Tools}
use notification_controller.Notifier.Util.{
  parse_git_address, format_name_and_description, generate_commit_status_id,
}
use notification_controller.Notifier.Status.{
  parse_revision, revision_of, owner_and_repo, post_unless, fail_if,
}

-- gitea.StatusState
pub data StatusState : Type 0 where
  pending : StatusState
  success : StatusState
  error : StatusState
  failure : StatusState
  other : String → StatusState

-- The text of a state.
abbrev pub state_text : StatusState → String
state_text pending = "pending"
state_text success = "success"
state_text error = "error"
state_text failure = "failure"
state_text (other text) = text

-- gitea.Status and CreateStatusOption
pub record GiteaStatus : Type 0 where
  pub state : StatusState
  pub context : String
  pub description : String

pub record CreateStatusOption : Type 0 where
  pub state : StatusState
  pub target_url : String
  pub description : String
  pub context : String

pub record GiteaApi (S C Pool : Type 0) : Type 0 where
  -- gitea.NewClient, and the HTTP client of a pool
  pub new_client : String → String → Result C
  pub set_http_client : Pool → C → C
  pub getenv : String → String
  -- By the owner, the repository and the revision, a page and its size.
  pub list_statuses : C → String → String → String → ℕ → ℕ → Action S (List GiteaStatus)
  pub create_status : C → String → String → String → CreateStatusOption → Action S (Unit {0})

pub record Gitea (C : Type 0) : Type 0 where
  pub base_url : String
  pub token : String
  pub owner : String
  pub repo : String
  pub provider_uid : String
  pub client : C
  pub debug : Bool

unfoldable pub duplicate_gitea_status : List GiteaStatus → CreateStatusOption → Bool
duplicate_gitea_status [] status = false
duplicate_gitea_status (s ∷ statuses) status =
    let rest = duplicate_gitea_status statuses status in
    if s.context == "" || state_text s.state == "" || s.description == ""
    then rest
    else (if s.context == status.context
        then state_text s.state == state_text status.state && s.description == status.description
        else rest)

module _ {S C Pool : Type 0} (tools : Tools S Pool) (gitea : GiteaApi S C Pool) where
  -- The client with the HTTP client of a pool, if there is one.
  abbrev with_pool : Option Pool → C → C
  with_pool none client = client
  with_pool (some pool) client = gitea.set_http_client pool client

  unfoldable pub new_gitea : String → String → String → Option Pool → Result (Gitea C)
  unfolding parse_git_address owner_and_repo
  new_gitea provider_uid addr token cert_pool = do
    fail_if (nat_eq (len token) 0) "gitea token cannot be empty"
    address ←
        wrap "failed parsing Git URL: " (parse_git_address tools.git.parse tools.http.quote addr)
    wrap "failed parsing host: " (tools.http.url_parse address.0)
    comp ← owner_and_repo tools.http.quote address.1
    client ← wrap "failed creating Gitea client: " (gitea.new_client address.0 token)
    ok (record {
      base_url = address.0;
      token = token;
      owner = comp.0;
      repo = comp.1;
      provider_uid = provider_uid;
      client = with_pool cert_pool client;
      debug = gitea.getenv "NOTIFIER_GITEA_DEBUG" == "true";
    })

  unfoldable pub to_gitea_state : Event → Result StatusState
  to_gitea_state event =
      if tools.api.has_reason event tools.api.progressing_reason
      then ok pending
      else (if event.severity == tools.api.severity_info
          then ok success
          else (if event.severity == tools.api.severity_error
              then ok failure
              else err "can't convert to gitea state"))

  -- The revision and the status of an event.
  unfoldable pub gitea_status : Gitea C → Event → Result (String × CreateStatusOption)
  unfolding parse_revision to_gitea_state format_name_and_description generate_commit_status_id
  gitea_status g event = do
    rev_string ← revision_of tools.api event
    rev ← parse_revision tools.git rev_string
    state ← to_gitea_state event
    ok (
      rev,
      record {
        state = state;
        target_url = "";
        description = (format_name_and_description tools.unicode event).1;
        context = generate_commit_status_id tools.unicode g.provider_uid event;
      },
    )

  -- The end of `Post`, from the list of the statuses.
  unfoldable pub post_gitea_status : Gitea C → String → CreateStatusOption → Action S (Unit {0})
  unfolding duplicate_gitea_status
  post_gitea_status g rev status =
      post_unless
        (wrap_action "could not list commit statuses: "
          (gitea.list_statuses g.client g.owner g.repo rev 0 50))
        (λ statuses. duplicate_gitea_status statuses status)
        (gitea.create_status g.client g.owner g.repo rev status)

  unfoldable pub post_gitea : Gitea C → Event → Action S (Unit {0})
  unfolding gitea_status post_gitea_status
  post_gitea g event = lift (gitea_status g event) >>> λ made. post_gitea_status g made.0 made.1
