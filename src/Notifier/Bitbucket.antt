-- ===== src/Notifier/Bitbucket.antt =====
-- The commit statuses of internal/notifier/bitbucket.go. The client of package go-bitbucket and JSON
-- are parameters; `J` is the type of the values that the client answers.
use notification_controller.Prelude.{
  String, ◌<>◌, ◌==◌, ◌&&◌, Bool, false, Option, none, some, if◌then◌else◌, Result, ok, err, ◌>>=◌,
  ◌>>◌, nat_eq, len, split, has_part,
}
use notification_controller.Prelude.Actions.{Action, ◌>>>◌, lift}
use notification_controller.Api.Event.{Event}
use notification_controller.Notifier.Tools.{Tools}
use notification_controller.Notifier.Util.{
  parse_git_address, format_name_and_description, generate_commit_status_id,
}
use notification_controller.Notifier.Status.{
  parse_revision, revision_of, pair_or, owner_and_repo, post_unless, fail_if,
}

-- bitbucket.CommitsOptions and CommitStatusOptions
pub record CommitsOptions : Type 0 where
  pub owner : String
  pub repo_slug : String
  pub revision : String

pub record CommitStatusOptions : Type 0 where
  pub state : String
  pub key : String
  pub name : String
  pub description : String
  pub url : String

-- An error of the client, with its status if it is an UnexpectedResponseStatusError.
pub record BitbucketError : Type 0 where
  pub text : String
  pub status : Option String

pub record BitbucketApi (S C J Pool : Type 0) : Type 0 where
  -- bitbucket.NewBasicAuth, and the HTTP client of a pool
  pub new_basic_auth : String → String → C
  pub set_http_client : Pool → C → C
  -- The answer, of which a nil is `none`, and the error.
  pub get_commit_status : C → CommitsOptions → String → S → S × (Option J × Option BitbucketError)
  pub create_commit_status : C → CommitsOptions → CommitStatusOptions → Action S (Unit {0})
  -- json.Marshal of an answer, and json.Unmarshal into a CommitStatusOptions
  pub marshal : Option J → Result String
  pub unmarshal : String → Result CommitStatusOptions

pub record Bitbucket (C : Type 0) : Type 0 where
  pub owner : String
  pub repo : String
  pub provider_uid : String
  pub client : C

module _ {S C J Pool : Type 0} (tools : Tools S Pool) (bitbucket : BitbucketApi S C J Pool) where
  abbrev with_pool : Option Pool → C → C
  with_pool none client = client
  with_pool (some pool) client = bitbucket.set_http_client pool client

  unfoldable pub new_bitbucket : String → String → String → Option Pool → Result (Bitbucket C)
  unfolding parse_git_address owner_and_repo
  new_bitbucket provider_uid addr token cert_pool = do
    fail_if (nat_eq (len token) 0) "bitbucket token cannot be empty"
    address ← parse_git_address tools.git.parse tools.http.quote addr
    user ← pair_or "invalid token format, expected to be <user>:<password>" (split 58 token)
    comp ← owner_and_repo tools.http.quote address.1
    ok (record {
      owner = comp.0;
      repo = comp.1;
      provider_uid = provider_uid;
      client = with_pool cert_pool (bitbucket.new_basic_auth user.0 user.1);
    })

  unfoldable pub to_bitbucket_state : String → Result String
  to_bitbucket_state severity =
      if severity == tools.api.severity_info
      then ok "SUCCESSFUL"
      else (if severity == tools.api.severity_error
          then ok "FAILED"
          else err "can't convert to bitbucket state")

  -- The commit and the status of an event.
  unfoldable pub bitbucket_status :
      Bitbucket C → Event → Result (CommitsOptions × CommitStatusOptions)
  unfolding parse_revision to_bitbucket_state format_name_and_description generate_commit_status_id
  bitbucket_status b event = do
    rev_string ← revision_of tools.api event
    rev ← parse_revision tools.git rev_string
    state ← to_bitbucket_state event.severity
    ok (
      record { owner = b.owner; repo_slug = b.repo; revision = rev },
      record {
        state = state;
        key = tools.http.sha1_hex (generate_commit_status_id tools.unicode b.provider_uid event);
        name = (format_name_and_description tools.unicode event).0;
        description = (format_name_and_description tools.unicode event).1;
        url = "https://bitbucket.org";
      },
    )

  unfoldable pub duplicate_bitbucket_status : Option J → CommitStatusOptions → Result Bool
  duplicate_bitbucket_status statuses status = do
    b ← bitbucket.marshal statuses
    commit_status ← bitbucket.unmarshal b
    ok (commit_status.state == status.state && commit_status.description == status.description)

  -- `errors.As(err, &statusErr) && strings.Contains(statusErr.Status, "Not Found")`
  abbrev is_not_found : Option String → Bool
  is_not_found none = false
  is_not_found (some status) = has_part status "Not Found"

  -- The test of the error of GetCommitStatus.
  abbrev found_or_new : Option BitbucketError → Result (Unit {0})
  found_or_new none = ok tt
  found_or_new (some e) =
      if is_not_found e.status then ok tt else err ("could not get commit status: " <> e.text)

  -- This test, and the one for a duplicate.
  unfoldable pub existing_is_duplicate :
      CommitStatusOptions → Option J × Option BitbucketError → Result Bool
  unfolding has_part duplicate_bitbucket_status
  existing_is_duplicate cso answer =
      found_or_new answer.1 >>= λ _. duplicate_bitbucket_status answer.0 cso

  -- The end of `Post`, from GetCommitStatus.
  unfoldable pub post_bitbucket_status :
      Bitbucket C → CommitsOptions → CommitStatusOptions → Action S (Unit {0})
  unfolding existing_is_duplicate
  post_bitbucket_status b cmo cso =
      post_unless
        (λ s.
          let (t, answer) = bitbucket.get_commit_status b.client cmo cso.key s in
          (t, existing_is_duplicate cso answer))
        (λ dupe. dupe) (bitbucket.create_commit_status b.client cmo cso)

  unfoldable pub post_bitbucket : Bitbucket C → Event → Action S (Unit {0})
  unfolding bitbucket_status post_bitbucket_status
  post_bitbucket b event =
      if tools.api.has_reason event tools.api.progressing_reason
      then lift (ok tt)
      else (lift (bitbucket_status b event) >>> λ made. post_bitbucket_status b made.0 made.1)
