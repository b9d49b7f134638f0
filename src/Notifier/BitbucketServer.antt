-- ===== src/Notifier/BitbucketServer.antt =====
-- The build statuses of internal/notifier/bitbucketserver.go. URLs, JSON and the HTTP client with its
-- timeout and retries are parameters.
pub mod Address
use notification_controller.Prelude.{
  ℕ, String, ◌<>◌, ◌==◌, ◌&&◌, ◌||◌, not, Bool, true, false, List, [], ◌∷◌, ◌++◌, Option, none,
  some, if◌then◌else◌, Result, ok, err, ◌>>=◌, ◌>>◌, wrap, nat_eq, ltb, len, split, trim_suffix,
  cut_last_index,
}
use notification_controller.Prelude.Dict.{insert, lookup}
use notification_controller.Prelude.Actions.{Action, ◌>>>◌, lift, wrap_action}
use notification_controller.Api.Event.{Event}
use notification_controller.Notifier.Client.{Url, Header, PostResponse, set_header, add_header}
use notification_controller.Notifier.Tools.{Tools}
use notification_controller.Notifier.Util.{format_name_and_description, generate_commit_status_id}
use notification_controller.Notifier.Status.{
  parse_revision, revision_of, pair_or, post_unless, fail_if,
}

-- The fields of a build status that are read or set, and of the request to set one.
pub record BbServerBuildStatus : Type 0 where
  pub name : String
  pub key : String
  pub state : String
  pub description : String

pub record BbServerBuildStatusSetRequest : Type 0 where
  pub description : String
  pub key : String
  pub name : String
  pub state : String
  pub url : String

pub record ServerRequest (Pool : Type 0) : Type 0 where
  pub method : String
  pub address : String
  pub raw_query : String
  pub cert_pool : Option Pool
  pub headers : Header
  pub body : String

pub record ServerApi (S Pool : Type 0) : Type 0 where
  -- `u.JoinPath(path)`, and the encoding of a query of one key
  pub join_path : Url → String → Url
  pub encode_query : String → String → String
  -- retryablehttp.NewRequestWithContext with a method and an address, and the client's Do
  pub new_request : String → String → Result (Unit {0})
  pub do_request : ServerRequest Pool → Action S PostResponse
  pub status_text : ℕ → String
  pub encode : BbServerBuildStatusSetRequest → Result String
  pub unmarshal : String → Result BbServerBuildStatus

-- The client is known by its certificate pool.
pub record BitbucketServer (Pool : Type 0) : Type 0 where
  pub provider_uid : String
  pub url : Url
  pub provider_address : String
  pub username : String
  pub password : String
  pub token : String
  pub client : Option Pool

unfoldable pub is_error : PostResponse → Bool
is_error r = ltb 399 r.status_code

unfoldable pub create_build_path : String → String
create_build_path rev = rev <> "/builds"

-- The path of the commits, of the parts around the last "/scm/".
abbrev pub commits_path : String → String × String → String
commits_path context comp =
    context <> ("/rest/api/latest/projects/" <> (comp.0 <> ("/repos/" <> (comp.1 <> "/commits"))))

abbrev pub last_scm : Option (String × String) → Result (String × String)
last_scm none =
    err "could not parse git address: supplied provider address is not http(s) git clone url"
last_scm (some parts) = ok parts

-- The part of the parser after the address is parsed.
unfoldable pub commits_url : (String → String) → Url → Result Url
commits_url quote u = do
  fail_if (not (u.scheme == "http") && not (u.scheme == "https")) (
      "could not parse git address: unsupported scheme type in address: "
      <> (u.scheme <> ". Must be http or https"))
  parts ← last_scm (cut_last_index (trim_suffix u.path ".git") "/scm/")
  comp ←
      pair_or ("could not parse git address: invalid repository id " <> quote parts.1)
        (split 47 parts.1)
  ok (record u { path = commits_path parts.0 comp })

module _ {S Pool : Type 0} (tools : Tools S Pool) (server : ServerApi S Pool) where
  unfoldable pub parse_bitbucket_server_git_address : String → Result Url
  unfolding commits_url
  parse_bitbucket_server_git_address s =
      wrap "could not parse git address: " (tools.http.url_parse s) >>= commits_url tools.http.quote

  unfoldable pub new_bitbucket_server :
      String → String → String → Option Pool → String → String → Result (BitbucketServer Pool)
  unfolding parse_bitbucket_server_git_address
  new_bitbucket_server provider_uid addr token cert_pool username password = do
    url ← parse_bitbucket_server_git_address addr
    fail_if (nat_eq (len token) 0 && (nat_eq (len username) 0 || nat_eq (len password) 0))
        "invalid credentials, expected to be one of username/password or API Token"
    ok (record {
      provider_uid = provider_uid;
      url = url;
      provider_address = addr;
      username = username;
      password = password;
      token = token;
      client = cert_pool;
    })

  unfoldable pub bitbucket_server_state : String → Result String
  bitbucket_server_state severity =
      if severity == tools.api.severity_info
      then ok "SUCCESSFUL"
      else (if severity == tools.api.severity_error
          then ok "FAILED"
          else err "bitbucket server state generated on info or error events only")

  unfoldable pub prepare_common_request :
      BitbucketServer Pool → String → String → String → Result (ServerRequest Pool)
  prepare_common_request b path body method = do
    wrap "could not prepare request: " (server.new_request method path)
    let authorized =
        if b.token == ""
        then add_header tools.http "Authorization"
            ("Basic " <> tools.http.base64 (b.username <> (":" <> b.password))) []
        else set_header tools.http "Authorization" ("Bearer " <> b.token) []
    ok (record {
      method = method;
      address = path;
      raw_query = "";
      cert_pool = b.client;
      headers =
          add_header tools.http "x-requested-with" "XMLHttpRequest"
            (add_header tools.http "x-atlassian-token" "no-check" authorized);
      body = body;
    })

  -- The revision and the status of an event.
  unfoldable pub build_status : BitbucketServer Pool → Event → Result (String × BbServerBuildStatus)
  unfolding parse_revision bitbucket_server_state format_name_and_description
      generate_commit_status_id
  build_status b event = do
    rev_string ← revision_of tools.api event
    rev ← wrap "could not parse revision: " (parse_revision tools.git rev_string)
    state ←
        wrap "couldn't convert to bitbucket server state: " (bitbucket_server_state event.severity)
    let (name, desc) = format_name_and_description tools.unicode event
    ok (
      rev,
      record {
        name = name <> (" [" <> (desc <> "]"));
        key = tools.http.sha1_hex (generate_commit_status_id tools.unicode b.provider_uid event);
        state = state;
        description = desc;
      },
    )

  -- The test of the answer to the GET request.
  unfoldable pub is_duplicate_answer : BbServerBuildStatus → PostResponse → Result Bool
  unfolding is_error
  is_duplicate_answer status d = do
    fail_if (is_error d && not (nat_eq d.status_code 404)) (
        "failed api call to check duplicate commit status: "
        <> (tools.http.show_number d.status_code <> (" - " <> server.status_text d.status_code)))
    if nat_eq d.status_code 200
        then (do
          bd ← wrap "could not read response body for duplicate commit status: " d.body
          existing ←
              wrap "could not unmarshal json response body for duplicate commit status: "
                (server.unmarshal bd)
          ok (
              existing.key == status.key
              && existing.state == status.state
              && existing.description == status.description
              && existing.name == status.name))
        else ok false

  unfoldable pub duplicate_bitbucket_server_status :
      BitbucketServer Pool → BbServerBuildStatus → String → Action S Bool
  unfolding prepare_common_request is_duplicate_answer
  duplicate_bitbucket_server_status b status u =
      lift (wrap "could not check duplicate commit status: " (prepare_common_request b u "" "GET"))
      >>> λ req.
          wrap_action "failed api call to check duplicate commit status: "
            (server.do_request (record req { raw_query = server.encode_query "key" status.key }))
          >>> λ d. lift (is_duplicate_answer status d)

  unfoldable pub post_build_status :
      BitbucketServer Pool → BbServerBuildStatus → String → Action S (Unit {0})
  unfolding prepare_common_request is_error
  post_build_status b status url =
      lift (
        wrap
          "failed preparing request for post build commit status, could not encode request body to json: "
          (server.encode (record {
            description = status.description;
            key = status.key;
            name = status.name;
            state = status.state;
            url = b.provider_address;
          })))
      >>> λ p.
          lift (
            wrap "failed preparing request for post build commit status: "
              (prepare_common_request b url p "POST"))
          >>> λ req.
              wrap_action "could not post build commit status: " (
                server.do_request (record req {
                  headers = add_header tools.http "Content-Type" "application/json" req.headers;
                }))
              >>> λ resp. lift (
                  fail_if (is_error resp) (
                    "could not post build commit status: "
                    <> (tools.http.show_number resp.status_code
                        <> (" - " <> server.status_text resp.status_code))))

  -- The end of `Post`, from the address of the builds.
  unfoldable pub post_server_status :
      BitbucketServer Pool → String → BbServerBuildStatus → Action S (Unit {0})
  unfolding create_build_path duplicate_bitbucket_server_status post_build_status
  post_server_status b rev status =
      let u = tools.http.url_string (server.join_path b.url (create_build_path rev)) in
      post_unless
        (wrap_action "could not get existing commit status: "
          (duplicate_bitbucket_server_status b status u))
        (λ dupe. dupe) (wrap_action "could not post build status: " (post_build_status b status u))

  unfoldable pub post_bitbucket_server : BitbucketServer Pool → Event → Action S (Unit {0})
  unfolding build_status post_server_status
  post_bitbucket_server b event =
      if tools.api.has_reason event tools.api.progressing_reason
      then lift (ok tt)
      else (lift (build_status b event) >>> λ made. post_server_status b made.0 made.1)
