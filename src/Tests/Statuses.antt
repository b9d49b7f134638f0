-- ===== src/Tests/Statuses.antt =====
-- Tests of the notifiers of commit statuses: a host whose state is the list of its statuses.
use notification_controller.Prelude.{
  map_chars, join, split, String, false, ◌<>◌, ◌≡◌, refl, sym, ap, inl, inr, List, [], ◌∷◌, some,
  ok, err, ne_of_test, arith,
}
use notification_controller.Prelude.Dict.{lookup}
use notification_controller.Api.Event.{Event}
use notification_controller.Tests.{event_of, tools_of}
use notification_controller.Notifier.Client.{Url}
use notification_controller.Notifier.Tools.{Tools}
use notification_controller.Notifier.Github.{
  RepoStatus, NewStatus, GithubApi, GitHub, git_hub_status, post_git_hub,
}
use notification_controller.Notifier.Github.Laws.{
  listed, IsOrdered, IsLatest, post_git_hub_again, post_git_hub-IsLatest,
}
use notification_controller.Notifier.Github.Answers.{post_git_hub_arrives}
use notification_controller.Notifier.AzureDevops.{
  GitStatus, NewGitStatus, AzureApi, AzureDevOps, azure_dev_ops_status, post_azure_dev_ops,
}
use notification_controller.Notifier.AzureDevops.Laws.{post_azure_dev_ops-IsLatest}
use notification_controller.Notifier.AzureDevops.Laws as Azure
use notification_controller.Notifier.Gitea.{
  GiteaStatus, CreateStatusOption, GiteaApi, Gitea, success, post_gitea,
}
use notification_controller.Notifier.Gitea.Laws.{post_gitea-IsLatest}
use notification_controller.Notifier.Gitea.Laws as Gitea
use notification_controller.Notifier.BitbucketServer.{commits_url}
use notification_controller.Notifier.BitbucketServer.Address.{
  commits_url-clone_path, commits_url-scm,
}

abbrev tools : Tools (List RepoStatus) String
tools = tools_of (λ s. s)

abbrev github : GithubApi (List RepoStatus) String String
github = record {
  new_client = λ token. token;
  new_enterprise_client = λ host token pool. ok token;
  list_statuses = λ client owner repo rev size s. (s, ok s);
  create_status = λ client owner repo rev status s. (listed status ∷ s, ok tt);
  dispatch = λ client owner repo type payload s. (s, ok tt);
}

abbrev git_hub : GitHub String
git_hub = record { owner = "apps"; repo = "web"; provider_uid = "0-1"; client = "token" }

abbrev pushed : Event
pushed = event_of "stored" (("source.toolkit.fluxcd.io/revision", "abc") ∷ ("revision", "abc") ∷ [])

abbrev after : List RepoStatus
unfolding post_git_hub
after = (post_git_hub tools github git_hub pushed []).0

abbrev ordered : IsOrdered tools github git_hub
ordered = (λ rev s. refl, λ rev status s t created. (t, s, refl, sym (ap (λ e. e.0) created)))

post_git_hub_again_example : post_git_hub tools github git_hub pushed after ≡ (after, ok tt)
unfolding post_git_hub lookup
post_git_hub_again_example = post_git_hub_again tools github git_hub pushed [] after ordered refl

post_git_hub-IsLatest_example :
    (made : String × NewStatus) × (git_hub_status tools github git_hub pushed ≡ ok made)
    × IsLatest tools github git_hub made.0 made.1 after
unfolding post_git_hub lookup
post_git_hub-IsLatest_example =
    post_git_hub-IsLatest tools github git_hub pushed [] after ordered refl refl

post_git_hub_arrives_example :
    (last : List RepoStatus) × (status : NewStatus) × (post_git_hub tools github git_hub pushed []
      ≡ (last, ok tt))
    × (git_hub_status tools github git_hub pushed ≡ ok ("abc", status))
    × IsLatest tools github git_hub "abc" status last
unfolding lookup
post_git_hub_arrives_example =
    post_git_hub_arrives tools github git_hub pushed "abc" "abc" []
      (λ rev s. (s, refl), λ rev status s. (listed status ∷ s, refl)) ordered refl refl refl
      (inl refl)

abbrev azure_tools : Tools (List GitStatus) String
azure_tools = tools_of (λ s. s)

abbrev azure : AzureApi (List GitStatus) String String
azure = record {
  new_client = λ url token pool. token;
  succeeded = "succeeded";
  error = "error";
  get_statuses = λ client project repo commit s. (s, ok (some s));
  create_commit_status = λ client project repo commit n s. (Azure.listed n ∷ s, ok tt);
}

abbrev azure_dev_ops : AzureDevOps String
azure_dev_ops = record { project = "apps"; repo = "web"; provider_uid = "0-1"; client = "token" }

abbrev last_listed : List GitStatus
unfolding post_azure_dev_ops
last_listed = (post_azure_dev_ops azure_tools azure azure_dev_ops pushed []).0

post_azure_dev_ops-IsLatest_example :
    (made : String × NewGitStatus) × (azure_dev_ops_status azure_tools azure azure_dev_ops pushed
      ≡ ok made)
    × Azure.IsLatest azure_tools azure azure_dev_ops made.0 made.1 last_listed
unfolding post_azure_dev_ops lookup
post_azure_dev_ops-IsLatest_example =
    post_azure_dev_ops-IsLatest azure_tools azure azure_dev_ops pushed [] last_listed
      (λ rev s. refl, λ rev n s t created. (some t, s, refl, sym (ap (λ e. e.0) created))) refl refl

abbrev gitea_tools : Tools (List GiteaStatus) String
gitea_tools = tools_of (λ s. s)

abbrev gitea : GiteaApi (List GiteaStatus) String String
gitea = record {
  new_client = λ url token. ok token;
  set_http_client = λ pool client. client;
  getenv = λ name. "";
  list_statuses = λ client owner repo rev page size s. (s, ok s);
  create_status = λ client owner repo rev status s. (Gitea.listed status ∷ s, ok tt);
}

abbrev gitea_repo : Gitea String
gitea_repo = record {
  base_url = "https://gitea.example.com";
  token = "token";
  owner = "apps";
  repo = "web";
  provider_uid = "0-1";
  client = "token";
  debug = false;
}

abbrev gitea_made : CreateStatusOption
gitea_made = record {
  state = success;
  target_url = "";
  description = "Succeeded";
  context = "GitRepository/web/0";
}

post_gitea-IsLatest_example :
    Gitea.IsLatest gitea_tools gitea gitea_repo "abc" gitea_made (Gitea.listed gitea_made ∷ [])
unfolding post_gitea lookup map_chars join split
post_gitea-IsLatest_example =
    post_gitea-IsLatest gitea_tools gitea gitea_repo pushed "abc" gitea_made []
      (Gitea.listed gitea_made ∷ [])
      (λ rev s. refl, λ rev status s t created. (t, s, refl, sym (ap (λ e. e.0) created))) refl
      (ne_of_test "GitRepository/web/0" "" refl) (ne_of_test "Succeeded" "" refl) refl

abbrev address_of : String → Url
address_of project = record {
  scheme = "https";
  host = "git.example.com";
  path = "/bitbucket/scm/" <> (project <> "/web.git");
  others = "";
}

commits_url-clone_path_example :
    commits_url (λ t. t) (address_of "apps")
    ≡ ok (record {
      scheme = "https";
      host = "git.example.com";
      path = "/bitbucket/rest/api/latest/projects/apps/repos/web/commits";
      others = "";
    })
commits_url-clone_path_example =
    commits_url-clone_path (λ t. t) (address_of "apps") "/bitbucket" "web" (inr refl) (ground arith)
      "apps" (ground arith) (ne_of_test "apps" "scm" refl) refl

commits_url-scm_example :
    commits_url (λ t. t) (address_of "scm")
    ≡ err "could not parse git address: invalid repository id web"
commits_url-scm_example =
    commits_url-scm (λ t. t) (address_of "scm") "/bitbucket" "web" (inr refl) (ground arith) refl
