-- ===== src/Notifier/Sender.antt =====
-- The notifiers together: the values of the interface of internal/notifier/notifier.go, one case for
-- each type that implements it, its method `Post`, and the constructors of the factory. The types of
-- the clients are parameters.
use notification_controller.Prelude.{String, Result, ok, err}
use notification_controller.Prelude.Actions.{Action, lift}
use notification_controller.Api.Event.{Event}
use notification_controller.Notifier.Tools.{Tools}
use notification_controller.Notifier.Forwarder
use notification_controller.Notifier.Forwarder.{Forwarder}
use notification_controller.Notifier.Chat.Slack.{
  Slack, Discord, Rocket, new_slack, new_discord, new_rocket, post_slack, post_discord, post_rocket,
}
use notification_controller.Notifier.Chat.Messages.{
  Webex, Matrix, Lark, Telegram, new_webex, new_matrix, new_lark, new_telegram, post_webex,
  post_matrix, post_lark, post_telegram,
}
use notification_controller.Notifier.Chat.Cards.{
  GoogleChat, MsTeams, new_google_chat, new_ms_teams, post_google_chat, post_ms_teams,
}
use notification_controller.Notifier.Incident.{
  Alertmanager, Opsgenie, PagerDuty, Grafana, new_alertmanager, new_opsgenie, new_pager_duty,
  new_grafana, post_alertmanager, post_opsgenie, post_pager_duty, post_grafana,
}
use notification_controller.Notifier.Stream.{
  Nats, GooglePubSub, Streams, new_nats, new_google_pub_sub, new_azure_event_hub, post_nats,
  post_google_pub_sub, post_azure_event_hub,
}
use notification_controller.Notifier.Telemetry.{
  Telemetry, DataDog, new_sentry, new_data_dog, post_sentry, post_data_dog,
}
use notification_controller.Notifier.Github.{
  GithubApi, GitHub, GitHubDispatch, new_git_hub, new_git_hub_dispatch, post_git_hub,
  post_git_hub_dispatch,
}
use notification_controller.Notifier.Gitlab.{GitlabApi, GitLab, new_git_lab, post_git_lab}
use notification_controller.Notifier.Gitea.{GiteaApi, Gitea, new_gitea, post_gitea}
use notification_controller.Notifier.Bitbucket.{
  BitbucketApi, Bitbucket, new_bitbucket, post_bitbucket,
}
use notification_controller.Notifier.BitbucketServer.{
  ServerApi, BitbucketServer, new_bitbucket_server, post_bitbucket_server,
}
use notification_controller.Notifier.AzureDevops.{
  AzureApi, AzureDevOps, new_azure_dev_ops, post_azure_dev_ops,
}
use notification_controller.Notifier.Factory.{Constructors, Notifier, nop, made}

-- The libraries and the clients of all services.
pub record Platform (S Pool C L T B J A Hub Client EventsApi : Type 0) : Type 0 where
  pub tools : Tools S Pool
  pub streams : Streams S Hub
  pub telemetry : Telemetry S Client EventsApi Pool
  -- shoutrrr.Send of an address and a message
  pub shoutrrr_send : String → String → Action S (Unit {0})
  pub github : GithubApi S C Pool
  pub gitlab : GitlabApi S L Pool
  pub gitea_api : GiteaApi S T Pool
  pub bitbucket_api : BitbucketApi S B J Pool
  pub server : ServerApi S Pool
  pub azure : AzureApi S A Pool

pub data Sender (Pool C L T B A Hub Client EventsApi : Type 0) : Type 0 where
  forwarder : Forwarder Pool → Sender Pool C L T B A Hub Client EventsApi
  slack : Slack Pool → Sender Pool C L T B A Hub Client EventsApi
  discord : Discord → Sender Pool C L T B A Hub Client EventsApi
  rocket : Rocket Pool → Sender Pool C L T B A Hub Client EventsApi
  ms_teams : MsTeams Pool → Sender Pool C L T B A Hub Client EventsApi
  google_chat : GoogleChat → Sender Pool C L T B A Hub Client EventsApi
  google_pub_sub : GooglePubSub → Sender Pool C L T B A Hub Client EventsApi
  webex : Webex Pool → Sender Pool C L T B A Hub Client EventsApi
  sentry : Client → Sender Pool C L T B A Hub Client EventsApi
  azure_event_hub : Hub → Sender Pool C L T B A Hub Client EventsApi
  telegram : Telegram → Sender Pool C L T B A Hub Client EventsApi
  lark : Lark → Sender Pool C L T B A Hub Client EventsApi
  matrix : Matrix Pool → Sender Pool C L T B A Hub Client EventsApi
  opsgenie : Opsgenie Pool → Sender Pool C L T B A Hub Client EventsApi
  alertmanager : Alertmanager Pool → Sender Pool C L T B A Hub Client EventsApi
  grafana : Grafana Pool → Sender Pool C L T B A Hub Client EventsApi
  pager_duty : PagerDuty Pool → Sender Pool C L T B A Hub Client EventsApi
  data_dog : DataDog EventsApi → Sender Pool C L T B A Hub Client EventsApi
  nats : Nats → Sender Pool C L T B A Hub Client EventsApi
  git_hub : GitHub C → Sender Pool C L T B A Hub Client EventsApi
  git_hub_dispatch : GitHubDispatch C → Sender Pool C L T B A Hub Client EventsApi
  git_lab : GitLab L → Sender Pool C L T B A Hub Client EventsApi
  gitea : Gitea T → Sender Pool C L T B A Hub Client EventsApi
  bitbucket_server : BitbucketServer Pool → Sender Pool C L T B A Hub Client EventsApi
  bitbucket : Bitbucket B → Sender Pool C L T B A Hub Client EventsApi
  azure_dev_ops : AzureDevOps A → Sender Pool C L T B A Hub Client EventsApi

-- A result of a constructor as one of the interface.
abbrev pub as_sender : {N M : Type 0} → (N → M) → Result N → Result M
as_sender make (err text) = err text
as_sender make (ok n) = ok (make n)

module _ {S Pool C L T B J A Hub Client EventsApi : Type 0}
    (p : Platform S Pool C L T B J A Hub Client EventsApi) where
  -- The method `Post` of each type.
  unfoldable pub post_sender :
      Sender Pool C L T B A Hub Client EventsApi → Event → Action S (Unit {0})
  unfolding Forwarder.post post_slack post_discord post_rocket post_ms_teams post_google_chat
      post_google_pub_sub post_webex post_sentry post_azure_event_hub post_telegram post_lark
      post_matrix post_opsgenie post_alertmanager post_grafana post_pager_duty post_data_dog
      post_nats post_git_hub post_git_hub_dispatch post_git_lab post_gitea post_bitbucket_server
      post_bitbucket post_azure_dev_ops
  post_sender (forwarder n) event = Forwarder.post p.tools.http n event
  post_sender (slack n) event = post_slack p.tools n event
  post_sender (discord n) event = post_discord p.tools n event
  post_sender (rocket n) event = post_rocket p.tools n event
  post_sender (ms_teams n) event = post_ms_teams p.tools n event
  post_sender (google_chat n) event = post_google_chat p.tools n event
  post_sender (google_pub_sub n) event = post_google_pub_sub p.tools p.streams n event
  post_sender (webex n) event = post_webex p.tools n event
  post_sender (sentry n) event = post_sentry p.tools p.telemetry n event
  post_sender (azure_event_hub n) event = post_azure_event_hub p.tools p.streams n event
  post_sender (telegram n) event = post_telegram p.tools p.shoutrrr_send n event
  post_sender (lark n) event = post_lark p.tools n event
  post_sender (matrix n) event = post_matrix p.tools n event
  post_sender (opsgenie n) event = post_opsgenie p.tools n event
  post_sender (alertmanager n) event = post_alertmanager p.tools n event
  post_sender (grafana n) event = post_grafana p.tools n event
  post_sender (pager_duty n) event = post_pager_duty p.tools n event
  post_sender (data_dog n) event = post_data_dog p.tools p.telemetry n event
  post_sender (nats n) event = post_nats p.tools p.streams n event
  post_sender (git_hub n) event = post_git_hub p.tools p.github n event
  post_sender (git_hub_dispatch n) event = post_git_hub_dispatch p.tools p.github n event
  post_sender (git_lab n) event = post_git_lab p.tools p.gitlab n event
  post_sender (gitea n) event = post_gitea p.tools p.gitea_api n event
  post_sender (bitbucket_server n) event = post_bitbucket_server p.tools p.server n event
  post_sender (bitbucket n) event = post_bitbucket p.tools p.bitbucket_api n event
  post_sender (azure_dev_ops n) event = post_azure_dev_ops p.tools p.azure n event

  -- `Post` of an interface; NopNotifier does nothing.
  unfoldable pub post_notifier :
      Notifier (Sender Pool C L T B A Hub Client EventsApi) → Event → Action S (Unit {0})
  unfolding post_sender
  post_notifier nop event = lift (ok tt)
  post_notifier (made n) event = post_sender n event

  -- The functions `New...` of the package.
  unfoldable pub constructors : Constructors (Sender Pool C L T B A Hub Client EventsApi) Pool
  unfolding Forwarder.new_forwarder new_slack new_discord new_rocket new_ms_teams new_google_chat
      new_google_pub_sub new_webex new_sentry new_azure_event_hub new_telegram new_lark new_matrix
      new_opsgenie new_alertmanager new_grafana new_pager_duty new_data_dog new_nats new_git_hub
      new_git_hub_dispatch new_git_lab new_gitea new_bitbucket_server new_bitbucket
      new_azure_dev_ops
  constructors = record {
    new_forwarder = λ url proxy headers pool key.
        as_sender forwarder (Forwarder.new_forwarder p.tools.http url proxy headers pool key);
    new_slack = λ url proxy token pool username channel.
        as_sender slack (new_slack p.tools url proxy token pool username channel);
    new_discord = λ url proxy username channel.
        as_sender discord (new_discord p.tools url proxy username channel);
    new_rocket = λ url proxy pool username channel.
        as_sender rocket (new_rocket p.tools url proxy pool username channel);
    new_ms_teams = λ url proxy pool. as_sender ms_teams (new_ms_teams p.tools url proxy pool);
    new_google_chat = λ url proxy. as_sender google_chat (new_google_chat p.tools url proxy);
    new_google_pub_sub = λ project topic creds attrs.
        as_sender google_pub_sub (new_google_pub_sub p.tools p.streams project topic creds attrs);
    new_webex = λ url proxy pool channel token.
        as_sender webex (new_webex p.tools url proxy pool channel token);
    new_sentry = λ pool dsn environment.
        as_sender sentry (new_sentry p.tools p.telemetry pool dsn environment);
    new_azure_event_hub = λ url token namespace.
        as_sender azure_event_hub (new_azure_event_hub p.tools p.streams url token namespace);
    new_telegram = λ channel token. as_sender telegram (new_telegram p.tools channel token);
    new_lark = λ url. as_sender lark (new_lark p.tools url);
    new_matrix = λ url token room pool. as_sender matrix (new_matrix p.tools url token room pool);
    new_opsgenie =
        λ url proxy pool token. as_sender opsgenie (new_opsgenie p.tools url proxy pool token);
    new_alertmanager =
        λ url proxy pool. as_sender alertmanager (new_alertmanager p.tools url proxy pool);
    new_grafana = λ url proxy token pool username password.
        as_sender grafana (new_grafana p.tools url proxy token pool username password);
    new_pager_duty =
        λ url proxy pool key. as_sender pager_duty (new_pager_duty p.tools url proxy pool key);
    new_data_dog = λ url proxy pool token.
        as_sender data_dog (new_data_dog p.tools p.telemetry url proxy pool token);
    new_nats = λ server subject username password.
        as_sender nats (new_nats p.tools p.streams server subject username password);
    new_git_hub =
        λ uid url token pool. as_sender git_hub (new_git_hub p.tools p.github uid url token pool);
    new_git_hub_dispatch = λ url token pool.
        as_sender git_hub_dispatch (new_git_hub_dispatch p.tools p.github url token pool);
    new_git_lab =
        λ uid url token pool. as_sender git_lab (new_git_lab p.tools p.gitlab uid url token pool);
    new_gitea =
        λ uid url token pool. as_sender gitea (new_gitea p.tools p.gitea_api uid url token pool);
    new_bitbucket_server = λ uid url token pool username password.
        as_sender bitbucket_server
          (new_bitbucket_server p.tools p.server uid url token pool username password);
    new_bitbucket = λ uid url token pool.
        as_sender bitbucket (new_bitbucket p.tools p.bitbucket_api uid url token pool);
    new_azure_dev_ops = λ uid url token pool.
        as_sender azure_dev_ops (new_azure_dev_ops p.tools p.azure uid url token pool);
  }
