-- ===== src/Notifier/Factory.antt =====
-- internal/notifier/factory.go: which constructor makes the notifier of a provider, and with which
-- of its options. The constructors are the interface `Constructors`, over a type of notifiers and a
-- type of certificate pools (`nil` is `none`).
pub mod Laws
use notification_controller.Prelude.{
  String, ◌<>◌, ◌==◌, not, ◌&&◌, [], ◌∷◌, Option, none, some, if◌then◌else◌, Result, ok, err,
}
use notification_controller.Prelude.Dict.{Dict, lookup}

pub record NotifierOptions (Pool : Type 0) : Type 0 where
  pub url : String
  pub proxy_url : String
  pub username : String
  pub channel : String
  pub token : String
  pub headers : Dict String
  pub cert_pool : Option Pool
  pub password : String
  pub provider_uid : String

-- The functions `New...` of the package, with their arguments in the order of the source.
pub record Constructors (N Pool : Type 0) : Type 0 where
  pub new_forwarder : String → String → Dict String → Option Pool → Option String → Result N
  pub new_slack : String → String → String → Option Pool → String → String → Result N
  pub new_discord : String → String → String → String → Result N
  pub new_rocket : String → String → Option Pool → String → String → Result N
  pub new_ms_teams : String → String → Option Pool → Result N
  pub new_google_chat : String → String → Result N
  pub new_google_pub_sub : String → String → String → Dict String → Result N
  pub new_webex : String → String → Option Pool → String → String → Result N
  pub new_sentry : Option Pool → String → String → Result N
  pub new_azure_event_hub : String → String → String → Result N
  pub new_telegram : String → String → Result N
  pub new_lark : String → Result N
  pub new_matrix : String → String → String → Option Pool → Result N
  pub new_opsgenie : String → String → Option Pool → String → Result N
  pub new_alertmanager : String → String → Option Pool → Result N
  pub new_grafana : String → String → String → Option Pool → String → String → Result N
  pub new_pager_duty : String → String → Option Pool → String → Result N
  pub new_data_dog : String → String → Option Pool → String → Result N
  pub new_nats : String → String → String → String → Result N
  pub new_git_hub : String → String → String → Option Pool → Result N
  pub new_git_hub_dispatch : String → String → Option Pool → Result N
  pub new_git_lab : String → String → String → Option Pool → Result N
  pub new_gitea : String → String → String → Option Pool → Result N
  pub new_bitbucket_server : String → String → String → Option Pool → String → String → Result N
  pub new_bitbucket : String → String → String → Option Pool → Result N
  pub new_azure_dev_ops : String → String → String → Option Pool → Result N

-- An `Interface` value of the package: the one that does nothing, or what a constructor made.
pub data Notifier (N : Type 0) : Type 0 where
  nop : Notifier N
  made : N → Notifier N

-- `if opts.Token == "" && opts.Password != "" { opts.Token = opts.Password }`
unfoldable pub token_or_password : {Pool : Type 0} → NotifierOptions Pool → NotifierOptions Pool
token_or_password opts =
    if opts.token == "" && not (opts.password == "")
    then record opts { token = opts.password }
    else opts

module _ {N Pool : Type 0} (new : Constructors N Pool) where
  unfoldable pub generic_notifier_func : NotifierOptions Pool → Result N
  generic_notifier_func o = new.new_forwarder o.url o.proxy_url o.headers o.cert_pool none

  unfoldable pub generic_hmac_notifier_func : NotifierOptions Pool → Result N
  generic_hmac_notifier_func o =
      new.new_forwarder o.url o.proxy_url o.headers o.cert_pool (some o.token)

  unfoldable pub slack_notifier_func : NotifierOptions Pool → Result N
  slack_notifier_func o = new.new_slack o.url o.proxy_url o.token o.cert_pool o.username o.channel

  unfoldable pub discord_notifier_func : NotifierOptions Pool → Result N
  discord_notifier_func o = new.new_discord o.url o.proxy_url o.username o.channel

  unfoldable pub rocket_notifier_func : NotifierOptions Pool → Result N
  rocket_notifier_func o = new.new_rocket o.url o.proxy_url o.cert_pool o.username o.channel

  unfoldable pub msteams_notifier_func : NotifierOptions Pool → Result N
  msteams_notifier_func o = new.new_ms_teams o.url o.proxy_url o.cert_pool

  unfoldable pub google_chat_notifier_func : NotifierOptions Pool → Result N
  google_chat_notifier_func o = new.new_google_chat o.url o.proxy_url

  unfoldable pub google_pub_sub_notifier_func : NotifierOptions Pool → Result N
  google_pub_sub_notifier_func o = new.new_google_pub_sub o.url o.channel o.token o.headers

  unfoldable pub webex_notifier_func : NotifierOptions Pool → Result N
  webex_notifier_func o = new.new_webex o.url o.proxy_url o.cert_pool o.channel o.token

  unfoldable pub sentry_notifier_func : NotifierOptions Pool → Result N
  sentry_notifier_func o = new.new_sentry o.cert_pool o.url o.channel

  unfoldable pub azure_event_hub_notifier_func : NotifierOptions Pool → Result N
  azure_event_hub_notifier_func o = new.new_azure_event_hub o.url o.token o.channel

  unfoldable pub telegram_notifier_func : NotifierOptions Pool → Result N
  telegram_notifier_func o = new.new_telegram o.channel o.token

  unfoldable pub lark_notifier_func : NotifierOptions Pool → Result N
  lark_notifier_func o = new.new_lark o.url

  unfoldable pub matrix_notifier_func : NotifierOptions Pool → Result N
  matrix_notifier_func o = new.new_matrix o.url o.token o.channel o.cert_pool

  unfoldable pub opsgenie_notifier_func : NotifierOptions Pool → Result N
  opsgenie_notifier_func o = new.new_opsgenie o.url o.proxy_url o.cert_pool o.token

  unfoldable pub alertmanager_notifier_func : NotifierOptions Pool → Result N
  alertmanager_notifier_func o = new.new_alertmanager o.url o.proxy_url o.cert_pool

  unfoldable pub grafana_notifier_func : NotifierOptions Pool → Result N
  grafana_notifier_func o =
      new.new_grafana o.url o.proxy_url o.token o.cert_pool o.username o.password

  unfoldable pub pager_duty_notifier_func : NotifierOptions Pool → Result N
  pager_duty_notifier_func o = new.new_pager_duty o.url o.proxy_url o.cert_pool o.channel

  unfoldable pub data_dog_notifier_func : NotifierOptions Pool → Result N
  data_dog_notifier_func o = new.new_data_dog o.url o.proxy_url o.cert_pool o.token

  unfoldable pub nats_notifier_func : NotifierOptions Pool → Result N
  nats_notifier_func o = new.new_nats o.url o.channel o.username o.password

  unfoldable pub git_hub_notifier_func : NotifierOptions Pool → Result N
  unfolding token_or_password
  git_hub_notifier_func opts =
      let o = token_or_password opts in new.new_git_hub o.provider_uid o.url o.token o.cert_pool

  unfoldable pub git_hub_dispatch_notifier_func : NotifierOptions Pool → Result N
  unfolding token_or_password
  git_hub_dispatch_notifier_func opts =
      let o = token_or_password opts in new.new_git_hub_dispatch o.url o.token o.cert_pool

  unfoldable pub git_lab_notifier_func : NotifierOptions Pool → Result N
  unfolding token_or_password
  git_lab_notifier_func opts =
      let o = token_or_password opts in new.new_git_lab o.provider_uid o.url o.token o.cert_pool

  unfoldable pub gitea_notifier_func : NotifierOptions Pool → Result N
  unfolding token_or_password
  gitea_notifier_func opts =
      let o = token_or_password opts in new.new_gitea o.provider_uid o.url o.token o.cert_pool

  unfoldable pub bitbucket_server_notifier_func : NotifierOptions Pool → Result N
  bitbucket_server_notifier_func o =
      new.new_bitbucket_server o.provider_uid o.url o.token o.cert_pool o.username o.password

  unfoldable pub bitbucket_notifier_func : NotifierOptions Pool → Result N
  bitbucket_notifier_func o = new.new_bitbucket o.provider_uid o.url o.token o.cert_pool

  unfoldable pub azure_dev_ops_notifier_func : NotifierOptions Pool → Result N
  azure_dev_ops_notifier_func o = new.new_azure_dev_ops o.provider_uid o.url o.token o.cert_pool

  unfoldable pub notifiers : Dict (NotifierOptions Pool → Result N)
  notifiers =
      ("generic", generic_notifier_func)
      ∷ ("generic-hmac", generic_hmac_notifier_func)
      ∷ ("slack", slack_notifier_func)
      ∷ ("discord", discord_notifier_func)
      ∷ ("rocket", rocket_notifier_func)
      ∷ ("msteams", msteams_notifier_func)
      ∷ ("googlechat", google_chat_notifier_func)
      ∷ ("googlepubsub", google_pub_sub_notifier_func)
      ∷ ("webex", webex_notifier_func)
      ∷ ("sentry", sentry_notifier_func)
      ∷ ("azureeventhub", azure_event_hub_notifier_func)
      ∷ ("telegram", telegram_notifier_func)
      ∷ ("lark", lark_notifier_func)
      ∷ ("matrix", matrix_notifier_func)
      ∷ ("opsgenie", opsgenie_notifier_func)
      ∷ ("alertmanager", alertmanager_notifier_func)
      ∷ ("grafana", grafana_notifier_func)
      ∷ ("pagerduty", pager_duty_notifier_func)
      ∷ ("datadog", data_dog_notifier_func)
      ∷ ("nats", nats_notifier_func)
      ∷ ("github", git_hub_notifier_func)
      ∷ ("githubdispatch", git_hub_dispatch_notifier_func)
      ∷ ("gitlab", git_lab_notifier_func)
      ∷ ("gitea", gitea_notifier_func)
      ∷ ("bitbucketserver", bitbucket_server_notifier_func)
      ∷ ("bitbucket", bitbucket_notifier_func)
      ∷ ("azuredevops", azure_dev_ops_notifier_func)
      ∷ []

  -- What `Factory.Notifier` returns of a factory function's results: the notifier, and the error.
  abbrev returned : Result N → Notifier N × Option String
  returned (ok n) = (made n, none)
  returned (err e) = (nop, some e)

  abbrev pub made_by :
      String
      → NotifierOptions Pool
      → Option (NotifierOptions Pool → Result N)
      → Notifier N × Option String
  made_by provider o none = (nop, some ("provider " <> (provider <> " not supported")))
  made_by provider o (some make) = returned (make o)

  -- The method `Factory.Notifier`, on the options of the factory.
  unfoldable pub notifier : NotifierOptions Pool → String → Notifier N × Option String
  unfolding notifiers
  notifier o provider =
      if o.url == "" then (nop, none) else made_by provider o (lookup provider notifiers)
