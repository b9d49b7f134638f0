-- ===== src/Notifier/Factory/Laws.antt =====
-- Which providers the factory knows, and what it takes for a token.
use notification_controller.Prelude.{
  String, ◌==◌, ◌≡◌, ◌≢◌, refl, ◌↔◌, ◌⊎◌, inl, inr, false, List, [], ◌∷◌, Option, none, some,
  Result, arith, eq_iff, In, all_in, all_in_sound, Result-cases,
}
use notification_controller.Prelude.Dict.{lookup, lookup_iff_key, keys}
use notification_controller.Notifier.Factory.{
  Constructors, Notifier, made, NotifierOptions, made_by, notifier, notifiers,
  git_hub_notifier_func, git_hub_dispatch_notifier_func, git_lab_notifier_func, gitea_notifier_func,
}

-- The enumeration of `ProviderSpec.Type` in api/v1beta3/provider_types.go.
abbrev pub provider_types : List String
provider_types =
    "slack" ∷ "discord" ∷ "msteams" ∷ "rocket" ∷ "generic" ∷ "generic-hmac" ∷ "github" ∷ "gitlab"
    ∷ "gitea" ∷ "bitbucketserver" ∷ "bitbucket" ∷ "azuredevops" ∷ "googlechat" ∷ "googlepubsub"
    ∷ "webex" ∷ "sentry" ∷ "azureeventhub" ∷ "telegram" ∷ "lark" ∷ "matrix" ∷ "opsgenie"
    ∷ "alertmanager" ∷ "grafana" ∷ "githubdispatch" ∷ "pagerduty" ∷ "datadog" ∷ "nats" ∷ []

module _ {N Pool : Type 0} (new : Constructors N Pool) where
  made_by_made :
      (provider : String) (o : NotifierOptions Pool)
      (found : Option (NotifierOptions Pool → Result N)) {n : Notifier N}
      → made_by new provider o found ≡ (n, none)
      → (m : N) × (n ≡ made m)
  made_by_made provider o none e = ground arith
  made_by_made provider o (some make) e = elim (Result-cases (make o)) [
    | inl (m, done) ↦ (m, ground arith)
    | inr (text, failed) ↦ ground arith
  ]

  -- With an address, the notifier is the one that does nothing exactly when there is an error.
  pub notifier_made :
      (o : NotifierOptions Pool) (provider : String) {n : Notifier N}
      → (o.url == "") ≡ false
      → notifier new o provider ≡ (n, none)
      → (m : N) × (n ≡ made m)
  unfolding notifier
  notifier_made o provider h e =
      made_by_made provider o (lookup provider (notifiers new)) (rw h at e)

-- The factory knows exactly the provider types that the API's enumeration allows.
pub supported_iff :
    {N Pool : Type 0} (new : Constructors N Pool) (provider : String)
    → (lookup provider (notifiers new) ≢ none) ↔ In provider provider_types
unfolding notifiers all_in
supported_iff new provider =
    let (to, from) = lookup_iff_key provider (notifiers new) in
    (
      λ h. all_in_sound (keys (notifiers new)) provider_types provider refl (to h),
      λ h. from (all_in_sound provider_types (keys (notifiers new)) provider refl h),
    )

-- The four kinds of Git notifiers that take the password for a token if there is no token.
abbrev pub IsTokenOrPassword : String → Type 0
IsTokenOrPassword type =
    (type ≡ "github") ⊎ (type ≡ "githubdispatch") ⊎ (type ≡ "gitlab") ⊎ (type ≡ "gitea")

-- For the types github, githubdispatch, gitlab and gitea a non-empty password and no token make
-- the same notifier, or fail alike, as that password given as the token.
pub notifier_token_or_password :
    {N Pool : Type 0} (new : Constructors N Pool) (o : NotifierOptions Pool)
    (provider password other : String)
    → IsTokenOrPassword provider
    → password ≢ ""
    → notifier new (record o { token = ""; password = password }) provider
      ≡ notifier new (record o { token = password; password = other }) provider
unfolding notifier lookup git_hub_notifier_func git_hub_dispatch_notifier_func git_lab_notifier_func
    gitea_notifier_func
notifier_token_or_password new o provider password other (inl e) h =
    rw e (ground (arith, eq_iff password ""))
notifier_token_or_password new o provider password other (inr (inl e)) h =
    rw e (ground (arith, eq_iff password ""))
notifier_token_or_password new o provider password other (inr (inr (inl e))) h =
    rw e (ground (arith, eq_iff password ""))
notifier_token_or_password new o provider password other (inr (inr (inr e))) h =
    rw e (ground (arith, eq_iff password ""))
