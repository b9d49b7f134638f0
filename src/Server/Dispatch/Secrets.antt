-- ===== src/Server/Dispatch/Secrets.antt =====
-- What `createNotifier` of internal/server/event_handlers.go reads from a provider's secret.
use notification_controller.Prelude.{
  ◌≤◌, String, ◌≡◌, refl, subst, ◌⊎◌, inl, inr, [], Option, none, some, Option-cases, Result, ok,
  >>=-eq-ok, wrap, wrap-eq-ok, arith, len,
}
use notification_controller.Prelude.Dict.{Dict, lookup}
use notification_controller.Prelude.Trim.{IsTrimOf, trim_space_lem}
use notification_controller.Api.{Provider, Secret}
use notification_controller.Server.Dispatch.{
  Services, Credentials, spec_credentials, secret_credentials, read_credentials, trimmed_or,
  check_address, check_proxy, read_headers,
}

-- A value comes from the secret, without the spaces around it, or it is the one without a secret.
abbrev pub IsReadOf : Option String → String → String → Type 0
IsReadOf none old t = t ≡ old
IsReadOf (some value) old t = IsTrimOf value t

-- An address has 2048 bytes at most.
abbrev pub IsShort : Option String → Type 0
IsShort none = Unit
IsShort (some value) = len value ≤ 2048

trimmed_or_lem : (o : Option String) (old : String) → IsReadOf o old (trimmed_or o old)
trimmed_or_lem none old = refl
trimmed_or_lem (some value) old = trim_space_lem value

ok_path : (c c' : Credentials) → ok c ≡ ok c' → c ≡ c'
ok_path c c' h = cc

module _ {N Pool : Type 0} (env : Services N Pool) where
  -- A proxy of the secret is an address.
  abbrev pub IsProxy : Option String → String → Type 0
  IsProxy none proxy = Unit
  IsProxy (some _) proxy = env.url_parse proxy ≡ ok tt

  -- The headers are those that the secret's text stands for, or none.
  abbrev pub AreHeaders : Option String → Dict String → Type 0
  AreHeaders none headers = headers ≡ []
  AreHeaders (some value) headers = env.unmarshal value ≡ ok headers

  -- The entries of the secret that the provider refers to, or none without a reference.
  abbrev pub AreEntries : Provider → Dict String → Type 0
  AreEntries provider entries =
      ((provider.spec.secret_ref ≡ none) × (entries ≡ []))
      ⊎ ((name : String) × (secret : Secret) × (provider.spec.secret_ref ≡ some name)
          × (env.get_secret (record { namespace = provider.meta.namespace; name = name })
              ≡ ok secret)
          × (entries ≡ secret.entries))

  -- The credentials, by the entries and the provider's spec.
  pub record AreCredentials (provider : Provider) (entries : Dict String) (c : Credentials)
      : Type 0 where
    pub webhook : IsReadOf (lookup "address" entries) provider.spec.address c.webhook
    pub username : IsReadOf (lookup "username" entries) provider.spec.username c.username
    pub proxy : IsReadOf (lookup "proxy" entries) provider.spec.proxy c.proxy
    pub token : IsReadOf (lookup "token" entries) "" c.token
    pub password : IsReadOf (lookup "password" entries) "" c.password
    pub headers : AreHeaders (lookup "headers" entries) c.headers
    pub address_is_short : IsShort (lookup "address" entries)
    pub proxy_is_address : IsProxy (lookup "proxy" entries) c.proxy

  check_address-IsShort : (o : Option String) → check_address env o ≡ ok tt → IsShort o
  check_address-IsShort none h = tt
  check_address-IsShort (some value) h = ground arith

  check_proxy-IsProxy :
      (o : Option String) (old : String) → check_proxy env o ≡ ok tt → IsProxy o (trimmed_or o old)
  check_proxy-IsProxy none old h = tt
  check_proxy-IsProxy (some value) old h = wrap-eq-ok _ _ _ h

  read_headers-AreHeaders :
      (o : Option String) (headers : Dict String)
      → read_headers env o ≡ ok headers
      → AreHeaders o headers
  read_headers-AreHeaders none headers h = cc
  read_headers-AreHeaders (some value) headers h = wrap-eq-ok _ _ _ h

  secret_credentials-AreCredentials :
      (provider : Provider) (entries : Dict String) (c : Credentials)
      → secret_credentials env (spec_credentials env provider) entries ≡ ok c
      → AreCredentials provider entries c
  unfolding secret_credentials
  secret_credentials-AreCredentials provider entries c h =
      let (_, short, h1) = >>=-eq-ok (check_address env (lookup "address" entries)) _ h in
      let (_, parsed, h2) = >>=-eq-ok (check_proxy env (lookup "proxy" entries)) _ h1 in
      let (headers, read, h3) = >>=-eq-ok (read_headers env (lookup "headers" entries)) _ h2 in
      let built : Credentials = record {
        webhook = trimmed_or (lookup "address" entries) provider.spec.address;
        username = trimmed_or (lookup "username" entries) provider.spec.username;
        proxy = trimmed_or (lookup "proxy" entries) provider.spec.proxy;
        token = trimmed_or (lookup "token" entries) "";
        password = trimmed_or (lookup "password" entries) "";
        headers = headers;
      } in
      let same : built ≡ c = ok_path built c h3 in
      subst (AreCredentials provider entries) same (record {
        webhook = trimmed_or_lem _ _;
        username = trimmed_or_lem _ _;
        proxy = trimmed_or_lem _ _;
        token = trimmed_or_lem _ _;
        password = trimmed_or_lem _ _;
        headers = read_headers-AreHeaders _ _ read;
        address_is_short = check_address-IsShort _ short;
        proxy_is_address = check_proxy-IsProxy _ _ parsed;
      })

  spec_credentials-AreCredentials :
      (provider : Provider) (c : Credentials)
      → ◌≡◌ {A = Result Credentials} (ok (spec_credentials env provider)) (ok c)
      → AreCredentials provider [] c
  unfolding lookup
  spec_credentials-AreCredentials provider c h =
      subst (AreCredentials provider []) (ok_path (spec_credentials env provider) c h) (record {
        webhook = refl;
        username = refl;
        proxy = refl;
        token = refl;
        password = refl;
        headers = refl;
        address_is_short = tt;
        proxy_is_address = tt;
      })

  -- Where the credentials can be read, each comes from the provider's secret, without the spaces at
  -- its ends, where the secret has its key, and else from the provider's spec; but for the token, the
  -- password and the headers, which are empty without it. The secret's address has 2048 bytes at
  -- most, its proxy is an address, and its headers can be decoded. Without a reference to a secret
  -- it is as if there were an empty one.
  pub read_credentials_sound :
      (provider : Provider) (c : Credentials)
      → read_credentials env provider ≡ ok c
      → (entries : Dict String) × AreEntries provider entries × AreCredentials provider entries c
  unfolding read_credentials
  read_credentials_sound provider c h = elim (Option-cases provider.spec.secret_ref) [
    | inl missing ↦ (
      [],
      inl (missing, refl),
      spec_credentials-AreCredentials provider c (rw (read_credentials, missing) at h),
    )
    | inr (name, named) ↦
        let (secret, found, read) =
          >>=-eq-ok
            (wrap "failed to read secret: "
              (env.get_secret (record { namespace = provider.meta.namespace; name = name })))
            _ (rw (read_credentials, named) at h) in
        (
          secret.entries,
          inr (name, secret, named, wrap-eq-ok _ _ _ found, refl),
          secret_credentials-AreCredentials provider secret.entries c read,
        )
  ]
