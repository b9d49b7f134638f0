-- ===== src/Notifier/Tools.antt =====
-- The libraries that the notifiers of internal/notifier share, as parameters: of events, of
-- characters, of HTTP and of git.
use notification_controller.Prelude.{ℕ, String, Option, Result}
use notification_controller.Api.Event.{EventApi, Unicode}
use notification_controller.Notifier.Client.{Http}
use notification_controller.Notifier.Util.{GitUrl}

pub record Git : Type 0 where
  -- giturls.Parse
  pub parse : String → Result GitUrl
  -- git.ExtractHashFromRevision(git.TransformRevision(rev)) as a text, `none` for
  -- git.HashTypeUnknown.
  pub extract_hash : String → Option String

pub record Tools (S Pool : Type 0) : Type 0 where
  pub api : EventApi
  pub unicode : Unicode
  pub http : Http S Pool
  pub git : Git
  -- cases.Title(language.Und).String, and the format time.RFC3339 of a Unix time
  pub title : String → String
  pub format_rfc3339 : ℕ → String
