-- ===== src/Notifier.antt =====
-- The notifiers of internal/notifier.
pub mod Escape
pub mod Factory
pub mod Client
pub mod Forwarder
pub mod Payload
pub mod Status
pub mod Tools
pub mod Chat
pub mod Github
pub mod Gitlab
pub mod Gitea
pub mod Incident
pub mod Stream
pub mod Telemetry
pub mod Sender
pub mod Bitbucket
pub mod BitbucketServer
pub mod AzureDevops
pub mod Util
