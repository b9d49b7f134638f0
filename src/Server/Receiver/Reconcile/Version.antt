-- ===== src/Server/Receiver/Reconcile/Version.antt =====
-- The text of an API version, `getGroupVersion` of internal/server/receiver_handlers.go.
use Prim.Native.String.{String}
use notification_controller.Prelude.{◌<>◌, ◌≡◌, refl}
use notification_controller.Prelude.Slash.{HasNoSlash, split_plain, split-append}
use notification_controller.Server.Receiver.Reconcile.{get_group_version}

-- A group and a version that have no slash, joined by one, are read back from the text of an API version.
pub get_group_version-append :
    (group version : String)
    → HasNoSlash group
    → HasNoSlash version
    → get_group_version (group <> ("/" <> version)) ≡ (group, version)
unfolding get_group_version
get_group_version-append group version h h' =
    rw (get_group_version, split-append group version h, split_plain version h') refl
