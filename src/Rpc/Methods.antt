-- ===== src/Rpc/Methods.antt =====
-- jsonrpc.c: the methods of a server and of a controller.
use sbs_server.Prelude.{List, [], ◌∷◌}
use sbs_server.Prelude.Bytes.{Bytes, codes}
use sbs_server.Table.{Table, insert}
use sbs_server.Rpc.Types.{
  Handler, Server, auth_status, auth_setup, auth_login, auth_login_api_key, auth_create_api_key,
  auth_list_api_keys, auth_delete_api_key, auth_update_credentials, auth_set_passwordless,
}

-- The methods of other components that `register_core_methods` registers, in their order.
abbrev pub core_names : List Bytes
core_names =
    codes "system.getState"
    ∷ codes "system.getInfo"
    ∷ codes "source.list"
    ∷ codes "source.get"
    ∷ codes "source.listKinds"
    ∷ codes "source.describeKind"
    ∷ codes "source.discoverV4L2"
    ∷ codes "source.discoverALSA"
    ∷ codes "source.uploadAsset"
    ∷ codes "source.create"
    ∷ codes "source.update"
    ∷ codes "source.remove"
    ∷ codes "source.start"
    ∷ codes "source.stop"
    ∷ codes "scene.list"
    ∷ codes "scene.get"
    ∷ codes "scene.create"
    ∷ codes "scene.update"
    ∷ codes "scene.remove"
    ∷ codes "scene.setActive"
    ∷ codes "scene.setPreview"
    ∷ codes "scene.transitionToPreview"
    ∷ codes "scene.transition.update"
    ∷ codes "scene.item.add"
    ∷ codes "scene.item.update"
    ∷ codes "scene.item.remove"
    ∷ codes "scene.item.reorder"
    ∷ codes "filter.add"
    ∷ codes "filter.update"
    ∷ codes "filter.remove"
    ∷ codes "output.list"
    ∷ codes "output.get"
    ∷ codes "output.create"
    ∷ codes "output.remove"
    ∷ codes "output.start"
    ∷ codes "output.stop"
    ∷ codes "output.update"
    ∷ codes "encoder.getConfig"
    ∷ codes "encoder.updateConfig"
    ∷ codes "canvas.update"
    ∷ codes "canvas.apply"
    ∷ codes "audio.getLevels"
    ∷ codes "audio.setSource"
    ∷ codes "audio.setSceneItem"
    ∷ codes "audio.setMaster"
    ∷ codes "config.export"
    ∷ codes "config.import"
    ∷ codes "config.reset"
    ∷ codes "snapshot.capture"
    ∷ codes "preview.listProfiles"
    ∷ codes "preview.ensureProfile"
    ∷ codes "preview.getStatus"
    ∷ codes "preview.releaseProfile"
    ∷ codes "preview.webrtc.start"
    ∷ codes "preview.webrtc.answer"
    ∷ codes "preview.webrtc.ice"
    ∷ codes "preview.getEncoderConfig"
    ∷ codes "preview.updateEncoderConfig"
    ∷ codes "command.execute"
    ∷ codes "pubsub.subscribe"
    ∷ codes "pubsub.unsubscribe"
    ∷ codes "instance.list"
    ∷ codes "instance.restart"
    ∷ []

-- Those that `register_controller_methods` registers.
abbrev pub controller_names : List Bytes
controller_names =
    codes "instance.list"
    ∷ codes "instance.create"
    ∷ codes "instance.update"
    ∷ codes "instance.enable"
    ∷ codes "instance.disable"
    ∷ codes "instance.start"
    ∷ codes "instance.stop"
    ∷ codes "instance.restart"
    ∷ codes "instance.remove"
    ∷ codes "instance.getInfo"
    ∷ codes "instance.getState"
    ∷ codes "instance.call"
    ∷ []

-- `others` gives the handler that the code registers for a method of another component.
module _ {S : Type 0} (others : Bytes → Handler S) where
  unfoldable pub register_others : List Bytes → Table (Handler S) → Table (Handler S)
  register_others [] methods = methods
  register_others (name ∷ names) methods = register_others names (insert name (others name) methods)

  unfoldable pub register_auth : Table (Handler S) → Table (Handler S)
  register_auth methods =
      let m1 = insert (codes "auth.status") auth_status methods in
      let m2 = insert (codes "auth.setup") auth_setup m1 in
      let m3 = insert (codes "auth.login") auth_login m2 in
      let m4 = insert (codes "auth.loginApiKey") auth_login_api_key m3 in
      let m5 = insert (codes "auth.createApiKey") auth_create_api_key m4 in
      let m6 = insert (codes "auth.listApiKeys") auth_list_api_keys m5 in
      let m7 = insert (codes "auth.deleteApiKey") auth_delete_api_key m6 in
      let m8 = insert (codes "auth.updateCredentials") auth_update_credentials m7 in
      let m9 = insert (codes "auth.setPasswordless") auth_set_passwordless m8 in m9

  unfoldable pub register_core_methods : Table (Handler S) → Table (Handler S)
  register_core_methods methods = register_others core_names (register_auth methods)

  unfoldable pub register_controller_methods : Table (Handler S) → Table (Handler S)
  register_controller_methods methods = register_others controller_names (register_auth methods)

  -- `sbs_api_server_configure_controller`: the methods of the controller in place of the server's.
  unfoldable pub configure_controller : Server S → Server S
  configure_controller server = record server { methods = register_controller_methods [] }
