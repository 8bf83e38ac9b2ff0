-- ===== src/Rpc/Served.antt =====
-- The requests of one client to a server with a login.
use sbs_server.Prelude.{◌≡◌, refl, ap₂, false, Option, some, List, [], ◌∷◌, All}
use sbs_server.Prelude.Bytes.{Bytes}
use sbs_server.Json.{Json}
use sbs_server.Auth.Types.{Library}
use sbs_server.Auth.Credentials.{IsSetUp}
use sbs_server.Rpc.Types.{Given, Client, Server}
use sbs_server.Rpc.Dispatch.{dispatch}
use sbs_server.Rpc.Registered.{IsGuarded}
use sbs_server.Rpc.Locked.{shows, dispatch-Unchanged}

module _ (lib : Library) {S : Type 0} where
  -- The requests of one client, the last one first.
  unfoldable pub serve : List (Option Json × Given) → Server S → Client → Server S × Client
  serve [] server client = (server, client)
  serve ((request, given) ∷ earlier) server client =
      let before = serve earlier server client in
      let out = dispatch lib request given before.0 before.1 in (out.0, out.1)

module _ (lib : Library) (u s h : Bytes) {S : Type 0} where
  -- On a server with a login in force, any requests of a client that is not authenticated, if none of
  -- them shows a password, an API key or a session that is valid, leave the server as it was, and the
  -- client not authenticated.
  pub serve-locked :
      (requests : List (Option Json × Given)) (server : Server S)
      → IsSetUp u s h server.auth
      → IsGuarded server.methods
      → All (λ r. shows lib u s h server.auth r.0 ≡ false) requests
      → serve lib requests server (some false) ≡ (server, some false)
  unfolding serve
  serve-locked [] server set guarded hidden = refl
  serve-locked ((request, given) ∷ earlier) server set guarded hidden =
      rw (serve-locked earlier server set guarded hidden.1) (
        let done = dispatch-Unchanged lib u s h request given server set guarded hidden.0 in
        ap₂ (λ a b. (a, b)) done.0 done.1)
