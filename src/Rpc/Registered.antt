-- ===== src/Rpc/Registered.antt =====
-- The four methods that need no login have the handlers of handlers/auth.c, on a server and on a
-- controller.
use sbs_server.Prelude.{◌≡◌, refl, some, []}
use sbs_server.Prelude.Bytes.{Bytes, codes, str_eq}
use sbs_server.Table.{Table, lookup, insert}
use sbs_server.Rpc.Types.{Handler, auth_status, auth_setup, auth_login, auth_login_api_key}
use sbs_server.Rpc.Methods.{
  register_core_methods, register_controller_methods, register_others, register_auth,
}

pub record IsGuarded {S : Type 0} (methods : Table (Handler S)) : Type 0 where
  pub status : lookup (codes "auth.status") methods ≡ some auth_status
  pub set_up : lookup (codes "auth.setup") methods ≡ some auth_setup
  pub login : lookup (codes "auth.login") methods ≡ some auth_login
  pub key_login : lookup (codes "auth.loginApiKey") methods ≡ some auth_login_api_key

pub register_core_methods-IsGuarded :
    {S : Type 0} (others : Bytes → Handler S) → IsGuarded (register_core_methods others [])
unfolding register_core_methods register_others register_auth lookup insert str_eq
register_core_methods-IsGuarded others = record {
  status = refl;
  set_up = refl;
  login = refl;
  key_login = refl;
}

pub register_controller_methods-IsGuarded :
    {S : Type 0} (others : Bytes → Handler S) → IsGuarded (register_controller_methods others [])
unfolding register_controller_methods register_others register_auth lookup insert str_eq
register_controller_methods-IsGuarded others = record {
  status = refl;
  set_up = refl;
  login = refl;
  key_login = refl;
}
