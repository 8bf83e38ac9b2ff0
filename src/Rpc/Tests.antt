-- ===== src/Rpc/Tests.antt =====
-- Concrete requests to a server with a login.
use sbs_server.Prelude.{ℕ, suc, ◌≡◌, refl, true, false, Option, none, some, List, [], ◌∷◌}
use sbs_server.Prelude.Bytes.{Bytes, codes, str_eq}
use sbs_server.Json.{Json, null, str, object, no_fields, field}
use sbs_server.Table.{lookup, insert}
use sbs_server.Auth.Types.{Library, Draw, ok}
use sbs_server.Auth.Secrets.{hash_secret, secure_equals, differences}
use sbs_server.Auth.Config.{passwordless, setup_required}
use sbs_server.Auth.Login.{validate_session, login_password, check_password}
use sbs_server.Auth.Keys.{validate_api_key, matches}
use sbs_server.Auth.Credentials.{IsSetUp}
use sbs_server.Rpc.Types.{Given, Handler, Server, other}
use sbs_server.Rpc.Handlers.{handle_login}
use sbs_server.Rpc.Dispatch.{
  dispatch, checked, call, request_authenticated, is_auth_method, error_response,
}
use sbs_server.Rpc.Methods.{register_core_methods, register_others, register_auth}
use sbs_server.Rpc.Registered.{register_core_methods-IsGuarded}
use sbs_server.Rpc.Served.{serve, serve-locked}
use sbs_server.Rpc.Responses.{Answers, dispatch-response}

abbrev library : Library
library = record {
  sha256 = λ text. text;
  base64 = λ bytes. bytes;
  print = λ j. some (codes "{}");
  parse = λ text. none;
}

abbrev draw : Draw
draw = record { urandom = []; int_range = λ i. 65 }

abbrev given : Given
given = record {
  salt = draw;
  token = draw;
  key = record { secret = draw; id = draw; salt = draw; now = codes "2026-01-01T00:00:00Z" };
  can_write = true;
}

-- The other components together count their calls.
abbrev counting : Bytes → Handler ℕ
counting name = other (λ n params. (suc n, record { code = ok; result = some null; error = none }))

abbrev server : Server ℕ
server = record {
  auth = record {
    mode = some (codes "password");
    username = some (codes "admin");
    password_salt = some (codes "ab");
    password_hash = some (codes "ab:secret");
    api_keys = [];
    sessions = [];
    file = some (codes "{}");
  };
  rest = 0;
  methods = register_core_methods counting [];
}

abbrev request : Bytes → Json → Option Json
request method params = some (
    object (
      field (codes "id") (str (codes "7"))
        (field (codes "method") (str method) (field (codes "params") params no_fields))))

abbrev login_with : Bytes → Option Json
login_with password = request (codes "auth.login") (
    object (
      field (codes "username") (str (codes "admin"))
        (field (codes "password") (str password) no_fields)))

abbrev listed : Option Json
listed = request (codes "source.list") (object no_fields)

abbrev guesses : List (Option Json × Given)
guesses =
    (listed, given)
    ∷ (login_with (codes "guess"), given)
    ∷ (request (codes "auth.setup") (object no_fields), given)
    ∷ (none, given)
    ∷ []

server-IsSetUp : IsSetUp (codes "admin") (codes "ab") (codes "ab:secret") server.auth
unfolding passwordless str_eq
server-IsSetUp = record {
  mode = refl;
  username = refl;
  password_salt = refl;
  password_hash = refl;
  file = refl;
}

serve-locked_example : serve library guesses server (some false) ≡ (server, some false)
unfolding hash_secret str_eq validate_api_key setup_required passwordless matches lookup
serve-locked_example =
    serve-locked library (codes "admin") (codes "ab") (codes "ab:secret") guesses server
      server-IsSetUp (register_core_methods-IsGuarded counting) (refl, (refl, (refl, (refl, tt))))

-- With the password the client is let in, and the handler runs.
let_in :
    (serve library
      ((listed, given) ∷ (login_with (codes "secret"), given) ∷ [])
      server
      (some false)).1
    ≡ some true
unfolding serve dispatch checked call handle_login login_password check_password setup_required
    passwordless secure_equals differences hash_secret str_eq register_core_methods register_others
    register_auth lookup insert is_auth_method request_authenticated
let_in = refl

dispatch-response_example :
    Answers
      (str (codes "7"))
      (error_response (str (codes "7")) 32020 (codes "Authentication required"))
unfolding dispatch checked register_core_methods register_others register_auth lookup insert str_eq
    is_auth_method request_authenticated passwordless setup_required validate_session
    validate_api_key
dispatch-response_example =
    dispatch-response library listed given server (some false)
      (error_response (str (codes "7")) 32020 (codes "Authentication required")) refl
