-- ===== src/Session/Tests.antt =====
-- Logins at concrete contexts.
use encedo_hem_c_api.Prelude.{false, true, none, some, [], codes, ◌≡◌, refl}
use encedo_hem_c_api.Context.{Auth, clear_error}
use encedo_hem_c_api.Session.{login, login_mobile, ensure_auth}
use encedo_hem_c_api.Session.Outcome.{IsLogin, login-IsLogin, login_mobile-IsLogin}
use encedo_hem_c_api.Fixture.{test_env, start, test_ctx}

abbrev alice : Auth
alice = record {
  passphrase = some (codes "secret");
  retain = true;
  username = none;
  mobile = false;
  cache = [];
}

login-start : (login (some (codes "secret")) start).1.ctx.auth ≡ some alice
unfolding login clear_error ensure_auth
login-start = refl

login-IsLogin_example :
    IsLogin alice test_ctx
      (login (some (codes "secret")) start).0
      (login (some (codes "secret")) start).1.ctx
login-IsLogin_example = login-IsLogin (codes "secret") start

abbrev phone : Auth
phone = record { passphrase = none; retain = false; username = none; mobile = true; cache = [] }

login_mobile-IsLogin_example :
    IsLogin phone test_ctx (login_mobile start).0 (login_mobile start).1.ctx
login_mobile-IsLogin_example = login_mobile-IsLogin start
