-- ===== src/Create/Tests.antt =====
-- Contexts created with and without options.
use encedo_hem_c_api.Prelude.{arith, true, some, none, codes, Bytes, ◌≡◌, refl}
use encedo_hem_c_api.Env.{ok}
use encedo_hem_c_api.Context.{Ctx}
use encedo_hem_c_api.Monad.{State}
use encedo_hem_c_api.Create.{apply_options, construct, ctx_create}
use encedo_hem_c_api.Options.{Options, options_init, behind, url_is_valid}
use encedo_hem_c_api.Create.Abi.{completed, ctx_create-completed, ctx_create-options_init}
use encedo_hem_c_api.Create.Outcome.{
  IsConfigured, IsConnected, caller_transport, ctx_create-IsConfigured,
}
use encedo_hem_c_api.Fixture.{World, test_env, start}

abbrev url : Bytes
url = codes "https://device"

-- Options of a caller that was built before the callbacks were added.
abbrev older : Options
older = record options_init {
  abi_size = 56;
  transport = some 7;
  no_auto_checkin = true;
  confirm_notice = some 3;
}

abbrev made_state : State World
made_state = (ctx_create url (some older) start).1

abbrev made_ctx : Ctx
made_ctx = made_state.ctx

made : ctx_create url (some older) start ≡ (ok made_ctx, made_state)
unfolding ctx_create url_is_valid behind construct apply_options
made = refl

unseen : made_ctx.confirm_notice ≡ none
unfolding ctx_create url_is_valid behind construct apply_options
unseen = refl

ctx_create-IsConfigured_example :
    (url_is_valid url ≡ true)
    × IsConfigured made_ctx
    × IsConnected (caller_transport (some older)) made_ctx
ctx_create-IsConfigured_example =
    ctx_create-IsConfigured url (some older) made_ctx start made_state made

ctx_create-options_init_example :
    ctx_create url none start ≡ ctx_create url (some options_init) start
ctx_create-options_init_example = ctx_create-options_init url start

ctx_create-completed_example :
    ctx_create url (some older) start ≡ ctx_create url (some (completed older)) start
ctx_create-completed_example = ctx_create-completed url older start (omega arith)
