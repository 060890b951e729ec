-- ===== src/Create.antt =====
-- src/context.c: the life of a context.
pub mod Abi
pub mod Outcome
mod Tests
use encedo_hem_c_api.Prelude.{
  ℕ, zero, suc, Bool, true, false, not, ◌&&◌, Option, none, some, List, [], ◌∷◌, Bytes, codes, leb,
  ltb, ◌==◌, if◌then◌else◌,
}
use encedo_hem_c_api.Prelude.Int.{ℤ, pos, negsuc}
use encedo_hem_c_api.Rc.{arg, nomem}
use encedo_hem_c_api.Env.{Env, Result, ok, err, TlsMode, system, ca_file, insecure}
use encedo_hem_c_api.Context.{Ctx, no_error}
use encedo_hem_c_api.Global.{global_init}
use encedo_hem_c_api.Transport.{transport_destroy}
use encedo_hem_c_api.Monad.{
  State, Prog, alloc, outside, get_ctx, put_ctx, return, throw, ◌>>=◌, ◌>>◌,
}
use encedo_hem_c_api.Options.{
  Options, behind, default_checkin_url, default_ctx, given, http_host, https_host, if_given, if_has,
  if_positive, is_filled, opt_has, options_init, options_size, or_default, url_is_valid, wants_ca,
  with_flags, with_timeouts, zero_ctx,
}

module _ ⦃E : Env⦄ where
  abbrev pub update : (Ctx → Ctx) → Prog (Unit {0})
  update f s = (ok tt, record s { ctx = f s.ctx })

  -- `ehem_strdup` into a field of the context.
  abbrev pub copy_into : (Ctx → Ctx) → Prog (Unit {0})
  copy_into f = do room ← alloc; if room then update f else throw nomem

  abbrev pub copy_ca : Option Bytes → Prog (Unit {0})
  copy_ca none = return tt
  copy_ca (some file) = copy_into (λ c. record c { ca_file = some file })

  -- The mode that names a file needs one.
  abbrev pub check_ca : Prog (Unit {0})
  check_ca s = if wants_ca s.ctx.tls_mode s.ctx.ca_file then (err arg, s) else (ok tt, s)

  abbrev pub copy_url : Options → Prog (Unit {0})
  copy_url o =
      copy_into (λ c. record c { checkin_url = or_default (given (opt_has o 64) o.checkin_url) })

  unfoldable pub apply_options : Option Options → Prog (Unit {0})
  apply_options none = do
    update default_ctx
    copy_into (λ c. record c { checkin_url = default_checkin_url })
  apply_options (some o) = do
    update (λ c. with_timeouts o (default_ctx c))
    copy_ca (given (opt_has o 40) o.ca_file)
    update (with_flags o)
    copy_url o
    check_ca

  abbrev pub own_transport : Option ℕ → Prog (Unit {0})
  own_transport none = throw nomem
  own_transport (some t) = update (λ c. record c { transport = some t; owns_transport = true })

  -- The built-in transport, where the caller gives none.
  abbrev pub ensure_transport : Option ℕ → Prog (Unit {0})
  ensure_transport (some t) = return tt
  ensure_transport none = do
    global_init
    ctx ← get_ctx
    t ← outside (E.transport_default_new ctx.url ctx.tls_mode ctx.ca_file)
    own_transport t

  -- What `ehem_ctx_create` does to the context it has allocated.
  unfoldable pub construct : Bytes → Option Options → Prog (Unit {0})
  unfolding apply_options
  construct url opts = do
    apply_options opts
    copy_into (λ c. record c { url = url })
    ctx ← get_ctx
    ensure_transport ctx.transport

  -- `ehem_ctx_destroy`: the transport is torn down if the context owns it.
  unfoldable pub ctx_destroy : State E.World → State E.World
  ctx_destroy s = if s.ctx.owns_transport then transport_destroy s.ctx.transport s else s

  abbrev pub stamped : Option Options → Bool
  stamped none = true
  stamped (some o) = leb 8 o.abi_size

  abbrev pub handed_out : Result (Unit {0}) × State E.World → Result Ctx × State E.World
  handed_out (ok _, s) = (ok s.ctx, s)
  handed_out (err rc, s) = (err rc, ctx_destroy s)

  -- `ehem_ctx_create` with a URL and a place for the result; the state's context is the one that
  -- is under construction.
  unfoldable pub ctx_create : Bytes → Option Options → Prog Ctx
  unfolding construct ctx_destroy url_is_valid
  ctx_create url opts s =
      if url_is_valid url
      then (if stamped opts
          then (do
            room ← alloc
            if room
                then (λ s'. handed_out (construct url opts (record s' { ctx = zero_ctx })))
                else throw nomem)
              s
          else (err arg, s))
      else (err arg, s)
