-- ===== src/Mnemonic.antt =====
-- src/proto_auth.c: the master mnemonic, on a context that is there.
use encedo_hem_c_api.Prelude.{ℕ, none, [], ◌∷◌, ◌++◌, Bytes, codes}
use encedo_hem_c_api.Env.{Env, Result, ok, err}
use encedo_hem_c_api.Context.Fail.{fail}
use encedo_hem_c_api.Global.{global_init}
use encedo_hem_c_api.Bip39.{generate, mnemonic_cap, to_master_secret}
use encedo_hem_c_api.Binding.{clear_last_error, dup_str}
use encedo_hem_c_api.Monad.{Prog, attempt, return, ◌>>=◌, ◌>>◌}

module _ ⦃E : Env⦄ (wordlist : ℕ → Bytes) where
  abbrev pub with_source : Result (Unit {0}) → Prog (Result Bytes)
  with_source (err rc) = return (err rc)
  with_source (ok _) = attempt (generate wordlist mnemonic_cap)

  abbrev pub copy_words : Result Bytes → Prog Bytes
  copy_words (err rc) = fail rc 0 none (codes "mnemonic: entropy source failed")
  copy_words (ok words) = dup_str words

  unfoldable pub mnemonic_generate : Prog Bytes
  mnemonic_generate = do
    clear_last_error
    ready ← attempt global_init
    words ← with_source ready
    copy_words words

  abbrev pub explained : Bytes → Bytes
  explained [] = codes "derivation failed"
  explained (c ∷ cs) = c ∷ cs

  abbrev pub secret_of : Bytes × Result Bytes → Prog Bytes
  secret_of (reason, ok secret) = return secret
  secret_of (reason, err rc) = fail rc 0 none (codes "mnemonic: " ++ explained reason)

  unfoldable pub master_secret_from_mnemonic : Bytes → Prog Bytes
  master_secret_from_mnemonic words = do
    clear_last_error
    r ← to_master_secret wordlist words 128
    secret_of r
