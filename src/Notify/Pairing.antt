-- ===== src/Notify/Pairing.antt =====
-- src/proto_notify.c: how the pairing of a phone is waited for and finished, and the QR code.
use encedo_hem_c_api.Prelude.{
  ℕ, true, false, Option, none, some, [], ◌∷◌, ◌++◌, Bytes, codes, ◌==◌, if◌then◌else◌,
}
use encedo_hem_c_api.Rc.{nomem, protocol}
use encedo_hem_c_api.Env.{Env, get, post}
use encedo_hem_c_api.Base64.{bytes, b64_std_encode}
use encedo_hem_c_api.Context.Fail.{fail}
use encedo_hem_c_api.Ejwt.{string_field}
use encedo_hem_c_api.Binding.{body_with, clear_last_error, or_nomem, printed}
use encedo_hem_c_api.Monad.{Prog, alloc, outside_result, return, throw, ◌>>=◌, ◌>>◌}
use encedo_hem_c_api.Notify.{PairingReply, bounded_path, broker_field, notify_send, parse_object}

module _ ⦃E : Env⦄ where
  abbrev pub object_in : Bytes → ℕ → Option Bytes → Prog E.Node
  object_in message status none = fail protocol status none message
  object_in message status (some body) = parse_object status body message

  abbrev pub shape_message : Bytes → Bytes
  shape_message what = what ++ codes ": broker response is not a JSON object"

  -- A reply of 200: the phone has completed its side.
  abbrev pub completed_pairing : ℕ → Option Bytes → Prog PairingReply
  completed_pairing status body = do
    root ← object_in (shape_message (codes "notify/register/check")) status body
    pid ← broker_field root (codes "notify/register/check") (codes "pid")
    reply ← broker_field root (codes "notify/register/check") (codes "reply")
    return (record { pending = false; pid = some pid; reply = some reply })

  abbrev pub pairing_reply : ℕ → Option Bytes → Prog PairingReply
  pairing_reply status body =
      if status == 202
      then return (record { pending = true; pid = none; reply = none })
      else completed_pairing status body

  unfoldable pub notify_register_check : Option Bytes → Bytes → Prog PairingReply
  notify_register_check notify_url rid = do
    clear_last_error
    subpath ←
        bounded_path (codes "/register/check/") rid (codes "notify/register/check: rid too long")
    reply ← notify_send get notify_url subpath none
    room ← alloc
    or_nomem room tt
    pairing_reply reply.0 reply.1

  -- The device's answer to the validation, passed through. The body of the reply carries nothing.
  unfoldable pub notify_register_finalise : Option Bytes → Bytes → Bytes → Bytes → Prog (Unit {0})
  notify_register_finalise notify_url rid kid_hex code_b64 = do
    clear_last_error
    subpath ←
        bounded_path (codes "/register/finalise/") rid
          (codes "notify/register/finalise: rid too long")
    body ←
        body_with (string_field (codes "kid") kid_hex ∷ string_field (codes "code") code_b64 ∷ [])
    reply ← notify_send post notify_url subpath (some body)
    return tt

  abbrev pub or_empty : Option Bytes → Bytes
  or_empty none = []
  or_empty (some s) = s

  abbrev pub copied : Option Bytes → Prog Bytes
  copied none = throw nomem
  copied (some text) = do room ← alloc; if room then return text else throw nomem

  abbrev pub qr_object :
      Bytes → Option Bytes → Option Bytes → Option Bytes → Option Bytes → Prog Bytes
  qr_object link user email hostname none = throw protocol
  qr_object link user email hostname (some hash_b64) = do
    text ← printed (
        string_field (codes "link") link
        ∷ string_field (codes "hash") hash_b64
        ∷ string_field (codes "user") (or_empty user)
        ∷ string_field (codes "email") (or_empty email)
        ∷ string_field (codes "hostname") (or_empty hostname)
        ∷ [])
    copied text

  -- `ehem_ext_qr_payload` on a link and a request that are not NULL. It takes no context.
  unfoldable pub ext_qr_payload :
      Bytes → Bytes → Option Bytes → Option Bytes → Option Bytes → Prog Bytes
  ext_qr_payload link request_jwt user email hostname = do
    digest ← outside_result (E.sha256 request_jwt)
    qr_object link user email hostname (b64_std_encode (bytes digest) (some 48))
