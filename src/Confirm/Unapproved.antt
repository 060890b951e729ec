-- ===== src/Confirm/Unapproved.antt =====
-- A poll that is not answered by an approval leaves the session and its tokens alone
-- (src/proto_ext.c, with the calls of src/proto_notify.c that it makes).
use encedo_hem_c_api.Prelude.{
  ℕ, Bool, true, false, Option, none, some, [], ◌∷◌, ◌++◌, Bytes, codes, c_string, length, ltb, leb,
  ◌||◌, ◌≡◌, refl, ◌∙◌, ◌==◌, if◌then◌else◌,
}
use encedo_hem_c_api.Rc.{Rc, arg, nomem, protocol, user_rejected, map_http_status}
use encedo_hem_c_api.Env.{Env, Result, ok, err, HttpMethod, get, Response}
use encedo_hem_c_api.Context.{clear_error}
use encedo_hem_c_api.Context.Fail.{fail}
use encedo_hem_c_api.Transport.{last_detail}
use encedo_hem_c_api.Json.{json_parse, json_is_object, json_get_string, json_has}
use encedo_hem_c_api.Monad.{State, alloc, attempt, return, ◌>>=◌}
use encedo_hem_c_api.Request.Keeps.{
  Keeps, Keeps-bind, Keeps-return, Keeps-outside, Keeps-fail, Keeps-attempt, Keeps-get_ctx,
  Keeps-if, Keeps-transport_send,
}
use encedo_hem_c_api.Binding.{clear_last_error, dup_str, or_nomem}
use encedo_hem_c_api.Notify.{
  base_of, broker_request, accepted, after_send, over, with_url, notify_send, checked_object,
  parse_object, EventResult, bounded_path,
}
use encedo_hem_c_api.Notify.Event.{
  notify_event_check, answered, with_authreply, event_shape, approved_result, denied_result,
  pending_result,
}
use encedo_hem_c_api.Confirm.{
  Confirm, ConfirmStatus, pending, approved, finish, after_check, refuse, ask, confirm_poll,
}

module _ ⦃E : Env⦄ where
  Keeps-alloc : Keeps alloc
  Keeps-alloc = Keeps-outside E.alloc

  Keeps-or_nomem : {A : Type 0} (b : Bool) (a : A) → Keeps (or_nomem b a)
  Keeps-or_nomem true a = Keeps-return a
  Keeps-or_nomem false a = Keeps-fail nomem 0 none _

  Keeps-dup_str : (s : Bytes) → Keeps (dup_str s)
  unfolding dup_str
  Keeps-dup_str s = Keeps-bind Keeps-alloc λ room. Keeps-or_nomem room s

  Keeps-clear : Keeps clear_last_error
  unfolding clear_error
  Keeps-clear = record { kept = λ s. refl }

  Keeps-after_send : (t : ℕ) (url : Bytes) (r : Result Response) → Keeps (after_send t url r)
  unfolding after_send accepted
  Keeps-after_send t url (ok resp) =
      Keeps-if (ltb resp.status 200 || leb 300 resp.status)
        (Keeps-fail (map_http_status resp.status) resp.status resp.body _)
        (Keeps-return (resp.status, resp.body))
  Keeps-after_send t url (err rc) = record {
    kept = λ s.
        (Keeps-fail {A = ℕ × Option Bytes} rc 0 none
            (url ++ codes ": " ++ last_detail (some t) s)).kept
          s;
  }

  Keeps-with_url :
      (t : ℕ) (method : HttpMethod) (base subpath : Bytes) (body : Option Bytes)
      → Keeps (with_url t method base subpath body)
  Keeps-with_url t method [] subpath body = Keeps-fail arg 0 none _
  Keeps-with_url t method (c ∷ cs) subpath body = Keeps-bind Keeps-alloc λ room.
      Keeps-if room
        (Keeps-bind Keeps-get_ctx λ ctx.
          Keeps-bind
            (Keeps-attempt (
              Keeps-transport_send (some t) (broker_request ctx method ((c ∷ cs) ++ subpath) body)))
            λ r. Keeps-after_send t ((c ∷ cs) ++ subpath) r)
        (Keeps-fail nomem 0 none (codes "out of memory"))

  Keeps-over :
      (t : Option ℕ) (method : HttpMethod) (notify_url : Option Bytes) (subpath : Bytes)
      (body : Option Bytes)
      → Keeps (over t method notify_url subpath body)
  Keeps-over none method notify_url subpath body = Keeps-fail arg 0 none _
  Keeps-over (some t) method notify_url subpath body =
      Keeps-with_url t method (base_of notify_url) subpath body

  Keeps-notify_send :
      (method : HttpMethod) (notify_url : Option Bytes) (subpath : Bytes) (body : Option Bytes)
      → Keeps (notify_send method notify_url subpath body)
  unfolding notify_send
  Keeps-notify_send method notify_url subpath body =
      Keeps-bind Keeps-get_ctx λ ctx. Keeps-over ctx.transport method notify_url subpath body

  Keeps-parse_object :
      (status : ℕ) (body message : Bytes) → Keeps (parse_object status body message)
  unfolding json_parse
  Keeps-parse_object status body message =
      Keeps-bind (Keeps-outside (E.parse_with_length (c_string body))) judged
    where
      judged : (root : Option E.Node) → Keeps (checked_object status body message root)
      judged none = Keeps-fail protocol status (some body) message
      judged (some root) =
          Keeps-if (json_is_object (some root)) (Keeps-return root)
            (Keeps-fail protocol status (some body) message)

  Keeps-answered : (status : ℕ) (body : Option Bytes) → Keeps (answered status body)
  Keeps-answered status none = Keeps-fail protocol status none _
  Keeps-answered status (some body) =
      Keeps-bind (Keeps-parse_object status body event_shape) λ root.
        Keeps-if (json_has (some root) (some (codes "deny"))) (Keeps-return denied_result)
          (replied (json_get_string (some root) (some (codes "authreply"))))
    where
      replied : (reply : Option Bytes) → Keeps (with_authreply status body reply)
      replied none = Keeps-fail protocol status (some body) _
      replied (some s) = Keeps-bind (Keeps-dup_str s) λ reply. Keeps-return (approved_result reply)

  pub Keeps-notify_event_check :
      (notify_url : Option Bytes) (eventid : Bytes) → Keeps (notify_event_check notify_url eventid)
  unfolding notify_event_check
  Keeps-notify_event_check notify_url eventid = Keeps-bind Keeps-clear λ u.
      Keeps-bind bounded λ subpath.
        Keeps-bind (Keeps-notify_send get notify_url subpath none) λ reply.
          Keeps-bind Keeps-alloc λ room. Keeps-bind (Keeps-or_nomem room tt) λ v.
            Keeps-if (reply.0 == 202) (Keeps-return pending_result) (Keeps-answered reply.0 reply.1)
    where
      bounded : Keeps (
          bounded_path
            (codes "/event/check/")
            eventid
            (codes "notify/event/check: eventid too long"))
      bounded =
          Keeps-if (leb 160 (length (codes "/event/check/" ++ eventid))) (Keeps-fail arg 0 none _)
            (Keeps-return (codes "/event/check/" ++ eventid))

  -- The answer of the broker that is an approval.
  abbrev pub IsApproval : Result EventResult → Type 0
  IsApproval (err rc) = ⊥
  IsApproval (ok r) = (r.pending ≡ false) × (r.denied ≡ false)

  -- A poll that ends, with its handle, and with no approval.
  abbrev pub IsUnapproved : Result (Confirm × Result ConfirmStatus) → Type 0
  IsUnapproved (err rc) = ⊥
  IsUnapproved (ok (h, err rc)) = Unit {0}
  IsUnapproved (ok (h, ok pending)) = Unit {0}
  IsUnapproved (ok (h, ok approved)) = ⊥

  abbrev IsLeftAlone :
      State E.World → Result (Confirm × Result ConfirmStatus) × State E.World → Type 0
  IsLeftAlone s (r, s') = IsUnapproved r × (s'.ctx.auth ≡ s.ctx.auth)

  failed-IsLeftAlone :
      (h : Confirm) (rc : Rc) (message : Bytes) (s : State E.World)
      → IsLeftAlone s
          ((do r ← attempt (fail {A = ConfirmStatus} rc 0 none message); return (h, r)) s)
  unfolding fail
  failed-IsLeftAlone h rc message s = (tt, refl)

  after_check-IsLeftAlone :
      (h : Confirm) (r : Result EventResult) (s : State E.World)
      → (IsApproval r → ⊥)
      → IsLeftAlone s (after_check h r s)
  after_check-IsLeftAlone h (err rc) s no_approval = (tt, refl)
  after_check-IsLeftAlone h (ok r) s no_approval = split r.pending r.denied refl refl
    where
      split : (p d : Bool) → r.pending ≡ p → r.denied ≡ d → IsLeftAlone s (after_check h (ok r) s)
      split true d e f = rw e (tt, refl)
      split false true e f = rw (e, f) (failed-IsLeftAlone (finish h) user_rejected _ s)
      split false false e f = absurd (no_approval (e, f))

  -- Only an approval lets a poll touch the session. A poll of a handle that is finished, and one
  -- whose question to the broker fails or is answered by a pending or a denied event, does not end
  -- in an approval, and leaves the session and its whole token cache as they are.
  pub confirm_poll-IsUnapproved :
      (h : Confirm) (s : State E.World)
      → (h.terminal ≡ false → IsApproval (notify_event_check h.notify_url h.eventid s).0 → ⊥)
      → IsUnapproved (confirm_poll h s).0 × ((confirm_poll h s).1.ctx.auth ≡ s.ctx.auth)
  unfolding confirm_poll
  confirm_poll-IsUnapproved h s no_approval = decide h.terminal refl
    where
      checked : Result EventResult × State E.World
      checked = notify_event_check h.notify_url h.eventid s

      decide : (b : Bool) → h.terminal ≡ b → IsLeftAlone s ((if b then refuse h else ask h) s)
      decide true e = failed-IsLeftAlone h arg _ s
      decide false e =
          let alone = after_check-IsLeftAlone h checked.0 checked.1 (no_approval e) in
          (alone.0, alone.1 ∙ (Keeps-notify_event_check h.notify_url h.eventid).kept s)
