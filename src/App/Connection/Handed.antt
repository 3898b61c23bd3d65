-- ===== src/App/Connection/Handed.antt =====
-- What is handed to the stream of a connection.
use garcon.Prelude.{
  ℕ, ◌≡◌, ◌++◌, refl, sym, Bool, Bool-cases, inl, inr, true, ◌&&◌, none, some, Option-cases, List,
  [], ◌∷◌, Result, ok, subst,
}
use garcon.Text.{Bytes, bytes}
use garcon.Http.Header.{find_header, header_value}
use garcon.Http.Request.{Request, keep_alive_requested}
use garcon.Http.Response.{Response, close, keep_alive, serialize}
use garcon.Http.Response.Fields.{set_header_returned}
use garcon.Http.Framing.{io_ok}
use garcon.App.Connection.{Transport, Sent, sent_ok, policy_of, with_hsts, hsts_missing}

abbrev pub hsts : Bytes
hsts = bytes "Strict-Transport-Security"

-- A response without a request closes the connection. One to a request keeps it open exactly where
-- the request asks for that; it is the handler's response to this request but for the fields, and
-- over HTTPS it has a Strict-Transport-Security field.
pub record IsSent (handler : Request → Result Response) (https_enabled : Bool) (sent : Sent)
    : Type 0 where
  pub unrequested : sent.request ≡ none → sent.policy ≡ close
  pub requested :
      (request : Request)
      → sent.request ≡ some request
      → (sent.policy ≡ policy_of (keep_alive_requested request))
        × ((r : Response) × (handler request ≡ ok r)
            × (record sent.response { headers = r.headers } ≡ r))
        × (https_enabled ≡ true
            → (value : Bytes) × (header_value sent.response.headers hsts ≡ some value))

-- Only behind the last response may the connection close or `send_all` have returned a time-out or an
-- error.
abbrev pub ClosesLast : List Sent → Type 0
ClosesLast [] = Unit
ClosesLast (sent ∷ []) = Unit
ClosesLast (sent ∷ next ∷ later) =
    (sent.policy ≡ keep_alive) × (sent_ok sent.status ≡ true) × ClosesLast (next ∷ later)

-- The bytes that went out between `a` and `b`: of the serialisation of each response a part from its
-- start on, and all of it where `send_all` said so.
abbrev pub Delivered : Bytes → List Sent → Bytes → Type 0
Delivered a [] b = b ≡ a
Delivered a (sent ∷ later) b =
    (delivered : Bytes) × (left : Bytes) × (serialize sent.response sent.policy ≡ delivered ++ left)
    × (sent.status ≡ io_ok → left ≡ [])
    × Delivered (a ++ delivered) later b

-- What a stream promises, where `out` is what has gone out: `send_all` sends a part of the bytes from
-- their start on, and all of them where it returns `ok`; the other calls send nothing.
pub record Sends {S : Type 0} (out : S → Bytes) (transport : Transport S) : Type 0 where
  pub set_keeps : (s : S) (idle : Bool) → out (transport.set_receive_timeout s idle).0 ≡ out s
  pub recv_keeps : (s : S) (n : ℕ) → out (transport.recv_some s n).0 ≡ out s
  pub hands :
      (s : S) (wire : Bytes)
      → (delivered : Bytes) × (left : Bytes) × (wire ≡ delivered ++ left)
        × ((transport.send_all s wire).1 ≡ io_ok → left ≡ [])
        × (out (transport.send_all s wire).0 ≡ out s ++ delivered)

pub ClosesLast-cons :
    (sent : Sent) (later : List Sent)
    → sent.policy ≡ keep_alive
    → sent_ok sent.status ≡ true
    → ClosesLast later
    → ClosesLast (sent ∷ later)
ClosesLast-cons sent [] e k c = tt
ClosesLast-cons sent (next ∷ later) e k c = (e, k, c)

pub with_hsts-field :
    (response response' : Response)
    → with_hsts true response ≡ ok response'
    → (value : Bytes) × (header_value response'.headers hsts ≡ some value)
unfolding with_hsts
with_hsts-field response response' h = elim (Option-cases (find_header response.headers hsts)) [
  | inl e ↦ (
    bytes "max-age=31536000",
    (set_header_returned response hsts (bytes "max-age=31536000") response' (rw e at h)).value_set,
  )
  | inr (field, e) ↦
      let k : ok response ≡ ok response' = rw e at h in
      let g : response ≡ response' = cc in
      (field.value, unfold header_value in rw (sym g) (rw e refl))
]

pub with_hsts-rest :
    (https_enabled : Bool) (response response' : Response)
    → with_hsts https_enabled response ≡ ok response'
    → record response' { headers = response.headers } ≡ response
unfolding with_hsts
with_hsts-rest https_enabled response response' h =
    elim (Bool-cases (https_enabled && hsts_missing (find_header response.headers hsts))) [
      | inl e ↦
          (set_header_returned response hsts (bytes "max-age=31536000") response'
            (rw e at h)).rest_kept
      | inr e ↦
          let k : ok response ≡ ok response' = rw e at h in
          let g : response ≡ response' = cc in
          subst (λ r. record r { headers = response.headers } ≡ response) g refl
    ]
