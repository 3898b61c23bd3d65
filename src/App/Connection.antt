-- ===== src/App/Connection.antt =====
-- connection_handler.cpp: the requests of one connection, one after the other. The stream, with its
-- timeouts, and the handler of requests are parameters.
pub mod Handed
pub mod Persistence
pub mod Ending
mod Tests
use Prim.Native.String.{String}
use garcon.Prelude.{
  ℕ, zero, suc, Bool, true, false, ◌&&◌, ◌||◌, not, Option, none, some, List, [], ◌∷◌, ◌++◌,
  is_empty, Result, ok, throw, undefined, ◌>>=◌, if◌then◌else◌,
}
use garcon.Prelude.Expected.{Expected, expected, unexpected}
use garcon.Text.{Bytes, bytes}
use garcon.Http.Header.{HeaderField, find_header}
use garcon.Http.Request.{Request, RequestParseError, parse, keep_alive_requested}
use garcon.Http.Response.{
  Response, ConnectionPolicy, close, keep_alive, text, set_header, serialize,
}
use garcon.Http.Framing.{
  Buffer, empty_buffer, as_string_view, IoStatus, io_ok, io_closed, io_timeout, io_error,
  ReadResult, HeaderReadError, closed, timeout, too_large, failed, Reading, read_header_block,
}

-- What is asked of a stream of type `S`.
pub record Transport (S : Type 0) : Type 0 where
  pub set_receive_timeout : S → Bool → S × Bool
  pub recv_some : S → ℕ → S × ReadResult
  pub send_all : S → Bytes → S × IoStatus

-- A response whose serialisation was handed to the stream: for which request, with which policy, and
-- what `send_all` returned.
pub record Sent : Type 0 where
  pub request : Option Request
  pub response : Response
  pub policy : ConnectionPolicy
  pub status : IoStatus

-- How one round of the loop ends, with the stream and what was handed to it: `handle_connection`
-- returns, it catches an exception, or it goes on. In `unfinished` the fuel of `read_header_block` in
-- the model ran out.
pub data Round (S : Type 0) : Type 0 where
  returns : S → List Sent → Round S
  throws : S → String → Round S
  undefined_round : S → Round S
  unfinished : S → Round S
  goes_on : S → Sent → Round S

-- A run of the loop: the stream at its end, what was handed to it, in order, and whether it ended.
pub record Served (S : Type 0) : Type 0 where
  pub stream : S
  pub sent : List Sent
  pub ended : Bool

abbrev pub sent_ok : IoStatus → Bool
sent_ok io_ok = true
sent_ok io_closed = true
sent_ok io_timeout = false
sent_ok io_error = false

abbrev pub policy_of : Bool → ConnectionPolicy
policy_of true = keep_alive
policy_of false = close

-- `config.h`
abbrev pub max_request_header_bytes : ℕ
max_request_header_bytes = 65536

abbrev pub persists : ConnectionPolicy → Bool
persists keep_alive = true
persists close = false

abbrev pub request_timeout : Response
request_timeout = text 408 (bytes "Request Timeout") (bytes "request timeout\n")

abbrev pub header_too_large : Response
header_too_large =
    text 431 (bytes "Request Header Fields Too Large") (bytes "request header too large\n")

abbrev pub bad_request : Response
bad_request = text 400 (bytes "Bad Request") (bytes "bad request\n")

abbrev hsts_missing : Option HeaderField → Bool
hsts_missing none = true
hsts_missing (some h) = false

-- The Strict-Transport-Security field of an HTTPS server, where the response has none.
pub with_hsts : Bool → Response → Result Response
with_hsts https_enabled response =
    if https_enabled
      && hsts_missing (find_header response.headers (bytes "Strict-Transport-Security"))
    then set_header response (bytes "Strict-Transport-Security") (bytes "max-age=31536000")
    else ok response

module _ {S : Type 0} (transport : Transport S) (handler : Request → Result Response)
    (https_enabled : Bool) where
  -- Behind `send_response` without a request.
  after_error : Response → S × IoStatus → Round S
  after_error response (s, status) =
      returns s
        (record { request = none; response = response; policy = close; status = status } ∷ [])

  send_error : S → Response → Round S
  send_error s response = after_error response (transport.send_all s (serialize response close))

  -- Behind `send_response` to a request.
  after_send : Request → Response → ConnectionPolicy → S × IoStatus → Round S
  after_send request response policy (s, status) =
      let sent : Sent = record {
        request = some request;
        response = response;
        policy = policy;
        status = status;
      } in
      if sent_ok status && persists policy then goes_on s sent else returns s (sent ∷ [])

  -- From the handler's response on.
  respond_to : Request → S → Response → Round S
  respond_to request s response =
      let policy = policy_of (keep_alive_requested request) in
      after_send request response policy (transport.send_all s (serialize response policy))

  to_round : Request → S → Result Response → Round S
  to_round request s (ok response) = respond_to request s response
  to_round request s (throw message) = throws s message
  to_round request s undefined = undefined_round s

  parsed_round : S → Expected RequestParseError Request → Round S
  parsed_round s (unexpected e) = send_error s bad_request
  parsed_round s (expected request) =
      to_round request s (handler request >>= λ response. with_hsts https_enabled response)

  header_round : Bool → Reading S → Option (Expected HeaderReadError Bytes) → Round S
  header_round first_request r (some (expected block)) = parsed_round r.stream (parse block)
  header_round first_request r (some (unexpected timeout)) =
      if not first_request && is_empty (as_string_view r.buffer)
      then returns r.stream []
      else send_error r.stream request_timeout
  header_round first_request r (some (unexpected too_large)) = send_error r.stream header_too_large
  header_round first_request r (some (unexpected closed)) = returns r.stream []
  header_round first_request r (some (unexpected failed)) = returns r.stream []
  header_round first_request r none = unfinished r.stream

  timed_round : Bool → S × Bool → Round S
  timed_round first_request (s, false) = returns s []
  timed_round first_request (s, true) =
      let r =
        read_header_block transport.recv_some (suc max_request_header_bytes)
          max_request_header_bytes s empty_buffer in
      header_round first_request r r.result

  -- One round of the loop.
  pub round : Bool → S → Round S
  round first_request s = timed_round first_request (transport.set_receive_timeout s first_request)

  -- The loop, on fuel.
  again : (S → Served S) → Round S → Served S
  again rest (returns s sent) = record { stream = s; sent = sent; ended = true }
  again rest (throws s message) = record { stream = s; sent = []; ended = true }
  again rest (undefined_round s) = record { stream = s; sent = []; ended = true }
  again rest (unfinished s) = record { stream = s; sent = []; ended = false }
  again rest (goes_on s sent) = let later = rest s in record later { sent = sent ∷ later.sent }

  pub serve : ℕ → Bool → S → Served S
  serve zero first_request s = record { stream = s; sent = []; ended = false }
  serve (suc fuel) first_request s = again (serve fuel false) (round first_request s)
