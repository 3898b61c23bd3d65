-- ===== src/Net/Listener/Tests.antt =====
-- Opening a listener, and one interruption before a client.
use garcon.Prelude.{ℕ, zero, suc, ◌≡◌, refl, true, some, [], ok, throw, ◌==◌}
use garcon.Prelude.Expected.{expected}
use garcon.Prelude.Integers.{pos}
use garcon.Text.{bytes}
use garcon.Net.Calls.{eintr, is_eintr}
use garcon.Net.Listener.{
  Opening, make_listener, Accepted, connected, not_connected, accept, accept_round,
  format_client_address,
}
use garcon.Net.Socket.{is_valid}

abbrev port_taken : Opening
port_taken = record {
  socket = pos 3;
  reuse_address = true;
  inet_pton = λ text. some 0;
  bind = λ address port. port == 8080;
  listen = true;
}

opened : make_listener port_taken [] 8080 ≡ ok (record { fd = pos 3; peer_address = [] })
unfolding make_listener is_valid
opened = refl

not_bound : make_listener port_taken [] 80 ≡ throw "bind() failed"
unfolding make_listener is_valid
not_bound = refl

abbrev one_client : ℕ → ℕ × Accepted
one_client zero = (0, connected 5 7)
one_client (suc i) = (i, not_connected eintr)

accepted :
    accept one_client (λ client. some (bytes "::1")) 2 1
    ≡ (0, some (expected (record { fd = pos 5; peer_address = bytes "::1" })))
unfolding accept accept_round format_client_address is_eintr
accepted = refl
