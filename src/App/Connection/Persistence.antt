-- ===== src/App/Connection/Persistence.antt =====
-- What goes over one connection.
use garcon.Prelude.{◌≡◌, Bool, true, List, [], ◌∷◌, All, Result}
use garcon.Prelude.Expected.{Expected}
use garcon.Text.{Bytes}
use garcon.Http.Request.{Request}
use garcon.Http.Response.{Response, keep_alive}
use garcon.App.Connection.{
  Transport, Sent, Round, returns, throws, undefined_round, unfinished, goes_on, Served, sent_ok,
}
use garcon.App.Connection.Handed.{IsSent, ClosesLast, Delivered, Sends}

module _ {S : Type 0} (out : S → Bytes) (transport : Transport S) (sends : Sends out transport)
    (handler : Request → Result Response) (https_enabled : Bool) where
  abbrev Clean : List Sent → Type 0
  Clean sent = All (IsSent handler https_enabled) sent

  -- What a round that began with `a` gone out may come to.
  abbrev IsRound : Bytes → Round S → Type 0
  IsRound a (returns s sent) = ClosesLast sent × Clean sent × Delivered a sent (out s)
  IsRound a (throws s message) = out s ≡ a
  IsRound a (undefined_round s) = out s ≡ a
  IsRound a (unfinished s) = out s ≡ a
  IsRound a (goes_on s sent) =
      (sent.policy ≡ keep_alive)
      × (sent_ok sent.status ≡ true)
      × IsSent handler https_enabled sent
      × Delivered a (sent ∷ []) (out s)

  abbrev pub IsServed : Bytes → Served S → Type 0
  IsServed a served =
      ClosesLast served.sent
      × All (IsSent handler https_enabled) served.sent
      × Delivered a served.sent (out served.stream)
