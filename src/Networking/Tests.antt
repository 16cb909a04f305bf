-- ===== src/Networking/Tests.antt =====
-- A connection that is made, and that its peer closes.
use portal_framework.Base.{◌≡◌, refl, true, some, [], ◌∷◌, ok, err, Error}
use portal_framework.Base.Maps.{lookup}
use portal_framework.Networking.{
  Network, new_network, set_object, connect, disconnect, on_disconnect, close_connection,
  add_connection, failure, poll_incoming_messages, initial,
}
use portal_framework.Networking.History.{Reach, start, step, connects, Reach-known, Reach-closed}

-- Connection 4 under the handle 7.
abbrev running : Network
running = record {
  objects =
      set_object 4 (record { state = initial; connection = 7; running = true }) new_network.objects;
  connections = (7, 4) ∷ [];
  log = [];
}

connect-running : connect 7 4 new_network ≡ ok running
unfolding connect add_connection
connect-running = refl

running-Reach : Reach running
running-Reach = step start (connects 7 4 refl connect-running)

Reach-known_example : lookup 7 running.connections ≡ some 4
Reach-known_example = (Reach-known 4 running-Reach).0 refl

Reach-closed_example :
    (disconnect 4 (Reach-closed 4 running-Reach refl).0).log
    ≡ close_connection 0 ∷ on_disconnect 4 ∷ close_connection 7 ∷ on_disconnect 4 ∷ []
Reach-closed_example = (Reach-closed 4 running-Reach refl).1.1.1.1

-- A failure to receive is followed by a call through the null pointer.
poll_incoming_messages-failure :
    poll_incoming_messages 4 failure running ≡ err Error.undefined_access
unfolding poll_incoming_messages
poll_incoming_messages-failure = refl
