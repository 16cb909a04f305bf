-- ===== src/Networking.antt =====
-- networking/portal/networking/connection.cpp and connection_manager.cpp: the life of connections. The
-- sockets are a library: the handles they give and the states they report are arguments. The
-- callbacks of users are events of a log, and do not call the connection; the polling thread and its
-- join, addresses, and the sending of data are left out.
pub mod Objects
pub mod Tracking
pub mod History
mod Tests
use portal_framework.Base.{
  ℕ, Bool, true, false, Option, none, some, List, [], ◌∷◌, Result, ok, err, Error, ◌==◌,
  if◌then◌else◌, ◌>>=◌,
}
use portal_framework.Base.Maps.{lookup, insert, erase, contains}

pub data ConnectionState : Type 0 where
  initial connecting finding_route connected closed_by_peer : ConnectionState
  problem_detected_locally : ConnectionState

-- `connection` is the handle, 0 for `k_HSteamNetConnection_Invalid`.
pub record Connection : Type 0 where
  pub state : ConnectionState
  pub connection : ℕ
  pub running : Bool

-- The callbacks of a connection, and the handles that are closed.
pub data Event : Type 0 where
  on_connect on_disconnect : ℕ → Event
  on_data_received : ℕ → List ℕ → Event
  close_connection : ℕ → Event

-- All connections, the map of the manager from handles to connections, and the log, newest first.
pub record Network : Type 0 where
  pub objects : ℕ → Connection
  pub connections : List (ℕ × ℕ)
  pub log : List Event

abbrev pub new_connection : Connection
new_connection = record { state = initial; connection = 0; running = false }

abbrev pub new_network : Network
new_network = record { objects = λ i. new_connection; connections = []; log = [] }

abbrev pub set_object : ℕ → Connection → (ℕ → Connection) → ℕ → Connection
set_object i c objects j = if i == j then c else objects j

-- `ConnectionManager::add_connection`
unfoldable pub add_connection : ℕ → ℕ → Network → Result Network
add_connection h i w =
    if contains h w.connections
    then err Error.runtime_error
    else ok (record w { connections = insert h i w.connections })

-- `connect`, to which the sockets give the handle `h`.
unfoldable pub connect : ℕ → ℕ → Network → Result Network
connect h i w =
    let c : Connection = w.objects i in
    if c.running
    then ok w
    else if h == 0
    then ok (record w {
      objects =
          set_object i (record c { connection = 0; state = problem_detected_locally }) w.objects;
    })
    else add_connection h i (record w {
      objects = set_object i (record c { connection = h; running = true }) w.objects;
    })

-- The end that `disconnect` and `on_connection_error` share.
unfoldable pub disconnect : ℕ → Network → Network
disconnect i w =
    let c : Connection = w.objects i in
    record {
      objects = set_object i (record c { connection = 0; running = false }) w.objects;
      connections = erase c.connection w.connections;
      log = close_connection c.connection ∷ on_disconnect i ∷ w.log;
    }

abbrev pub set_state : ℕ → ConnectionState → Network → Network
set_state i s w = record w { objects = set_object i (record (w.objects i) { state = s }) w.objects }

unfoldable pub on_status_changed : ℕ → ConnectionState → Network → Network
on_status_changed i initial w = w
on_status_changed i closed_by_peer w = disconnect i (set_state i closed_by_peer w)
on_status_changed i problem_detected_locally w =
    disconnect i (set_state i problem_detected_locally w)
on_status_changed i connecting w = set_state i connecting w
on_status_changed i finding_route w = set_state i finding_route w
on_status_changed i connected w =
    let w' : Network = set_state i connected w in record w' { log = on_connect i ∷ w'.log }

-- `on_status_changed_callback`, for the connection that the manager knows.
abbrev pub dispatch : Option ℕ → ConnectionState → Network → Result Network
dispatch none s w = err Error.assertion_failed
dispatch (some i) s w = ok (on_status_changed i s w)

unfoldable pub on_status_changed_callback : ℕ → ConnectionState → Network → Result Network
on_status_changed_callback h s w = dispatch (lookup h w.connections) s w

-- What `ReceiveMessagesOnConnection` gives: no message, a negative number, or a message.
pub data Received : Type 0 where
  nothing failure : Received
  message : List ℕ → Received

-- After a failure the code goes on, and releases the message through the null pointer.
unfoldable pub poll_incoming_messages : ℕ → Received → Network → Result Network
poll_incoming_messages i nothing w = ok w
poll_incoming_messages i failure w = err Error.undefined_access
poll_incoming_messages i (message b) w = ok (record w { log = on_data_received i b ∷ w.log })
