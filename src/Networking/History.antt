-- ===== src/Networking/History.antt =====
-- Histories of connections: what the manager knows in every one, and what a connection that its peer
-- closes goes through.
use portal_framework.Base.{
  ℕ, ◌≡◌, ◌≢◌, sym, subst, ◌∙◌, true, false, Option, none, some, ◌∷◌, ok, ◌==◌, arith,
}
use portal_framework.Base.Maps.{lookup, lookup-erase}
use portal_framework.Networking.{
  ConnectionState, closed_by_peer, Network, new_network, connect, disconnect, on_status_changed,
  dispatch, on_status_changed_callback, Received, nothing, failure, message, poll_incoming_messages,
  on_disconnect, close_connection,
}
use portal_framework.Networking.Tracking.{
  IsTracked, new_network-IsTracked, connect-IsTracked, disconnect-IsTracked,
  on_status_changed-IsTracked, ok-IsTracked,
}

-- The sockets give handles that are not in use, or 0; they report states, and messages that are there.
pub data Step : Network → Network → Type 0 where
  connects :
      {w w' : Network} (h i : ℕ) → lookup h w.connections ≡ none → connect h i w ≡ ok w' → Step w w'
  disconnects : {w : Network} (i : ℕ) → Step w (disconnect i w)
  changes :
      {w w' : Network} (h : ℕ) (s : ConnectionState)
      → on_status_changed_callback h s w ≡ ok w'
      → Step w w'
  receives :
      {w w' : Network} (i : ℕ) (r : Received) → poll_incoming_messages i r w ≡ ok w' → Step w w'

pub data Reach : Network → Type 0 where
  start : Reach new_network
  step : {w w' : Network} → Reach w → Step w w' → Reach w'

dispatch-IsTracked :
    (h : ℕ) (s : ConnectionState) (w w' : Network)
    → on_status_changed_callback h s w ≡ ok w'
    → IsTracked w
    → IsTracked w'
unfolding on_status_changed_callback
dispatch-IsTracked h s w w' e t = known (lookup h w.connections) e
  where
    known : (found : Option ℕ) → dispatch found s w ≡ ok w' → IsTracked w'
    known none e' = cc
    known (some i) e' = ok-IsTracked e' (on_status_changed-IsTracked i s w t)

receive-IsTracked :
    (i : ℕ) (r : Received) (w w' : Network)
    → poll_incoming_messages i r w ≡ ok w'
    → IsTracked w
    → IsTracked w'
unfolding poll_incoming_messages
receive-IsTracked i nothing w w' e t = ok-IsTracked e t
receive-IsTracked i failure w w' e t = cc
receive-IsTracked i (message b) w w' e t =
    ok-IsTracked e (record { runs = t.runs; listed = t.listed; named = t.named; valid = t.valid })

Step-IsTracked : {w w' : Network} → Step w w' → IsTracked w → IsTracked w'
Step-IsTracked (connects h i new e) t = connect-IsTracked h i _ _ new e t
Step-IsTracked (disconnects i) t = disconnect-IsTracked i _ t
Step-IsTracked (changes h s e) t = dispatch-IsTracked h s _ _ e t
Step-IsTracked (receives i r e) t = receive-IsTracked i r _ _ e t

Reach-IsTracked : {w : Network} → Reach w → IsTracked w
Reach-IsTracked start = new_network-IsTracked
Reach-IsTracked (step reach s) = Step-IsTracked s (Reach-IsTracked reach)

running-held :
    (w : Network) (i : ℕ)
    → IsTracked w
    → (w.objects i).running ≡ true
    → (w.objects i).connection ≢ 0
running-held w i t e zero_handle = let run = t.runs i in ground arith

-- In every history, the manager knows each connection that runs under its handle, and what it knows
-- under a handle is a connection that runs and has this handle. The sockets give handles that are not
-- in use.
pub Reach-known :
    {w : Network} (i : ℕ)
    → Reach w
    → ((w.objects i).running ≡ true → lookup (w.objects i).connection w.connections ≡ some i)
      × ((h : ℕ)
          → lookup h w.connections ≡ some i
          → ((w.objects i).running ≡ true) × ((w.objects i).connection ≡ h))
Reach-known {w = w} i reach =
    let t = Reach-IsTracked reach in
    (
      λ runs. t.listed i (running-held w i t runs),
      λ h e.
          let own : (w.objects i).connection ≡ h = t.named h i e in
          let held : (w.objects i).connection ≢ 0 = λ zero_handle.
            t.valid i (subst (λ k. lookup k w.connections ≡ some i) (sym own ∙ zero_handle) e) in
          (let run = t.runs i in ground arith, own),
    )

-- When the peer closes a connection that runs, the callback of the sockets finds it, ends it and
-- takes it out of the manager; the disconnection that follows, as in the destructor, runs the
-- callbacks for the end a second time, and closes the handle 0.
pub Reach-closed :
    {w : Network} (i : ℕ)
    → Reach w
    → (w.objects i).running ≡ true
    → (w' : Network) × ((on_status_changed_callback (w.objects i).connection closed_by_peer w
          ≡ ok w')
        × (((w'.objects i).running ≡ false)
            × ((lookup (w.objects i).connection w'.connections ≡ none)
                × ((disconnect i w').log
                    ≡ close_connection 0
                      ∷ on_disconnect i
                      ∷ close_connection (w.objects i).connection
                      ∷ on_disconnect i
                      ∷ w.log))))
unfolding on_status_changed_callback on_status_changed disconnect
Reach-closed {w = w} i reach runs =
    let c : ℕ = (w.objects i).connection in
    let known : lookup c w.connections ≡ some i = (Reach-known i reach).0 runs in
    let self : (i == i) ≡ true = ground arith in
    let same : (c == c) ≡ true = ground arith in
    (
      on_status_changed i closed_by_peer w,
      (rw known, (rw self, (rw self (lookup-erase c c w.connections ∙ rw same), rw self))),
    )
