-- ===== src/Tcp/Connections.antt =====
-- internal/transport/tcp/tcp.go: the life of a connection, from `acceptLoop` or `handleOutbound` to
-- `removePeer`, as it goes where no other goroutine calls the transport in the meantime. What the network
-- does is an argument.
use go_sim_chain.Prelude.{
  ℕ, leb, text_eq, [], ◌∷◌, Option, none, some, Bool, true, false, not, if◌then◌else◌, Text,
}
use go_sim_chain.Tcp.Limits.{
  Transport, PeerConn, track_ip, untrack_ip, add_peer, outbound_count, max_outbound,
}
use go_sim_chain.Tcp.Addresses.{
  Net, observe_addr, clear_dial_in_flight, backoff_addr_dial, mark_dial_in_flight,
  addr_dial_allowed,
}
use go_sim_chain.Map.{Map}

-- An accepted connection: the host part of its remote address, or none where that has no such form;
-- whether it is a loopback connection; and the peer, where the handshake succeeds.
pub record Accepted : Type 0 where
  pub host : Option Text
  pub loopback : Bool
  pub handshake : Option PeerConn

-- A connection that was dialed.
pub record Dialed : Type 0 where
  pub loopback : Bool
  pub handshake : Option PeerConn

module _ (N : Net) (now jitter : ℕ) where
  -- `handleInbound` up to its read loop, which it enters where the flag is true.
  unfoldable pub handle_inbound : Transport → Text → Option PeerConn → Transport × Bool
  handle_inbound t host none = (untrack_ip t host, false)
  handle_inbound t host (some pc) =
      let (t', added) = add_peer t pc in
      if added then (observe_addr N t' pc.listen_addr now, true) else (untrack_ip t' host, false)

  -- The body of `acceptLoop`. Where the address cannot be split, `host` is empty.
  unfoldable pub accept : Transport → Accepted → Transport × Bool
  unfolding handle_inbound
  accept t a = elim a.host [
    | none ↦ if not a.loopback then (untrack_ip t [], false) else handle_inbound t [] a.handshake
    | some host ↦
        let (t', tracked) = track_ip t host in
        if not tracked
        then (t', false)
        else if not a.loopback
        then (untrack_ip t' host, false)
        else handle_inbound t' host a.handshake
  ]

  -- `handleOutbound` past `trackIP`. `host` is the host part of the address that is dialed.
  unfoldable pub finish_dial : Transport → Text → Text → Option Dialed → Transport × Bool
  finish_dial t addr host none =
      (backoff_addr_dial (untrack_ip t host) addr false jitter now, false)
  finish_dial t addr host (some d) =
      if not d.loopback
      then (backoff_addr_dial (untrack_ip t host) addr true jitter now, false)
      else elim d.handshake [
        | none ↦ (backoff_addr_dial (untrack_ip t host) addr false jitter now, false)
        | some pc ↦
            let (t', added) = add_peer t pc in
            if added
            then (observe_addr N t' pc.listen_addr now, true)
            else (backoff_addr_dial (untrack_ip t' host) addr true jitter now, false)
      ]

  -- `handleOutbound` up to its read loop, which it enters where the flag is true. The dial stays in
  -- flight until the loop ends.
  unfoldable pub handle_outbound : Transport → Text → Text → Option Dialed → Transport × Bool
  unfolding finish_dial
  handle_outbound t addr host d =
      let (t', tracked) = track_ip t host in
      let (t'', connected) = finish_dial t' addr host d in
      if not tracked
      then (clear_dial_in_flight t' addr, false)
      else if connected
      then (t'', true)
      else (clear_dial_in_flight t'' addr, false)

-- The loop of `isConnectedToAddr`.
unfoldable pub listens_at : Text → Map Text PeerConn → Bool
listens_at addr [] = false
listens_at addr ((_, pc) ∷ ps) = if text_eq pc.listen_addr addr then true else listens_at addr ps

unfoldable pub is_connected_to_addr : Transport → Text → Bool
unfolding listens_at
is_connected_to_addr t addr = listens_at addr t.peers

-- The body of the loop of `maybeDialMore`, with the dial that it starts.
unfoldable pub try_dial : Net → ℕ → ℕ → Transport → Text → Text → Option Dialed → Transport
try_dial N now jitter t addr host d =
    let (t', marked) = mark_dial_in_flight t addr in
    if leb (max_outbound t.cfg) (outbound_count t)
    then t
    else if not marked
    then t'
    else if is_connected_to_addr t' addr
    then clear_dial_in_flight t' addr
    else if not (addr_dial_allowed t' addr now)
    then clear_dial_in_flight t' addr
    else (handle_outbound N now jitter t' addr host d).0
