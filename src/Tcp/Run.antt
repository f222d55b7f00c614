-- ===== src/Tcp/Run.antt =====
-- internal/transport/tcp/tcp.go: a transport over a sequence of connections made, refused and ended.
use go_sim_chain.Prelude.{
  ℕ, refl, List, [], ◌∷◌, Option, none, some, inl, inr, leb, Bool, true, false, not, arith, Text,
  text_instance, Bool-cases, if_either, Option-cases,
}
use go_sim_chain.Map
use go_sim_chain.Tcp.Settings.{Config}
use go_sim_chain.Tcp.Limits.{
  Transport, PeerConn, untrack_ip, track_ip, add_peer, remove_peer, outbound_count, inbound_count,
  count_direction, max_outbound,
}
use go_sim_chain.Tcp.Addresses.{
  Net, observe_addr, clear_dial_in_flight, backoff_addr_dial, mark_dial_in_flight, observe_all,
  addr_dial_allowed,
}
use go_sim_chain.Tcp.Connections.{
  Accepted, Dialed, handle_inbound, accept, finish_dial, handle_outbound, try_dial,
  is_connected_to_addr,
}
use go_sim_chain.Tcp.Release.{observe_addr_fields}
use go_sim_chain.Tcp.Admission.{
  IsLimited, IsLimited-fields, track_ip-IsLimited, untrack_ip-IsLimited, add_peer-IsLimited,
  remove_peer-IsLimited,
}

-- The state that `New` makes.
unfoldable pub new_transport : Config → Transport
new_transport cfg = record {
  cfg = cfg;
  local_id = cfg.identity.node_id;
  peers = [];
  ip_count = [];
  dial_in_flight = [];
  addr_book = [];
}

-- What happens to a transport: a connection is `accepted`; an address, with its host part, is
-- `dialed`; the read loop of a peer ends (`closed`), with the address where the connection was dialed;
-- addresses are `learned`. The numbers are the time and the generator's. The others are the calls that
-- these are made of, each under its lock, as they come where connections are made at the same time.
pub data Event : Type 0 where
  accepted : ℕ → ℕ → Accepted → Event
  dialed : ℕ → ℕ → Text → Text → Option Dialed → Event
  closed : Text → Option Text → Event
  learned : ℕ → List Text → Event
  tracks untracks marks clears leaves : Text → Event
  adds : PeerConn → Event
  observes : ℕ → Text → Event
  backs_off : ℕ → ℕ → Text → Bool → Event

module _ (N : Net) where
  unfoldable pub step : Transport → Event → Transport
  step t (accepted now jitter a) = (accept N now jitter t a).0
  step t (dialed now jitter addr host d) = try_dial N now jitter t addr host d
  step t (closed id none) = remove_peer t id
  step t (closed id (some addr)) = clear_dial_in_flight (remove_peer t id) addr
  step t (learned now addrs) = observe_all N t addrs now
  step t (tracks host) = (track_ip t host).0
  step t (untracks host) = untrack_ip t host
  step t (marks addr) = (mark_dial_in_flight t addr).0
  step t (clears addr) = clear_dial_in_flight t addr
  step t (leaves id) = remove_peer t id
  step t (adds pc) = (add_peer t pc).0
  step t (observes now addr) = observe_addr N t addr now
  step t (backs_off now jitter addr permanent) = backoff_addr_dial t addr permanent jitter now

  unfoldable pub run : Transport → List Event → Transport
  unfolding step
  run t [] = t
  run t (e ∷ es) = run (step t e) es

new_transport-IsLimited : (c : Config) → IsLimited (new_transport c)
unfolding new_transport outbound_count inbound_count count_direction Map.get_or Map.lookup
new_transport-IsLimited c = record {
  total = omega arith;
  outgoing = omega arith;
  incoming = omega arith;
  per_ip = λ h. omega arith;
}

clear_dial_in_flight-IsLimited :
    (t : Transport) (addr : Text) → IsLimited t → IsLimited (clear_dial_in_flight t addr)
unfolding clear_dial_in_flight
clear_dial_in_flight-IsLimited t addr v = IsLimited-fields t _ v refl refl v.per_ip

mark_dial_in_flight-IsLimited :
    (t : Transport) (addr : Text) → IsLimited t → IsLimited (mark_dial_in_flight t addr).0
unfolding mark_dial_in_flight
mark_dial_in_flight-IsLimited t addr v = elim (Bool-cases (Map.has addr t.dial_in_flight)) [
  | inl known ↦ rw known v
  | inr new ↦ rw new (IsLimited-fields t _ v refl refl v.per_ip)
]

module _ (N : Net) (now : ℕ) where
  observe_addr-IsLimited :
      (t : Transport) (a : Text) → IsLimited t → IsLimited (observe_addr N t a now)
  observe_addr-IsLimited t a v =
      let (p, i, c) = observe_addr_fields N t a now in
      IsLimited-fields t _ v c p λ h. rw i (v.per_ip h)

  observe_all-IsLimited :
      (addrs : List Text) (t : Transport) → IsLimited t → IsLimited (observe_all N t addrs now)
  unfolding observe_all
  observe_all-IsLimited [] t v = v
  observe_all-IsLimited (a ∷ addrs) t v =
      observe_all-IsLimited addrs (observe_addr N t a now) (observe_addr-IsLimited t a v)

  module _ (jitter : ℕ) where
    ended-IsLimited :
        (t : Transport) (addr host : Text) (permanent : Bool)
        → IsLimited t
        → IsLimited (backoff_addr_dial (untrack_ip t host) addr permanent jitter now)
    unfolding backoff_addr_dial
    ended-IsLimited t addr host permanent v =
        let w = untrack_ip-IsLimited t host v in
        IsLimited-fields (untrack_ip t host) _ w refl refl w.per_ip

    handle_inbound-IsLimited :
        (t : Transport) (host : Text) (p : Option PeerConn)
        → IsLimited t
        → IsLimited (handle_inbound N now jitter t host p).0
    unfolding handle_inbound
    handle_inbound-IsLimited t host none v = untrack_ip-IsLimited t host v
    handle_inbound-IsLimited t host (some pc) v =
        let w = add_peer-IsLimited t pc v in
        elim (Bool-cases (add_peer t pc).1) [
          | inl added ↦ rw (added, handle_inbound) (observe_addr-IsLimited _ pc.listen_addr w)
          | inr refused ↦ rw (refused, handle_inbound) (untrack_ip-IsLimited _ host w)
        ]

    accept-IsLimited :
        (t : Transport) (a : Accepted) → IsLimited t → IsLimited (accept N now jitter t a).0
    unfolding accept
    accept-IsLimited t a v = elim (Option-cases a.host) [
      | inl unknown ↦ elim (Bool-cases a.loopback) [
        | inl near ↦ rw (unknown, near, accept) (handle_inbound-IsLimited t [] a.handshake v)
        | inr far ↦ rw (unknown, far, accept) (untrack_ip-IsLimited t [] v)
      ]
      | inr (host, known) ↦
          let w = track_ip-IsLimited t host v in
          elim (Bool-cases (track_ip t host).1) [
            | inr full ↦ rw (known, full, accept) w
            | inl tracked ↦ elim (Bool-cases a.loopback) [
              | inl near ↦
                  rw (known, tracked, near, accept) (handle_inbound-IsLimited _ host a.handshake w)
              | inr far ↦ rw (known, tracked, far, accept) (untrack_ip-IsLimited _ host w)
            ]
          ]
    ]

    finish_dial-IsLimited :
        (t : Transport) (addr host : Text) (d : Option Dialed)
        → IsLimited t
        → IsLimited (finish_dial N now jitter t addr host d).0
    unfolding finish_dial
    finish_dial-IsLimited t addr host none v = ended-IsLimited t addr host false v
    finish_dial-IsLimited t addr host (some d) v = elim (Bool-cases d.loopback) [
      | inr far ↦ rw (far, finish_dial) (ended-IsLimited t addr host true v)
      | inl near ↦ elim (Option-cases d.handshake) [
        | inl failed ↦ rw (near, failed, finish_dial) (ended-IsLimited t addr host false v)
        | inr (pc, shaken) ↦
            let w = add_peer-IsLimited t pc v in
            elim (Bool-cases (add_peer t pc).1) [
              | inl added ↦
                  rw (near, shaken, added, finish_dial) (observe_addr-IsLimited _ pc.listen_addr w)
              | inr refused ↦
                  rw (near, shaken, refused, finish_dial) (ended-IsLimited _ addr host true w)
            ]
      ]
    ]

    handle_outbound-IsLimited :
        (t : Transport) (addr host : Text) (d : Option Dialed)
        → IsLimited t
        → IsLimited (handle_outbound N now jitter t addr host d).0
    unfolding handle_outbound
    handle_outbound-IsLimited t addr host d v =
        let w = track_ip-IsLimited t host v in
        let u = finish_dial-IsLimited (track_ip t host).0 addr host d w in
        elim (Bool-cases (track_ip t host).1) [
          | inr full ↦ rw (full, handle_outbound) (clear_dial_in_flight-IsLimited _ addr w)
          | inl tracked ↦
              elim (Bool-cases (finish_dial N now jitter (track_ip t host).0 addr host d).1) [
                | inl connected ↦ rw (tracked, connected, handle_outbound) u
                | inr ended ↦
                    rw (tracked, ended, handle_outbound) (clear_dial_in_flight-IsLimited _ addr u)
              ]
        ]

    try_dial-IsLimited :
        (t : Transport) (addr host : Text) (d : Option Dialed)
        → IsLimited t
        → IsLimited (try_dial N now jitter t addr host d)
    unfolding try_dial
    try_dial-IsLimited t addr host d v =
        let w = mark_dial_in_flight-IsLimited t addr v in
        let t' = (mark_dial_in_flight t addr).0 in
        let cleared = clear_dial_in_flight-IsLimited t' addr w in
        if_either IsLimited (leb (max_outbound t.cfg) (outbound_count t)) v (
          if_either IsLimited (not (mark_dial_in_flight t addr).1) w (
            if_either IsLimited (is_connected_to_addr t' addr) cleared (
              if_either IsLimited (not (addr_dial_allowed t' addr now)) cleared
                (handle_outbound-IsLimited t' addr host d w))))

module _ (N : Net) where
  step-IsLimited : (t : Transport) (e : Event) → IsLimited t → IsLimited (step N t e)
  unfolding step backoff_addr_dial
  step-IsLimited t (accepted now jitter a) v = accept-IsLimited N now jitter t a v
  step-IsLimited t (dialed now jitter addr host d) v =
      try_dial-IsLimited N now jitter t addr host d v
  step-IsLimited t (closed id none) v = remove_peer-IsLimited t id v
  step-IsLimited t (closed id (some addr)) v =
      clear_dial_in_flight-IsLimited _ addr (remove_peer-IsLimited t id v)
  step-IsLimited t (learned now addrs) v = observe_all-IsLimited N now addrs t v
  step-IsLimited t (tracks host) v = track_ip-IsLimited t host v
  step-IsLimited t (untracks host) v = untrack_ip-IsLimited t host v
  step-IsLimited t (marks addr) v = mark_dial_in_flight-IsLimited t addr v
  step-IsLimited t (clears addr) v = clear_dial_in_flight-IsLimited t addr v
  step-IsLimited t (leaves id) v = remove_peer-IsLimited t id v
  step-IsLimited t (adds pc) v = add_peer-IsLimited t pc v
  step-IsLimited t (observes now addr) v = observe_addr-IsLimited N now t addr v
  step-IsLimited t (backs_off now jitter addr permanent) v =
      IsLimited-fields t _ v refl refl v.per_ip

  run-IsLimited : (es : List Event) (t : Transport) → IsLimited t → IsLimited (run N t es)
  unfolding run
  run-IsLimited [] t v = v
  run-IsLimited (e ∷ es) t v = run-IsLimited es (step N t e) (step-IsLimited t e v)

  -- From `New`, after any sequence of connections accepted, dialed and closed, of addresses learned, and
  -- of the single calls that these are made of, whatever the order in which goroutines make them:
  -- there are at most MaxPeers peers, of which outbound and inbound ones keep to their own limits, and
  -- no host counts more connections than MaxConnsPerIP.
  pub run-new-IsLimited : (c : Config) (es : List Event) → IsLimited (run N (new_transport c) es)
  run-new-IsLimited c es = run-IsLimited es (new_transport c) (new_transport-IsLimited c)
