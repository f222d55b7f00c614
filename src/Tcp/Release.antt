-- ===== src/Tcp/Release.antt =====
-- Whether a connection that ends gives back the place that its address took.
use go_sim_chain.Prelude.{
  ℕ, ◌+◌, ◌-◌, ◌≡◌, refl, ◌∙◌, ap, ◌⊎◌, inl, inr, Option, none, some, Bool, true, false, arith,
  if◌then◌else◌, Text, text_eq, text_instance, Bool-cases, Option-cases,
}
use go_sim_chain.Map
use go_sim_chain.Tcp.Limits.{Transport, PeerConn, count_of, track_ip, remove_peer}
use go_sim_chain.Tcp.Addresses.{Net, observe_addr, clear_dial_in_flight, backoff_addr_dial}
use go_sim_chain.Tcp.Connections.{Dialed, finish_dial, handle_outbound}
use go_sim_chain.Tcp.Admission.{add_peer_lem, track_ip_lem, untrack_ip_lem}

-- The address book and the dials in flight have no part in the counts.
pub observe_addr_fields :
    (N : Net) (t : Transport) (a : Text) (now : ℕ)
    → ((observe_addr N t a now).peers ≡ t.peers)
      × ((observe_addr N t a now).ip_count ≡ t.ip_count)
      × ((observe_addr N t a now).cfg ≡ t.cfg)
unfolding observe_addr
observe_addr_fields N t a now = ground arith

observe_addr-count_of :
    (N : Net) (t : Transport) (a h : Text) (now : ℕ)
    → count_of (observe_addr N t a now) h ≡ count_of t h
observe_addr-count_of N t a h now = let (_, e, _) = observe_addr_fields N t a now in rw e refl

-- After `trackIP`, the dial keeps its place exactly where it ends in a connection.
finish_dial_lem :
    (N : Net) (now jitter : ℕ) (t : Transport) (addr host h : Text) (d : Option Dialed)
    → (((finish_dial N now jitter t addr host d).1 ≡ false)
        × (count_of (finish_dial N now jitter t addr host d).0 h
            ≡ count_of t h - (if text_eq host h then 1 else 0)))
      ⊎ (((finish_dial N now jitter t addr host d).1 ≡ true)
          × (count_of (finish_dial N now jitter t addr host d).0 h ≡ count_of t h))
unfolding finish_dial backoff_addr_dial
finish_dial_lem N now jitter t addr host h none = inl (refl, untrack_ip_lem t host h)
finish_dial_lem N now jitter t addr host h (some d) = elim (Bool-cases d.loopback) [
  | inr far ↦ rw (far, finish_dial) (inl (refl, untrack_ip_lem t host h))
  | inl near ↦ elim (Option-cases d.handshake) [
    | inl failed ↦ rw (near, failed, finish_dial) (inl (refl, untrack_ip_lem t host h))
    | inr (pc, shaken) ↦ elim (add_peer_lem t pc) [
      | inl (_, e) ↦
          rw (near, shaken, e, finish_dial)
            (inr (refl, observe_addr-count_of N _ pc.listen_addr h now))
      | inr (_, e) ↦ rw (near, shaken, e, finish_dial) (inl (refl, untrack_ip_lem t host h))
    ]
  ]
]

-- How a dial ends, for the count of any host.
handle_outbound_lem :
    (N : Net) (now jitter : ℕ) (t : Transport) (addr host h : Text) (d : Option Dialed)
    → (((handle_outbound N now jitter t addr host d).1 ≡ false)
        × (count_of (handle_outbound N now jitter t addr host d).0 h ≡ count_of t h))
      ⊎ (((handle_outbound N now jitter t addr host d).1 ≡ true)
          × (count_of (handle_outbound N now jitter t addr host d).0 h
              ≡ count_of t h + (if text_eq host h then 1 else 0)))
unfolding handle_outbound clear_dial_in_flight
handle_outbound_lem N now jitter t addr host h d = elim (track_ip_lem t host) [
  | inr (_, e) ↦ rw (e, handle_outbound) (inl (refl, refl))
  | inl (_, tracked, grown) ↦
      elim (finish_dial_lem N now jitter (track_ip t host).0 addr host h d) [
        | inl (ended, back) ↦
            rw (tracked, ended, handle_outbound) (inl (refl, ground (arith, back, grown h)))
        | inr (connected, kept) ↦
            rw (tracked, connected, handle_outbound) (inr (refl, kept ∙ grown h))
      ]
]

-- A dial that does not end in a connection, and between whose calls no other comes, leaves the count of
-- every host as it was.
pub handle_outbound-count_of :
    (N : Net) (now jitter : ℕ) (t : Transport) (addr host h : Text) (d : Option Dialed)
    → (handle_outbound N now jitter t addr host d).1 ≡ false
    → count_of (handle_outbound N now jitter t addr host d).0 h ≡ count_of t h
handle_outbound-count_of N now jitter t addr host h d e =
    elim (handle_outbound_lem N now jitter t addr host h d) [
      | inl (_, kept) ↦ kept
      | inr (connected, _) ↦ cc
    ]

-- `removePeer` gives back the place of the connection's remote address.
pub remove_peer-count_of :
    (t : Transport) (id h : Text) (pc : PeerConn)
    → Map.lookup id t.peers ≡ some pc
    → count_of (remove_peer t id) h ≡ count_of t h - (if text_eq pc.remote h then 1 else 0)
unfolding remove_peer
remove_peer-count_of t id h pc e =
    rw (e, remove_peer) (untrack_ip_lem (record t { peers = Map.delete id t.peers }) pc.remote h)

abbrev pub reached : PeerConn → Option Dialed
reached pc = some (record { loopback = true; handshake = some pc })

ends {ℓ} : {A : Type ℓ} → {b : Bool} → b ≡ false → b ≡ true → A
ends e f = cc

-- A connection that was dialed is a peer.
handle_outbound-peers :
    (N : Net) (now jitter : ℕ) (t : Transport) (addr host : Text) (pc : PeerConn)
    → (handle_outbound N now jitter t addr host (reached pc)).1 ≡ true
    → Map.lookup pc.id (handle_outbound N now jitter t addr host (reached pc)).0.peers ≡ some pc
unfolding handle_outbound finish_dial
handle_outbound-peers N now jitter t addr host pc connected = elim (track_ip_lem t host) [
  | inr (_, e) ↦ ends (rw (e, handle_outbound) refl) connected
  | inl (_, tracked, _) ↦ elim (add_peer_lem (track_ip t host).0 pc) [
    | inr (_, e) ↦ ends (rw (tracked, e, handle_outbound, finish_dial) refl) connected
    | inl (_, e) ↦
        rw (tracked, e, handle_outbound, finish_dial)
          (let t' = record (track_ip t host).0 {
            peers = Map.insert pc.id pc (track_ip t host).0.peers;
          } in
            let (same, _, _) = observe_addr_fields N t' pc.listen_addr now in
            ap (Map.lookup pc.id) same ∙ Map.lookup-insert_self pc.id pc (track_ip t host).0.peers)
  ]
]

-- Where a dial ends in a connection that is then removed, and no other call comes between, the count of
-- each host is what it was, plus one for the host that was dialed and less one for the host of the
-- remote address.
pub handle_outbound-remove_peer :
    (N : Net) (now jitter : ℕ) (t : Transport) (addr host h : Text) (pc : PeerConn)
    → (handle_outbound N now jitter t addr host (reached pc)).1 ≡ true
    → count_of (remove_peer (handle_outbound N now jitter t addr host (reached pc)).0 pc.id) h
      ≡ (count_of t h + (if text_eq host h then 1 else 0)) - (if text_eq pc.remote h then 1 else 0)
handle_outbound-remove_peer N now jitter t addr host h pc connected =
    elim (handle_outbound_lem N now jitter t addr host h (reached pc)) [
      | inl (ended, _) ↦ cc
      | inr (_, grown) ↦
          remove_peer-count_of _ pc.id h pc
            (handle_outbound-peers N now jitter t addr host pc connected)
          ∙ ap (λ n. n - (if text_eq pc.remote h then 1 else 0)) grown
    ]
