-- ===== src/Tcp/Admission.antt =====
-- The limits hold after every call, and what `removePeer` gives back.
use go_sim_chain.Prelude.{
  ◌+◌, ◌-◌, ◌≤◌, ◌<◌, ◌≡◌, ◌⊎◌, inl, inr, [], ◌∷◌, Bool, true, false, not, arith, leb, ◌==◌, ◌&&◌,
  ◌||◌, if◌then◌else◌, length, Text, text_eq, text_eq_iff, text_instance, Bool-cases, Option-cases,
}
use go_sim_chain.Map
use go_sim_chain.Map.{Map}
use go_sim_chain.Tcp.Limits.{
  PeerConn, Transport, count_of, track_ip, untrack_ip, count_direction, outbound_count,
  inbound_count, max_outbound, add_peer, remove_peer,
}

-- There are no more peers than the limits, in total and in each direction, and no host has more
-- connections than it may.
pub record IsLimited (t : Transport) : Type 0 where
  pub total : length t.peers ≤ t.cfg.max_peers
  pub outgoing : outbound_count t ≤ max_outbound t.cfg
  pub incoming : inbound_count t ≤ t.cfg.max_peers - max_outbound t.cfg
  pub per_ip : (host : Text) → count_of t host ≤ t.cfg.max_conns_per_ip

count-insert :
    (out : Bool) (k : Text) (p : PeerConn) (m : Map Text PeerConn)
    → Map.has k m ≡ false
    → count_direction out (Map.insert k p m)
      ≡ count_direction out m
        + (if p.outbound then (if out then 1 else 0) else (if out then 0 else 1))
unfolding count_direction Map.insert Map.has Map.lookup
count-insert out k p [] h = omega arith
count-insert out k p ((j, q) ∷ m) h = ground (arith, count-insert out k p m)

count-delete-le :
    (out : Bool) (k : Text) (m : Map Text PeerConn)
    → count_direction out (Map.delete k m) ≤ count_direction out m
unfolding count_direction Map.delete
count-delete-le out k [] = omega arith
count-delete-le out k ((j, q) ∷ m) = ground (arith, count-delete-le out k m)

-- `trackIP` and `untrackIP` as changes of the count of one host.
pub track_ip_lem :
    (t : Transport) (host : Text)
    → ((count_of t host < t.cfg.max_conns_per_ip)
        × ((track_ip t host).1 ≡ true)
        × ((h : Text)
            → count_of (track_ip t host).0 h ≡ count_of t h + (if text_eq host h then 1 else 0)))
      ⊎ ((t.cfg.max_conns_per_ip ≤ count_of t host) × (track_ip t host ≡ (t, false)))
unfolding track_ip Map.get_or
track_ip_lem t host = elim (Bool-cases (leb t.cfg.max_conns_per_ip (count_of t host))) [
  | inl full ↦ inr (ground arith, rw full)
  | inr room ↦ inl (
    ground arith,
    rw room,
    λ h.
        ground
          (arith, Map.lookup-insert host h (count_of t host + 1) t.ip_count, text_eq_iff host h),
  )
]

pub untrack_ip_lem :
    (t : Transport) (host h : Text)
    → count_of (untrack_ip t host) h ≡ count_of t h - (if text_eq host h then 1 else 0)
unfolding untrack_ip Map.get_or
untrack_ip_lem t host h = ground (
  arith,
  Map.lookup-insert host h (count_of t host - 1) t.ip_count,
  Map.lookup-delete host h t.ip_count,
  text_eq_iff host h,
)

-- The count of a host after `untrackIP` is no larger.
untrack_ip-le : (t : Transport) (host h : Text) → count_of (untrack_ip t host) h ≤ count_of t h
untrack_ip-le t host h = omega (arith, untrack_ip_lem t host h)

untrack_ip_fields :
    (t : Transport) (host : Text)
    → ((untrack_ip t host).peers ≡ t.peers) × ((untrack_ip t host).cfg ≡ t.cfg)
unfolding untrack_ip
untrack_ip_fields t host = ground arith

track_ip_fields :
    (t : Transport) (host : Text)
    → ((track_ip t host).0.peers ≡ t.peers) × ((track_ip t host).0.cfg ≡ t.cfg)
unfolding track_ip
track_ip_fields t host = ground arith

-- The limits depend on the peers, the configuration and the counts.
pub IsLimited-fields :
    (t t' : Transport)
    → IsLimited t
    → t'.cfg ≡ t.cfg
    → t'.peers ≡ t.peers
    → ((h : Text) → count_of t' h ≤ t.cfg.max_conns_per_ip)
    → IsLimited t'
unfolding outbound_count inbound_count
IsLimited-fields t t' v c p n = record {
  total = rw (c, p) v.total;
  outgoing = rw (c, p) v.outgoing;
  incoming = rw (c, p) v.incoming;
  per_ip = λ h. rw c (n h);
}

pub track_ip-IsLimited : (t : Transport) (host : Text) → IsLimited t → IsLimited (track_ip t host).0
track_ip-IsLimited t host v =
    let (p, c) = track_ip_fields t host in
    IsLimited-fields t (track_ip t host).0 v c p λ h. elim (track_ip_lem t host) [
      | inl (room, _, e) ↦ ground (arith, e h, v.per_ip h, text_eq_iff host h)
      | inr (_, e) ↦ rw e (v.per_ip h)
    ]

pub untrack_ip-IsLimited :
    (t : Transport) (host : Text) → IsLimited t → IsLimited (untrack_ip t host)
untrack_ip-IsLimited t host v =
    let (p, c) = untrack_ip_fields t host in
    IsLimited-fields t (untrack_ip t host) v c p
      λ h. omega (arith, untrack_ip-le t host h, v.per_ip h)

-- What `addPeer` asks of a connection.
pub record IsAdmissible (t : Transport) (pc : PeerConn) : Type 0 where
  pub named : (length pc.id == 0 || text_eq pc.id t.local_id) ≡ false
  pub new : Map.has pc.id t.peers ≡ false
  pub place : length t.peers < t.cfg.max_peers
  pub direction :
      ((pc.outbound ≡ true) × (outbound_count t < max_outbound t.cfg))
      ⊎ ((pc.outbound ≡ false) × (inbound_count t < t.cfg.max_peers - max_outbound t.cfg))

-- `addPeer` admits exactly the connections of a peer that is named, not the node itself and not there
-- yet, where the limits in total and in its direction leave a place; otherwise it changes nothing.
pub add_peer_lem :
    (t : Transport) (pc : PeerConn)
    → (IsAdmissible t pc
        × (add_peer t pc ≡ (record t { peers = Map.insert pc.id pc t.peers }, true)))
      ⊎ ((IsAdmissible t pc → ⊥) × (add_peer t pc ≡ (t, false)))
unfolding add_peer
add_peer_lem t pc = elim (Bool-cases (length pc.id == 0 || text_eq pc.id t.local_id)) [
  | inl bad ↦ inr (λ a. ground (arith, a.named), rw bad)
  | inr named ↦ elim (Bool-cases (leb t.cfg.max_peers (length t.peers))) [
    | inl full ↦ inr (λ a. ground (arith, a.place), rw (named, full))
    | inr place ↦ elim (Bool-cases (Map.has pc.id t.peers)) [
      | inl known ↦ inr (λ a. ground (arith, a.new), rw (named, place, known))
      | inr new ↦ elim (Bool-cases (pc.outbound && leb (max_outbound t.cfg) (outbound_count t))) [
        | inl out ↦ inr (λ a. ground (arith, a.direction), rw (named, place, new, out))
        | inr out ↦
            elim (Bool-cases
              (not pc.outbound && leb (t.cfg.max_peers - max_outbound t.cfg) (inbound_count t))) [
                | inl into ↦
                    inr (λ a. ground (arith, a.direction), rw (named, place, new, out, into))
                | inr into ↦ inl (
                  record {
                    named = named;
                    new = new;
                    place = ground arith;
                    direction = ground arith;
                  },
                  rw (named, place, new, out, into),
                )
              ]
      ]
    ]
  ]
]

admitted-IsLimited :
    (t : Transport) (pc : PeerConn)
    → IsLimited t
    → IsAdmissible t pc
    → IsLimited (record t { peers = Map.insert pc.id pc t.peers })
unfolding outbound_count inbound_count
admitted-IsLimited t pc v a = record {
  total = ground (arith, Map.length-insert pc.id pc t.peers, a.new, a.place);
  outgoing = ground (arith, count-insert true pc.id pc t.peers a.new, a.direction, v.outgoing);
  incoming = ground (arith, count-insert false pc.id pc t.peers a.new, a.direction, v.incoming);
  per_ip = v.per_ip;
}

pub add_peer-IsLimited : (t : Transport) (pc : PeerConn) → IsLimited t → IsLimited (add_peer t pc).0
add_peer-IsLimited t pc v = elim (add_peer_lem t pc) [
  | inl (a, e) ↦ rw e (admitted-IsLimited t pc v a)
  | inr (_, e) ↦ rw e v
]

deleted-IsLimited :
    (t : Transport) (id : Text)
    → IsLimited t
    → IsLimited (record t { peers = Map.delete id t.peers })
unfolding outbound_count inbound_count
deleted-IsLimited t id v = record {
  total = omega (arith, Map.length-delete-le id t.peers, v.total);
  outgoing = omega (arith, count-delete-le true id t.peers, v.outgoing);
  incoming = omega (arith, count-delete-le false id t.peers, v.incoming);
  per_ip = v.per_ip;
}

pub remove_peer-IsLimited : (t : Transport) (id : Text) → IsLimited t → IsLimited (remove_peer t id)
unfolding remove_peer
remove_peer-IsLimited t id v = elim (Option-cases (Map.lookup id t.peers)) [
  | inl missing ↦ rw (missing, remove_peer) (deleted-IsLimited t id v)
  | inr (pc, e) ↦ rw (e, remove_peer) (untrack_ip-IsLimited _ pc.remote (deleted-IsLimited t id v))
]
