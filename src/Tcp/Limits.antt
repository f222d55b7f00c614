-- ===== src/Tcp/Limits.antt =====
-- internal/transport/tcp/tcp.go: the limits on connections per IP and on peers. Each method holds a
-- lock, so each call is one step.
use go_sim_chain.Prelude.{
  ℕ, ◌+◌, ◌-◌, [], ◌∷◌, Option, none, some, Bool, true, false, not, ltb, leb, ◌==◌, ◌&&◌, ◌||◌,
  if◌then◌else◌, length, Text, text_eq, text_instance,
}
use go_sim_chain.Map
use go_sim_chain.Map.{Map}
use go_sim_chain.Tcp.Settings.{Config}

-- A `peerConn`; `remote` is the host part of the connection's remote address.
pub record PeerConn : Type 0 where
  pub id : Text
  pub listen_addr : Text
  pub outbound : Bool
  pub remote : Text

-- What the address book holds of an address; none is the zero time.
pub record AddrInfo : Type 0 where
  pub last_seen : Option ℕ
  pub next_dial : Option ℕ

pub record Transport : Type 0 where
  pub cfg : Config
  pub local_id : Text
  pub peers : Map Text PeerConn
  pub ip_count : Map Text ℕ
  pub dial_in_flight : Map Text (Unit {0})
  pub addr_book : Map Text AddrInfo

-- `t.ipCount[host]`
abbrev pub count_of : Transport → Text → ℕ
count_of t host = Map.get_or host t.ip_count 0

unfoldable pub track_ip : Transport → Text → Transport × Bool
track_ip t host =
    if leb t.cfg.max_conns_per_ip (count_of t host)
    then (t, false)
    else (record t { ip_count = Map.insert host (count_of t host + 1) t.ip_count }, true)

unfoldable pub untrack_ip : Transport → Text → Transport
untrack_ip t host =
    if ltb 0 (count_of t host)
    then if count_of t host - 1 == 0
      then record t { ip_count = Map.delete host t.ip_count }
      else record t { ip_count = Map.insert host (count_of t host - 1) t.ip_count }
    else t

-- The loops of `outboundCountLocked` and `inboundCountLocked`, by direction.
unfoldable pub count_direction : Bool → Map Text PeerConn → ℕ
count_direction out [] = 0
count_direction out ((_, p) ∷ ps) =
    (if p.outbound then (if out then 1 else 0) else (if out then 0 else 1)) + count_direction out ps

unfoldable pub outbound_count : Transport → ℕ
outbound_count t = count_direction true t.peers

unfoldable pub inbound_count : Transport → ℕ
inbound_count t = count_direction false t.peers

unfoldable pub max_outbound : Config → ℕ
max_outbound c = if ltb c.max_peers c.outbound_peers then c.max_peers else c.outbound_peers

unfoldable pub add_peer : Transport → PeerConn → Transport × Bool
add_peer t pc =
    if length pc.id == 0 || text_eq pc.id t.local_id
    then (t, false)
    else if leb t.cfg.max_peers (length t.peers)
    then (t, false)
    else if Map.has pc.id t.peers
    then (t, false)
    else if pc.outbound && leb (max_outbound t.cfg) (outbound_count t)
    then (t, false)
    else if not pc.outbound && leb (t.cfg.max_peers - max_outbound t.cfg) (inbound_count t)
    then (t, false)
    else (record t { peers = Map.insert pc.id pc t.peers }, true)

unfoldable pub remove_peer : Transport → Text → Transport
remove_peer t id = elim (Map.lookup id t.peers) [
  | none ↦ record t { peers = Map.delete id t.peers }
  | some pc ↦ untrack_ip (record t { peers = Map.delete id t.peers }) pc.remote
]
