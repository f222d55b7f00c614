-- ===== src/Tests/Links.antt =====
-- The theorems on the TCP transport at a few connections.
use go_sim_chain.Prelude.{
  ◌*◌, ◌≢◌, ltb, arith, ◌+◌, ◌-◌, ◌<◌, ◌≡◌, refl, ◌⊎◌, inl, inr, length, List, [], ◌∷◌, none, some,
  true, false, if◌then◌else◌, text, text_eq, text_instance,
}
use go_sim_chain.Map
use go_sim_chain.Prelude.Int.{pos, negsuc}
use go_sim_chain.Tcp.Settings.{
  Identity, RawConfig, Config, missing_identity, missing_listen_addr, with_defaults, checked_config,
}
use go_sim_chain.Tcp.Defaults.{IsSound, Keeps, checked_config-IsSound}
use go_sim_chain.Tcp.Limits.{
  Transport, PeerConn, count_of, add_peer, remove_peer, track_ip, max_outbound, outbound_count,
  count_direction,
}
use go_sim_chain.Tcp.Book.{backoff_addr_dial-allowed}
use go_sim_chain.Tcp.Addresses.{backoff_addr_dial, addr_dial_allowed, millisecond, Net}
use go_sim_chain.Tcp.Connections.{handle_outbound, finish_dial}
use go_sim_chain.Tcp.Admission.{IsLimited, IsAdmissible, add_peer_lem}
use go_sim_chain.Tcp.Release.{reached, handle_outbound-count_of, handle_outbound-remove_peer}
use go_sim_chain.Tcp.Run.{
  new_transport, Event, accepted, dialed, closed, learned, run, run-new-IsLimited,
}

-- Addresses that are all loopback ones.
abbrev net : Net
net = record {
  trim_space = λ a. a;
  split_host_port = λ a. some (text "localhost", text "9000");
  is_loopback_ip = λ a. true;
  atoi = λ a. some 9000;
}

abbrev me : Identity
me = record { node_id = text "me"; public_key = []; private_key = [] }

abbrev raw_settings : RawConfig
raw_settings = record {
  listen_addr = text "127.0.0.1:9001";
  seeds = [];
  magic = [];
  version = pos 0;
  identity = some me;
  max_peers = pos 3;
  outbound_peers = pos 2;
  max_conns_per_ip = pos 2;
  max_message_size = pos 0;
  rate_limit = pos 0;
  rate_burst = pos 100;
  read_timeout = pos 0;
  write_timeout = negsuc 5;
  idle_timeout = pos 0;
  peer_request_interval = pos 0;
}

checked_config-IsSound_example :
    ((checked_config raw_settings ≡ inl missing_identity) × (raw_settings.identity ≡ none))
    ⊎ ((id : Identity) × (raw_settings.identity ≡ some id)
        × (checked_config raw_settings ≡ inl missing_listen_addr)
        × (length raw_settings.listen_addr ≡ 0))
    ⊎ ((s : Config) × (checked_config raw_settings ≡ inr s)
        × (0 < length raw_settings.listen_addr)
        × (raw_settings.identity ≡ some s.identity)
        × Keeps raw_settings s
        × IsSound s)
checked_config-IsSound_example = checked_config-IsSound raw_settings

abbrev fresh : Transport
fresh = record {
  cfg = with_defaults raw_settings me;
  local_id = text "me";
  peers = [];
  ip_count = [];
  dial_in_flight = [];
  addr_book = [];
}

abbrev friend : PeerConn
friend = record {
  id = text "friend";
  listen_addr = text "localhost:9000";
  outbound = true;
  remote = text "127.0.0.1";
}

abbrev events : List Event
events =
    learned 1 (text "localhost:9000" ∷ [])
    ∷ dialed 2 0 (text "localhost:9000") (text "localhost") (reached friend)
    ∷ accepted 3 0 (record { host = some (text "127.0.0.1"); loopback = true; handshake = none })
    ∷ closed (text "friend") (some (text "localhost:9000"))
    ∷ []

run-new-IsLimited_example :
    IsLimited (run net (new_transport (with_defaults raw_settings me)) events)
run-new-IsLimited_example = run-new-IsLimited net (with_defaults raw_settings me) events

add_peer_lem_example :
    (IsAdmissible fresh friend
      × (add_peer fresh friend
          ≡ (record fresh { peers = Map.insert (text "friend") friend [] }, true)))
    ⊎ ((IsAdmissible fresh friend → ⊥) × (add_peer fresh friend ≡ (fresh, false)))
add_peer_lem_example = add_peer_lem fresh friend

ended : (handle_outbound net 2 0 fresh (text "localhost:9000") (text "localhost") none).1 ≡ false
unfolding handle_outbound finish_dial track_ip with_defaults Map.get_or Map.lookup
ended = refl

handle_outbound-count_of_example :
    count_of
      (handle_outbound net 2 0 fresh (text "localhost:9000") (text "localhost") none).0
      (text "localhost")
    ≡ count_of fresh (text "localhost")
handle_outbound-count_of_example =
    handle_outbound-count_of net 2 0 fresh (text "localhost:9000") (text "localhost")
      (text "localhost") none ended

connected :
    (handle_outbound net 2 0 fresh (text "localhost:9000") (text "localhost") (reached friend)).1
    ≡ true
unfolding handle_outbound finish_dial track_ip add_peer with_defaults Map.get_or Map.lookup text_eq
    Map.has max_outbound outbound_count count_direction
connected = refl

-- The place that the dial of `localhost` took is not given back.
handle_outbound-remove_peer_example :
    count_of
      (remove_peer
        (handle_outbound net 2 0 fresh
          (text "localhost:9000")
          (text "localhost")
          (reached friend)).0
        (text "friend"))
      (text "localhost")
    ≡ (count_of fresh (text "localhost")
        + (if text_eq (text "localhost") (text "localhost") then 1 else 0))
      - (if text_eq (text "127.0.0.1") (text "localhost") then 1 else 0)
handle_outbound-remove_peer_example =
    handle_outbound-remove_peer net 2 0 fresh (text "localhost:9000") (text "localhost")
      (text "localhost") friend connected

home-other : text "127.0.0.1:9002" ≢ text "localhost:9000"
home-other = λ e. ground arith

backoff_addr_dial-allowed_example :
    (addr_dial_allowed
        (backoff_addr_dial fresh (text "localhost:9000") true 7 100)
        (text "localhost:9000")
        300
      ≡ ltb (100 + (2000 + 7) * millisecond) 300)
    × (addr_dial_allowed
          (backoff_addr_dial fresh (text "localhost:9000") true 7 100)
          (text "127.0.0.1:9002")
          300
        ≡ addr_dial_allowed fresh (text "127.0.0.1:9002") 300)
backoff_addr_dial-allowed_example =
    backoff_addr_dial-allowed fresh (text "localhost:9000") (text "127.0.0.1:9002") true 7 100 300
      home-other
