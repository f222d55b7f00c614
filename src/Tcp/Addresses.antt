-- ===== src/Tcp/Addresses.antt =====
-- internal/transport/tcp/tcp.go: the address book and the dials in flight.
use go_sim_chain.Prelude.{
  ℕ, ◌+◌, ◌*◌, List, [], ◌∷◌, Option, none, some, Bool, true, false, not, ltb, leb, ◌==◌, ◌&&◌,
  ◌||◌, if◌then◌else◌, length, Text, text, text_eq, text_instance,
}
use go_sim_chain.Map
use go_sim_chain.Map.{Map}
use go_sim_chain.Tcp.Limits.{Transport, AddrInfo}

-- Go's standard library on addresses: `strings.TrimSpace`, the two parts of `net.SplitHostPort`, whether
-- a host is an IP in the loopback range, and `strconv.Atoi` where it gives a number that is not
-- negative.
pub record Net : Type 0 where
  pub trim_space : Text → Text
  pub split_host_port : Text → Option (Text × Text)
  pub is_loopback_ip : Text → Bool
  pub atoi : Text → Option ℕ

module _ (N : Net) where
  unfoldable pub is_loopback_addr : Text → Bool
  is_loopback_addr addr = elim (N.split_host_port addr) [
    | none ↦ false
    | some (host, _) ↦ if text_eq host (text "localhost") then true else N.is_loopback_ip host
  ]

  unfoldable pub valid_tcp_addr : Text → Bool
  valid_tcp_addr addr = elim (N.split_host_port addr) [
    | none ↦ false
    | some (_, port) ↦ elim (N.atoi port) [ none ↦ false | some n ↦ ltb 0 n && leb n 65535 ]
  ]

  unfoldable pub observe_addr : Transport → Text → ℕ → Transport
  observe_addr t raw now =
      let addr = N.trim_space raw in
      let info = Map.get_or addr t.addr_book (record { last_seen = none; next_dial = none }) in
      if length addr == 0 || not (is_loopback_addr addr) || not (valid_tcp_addr addr)
      then t
      else record t {
        addr_book = Map.insert addr (record info { last_seen = some now }) t.addr_book;
      }

  -- `onPeers` and `addSeedAddrs`, but for the dials that `onPeers` starts.
  unfoldable pub observe_all : Transport → List Text → ℕ → Transport
  unfolding observe_addr
  observe_all t [] now = t
  observe_all t (a ∷ addrs) now = observe_all (observe_addr t a now) addrs now

unfoldable pub mark_dial_in_flight : Transport → Text → Transport × Bool
mark_dial_in_flight t addr =
    if Map.has addr t.dial_in_flight
    then (t, false)
    else (record t { dial_in_flight = Map.insert addr tt t.dial_in_flight }, true)

unfoldable pub clear_dial_in_flight : Transport → Text → Transport
clear_dial_in_flight t addr = record t { dial_in_flight = Map.delete addr t.dial_in_flight }

unfoldable pub addr_dial_allowed : Transport → Text → ℕ → Bool
addr_dial_allowed t addr now = elim (Map.lookup addr t.addr_book) [
  | none ↦ true
  | some info ↦ elim info.next_dial [ none ↦ true | some at ↦ ltb at now ]
]

abbrev pub millisecond : ℕ
millisecond = 1000000

-- `jitter` is `t.randIntn(250)`.
unfoldable pub backoff_addr_dial : Transport → Text → Bool → ℕ → ℕ → Transport
backoff_addr_dial t addr permanent jitter now =
    let info = Map.get_or addr t.addr_book (record { last_seen = none; next_dial = none }) in
    let backoff = if permanent then 2000 * millisecond else 900 * millisecond in
    record t {
      addr_book =
          Map.insert addr
            (record info { next_dial = some (now + (backoff + jitter * millisecond)) }) t.addr_book;
    }

-- Whether `addrCandidates` skips an address for its next dial, and whether it forgets it.
unfoldable pub waits_for_dial : AddrInfo → ℕ → Bool
waits_for_dial info now = elim info.next_dial [ none ↦ false | some at ↦ ltb now at ]

unfoldable pub is_stale : AddrInfo → ℕ → Bool
is_stale info now = elim info.last_seen [
  | none ↦ false
  | some seen ↦ ltb (seen + 600 * 1000 * millisecond) now
]

-- The loop of `addrCandidates`, before the shuffle.
unfoldable pub candidates_loop : Transport → ℕ → Map Text AddrInfo → Transport × List Text
unfolding waits_for_dial is_stale
candidates_loop t now [] = (t, [])
candidates_loop t now ((a, info) ∷ rest) =
    let (t', out) =
      candidates_loop
        (if not (text_eq a t.cfg.listen_addr)
            && (not (waits_for_dial info now) && is_stale info now)
          then record t { addr_book = Map.delete a t.addr_book }
          else t)
        now rest in
    (
      t',
      if text_eq a t.cfg.listen_addr || (waits_for_dial info now || is_stale info now)
          then out
          else a ∷ out,
    )

-- `shuffle` is the generator's permutation.
unfoldable pub addr_candidates : (List Text → List Text) → Transport → ℕ → Transport × List Text
unfolding candidates_loop
addr_candidates shuffle t now =
    let (t', out) = candidates_loop t now t.addr_book in (t', shuffle out)
