-- ===== src/Tcp/Settings.antt =====
-- internal/transport/tcp/tcp.go: `Config` and the defaults that `New` fills in.
use go_sim_chain.Prelude.{
  ℕ, ◌*◌, ◌⊎◌, inl, inr, List, Option, none, some, ltb, ◌==◌, if◌then◌else◌, length, Text, text,
}
use go_sim_chain.Prelude.Int.{ℤ, pos, negsuc, or_default}

-- `identity.Identity`
pub record Identity : Type 0 where
  pub node_id : Text
  pub public_key : Text
  pub private_key : Text

-- The configuration as the caller gives it; durations are nanoseconds.
pub record RawConfig : Type 0 where
  pub listen_addr : Text
  pub seeds : List Text
  pub magic : Text
  pub version : ℤ
  pub identity : Option Identity
  pub max_peers : ℤ
  pub outbound_peers : ℤ
  pub max_conns_per_ip : ℤ
  pub max_message_size : ℤ
  pub rate_limit : ℤ
  pub rate_burst : ℤ
  pub read_timeout : ℤ
  pub write_timeout : ℤ
  pub idle_timeout : ℤ
  pub peer_request_interval : ℤ

-- The configuration as `New` leaves it.
pub record Config : Type 0 where
  pub listen_addr : Text
  pub seeds : List Text
  pub magic : Text
  pub version : ℤ
  pub identity : Identity
  pub max_peers : ℕ
  pub outbound_peers : ℕ
  pub max_conns_per_ip : ℕ
  pub max_message_size : ℕ
  pub rate_limit : ℕ
  pub rate_burst : ℕ
  pub read_timeout : ℕ
  pub write_timeout : ℕ
  pub idle_timeout : ℕ
  pub peer_request_interval : ℕ

pub data NewError : Type 0 where
  missing_identity missing_listen_addr : NewError

-- `if cfg.Version == 0 { cfg.Version = 1 }`
unfoldable pub version_or_one : ℤ → ℤ
version_or_one (pos n) = if n == 0 then pos 1 else pos n
version_or_one (negsuc n) = negsuc n

-- The larger of the burst and the message size.
unfoldable pub burst_for : ℕ → ℕ → ℕ
burst_for burst size = if ltb burst size then size else burst

unfoldable pub with_defaults : RawConfig → Identity → Config
with_defaults c id =
    let size = or_default c.max_message_size (2 * 1048576) in
    record {
      listen_addr = c.listen_addr;
      seeds = c.seeds;
      magic = if length c.magic == 0 then text "simchain-go" else c.magic;
      version = version_or_one c.version;
      identity = id;
      max_peers = or_default c.max_peers 8;
      outbound_peers = or_default c.outbound_peers 4;
      max_conns_per_ip = or_default c.max_conns_per_ip 2;
      max_message_size = size;
      rate_limit = or_default c.rate_limit 1048576;
      rate_burst = burst_for (or_default c.rate_burst (2 * 1048576)) size;
      read_timeout = or_default c.read_timeout 4000000000;
      write_timeout = or_default c.write_timeout 4000000000;
      idle_timeout = or_default c.idle_timeout 20000000000;
      peer_request_interval = or_default c.peer_request_interval 4000000000;
    }

-- The part of `New` before the transport is made.
unfoldable pub checked_config : RawConfig → NewError ⊎ Config
unfolding with_defaults
checked_config c = elim c.identity [
  | none ↦ inl missing_identity
  | some id ↦
      if length c.listen_addr == 0 then inl missing_listen_addr else inr (with_defaults c id)
]
