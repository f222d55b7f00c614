-- ===== src/Tcp/Defaults.antt =====
-- What `New` makes of a configuration.
use go_sim_chain.Prelude.{
  ℕ, zero, suc, ◌*◌, ◌≤◌, ◌<◌, ◌≡◌, ◌≢◌, refl, ◌∙◌, ap, sym, ◌⊎◌, inl, inr, [], ◌∷◌, Option, none,
  some, false, arith, ◌==◌, if◌then◌else◌, length, Text, text, Bool-cases, Option-cases,
}
use go_sim_chain.Prelude.Int.{ℤ, pos, negsuc, or_default}
use go_sim_chain.Tcp.Settings.{
  Identity, RawConfig, Config, NewError, missing_identity, missing_listen_addr, version_or_one,
  burst_for, with_defaults, checked_config,
}

-- Every limit is positive, and a message of the largest size passes the rate limiter.
pub record IsSound (c : Config) : Type 0 where
  pub peers : (0 < c.max_peers) × (0 < c.outbound_peers) × (0 < c.max_conns_per_ip)
  pub rates : (0 < c.rate_limit) × (0 < c.rate_burst) × (0 < c.max_message_size)
  pub message_passes : c.max_message_size ≤ c.rate_burst
  pub timeouts : (0 < c.read_timeout) × (0 < c.write_timeout) × (0 < c.idle_timeout)
  pub interval : 0 < c.peer_request_interval
  pub network : (c.version ≢ pos 0) × ((length c.magic == 0) ≡ false)

-- `n` is the number that is given, where that is positive.
abbrev pub Chosen : ℤ → ℕ → Type 0
Chosen z n = (m : ℕ) → 0 < m → z ≡ pos m → n ≡ m

-- What `New` leaves as it is given.
pub record Keeps (c : RawConfig) (s : Config) : Type 0 where
  pub address : (s.listen_addr ≡ c.listen_addr) × (s.seeds ≡ c.seeds)
  pub peers :
      Chosen c.max_peers s.max_peers
      × Chosen c.outbound_peers s.outbound_peers
      × Chosen c.max_conns_per_ip s.max_conns_per_ip
  pub rates : Chosen c.max_message_size s.max_message_size × Chosen c.rate_limit s.rate_limit
  pub timeouts :
      Chosen c.read_timeout s.read_timeout
      × Chosen c.write_timeout s.write_timeout
      × Chosen c.idle_timeout s.idle_timeout
  pub interval : Chosen c.peer_request_interval s.peer_request_interval
  pub burst : (m : ℕ) → 0 < m → c.rate_burst ≡ pos m → m ≤ s.rate_burst
  pub version : c.version ≢ pos 0 → s.version ≡ c.version
  pub magic : (length c.magic == 0) ≡ false → s.magic ≡ c.magic

or_default-Chosen : (z : ℤ) (d : ℕ) → Chosen z (or_default z d)
or_default-Chosen z d zero lt e = absurd (omega arith)
or_default-Chosen z d (suc m) lt e = rw e refl

or_default-positive : (z : ℤ) (d : ℕ) → 0 < d → 0 < or_default z d
or_default-positive (pos zero) d p = p
or_default-positive (pos (suc n)) d p = omega arith
or_default-positive (negsuc n) d p = p

version_or_one-ne-zero : (z : ℤ) → version_or_one z ≢ pos 0
unfolding version_or_one
version_or_one-ne-zero (pos n) e = ground arith
version_or_one-ne-zero (negsuc n) e = ground arith

magic_there : (m : Text) → (length (if length m == 0 then text "simchain-go" else m) == 0) ≡ false
magic_there [] = refl
magic_there (c ∷ m) = ground arith

burst_for_lem : (b s : ℕ) → (s ≤ burst_for b s) × (b ≤ burst_for b s)
unfolding burst_for
burst_for_lem b s = ground arith

with_defaults-IsSound : (c : RawConfig) (id : Identity) → IsSound (with_defaults c id)
unfolding with_defaults
with_defaults-IsSound c id =
    let size = or_default c.max_message_size (2 * 1048576) in
    let some_size : 0 < size = or_default-positive c.max_message_size _ (omega arith) in
    let fits = burst_for_lem (or_default c.rate_burst (2 * 1048576)) size in
    record {
      peers = (
        or_default-positive c.max_peers 8 (omega arith),
        or_default-positive c.outbound_peers 4 (omega arith),
        or_default-positive c.max_conns_per_ip 2 (omega arith),
      );
      rates = (
        or_default-positive c.rate_limit _ (omega arith),
        omega (arith, some_size, fits.0),
        some_size,
      );
      message_passes = fits.0;
      timeouts = (
        or_default-positive c.read_timeout _ (omega arith),
        or_default-positive c.write_timeout _ (omega arith),
        or_default-positive c.idle_timeout _ (omega arith),
      );
      interval = or_default-positive c.peer_request_interval _ (omega arith);
      network = (version_or_one-ne-zero c.version, magic_there c.magic);
    }

with_defaults-identity :
    (c : RawConfig) (id : Identity) → some (with_defaults c id).identity ≡ some id
unfolding with_defaults
with_defaults-identity c id = refl

version_or_one-kept : (z : ℤ) → z ≢ pos 0 → version_or_one z ≡ z
unfolding version_or_one
version_or_one-kept (pos zero) ne = absurd (ne refl)
version_or_one-kept (pos (suc n)) ne = ground arith
version_or_one-kept (negsuc n) ne = refl

with_defaults-Keeps : (c : RawConfig) (id : Identity) → Keeps c (with_defaults c id)
unfolding with_defaults
with_defaults-Keeps c id =
    let size = or_default c.max_message_size (2 * 1048576) in
    record {
      address = (refl, refl);
      peers = (
        or_default-Chosen c.max_peers 8,
        or_default-Chosen c.outbound_peers 4,
        or_default-Chosen c.max_conns_per_ip 2,
      );
      rates = (or_default-Chosen c.max_message_size _, or_default-Chosen c.rate_limit _);
      timeouts = (
        or_default-Chosen c.read_timeout _,
        or_default-Chosen c.write_timeout _,
        or_default-Chosen c.idle_timeout _,
      );
      interval = or_default-Chosen c.peer_request_interval _;
      burst = λ m lt e.
          let given = or_default-Chosen c.rate_burst (2 * 1048576) m lt e in
          omega (arith, given, (burst_for_lem (or_default c.rate_burst (2 * 1048576)) size).1);
      version = version_or_one-kept c.version;
      magic = λ there. rw there refl;
    }

-- `checked_config` from the identity on.
abbrev of_identity : RawConfig → Option Identity → NewError ⊎ Config
of_identity c o = elim o [
  | none ↦ inl missing_identity
  | some id ↦
      if length c.listen_addr == 0 then inl missing_listen_addr else inr (with_defaults c id)
]

checked_config-missing :
    (c : RawConfig) → c.identity ≡ none → checked_config c ≡ inl missing_identity
unfolding checked_config
checked_config-missing c e = ap (of_identity c) e

checked_config-there :
    (c : RawConfig) (id : Identity)
    → c.identity ≡ some id
    → checked_config c
      ≡ (if length c.listen_addr == 0 then inl missing_listen_addr else inr (with_defaults c id))
unfolding checked_config
checked_config-there c id e = ap (of_identity c) e

-- `New` refuses a configuration exactly where it has no identity, or has one and no listen address.
-- Otherwise it keeps the identity, the listen address and the seeds that are given. Every limit and
-- timeout that it leaves is positive, and is the one given where that is positive, but for the burst of
-- the rate limiter, which is at least the one given and at least the size of a message. The version is
-- not 0 and the magic not empty, and each is the one given where that is so.
pub checked_config-IsSound :
    (c : RawConfig)
    → ((checked_config c ≡ inl missing_identity) × (c.identity ≡ none))
      ⊎ ((id : Identity) × (c.identity ≡ some id)
          × (checked_config c ≡ inl missing_listen_addr)
          × (length c.listen_addr ≡ 0))
      ⊎ ((s : Config) × (checked_config c ≡ inr s)
          × (0 < length c.listen_addr)
          × (c.identity ≡ some s.identity)
          × Keeps c s
          × IsSound s)
checked_config-IsSound c = elim (Option-cases c.identity) [
  | inl missing ↦ inl (checked_config-missing c missing, missing)
  | inr (id, there) ↦ elim (Bool-cases (length c.listen_addr == 0)) [
    | inl empty ↦
        inr (inl (id, there, checked_config-there c id there ∙ rw empty refl, ground arith))
    | inr listens ↦ inr (
        inr (
          with_defaults c id,
          checked_config-there c id there ∙ rw listens refl,
          ground arith,
          there ∙ sym (with_defaults-identity c id),
          with_defaults-Keeps c id,
          with_defaults-IsSound c id,
        ))
  ]
]
