-- ===== src/Tcp/Book.antt =====
-- internal/transport/tcp/tcp.go: which addresses of the address book may be dialed.
use go_sim_chain.Prelude.{
  ℕ, ◌+◌, ◌*◌, ◌≡◌, ◌≢◌, ap, refl, none, some, Bool, true, false, arith, ltb, if◌then◌else◌, Text,
  text_instance,
}
use go_sim_chain.Map
use go_sim_chain.Map.{Map}
use go_sim_chain.Tcp.Limits.{Transport, AddrInfo}
use go_sim_chain.Tcp.Addresses.{millisecond, backoff_addr_dial, addr_dial_allowed}

delay :
    (permanent : Bool) (jitter : ℕ)
    → (if permanent then 2000 * millisecond else 900 * millisecond) + jitter * millisecond
      ≡ ((if permanent then 2000 else 900) + jitter) * millisecond
delay true jitter = omega arith
delay false jitter = omega arith

-- After a dial of an address is put off, the address may be dialed exactly at the times past 900 ms, or
-- 2 s where the failure is permanent, and the jitter from then; any other address just as before.
pub backoff_addr_dial-allowed :
    (t : Transport) (addr a : Text) (permanent : Bool) (jitter now later : ℕ)
    → a ≢ addr
    → (addr_dial_allowed (backoff_addr_dial t addr permanent jitter now) addr later
        ≡ ltb (now + ((if permanent then 2000 else 900) + jitter) * millisecond) later)
      × (addr_dial_allowed (backoff_addr_dial t addr permanent jitter now) a later
          ≡ addr_dial_allowed t a later)
unfolding backoff_addr_dial addr_dial_allowed
backoff_addr_dial-allowed t addr a permanent jitter now later differ =
    let backoff = if permanent then 2000 * millisecond else 900 * millisecond in
    let info : AddrInfo = record {
      last_seen =
          (Map.get_or addr t.addr_book (record { last_seen = none; next_dial = none })).last_seen;
      next_dial = some (now + (backoff + jitter * millisecond));
    } in
    (
      rw (Map.lookup-insert_self addr info t.addr_book, addr_dial_allowed)
          (ap (λ n. ltb (now + n) later) (delay permanent jitter)),
      rw (Map.lookup-insert_ne addr a info t.addr_book differ, addr_dial_allowed) refl,
    )
