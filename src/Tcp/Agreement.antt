-- ===== src/Tcp/Agreement.antt =====
-- Two sides that follow internal/transport/tcp/handshake.go accept each other.
use go_sim_chain.Prelude.{
  ◌<◌, ◌≡◌, refl, inr, some, true, false, arith, ◌==◌, length, Text, text_eq, text_eq_iff,
}
use go_sim_chain.Prelude.Int.{ℤ, pos, negsuc, ◌==ℤ◌}
use go_sim_chain.Tcp.Handshake.{
  Crypt, hello, hello_ack, auth, Local, Remote, handshake_sig_msg, node_id_from_public_key,
  remote_of, first_hello, check_ack, auth_for, outbound_rest, handshake_outbound, check_hello,
  ack_for, inbound_start, inbound_rest, handshake_inbound,
}

-- A side has a public key of the right length, and its signatures verify.
pub record IsHonest (K : Crypt) (l : Local) : Type 0 where
  pub key_size : length l.identity.public_key ≡ 32
  pub signs : (m : Text) → K.verify l.identity.public_key m (K.sign l.identity.private_key m) ≡ true

-- The peer that the other side should see.
abbrev pub seen_as : Crypt → Local → Remote
seen_as K l = record {
  id = K.short_digest l.identity.public_key;
  listen = l.listen_addr;
  key = l.identity.public_key;
}

text_eq_refl : (a : Text) → text_eq a a ≡ true
text_eq_refl a = ground (arith, text_eq_iff a a)

==ℤ_refl : (z : ℤ) → (z ==ℤ z) ≡ true
==ℤ_refl (pos n) = ground arith
==ℤ_refl (negsuc n) = ground arith

remote_of_lem :
    (K : Crypt) (key listen : Text)
    → length key ≡ 32
    → remote_of K key listen ≡ inr (record { id = K.short_digest key; listen = listen; key = key })
unfolding node_id_from_public_key
remote_of_lem K key listen e = rw (e, remote_of) refl

module _ (K : Crypt) (a b : Local) where
  check_hello_lem :
      IsHonest K a
      → a.magic ≡ b.magic
      → a.version ≡ b.version
      → (m : Text) → 0 < length m
      → check_hello K b (first_hello K a m) ≡ inr (seen_as K a)
  unfolding check_hello first_hello
  check_hello_lem h net ver m long =
      let full : (length m == 0) ≡ false = ground arith in
      rw (net, ver, text_eq_refl b.magic, ==ℤ_refl b.version, h.key_size, full)
        (remote_of_lem K a.identity.public_key a.listen_addr h.key_size)

  check_ack_lem :
      IsHonest K b
      → a.magic ≡ b.magic
      → a.version ≡ b.version
      → (m n : Text) → 0 < length n
      → check_ack K a m (ack_for K b n (first_hello K a m).nonce) ≡ inr (seen_as K b)
  unfolding check_ack ack_for first_hello
  check_ack_lem h net ver m n long =
      let full : (length n == 0) ≡ false = ground arith in
      rw
        (
          net,
          ver,
          text_eq_refl b.magic,
          ==ℤ_refl b.version,
          text_eq_refl m,
          h.key_size,
          full,
          h.signs (handshake_sig_msg m b.magic b.version),
        )
        (remote_of_lem K b.identity.public_key b.listen_addr h.key_size)

  ack_nonce : (n e : Text) → (ack_for K b n e).nonce ≡ n
  unfolding ack_for
  ack_nonce n e = refl

  inbound_rest_lem :
      IsHonest K a
      → a.magic ≡ b.magic
      → a.version ≡ b.version
      → (n : Text)
      → inbound_rest K b n (seen_as K a) (some (auth (auth_for K a n))) ≡ inr (seen_as K a)
  unfolding inbound_rest auth_for
  inbound_rest_lem h net ver n =
      rw (net, ver, text_eq_refl n, h.signs (handshake_sig_msg n b.magic b.version)) refl

  -- Two honest sides with the same magic and version, and nonces that are not empty, whose writes
  -- succeed and whose messages arrive: each accepts the other under its key, its id and its address.
  pub handshake-accepts :
      IsHonest K a
      → IsHonest K b
      → a.magic ≡ b.magic
      → a.version ≡ b.version
      → (m n : Text) → 0 < length m
      → 0 < length n
      → (handshake_outbound K a (some m) true true (λ h. some (hello_ack (ack_for K b n h.nonce)))
          ≡ inr (seen_as K b, auth_for K a n))
        × (handshake_inbound K b
              (some n)
              true
              (some (hello (first_hello K a m)))
              (λ x. some (auth (auth_for K a x.nonce)))
            ≡ inr (seen_as K a))
  unfolding handshake_outbound outbound_rest handshake_inbound inbound_start
  handshake-accepts ha hb net ver m n some_m some_n = (
    rw
        (
          check_ack_lem hb net ver m n some_n,
          outbound_rest,
          handshake_outbound,
          ack_nonce n (first_hello K a m).nonce,
        )
        refl,
    rw
        (
          check_hello_lem ha net ver m some_m,
          inbound_start,
          handshake_inbound,
          ack_nonce n (first_hello K a m).nonce,
        )
        (inbound_rest_lem ha net ver n),
  )
