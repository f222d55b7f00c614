-- ===== src/Tcp/Handshake.antt =====
-- internal/transport/tcp/handshake.go: the two sides of the handshake. Each reads and writes at most
-- two messages; what is read, and whether a write succeeds, are arguments.
use go_sim_chain.Prelude.{
  ℕ, ◌-◌, ◌%◌, ◌^◌, ◌⊎◌, inl, inr, ◌++◌, Option, none, some, Bool, not, ◌==◌, ◌||◌, if◌then◌else◌,
  length, Text, text_eq,
}
use go_sim_chain.Prelude.Int.{ℤ, pos, negsuc, ◌==ℤ◌}
use go_sim_chain.Crypto.{le_bytes}
use go_sim_chain.Tcp.Settings.{Identity}

-- ed25519, and the first 40 hexadecimal digits of SHA-256.
pub record Crypt : Type 0 where
  pub sign : Text → Text → Text
  pub verify : Text → Text → Text → Bool
  pub short_digest : Text → Text

pub record Hello : Type 0 where
  pub magic : Text
  pub version : ℤ
  pub pub_key : Text
  pub listen_addr : Text
  pub nonce : Text

pub record HelloAck : Type 0 where
  pub magic : Text
  pub version : ℤ
  pub pub_key : Text
  pub listen_addr : Text
  pub nonce : Text
  pub echo_nonce : Text
  pub sig_over_echo : Text

pub record Auth : Type 0 where
  pub echo_nonce : Text
  pub sig : Text

-- A message by its type and payload; `other` is one of any other type, or whose payload is not that of
-- its type. The time stamps and the ends of
-- a message have no part in the handshake.
pub data Message : Type 0 where
  hello : Hello → Message
  hello_ack : HelloAck → Message
  auth : Auth → Message
  other : Message

pub data HandshakeError : Type 0 where
  no_random write_failed read_failed unexpected_type network_mismatch : HandshakeError
  nonce_mismatch invalid_key signature_invalid : HandshakeError

-- What a side knows of itself.
pub record Local : Type 0 where
  pub identity : Identity
  pub listen_addr : Text
  pub magic : Text
  pub version : ℤ

-- What the handshake returns.
pub record Remote : Type 0 where
  pub id : Text
  pub listen : Text
  pub key : Text

-- `uint32(version)`
unfoldable pub to_u32 : ℤ → ℕ
to_u32 (pos n) = n % 2 ^ 32
to_u32 (negsuc n) = 2 ^ 32 - 1 - n % 2 ^ 32

unfoldable pub handshake_sig_msg : Text → Text → ℤ → Text
handshake_sig_msg challenge magic version = challenge ++ (magic ++ le_bytes 4 (to_u32 version))

module _ (K : Crypt) where
  -- `NodeIDFromPublicKey`
  unfoldable pub node_id_from_public_key : Text → Option Text
  node_id_from_public_key key = if not (length key == 32) then none else some (K.short_digest key)

  abbrev pub remote_of : Text → Text → HandshakeError ⊎ Remote
  remote_of key listen = elim (node_id_from_public_key key) [
    | none ↦ inl invalid_key
    | some id ↦ inr (record { id = id; listen = listen; key = key })
  ]

  -- `HandshakeOutbound` up to its first write.
  unfoldable pub first_hello : Local → Text → Hello
  first_hello l challenge = record {
    magic = l.magic;
    version = l.version;
    pub_key = l.identity.public_key;
    listen_addr = l.listen_addr;
    nonce = challenge;
  }

  -- The checks of `HandshakeOutbound` on the answer.
  unfoldable pub check_ack : Local → Text → HelloAck → HandshakeError ⊎ Remote
  check_ack l challenge a =
      if not (text_eq a.magic l.magic) || not (a.version ==ℤ l.version)
      then inl network_mismatch
      else if not (text_eq a.echo_nonce challenge)
      then inl nonce_mismatch
      else if not (length a.pub_key == 32) || length a.nonce == 0
      then inl invalid_key
      else if not
          (K.verify a.pub_key (handshake_sig_msg challenge l.magic l.version) a.sig_over_echo)
      then inl signature_invalid
      else remote_of a.pub_key a.listen_addr

  unfoldable pub auth_for : Local → Text → Auth
  auth_for l challenge = record {
    echo_nonce = challenge;
    sig = K.sign l.identity.private_key (handshake_sig_msg challenge l.magic l.version);
  }

  -- `HandshakeOutbound` past its first write; the flag tells whether its second write succeeds.
  unfoldable pub outbound_rest :
      Local → Text → Bool → Option Message → HandshakeError ⊎ (Remote × Auth)
  outbound_rest l challenge wrote none = inl read_failed
  outbound_rest l challenge wrote (some (hello h)) = inl unexpected_type
  outbound_rest l challenge wrote (some (auth x)) = inl unexpected_type
  outbound_rest l challenge wrote (some other) = inl unexpected_type
  outbound_rest l challenge wrote (some (hello_ack a)) = elim (check_ack l challenge a) [
    | inl e ↦ inl e
    | inr r ↦ if not wrote then inl write_failed else inr (r, auth_for l a.nonce)
  ]

  -- The nonce is none where `rand.Read` fails; the flags tell whether each write succeeds; `answer` is
  -- what is read after the hello.
  unfoldable pub handshake_outbound :
      Local
      → Option Text
      → Bool
      → Bool
      → (Hello → Option Message)
      → HandshakeError ⊎ (Remote × Auth)
  handshake_outbound l none said wrote answer = inl no_random
  handshake_outbound l (some challenge) said wrote answer =
      if not said
      then inl write_failed
      else outbound_rest l challenge wrote (answer (first_hello l challenge))

  unfoldable pub check_hello : Local → Hello → HandshakeError ⊎ Remote
  check_hello l h =
      if not (text_eq h.magic l.magic) || not (h.version ==ℤ l.version)
      then inl network_mismatch
      else if not (length h.pub_key == 32) || length h.nonce == 0
      then inl invalid_key
      else remote_of h.pub_key h.listen_addr

  unfoldable pub ack_for : Local → Text → Text → HelloAck
  ack_for l challenge echo = record {
    magic = l.magic;
    version = l.version;
    pub_key = l.identity.public_key;
    listen_addr = l.listen_addr;
    nonce = challenge;
    echo_nonce = echo;
    sig_over_echo = K.sign l.identity.private_key (handshake_sig_msg echo l.magic l.version);
  }

  -- `HandshakeInbound` up to its write, with its nonce, which is none where `rand.Read` fails.
  unfoldable pub inbound_start :
      Local → Option Text → Bool → Option Message → HandshakeError ⊎ (Remote × Text × HelloAck)
  inbound_start l challenge wrote none = inl read_failed
  inbound_start l challenge wrote (some (hello_ack a)) = inl unexpected_type
  inbound_start l challenge wrote (some (auth x)) = inl unexpected_type
  inbound_start l challenge wrote (some other) = inl unexpected_type
  inbound_start l challenge wrote (some (hello h)) = elim (check_hello l h) [
    | inl e ↦ inl e
    | inr r ↦ elim challenge [
      | none ↦ inl no_random
      | some n ↦ if not wrote then inl write_failed else inr (r, n, ack_for l n h.nonce)
    ]
  ]

  -- `HandshakeInbound` past its write.
  unfoldable pub inbound_rest : Local → Text → Remote → Option Message → HandshakeError ⊎ Remote
  inbound_rest l challenge r none = inl read_failed
  inbound_rest l challenge r (some (hello h)) = inl unexpected_type
  inbound_rest l challenge r (some (hello_ack a)) = inl unexpected_type
  inbound_rest l challenge r (some other) = inl unexpected_type
  inbound_rest l challenge r (some (auth x)) =
      if not (text_eq x.echo_nonce challenge)
      then inl nonce_mismatch
      else if not (K.verify r.key (handshake_sig_msg challenge l.magic l.version) x.sig)
      then inl signature_invalid
      else inr r

  -- `answer` is what is read after the acknowledgement.
  unfoldable pub handshake_inbound :
      Local
      → Option Text
      → Bool
      → Option Message
      → (HelloAck → Option Message)
      → HandshakeError ⊎ Remote
  handshake_inbound l challenge wrote first answer = elim (inbound_start l challenge wrote first) [
    | inl e ↦ inl e
    | inr (r, n, a) ↦ inbound_rest l n r (answer a)
  ]
