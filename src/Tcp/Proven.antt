-- ===== src/Tcp/Proven.antt =====
-- internal/transport/tcp/handshake.go: what a side knows of a peer that it accepts.
use go_sim_chain.Prelude.{
  ◌≡◌, refl, sym, ap, ◌∙◌, ◌⊎◌, inl, inr, Option, none, some, Bool, true, false, arith, length,
  Text, text_eq,
}
use go_sim_chain.Prelude.Int.{◌==ℤ◌}
use go_sim_chain.Tcp.Handshake.{
  Crypt, Hello, HelloAck, Auth, Message, hello, hello_ack, auth, other, HandshakeError, Local,
  Remote, handshake_sig_msg, node_id_from_public_key, first_hello, check_ack, auth_for,
  outbound_rest, handshake_outbound, check_hello, ack_for, inbound_start, inbound_rest,
  handshake_inbound,
}

-- What an acknowledgement `x` shows of the peer `r`, to the side that sent the nonce `m`.
pub record IsProven (K : Crypt) (l : Local) (m : Text) (x : HelloAck) (r : Remote) : Type 0 where
  pub network : (text_eq x.magic l.magic ≡ true) × ((x.version ==ℤ l.version) ≡ true)
  pub echoed : text_eq x.echo_nonce m ≡ true
  pub key_size : length x.pub_key ≡ 32
  pub peer : r ≡ (record { id = K.short_digest x.pub_key; listen = x.listen_addr; key = x.pub_key })
  pub signed : K.verify x.pub_key (handshake_sig_msg m l.magic l.version) x.sig_over_echo ≡ true

check_ack-IsProven :
    (K : Crypt) (l : Local) (m : Text) (x : HelloAck) (r : Remote)
    → check_ack K l m x ≡ inr r
    → IsProven K l m x r
unfolding check_ack node_id_from_public_key
check_ack-IsProven K l m x r e = record {
  network = ground arith;
  echoed = ground arith;
  key_size = ground arith;
  peer = ground arith;
  signed = ground arith;
}

clash {ℓ} : {A : Type ℓ} (e : HandshakeError) {B : Type 0} {b : B} → inl e ≡ inr b → A
clash e h = cc

outbound_rest-IsProven :
    (K : Crypt) (l : Local) (m : Text) (wrote : Bool) (msg : Option Message) (r : Remote) (y : Auth)
    → outbound_rest K l m wrote msg ≡ inr (r, y)
    → (x : HelloAck) × (msg ≡ some (hello_ack x)) × IsProven K l m x r × (y ≡ auth_for K l x.nonce)
unfolding outbound_rest
outbound_rest-IsProven K l m wrote none r y e = clash _ e
outbound_rest-IsProven K l m wrote (some (hello h)) r y e = clash _ e
outbound_rest-IsProven K l m wrote (some (auth x)) r y e = clash _ e
outbound_rest-IsProven K l m wrote (some other) r y e = clash _ e
outbound_rest-IsProven K l m wrote (some (hello_ack x)) r y e =
    (x, refl, check_ack-IsProven K l m x r (ground arith), ground arith)

-- Where `HandshakeOutbound` returns a peer, what it read after its hello is an acknowledgement with the
-- same magic and version that echoes its nonce and whose signature over that nonce verifies under the
-- key, of 32 bytes, that the peer is named after; and it answers the peer's nonce.
pub handshake_outbound-IsProven :
    (K : Crypt) (l : Local) (m : Text) (said wrote : Bool) (answer : Hello → Option Message)
    (r : Remote) (y : Auth)
    → handshake_outbound K l (some m) said wrote answer ≡ inr (r, y)
    → (x : HelloAck) × (answer (first_hello K l m) ≡ some (hello_ack x))
      × IsProven K l m x r
      × (y ≡ auth_for K l x.nonce)
unfolding handshake_outbound
handshake_outbound-IsProven K l m true wrote answer r y e =
    outbound_rest-IsProven K l m wrote (answer (first_hello K l m)) r y e
handshake_outbound-IsProven K l m false wrote answer r y e = clash _ e

inbound_rest-signed :
    (K : Crypt) (l : Local) (n : Text) (p r : Remote) (msg : Option Message)
    → inbound_rest K l n p msg ≡ inr r
    → (y : Auth) × (msg ≡ some (auth y))
      × (r ≡ p)
      × (text_eq y.echo_nonce n ≡ true)
      × (K.verify p.key (handshake_sig_msg n l.magic l.version) y.sig ≡ true)
unfolding inbound_rest
inbound_rest-signed K l n p r none e = clash _ e
inbound_rest-signed K l n p r (some (hello h)) e = clash _ e
inbound_rest-signed K l n p r (some (hello_ack x)) e = clash _ e
inbound_rest-signed K l n p r (some other) e = clash _ e
inbound_rest-signed K l n p r (some (auth y)) e =
    (y, refl, ground arith, ground arith, ground arith)

check_hello-names :
    (K : Crypt) (l : Local) (h : Hello) (r : Remote)
    → check_hello K l h ≡ inr r
    → (r ≡ (record { id = K.short_digest h.pub_key; listen = h.listen_addr; key = h.pub_key }))
      × (length h.pub_key ≡ 32)
      × (text_eq h.magic l.magic ≡ true)
      × ((h.version ==ℤ l.version) ≡ true)
unfolding check_hello node_id_from_public_key
check_hello-names K l h r e = ground arith

inbound_start-names :
    (K : Crypt) (l : Local) (challenge : Option Text) (wrote : Bool) (first : Option Message)
    (p : Remote) (n : Text) (a : HelloAck)
    → inbound_start K l challenge wrote first ≡ inr (p, n, a)
    → (h : Hello) × (first ≡ some (hello h))
      × (challenge ≡ some n)
      × (check_hello K l h ≡ inr p)
      × (a ≡ ack_for K l n h.nonce)
unfolding inbound_start
inbound_start-names K l m wrote none p n a e = clash _ e
inbound_start-names K l m wrote (some (hello_ack x)) p n a e = clash _ e
inbound_start-names K l m wrote (some (auth x)) p n a e = clash _ e
inbound_start-names K l m wrote (some other) p n a e = clash _ e
inbound_start-names K l m wrote (some (hello h)) p n a e =
    (h, refl, ground arith, ground arith, ground arith)

inbound_parts :
    (K : Crypt) (l : Local) (s : HandshakeError ⊎ (Remote × Text × HelloAck))
    (answer : HelloAck → Option Message) (r : Remote)
    → (elim s [ inl e ↦ inl e | inr (p, n, a) ↦ inbound_rest K l n p (answer a) ]) ≡ inr r
    → (p : Remote) × (n : Text) × (a : HelloAck) × (s ≡ inr (p, n, a))
      × (inbound_rest K l n p (answer a) ≡ inr r)
inbound_parts K l (inl e) answer r h = clash e h
inbound_parts K l (inr (p, n, a)) answer r h = (p, n, a, refl, h)

-- Where `HandshakeInbound` returns a peer, it first read a hello with the same magic and version and a
-- key of 32 bytes that the peer is named after, drew a nonce, and then, after an acknowledgement with its own nonce,
-- a message that echoes this nonce and whose signature over it verifies under that key.
pub handshake_inbound-proven :
    (K : Crypt) (l : Local) (challenge : Option Text) (wrote : Bool) (first : Option Message)
    (answer : HelloAck → Option Message) (r : Remote)
    → handshake_inbound K l challenge wrote first answer ≡ inr r
    → (n : Text) × (h : Hello) × (y : Auth) × (challenge ≡ some n)
      × (first ≡ some (hello h))
      × (text_eq h.magic l.magic ≡ true)
      × ((h.version ==ℤ l.version) ≡ true)
      × (length h.pub_key ≡ 32)
      × (r ≡ (record { id = K.short_digest h.pub_key; listen = h.listen_addr; key = h.pub_key }))
      × (answer (ack_for K l n h.nonce) ≡ some (auth y))
      × (text_eq y.echo_nonce n ≡ true)
      × (K.verify h.pub_key (handshake_sig_msg n l.magic l.version) y.sig ≡ true)
unfolding handshake_inbound
handshake_inbound-proven K l challenge wrote first answer r e =
    let (p, n, a, start, rest) =
      inbound_parts K l (inbound_start K l challenge wrote first) answer r e in
    let (h, said, drawn, checked, acked) =
      inbound_start-names K l challenge wrote first p n a start in
    let (named, size, net, ver) = check_hello-names K l h p checked in
    let (y, read, same, echo, signed) = inbound_rest-signed K l n p r (answer a) rest in
    (
      n,
      h,
      y,
      drawn,
      said,
      net,
      ver,
      size,
      same ∙ named,
      ap answer (sym acked) ∙ read,
      echo,
      ap (λ q. K.verify q.key (handshake_sig_msg n l.magic l.version) y.sig) (sym named) ∙ signed,
    )
