-- ===== src/Tests/Shakes.antt =====
-- The theorems on frames and on the handshake, with a codec that copies and signatures that anyone can
-- make.
use go_sim_chain.Prelude.{
  ◌≤◌, ◌<◌, ◌≡◌, refl, inr, ◌++◌, ◌^◌, some, true, arith, length, take, Text, text, text_eq,
  text_eq_iff,
}
use go_sim_chain.Prelude.Int.{pos, ◌==ℤ◌}
use go_sim_chain.Tcp.Frame.{Codec, encode_frame, read_frame, read_frame-encode_frame}
use go_sim_chain.Tcp.Handshake.{
  Crypt, Hello, Auth, handshake_sig_msg, Local, HelloAck, hello, hello_ack, auth, ack_for, auth_for,
  first_hello, handshake_outbound, handshake_inbound,
}
use go_sim_chain.Tcp.Proven.{IsProven, handshake_outbound-IsProven, handshake_inbound-proven}
use go_sim_chain.Tcp.Agreement.{IsHonest, seen_as, handshake-accepts}

abbrev copying : Codec Text
copying = record { marshal = λ m. some m; unmarshal = λ b. some b }

abbrev word : Text
word = text "block"

word-short : 0 < length word
word-short = omega arith

word-fits : length word ≤ 9
word-fits = omega arith

word-small : length word < 2 ^ 32
word-small = omega arith

read_frame-encode_frame_example :
    (frame : Text) × (encode_frame copying word 9 ≡ inr frame)
    × (read_frame copying 9 (λ n. true) (frame ++ text "rest") ≡ inr (word, text "rest"))
read_frame-encode_frame_example =
    read_frame-encode_frame copying word word (text "rest") 9 (λ n. true) refl refl word-short
      word-fits word-small refl

abbrev open_keys : Crypt
open_keys = record {
  sign = λ k m. k ++ m;
  verify = λ k m s. text_eq s (k ++ m);
  short_digest = take 4;
}

abbrev side : Text → Local
side key = record {
  identity = record { node_id = take 4 key; public_key = key; private_key = key };
  listen_addr = text "localhost:9000";
  magic = text "sim";
  version = pos 1;
}

abbrev ann : Local
ann = side (text "ann-----------------------------")

abbrev bob : Local
bob = side (text "bob-----------------------------")

ann-IsHonest : IsHonest open_keys ann
ann-IsHonest = record {
  key_size = refl;
  signs = λ m.
      ground (arith, text_eq_iff (ann.identity.public_key ++ m) (ann.identity.public_key ++ m));
}

bob-IsHonest : IsHonest open_keys bob
bob-IsHonest = record {
  key_size = refl;
  signs = λ m.
      ground (arith, text_eq_iff (bob.identity.public_key ++ m) (bob.identity.public_key ++ m));
}

seven-short : 0 < length (text "7")
seven-short = omega arith

handshake-accepts_example :
    (handshake_outbound open_keys ann
        (some (text "7"))
        true
        true
        (λ h. some (hello_ack (ack_for open_keys bob (text "7") h.nonce)))
      ≡ inr (seen_as open_keys bob, auth_for open_keys ann (text "7")))
    × (handshake_inbound open_keys bob
          (some (text "7"))
          true
          (some (hello (first_hello open_keys ann (text "7"))))
          (λ x. some (auth (auth_for open_keys ann x.nonce)))
        ≡ inr (seen_as open_keys ann))
handshake-accepts_example =
    handshake-accepts open_keys ann bob ann-IsHonest bob-IsHonest refl refl (text "7") (text "7")
      seven-short seven-short

accepted :
    handshake_outbound open_keys ann
      (some (text "7"))
      true
      true
      (λ h. some (hello_ack (ack_for open_keys bob (text "7") h.nonce)))
    ≡ inr (seen_as open_keys bob, auth_for open_keys ann (text "7"))
accepted =
    let (e, _) =
      handshake-accepts open_keys ann bob ann-IsHonest bob-IsHonest refl refl (text "7") (text "7")
        seven-short seven-short in
    e

handshake_outbound-IsProven_example :
    (x : HelloAck) × (some
        (hello_ack (ack_for open_keys bob (text "7") (first_hello open_keys ann (text "7")).nonce))
      ≡ some (hello_ack x))
    × IsProven open_keys ann (text "7") x (seen_as open_keys bob)
    × (auth_for open_keys ann (text "7") ≡ auth_for open_keys ann x.nonce)
handshake_outbound-IsProven_example =
    handshake_outbound-IsProven open_keys ann (text "7") true true
      (λ h. some (hello_ack (ack_for open_keys bob (text "7") h.nonce))) (seen_as open_keys bob)
      (auth_for open_keys ann (text "7")) accepted

answered :
    handshake_inbound open_keys bob
      (some (text "7"))
      true
      (some (hello (first_hello open_keys ann (text "7"))))
      (λ x. some (auth (auth_for open_keys ann x.nonce)))
    ≡ inr (seen_as open_keys ann)
answered =
    let (_, e) =
      handshake-accepts open_keys ann bob ann-IsHonest bob-IsHonest refl refl (text "7") (text "7")
        seven-short seven-short in
    e

handshake_inbound-proven_example :
    (n : Text) × (h : Hello) × (y : Auth) × (some (text "7") ≡ some n)
    × (some (hello (first_hello open_keys ann (text "7"))) ≡ some (hello h))
    × (text_eq h.magic (text "sim") ≡ true)
    × ((h.version ==ℤ pos 1) ≡ true)
    × (length h.pub_key ≡ 32)
    × (seen_as open_keys ann
        ≡ (record { id = take 4 h.pub_key; listen = h.listen_addr; key = h.pub_key }))
    × (some (auth (auth_for open_keys ann (ack_for open_keys bob n h.nonce).nonce)) ≡ some (auth y))
    × (text_eq y.echo_nonce n ≡ true)
    × (text_eq y.sig (h.pub_key ++ handshake_sig_msg n (text "sim") (pos 1)) ≡ true)
handshake_inbound-proven_example =
    handshake_inbound-proven open_keys bob (some (text "7")) true
      (some (hello (first_hello open_keys ann (text "7"))))
      (λ x. some (auth (auth_for open_keys ann x.nonce))) (seen_as open_keys ann) answered
