-- ===== src/Tcp/Frame.antt =====
-- internal/transport/tcp/tcp.go: messages on a stream, each after its length as 4 bytes.
use go_sim_chain.Prelude.{
  ℕ, zero, suc, ◌+◌, ◌*◌, ◌%◌, ◌^◌, ◌≤◌, ◌<◌, ◌≡◌, refl, sym, ap, ◌⊎◌, inl, inr, [], ◌∷◌, ◌++◌,
  Option, none, some, Bool, true, false, not, arith, ltb, ◌==◌, ◌||◌, if◌then◌else◌, length,
  length-append, take, drop, Text,
}
use go_sim_chain.Crypto.{be_bytes}

-- JSON of messages: `json.Marshal`, and `json.Unmarshal` of all the bytes.
pub record Codec (M : Type 0) : Type 0 where
  pub marshal : M → Option Text
  pub unmarshal : Text → Option M

pub data FrameError : Type 0 where
  marshal_failed too_large short_read invalid_length rate_limited unmarshal_failed : FrameError

-- `binary.BigEndian.Uint32` on 4 bytes, from the value of the bytes before.
unfoldable pub be_value : ℕ → Text → ℕ
be_value acc [] = acc
be_value acc (b ∷ bs) = be_value (acc * 256 + b) bs

-- `io.ReadFull` of `n` bytes, and what is left of the stream.
unfoldable pub read_full : ℕ → Text → Option (Text × Text)
read_full n input = if ltb (length input) n then none else some (take n input, drop n input)

module _ {M : Type 0} (C : Codec M) where
  unfoldable pub encode_frame : M → ℕ → FrameError ⊎ Text
  encode_frame msg max = elim (C.marshal msg) [
    | none ↦ inl marshal_failed
    | some raw ↦
        if ltb max (length raw)
        then inl too_large
        else inr (be_bytes 4 (length raw % 2 ^ 32) ++ raw)
  ]

  -- The body of a frame of `n` bytes.
  unfoldable pub read_body : ℕ → Text → FrameError ⊎ (M × Text)
  read_body n input = elim (read_full n input) [
    | none ↦ inl short_read
    | some (buf, rest) ↦ elim (C.unmarshal buf) [
      | none ↦ inl unmarshal_failed
      | some msg ↦ inr (msg, rest)
    ]
  ]

  -- `ReadFrameWithLimit`; `granted` tells whether the limiter, if there is one, lets `n` bytes pass in
  -- time.
  unfoldable pub read_frame : ℕ → (ℕ → Bool) → Text → FrameError ⊎ (M × Text)
  read_frame max granted input = elim (read_full 4 input) [
    | none ↦ inl short_read
    | some (head, rest) ↦
        let n = be_value 0 head in
        if n == 0 || ltb max n
        then inl invalid_length
        else if not (granted n)
        then inl rate_limited
        else read_body n rest
  ]

length-be_bytes : (n x : ℕ) → length (be_bytes n x) ≡ n
unfolding be_bytes
length-be_bytes zero x = refl
length-be_bytes (suc n) x = ap suc (length-be_bytes n x)

be_value-be_bytes : (x : ℕ) → x < 2 ^ 32 → be_value 0 (be_bytes 4 x) ≡ x
unfolding be_bytes be_value
be_value-be_bytes x lt = omega (arith, lt)

take-append : (xs ys : Text) → take (length xs) (xs ++ ys) ≡ xs
take-append [] ys = refl
take-append (x ∷ xs) ys = ap (◌∷◌ x) (take-append xs ys)

drop-append : (xs ys : Text) → drop (length xs) (xs ++ ys) ≡ ys
drop-append [] ys = refl
drop-append (x ∷ xs) ys = drop-append xs ys

append_assoc : (xs ys zs : Text) → (xs ++ ys) ++ zs ≡ xs ++ (ys ++ zs)
append_assoc [] ys zs = refl
append_assoc (x ∷ xs) ys zs = ap (◌∷◌ x) (append_assoc xs ys zs)

read_full-append : (n : ℕ) (xs ys : Text) → n ≡ length xs → read_full n (xs ++ ys) ≡ some (xs, ys)
unfolding read_full
read_full-append n xs ys e =
    let enough : ltb (length xs + length ys) (length xs) ≡ false = ground arith in
    rw (e, length-append xs ys, enough, take-append xs ys, drop-append xs ys) refl

-- A message whose JSON `raw` decodes to it again, is not empty, no longer than `max` and shorter
-- than 2 ^ 32 bytes, is encoded;
-- and where the limiter grants its bytes, it is read back from the front of any stream, of which the
-- rest is left.
pub read_frame-encode_frame :
    {M : Type 0} (C : Codec M) (msg : M) (raw rest : Text) (max : ℕ) (granted : ℕ → Bool)
    → C.marshal msg ≡ some raw
    → C.unmarshal raw ≡ some msg
    → 0 < length raw
    → length raw ≤ max
    → length raw < 2 ^ 32
    → granted (length raw) ≡ true
    → (frame : Text) × (encode_frame C msg max ≡ inr frame)
      × (read_frame C max granted (frame ++ rest) ≡ inr (msg, rest))
unfolding encode_frame read_frame read_body
read_frame-encode_frame C msg raw rest max granted made back some_bytes fits small grants =
    let n = length raw in
    let same : n % 2 ^ 32 ≡ n = omega (arith, small) in
    let light : ltb max n ≡ false = ground (arith, fits) in
    let there : (n == 0) ≡ false = ground (arith, some_bytes) in
    let head = read_full-append 4 (be_bytes 4 n) (raw ++ rest) (sym (length-be_bytes 4 n)) in
    let body = read_full-append n raw rest refl in
    (
      be_bytes 4 n ++ raw,
      rw (made, light, same, encode_frame) refl,
      rw
          (
            append_assoc (be_bytes 4 n) raw rest,
            head,
            be_value-be_bytes n small,
            there,
            light,
            grants,
            read_frame,
            body,
            back,
            read_body,
          )
          refl,
    )
