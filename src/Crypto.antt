-- ===== src/Crypto.antt =====
-- internal/crypto/pow.go: the hashes of headers and transaction lists, the proof of work test and
-- the work that a block counts for.
use go_sim_chain.Prelude.{
  ℕ, zero, suc, ◌+◌, ◌*◌, ◌/◌, ◌%◌, ◌^◌, List, [], ◌∷◌, ◌++◌, Option, none, some, Bool, true, false,
  leb, ◌==◌, if◌then◌else◌,
}
use go_sim_chain.Types.{Hash, Transaction, BlockHeader}

-- What Go's standard library supplies: SHA-256, and JSON of a header (which may fail).
pub record Digests : Type 0 where
  pub sha256 : List ℕ → Hash
  pub marshal_header : BlockHeader → Option (List ℕ)

-- `binary.LittleEndian.PutUint64` at n = 8
unfoldable pub le_bytes : ℕ → ℕ → List ℕ
le_bytes zero x = []
le_bytes (suc n) x = x % 256 ∷ le_bytes n (x / 256)

-- The bytes of a hash, most significant first.
unfoldable pub be_bytes : ℕ → ℕ → List ℕ
be_bytes zero x = []
be_bytes (suc n) x = (x / 256 ^ n) % 256 ∷ be_bytes n x

-- The loop of `HashTransactions` past the first transaction.
unfoldable pub joined : List Transaction → List ℕ
joined [] = []
joined (tx ∷ txs) = b'\n' ∷ (tx.id ++ joined txs)

unfoldable pub root_preimage : List Transaction → List ℕ
unfolding joined
root_preimage [] = []
root_preimage (tx ∷ txs) = tx.id ++ joined txs

module _ (D : Digests) where
  unfoldable pub hash_header_nonce : BlockHeader → ℕ → Option Hash
  hash_header_nonce header nonce = elim (D.marshal_header header) [
    | none ↦ none
    | some buf ↦ some (D.sha256 (buf ++ le_bytes 8 nonce))
  ]

  unfoldable pub hash_transactions : List Transaction → Hash
  hash_transactions txs = D.sha256 (root_preimage txs)

-- The inner loop of `LeadingZeroBits`, with `i` bits left, and whether it returned.
unfoldable pub scan_byte : ℕ → ℕ → ℕ → ℕ × Bool
scan_byte zero b count = (count, false)
scan_byte (suc i) b count =
    let rest = scan_byte i b (count + 1) in if (b / 2 ^ i) % 2 == 0 then rest else (count, true)

unfoldable pub scan_bytes : List ℕ → ℕ → ℕ
unfolding scan_byte
scan_bytes [] count = count
scan_bytes (b ∷ bs) count =
    let (count', returned) = scan_byte 8 b count in
    let next = scan_bytes bs (if b == 0 then count + 8 else count') in
    if b == 0 then next else if returned then count' else next

unfoldable pub leading_zero_bits : Hash → ℕ
unfolding scan_bytes be_bytes
leading_zero_bits h = scan_bytes (be_bytes 32 h) 0

unfoldable pub meets_difficulty : Hash → ℕ → Bool
unfolding leading_zero_bits
meets_difficulty h difficulty = leb difficulty (leading_zero_bits h)

unfoldable pub work_for_difficulty : ℕ → ℕ
work_for_difficulty difficulty = if difficulty == 0 then 1 else 1 * 2 ^ difficulty
