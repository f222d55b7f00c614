-- ===== src/Tests/Json.antt =====
-- A format for the files of the tests.
use go_sim_chain.Prelude.{
  ℕ, zero, suc, ◌≡◌, refl, ap, List, [], ◌∷◌, ◌++◌, Option, none, some, length, take, drop, Text,
}
use go_sim_chain.Prelude.Int.{ℤ, pos, negsuc}
use go_sim_chain.Types.{Transaction, Block}
use go_sim_chain.Store.Disk.{Manifest, Format}
use go_sim_chain.Store.Saved.{IsFormat, Legible}

infixl 20 ◌>>=◌
abbrev ◌>>=◌ : {A B : Type 0} → Option A → (A → Option B) → Option B
none >>= f = none
some a >>= f = f a

abbrev put_text : Text → List ℕ → List ℕ
put_text t rest = length t ∷ (t ++ rest)

abbrev put_int : ℤ → List ℕ → List ℕ
put_int (pos n) rest = 0 ∷ n ∷ rest
put_int (negsuc n) rest = 1 ∷ n ∷ rest

abbrev get_text : List ℕ → Option (Text × List ℕ)
get_text [] = none
get_text (n ∷ r) = some (take n r, drop n r)

abbrev get_int : List ℕ → Option (ℤ × List ℕ)
get_int (zero ∷ n ∷ r) = some (pos n, r)
get_int (suc _ ∷ n ∷ r) = some (negsuc n, r)
get_int _ = none

abbrev put_tx : Transaction → List ℕ → List ℕ
put_tx tx rest = put_text tx.id (put_int tx.timestamp (put_text tx.payload rest))

abbrev get_tx : List ℕ → Option (Transaction × List ℕ)
get_tx r = do
  (id, r1) ← get_text r
  (at, r2) ← get_int r1
  (payload, r3) ← get_text r2
  some (record { id = id; timestamp = at; payload = payload }, r3)

abbrev put_txs : List Transaction → List ℕ → List ℕ
put_txs [] rest = rest
put_txs (tx ∷ txs) rest = put_tx tx (put_txs txs rest)

abbrev get_txs : ℕ → List ℕ → Option (List Transaction)
get_txs zero r = some []
get_txs (suc n) r = do (tx, r1) ← get_tx r; txs ← get_txs n r1; some (tx ∷ txs)

abbrev pub put_block : Block → List ℕ
put_block b =
    b.header.height
    ∷ b.header.prev_hash
    ∷ b.header.difficulty
    ∷ b.header.tx_root
    ∷ b.nonce
    ∷ b.hash
    ∷ length b.txs
    ∷ put_int b.header.timestamp (put_text b.header.miner_id (put_txs b.txs []))

abbrev get_block : List ℕ → Option Block
get_block (height ∷ prev ∷ difficulty ∷ root ∷ nonce ∷ hash ∷ n ∷ r) = do
  (at, r1) ← get_int r
  (miner, r2) ← get_text r1
  txs ← get_txs n r2
  some (record {
    header = record {
      height = height;
      prev_hash = prev;
      timestamp = at;
      difficulty = difficulty;
      miner_id = miner;
      tx_root = root;
    };
    nonce = nonce;
    hash = hash;
    txs = txs;
  })
get_block _ = none

abbrev get_manifest : List ℕ → Option Manifest
get_manifest (version ∷ difficulty ∷ height ∷ hash ∷ at ∷ []) = some (record {
  version = version;
  difficulty = difficulty;
  tip_height = height;
  tip_hash = hash;
  updated_at = at;
})
get_manifest _ = none

abbrev pub format : Format
format = record {
  encode_manifest =
      λ m. some (m.version ∷ m.difficulty ∷ m.tip_height ∷ m.tip_hash ∷ m.updated_at ∷ []);
  decode_manifest = get_manifest;
  encode_block = λ b. some (put_block b);
  decode_block = get_block;
}

take-append : (t r : List ℕ) → take (length t) (t ++ r) ≡ t
take-append [] r = refl
take-append (x ∷ t) r = ap (λ q. x ∷ q) (take-append t r)

drop-append : (t r : List ℕ) → drop (length t) (t ++ r) ≡ r
drop-append [] r = refl
drop-append (x ∷ t) r = drop-append t r

get_text-put_text : (t r : List ℕ) → get_text (put_text t r) ≡ some (t, r)
get_text-put_text t r = rw (take-append t r, drop-append t r) refl

get_int-put_int : (i : ℤ) (r : List ℕ) → get_int (put_int i r) ≡ some (i, r)
get_int-put_int (pos n) r = refl
get_int-put_int (negsuc n) r = refl

get_tx-put_tx : (tx : Transaction) (r : List ℕ) → get_tx (put_tx tx r) ≡ some (tx, r)
get_tx-put_tx tx r =
    rw
      (
        take-append tx.id (put_int tx.timestamp (put_text tx.payload r)),
        drop-append tx.id (put_int tx.timestamp (put_text tx.payload r)),
        get_int-put_int tx.timestamp (put_text tx.payload r),
        take-append tx.payload r,
        drop-append tx.payload r,
      )
      refl

get_txs-put_txs : (txs : List Transaction) → get_txs (length txs) (put_txs txs []) ≡ some txs
get_txs-put_txs [] = refl
get_txs-put_txs (tx ∷ txs) = rw (get_tx-put_tx tx (put_txs txs []), get_txs-put_txs txs) refl

get_block-put_block : (b : Block) → get_block (put_block b) ≡ some b
get_block-put_block b =
    rw
      (
        get_int-put_int b.header.timestamp (put_text b.header.miner_id (put_txs b.txs [])),
        take-append b.header.miner_id (put_txs b.txs []),
        drop-append b.header.miner_id (put_txs b.txs []),
        get_txs-put_txs b.txs,
      )
      refl

abbrev pub format-IsFormat : IsFormat format
format-IsFormat = record {
  block_text = put_block;
  manifest_text = λ m. m.version ∷ m.difficulty ∷ m.tip_height ∷ m.tip_hash ∷ m.updated_at ∷ [];
  encodes_block = λ b. refl;
  encodes_manifest = λ m. refl;
  decodes_manifest = λ m. refl;
}

-- This format gives back every block.
pub format-Legible : (b : Block) → Legible format-IsFormat b
format-Legible b = get_block-put_block b
