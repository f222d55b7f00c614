-- ===== src/Store/Disk.antt =====
-- internal/store/store.go: the files, the manifest, `Open` and `LoadMainChain`. A file that is there can
-- be read; a write or a removal may fail.
use go_sim_chain.Prelude.{
  ℕ, zero, suc, List, [], ◌∷◌, Option, none, some, Bool, true, false, ◌==◌, if◌then◌else◌, nat_eq,
}
use go_sim_chain.Map
use go_sim_chain.Map.{Map}
use go_sim_chain.Types.{Hash, Block, is_zero}
use go_sim_chain.Crypto.{Digests, hash_header_nonce, hash_transactions}

abbrev pub Bytes : Type 0
Bytes = List ℕ

pub record Manifest : Type 0 where
  pub version : ℕ
  pub difficulty : ℕ
  pub tip_height : ℕ
  pub tip_hash : Hash
  pub updated_at : ℕ

-- `json.MarshalIndent` and `json.Unmarshal` at the two types that are stored.
pub record Format : Type 0 where
  pub encode_manifest : Manifest → Option Bytes
  pub decode_manifest : Bytes → Option Manifest
  pub encode_block : Block → Option Bytes
  pub decode_block : Bytes → Option Block

-- `manifest.json`, the block files by height, the number of writes and removals so far, and which of
-- them fail.
pub record Disk : Type 0 where
  pub manifest : Option Bytes
  pub blocks : Map ℕ Bytes
  pub calls : ℕ
  pub fails : ℕ → Bool

pub record Store : Type 0 where
  pub disk : Disk
  pub manifest : Manifest

pub data StoreError : Type 0 where
  write_failed bad_json marshal_failed file_missing difficulty_mismatch ancestor_missing :
      StoreError

-- `writeFileAtomic` leaves the file as it was where it fails.
unfoldable pub write_file : Disk → (Disk → Disk) → Disk × Bool
write_file d change =
    let d' = record d { calls = suc d.calls } in
    if d.fails d.calls then (d', false) else (change d', true)

pub data ReadBlock : Type 0 where
  missing broken : ReadBlock
  found : Block → ReadBlock

pub data Loaded : Type 0 where
  load_failed : StoreError → Loaded
  loaded : List Block → Loaded

abbrev pub with_block : Block → Loaded → Loaded
with_block b (load_failed e) = load_failed e
with_block b (loaded bs) = loaded (b ∷ bs)

module _ (F : Format) where
  unfoldable pub save_manifest : Store → ℕ → Store × Option StoreError
  unfolding write_file
  save_manifest s now =
      let s' = record s { manifest = record (s.manifest) { updated_at = now } } in
      elim (F.encode_manifest s'.manifest) [
        | none ↦ (s', some marshal_failed)
        | some raw ↦
            let (d, done) = write_file s'.disk (λ d. record d { manifest = some raw }) in
            (record s' { disk = d }, if done then none else some write_failed)
      ]

  unfoldable pub read_block_file : Disk → ℕ → ReadBlock
  read_block_file d height = elim (Map.lookup height d.blocks) [
    | none ↦ missing
    | some raw ↦ elim (F.decode_block raw) [ none ↦ broken | some b ↦ found b ]
  ]

  unfoldable pub encode_to_file : Store → Block → Store × Option StoreError
  unfolding write_file
  encode_to_file s b = elim (F.encode_block b) [
    | none ↦ (s, some marshal_failed)
    | some raw ↦
        let (d, done) =
          write_file s.disk (λ d. record d { blocks = Map.insert b.header.height raw d.blocks }) in
        (record s { disk = d }, if done then none else some write_failed)
  ]

  module _ (D : Digests) where
    -- A block that lacks its hash is written with it.
    unfoldable pub write_block_file : Store → Block → Store × Option StoreError
    unfolding encode_to_file
    write_block_file s b =
        if is_zero b.hash
        then elim (hash_header_nonce D b.header b.nonce) [
          | none ↦ (s, some marshal_failed)
          | some h ↦ encode_to_file s (record b { hash = h })
        ]
        else encode_to_file s b

    -- The genesis block with its hash and root.
    unfoldable pub named_genesis : Block → Option Block
    named_genesis g =
        let header = record (g.header) { tx_root = hash_transactions D g.txs } in
        elim (hash_header_nonce D header g.nonce) [
          | none ↦ none
          | some h ↦ some (record g { header = header; hash = h })
        ]

    unfoldable pub init_new : Disk → ℕ → Block → ℕ → Store × Option StoreError
    unfolding named_genesis write_block_file save_manifest
    init_new d difficulty genesis now =
        let blank : Manifest = record {
          version = 0;
          difficulty = 0;
          tip_height = 0;
          tip_hash = 0;
          updated_at = 0;
        } in
        let s : Store = record { disk = d; manifest = blank } in
        elim (named_genesis genesis) [
          | none ↦ (s, some marshal_failed)
          | some g ↦
              let (s', error) = write_block_file s g in
              let first : Manifest = record {
                version = 1;
                difficulty = difficulty;
                tip_height = 0;
                tip_hash = g.hash;
                updated_at = now;
              } in
              elim error [
                | some e ↦ (s', some e)
                | none ↦ save_manifest (record s' { manifest = first }) now
              ]
        ]

    -- The disk that is left is that of the store.
    unfoldable pub open_store : Disk → ℕ → Block → ℕ → Store × Option StoreError
    unfolding init_new
    open_store d difficulty genesis now =
        let blank : Manifest = record {
          version = 0;
          difficulty = 0;
          tip_height = 0;
          tip_hash = 0;
          updated_at = 0;
        } in
        elim d.manifest [
          | none ↦ init_new d difficulty genesis now
          | some raw ↦ elim (F.decode_manifest raw) [
            | none ↦ (record { disk = d; manifest = blank }, some bad_json)
            | some m ↦ (
              record { disk = d; manifest = m },
              if m.difficulty == difficulty then none else some difficulty_mismatch,
            )
          ]
        ]

  -- The chain ends before the first file that is missing; `last` is the hash of the block before it.
  unfoldable pub cut_off : Store → ℕ → Hash → ℕ → Store × Loaded
  unfolding save_manifest
  cut_off s zero last now = (s, load_failed file_missing)
  cut_off s (suc height) last now = (
    (save_manifest
        (record s { manifest = record (s.manifest) { tip_height = height; tip_hash = last } })
        now).0,
    loaded [],
  )

  -- The heights from `height` on, `rounds` of them.
  unfoldable pub load_loop : ℕ → ℕ → Hash → Store → ℕ → Store × Loaded
  unfolding read_block_file cut_off
  load_loop zero height last s now = (s, loaded [])
  load_loop (suc rounds) height last s now = elim (read_block_file s.disk height) [
    | missing ↦ cut_off s height last now
    | broken ↦ (s, load_failed bad_json)
    | found b ↦
        let (s', rest) = load_loop rounds (suc height) b.hash s now in (s', with_block b rest)
  ]

  unfoldable pub load_main_chain : Store → ℕ → Store × Loaded
  unfolding load_loop
  load_main_chain s now = load_loop (suc s.manifest.tip_height) 0 0 s now
