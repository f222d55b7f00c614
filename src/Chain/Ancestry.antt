-- ===== src/Chain/Ancestry.antt =====
-- Ancestors in a valid block tree, and the walks of Walk.antt along them.
use go_sim_chain.Prelude.{
  ℕ, zero, suc, ◌+◌, ◌-◌, ◌≤◌, ◌<◌, ◌≡◌, ◌≢◌, refl, sym, ◌∙◌, ap, subst, inl, inr, List, [], ◌∷◌,
  some, false, nat_eq, arith, Bool-cases, ◌==◌, length,
}
use go_sim_chain.Map
use go_sim_chain.Types.{Hash, Block}
use go_sim_chain.Crypto.{Digests}
use go_sim_chain.Chain.State.{Blockchain, Result, ok}
use go_sim_chain.Chain.Walk.{parent_of, climb, meet, segment}
use go_sim_chain.Chain.Valid.{IsValid}

-- `bs` are the blocks from `h` down to `a`, newest first and without `a`; each links to the next by
-- its header.
abbrev pub Descent : Blockchain → Hash → List Block → Hash → Type 0
Descent bc h [] a = h ≡ a
Descent bc h (b ∷ bs) a =
    (Map.lookup h bc.blocks ≡ some b) × (0 < b.header.height) × Descent bc b.header.prev_hash bs a

-- `a` is `h` or one of its ancestors.
abbrev pub IsAncestor : Blockchain → Hash → Hash → Type 0
IsAncestor bc a h = (bs : List Block) × Descent bc h bs a

-- The block under `h` is stored and has height `n`.
pub record At (bc : Blockchain) (n : ℕ) (h : Hash) : Type 0 where
  pub block : Block
  pub found : Map.lookup h bc.blocks ≡ some block
  pub height : block.header.height ≡ n

pub At-unique : (bc : Blockchain) (m n : ℕ) (h : Hash) → At bc m h → At bc n h → m ≡ n
At-unique bc m n h x y = ground (arith, x.found, y.found, x.height, y.height)

pub climb_add :
    (bc : Blockchain) (k j m : ℕ) (h : Hash) → m ≡ k + j → climb bc m h ≡ climb bc j (climb bc k h)
unfolding climb
climb_add bc zero j m h e = let e' : m ≡ j = omega arith in rw e'
climb_add bc (suc k) j zero h e = absurd (omega arith)
climb_add bc (suc k) j (suc m) h e = climb_add bc k j m (parent_of bc h) (omega arith)

-- `r` is where the walks from `o` and `p`, both of height `n`, first agree.
abbrev pub Meets : Blockchain → ℕ → Hash → Hash → Result Hash → Type 0
Meets bc n o p r =
    (k : ℕ) × (k ≤ n)
    × (r ≡ ok (climb bc k o))
    × (climb bc k o ≡ climb bc k p)
    × ((j : ℕ) → j < k → climb bc j o ≢ climb bc j p)

module _ (D : Digests) (bc : Blockchain) (v : IsValid D bc) where
  At-height : (n : ℕ) (h : Hash) → At bc n h → Map.lookup h bc.height ≡ some n
  At-height n h a = (v.stored h a.block a.found).recorded ∙ ap some a.height

  pub height_of : (n : ℕ) (h : Hash) → At bc n h → Map.get_or h bc.height 0 ≡ n
  unfolding Map.get_or
  height_of n h a = ground (arith, At-height n h a)

  pub At-zero : (h : Hash) → At bc 0 h → h ≡ bc.genesis
  At-zero h a = elim (v.stored h a.block a.found).origin [
    | inl g ↦ g.here
    | inr c ↦ absurd (omega (arith, c.height_step, a.height))
  ]

  -- The parent map agrees with the header of a block above genesis.
  pub parent_of-prev_hash :
      (h : Hash) (b : Block)
      → Map.lookup h bc.blocks ≡ some b
      → 0 < b.header.height
      → (parent_of bc h ≡ b.header.prev_hash)
        × ((n : ℕ) → b.header.height ≡ suc n → At bc n b.header.prev_hash)
  unfolding parent_of Map.get_or
  parent_of-prev_hash h b e high = elim (v.stored h b e).origin [
    | inl g ↦ absurd (omega (arith, g.height_zero))
    | inr c ↦ (
      ground (arith, c.link),
      λ n s. record { block = c.above; found = c.found; height = omega (arith, c.height_step) },
    )
  ]

  pub At-parent_of : (n : ℕ) (h : Hash) → At bc (suc n) h → At bc n (parent_of bc h)
  At-parent_of n h a =
      let (e, up) = parent_of-prev_hash h a.block a.found (omega (arith, a.height)) in
      rw e (up n a.height)

  pub At-climb : (k n m : ℕ) (h : Hash) → m ≡ k + n → At bc m h → At bc n (climb bc k h)
  unfolding climb
  At-climb zero n m h e a = let e' : n ≡ m = omega arith in rw e' a
  At-climb (suc k) n zero h e a = absurd (omega arith)
  At-climb (suc k) n (suc m) h e a =
      At-climb k n m (parent_of bc h) (omega arith) (At-parent_of m h a)

  -- A descent is a climb.
  pub Descent-climb :
      (n : ℕ) (h : Hash) (bs : List Block) (a : Hash)
      → At bc n h
      → Descent bc h bs a
      → (a ≡ climb bc (length bs) h) × (length bs ≤ n)
  unfolding climb
  Descent-climb n h [] a x d = (sym d, omega arith)
  Descent-climb zero h (b ∷ bs) a x d = absurd (ground (arith, x.found, d.0, d.1, x.height))
  Descent-climb (suc n) h (b ∷ bs) a x d =
      let (e, up) = parent_of-prev_hash h b d.0 d.1 in
      let at = up n (ground (arith, x.found, d.0, x.height)) in
      let (p, q) = Descent-climb n b.header.prev_hash bs a at d.2 in
      (p ∙ ap (climb bc (length bs)) (sym e), omega arith)

  climb_below :
      (k n : ℕ) (h : Hash) → At bc (suc n) h → k ≤ n → (h == climb bc k (parent_of bc h)) ≡ false
  climb_below k n h a le = elim (Bool-cases (h == climb bc k (parent_of bc h))) [
    | inr away ↦ away
    | inl same ↦
        let e : climb bc k (parent_of bc h) ≡ h = ground arith in
        let low = At-climb k (n - k) n (parent_of bc h) (omega arith) (At-parent_of n h a) in
        absurd (omega (arith, At-unique bc (suc n) (n - k) h a (subst (At bc (n - k)) e low)))
  ]

  -- The walk of `segment` over `k` parent links ends within its fuel, and is the descent.
  pub segment-Descent :
      (fuel k n : ℕ) (h : Hash)
      → At bc n h
      → k ≤ n
      → k < fuel
      → (bs : List Block) × (segment bc fuel h (climb bc k h) ≡ ok bs)
        × Descent bc h bs (climb bc k h)
  unfolding segment climb
  segment-Descent zero k n h a le lt = absurd (omega arith)
  segment-Descent (suc fuel) zero n h a le lt = ([], ground arith, refl)
  segment-Descent (suc fuel) (suc k) zero h a le lt = absurd (omega arith)
  segment-Descent (suc fuel) (suc k) (suc n) h a le lt =
      let high : 0 < a.block.header.height = omega (arith, a.height) in
      let (e, up) = parent_of-prev_hash h a.block a.found high in
      let at = At-parent_of n h a in
      let (bs, p, d) = segment-Descent fuel k n (parent_of bc h) at (omega arith) (omega arith) in
      let away : (h == climb bc k (parent_of bc h)) ≡ false = climb_below k n h a (omega arith) in
      (
        a.block ∷ bs,
        rw (away, a.found, p) refl,
        (a.found, high, subst (λ x. Descent bc x bs (climb bc k (parent_of bc h))) e d),
      )

  not-climb_below :
      (k : ℕ) (o p : Hash)
      → o ≢ p
      → ((j : ℕ) → j < k → climb bc j (parent_of bc o) ≢ climb bc j (parent_of bc p))
      → (j : ℕ) → j < suc k
      → climb bc j o ≢ climb bc j p
  unfolding climb
  not-climb_below k o p differ rest zero lt = differ
  not-climb_below k o p differ rest (suc j) lt = rest j (omega arith)

  -- `meet` ends within its fuel, at the first common hash of two walks from the same height.
  pub meet-Meets :
      (fuel n : ℕ) (o p : Hash)
      → At bc n o
      → At bc n p
      → n < fuel
      → Meets bc n o p (meet bc fuel o p)
  unfolding meet climb
  meet-Meets zero n o p x y lt = absurd (omega arith)
  meet-Meets (suc fuel) zero o p x y lt =
      let e : o ≡ p = At-zero o x ∙ sym (At-zero p y) in
      (0, omega arith, ground arith, e, λ j h. absurd (omega arith))
  meet-Meets (suc fuel) (suc n) o p x y lt = elim (Bool-cases (o == p)) [
    | inl same ↦ (0, omega arith, rw same, ground arith, λ j h. absurd (omega arith))
    | inr differ ↦
        let (k, le, e, both, apart) =
          meet-Meets fuel n (parent_of bc o) (parent_of bc p) (At-parent_of n o x)
            (At-parent_of n p y) (omega arith) in
        (suc k, omega arith, rw differ e, both, not-climb_below k o p (λ same. ground arith) apart)
  ]
