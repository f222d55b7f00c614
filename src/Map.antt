-- ===== src/Map.antt =====
-- Go's maps, as association lists. The order of the entries stands for one order of `range`.
use go_sim_chain.Prelude.{
  suc, ◌≤◌, ◌<◌, ◌≡◌, ◌≢◌, refl, List, [], ◌∷◌, Option, none, some, Bool, true, false, arith,
  length, if◌then◌else◌, if_either, if_cases, Eq, not, ◌&&◌, ◌||◌, subst,
}

abbrev pub Map {ℓ κ} : Type ℓ → Type κ → Type (ℓ ⊔ κ)
Map K V = List (K × V)

module _ {ℓ κ} {K : Type ℓ} {V : Type κ} ⦃e : Eq K⦄ where
  -- `v, ok := m[k]`
  unfoldable pub lookup : K → Map K V → Option V
  lookup k [] = none
  lookup k ((j, v) ∷ m) = if e.beq j k then some v else lookup k m

  -- `m[k] = v`
  unfoldable pub insert : K → V → Map K V → Map K V
  insert k v [] = (k, v) ∷ []
  insert k v ((j, w) ∷ m) = if e.beq j k then (k, v) ∷ m else (j, w) ∷ insert k v m

  -- `delete(m, k)`
  unfoldable pub delete : K → Map K V → Map K V
  delete k [] = []
  delete k ((j, w) ∷ m) = let rest = delete k m in if e.beq j k then rest else (j, w) ∷ rest

  -- `_, ok := m[k]`
  unfoldable pub has : K → Map K V → Bool
  has k m = elim (lookup k m) [ none ↦ false | some _ ↦ true ]

  -- `m[k]`, which is the zero value of the type where `k` is missing
  unfoldable pub get_or : K → Map K V → V → V
  get_or k m d = elim (lookup k m) [ none ↦ d | some v ↦ v ]

  pub lookup-insert :
      (k j : K) (v : V) (m : Map K V)
      → lookup j (insert k v m) ≡ (if e.beq k j then some v else lookup j m)
  unfolding lookup insert
  lookup-insert k j v [] = refl
  lookup-insert k j v ((i, w) ∷ m) =
      ground (arith, e.beq_iff k j, e.beq_iff i k, e.beq_iff i j, lookup-insert k j v m)

  pub lookup-delete :
      (k j : K) (m : Map K V) → lookup j (delete k m) ≡ (if e.beq k j then none else lookup j m)
  unfolding lookup delete
  lookup-delete k j [] = ground arith
  lookup-delete k j ((i, w) ∷ m) =
      ground (arith, e.beq_iff k j, e.beq_iff i k, e.beq_iff i j, lookup-delete k j m)

  pub length-insert :
      (k : K) (v : V) (m : Map K V)
      → length (insert k v m) ≡ (if has k m then length m else suc (length m))
  unfolding insert has lookup
  length-insert k v [] = refl
  length-insert k v ((i, w) ∷ m) = ground (arith, length-insert k v m)

  pub length-delete-le : (k : K) (m : Map K V) → length (delete k m) ≤ length m
  unfolding delete
  length-delete-le k [] = omega arith
  length-delete-le k ((i, w) ∷ m) = ground (arith, length-delete-le k m)

  pub lookup-insert_ne :
      (k j : K) (v : V) (m : Map K V) → j ≢ k → lookup j (insert k v m) ≡ lookup j m
  lookup-insert_ne k j v m h = ground (arith, lookup-insert k j v m, e.beq_iff k j)

  pub lookup-delete_ne : (k j : K) (m : Map K V) → j ≢ k → lookup j (delete k m) ≡ lookup j m
  lookup-delete_ne k j m h = ground (arith, lookup-delete k j m, e.beq_iff k j)

  pub length-delete-lt :
      (k : K) (v : V) (m : Map K V) → lookup k m ≡ some v → length (delete k m) < length m
  unfolding delete lookup
  length-delete-lt k v [] h = cc
  length-delete-lt k v ((i, w) ∷ m) h = ground (arith, length-delete-le k m, length-delete-lt k v m)

  pub lookup-delete-some :
      (k j : K) (v : V) (m : Map K V) → lookup j (delete k m) ≡ some v → lookup j m ≡ some v
  lookup-delete-some k j v m h = ground (arith, lookup-delete k j m)

  pub lookup-delete_self : (k : K) (m : Map K V) → lookup k (delete k m) ≡ none
  lookup-delete_self k m = ground (arith, lookup-delete k k m, e.beq_iff k k)

  pub lookup-insert_self : (k : K) (v : V) (m : Map K V) → lookup k (insert k v m) ≡ some v
  lookup-insert_self k v m = ground (arith, lookup-insert k k v m, e.beq_iff k k)

  pub has-insert : (h k : K) (v : V) (m : Map K V) → has k (insert h v m) ≡ (e.beq h k || has k m)
  unfolding has
  has-insert h k v m = ground (arith, lookup-insert h k v m)

  pub has-delete : (h k : K) (m : Map K V) → has k (delete h m) ≡ (not (e.beq h k) && has k m)
  unfolding has
  has-delete h k m = ground (arith, lookup-delete h k m)

  -- No key is there twice.
  abbrev pub Unique : Map K V → Type 0
  Unique [] = Unit {0}
  Unique ((k, v) ∷ m) = (has k m ≡ false) × Unique m

  has_not-insert :
      (k j : K) (v : V) (m : Map K V)
      → e.beq j k ≡ false
      → has j m ≡ false
      → has j (insert k v m) ≡ false
  has_not-insert k j v m other h = ground (arith, has-insert k j v m, e.beq_iff k j, e.beq_iff j k)

  has_not-delete : (k j : K) (m : Map K V) → has j m ≡ false → has j (delete k m) ≡ false
  has_not-delete k j m h = ground (arith, has-delete k j m)

  pub insert-Unique : (k : K) (v : V) (m : Map K V) → Unique m → Unique (insert k v m)
  unfolding insert has lookup
  insert-Unique k v [] u = (refl, tt)
  insert-Unique k v ((j, w) ∷ m) u =
      if_cases Unique (e.beq j k)
        (λ same. (subst (λ i. has i m ≡ false) ((e.beq_iff j k).0 same) u.0, u.1))
        (λ other. (has_not-insert k j v m other u.0, insert-Unique k v m u.1))

  pub delete-Unique : (k : K) (m : Map K V) → Unique m → Unique (delete k m)
  unfolding delete
  delete-Unique k [] u = tt
  delete-Unique k ((j, w) ∷ m) u =
      if_either Unique (e.beq j k) (delete-Unique k m u.1)
        (has_not-delete k j m u.0, delete-Unique k m u.1)

pub ruleset map_laws = (lookup-insert, lookup-delete)
