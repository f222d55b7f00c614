-- ===== src/Bus/Fanout.antt =====
-- Who gets a message of the in-process network.
use mathlib.Core.List.{Memᴰ}
use mathlib.Core.List.Memᴰ.{not-nil}
use go_sim_chain.Prelude.{
  ℕ, suc, ◌≡◌, ◌≢◌, refl, ap, subst, inl, inr, List, [], ◌∷◌, some, true, false, arith, if_cases,
  Bool-cases, Text, text_eq, text_eq_iff, text_instance,
}
use go_sim_chain.Prelude.Int.{pos_part}
use go_sim_chain.Map
use go_sim_chain.Map.{Map}
use go_sim_chain.Bus.{
  Floats, NetworkBus, Delivery, recipients, should_drop, drops, fan_out, broadcast, set_drop_rate,
  clamped,
}

module _ {H : Type 0} (from : Text) where
  recipients_all :
      (m : Map Text H) (id : Text) (h : H)
      → id ≢ from
      → Map.lookup id m ≡ some h
      → Memᴰ h (recipients from m)
  unfolding recipients Map.lookup
  recipients_all [] id h other e = absurd (ground arith)
  recipients_all ((j, k) ∷ m) id h other e = elim (Bool-cases (text_eq j id)) [
    | inl same ↦
        let away : text_eq j from ≡ false =
          ground (arith, text_eq_iff j id, text_eq_iff j from, same, other) in
        let here : h ≡ k = ground (arith, e, same) in rw away (Memᴰ.head here)
    | inr differ ↦
        let rest = recipients_all m id h other (ground (arith, e, differ)) in
        if_cases (Memᴰ h) (text_eq j from) (λ _. rest) (λ _. Memᴰ.tail rest)
  ]

  lookup_past :
      (j id : Text) (k h : H) (m : Map Text H)
      → Map.has j m ≡ false
      → Map.lookup id m ≡ some h
      → Map.lookup id ((j, k) ∷ m) ≡ some h
  unfolding Map.lookup Map.has
  lookup_past j id k h m free e = elim (Bool-cases (text_eq j id)) [
    | inl same ↦
        absurd
          (ground (arith, subst (λ i. Map.has i m ≡ false) ((text_eq_iff j id).0 same) free, e))
    | inr differ ↦ ground (arith, differ, e)
  ]

  recipients_only :
      (m : Map Text H) (h : H)
      → Map.Unique m
      → Memᴰ h (recipients from m)
      → (id : Text) × (id ≢ from) × (Map.lookup id m ≡ some h)
  unfolding recipients Map.lookup
  recipients_only [] h u x = absurd (not-nil x)
  recipients_only ((j, k) ∷ m) h (free, u) x =
      let past : (y : Memᴰ h (recipients from m))
          → (id : Text) × (id ≢ from) × (Map.lookup id ((j, k) ∷ m) ≡ some h) =
        λ y.
          let (id, other, e) = recipients_only m h u y in
          (id, other, lookup_past j id k h m free e) in
      if_cases (λ hs. Memᴰ h hs → (id : Text) × (id ≢ from) × (Map.lookup id ((j, k) ∷ m) ≡ some h))
        (text_eq j from) (λ _. past)
        (λ differ y. elim y [
          | Memᴰ.head same ↦
              (j, ground (arith, text_eq_iff j from, differ), ground (arith, text_eq_iff j j, same))
          | Memᴰ.tail z ↦ past z
        ])
        x

-- What the bus relies on of `<` on numbers of type float64, a value that is no number included.
pub record IsOrdered {F : Type 0} (floats : Floats F) : Type 0 where
  pub positive : floats.below floats.nought floats.one ≡ true
  pub irreflexive : (x : F) → floats.below x x ≡ false
  pub transitive :
      (x y z : F) → floats.below x y ≡ true → floats.below y z ≡ true → floats.below x z ≡ true

module _ {F : Type 0} (floats : Floats F) where
  rate_off :
      (p : F)
      → IsOrdered floats
      → floats.below floats.nought p ≡ false
      → floats.below floats.nought (clamped floats p) ≡ false
  rate_off p v off = ground (
    arith,
    v.positive,
    v.irreflexive floats.nought,
    off,
    v.transitive floats.nought floats.one p v.positive,
    v.transitive floats.nought floats.one floats.nought v.positive,
  )

  rate_full :
      (p : F) → IsOrdered floats → floats.below floats.one p ≡ true → clamped floats p ≡ floats.one
  rate_full p v over = ground (
    arith,
    v.positive,
    v.irreflexive floats.one,
    over,
    v.transitive floats.one p floats.nought over,
    v.irreflexive floats.nought,
    v.transitive floats.nought floats.one floats.nought v.positive,
  )

module _ {F : Type 0} (floats : Floats F) (draw : ℕ → F) {H M : Type 0} where
  fan_out_only :
      (p : F) (wait : ℕ) (hs : List H) (msg : M) (b : NetworkBus F H) (x : Delivery H M)
      → Memᴰ x (fan_out floats draw p wait hs msg b).1
      → Memᴰ x.handler hs × (x.wait ≡ wait) × (x.message ≡ msg)
  unfolding fan_out
  fan_out_only p wait [] msg b x y = absurd (not-nil y)
  fan_out_only p wait (h ∷ hs) msg b x within =
      let past : Memᴰ x (fan_out floats draw p wait hs msg (drops floats draw b p).0).1
          → Memᴰ x.handler (h ∷ hs) × (x.wait ≡ wait) × (x.message ≡ msg) =
        λ y.
          let (z, waits, same) = fan_out_only p wait hs msg (drops floats draw b p).0 x y in
          (Memᴰ.tail z, waits, same) in
      if_cases
        (λ (r : NetworkBus F H × List (Delivery H M)).
          Memᴰ x r.1 → Memᴰ x.handler (h ∷ hs) × (x.wait ≡ wait) × (x.message ≡ msg))
        (drops floats draw b p).1 (λ _. past)
        (λ _ y. elim y [
          | Memᴰ.head same ↦ (
            Memᴰ.head (ap (λ d. d.handler) same),
            ap (λ d. d.wait) same,
            ap (λ d. d.message) same,
          )
          | Memᴰ.tail z ↦ past z
        ])
        within

  fan_out_all :
      (p : F) (wait : ℕ) (hs : List H) (msg : M) (b : NetworkBus F H) (h : H)
      → floats.below floats.nought p ≡ false
      → Memᴰ h hs
      → Memᴰ
          (record { wait = wait; handler = h; message = msg })
          (fan_out floats draw p wait hs msg b).1
  unfolding fan_out drops
  fan_out_all p wait [] msg b h off y = absurd (not-nil y)
  fan_out_all p wait (k ∷ hs) msg b h off (Memᴰ.head same) =
      rw off (Memᴰ.head (ap (λ i. record { wait = wait; handler = i; message = msg }) same))
  fan_out_all p wait (k ∷ hs) msg b h off (Memᴰ.tail y) =
      rw off (Memᴰ.tail (fan_out_all p wait hs msg b h off y))

  fan_out_none :
      (p : F) (wait : ℕ) (hs : List H) (msg : M) (b : NetworkBus F H)
      → floats.below floats.nought p ≡ true
      → ((n : ℕ) → floats.below (draw n) p ≡ true)
      → (fan_out floats draw p wait hs msg b).1 ≡ []
  unfolding fan_out drops should_drop
  fan_out_none p wait [] msg b on all = refl
  fan_out_none p wait (h ∷ hs) msg b on all =
      rw (on, all b.drawn) (fan_out_none p wait hs msg (record b { drawn = suc b.drawn }) on all)

  -- What `Broadcast` sends out: to other registered nodes only, the message as it is and after the delay
  -- of the bus; to all of them where the bus was set to a drop rate that is not above 0, and to none
  -- where it was set to one above 1.
  abbrev pub IsFanout : NetworkBus F H → F → Text → M → Type 0
  IsFanout b p from msg =
      let sent = (broadcast floats draw (set_drop_rate floats b p) from msg).1 in
      ((x : Delivery H M)
        → Memᴰ x sent
        → ((id : Text) × (id ≢ from) × (Map.lookup id b.handlers ≡ some x.handler))
          × (x.wait ≡ pos_part b.delay)
          × (x.message ≡ msg))
      × ((id : Text) (h : H)
          → floats.below floats.nought p ≡ false
          → id ≢ from
          → Map.lookup id b.handlers ≡ some h
          → Memᴰ (record { wait = pos_part b.delay; handler = h; message = msg }) sent)
      × (floats.below floats.one p ≡ true → sent ≡ [])

  -- Where `<` on the rates is a strict order with 0 below 1, the generator draws numbers below 1, and no
  -- node is registered twice: once `SetDropRate` has set the rate, `Broadcast` sends only to registered
  -- nodes other than the sender, the message as it is, after the delay that is set; to every such node
  -- where the rate given is not above 0, and to none where it is above 1.
  pub broadcast-IsFanout :
      (b : NetworkBus F H) (p : F) (from : Text) (msg : M)
      → IsOrdered floats
      → ((n : ℕ) → floats.below (draw n) floats.one ≡ true)
      → Map.Unique b.handlers
      → IsFanout b p from msg
  unfolding broadcast set_drop_rate
  broadcast-IsFanout b p from msg v draws unique =
      let c = set_drop_rate floats b p in
      let rate = c.drop_rate in
      let hs = recipients from b.handlers in
      (
        λ x y.
            let (z, waits, same) = fan_out_only rate (pos_part b.delay) hs msg c x y in
            (recipients_only from b.handlers x.handler unique z, waits, same),
        λ id h off other e.
            let low : floats.below floats.nought rate ≡ false = rate_off floats p v off in
            fan_out_all rate (pos_part b.delay) hs msg c h low
              (recipients_all from b.handlers id h other e),
        λ over.
            let top : rate ≡ floats.one = rate_full floats p v over in
            fan_out_none rate (pos_part b.delay) hs msg c (rw (top, v.positive) refl)
              (λ n. rw (top, draws n) refl),
      )
