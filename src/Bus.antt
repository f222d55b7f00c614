-- ===== src/Bus.antt =====
-- The in-process network: internal/network/bus.go, which internal/transport/inproc/inproc.go passes on.
use go_sim_chain.Prelude.{
  ℕ, suc, List, [], ◌∷◌, none, some, Bool, false, if◌then◌else◌, Text, text_eq, text_instance,
}
use go_sim_chain.Prelude.Int.{ℤ, pos, pos_part}
use go_sim_chain.Map
use go_sim_chain.Map.{Map}
pub mod Fanout

-- What the bus uses of float64: `F` has two constants and `<`.
pub record Floats (F : Type 0) : Type 0 where
  pub nought : F
  pub one : F
  pub below : F → F → Bool

-- `H` stands for the callbacks. `drawn` counts the numbers taken from the generator.
pub record NetworkBus (F H : Type 0) : Type 0 where
  pub handlers : Map Text H
  pub delay : ℤ
  pub drop_rate : F
  pub drawn : ℕ

-- A goroutine that waits, not at all where the delay is negative, and then calls the handler.
pub record Delivery (H M : Type 0) : Type 0 where
  pub wait : ℕ
  pub handler : H
  pub message : M

-- A rate between 0 and 1.
abbrev pub clamped : {F : Type 0} → Floats F → F → F
clamped floats p =
    let low = if floats.below p floats.nought then floats.nought else p in
    if floats.below floats.one low then floats.one else low

module _ {F H : Type 0} where
  unfoldable pub new_network_bus : Floats F → NetworkBus F H
  new_network_bus floats = record {
    handlers = [];
    delay = pos 0;
    drop_rate = floats.nought;
    drawn = 0;
  }

  unfoldable pub register : NetworkBus F H → Text → H → NetworkBus F H
  register b node_id handler = record b { handlers = Map.insert node_id handler b.handlers }

  unfoldable pub unregister : NetworkBus F H → Text → NetworkBus F H
  unregister b node_id = record b { handlers = Map.delete node_id b.handlers }

  unfoldable pub set_delay : NetworkBus F H → ℤ → NetworkBus F H
  set_delay b d = record b { delay = d }

  unfoldable pub set_drop_rate : Floats F → NetworkBus F H → F → NetworkBus F H
  set_drop_rate floats b p = record b { drop_rate = clamped floats p }

-- The handlers of all nodes but `from`.
unfoldable pub recipients : {H : Type 0} → Text → Map Text H → List H
recipients from [] = []
recipients from ((id, h) ∷ m) =
    let rest = recipients from m in if text_eq id from then rest else h ∷ rest

-- The n-th number from the generator is `draw n`.
module _ {F : Type 0} (floats : Floats F) (draw : ℕ → F) where
  unfoldable pub should_drop : {H : Type 0} → NetworkBus F H → F → NetworkBus F H × Bool
  should_drop b p = (record b { drawn = suc b.drawn }, floats.below (draw b.drawn) p)

  -- `dropRate > 0 && b.shouldDrop(dropRate)`
  unfoldable pub drops : {H : Type 0} → NetworkBus F H → F → NetworkBus F H × Bool
  unfolding should_drop
  drops b p = if floats.below floats.nought p then should_drop b p else (b, false)

  module _ {H M : Type 0} where
    unfoldable pub fan_out :
        F → ℕ → List H → M → NetworkBus F H → NetworkBus F H × List (Delivery H M)
    unfolding drops
    fan_out p wait [] msg b = (b, [])
    fan_out p wait (h ∷ hs) msg b =
        let (b', dropped) = drops b p in
        let rest = fan_out p wait hs msg b' in
        if dropped
        then rest
        else (rest.0, record { wait = wait; handler = h; message = msg } ∷ rest.1)

    unfoldable pub broadcast : NetworkBus F H → Text → M → NetworkBus F H × List (Delivery H M)
    unfolding fan_out recipients
    broadcast b from msg = fan_out b.drop_rate (pos_part b.delay) (recipients from b.handlers) msg b

    unfoldable pub send : NetworkBus F H → Text → M → NetworkBus F H × List (Delivery H M)
    unfolding fan_out
    send b to msg = elim (Map.lookup to b.handlers) [
      | none ↦ (b, [])
      | some h ↦ fan_out b.drop_rate (pos_part b.delay) (h ∷ []) msg b
    ]
