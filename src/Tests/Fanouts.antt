-- ===== src/Tests/Fanouts.antt =====
-- The in-process network with three nodes, a generator that gives halves and rates in percent.
use go_sim_chain.Prelude.{text_eq, ℕ, ◌≡◌, refl, [], arith, ltb, text, text_instance}
use go_sim_chain.Prelude.Int.{pos}
use go_sim_chain.Map
use go_sim_chain.Bus.{Floats, NetworkBus, new_network_bus, register, unregister, set_delay, send}
use go_sim_chain.Bus.Fanout.{IsFanout, IsOrdered, broadcast-IsFanout}

abbrev percents : Floats ℕ
percents = record { nought = 0; one = 100; below = ltb }

percents-IsOrdered : IsOrdered percents
percents-IsOrdered = record {
  positive = refl;
  irreflexive = λ x. ground arith;
  transitive = λ x y z p q. ground (arith, p, q);
}

abbrev three : NetworkBus ℕ ℕ
unfolding new_network_bus register set_delay Map.insert
three =
    set_delay
      (register (register (register (new_network_bus percents) (text "a") 1) (text "b") 2)
        (text "c") 3)
      (pos 7)

three-Unique : Map.Unique three.handlers
unfolding new_network_bus register set_delay Map.insert Map.has Map.lookup text_eq
three-Unique = (refl, (refl, (refl, tt)))

abbrev ping : ℕ
ping = 9

broadcast-IsFanout_example : IsFanout percents (λ n. 50) three 200 (text "a") ping
broadcast-IsFanout_example =
    broadcast-IsFanout percents (λ n. 50) three 200 (text "a") ping percents-IsOrdered (λ n. refl)
      three-Unique

-- A node that has left gets nothing.
left : (send percents (λ n. 50) (unregister three (text "b")) (text "b") ping).1 ≡ []
unfolding send unregister new_network_bus register set_delay Map.insert Map.delete Map.lookup
    text_eq
left = refl
