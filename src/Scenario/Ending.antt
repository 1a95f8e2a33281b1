-- ===== src/Scenario/Ending.antt =====
-- `finish` of src/mgmt/MosaicScenarioManager.cc: what the end of the simulation leaves.
use omnetpp_federate.Prelude.{
  ℕ, zero, suc, ◌≡◌, ◌⊎◌, ◌≤◌, refl, true, false, [], ◌∷◌, length, arith, some, ◌∙◌, ap, Bool-cases,
  inl, inr,
}
use omnetpp_federate.Prelude.Int.{ℤ, eq_ℤ_iff}
use omnetpp_federate.Prelude.Outcome.{
  Outcome, done, stop, ◌>>=◌, Ends, Ends-mono, >>=-Ends, end_simulation, double_delete,
}
use omnetpp_federate.Prelude.Dict.{Dict, lookup, erase}
use omnetpp_federate.Channel.Interface.{Channel}
use omnetpp_federate.Scheduler.Simulation.{Kernel, Event, finish as finish_cmd}
use omnetpp_federate.Scheduler.{Scheduler, end_run}
use omnetpp_federate.Scenario.{Manager, Node, Creator, remove_node}
use omnetpp_federate.Scenario.Handlers.{remove_all, finish, handle_message}

erase-length : {V : Type 0} (i : ℤ) (m : Dict V) → length (erase i m) ≤ length m
unfolding erase
erase-length i [] = omega arith
erase-length i ((j, v) ∷ m) = ground (arith, erase-length i m)

lookup_head : {V : Type 0} (i : ℤ) (v : V) (m : Dict V) → lookup i ((i, v) ∷ m) ≡ some v
unfolding lookup
lookup_head i v m = rw ((eq_ℤ_iff i i).1 refl)

erase_head : {V : Type 0} (i : ℤ) (v : V) (m : Dict V) → erase i ((i, v) ∷ m) ≡ erase i m
unfolding erase
erase_head i v m = rw ((eq_ℤ_iff i i).1 refl)

module _ {D Q S : Type 0} where
  -- The nodes are `m`, and what the removals leave alone is as in `s`.
  abbrev Behind : Manager D Q S → Dict (Node D Q) → Manager D Q S → Type 0
  Behind s m t = (t.nodes ≡ m) × (t.once ≡ s.once) × (t.sched ≡ s.sched)

  remove_node-Behind :
      (i : ℤ) (n : Node D Q) (m : Dict (Node D Q)) (s : Manager D Q S)
      → s.nodes ≡ (i, n) ∷ m
      → Ends (remove_node i s) (Behind s (erase i m))
  unfolding remove_node
  remove_node-Behind i n m s e =
      rw (Ends, remove_node, ap (lookup i) e ∙ lookup_head i n m)
        (ap (erase i) e ∙ erase_head i n m, refl, refl)

  remove_all_round :
      (fuel : ℕ) (i : ℤ) (n : Node D Q) (m : Dict (Node D Q)) (s : Manager D Q S)
      → s.nodes ≡ (i, n) ∷ m
      → remove_all (suc fuel) s ≡ (remove_node i s >>= remove_all fuel)
  unfolding remove_all
  remove_all_round fuel i n m s e =
      ap
        (λ (l : Dict (Node D Q)). elim l [
          | [] ↦ done s
          | x ∷ rest ↦ remove_node x.0 s >>= remove_all fuel
        ])
        e

  -- As many rounds as there are nodes are enough.
  remove_all-Ends :
      (fuel : ℕ) (s : Manager D Q S) (m : Dict (Node D Q))
      → s.nodes ≡ m
      → length m ≤ fuel
      → Ends (remove_all fuel s) (Behind s [])
  unfolding remove_all
  remove_all-Ends zero s [] e h = rw e (refl, refl, refl)
  remove_all-Ends zero s (x ∷ m) e h = absurd (omega arith)
  remove_all-Ends (suc fuel) s [] e h = rw e (refl, refl, refl)
  remove_all-Ends (suc fuel) s ((i, n) ∷ m) e h = rw (remove_all_round fuel i n m s e) (
      >>=-Ends (Behind s (erase i m)) (Behind s []) (remove_node i s) (remove_all fuel)
        (remove_node-Behind i n m s e)
        (λ t (a, b, c).
          Ends-mono (Behind t []) (Behind s []) (remove_all fuel t)
            (remove_all-Ends fuel t (erase i m) a (omega (arith, erase-length i m)))
            (λ u (x, y, z). (x, y ∙ b, z ∙ c))))

module _ {D Q T F C : Type 0} (k : Kernel D T F) (ch : Channel D C) where
  -- The first finish command ends the simulation: all nodes are removed and the run of the scheduler
  -- is ended, which deletes its channels unless it was ended before.
  -- Had the simulation gone on, a second one would delete its message twice.
  pub handle_message-finish :
      (create : Creator D Q) (e : Event D T) (s : Manager D Q (Scheduler T F C))
      → e.payload ≡ finish_cmd
      → ((s.once ≡ false)
          × (t : Manager D Q (Scheduler T F C)) × (handle_message k ch create e s
              ≡ stop end_simulation t)
          × (t.nodes ≡ [])
          × (t.once ≡ true)
          × (t.sched ≡ end_run k ch s.sched))
        ⊎ ((s.once ≡ true) × (handle_message k ch create e s ≡ stop double_delete s))
  unfolding handle_message finish end_run
  handle_message-finish create e s p = elim (Bool-cases s.once) [
    | inl again ↦ inr (again, rw (p, again) refl)
    | inr first ↦
        let (t, stopped, empty, ended, closed) =
          ends (remove_all (length s.nodes) (record s { once = true })) (
            remove_all-Ends (length s.nodes) (record s { once = true }) s.nodes refl
              (omega arith)) in
        inl (first, t, rw (p, first) stopped, empty, ended, closed)
  ]
    where
      ends :
          (o : Outcome (Manager D Q (Scheduler T F C)))
          → Ends o (λ t. (t.nodes ≡ []) × (t.once ≡ true) × (t.sched ≡ s.sched))
          → (t : Manager D Q (Scheduler T F C)) × ((o >>= λ t.
                  stop end_simulation (record t { sched = end_run k ch t.sched }))
                >>= (λ t. stop double_delete t)
              ≡ stop end_simulation t)
            × (t.nodes ≡ [])
            × (t.once ≡ true)
            × (t.sched ≡ end_run k ch s.sched)
      ends (stop f t) h = absurd h
      ends (done t) h = (record t { sched = end_run k ch t.sched }, refl, h.0, h.1, rw h.2 refl)
