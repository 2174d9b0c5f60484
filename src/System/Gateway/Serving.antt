-- ===== src/System/Gateway/Serving.antt =====
-- That with a network the command task serves every command, also where it waits for one already.
use smart_home_project.Common.{
  ℕ, zero, suc, ◌≡◌, ◌≢◌, ◌⊎◌, refl, sym, subst, ◌∙◌, ap, inl, inr, ◌++◌, [], length,
}
use smart_home_project.System.Gateway.{
  Queues, Gateway, Reach, Phase, at_top, waiting_notification, waiting_command,
}
use smart_home_project.System.Gateway.Turns.{cmd_turn, cmd_turns}
use smart_home_project.System.Gateway.Order.{calls_of}
use smart_home_project.System.Gateway.Progress.{double, drains_all, turn_at_top, cmd_turns-Reach}

module _ (k : Queues) where
  cmd_turns-cmd_turn :
      (n : ℕ) (g : Gateway k) → cmd_turns k n (cmd_turn k g) ≡ cmd_turn k (cmd_turns k n g)
  unfolding cmd_turns
  cmd_turns-cmd_turn zero g = refl
  cmd_turns-cmd_turn (suc n) g = cmd_turns-cmd_turn n (cmd_turn k g)

  -- A command task that waits for a command has looked at the network one turn before.
  waiting_turns :
      (n : ℕ) (g : Gateway k)
      → g.wifi.wifi_connected ≡ 1
      → g.phase ≡ waiting_command
      → cmd_turns k n g ≡ cmd_turn k (cmd_turns k n (record g { phase = at_top }))
  waiting_turns n g w p =
      let before : Gateway k = record g { phase = at_top } in
      let one : cmd_turn k before ≡ g =
        turn_at_top k before (record { connected = w; phase = refl })
        ∙ ap (λ x. record g { phase = x }) (sym p) in
      ap (cmd_turns k n) (sym one) ∙ cmd_turns-cmd_turn n before

  -- The command task is about to look at the network or waits for a command, and has nothing left.
  pub record IsIdle (g g' : Gateway k) : Type 0 where
    pub empty : k.commands.items g'.cmd_queue ≡ []
    pub commanded : g'.commanded ≡ g.commanded ++ calls_of (k.commands.items g.cmd_queue)
    pub automatic : g'.automatic ≡ g.automatic
    pub phase : (g'.phase ≡ at_top) ⊎ (g'.phase ≡ waiting_command)

  serves_in :
      (p : Phase) (g : Gateway k)
      → g.phase ≡ p
      → p ≢ waiting_notification
      → g.wifi.wifi_connected ≡ 1
      → IsIdle g (cmd_turns k (double (length (k.commands.items g.cmd_queue))) g)
  serves_in at_top g e n w =
      let d = (drains_all k g (record { connected = w; phase = e })).0 in
      record {
        empty = d.empty;
        commanded = d.commanded;
        automatic = d.automatic;
        phase = inl d.serving.phase;
      }
  serves_in waiting_notification g e n w = absurd (n refl)
  serves_in waiting_command g e n w =
      let before : Gateway k = record g { phase = at_top } in
      let turns = double (length (k.commands.items g.cmd_queue)) in
      let d = (drains_all k before (record { connected = w; phase = refl })).0 in
      subst (IsIdle g)
        (sym (waiting_turns turns g w e ∙ turn_at_top k (cmd_turns k turns before) d.serving))
        (record {
          empty = d.empty;
          commanded = d.commanded;
          automatic = d.automatic;
          phase = inr refl;
        })

  -- With a network, a command task that does not wait for a notification serves all that `cmd_queue`
  -- holds in two turns for each, which are steps of the gateway: for each command for device 1 or 2
  -- it makes one call, which switches that device, on for CMD 1 and off for any other, in the order of
  -- the commands, for a command for another device none, and besides no call; then the queue is empty
  -- and the task still does not wait for a notification.
  pub serves_all :
      (g : Gateway k)
      → g.wifi.wifi_connected ≡ 1
      → g.phase ≢ waiting_notification
      → let g' = cmd_turns k (double (length (k.commands.items g.cmd_queue))) g in
        IsIdle g g' × Reach k g g'
  serves_all g w n = (serves_in g.phase g refl n w, cmd_turns-Reach k _ g)
