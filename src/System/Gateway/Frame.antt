-- ===== src/System/Gateway/Frame.antt =====
-- What the turns of the tasks of HomeCenter/main/app_main.c and the sends to the queues leave as it is:
-- the variables of mqtt.c.
use smart_home_project.Common.{
  ℕ, zero, suc, ◌≡◌, refl, ◌∙◌, inl, inr, List, [], ◌∷◌, Option-cases, arith,
}
use smart_home_project.HomeCenter.Types.{DataInformation, CommandInformation}
use smart_home_project.System.Gateway.{
  Queues, Gateway, Reach, Phase, at_top, waiting_notification, waiting_command, send_value,
  send_values, send_cmd, send_cmds, handle_value, next, here,
}
use smart_home_project.System.Gateway.Turns.{cmd_turn, cmd_turns, turn_in, data_turn}
use smart_home_project.System.Gateway.Progress.{Reach-Reach, cmd_turn-Reach}

module _ (k : Queues) where
  data_turn-Reach : (g : Gateway k) → Reach k g (data_turn k g)
  unfolding data_turn
  data_turn-Reach g = elim (Option-cases (k.values.receive g.data_queue)) [
    | inl n ↦ rw n here
    | inr ((d, q), r) ↦ rw r (next here (handle_value r))
  ]

  -- The turns leave the variables of mqtt.c and coap.c as they are.
  data_turn-mqtt : (g : Gateway k) → (data_turn k g).mqtt ≡ g.mqtt
  unfolding data_turn
  data_turn-mqtt g = elim (Option-cases (k.values.receive g.data_queue)) [
    | inl n ↦ rw n refl
    | inr ((d, q), r) ↦ rw r refl
  ]

  turn_in-mqtt : (p : Phase) (g : Gateway k) → (turn_in k p g).mqtt ≡ g.mqtt
  turn_in-mqtt at_top g = ground arith
  turn_in-mqtt waiting_notification g = ground arith
  turn_in-mqtt waiting_command g = elim (Option-cases (k.commands.receive g.cmd_queue)) [
    | inl n ↦ rw n refl
    | inr ((c, q), r) ↦ rw r refl
  ]

  cmd_turn-mqtt : (g : Gateway k) → (cmd_turn k g).mqtt ≡ g.mqtt
  unfolding cmd_turn
  cmd_turn-mqtt g = turn_in-mqtt g.phase g

  -- A turn of the data task and one of the command task.
  abbrev pub settled : Gateway k → Gateway k
  settled g = cmd_turn k (data_turn k g)

  pub settled-Reach : (g : Gateway k) → Reach k g (settled g)
  settled-Reach g = Reach-Reach k (data_turn-Reach g) (cmd_turn-Reach k (data_turn k g))

  pub settled-mqtt : (g : Gateway k) → (settled g).mqtt ≡ g.mqtt
  settled-mqtt g = cmd_turn-mqtt (data_turn k g) ∙ data_turn-mqtt g

  pub send_values-mqtt :
      (ds : List DataInformation) (g : Gateway k) → (send_values k ds g).mqtt ≡ g.mqtt
  unfolding send_values
  send_values-mqtt [] g = refl
  send_values-mqtt (d ∷ ds) g = send_values-mqtt ds (send_value k d g)

  pub send_cmds-mqtt :
      (cs : List CommandInformation) (g : Gateway k) → (send_cmds k cs g).mqtt ≡ g.mqtt
  unfolding send_cmds
  send_cmds-mqtt [] g = refl
  send_cmds-mqtt (c ∷ cs) g = send_cmds-mqtt cs (send_cmd k c g)

  pub cmd_turns-mqtt : (n : ℕ) (g : Gateway k) → (cmd_turns k n g).mqtt ≡ g.mqtt
  unfolding cmd_turns
  cmd_turns-mqtt zero g = refl
  cmd_turns-mqtt (suc n) g = cmd_turns-mqtt n (cmd_turn k g) ∙ cmd_turn-mqtt g
