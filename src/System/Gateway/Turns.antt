-- ===== src/System/Gateway/Turns.antt =====
-- The tasks of HomeCenter/main/app_main.c as functions: what each does next, where it can go on.
use smart_home_project.Common.{ℕ, ◌+◌, ◌++◌, Option, none, some, zero, suc, ◌==◌, if◌then◌else◌}
use smart_home_project.HomeCenter.Types.{DataInformation, CommandInformation}
use smart_home_project.HomeCenter.Tasks
use smart_home_project.HomeCenter.Tasks.{Shared, bit0, bit1, on_notification, on_dequeued}
use smart_home_project.System.Gateway.{
  Queues, Gateway, Phase, at_top, waiting_notification, waiting_command, shared, notify, posts,
}

module _ (k : Queues) where
  -- What `cmd_handler_task` does next in a phase, where it can go on.
  abbrev pub dequeued : Option (CommandInformation × k.commands.Carrier) → Gateway k → Gateway k
  dequeued none g = g
  dequeued (some (c, q)) g = record g {
    phase = at_top;
    cmd_queue = q;
    commanded = g.commanded ++ on_dequeued (some c);
  }

  abbrev pub turn_in : Phase → Gateway k → Gateway k
  turn_in at_top g =
      if g.wifi.wifi_connected == 0
      then record g { phase = waiting_notification }
      else if g.wifi.wifi_connected == 1
      then record g { phase = waiting_command }
      else g
  turn_in waiting_notification g = if g.notified == 0 then g else record g {
    phase = at_top;
    notified = 0;
    automatic = g.automatic ++ on_notification g.notified (shared k g);
  }
  turn_in waiting_command g = dequeued (k.commands.receive g.cmd_queue) g

  unfoldable pub cmd_turn : Gateway k → Gateway k
  cmd_turn g = turn_in g.phase g

  unfoldable pub cmd_turns : ℕ → Gateway k → Gateway k
  cmd_turns zero g = g
  cmd_turns (suc n) g = cmd_turns n (cmd_turn g)

  -- What `data_handler_task` does next, where it can go on.
  abbrev pub handled_value : Option (DataInformation × k.values.Carrier) → Gateway k → Gateway k
  handled_value none g = g
  handled_value (some (d, q)) g = record g {
    data_queue = q;
    notified = notify (Tasks.data_handler_task (some d) g.wifi.wifi_connected) g.notified;
    posted = g.posted ++ posts (Tasks.data_handler_task (some d) g.wifi.wifi_connected);
    handled = g.handled + 1;
  }

  unfoldable pub data_turn : Gateway k → Gateway k
  data_turn g = handled_value (k.values.receive g.data_queue) g

  unfoldable pub data_turns : ℕ → Gateway k → Gateway k
  data_turns zero g = g
  data_turns (suc n) g = data_turns n (data_turn g)
