-- ===== src/Scenarios/Tasks.antt =====
-- Runs of the gateway as a whole, over queues that are lists.
use smart_home_project.Common.{◌≡◌, refl, [], ◌∷◌, true, none, ok, codes, replicate, arith}
use smart_home_project.HomeCenter.Types.{DataInformation, CommandInformation}
use smart_home_project.HomeCenter.Queue.{bounded_list}
use smart_home_project.HomeCenter.Wifi
use smart_home_project.HomeCenter.Http.Request.{Request, IsRequest}
use smart_home_project.HomeCenter.Coap
use smart_home_project.HomeCenter.Tasks
use smart_home_project.HomeCenter.Tasks.Dispatch.{motor, switch}
use smart_home_project.System.Gateway.{
  Queues, Gateway, Reach, at_top, waiting_command, waiting_notification, send_cmds, wifi_event,
  here, next, wait_command, take_command,
}
use smart_home_project.System.Gateway.Turns.{cmd_turns}
use smart_home_project.System.Gateway.Invariant.{IsValid, every_run-IsValid}
use smart_home_project.System.Gateway.Order.{IsOrdered, every_run-IsOrdered}
use smart_home_project.System.Gateway.Serving.{IsIdle, serves_all}
use smart_home_project.System.Gateway.Progress.{IsServing}
use smart_home_project.System.Gateway.Wake.{after_wifi, lost_network_wakes}
use smart_home_project.System.Gateway.Refinement.{Moves, controller, run_refines}
use smart_home_project.System.Gateway.Delay.{standing, command_waits_for_value}

abbrev pub queues : Queues
queues = record {
  commands = bounded_list CommandInformation;
  values = bounded_list DataInformation;
}

abbrev pub no_value : DataInformation
no_value = record { temperature_value = 0; id_device = 0 }

abbrev pub motor_on : CommandInformation
motor_on = record { cmd = 1; id_device = 1 }

abbrev pub sock_off : CommandInformation
sock_off = record { cmd = 0; id_device = 2 }

-- With a network, and two commands in the queue.
abbrev pub busy : Gateway queues
busy = record {
  wifi = record { wifi_connected = 1; s_retry_num = 2; calls = [] };
  http = record {
    cmd_data = replicate 100 0;
    len_cmd_data = 0;
    cmd_enqueue = record { cmd = 0; id_device = 0 };
    calls = [];
  };
  mqtt = record { client_g = none; msg_id = 0; temp_value_indoor = no_value; calls = [] };
  client = record {
    resp_wait = true;
    optlist = [];
    wait_ms = 0;
    uri = record {
      scheme = Coap.coap;
      host = codes "192.168.2.3";
      port = 5683;
      path = codes "esp32";
      query = [];
    };
    temp_value_outdoor = no_value;
    calls = [];
  };
  cmd_queue = motor_on ∷ sock_off ∷ [];
  data_queue = [];
  notified = 0;
  phase = at_top;
  history = motor_on ∷ sock_off ∷ [];
  commanded = [];
  automatic = [];
  accepted = [];
  posted = [];
  handled = 0;
}

busy-IsValid : IsValid queues busy
busy-IsValid = record {
  wifi = record { connected = omega arith; retries = omega arith };
  array = refl;
  command = omega arith;
  commands = omega arith;
  few_commands = omega arith;
  values = tt;
  few_values = omega arith;
  notified = omega arith;
  commanded = tt;
  automatic = tt;
}

-- The command task takes the first command.
abbrev served : Gateway queues
served = record busy { cmd_queue = sock_off ∷ []; commanded = switch motor true ∷ [] }

serves_one : Reach queues busy served
unfolding Tasks.on_dequeued
serves_one = next (next here (wait_command refl refl)) (take_command refl refl)

every_run-IsValid_example : IsValid queues served
every_run-IsValid_example = every_run-IsValid queues busy-IsValid serves_one

busy-IsOrdered : IsOrdered queues busy
busy-IsOrdered = refl

every_run-IsOrdered_example : IsOrdered queues served
every_run-IsOrdered_example = every_run-IsOrdered queues busy-IsOrdered serves_one

run_refines_example : Moves (controller queues busy) (controller queues served)
run_refines_example = run_refines queues busy-IsValid serves_one

pub busy-IsServing : IsServing queues busy
busy-IsServing = record { connected = refl; phase = refl }

-- The command task waits for a command already.
abbrev expecting : Gateway queues
expecting = record busy { phase = waiting_command }

serves_all_example :
    IsIdle queues expecting (cmd_turns queues 4 expecting)
    × Reach queues expecting (cmd_turns queues 4 expecting)
serves_all_example = serves_all queues expecting refl cc

-- The third disconnection in a row.
abbrev lost : Wifi.Wifi
lost = record {
  wifi_connected = 0;
  s_retry_num = 3;
  calls = Wifi.esp_wifi_connect ∷ Wifi.queue_send_cmd Wifi.dummy_data ∷ [];
}

abbrev blocked : Gateway queues
blocked = record busy { cmd_queue = []; phase = waiting_command }

third_disconnection :
    Wifi.wifi_ap_handler true Wifi.wifi_event_sta_disconnected (record blocked.wifi { calls = [] })
    ≡ ok lost
unfolding Wifi.wifi_ap_handler
third_disconnection = refl

lost_network_wakes_example :
    (cmd_turns queues 2 (after_wifi queues blocked lost)).phase ≡ waiting_notification
lost_network_wakes_example =
    lost_network_wakes queues blocked true lost refl (omega arith) (omega arith) third_disconnection

-- `{"id":7,"method":"dv2","params":true}`
abbrev pub sock_on : Request
sock_on = record {
  id = codes "7";
  x = b'd';
  y = b'v';
  digit = b'2';
  rest = [];
  value = b't';
  tail = codes "rue}";
}

pub sock_on-IsRequest : IsRequest sock_on
sock_on-IsRequest = record {
  id_plain = omega arith;
  method_plain = omega arith;
  value_plain = omega arith;
}

-- The network is back while the command task waits for a notification, with two commands queued.
abbrev pub waiting : Gateway queues
waiting = record busy {
  phase = waiting_notification;
  wifi = record busy.wifi { wifi_connected = 0 };
}

abbrev connected_again : Gateway queues
connected_again = record waiting { wifi = record waiting.wifi { wifi_connected = 1 } }

network_back : Reach queues waiting connected_again
unfolding Wifi.wifi_ap_handler send_cmds
network_back = next here (wifi_event true Wifi.wifi_event_sta_connected refl)

command_waits_for_value_example : standing queues connected_again ≡ standing queues waiting
command_waits_for_value_example = command_waits_for_value queues refl refl network_back refl
