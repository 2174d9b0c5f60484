-- ===== src/Scenarios/Sock.antt =====
-- A run of the gateway, the broker and the indoor device together.
use smart_home_project.Common.{refl, [], ◌∷◌, map, All, codes}
use mathlib.Core.List.{Sublist, filter_map}
use smart_home_project.HomeCenter.Tasks
use smart_home_project.Device2.Mqtt
use smart_home_project.System.Gateway.{waiting_command, at_top, take_command}
use smart_home_project.System.Gateway.Sends.{IsText}
use smart_home_project.System.Sock.{Line, Reach, gateway_step, deliver, here, next}
use smart_home_project.System.Sock.Kept.{levels, level_of}
use smart_home_project.System.Sock.Switched.{pin_follows_calls}
use smart_home_project.Scenarios.Tasks.{queues, busy, sock_off}
use smart_home_project.Scenarios.Devices.{texts, indoor_device}

-- A command for the socket waits.
abbrev asking : Line queues texts
asking = record {
  gateway = record busy { phase = waiting_command; cmd_queue = sock_off ∷ [] };
  device = indoor_device;
  asked = [];
  taken = [];
}

abbrev switched : Line queues texts
switched = record {
  gateway = record busy {
    phase = at_top;
    cmd_queue = [];
    commanded = Tasks.control_sock_mqtt (codes "off") ∷ [];
  };
  device = record indoor_device { mqtt = Mqtt.call (Mqtt.gpio_set_level 2 0) indoor_device.mqtt };
  asked = codes "off" ∷ [];
  taken = codes "off" ∷ [];
}

switches_once : Reach queues texts asking switched
unfolding Tasks.on_dequeued Mqtt.mqtt_event_handler filter_map
switches_once =
    next (next here (gateway_step (take_command refl refl)))
      (deliver 9 (codes "off") (codes "set") [] refl refl)

pin_follows_calls_example :
    Sublist (levels (Mqtt.gpio_set_level 2 0 ∷ [])) (map level_of (codes "off" ∷ []))
    × All IsText (codes "off" ∷ [])
pin_follows_calls_example = pin_follows_calls queues texts refl refl refl switches_once
