-- ===== src/Scenarios/Devices.antt =====
-- Runs of the two devices and of the way from the indoor device to the gateway.
use smart_home_project.Common.{
  List, inl, inr, ◌≡◌, decimal_two, refl, ◌++◌, [], ◌∷◌, true, false, none, some, Bytes, codes,
  replicate, Returns, ok, arith,
}
use smart_home_project.HomeCenter.Mqtt
use smart_home_project.HomeCenter.Tasks.{Shared, cmd_handler_task}
use smart_home_project.HomeCenter.Tasks.Dispatch.{switch, sock}
use smart_home_project.Station
use smart_home_project.Station.Retry.{joins}
use smart_home_project.Device1.Server
use smart_home_project.Device1.Server.{gpio_set_level, add_data, set_code, content}
use smart_home_project.Device1.Server.Requests.{
  command_switches, other_request_keeps_motor, stale_byte_switches, long_request_overflow,
  get_temperature_request_lem, before_motor,
}
use smart_home_project.Device1.Server.Requests
use smart_home_project.Device1.Server.Session.{
  Turn, get_request, delete_turn, put_request, measurement, session, shown, IsFit,
}
use smart_home_project.Device1.Server.Session.Kept.{session_keeps_promise}
use smart_home_project.HomeCenter.Queue.{Queue, bounded_list}
use smart_home_project.Device2.Pipeline
use smart_home_project.Device2.Pipeline.{every_run_publishes}
use smart_home_project.Device2.Mqtt as Publisher
use smart_home_project.Device2.Main.{print_f, read_data_ds18b20_task, send_data_to_homecenter_task}
use smart_home_project.System.Indoor.{delivered, cold_indoor_turns_off}

joins_example :
    Station.wait_bits
      (Station.wifi_event_sta_disconnected ∷ Station.ip_event_sta_got_ip ∷ [])
      Station.fresh
    ≡ some (
      record Station.fresh { wifi_connected_bit = true; calls = Station.esp_wifi_connect ∷ [] },
      Station.connected,
    )
joins_example = joins 1 Station.fresh [] (omega arith) refl refl

abbrev warm : Server.Server
warm = record { temp_value = 402; put_res = replicate 100 0; put_res_len = 0; calls = [] }

warm-IsValid : Requests.IsValid warm
warm-IsValid = record { array = refl; terminated = refl }

-- The motor is turned on, asked about the temperature, and turned off by a longer text.
abbrev turns : List Turn
turns =
    put_request (codes "on")
    ∷ measurement 640
    ∷ get_request
    ∷ put_request (codes "off now")
    ∷ delete_turn
    ∷ []

session_keeps_promise_example :
    Returns
      (λ s.
        IsFit s
        × (shown s ≡ record {
          motor = 0;
          temperature = 640;
          replied = codes "on" ∷ (40 ∷ []) ∷ codes "off now" ∷ [];
        }))
      (session turns warm)
session_keeps_promise_example =
    session_keeps_promise turns warm
      (
        (omega arith, inr (inl refl)),
        (omega arith, (tt, ((omega arith, inr (inr (omega arith))), (tt, tt)))),
      )
      (warm-IsValid, omega arith)

abbrev publisher : Publisher.Mqtt
publisher = record { client_g = some 9; msg_id = 0; calls = [] }

abbrev gateway : Mqtt.Mqtt
gateway = record {
  client_g = none;
  msg_id = 0;
  temp_value_indoor = record { temperature_value = 0; id_device = 0 };
  calls = [];
}

abbrev offline : Shared
offline = record {
  wifi_connected = 0;
  temp_value_outdoor = record { temperature_value = 0; id_device = 0 };
  temp_value_indoor = record { temperature_value = 0; id_device = 0 };
}

cold_indoor_turns_off_example :
    (g' : Mqtt.Mqtt) × (Mqtt.mqtt_event_handler 4
        (Mqtt.mqtt_event_data (delivered (print_f 80) []))
        gateway
      ≡ ok g')
    × (cmd_handler_task 2 none (record offline { temp_value_indoor = g'.temp_value_indoor })
        ≡ switch sock false ∷ [])
cold_indoor_turns_off_example =
    cold_indoor_turns_off 80 4 [] gateway offline (omega arith) (omega arith) refl

abbrev pub texts : Queue Bytes
texts = bounded_list Bytes

abbrev pub indoor_device : Pipeline.Device texts
indoor_device = record { mqtt = publisher; data_queue = []; measured = [] }

-- 25.125 degrees, in the ten bytes of the array.
abbrev pub mild_item : Bytes
mild_item = codes "25.125000" ++ 0 ∷ []

pub mild_text : read_data_ds18b20_task 402 ≡ ok mild_item
unfolding read_data_ds18b20_task
mild_text = rw (decimal_two 25 (omega arith) (omega arith)) refl

abbrev pub published : Pipeline.Device texts
published = record indoor_device {
  mqtt =
      Publisher.call (Publisher.publish 9 (codes "indoor/temperature") (codes "25.125000"))
        (record publisher { msg_id = 5 });
  measured = 402 ∷ [];
}

pub publishes_one : Pipeline.Reach texts indoor_device published
unfolding send_data_to_homecenter_task Publisher.publish_temperature_value
publishes_one =
    Pipeline.next (Pipeline.next Pipeline.here (Pipeline.measure 402 mild_text (omega arith)))
      (Pipeline.hand_over 5 refl)

pub indoor_device-IsOrdered : Pipeline.IsOrdered texts indoor_device
indoor_device-IsOrdered = record { connected = (9, refl); texts = refl }

every_run_publishes_example : Pipeline.IsOrdered texts published
every_run_publishes_example = every_run_publishes texts indoor_device-IsOrdered publishes_one
