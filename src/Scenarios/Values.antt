-- ===== src/Scenarios/Values.antt =====
-- Runs of the gateway on temperatures, over queues that are lists.
use smart_home_project.Common.{
  ◌≡◌, refl, inl, [], ◌∷◌, ◌++◌, true, false, some, ok, Bytes, codes, replicate, arith,
}
use mathlib.Core.List.Sublist as Sublists
use smart_home_project.HomeCenter.Mqtt
use smart_home_project.HomeCenter.Coap
use smart_home_project.HomeCenter.Tasks
use smart_home_project.HomeCenter.Tasks.Dispatch.{motor, sock, posted, switch}
use smart_home_project.Sensor.{ds18b20_get_temp}
use smart_home_project.Device1.Server as Outdoor
use smart_home_project.Device2.Main as Indoor
use smart_home_project.Device2.Main.{print_f}
use smart_home_project.Device2.Mqtt as Publisher
use smart_home_project.System.Gateway.{
  waiting_notification, Gateway, Reach, coap_message, here, next, handle_value,
}
use smart_home_project.System.Gateway.Invariant.{IsValid}
use smart_home_project.System.Gateway.Widths.{IsTyped, every_run-IsTyped}
use smart_home_project.System.Gateway.Turns.{data_turns}
use smart_home_project.System.Gateway.Values.{IsPosting, every_run-IsPosting, posts_of, posts_all}
use smart_home_project.System.Indoor.{delivered}
use smart_home_project.System.Offline.{value_of, after_mqtt, after_coap}
use smart_home_project.System.Telemetry.{relayed, indoor_sensor_posted, outdoor_sensor_posted}
use smart_home_project.System.Recovery.{IsOverdue, recovers}
use smart_home_project.System.Remote.{drained}
use smart_home_project.System.Gateway.Frame.{settled}
use smart_home_project.System.Thermometer.{measured}
use smart_home_project.Scenarios.Pins.{powered, mild_pin, mild_pin-Shows}
use smart_home_project.Scenarios.Tasks.{queues, busy}

-- With a network, and a value that waits.
abbrev filled : Gateway queues
filled = record busy { data_queue = value_of motor 18 ∷ []; accepted = value_of motor 18 ∷ [] }

abbrev emptied : Gateway queues
emptied = record filled {
  data_queue = [];
  notified = 1;
  posted = posted motor 18 ∷ [];
  handled = 1;
}

handles_one : Reach queues filled emptied
unfolding Tasks.data_handler_task
handles_one = next here (handle_value refl)

filled-IsPosting : IsPosting queues filled
filled-IsPosting = record { handed = []; accepted = refl; posted = Sublists.refl [] }

every_run-IsPosting_example : IsPosting queues emptied
every_run-IsPosting_example = every_run-IsPosting queues filled-IsPosting handles_one

posts_all_example :
    let g' = data_turns queues 1 filled in
    (g'.data_queue ≡ []) × (g'.posted ≡ posted motor 18 ∷ []) × Reach queues filled g'
unfolding Tasks.data_handler_task
posts_all_example = posts_all queues filled refl

abbrev pub publisher : Publisher.Mqtt
publisher = record { client_g = some 9; msg_id = 0; calls = [] }

-- The thermometers show 25.125 degrees.
indoor_sensor_posted_example :
    ((item : Bytes) × (Indoor.read_data_ds18b20_task (ds18b20_get_temp mild_pin powered).0
        ≡ ok item)
      × ((Indoor.send_data_to_homecenter_task 5 (some item) publisher).calls
          ≡ Publisher.publish 9 (codes "indoor/temperature") (print_f 402) ∷ []))
    × ((m : Mqtt.Mqtt) × (Mqtt.mqtt_event_handler 4
            (Mqtt.mqtt_event_data (delivered (print_f 402) []))
            (record filled.mqtt { calls = [] })
          ≡ ok m)
        × Reach queues filled (relayed queues (after_mqtt queues filled m))
        × ((relayed queues (after_mqtt queues filled m)).data_queue ≡ [])
        × ((relayed queues (after_mqtt queues filled m)).posted
            ≡ posts_of (value_of motor 18 ∷ []) ++ posted sock 25 ∷ []))
indoor_sensor_posted_example =
    indoor_sensor_posted queues filled mild_pin 402 powered 5 9 publisher 4 [] (omega arith)
      (omega arith) mild_pin-Shows refl refl (omega arith)

abbrev pub outside : Outdoor.Server
outside = record { temp_value = 0; put_res = replicate 100 0; put_res_len = 0; calls = [] }

outdoor_sensor_posted_example :
    (Outdoor.get_temperature_request (measured mild_pin powered outside)
      ≡ ok (record outside {
        temp_value = 402;
        calls = Outdoor.set_code Outdoor.content ∷ Outdoor.add_data (25 ∷ []) ∷ [];
      }))
    × ((c : Coap.Client) × (Coap.message_handler
            (record { code = 69; body = some (25 ∷ []) })
            (record filled.client { calls = [] })
          ≡ ok c)
        × Reach queues filled (relayed queues (after_coap queues filled c))
        × ((relayed queues (after_coap queues filled c)).data_queue ≡ [])
        × ((relayed queues (after_coap queues filled c)).posted
            ≡ posts_of (value_of motor 18 ∷ []) ++ posted motor 25 ∷ []))
outdoor_sensor_posted_example =
    outdoor_sensor_posted queues filled mild_pin 402 powered outside
      (record { code = 69; body = some (25 ∷ []) }) (omega arith) (omega arith) mild_pin-Shows refl
      refl refl (omega arith)

filled-IsValid : IsValid queues filled
filled-IsValid = record {
  wifi = record { connected = omega arith; retries = omega arith };
  array = refl;
  command = omega arith;
  commands = omega arith;
  few_commands = omega arith;
  values = (inl refl, tt);
  few_values = omega arith;
  notified = omega arith;
  commanded = tt;
  automatic = tt;
}

filled-IsTyped : IsTyped queues filled
filled-IsTyped = record {
  http = record { array = omega arith; len = omega arith };
  command = omega arith;
  indoor = omega arith;
  outdoor = omega arith;
  commands = omega arith;
  values = omega arith;
}

-- The outdoor device answers 200 degrees, the largest byte being 255.
abbrev hot : Coap.Client
hot = record filled.client {
  calls = Coap.queue_send_data (value_of motor 200) ∷ [];
  temp_value_outdoor = value_of motor 200;
  resp_wait = false;
}

abbrev heated : Gateway queues
heated = after_coap queues filled hot

every_run-IsTyped_example : IsTyped queues heated
unfolding Coap.message_handler Coap.on_body
every_run-IsTyped_example =
    every_run-IsTyped queues
      (next here (coap_message (record { code = 69; body = some (200 ∷ []) }) refl)) filled-IsValid
      filled-IsTyped (tt, omega arith)

-- The network is back, two values and two commands wait, and so does the command task.
abbrev overdue : Gateway queues
overdue = record busy {
  phase = waiting_notification;
  client = record busy.client { temp_value_outdoor = value_of motor 18 };
  data_queue = value_of motor 18 ∷ value_of sock 25 ∷ [];
}

overdue-IsOverdue : IsOverdue queues overdue motor 18 (value_of sock 25 ∷ [])
overdue-IsOverdue = record { connected = refl; phase = refl; notified = refl; queued = refl }

recovers_example :
    let h = drained queues (settled queues overdue) in
    ((settled queues overdue).automatic ≡ switch motor true ∷ [])
    × ((settled queues overdue).data_queue ≡ value_of sock 25 ∷ [])
    × (h.cmd_queue ≡ [])
    × (h.commanded ≡ switch motor true ∷ switch sock false ∷ [])
    × Reach queues overdue h
unfolding Tasks.on_dequeued
recovers_example = recovers queues overdue motor 18 (value_of sock 25 ∷ []) overdue-IsOverdue
