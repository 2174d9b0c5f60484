-- ===== src/Scenarios/Thermostat.antt =====
-- Runs without a network, from a thermometer to the pin of its device.
use smart_home_project.Common.{
  ◌≡◌, refl, [], ◌∷◌, ◌++◌, false, some, ok, Bytes, codes, Returns, arith,
}
use smart_home_project.HomeCenter.Mqtt
use smart_home_project.HomeCenter.Coap
use smart_home_project.HomeCenter.Coap.Requests as CoapRequests
use smart_home_project.HomeCenter.Coap.Exchange.{put_calls}
use smart_home_project.HomeCenter.Tasks.Dispatch.{motor, sock, switch}
use smart_home_project.Sensor.{ds18b20_get_temp}
use smart_home_project.Device1.Server as Outdoor
use smart_home_project.Device1.Server.Requests.{before_motor}
use smart_home_project.Device2.Main as Indoor
use smart_home_project.Device2.Main.{print_f}
use smart_home_project.Device2.Mqtt as Publisher
use smart_home_project.System.Gateway.{Reach}
use smart_home_project.System.Indoor.{delivered, sock_message}
use smart_home_project.System.Offline.{IsWaiting, after_mqtt, after_coap}
use smart_home_project.System.Thermometer.{measured}
use smart_home_project.System.Gateway.Frame.{settled}
use smart_home_project.System.Thermostat.{indoor_thermostat, outdoor_thermostat}
use smart_home_project.Scenarios.Pins.{powered, mild_pin, mild_pin-Shows}
use smart_home_project.Scenarios.Tasks.{queues, waiting}
use smart_home_project.Scenarios.Values.{publisher, outside}
use smart_home_project.Scenarios.Outdoor.{
  demo, answers, network, network-IsReachable, moving, moving-IsValid,
}

waiting-IsWaiting : IsWaiting queues waiting
waiting-IsWaiting = record { phase = refl; notified = refl; empty = refl }

-- The thermometers show 25.125 degrees: the socket and the motor are turned off.
indoor_thermostat_example :
    ((item : Bytes) × (Indoor.read_data_ds18b20_task (ds18b20_get_temp mild_pin powered).0
        ≡ ok item)
      × ((Indoor.send_data_to_homecenter_task 5 (some item) publisher).calls
          ≡ Publisher.publish 9 (codes "indoor/temperature") (print_f 402) ∷ []))
    × ((m : Mqtt.Mqtt) × (Mqtt.mqtt_event_handler 4
            (Mqtt.mqtt_event_data (delivered (print_f 402) []))
            (record waiting.mqtt { calls = [] })
          ≡ ok m)
        × Reach queues waiting (settled queues (after_mqtt queues waiting m))
        × ((settled queues (after_mqtt queues waiting m)).automatic ≡ switch sock false ∷ [])
        × ((Mqtt.control_sock_mqtt
              (codes "off")
              (settled queues (after_mqtt queues waiting m)).mqtt).calls
            ≡ m.calls ++ Mqtt.publish (some 4) (codes "indoor/control_sock") (codes "off") ∷ []))
    × (Publisher.mqtt_event_handler 9
          (Publisher.mqtt_event_data (sock_message (codes "off") []))
          publisher
        ≡ ok (record publisher { calls = Publisher.gpio_set_level 2 0 ∷ [] }))
indoor_thermostat_example =
    indoor_thermostat queues waiting mild_pin 402 powered 5 9 publisher 4 [] [] publisher
      (omega arith) (omega arith) mild_pin-Shows refl waiting-IsWaiting

outdoor_thermostat_example :
    let lib = network (answers (codes "off")) in
    let answer : Coap.Response = record { code = 69; body = some (25 ∷ []) } in
    (Outdoor.get_temperature_request (measured mild_pin powered outside)
      ≡ ok (record outside {
        temp_value = 402;
        calls = Outdoor.set_code Outdoor.content ∷ Outdoor.add_data (25 ∷ []) ∷ [];
      }))
    × ((c : Coap.Client) × (Coap.message_handler answer (record waiting.client { calls = [] })
          ≡ ok c)
        × Reach queues waiting (settled queues (after_coap queues waiting c))
        × ((settled queues (after_coap queues waiting c)).automatic ≡ switch motor false ∷ [])
        × ((e : Coap.Client) × (CoapRequests.control_motor_coap lib 1
                (codes "off")
                (record (settled queues (after_coap queues waiting c)).client { calls = [] })
              ≡ ok (Coap.ended e))
            × (e.calls ≡ put_calls lib demo (codes "off"))))
    × Returns
        (λ s. s.calls ≡ before_motor (codes "off") ++ Outdoor.gpio_set_level 2 0 ∷ [])
        (Outdoor.control_motor_request (codes "off") moving)
outdoor_thermostat_example =
    outdoor_thermostat queues waiting mild_pin 402 powered outside moving
      (record { code = 69; body = some (25 ∷ []) }) (network (answers (codes "off"))) demo 0 5
      (omega arith) (omega arith) mild_pin-Shows refl refl waiting-IsWaiting (network-IsReachable _)
      refl (omega arith) moving-IsValid
