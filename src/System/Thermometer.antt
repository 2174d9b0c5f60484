-- ===== src/System/Thermometer.antt =====
-- From the word of a thermometer to the other end: ds18b20_get_temp, the tasks of
-- Device1_coap/main/coap_server_example_main.c and Device2_mqtt/main/app_main.c that read it, and
-- what the gateway makes of the outdoor temperature.
use smart_home_project.Common.{
  ℕ, suc, ◌+◌, ◌-◌, ◌/◌, ◌%◌, ◌≤◌, ◌<◌, ◌≡◌, ◌≢◌, refl, ◌∙◌, ap, ◌++◌, [], ◌∷◌, some, ok, fault,
  Bytes, codes, ltb-false, arith,
}
use smart_home_project.Sensor.{Sensor, ds18b20_get_temp}
use smart_home_project.Sensor.Transfer.{Gives, get_temp-word}
use smart_home_project.Sensor.Temperature.{ℤ, pos, negsuc}
use smart_home_project.Sensor.Temperature.Signed.{word, InRange}
use smart_home_project.HomeCenter.Coap.{Uri, Client, ended, queue_send_data}
use smart_home_project.HomeCenter.Coap.Requests.{Library, get_temperature_coap}
use smart_home_project.HomeCenter.Coap.Exchange.{get_calls}
use smart_home_project.HomeCenter.Coap.Answers.{IsReachable, outdoor}
use smart_home_project.HomeCenter.Tasks.{data_handler_task, task_notify, sendto_thingsboard_device1}
use smart_home_project.Device1.Server as Outdoor
use smart_home_project.Device1.Server.Requests.{get_temperature_request_lem}
use smart_home_project.Device2.Main as Indoor
use smart_home_project.Device2.Print.{hundred_overflow}
use smart_home_project.Device2.Mqtt as Publisher
use smart_home_project.HomeCenter.Mqtt
use smart_home_project.HomeCenter.Mqtt.Temperature.{with_temperature}
use smart_home_project.System.Indoor.{delivered, indoor_temperature_arrives}
use smart_home_project.System.Outdoor.{response, outdoor_temperature_arrives}

-- An initialised driver, on the pin of a device that answers the pulse and gives the word of `t`.
pub record Shows (gpio : ℕ → ℕ) (t : ℤ) (s : Sensor) : Type 0 where
  pub initialised : s.init ≡ 1
  pub present : gpio s.reads ≡ 0
  pub low : Gives gpio (s.reads + 2) 8 (word t % 256)
  pub high : Gives gpio (s.reads + 10) 8 (word t / 256)

word_lt : (t : ℤ) → InRange t → word t < 65536
word_lt (pos n) h = omega arith
word_lt (negsuc n) h = omega arith

get_temp_lem :
    (gpio : ℕ → ℕ) (t : ℤ) (s : Sensor)
    → InRange t
    → Shows gpio t s
    → (ds18b20_get_temp gpio s).0 ≡ word t
get_temp_lem gpio t s r h =
    get_temp-word gpio (word t % 256) (word t / 256) s h.initialised h.present (omega arith)
      (omega (arith, word_lt t r)) h.low h.high
    ∙ omega arith

-- The outdoor device once it has read its thermometer.
abbrev pub measured : (ℕ → ℕ) → Sensor → Outdoor.Server → Outdoor.Server
measured gpio s d = Outdoor.read_data_ds18b20_task (ds18b20_get_temp gpio s).0 d

measured_lem :
    (gpio : ℕ → ℕ) (t : ℤ) (s : Sensor) (d : Outdoor.Server)
    → InRange t
    → Shows gpio t s
    → measured gpio s d ≡ record d { temp_value = word t }
unfolding Outdoor.read_data_ds18b20_task
measured_lem gpio t s d r h = ap (λ n. record d { temp_value = n }) (get_temp_lem gpio t s r h)

pub answers_temperature :
    (gpio : ℕ → ℕ) (n : ℕ) (sensor : Sensor) (d : Outdoor.Server)
    → n ≤ 2000
    → Shows gpio (pos n) sensor
    → Outdoor.get_temperature_request (measured gpio sensor d)
      ≡ ok (record d {
        temp_value = n;
        calls =
            d.calls ++ (Outdoor.set_code Outdoor.content ∷ Outdoor.add_data ((n / 16) ∷ []) ∷ []);
      })
answers_temperature gpio n sensor d range shows =
    ap Outdoor.get_temperature_request (measured_lem gpio (pos n) sensor d range shows)
    ∙ get_temperature_request_lem (record d { temp_value = n }) (omega arith)

-- A temperature of 0 to 125 degrees, but not of 111, that the outdoor thermometer shows: the device
-- answers its whole degrees, and where the gateway reaches it and its first call delivers an answer
-- of class 2 with that data, the gateway keeps and queues them, and with a network they notify the
-- command task and are posted to Thingsboard.
pub outdoor_sensor_arrives :
    (gpio : ℕ → ℕ) (n : ℕ) (sensor : Sensor) (lib : Library) (uri : Uri) (rounds detail : ℕ)
    (c : Client) (d : Outdoor.Server)
    → n ≤ 2000
    → n / 16 ≢ 111
    → Shows gpio (pos n) sensor
    → IsReachable lib uri
    → (lib.io 0 1000).delivered ≡ response detail ((n / 16) ∷ []) ∷ []
    → detail < 32
    → (Outdoor.get_temperature_request (measured gpio sensor d)
        ≡ ok (record d {
          temp_value = n;
          calls =
              d.calls ++ (Outdoor.set_code Outdoor.content ∷ Outdoor.add_data ((n / 16) ∷ []) ∷ []);
        }))
      × ((e : Client) × (get_temperature_coap lib (suc rounds) (record c { calls = [] })
            ≡ ok (ended e))
          × (e.temp_value_outdoor ≡ outdoor (n / 16))
          × (e.optlist ≡ [])
          × (e.calls ≡ get_calls lib uri (queue_send_data (outdoor (n / 16)) ∷ [])))
      × (data_handler_task (some (outdoor (n / 16))) 1
          ≡ task_notify 1 ∷ sendto_thingsboard_device1 (n / 16) ∷ [])
outdoor_sensor_arrives gpio n sensor lib uri rounds detail c d range not_o shows reach answer h =
    let arrives =
      outdoor_temperature_arrives lib uri rounds detail c (record d { temp_value = n }) reach answer
        h (omega arith) not_o in
    (answers_temperature gpio n sensor d range shows, arrives.1, arrives.2)

-- A temperature of 10 to 99 degrees that the indoor thermometer shows: the connected device queues
-- it and publishes its text, and whatever stands behind the text in the gateway's buffer, the
-- gateway keeps and queues the whole degrees.
pub indoor_sensor_arrives :
    (gpio : ℕ → ℕ) (n : ℕ) (sensor : Sensor) (id client : ℕ) (m : Publisher.Mqtt) (client' : ℕ)
    (behind : Bytes) (g : Mqtt.Mqtt)
    → 160 ≤ n
    → n < 1600
    → Shows gpio (pos n) sensor
    → m.client_g ≡ some client
    → (item : Bytes) × (Indoor.read_data_ds18b20_task (ds18b20_get_temp gpio sensor).0 ≡ ok item)
      × ((Indoor.send_data_to_homecenter_task id (some item) m).calls
          ≡ m.calls
            ++ Publisher.publish client (codes "indoor/temperature") (Indoor.print_f n) ∷ [])
      × (Mqtt.mqtt_event_handler client'
            (Mqtt.mqtt_event_data (delivered (Indoor.print_f n) behind))
            g
          ≡ ok (with_temperature client' (n / 16) (delivered (Indoor.print_f n) behind) g))
indoor_sensor_arrives gpio n sensor id client m client' behind g low high shows e =
    let (item, read, calls, kept) =
      indoor_temperature_arrives n id client m client' behind g low high e in
    let same = get_temp_lem gpio (pos n) sensor (omega arith) shows in
    (item, ap Indoor.read_data_ds18b20_task same ∙ read, calls, kept)

-- A temperature below zero that a thermometer shows: the outdoor device casts one above 255 to a
-- byte, and the indoor device prints its text past the ten bytes of its array.
pub below_zero_faults :
    (gpio : ℕ → ℕ) (n : ℕ) (sensor : Sensor) (d : Outdoor.Server)
    → InRange (negsuc n)
    → Shows gpio (negsuc n) sensor
    → (Outdoor.get_temperature_request (measured gpio sensor d) ≡ fault)
      × (Indoor.read_data_ds18b20_task (ds18b20_get_temp gpio sensor).0 ≡ fault)
unfolding Outdoor.get_temperature_request
below_zero_faults gpio n sensor d range shows =
    let read = get_temp_lem gpio (negsuc n) sensor range shows in
    (
      ap Outdoor.get_temperature_request (measured_lem gpio (negsuc n) sensor d range shows)
          ∙ rw (ltb-false ((65535 - n) / 16) 256 (omega arith)) refl,
      rw read (hundred_overflow (65535 - n) (omega arith)),
    )
