-- ===== src/System/Telemetry.antt =====
-- A temperature from the word of a thermometer to the call by which the data task of
-- HomeCenter/main/app_main.c sends it to Thingsboard.
use smart_home_project.Common.{
  ℕ, ◌/◌, ◌≤◌, ◌<◌, ◌≡◌, ◌≢◌, refl, ◌∙◌, ap, ◌++◌, [], ◌∷◌, false, some, Bytes, codes, ok, length,
  lt→ltb,
}
use smart_home_project.HomeCenter.Types.{DataInformation}
use smart_home_project.HomeCenter.Queue.{queue_length}
use smart_home_project.HomeCenter.Tasks.Dispatch.{Device, motor, sock, posted}
use smart_home_project.HomeCenter.Mqtt
use smart_home_project.HomeCenter.Mqtt.Temperature.{with_temperature}
use smart_home_project.HomeCenter.Coap
use smart_home_project.HomeCenter.Coap.Answers.{outdoor, message_handler-value}
use smart_home_project.Sensor.{Sensor, ds18b20_get_temp}
use smart_home_project.Sensor.Temperature.{pos}
use smart_home_project.Device1.Server as Outdoor
use smart_home_project.Device2.Main as Indoor
use smart_home_project.Device2.Mqtt as Publisher
use smart_home_project.System.Indoor.{delivered}
use smart_home_project.System.Offline.{value_of, after_mqtt, after_coap}
use smart_home_project.System.Thermometer.{
  Shows, measured, answers_temperature, indoor_sensor_arrives,
}
use smart_home_project.System.Gateway.{
  Queues, Gateway, Reach, send_value, send_values, mqtt_event, coap_message, next, here,
}
use smart_home_project.System.Gateway.Turns.{data_turns}
use smart_home_project.System.Gateway.Progress.{Reach-Reach}
use smart_home_project.System.Gateway.Values.{posts_of, posts_of-append, posts_all}

posts_of-value_of : (d : Device) (t : ℕ) → posts_of (value_of d t ∷ []) ≡ posted d t ∷ []
posts_of-value_of motor t = refl
posts_of-value_of sock t = refl

module _ (k : Queues) where
  -- The data task has handled all that `data_queue` holds.
  abbrev pub relayed : Gateway k → Gateway k
  relayed g = data_turns k (length (k.values.items g.data_queue)) g

  items-send_value :
      (g : Gateway k) (d : DataInformation)
      → length (k.values.items g.data_queue) < queue_length
      → k.values.items (send_value k d g).data_queue ≡ k.values.items g.data_queue ++ d ∷ []
  items-send_value g d room =
      k.values.items-send d g.data_queue
      ∙ rw (lt→ltb (length (k.values.items g.data_queue)) queue_length room) refl

  -- What is posted of a value that is sent to a queue with room, and of those before it.
  pub relayed_lem :
      (g : Gateway k) (d : Device) (t : ℕ)
      → g.wifi.wifi_connected ≡ 1
      → length (k.values.items g.data_queue) < queue_length
      → let h = relayed (send_value k (value_of d t) g) in
        (k.values.items h.data_queue ≡ [])
        × (h.posted ≡ g.posted ++ (posts_of (k.values.items g.data_queue) ++ posted d t ∷ []))
        × Reach k (send_value k (value_of d t) g) h
  relayed_lem g d t w room =
      let waiting = k.values.items g.data_queue in
      let (empty, made, reach) = posts_all k (send_value k (value_of d t) g) w in
      let all =
        ap posts_of (items-send_value g (value_of d t) room)
        ∙ (posts_of-append waiting (value_of d t ∷ [])
            ∙ ap (λ x. posts_of waiting ++ x) (posts_of-value_of d t)) in
      (empty, made ∙ ap (λ x. g.posted ++ x) all, reach)

  -- A temperature of 10 to 99 degrees that the indoor thermometer shows: the connected device queues
  -- it and publishes its text, the gateway takes the message, and where it has a network and room in
  -- `data_queue`, its data task posts the whole degrees for device 2, after the values that wait
  -- already and before anything else, and leaves the queue empty.
  pub indoor_sensor_posted :
      (g : Gateway k) (gpio : ℕ → ℕ) (n : ℕ) (sensor : Sensor) (id client : ℕ) (p : Publisher.Mqtt)
      (client' : ℕ) (behind : Bytes)
      → 160 ≤ n
      → n < 1600
      → Shows gpio (pos n) sensor
      → p.client_g ≡ some client
      → g.wifi.wifi_connected ≡ 1
      → length (k.values.items g.data_queue) < queue_length
      → ((item : Bytes) × (Indoor.read_data_ds18b20_task (ds18b20_get_temp gpio sensor).0 ≡ ok item)
          × ((Indoor.send_data_to_homecenter_task id (some item) p).calls
              ≡ p.calls
                ++ Publisher.publish client (codes "indoor/temperature") (Indoor.print_f n) ∷ []))
        × ((m : Mqtt.Mqtt) × (Mqtt.mqtt_event_handler client'
                (Mqtt.mqtt_event_data (delivered (Indoor.print_f n) behind))
                (record g.mqtt { calls = [] })
              ≡ ok m)
            × Reach k g (relayed (after_mqtt k g m))
            × (k.values.items (relayed (after_mqtt k g m)).data_queue ≡ [])
            × ((relayed (after_mqtt k g m)).posted
                ≡ g.posted
                  ++ (posts_of (k.values.items g.data_queue) ++ posted sock (n / 16) ∷ [])))
  unfolding send_values
  indoor_sensor_posted g gpio n sensor id client p client' behind low high shows e w room =
      let cleared = record g.mqtt { calls = [] } in
      let (item, read, calls, arrives) =
        indoor_sensor_arrives gpio n sensor id client p client' behind cleared low high shows e in
      let m = with_temperature client' (n / 16) (delivered (Indoor.print_f n) behind) cleared in
      let (empty, made, reach) = relayed_lem (record g { mqtt = m }) sock (n / 16) w room in
      (
        (item, read, calls),
        (m, arrives, Reach-Reach k (next here (mqtt_event client' _ arrives)) reach, empty, made),
      )

  -- A temperature of 0 to 125 degrees, but not of 111, that the outdoor thermometer shows: the device
  -- answers a GET request with its whole degrees, and a gateway with a network and room in
  -- `data_queue` that is handed them in a response of class 2 posts them for device 1, after the
  -- values that wait already and before anything else, and leaves the queue empty.
  pub outdoor_sensor_posted :
      (g : Gateway k) (gpio : ℕ → ℕ) (n : ℕ) (sensor : Sensor) (d : Outdoor.Server)
      (r : Coap.Response)
      → n ≤ 2000
      → n / 16 ≢ 111
      → Shows gpio (pos n) sensor
      → Coap.response_class r.code ≡ 2
      → r.body ≡ some ((n / 16) ∷ [])
      → g.wifi.wifi_connected ≡ 1
      → length (k.values.items g.data_queue) < queue_length
      → (Outdoor.get_temperature_request (measured gpio sensor d)
          ≡ ok (record d {
            temp_value = n;
            calls =
                d.calls
                ++ (Outdoor.set_code Outdoor.content ∷ Outdoor.add_data ((n / 16) ∷ []) ∷ []);
          }))
        × ((c : Coap.Client) × (Coap.message_handler r (record g.client { calls = [] }) ≡ ok c)
            × Reach k g (relayed (after_coap k g c))
            × (k.values.items (relayed (after_coap k g c)).data_queue ≡ [])
            × ((relayed (after_coap k g c)).posted
                ≡ g.posted
                  ++ (posts_of (k.values.items g.data_queue) ++ posted motor (n / 16) ∷ [])))
  unfolding send_values
  outdoor_sensor_posted g gpio n sensor d r range not_o shows class body w room =
      let cleared = record g.client { calls = [] } in
      let c =
        Coap.call (Coap.queue_send_data (outdoor (n / 16)))
          (record cleared { temp_value_outdoor = outdoor (n / 16); resp_wait = false }) in
      let handed = message_handler-value r (n / 16) [] cleared class body not_o in
      let (empty, made, reach) = relayed_lem (record g { client = c }) motor (n / 16) w room in
      (
        answers_temperature gpio n sensor d range shows,
        (c, handed, Reach-Reach k (next here (coap_message r handed)) reach, empty, made),
      )
