-- ===== src/System/Thermostat.antt =====
-- Without a network: from the word of a thermometer, by way of the gateway, to the pin of the device
-- that heats or pumps where the thermometer stands.
use smart_home_project.Common.{
  ℕ, suc, ◌/◌, ◌≤◌, ◌<◌, ◌≡◌, ◌≢◌, refl, ◌∙◌, ap, ◌++◌, [], ◌∷◌, some, Bytes, codes, ok, Returns,
  Ensures, Ensures-ok, subst, sym,
}
use smart_home_project.HomeCenter.Tasks.Dispatch.{motor, sock, switch}
use smart_home_project.HomeCenter.Mqtt
use smart_home_project.HomeCenter.Coap
use smart_home_project.HomeCenter.Coap.Requests as CoapRequests
use smart_home_project.HomeCenter.Coap.Exchange.{put_calls}
use smart_home_project.HomeCenter.Coap.Answers.{IsReachable}
use smart_home_project.Sensor.{Sensor, ds18b20_get_temp}
use smart_home_project.Sensor.Temperature.{pos}
use smart_home_project.Device1.Server as Outdoor
use smart_home_project.Device1.Server.Requests.{IsValid, before_motor, command, level}
use smart_home_project.Device2.Main as Indoor
use smart_home_project.Device2.Mqtt as Publisher
use smart_home_project.System.Indoor.{
  delivered, sock_text, sock_level, sock_message, sock_command_arrives,
}
use smart_home_project.System.Outdoor.{response, motor_command_arrives}
use smart_home_project.System.Offline.{
  regulated, IsWaiting, after_mqtt, after_coap, indoor_value_regulates, outdoor_value_regulates,
}
use smart_home_project.System.Thermometer.{
  Shows, measured, answers_temperature, indoor_sensor_arrives,
}
use smart_home_project.System.Gateway.{
  Queues, Gateway, Reach, mqtt_values, mqtt_event, coap_message, next, here,
}
use smart_home_project.System.Gateway.Progress.{Reach-Reach}
use smart_home_project.System.Gateway.Frame.{settled, settled-Reach, settled-mqtt, send_values-mqtt}

module _ (k : Queues) where
  after_mqtt-mqtt : (g : Gateway k) (m : Mqtt.Mqtt) → (after_mqtt k g m).mqtt ≡ m
  after_mqtt-mqtt g m = send_values-mqtt k (mqtt_values m.calls) (record g { mqtt = m })

  -- A temperature of 10 to 99 degrees that the indoor thermometer shows, while the gateway's command
  -- task waits for a notification with nothing pending or queued: the connected device publishes its
  -- text, the gateway takes the message, a turn of its data task and one of its command task make one
  -- call more, that call publishes the text of a command under the topic of the socket, and that
  -- message makes a device set the pin of its socket, to 1 up to 20 degrees and to 0 above.
  pub indoor_thermostat :
      (g : Gateway k) (gpio : ℕ → ℕ) (n : ℕ) (sensor : Sensor) (id client : ℕ) (p : Publisher.Mqtt)
      (client' : ℕ) (behind behind' : Bytes) (d : Publisher.Mqtt)
      → 160 ≤ n
      → n < 1600
      → Shows gpio (pos n) sensor
      → p.client_g ≡ some client
      → IsWaiting k g
      → let on = regulated (n / 16) in
        ((item : Bytes) × (Indoor.read_data_ds18b20_task (ds18b20_get_temp gpio sensor).0 ≡ ok item)
          × ((Indoor.send_data_to_homecenter_task id (some item) p).calls
              ≡ p.calls
                ++ Publisher.publish client (codes "indoor/temperature") (Indoor.print_f n) ∷ []))
        × ((m : Mqtt.Mqtt) × (Mqtt.mqtt_event_handler client'
                (Mqtt.mqtt_event_data (delivered (Indoor.print_f n) behind))
                (record g.mqtt { calls = [] })
              ≡ ok m)
            × Reach k g (settled k (after_mqtt k g m))
            × ((settled k (after_mqtt k g m)).automatic ≡ g.automatic ++ switch sock on ∷ [])
            × ((Mqtt.control_sock_mqtt (sock_text on) (settled k (after_mqtt k g m)).mqtt).calls
                ≡ m.calls
                  ++ Mqtt.publish (some client') (codes "indoor/control_sock") (sock_text on) ∷ []))
        × (Publisher.mqtt_event_handler client
              (Publisher.mqtt_event_data (sock_message (sock_text on) behind'))
              d
            ≡ ok (record d {
              client_g = some client;
              calls = d.calls ++ Publisher.gpio_set_level 2 (sock_level on) ∷ [];
            }))
  indoor_thermostat g gpio n sensor id client p client' behind behind' d low high shows e w =
      let cleared = record g.mqtt { calls = [] } in
      let on = regulated (n / 16) in
      let (item, read, calls, arrives) =
        indoor_sensor_arrives gpio n sensor id client p client' behind cleared low high shows e in
      let (m, handled, switched) = indoor_value_regulates k g n client' behind w low high in
      let linked : m.client_g ≡ some client' =
        Ensures-ok (λ x. x.client_g ≡ some client') _ m
          (subst (Ensures (λ x. x.client_g ≡ some client')) (sym arrives) refl) handled in
      let back = sock_command_arrives on client' client id behind' m d linked in
      let kept = settled-mqtt k (after_mqtt k g m) ∙ after_mqtt-mqtt g m in
      (
        (item, read, calls),
        (
          m,
          handled,
          Reach-Reach k (next here (mqtt_event client' _ handled))
              (settled-Reach k (after_mqtt k g m)),
          switched,
          ap (λ x. (Mqtt.control_sock_mqtt (sock_text on) x).calls) kept ∙ back.0,
        ),
        back.2,
      )

  -- A temperature of 0 to 125 degrees, but not of 111, that the outdoor thermometer shows, while the
  -- gateway's command task waits for a notification with nothing pending or queued: the device
  -- answers a GET request with its whole degrees, a gateway that is handed them in a response of class
  -- 2 makes, with a turn of its data task and one of its command task, one call more, and where it
  -- then reaches the device and its first call delivers the answer of class 2 with the command, that
  -- call sends the command's text and ends, and the text makes a device with a valid server set the
  -- pin of its motor last, to 1 up to 20 degrees and to 0 above.
  pub outdoor_thermostat :
      (g : Gateway k) (gpio : ℕ → ℕ) (n : ℕ) (sensor : Sensor) (d s : Outdoor.Server)
      (r : Coap.Response) (lib : CoapRequests.Library) (uri : Coap.Uri) (rounds detail : ℕ)
      → n ≤ 2000
      → n / 16 ≢ 111
      → Shows gpio (pos n) sensor
      → Coap.response_class r.code ≡ 2
      → r.body ≡ some ((n / 16) ∷ [])
      → IsWaiting k g
      → IsReachable lib uri
      → (lib.io 0 1000).delivered ≡ response detail (command (regulated (n / 16))) ∷ []
      → detail < 32
      → IsValid s
      → let on = regulated (n / 16) in
        (Outdoor.get_temperature_request (measured gpio sensor d)
          ≡ ok (record d {
            temp_value = n;
            calls =
                d.calls
                ++ (Outdoor.set_code Outdoor.content ∷ Outdoor.add_data ((n / 16) ∷ []) ∷ []);
          }))
        × ((c : Coap.Client) × (Coap.message_handler r (record g.client { calls = [] }) ≡ ok c)
            × Reach k g (settled k (after_coap k g c))
            × ((settled k (after_coap k g c)).automatic ≡ g.automatic ++ switch motor on ∷ [])
            × ((e : Coap.Client) × (CoapRequests.control_motor_coap lib
                    (suc rounds)
                    (command on)
                    (record (settled k (after_coap k g c)).client { calls = [] })
                  ≡ ok (Coap.ended e))
                × (e.calls ≡ put_calls lib uri (command on))))
        × Returns
            (λ s'.
              s'.calls
              ≡ s.calls ++ (before_motor (command on) ++ Outdoor.gpio_set_level 2 (level on) ∷ []))
            (Outdoor.control_motor_request (command on) s)
  outdoor_thermostat g gpio n sensor d s r lib uri rounds detail range not_o shows class body w
        reach answer h v =
      let on = regulated (n / 16) in
      let (c, handled, switched) = outdoor_value_regulates k g (n / 16) [] r w class body not_o in
      let ((e, done, kept, empty, calls), moved) =
        motor_command_arrives on lib uri rounds detail (settled k (after_coap k g c)).client s reach
          answer h v in
      (
        answers_temperature gpio n sensor d range shows,
        (
          c,
          handled,
          Reach-Reach k (next here (coap_message r handled)) (settled-Reach k (after_coap k g c)),
          switched,
          (e, done, calls),
        ),
        moved,
      )
