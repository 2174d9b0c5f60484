-- ===== src/System/Indoor.antt =====
-- A temperature from the indoor device's sensor to the gateway and back to the socket: the tasks
-- of Device2_mqtt/main/app_main.c, both mqtt.c files and HomeCenter/main/app_main.c. The broker
-- hands a message over as it was published.
use smart_home_project.Common.{
  ℕ, ◌+◌, ◌*◌, ◌/◌, ◌%◌, ◌≤◌, ◌<◌, ◌≡◌, refl, ◌∙◌, ap, ◌++◌, [], ◌∷◌, append_assoc, Bool, true,
  false, none, some, Bytes, codes, c_str, length, Returns-ok, ok, decimal, lt→ltb, if◌then◌else◌,
  arith,
}
use smart_home_project.HomeCenter.Types.{on_command, off_command}
use smart_home_project.HomeCenter.Mqtt
use smart_home_project.HomeCenter.Mqtt.Temperature.{
  with_temperature, read_back-two_digits, read_back-one_digit,
}
use smart_home_project.HomeCenter.Tasks.{Shared, cmd_handler_task}
use smart_home_project.HomeCenter.Tasks.Dispatch.{switch, sock, offline_temperature}
use smart_home_project.Device2.Mqtt as Publisher
use smart_home_project.Device2.Main.{
  print_f, four_digits, read_data_ds18b20_task, send_data_to_homecenter_task,
}
use smart_home_project.Device2.Print.{below_hundred_fits}

-- The message that the gateway receives of a published text, with what stands behind it in the
-- client's buffer.
abbrev pub delivered : Bytes → Bytes → Mqtt.Message
delivered text behind = record {
  topic = codes "indoor/temperature";
  payload = text ++ behind;
  data_len = length text;
}

publish_lem :
    (id client : ℕ) (item : Bytes) (m : Publisher.Mqtt)
    → m.client_g ≡ some client
    → (Publisher.publish_temperature_value id item m).calls
      ≡ m.calls ++ Publisher.publish client (codes "indoor/temperature") (c_str item) ∷ []
unfolding Publisher.publish_temperature_value
publish_lem id client item m e = ground arith

publishes :
    (t id client : ℕ) (m : Publisher.Mqtt)
    → t < 1600
    → m.client_g ≡ some client
    → (item : Bytes) × (read_data_ds18b20_task t ≡ ok item)
      × ((send_data_to_homecenter_task id (some item) m).calls
          ≡ m.calls ++ Publisher.publish client (codes "indoor/temperature") (print_f t) ∷ [])
unfolding send_data_to_homecenter_task
publishes t id client m h e =
    let (item, read, text) = Returns-ok _ (read_data_ds18b20_task t) (below_hundred_fits t h) in
    (
      item,
      read,
      publish_lem id client item m e
          ∙ ap (λ s. m.calls ++ Publisher.publish client (codes "indoor/temperature") s ∷ []) text,
    )

-- The decimals of a temperature.
abbrev decimals : ℕ → Bytes
decimals t = four_digits (t % 16 * 625) ++ codes "00"

-- The text of 10 to 99 degrees is read back as the whole degrees.
pub text_arrives :
    (t client : ℕ) (behind : Bytes) (g : Mqtt.Mqtt)
    → 160 ≤ t
    → t < 1600
    → Mqtt.mqtt_event_handler client (Mqtt.mqtt_event_data (delivered (print_f t) behind)) g
      ≡ ok (with_temperature client (t / 16) (delivered (print_f t) behind) g)
unfolding print_f
text_arrives t client behind g low high =
    rw (append_assoc (decimal (t / 16)) (b'.' ∷ decimals t) behind) (
      read_back-two_digits client (t / 16) ((b'.' ∷ decimals t) ++ behind) (codes "emperature")
        (length (print_f t)) g (omega arith) (omega arith) (omega arith))

-- The text of less than ten degrees is not read back: the point is taken for a digit.
pub cold_text_arrives :
    (t client : ℕ) (behind : Bytes) (g : Mqtt.Mqtt)
    → t < 160
    → Mqtt.mqtt_event_handler client (Mqtt.mqtt_event_data (delivered (print_f t) behind)) g
      ≡ ok (with_temperature client ((t / 16 * 10 + 254) % 256) (delivered (print_f t) behind) g)
unfolding print_f
cold_text_arrives t client behind g low =
    rw (append_assoc (decimal (t / 16)) (b'.' ∷ decimals t) behind) (
      read_back-one_digit client (t / 16) (decimals t ++ behind) (codes "emperature")
        (length (print_f t)) g (omega arith) (omega arith))

-- A temperature `t` of 10 to 99 degrees, in sixteenths, comes through: the connected device queues
-- it and publishes its text, and whatever stands behind the text in the gateway's buffer, the
-- gateway keeps and queues the whole degrees.
pub indoor_temperature_arrives :
    (t id client : ℕ) (m : Publisher.Mqtt) (client' : ℕ) (behind : Bytes) (g : Mqtt.Mqtt)
    → 160 ≤ t
    → t < 1600
    → m.client_g ≡ some client
    → (item : Bytes) × (read_data_ds18b20_task t ≡ ok item)
      × ((send_data_to_homecenter_task id (some item) m).calls
          ≡ m.calls ++ Publisher.publish client (codes "indoor/temperature") (print_f t) ∷ [])
      × (Mqtt.mqtt_event_handler client' (Mqtt.mqtt_event_data (delivered (print_f t) behind)) g
          ≡ ok (with_temperature client' (t / 16) (delivered (print_f t) behind) g))
indoor_temperature_arrives t id client m client' behind g low high e =
    let (item, read, calls) = publishes t id client m high e in
    (item, read, calls, text_arrives t client' behind g low high)

-- From the published text of a temperature of 3 to 9 degrees the gateway keeps a value above 20, so
-- that without a network the device's next notification alone turns the socket off, where 20
-- degrees or less are to turn it on.
pub cold_indoor_turns_off :
    (t client : ℕ) (behind : Bytes) (g : Mqtt.Mqtt) (s : Shared)
    → 48 ≤ t
    → t < 160
    → s.wifi_connected ≡ 0
    → (g' : Mqtt.Mqtt) × (Mqtt.mqtt_event_handler client
          (Mqtt.mqtt_event_data (delivered (print_f t) behind))
          g
        ≡ ok g')
      × (cmd_handler_task 2 none (record s { temp_value_indoor = g'.temp_value_indoor })
          ≡ switch sock false ∷ [])
cold_indoor_turns_off t client behind g s low high off = (
  with_temperature client kept (delivered (print_f t) behind) g,
  cold_text_arrives t client behind g high,
  (offline_temperature sock kept
        (record s { temp_value_indoor = record { temperature_value = kept; id_device = 2 } }) off
        refl).1
      ∙ ap (λ b. switch sock (if b then false else true) ∷ []) (lt→ltb 20 kept (omega arith)),
)
  where
    kept : ℕ
    kept = (t / 16 * 10 + 254) % 256

-- The text of a command, and the level that it stands for.
abbrev pub sock_text : Bool → Bytes
sock_text on = if on then on_command else off_command

abbrev pub sock_level : Bool → ℕ
sock_level on = if on then 1 else 0

abbrev pub sock_message : Bytes → Bytes → Publisher.Message
sock_message text behind = record { topic = codes "indoor/control_sock"; payload = text ++ behind }

-- A connected gateway publishes a command for the socket as its text under the topic that the
-- indoor device subscribes to when it connects, and that message makes the device set the pin of
-- the socket, to 1 for on and 0 for off, whatever stands behind the text in its buffer.
pub sock_command_arrives :
    (on : Bool) (client client' id : ℕ) (behind : Bytes) (g : Mqtt.Mqtt) (d : Publisher.Mqtt)
    → g.client_g ≡ some client
    → ((Mqtt.control_sock_mqtt (sock_text on) g).calls
        ≡ g.calls ++ Mqtt.publish (some client) (codes "indoor/control_sock") (sock_text on) ∷ [])
      × (Publisher.mqtt_event_handler client' (Publisher.mqtt_event_connected id) d
          ≡ ok (record d {
            client_g = some client';
            msg_id = id;
            calls = d.calls ++ Publisher.subscribe client' (codes "indoor/control_sock") ∷ [];
          }))
      × (Publisher.mqtt_event_handler client'
            (Publisher.mqtt_event_data (sock_message (sock_text on) behind))
            d
          ≡ ok (record d {
            client_g = some client';
            calls = d.calls ++ Publisher.gpio_set_level 2 (sock_level on) ∷ [];
          }))
unfolding Mqtt.control_sock_mqtt Publisher.mqtt_event_handler Publisher.control_sock_handler
sock_command_arrives true client client' id behind g d e = (rw e refl, refl, refl)
sock_command_arrives false client client' id behind g d e = (rw e refl, refl, refl)
