-- ===== src/HomeCenter/Mqtt.antt =====
-- HomeCenter/main/mqtt.c: the indoor device over the local broker.
-- The MQTT client of ESP-IDF is a parameter: the events that it delivers and the message numbers
-- that it answers with are arguments. `calls` records the calls that the code makes, with the two
-- lines that it prints of a message.
pub mod Temperature
use smart_home_project.Common.{
  ℕ, ◌+◌, ◌-◌, ◌*◌, ◌++◌, List, [], ◌∷◌, Option, none, some, Bytes, codes, u8, c_str, sprintf,
  strncmp_eq, take, replicate, read, Result, ok, ◌>>=◌, if◌then◌else◌,
}
use smart_home_project.HomeCenter.Types.{DataInformation}

-- `esp_mqtt_event_t` of MQTT_EVENT_DATA: `topic` has `topic_len` bytes, and `payload` is the buffer
-- from `data` on, of which the message is the first `data_len` bytes.
pub record Message : Type 0 where
  pub topic : Bytes
  pub payload : Bytes
  pub data_len : ℕ

-- The events that the handler tells apart; the message numbers are those of the two subscriptions.
pub data Event : Type 0 where
  mqtt_event_connected : ℕ → ℕ → Event
  mqtt_event_data : Message → Event
  mqtt_event_disconnected mqtt_event_subscribed mqtt_event_unsubscribed : Event
  mqtt_event_published mqtt_event_error mqtt_event_other : Event

pub data Call : Type 0 where
  publish : Option ℕ → Bytes → Bytes → Call
  subscribe : ℕ → Bytes → Call
  queue_send_data : DataInformation → Call
  print_indoor_temperature print_sock_status : Bytes → Call
  client_init : Bytes → Call
  register_event client_start : ℕ → Call

-- `client_g` is a handle, or NULL at first.
pub record Mqtt : Type 0 where
  pub client_g : Option ℕ
  pub msg_id : ℕ
  pub temp_value_indoor : DataInformation
  pub calls : List Call

abbrev pub call : Call → Mqtt → Mqtt
call c m = record m { calls = m.calls ++ c ∷ [] }

-- The length 0 makes the client take `strlen(cmd)`.
unfoldable pub control_sock_mqtt : Bytes → Mqtt → Mqtt
control_sock_mqtt cmd m = call (publish m.client_g (codes "indoor/control_sock") (c_str cmd)) m

-- `(event->data[0]-48)*10 + (event->data[1]-48)`, cut to a `uint8_t`: 768 is a multiple of 256.
unfoldable pub two_digits : ℕ → ℕ → ℕ
two_digits c d = u8 (c * 10 + d + 768 - 528)

-- The first `if` of MQTT_EVENT_DATA, which also overwrites the first byte of the topic.
unfoldable pub on_temperature : Message → Mqtt → Result Mqtt
unfolding two_digits
on_temperature e m = do
  c ← read e.payload 0
  d ← read e.payload 1
  let value : DataInformation = record { temperature_value = two_digits c d; id_device = 2 }
  ok (
      call (print_indoor_temperature (c_str (take e.data_len e.payload)))
        (call (queue_send_data value) (record m { temp_value_indoor = value })))

-- MQTT_EVENT_DATA. The second test sees a topic whose first byte is `\n` where the first has
-- passed, so that it fails then.
unfoldable pub on_data : Message → Mqtt → Result Mqtt
unfolding on_temperature
on_data e m = do
  topic_name ← sprintf (replicate 100 0) (c_str e.topic ++ codes "\r\n")
  if strncmp_eq 8 topic_name (codes "indoor/temperature")
      then on_temperature e m
      else if strncmp_eq 8 topic_name (codes "indoor/light_status")
      then ok (call (print_sock_status (c_str (take e.data_len e.payload))) m)
      else ok m

-- `client` is `event->client`.
unfoldable pub mqtt_event_handler : ℕ → Event → Mqtt → Result Mqtt
unfolding on_data
mqtt_event_handler client (mqtt_event_connected id id') m =
    ok
      (record (call (subscribe client (codes "indoor/sock_status"))
        (call (subscribe client (codes "indoor/temperature")) m)) {
          client_g = some client;
          msg_id = id';
        })
mqtt_event_handler client (mqtt_event_data e) m = on_data e (record m { client_g = some client })
mqtt_event_handler client _ m = ok (record m { client_g = some client })

-- `client` is the handle that `esp_mqtt_client_init` answers with.
unfoldable pub mqtt_app_start : ℕ → Mqtt → Mqtt
mqtt_app_start client m =
    call (client_start client)
      (call (register_event client) (call (client_init (codes "mqtt://192.168.0.4:1883")) m))
