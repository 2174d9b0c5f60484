-- ===== src/Device2/Mqtt.antt =====
-- Device2_mqtt/main/mqtt.c, and `control_sock_handler` of app_main.c: the indoor device publishes
-- its temperature and switches the socket.
-- The MQTT client and the GPIO driver are parameters: the events that the client delivers and the
-- message numbers that it answers with are arguments. `calls` records the calls that the code makes.
use smart_home_project.Common.{
  ℕ, ◌++◌, List, [], ◌∷◌, Option, none, some, Bytes, codes, c_str, sprintf, strncmp_eq, replicate,
  Result, ok, ◌>>=◌, if◌then◌else◌,
}

-- `payload` is the client's buffer from `event->data` on.
pub record Message : Type 0 where
  pub topic : Bytes
  pub payload : Bytes

pub data Event : Type 0 where
  mqtt_event_connected : ℕ → Event
  mqtt_event_data : Message → Event
  mqtt_event_disconnected mqtt_event_subscribed mqtt_event_unsubscribed : Event
  mqtt_event_published mqtt_event_error mqtt_event_other : Event

pub data Call : Type 0 where
  publish : ℕ → Bytes → Bytes → Call
  subscribe : ℕ → Bytes → Call
  gpio_set_level : ℕ → ℕ → Call
  client_init : Bytes → Call
  register_event client_start : ℕ → Call

-- `client_g` is a handle, or NULL at first.
pub record Mqtt : Type 0 where
  pub client_g : Option ℕ
  pub msg_id : ℕ
  pub calls : List Call

abbrev pub call : Call → Mqtt → Mqtt
call c m = record m { calls = m.calls ++ c ∷ [] }

-- `id` is the number that the client answers with; the length 0 makes it take `strlen(payload)`.
unfoldable pub publish_temperature_value : ℕ → Bytes → Mqtt → Mqtt
publish_temperature_value id payload m = elim m.client_g [
  | none ↦ m
  | some client ↦
      call (publish client (codes "indoor/temperature") (c_str payload)) (record m { msg_id = id })
]

-- GPIO_NUM_2 drives the socket.
abbrev pub sock_pin : ℕ
sock_pin = 2

unfoldable pub control_sock_handler : Bytes → Mqtt → Mqtt
control_sock_handler cmd m =
    if strncmp_eq 2 cmd (codes "on")
    then call (gpio_set_level sock_pin 1) m
    else if strncmp_eq 3 cmd (codes "off")
    then call (gpio_set_level sock_pin 0) m
    else m

-- MQTT_EVENT_DATA
unfoldable pub on_data : Message → Mqtt → Result Mqtt
unfolding control_sock_handler
on_data e m = do
  topic_name ← sprintf (replicate 100 0) (c_str e.topic ++ codes "\r\n")
  ok (
      if strncmp_eq 8 topic_name (codes "indoor/control_sock")
      then control_sock_handler e.payload m
      else m)

-- `client` is `event->client`.
unfoldable pub mqtt_event_handler : ℕ → Event → Mqtt → Result Mqtt
unfolding on_data
mqtt_event_handler client (mqtt_event_connected id) m =
    ok (record (call (subscribe client (codes "indoor/control_sock")) m) {
      client_g = some client;
      msg_id = id;
    })
mqtt_event_handler client (mqtt_event_data e) m = on_data e (record m { client_g = some client })
mqtt_event_handler client _ m = ok (record m { client_g = some client })

-- `client` is the handle that `esp_mqtt_client_init` answers with.
unfoldable pub mqtt_app_start : ℕ → Mqtt → Mqtt
mqtt_app_start client m =
    call (client_start client)
      (call (register_event client) (call (client_init (codes "mqtt://192.168.0.4:1883")) m))
