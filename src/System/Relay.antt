-- ===== src/System/Relay.antt =====
-- The indoor device, the broker and the gateway together: the tasks and events of Device2_mqtt/main
-- and the steps of HomeCenter/main in any order, with the texts of the temperatures between them.
-- The device publishes with QoS 0: the broker hands each text over at most once, in the order in which they
-- were published, and may lose any of them.
pub mod Values
pub mod Others
pub mod Invariant
pub mod Posted
use smart_home_project.Common.{ℕ, ◌≡◌, ◌++◌, List, [], ◌∷◌, Bytes, codes, ok}
use smart_home_project.HomeCenter.Queue.{Queue}
use smart_home_project.HomeCenter.Mqtt
use smart_home_project.Device2.Pipeline
use smart_home_project.Device2.Pipeline.{payloads}
use smart_home_project.System.Gateway
use smart_home_project.System.Gateway.{
  Queues, Gateway, send_values, mqtt_values, wifi_event, reconnect, http_body, mqtt_event,
  coap_message, handle_value, wait_notification, wait_command, take_bits, take_command,
}
use smart_home_project.System.Indoor.{delivered}

-- The events of the gateway's MQTT client but for a message with a temperature.
abbrev pub IsOtherEvent : Mqtt.Event → Type 0
IsOtherEvent (Mqtt.mqtt_event_data e) = e.topic ≡ codes "indoor/sock_status"
IsOtherEvent _ = Unit

module _ (k : Queues) where
  -- A step of the gateway but for a message with a temperature.
  abbrev pub IsOther : {g h : Gateway k} → Gateway.Step k g h → Type 0
  IsOther (wifi_event connected e x) = Unit
  IsOther reconnect = Unit
  IsOther (http_body body fits x) = Unit
  IsOther (mqtt_event client e x) = IsOtherEvent e
  IsOther (coap_message r x) = Unit
  IsOther (handle_value x) = Unit
  IsOther (wait_notification p c) = Unit
  IsOther (wait_command p c) = Unit
  IsOther (take_bits p b) = Unit
  IsOther (take_command p x) = Unit

module _ (k : Queues) (q : Queue Bytes) where
  -- `taken` holds the texts that the broker is done with.
  pub record Relay : Type 0 where
    pub device : Pipeline.Device q
    pub gateway : Gateway k
    pub taken : List Bytes

  pub data Step (r : Relay) : Relay → Type 0 where
    device_step :
        {d : Pipeline.Device q} → Pipeline.Step q r.device d → Step r (record r { device = d })
    gateway_step :
        {g : Gateway k} (s : Gateway.Step k r.gateway g)
        → IsOther k s
        → Step r (record r { gateway = g })
    lose :
        (text : Bytes) (rest : List Bytes)
        → payloads r.device.mqtt.calls ≡ r.taken ++ text ∷ rest
        → Step r (record r { taken = r.taken ++ text ∷ [] })
    deliver :
        (client : ℕ) (text behind : Bytes) (rest : List Bytes) {m : Mqtt.Mqtt}
        → payloads r.device.mqtt.calls ≡ r.taken ++ text ∷ rest
        → Mqtt.mqtt_event_handler client
            (Mqtt.mqtt_event_data (delivered text behind))
            (record r.gateway.mqtt { calls = [] })
          ≡ ok m
        → Step r (record r {
          gateway = send_values k (mqtt_values m.calls) (record r.gateway { mqtt = m });
          taken = r.taken ++ text ∷ [];
        })

  pub data Reach (r : Relay) : Relay → Type 0 where
    here : Reach r r
    next : {t u : Relay} → Reach r t → Step t u → Reach r u
