-- ===== src/System/Sock.antt =====
-- The gateway, the broker and the indoor device together, with the commands for the socket between
-- them: the steps of HomeCenter/main and the tasks and events of Device2_mqtt/main in any order. The
-- gateway publishes with QoS 0: the broker hands each text over at most once, in order, and may lose
-- any of them.
pub mod Kept
pub mod Switched
use smart_home_project.Common.{ℕ, ◌≡◌, ◌++◌, List, [], ◌∷◌, Option, none, some, Bytes, ok}
use mathlib.Core.List.{filter_map}
use smart_home_project.HomeCenter.Types.{CommandInformation}
use smart_home_project.HomeCenter.Queue.{Queue}
use smart_home_project.HomeCenter.Tasks
use smart_home_project.Device2.Mqtt
use smart_home_project.Device2.Pipeline
use smart_home_project.System.Gateway
use smart_home_project.System.Gateway.{
  Queues, Gateway, shared, wifi_event, reconnect, http_body, mqtt_event, coap_message, handle_value,
  wait_notification, wait_command, take_bits, take_command,
}
use smart_home_project.System.Indoor.{sock_message}

abbrev pub sock_text : Tasks.Call → Option Bytes
sock_text (Tasks.control_sock_mqtt cmd) = some cmd
sock_text _ = none

-- The texts for the socket among the calls of the command task.
abbrev pub sock_texts : List Tasks.Call → List Bytes
sock_texts = filter_map sock_text

abbrev pub IsMessage : Mqtt.Event → Type 0
IsMessage (Mqtt.mqtt_event_data e) = Unit
IsMessage _ = ⊥

module _ (k : Queues) where
  -- The calls that a step of the command task makes.
  abbrev pub calls_made : {g h : Gateway k} → Gateway.Step k g h → List Tasks.Call
  calls_made (wifi_event connected e x) = []
  calls_made reconnect = []
  calls_made (http_body body fits x) = []
  calls_made (mqtt_event client e x) = []
  calls_made (coap_message r x) = []
  calls_made (handle_value x) = []
  calls_made (wait_notification p c) = []
  calls_made (wait_command p c) = []
  calls_made {g} (take_bits p b) = Tasks.on_notification g.notified (shared k g)
  calls_made (take_command {c} p x) = Tasks.on_dequeued (some c)

module _ (q : Queue Bytes) where
  -- A step of the device but for a message, which comes from the broker.
  abbrev pub IsOwn : {d d' : Pipeline.Device q} → Pipeline.Step q d d' → Type 0
  IsOwn (Pipeline.measure t x room) = Unit
  IsOwn (Pipeline.hand_over id x) = Unit
  IsOwn (Pipeline.event client e x) = ¬ IsMessage e

module _ (k : Queues) (q : Queue Bytes) where
  -- `asked` holds the texts for the socket that the command task published, and `taken` those that
  -- the broker is done with.
  pub record Line : Type 0 where
    pub gateway : Gateway k
    pub device : Pipeline.Device q
    pub asked : List Bytes
    pub taken : List Bytes

  pub data Step (l : Line) : Line → Type 0 where
    gateway_step :
        {g : Gateway k} (s : Gateway.Step k l.gateway g)
        → Step l (record l { gateway = g; asked = l.asked ++ sock_texts (calls_made k s) })
    device_step :
        {d : Pipeline.Device q} (s : Pipeline.Step q l.device d)
        → IsOwn q s
        → Step l (record l { device = d })
    lose :
        (text : Bytes) (rest : List Bytes)
        → l.asked ≡ l.taken ++ text ∷ rest
        → Step l (record l { taken = l.taken ++ text ∷ [] })
    deliver :
        (client : ℕ) (text behind : Bytes) (rest : List Bytes) {m : Mqtt.Mqtt}
        → l.asked ≡ l.taken ++ text ∷ rest
        → Mqtt.mqtt_event_handler client
            (Mqtt.mqtt_event_data (sock_message text behind))
            l.device.mqtt
          ≡ ok m
        → Step l (record l { device = record l.device { mqtt = m }; taken = l.taken ++ text ∷ [] })

  pub data Reach (l : Line) : Line → Type 0 where
    here : Reach l l
    next : {t u : Line} → Reach l t → Step t u → Reach l u
