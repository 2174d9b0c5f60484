-- ===== src/System/Gateway.antt =====
-- HomeCenter/main as a whole: the tasks of app_main.c and the handlers of the other files over
-- their shared variables, the two queues and the notifications, interleaved in any order.
-- A step is what one task or handler does between two waits. The queues are a parameter.
pub mod Sends
pub mod Invariant
pub mod Order
pub mod Turns
pub mod Progress
pub mod Serving
pub mod Wake
pub mod Frame
pub mod Values
pub mod Widths
pub mod Refinement
pub mod Delay
pub mod Boot
use smart_home_project.Common.{
  ℕ, ◌+◌, ◌≤◌, ◌≡◌, ◌≢◌, ◌++◌, List, [], ◌∷◌, Bool, true, false, Option, none, some, Bytes, length,
  ok, ltb, zero, suc, ◌==◌, if◌then◌else◌,
}
use smart_home_project.HomeCenter.Types.{DataInformation, CommandInformation}
use smart_home_project.HomeCenter.Queue.{Queue, queue_length}
use smart_home_project.HomeCenter.Wifi
use smart_home_project.HomeCenter.Http
use smart_home_project.HomeCenter.Mqtt
use smart_home_project.HomeCenter.Coap
use smart_home_project.HomeCenter.Tasks
use smart_home_project.HomeCenter.Tasks.{Shared, bit0, bit1, on_notification, on_dequeued}

-- `cmd_queue` and `data_queue`.
pub record Queues : Type 1 where
  pub commands : Queue CommandInformation
  pub values : Queue DataInformation

-- Where `cmd_handler_task` stands: before it looks at `wifi_connected`, or in one of its waits.
pub data Phase : Type 0 where
  at_top waiting_notification waiting_command : Phase

-- What a handler sends to a queue.
abbrev pub wifi_commands : List Wifi.Call → List CommandInformation
wifi_commands [] = []
wifi_commands (Wifi.queue_send_cmd c ∷ cs) = c ∷ wifi_commands cs
wifi_commands (_ ∷ cs) = wifi_commands cs

abbrev pub http_commands : List Http.Call → List CommandInformation
http_commands [] = []
http_commands (Http.queue_send_cmd c ∷ cs) = c ∷ http_commands cs
http_commands (_ ∷ cs) = http_commands cs

abbrev pub mqtt_values : List Mqtt.Call → List DataInformation
mqtt_values [] = []
mqtt_values (Mqtt.queue_send_data d ∷ cs) = d ∷ mqtt_values cs
mqtt_values (_ ∷ cs) = mqtt_values cs

abbrev pub coap_values : List Coap.Call → List DataInformation
coap_values [] = []
coap_values (Coap.queue_send_data d ∷ cs) = d ∷ coap_values cs
coap_values (_ ∷ cs) = coap_values cs

-- `xTaskNotify` with eSetBits, for the calls of a round of `data_handler_task`.
abbrev pub set_bit : ℕ → ℕ → ℕ
set_bit bit n = if bit0 bit then (if bit0 n then n else n + 1) else (if bit1 n then n else n + 2)

abbrev pub notify : List Tasks.Call → ℕ → ℕ
notify [] n = n
notify (Tasks.task_notify bit ∷ cs) n = notify cs (set_bit bit n)
notify (_ ∷ cs) n = notify cs n

-- Those calls of a round of `data_handler_task` that go to Thingsboard.
abbrev pub posts : List Tasks.Call → List Tasks.Call
posts [] = []
posts (Tasks.task_notify bit ∷ cs) = posts cs
posts (c ∷ cs) = c ∷ posts cs

-- Whether a queue that holds such items takes one more.
abbrev pub taken {ℓ} : {A : Type ℓ} → List A → A → List A → List A
taken items a log = if ltb (length items) queue_length then log ++ a ∷ [] else log

module _ (k : Queues) where
  -- The variables of the files, the queues, the notification value of the command task and its
  -- phase. `history` holds the commands that `cmd_queue` took, `commanded` and `automatic` the calls
  -- by which the command task switched, on commands and on temperatures; `accepted` holds the values
  -- that `data_queue` took, `posted` the calls by which the data task sent values to Thingsboard,
  -- and `handled` counts its rounds.
  pub record Gateway : Type 0 where
    pub wifi : Wifi.Wifi
    pub http : Http.Http
    pub mqtt : Mqtt.Mqtt
    pub client : Coap.Client
    pub cmd_queue : k.commands.Carrier
    pub data_queue : k.values.Carrier
    pub notified : ℕ
    pub phase : Phase
    pub history : List CommandInformation
    pub commanded : List Tasks.Call
    pub automatic : List Tasks.Call
    pub accepted : List DataInformation
    pub posted : List Tasks.Call
    pub handled : ℕ

  abbrev pub shared : Gateway → Shared
  shared g = record {
    wifi_connected = g.wifi.wifi_connected;
    temp_value_outdoor = g.client.temp_value_outdoor;
    temp_value_indoor = g.mqtt.temp_value_indoor;
  }

  -- `xQueueSend` to `cmd_queue`, and to `data_queue`.
  abbrev pub send_cmd : CommandInformation → Gateway → Gateway
  send_cmd c g = record g {
    cmd_queue = k.commands.send c g.cmd_queue;
    history = taken (k.commands.items g.cmd_queue) c g.history;
  }

  abbrev pub send_value : DataInformation → Gateway → Gateway
  send_value d g = record g {
    data_queue = k.values.send d g.data_queue;
    accepted = taken (k.values.items g.data_queue) d g.accepted;
  }

  unfoldable pub send_cmds : List CommandInformation → Gateway → Gateway
  send_cmds [] g = g
  send_cmds (c ∷ cs) g = send_cmds cs (send_cmd c g)

  unfoldable pub send_values : List DataInformation → Gateway → Gateway
  send_values [] g = g
  send_values (d ∷ ds) g = send_values ds (send_value d g)

  pub data Step (g : Gateway) : Gateway → Type 0 where
    wifi_event :
        (connected : Bool) (e : Wifi.Event) {w : Wifi.Wifi}
        → Wifi.wifi_ap_handler connected e (record g.wifi { calls = [] }) ≡ ok w
        → Step g (send_cmds (wifi_commands w.calls) (record g { wifi = w }))
    reconnect : Step g (record g { wifi = (Wifi.reconnet_wifi_task g.wifi).0 })
    http_body :
        (body : Bytes) {h : Http.Http}
        → length body ≤ 87
        → Http.client_event_post_handler
            (record g.http { calls = [] })
            (Http.http_event_on_data body)
          ≡ ok h
        → Step g (send_cmds (http_commands h.calls) (record g { http = h }))
    mqtt_event :
        (client : ℕ) (e : Mqtt.Event) {m : Mqtt.Mqtt}
        → Mqtt.mqtt_event_handler client e (record g.mqtt { calls = [] }) ≡ ok m
        → Step g (send_values (mqtt_values m.calls) (record g { mqtt = m }))
    coap_message :
        (r : Coap.Response) {c : Coap.Client}
        → Coap.message_handler r (record g.client { calls = [] }) ≡ ok c
        → Step g (send_values (coap_values c.calls) (record g { client = c }))
    handle_value :
        {d : DataInformation} {q : k.values.Carrier}
        → k.values.receive g.data_queue ≡ some (d, q)
        → Step g (record g {
          data_queue = q;
          notified = notify (Tasks.data_handler_task (some d) g.wifi.wifi_connected) g.notified;
          posted = g.posted ++ posts (Tasks.data_handler_task (some d) g.wifi.wifi_connected);
          handled = g.handled + 1;
        })
    wait_notification :
        g.phase ≡ at_top
        → g.wifi.wifi_connected ≡ 0
        → Step g (record g { phase = waiting_notification })
    wait_command :
        g.phase ≡ at_top → g.wifi.wifi_connected ≡ 1 → Step g (record g { phase = waiting_command })
    take_bits :
        g.phase ≡ waiting_notification
        → g.notified ≢ 0
        → Step g (record g {
          phase = at_top;
          notified = 0;
          automatic = g.automatic ++ on_notification g.notified (shared g);
        })
    take_command :
        {c : CommandInformation} {q : k.commands.Carrier}
        → g.phase ≡ waiting_command
        → k.commands.receive g.cmd_queue ≡ some (c, q)
        → Step g (record g {
          phase = at_top;
          cmd_queue = q;
          commanded = g.commanded ++ on_dequeued (some c);
        })

  pub data Reach (g : Gateway) : Gateway → Type 0 where
    here : Reach g g
    next : {t u : Gateway} → Reach g t → Step t u → Reach g u
