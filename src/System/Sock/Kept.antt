-- ===== src/System/Sock/Kept.antt =====
-- The levels that the indoor device gives its socket's pin, and the texts that the gateway asks for them with.
use smart_home_project.Common.{
  ℕ, ◌≡◌, refl, ◌∙◌, ap, inl, inr, List, [], ◌∷◌, ◌++◌, append-nil, Option, none, some, Bytes,
  codes, strncmp_eq, All, if◌then◌else◌, Ensures, Ensures-ok, Option-cases, arith,
}
use mathlib.Core.List.{filter_map, filter_map-append}
use smart_home_project.HomeCenter.Queue.{Queue}
use smart_home_project.HomeCenter.Types.{CommandInformation}
use smart_home_project.HomeCenter.Tasks
use smart_home_project.Device2.Main.{send_data_to_homecenter_task}
use smart_home_project.Device2.Mqtt
use smart_home_project.Device2.Pipeline
use smart_home_project.System.Gateway
use smart_home_project.System.Gateway.{
  Queues, Gateway, shared, wifi_event, reconnect, http_body, mqtt_event, coap_message, handle_value,
  wait_notification, wait_command, take_bits, take_command,
}
use smart_home_project.System.Gateway.Sends.{IsText}
use smart_home_project.System.Indoor.{sock_message}
use smart_home_project.System.Sock.{sock_texts, calls_made, IsOwn, IsMessage}

abbrev pub pin_level : Mqtt.Call → Option ℕ
pin_level (Mqtt.gpio_set_level pin level) = some level
pin_level _ = none

-- The levels that the device gave the pin, in order.
abbrev pub levels : List Mqtt.Call → List ℕ
levels = filter_map pin_level

-- 1 for on, 0 for off.
abbrev pub level_of : Bytes → ℕ
level_of text = if strncmp_eq 2 text (codes "on") then 1 else 0

-- The device sets the pin as a text asks it to, whatever stands behind it.
pub message-levels :
    (text behind : Bytes) (client : ℕ) (m : Mqtt.Mqtt)
    → IsText text
    → Ensures
        (λ m'. levels m'.calls ≡ levels m.calls ++ level_of text ∷ [])
        (Mqtt.mqtt_event_handler client (Mqtt.mqtt_event_data (sock_message text behind)) m)
unfolding Mqtt.mqtt_event_handler filter_map
message-levels text behind client m (inl e) =
    rw e (filter_map-append pin_level m.calls (Mqtt.gpio_set_level 2 1 ∷ []))
message-levels text behind client m (inr e) =
    rw e (filter_map-append pin_level m.calls (Mqtt.gpio_set_level 2 0 ∷ []))

-- A call that does not set the pin.
quiet_call-levels :
    (cs : List Mqtt.Call) (c : Mqtt.Call) → levels (c ∷ []) ≡ [] → levels (cs ++ c ∷ []) ≡ levels cs
quiet_call-levels cs c e =
    filter_map-append pin_level cs (c ∷ []) ∙ (ap (λ x. levels cs ++ x) e ∙ append-nil (levels cs))

own_event-levels :
    (client : ℕ) (e : Mqtt.Event) (m : Mqtt.Mqtt)
    → ¬ IsMessage e
    → Ensures (λ m'. levels m'.calls ≡ levels m.calls) (Mqtt.mqtt_event_handler client e m)
unfolding Mqtt.mqtt_event_handler filter_map
own_event-levels client (Mqtt.mqtt_event_connected id) m n = quiet_call-levels m.calls _ refl
own_event-levels client (Mqtt.mqtt_event_data e) m n = absurd (n tt)
own_event-levels client Mqtt.mqtt_event_disconnected m n = refl
own_event-levels client Mqtt.mqtt_event_subscribed m n = refl
own_event-levels client Mqtt.mqtt_event_unsubscribed m n = refl
own_event-levels client Mqtt.mqtt_event_published m n = refl
own_event-levels client Mqtt.mqtt_event_error m n = refl
own_event-levels client Mqtt.mqtt_event_other m n = refl

publish-levels :
    (id : ℕ) (item : Bytes) (m : Mqtt.Mqtt)
    → levels (send_data_to_homecenter_task id (some item) m).calls ≡ levels m.calls
unfolding send_data_to_homecenter_task Mqtt.publish_temperature_value filter_map
publish-levels id item m = elim (Option-cases m.client_g) [
  | inl e ↦ rw e refl
  | inr (client, e) ↦ rw e (quiet_call-levels m.calls _ refl)
]

module _ (q : Queue Bytes) where
  pub own_step-levels :
      {d d' : Pipeline.Device q} (s : Pipeline.Step q d d')
      → IsOwn q s
      → levels d'.mqtt.calls ≡ levels d.mqtt.calls
  own_step-levels (Pipeline.measure t x room) o = refl
  own_step-levels {d} (Pipeline.hand_over id {item} x) o = publish-levels id item d.mqtt
  own_step-levels {d} (Pipeline.event client e {m} x) o =
      Ensures-ok (λ m'. levels m'.calls ≡ levels d.mqtt.calls) _ m
        (own_event-levels client e d.mqtt o) x

on_notification-IsText :
    (bits : ℕ) (s : Tasks.Shared) → All IsText (sock_texts (Tasks.on_notification bits s))
unfolding Tasks.on_notification filter_map
on_notification-IsText bits s = ground arith

on_dequeued-IsText : (c : CommandInformation) → All IsText (sock_texts (Tasks.on_dequeued (some c)))
unfolding Tasks.on_dequeued filter_map
on_dequeued-IsText c = ground arith

module _ (k : Queues) where
  pub asked-IsText :
      {g h : Gateway k} (s : Gateway.Step k g h) → All IsText (sock_texts (calls_made k s))
  unfolding filter_map
  asked-IsText (wifi_event connected e x) = tt
  asked-IsText reconnect = tt
  asked-IsText (http_body body fits x) = tt
  asked-IsText (mqtt_event client e x) = tt
  asked-IsText (coap_message r x) = tt
  asked-IsText (handle_value x) = tt
  asked-IsText (wait_notification p c) = tt
  asked-IsText (wait_command p c) = tt
  asked-IsText {g} (take_bits p b) = on_notification-IsText g.notified (shared k g)
  asked-IsText (take_command {c} p x) = on_dequeued-IsText c
