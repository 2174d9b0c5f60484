-- ===== src/System/Gateway/Sends.antt =====
-- What the handlers send to the queues, and the calls that the command task makes.
use smart_home_project.Common.{
  ℕ, ◌≤◌, ◌≡◌, refl, ◌⊎◌, inl, inr, ◌++◌, List, [], ◌∷◌, Bool, some, Bytes, All, if_both, take,
  c_str, codes, replicate, Option-cases, ◌==◌, ok, Ensures, Ensures->>=, Ensures-any, read, sprintf,
  strncmp_eq, if◌then◌else◌, Bool-cases, arith,
}
use smart_home_project.HomeCenter.Types.{
  DataInformation, CommandInformation, on_command, off_command,
}
use smart_home_project.HomeCenter.Wifi
use smart_home_project.HomeCenter.Http
use smart_home_project.HomeCenter.Http.Safety.{IsCommand, SendsCommand}
use smart_home_project.HomeCenter.Mqtt
use smart_home_project.HomeCenter.Coap
use smart_home_project.HomeCenter.Tasks
use smart_home_project.System.Gateway.{
  wifi_commands, http_commands, mqtt_values, coap_values, notify,
}

-- A value of a known device.
abbrev pub IsValue : DataInformation → Type 0
IsValue d = (d.id_device ≡ 1) ⊎ (d.id_device ≡ 2)

abbrev pub IsText : Bytes → Type 0
IsText cmd = (cmd ≡ on_command) ⊎ (cmd ≡ off_command)

-- A call that switches one of the devices on or off.
abbrev pub IsSwitch : Tasks.Call → Type 0
IsSwitch (Tasks.control_motor_coap cmd) = IsText cmd
IsSwitch (Tasks.control_sock_mqtt cmd) = IsText cmd
IsSwitch _ = ⊥

pub wifi_commands-IsCommand :
    (connected : Bool) (e : Wifi.Event) (w : Wifi.Wifi)
    → Ensures
        (λ w'. All IsCommand (wifi_commands w'.calls))
        (Wifi.wifi_ap_handler connected e (record w { calls = [] }))
unfolding Wifi.wifi_ap_handler
wifi_commands-IsCommand connected e w = ground arith

pub http_commands-IsCommand :
    (cs : List Http.Call) → All SendsCommand cs → All IsCommand (http_commands cs)
http_commands-IsCommand [] h = tt
http_commands-IsCommand (Http.queue_send_cmd c ∷ cs) h = (h.0, http_commands-IsCommand cs h.1)
http_commands-IsCommand (Http.http_client_init m u ∷ cs) h = http_commands-IsCommand cs h.1
http_commands-IsCommand (Http.set_post_field b ∷ cs) h = http_commands-IsCommand cs h.1
http_commands-IsCommand (Http.set_header a b ∷ cs) h = http_commands-IsCommand cs h.1
http_commands-IsCommand (Http.perform ∷ cs) h = http_commands-IsCommand cs h.1
http_commands-IsCommand (Http.http_client_cleanup ∷ cs) h = http_commands-IsCommand cs h.1

abbrev pub SendsValues : Mqtt.Mqtt → Type 0
SendsValues m = All IsValue (mqtt_values m.calls)

pub on_temperature-IsValue :
    (e : Mqtt.Message) (m : Mqtt.Mqtt)
    → Ensures SendsValues (Mqtt.on_temperature e (record m { calls = [] }))
unfolding Mqtt.on_temperature
on_temperature-IsValue e m =
    Ensures->>= (λ c. Unit {0}) SendsValues (read e.payload 0) _ (Ensures-any (read e.payload 0))
      λ c u.
        Ensures->>= (λ d. Unit {0}) SendsValues (read e.payload 1) _
          (Ensures-any (read e.payload 1)) λ d v. (inr refl, tt)

pub on_data-IsValue :
    (e : Mqtt.Message) (m : Mqtt.Mqtt)
    → Ensures SendsValues (Mqtt.on_data e (record m { calls = [] }))
unfolding Mqtt.on_data
on_data-IsValue e m =
    let named = sprintf (replicate 100 0) (c_str e.topic ++ codes "\r\n") in
    let cleared = record m { calls = [] } in
    let printed = Mqtt.call (Mqtt.print_sock_status (c_str (take e.data_len e.payload))) cleared in
    Ensures->>= (λ t. Unit {0}) SendsValues named _ (Ensures-any named)
      λ t u.
        let other =
          if strncmp_eq 8 t (codes "indoor/light_status") then ok printed else ok cleared in
        if_both (Ensures SendsValues) (strncmp_eq 8 t (codes "indoor/temperature"))
          (Mqtt.on_temperature e cleared) other (on_temperature-IsValue e m)
          (if_both (Ensures SendsValues) (strncmp_eq 8 t (codes "indoor/light_status")) (ok printed)
            (ok cleared) tt tt)

pub mqtt_values-IsValue :
    (client : ℕ) (e : Mqtt.Event) (m : Mqtt.Mqtt)
    → Ensures SendsValues (Mqtt.mqtt_event_handler client e (record m { calls = [] }))
unfolding Mqtt.mqtt_event_handler
mqtt_values-IsValue client (Mqtt.mqtt_event_connected i j) m = tt
mqtt_values-IsValue client (Mqtt.mqtt_event_data e) m =
    on_data-IsValue e (record m { client_g = some client })
mqtt_values-IsValue client Mqtt.mqtt_event_disconnected m = tt
mqtt_values-IsValue client Mqtt.mqtt_event_subscribed m = tt
mqtt_values-IsValue client Mqtt.mqtt_event_unsubscribed m = tt
mqtt_values-IsValue client Mqtt.mqtt_event_published m = tt
mqtt_values-IsValue client Mqtt.mqtt_event_error m = tt
mqtt_values-IsValue client Mqtt.mqtt_event_other m = tt

pub on_body-IsValue :
    (body : Bytes) (c : Coap.Client)
    → Ensures (λ d. All IsValue (coap_values d.calls)) (Coap.on_body body (record c { calls = [] }))
unfolding Coap.on_body
on_body-IsValue [] c = tt
on_body-IsValue (b ∷ body) c = elim (Bool-cases (b == b'o')) [
  | inl e ↦ rw e tt
  | inr e ↦ rw e (inl refl, tt)
]

pub coap_values-IsValue :
    (r : Coap.Response) (c : Coap.Client)
    → Ensures
        (λ d. All IsValue (coap_values d.calls))
        (Coap.message_handler r (record c { calls = [] }))
unfolding Coap.message_handler
coap_values-IsValue r c = elim (Bool-cases (Coap.response_class r.code == 2)) [
  | inr k ↦ rw k tt
  | inl k ↦ rw k (elim (Option-cases r.body) [
    | inl e ↦ rw e tt
    | inr (body, e) ↦ rw e (on_body-IsValue body c)
  ])
]

pub notify_le :
    (d : DataInformation) (connected n : ℕ)
    → n ≤ 3
    → notify (Tasks.data_handler_task (some d) connected) n ≤ 3
unfolding Tasks.data_handler_task
notify_le d connected n h = ground arith

pub on_notification-IsSwitch :
    (bits : ℕ) (s : Tasks.Shared) → All IsSwitch (Tasks.on_notification bits s)
unfolding Tasks.on_notification
on_notification-IsSwitch bits s = ground arith

pub on_dequeued-IsSwitch : (c : CommandInformation) → All IsSwitch (Tasks.on_dequeued (some c))
unfolding Tasks.on_dequeued
on_dequeued-IsSwitch c = ground arith
