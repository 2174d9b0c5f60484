-- ===== src/System/Relay/Others.antt =====
-- The steps of the gateway that are not a message with a temperature: no value for device 2 comes of
-- them.
use smart_home_project.Common.{
  ℕ, append-nil, ◌≡◌, refl, ◌∙◌, ap, inl, inr, List, [], ◌∷◌, none, Bytes, All, Option-cases,
  Bool-cases, ◌==◌, ltb, length, Ensures, Ensures-ok,
}
use mathlib.Core.List.{filter_map, filter_map-append, filter_map-cons-none}
use smart_home_project.HomeCenter.Types.{DataInformation, CommandInformation}
use smart_home_project.HomeCenter.Mqtt
use smart_home_project.HomeCenter.Coap
use smart_home_project.HomeCenter.Queue.{queue_length}
use smart_home_project.System.Gateway.{
  Queues, Gateway, Step, mqtt_values, coap_values, send_cmd, send_cmds, send_value, send_values,
  wifi_commands, http_commands, taken, wifi_event, reconnect, http_body, mqtt_event, coap_message,
  handle_value, wait_notification, wait_command, take_bits, take_command,
}
use smart_home_project.System.Relay.{IsOther, IsOtherEvent}
use smart_home_project.System.Relay.Values.{indoor_value, indoor_values}

abbrev IsOutdoor : DataInformation → Type 0
IsOutdoor d = indoor_value d ≡ none

on_body-IsOutdoor :
    (body : Bytes) (c : Coap.Client)
    → Ensures
        (λ d. All IsOutdoor (coap_values d.calls))
        (Coap.on_body body (record c { calls = [] }))
unfolding Coap.on_body
on_body-IsOutdoor [] c = tt
on_body-IsOutdoor (b ∷ body) c = elim (Bool-cases (b == b'o')) [
  | inl e ↦ rw e tt
  | inr e ↦ rw e (refl, tt)
]

message_handler-IsOutdoor :
    (r : Coap.Response) (c : Coap.Client)
    → Ensures
        (λ d. All IsOutdoor (coap_values d.calls))
        (Coap.message_handler r (record c { calls = [] }))
unfolding Coap.message_handler
message_handler-IsOutdoor r c = elim (Bool-cases (Coap.response_class r.code == 2)) [
  | inr n ↦ rw n tt
  | inl n ↦ rw n (elim (Option-cases r.body) [
    | inl e ↦ rw e tt
    | inr (body, e) ↦ rw e (on_body-IsOutdoor body c)
  ])
]

-- A message under the other topic of the subscription is not looked at.
other_event_quiet :
    (client : ℕ) (e : Mqtt.Event) (m : Mqtt.Mqtt)
    → IsOtherEvent e
    → Ensures
        (λ m'. mqtt_values m'.calls ≡ [])
        (Mqtt.mqtt_event_handler client e (record m { calls = [] }))
unfolding Mqtt.mqtt_event_handler
other_event_quiet client (Mqtt.mqtt_event_connected i j) m o = refl
other_event_quiet client (Mqtt.mqtt_event_data e) m o = rw o refl
other_event_quiet client Mqtt.mqtt_event_disconnected m o = refl
other_event_quiet client Mqtt.mqtt_event_subscribed m o = refl
other_event_quiet client Mqtt.mqtt_event_unsubscribed m o = refl
other_event_quiet client Mqtt.mqtt_event_published m o = refl
other_event_quiet client Mqtt.mqtt_event_error m o = refl
other_event_quiet client Mqtt.mqtt_event_other m o = refl

module _ (k : Queues) where
  send_cmds-accepted :
      (cs : List CommandInformation) (g : Gateway k) → (send_cmds k cs g).accepted ≡ g.accepted
  unfolding send_cmds
  send_cmds-accepted [] g = refl
  send_cmds-accepted (c ∷ cs) g = send_cmds-accepted cs (send_cmd k c g)

  send_values-nil : (g : Gateway k) → send_values k [] g ≡ g
  unfolding send_values
  send_values-nil g = refl

  taken-IsOutdoor :
      (items log : List DataInformation) (d : DataInformation)
      → IsOutdoor d
      → indoor_values (taken items d log) ≡ indoor_values log
  unfolding filter_map
  taken-IsOutdoor items log d o = elim (Bool-cases (ltb (length items) queue_length)) [
    | inl e ↦
        rw
          (e, filter_map-append indoor_value log (d ∷ []), filter_map-cons-none indoor_value d [] o)
          (append-nil (indoor_values log))
    | inr e ↦ rw e refl
  ]

  send_values-IsOutdoor :
      (ds : List DataInformation) (g : Gateway k)
      → All IsOutdoor ds
      → indoor_values (send_values k ds g).accepted ≡ indoor_values g.accepted
  unfolding send_values
  send_values-IsOutdoor [] g a = refl
  send_values-IsOutdoor (d ∷ ds) g a =
      send_values-IsOutdoor ds (send_value k d g) a.1
      ∙ taken-IsOutdoor (k.values.items g.data_queue) g.accepted d a.0

  pub other_step-values :
      {g h : Gateway k} (s : Step k g h)
      → IsOther k s
      → indoor_values h.accepted ≡ indoor_values g.accepted
  other_step-values {g} (wifi_event connected e {w} x) o =
      ap indoor_values (send_cmds-accepted (wifi_commands w.calls) (record g { wifi = w }))
  other_step-values reconnect o = refl
  other_step-values {g} (http_body body {h} fits x) o =
      ap indoor_values (send_cmds-accepted (http_commands h.calls) (record g { http = h }))
  other_step-values {g} (mqtt_event client e {m} x) o =
      let quiet =
        Ensures-ok (λ m'. mqtt_values m'.calls ≡ []) _ m (other_event_quiet client e g.mqtt o) x in
      ap (λ ds. indoor_values (send_values k ds (record g { mqtt = m })).accepted) quiet
      ∙ ap (λ h. indoor_values h.accepted) (send_values-nil (record g { mqtt = m }))
  other_step-values {g} (coap_message r {c} x) o =
      send_values-IsOutdoor (coap_values c.calls) (record g { client = c })
        (Ensures-ok (λ d. All IsOutdoor (coap_values d.calls)) _ c
          (message_handler-IsOutdoor r g.client) x)
  other_step-values (handle_value x) o = refl
  other_step-values (wait_notification p c) o = refl
  other_step-values (wait_command p c) o = refl
  other_step-values (take_bits p b) o = refl
  other_step-values (take_command p x) o = refl
