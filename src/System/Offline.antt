-- ===== src/System/Offline.antt =====
-- The gateway without a network: from a message with a temperature, by way of the data task and its
-- notification, to the call by which the command task of HomeCenter/main/app_main.c regulates.
use smart_home_project.Common.{
  ℕ, ◌/◌, ◌≤◌, ◌<◌, ◌≡◌, ◌≢◌, refl, ◌∙◌, ap, List, [], ◌∷◌, ◌++◌, Bool, true, false, some, ok,
  Bytes, ltb, ◌==◌, if◌then◌else◌, arith,
}
use smart_home_project.HomeCenter.Types.{DataInformation}
use smart_home_project.HomeCenter.Tasks
use smart_home_project.HomeCenter.Tasks.Dispatch.{
  Device, motor, sock, number, switch, last_temperature,
}
use smart_home_project.HomeCenter.Queue.{bounded_append}
use smart_home_project.HomeCenter.Mqtt
use smart_home_project.HomeCenter.Mqtt.Temperature.{with_temperature}
use smart_home_project.HomeCenter.Coap
use smart_home_project.HomeCenter.Coap.Answers.{outdoor, message_handler-value}
use smart_home_project.Device2.Main.{print_f}
use smart_home_project.System.Indoor.{delivered, text_arrives}
use smart_home_project.System.Gateway.{
  Queues, Gateway, at_top, waiting_notification, shared, notify, send_values, mqtt_values,
  coap_values,
}
use smart_home_project.System.Gateway.Turns.{cmd_turn, turn_in, data_turn, handled_value}

abbrev pub value_of : Device → ℕ → DataInformation
value_of d t = record { temperature_value = t; id_device = number d }

-- On exactly up to 20 degrees.
abbrev pub regulated : ℕ → Bool
regulated t = if ltb 20 t then false else true

notify_lem :
    (d : Device) (t connected : ℕ)
    → notify (Tasks.data_handler_task (some (value_of d t)) connected) 0 ≡ number d
unfolding Tasks.data_handler_task
notify_lem motor t connected = ground arith
notify_lem sock t connected = ground arith

on_notification_lem :
    (d : Device) (s : Tasks.Shared)
    → Tasks.on_notification (number d) s ≡ switch d (regulated (last_temperature d s)) ∷ []
unfolding Tasks.on_notification
on_notification_lem motor s = ground arith
on_notification_lem sock s = ground arith

number_ne : (d : Device) → (number d == 0) ≡ false
number_ne motor = refl
number_ne sock = refl

module _ (k : Queues) where
  -- The command task waits for a notification, with none pending and no value queued.
  pub record IsWaiting (g : Gateway k) : Type 0 where
    pub phase : g.phase ≡ waiting_notification
    pub notified : g.notified ≡ 0
    pub empty : k.values.items g.data_queue ≡ []

  -- A command task that waits for a notification takes the bits that are pending.
  pub cmd_turn_notified :
      (g : Gateway k) (n : ℕ)
      → g.phase ≡ waiting_notification
      → g.notified ≡ n
      → (n == 0) ≡ false
      → cmd_turn k g ≡ record g {
        phase = at_top;
        notified = 0;
        automatic = g.automatic ++ Tasks.on_notification n (shared k g);
      }
  unfolding cmd_turn
  cmd_turn_notified g n p e z =
      let woken : ℕ → Gateway k = λ m. record g {
        phase = at_top;
        notified = 0;
        automatic = g.automatic ++ Tasks.on_notification m (shared k g);
      } in
      ap (λ x. turn_in k x g) p
      ∙ ap (λ m. if m == 0 then g else woken m) e
      ∙ ap (λ b. if b then g else woken n) z

  -- A value that waits first, and the command task that its notification wakes.
  pub settled-notified :
      (g : Gateway k) (d : Device) (t : ℕ) (ds : List DataInformation)
      → g.phase ≡ waiting_notification
      → g.notified ≡ 0
      → k.values.items g.data_queue ≡ value_of d t ∷ ds
      → (q : k.values.Carrier) × (k.values.items q ≡ ds)
        × (cmd_turn k (data_turn k g) ≡ record (handled_value k (some (value_of d t, q)) g) {
          phase = at_top;
          notified = 0;
          automatic = g.automatic ++ switch d (regulated (last_temperature d (shared k g))) ∷ [];
        })
  unfolding data_turn
  settled-notified g d t ds p z e =
      let (q, first, left) = k.values.receive_first g.data_queue (value_of d t) ds e in
      let h = handled_value k (some (value_of d t, q)) g in
      let turned : data_turn k g ≡ h = ap (λ o. handled_value k o g) first in
      let bit : h.notified ≡ number d =
        ap (notify (Tasks.data_handler_task (some (value_of d t)) g.wifi.wifi_connected)) z
        ∙ notify_lem d t g.wifi.wifi_connected in
      (
        q,
        left,
        ap (cmd_turn k) turned
            ∙ (cmd_turn_notified h (number d) p bit (number_ne d)
                ∙ ap (λ c. record h { phase = at_top; notified = 0; automatic = g.automatic ++ c })
                    (on_notification_lem d (shared k h))),
      )

  regulates :
      (g : Gateway k) (d : Device) (t : ℕ)
      → g.phase ≡ waiting_notification
      → g.notified ≡ 0
      → k.values.items g.data_queue ≡ value_of d t ∷ []
      → last_temperature d (shared k g) ≡ t
      → (cmd_turn k (data_turn k g)).automatic ≡ g.automatic ++ switch d (regulated t) ∷ []
  regulates g d t p z e last =
      let (q, left, settled) = settled-notified g d t [] p z e in
      ap (λ x. x.automatic) settled ∙ ap (λ n. g.automatic ++ switch d (regulated n) ∷ []) last

  abbrev pub after_mqtt : Gateway k → Mqtt.Mqtt → Gateway k
  after_mqtt g m = send_values k (mqtt_values m.calls) (record g { mqtt = m })

  abbrev pub after_coap : Gateway k → Coap.Client → Gateway k
  after_coap g c = send_values k (coap_values c.calls) (record g { client = c })

  -- The one value that was sent stands in the queue.
  items-send_values :
      (g : Gateway k) (d : DataInformation)
      → k.values.items g.data_queue ≡ []
      → k.values.items (send_values k (d ∷ []) g).data_queue ≡ d ∷ []
  unfolding send_values
  items-send_values g d e = k.values.items-send d g.data_queue ∙ ap (bounded_append d) e

  -- A message with the text of an indoor temperature of 10 to 99 degrees, while the command task
  -- waits for a notification with nothing pending or queued: a turn of the data task and one of the
  -- command task, after the handler, make one call more, which switches the socket on up to 20
  -- degrees and off above.
  pub indoor_value_regulates :
      (g : Gateway k) (n client : ℕ) (behind : Bytes)
      → IsWaiting g
      → 160 ≤ n
      → n < 1600
      → (m : Mqtt.Mqtt) × (Mqtt.mqtt_event_handler client
            (Mqtt.mqtt_event_data (delivered (print_f n) behind))
            (record g.mqtt { calls = [] })
          ≡ ok m)
        × ((cmd_turn k (data_turn k (after_mqtt g m))).automatic
            ≡ g.automatic ++ switch sock (regulated (n / 16)) ∷ [])
  unfolding send_values
  indoor_value_regulates g n client behind w low high =
      let m =
        with_temperature client (n / 16) (delivered (print_f n) behind)
          (record g.mqtt { calls = [] }) in
      (
        m,
        text_arrives n client behind (record g.mqtt { calls = [] }) low high,
        regulates (after_mqtt g m) sock (n / 16) w.phase w.notified
            (items-send_values (record g { mqtt = m }) (value_of sock (n / 16)) w.empty) refl,
      )

  -- An answer of the outdoor device of class 2 whose first byte is the temperature and not 111, while
  -- the command task waits for a notification with nothing pending or queued: a turn of the data task
  -- and one of the command task, after the handler, make one call more, which switches the motor on
  -- up to 20 degrees and off above.
  pub outdoor_value_regulates :
      (g : Gateway k) (t : ℕ) (rest : Bytes) (r : Coap.Response)
      → IsWaiting g
      → Coap.response_class r.code ≡ 2
      → r.body ≡ some (t ∷ rest)
      → t ≢ b'o'
      → (c : Coap.Client) × (Coap.message_handler r (record g.client { calls = [] }) ≡ ok c)
        × ((cmd_turn k (data_turn k (after_coap g c))).automatic
            ≡ g.automatic ++ switch motor (regulated t) ∷ [])
  unfolding send_values
  outdoor_value_regulates g t rest r w class body n =
      let c =
        Coap.call (Coap.queue_send_data (outdoor t))
          (record g.client { calls = []; temp_value_outdoor = outdoor t; resp_wait = false }) in
      (
        c,
        message_handler-value r t rest (record g.client { calls = [] }) class body n,
        regulates (after_coap g c) motor t w.phase w.notified
            (items-send_values (record g { client = c }) (value_of motor t) w.empty) refl,
      )
