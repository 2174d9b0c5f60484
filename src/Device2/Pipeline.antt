-- ===== src/Device2/Pipeline.antt =====
-- The two tasks of Device2_mqtt/main/app_main.c over their queue, with the events of the MQTT client
-- between them, in any order. The queue is a parameter; its `xQueueSend` waits for room.
use smart_home_project.Common.{
  ℕ, ◌<◌, ◌≡◌, refl, sym, ◌∙◌, ap, inl, inr, List, [], ◌∷◌, ◌++◌, append_assoc, append-nil, map,
  some, Bytes, codes, c_str, strncmp_eq, sprintf, replicate, length, ltb, lt→ltb, ltb→lt,
  Bool-cases, if◌then◌else◌, if_both, Result, ok, fault, Ensures, Ensures-ok, Ensures->>=,
  Ensures-any, Returns-Ensures, arith,
}
use mathlib.Core.List.{map-append}
use smart_home_project.HomeCenter.Queue.{Queue, queue_length, items-receive}
use smart_home_project.Device2.Mqtt.{
  Mqtt, Event, Message, Call, call, sock_pin, publish, subscribe, gpio_set_level, client_init,
  register_event, client_start, mqtt_event_connected, mqtt_event_data, mqtt_event_disconnected,
  mqtt_event_subscribed, mqtt_event_unsubscribed, mqtt_event_published, mqtt_event_error,
  mqtt_event_other, mqtt_event_handler, on_data, control_sock_handler, publish_temperature_value,
}
use smart_home_project.Device2.Main.{print_f, read_data_ds18b20_task, send_data_to_homecenter_task}
use smart_home_project.Device2.Print.{below_hundred_fits, hundred_overflow}

module _ (k : Queue Bytes) where
  -- The variables of mqtt.c and the queue; `measured` holds the temperatures that were queued.
  pub record Device : Type 0 where
    pub mqtt : Mqtt
    pub data_queue : k.Carrier
    pub measured : List ℕ

  pub data Step (d : Device) : Device → Type 0 where
    measure :
        (t : ℕ) {item : Bytes}
        → read_data_ds18b20_task t ≡ ok item
        → length (k.items d.data_queue) < queue_length
        → Step d
            (record d { data_queue = k.send item d.data_queue; measured = d.measured ++ t ∷ [] })
    hand_over :
        (id : ℕ) {item : Bytes} {q : k.Carrier}
        → k.receive d.data_queue ≡ some (item, q)
        → Step d
            (record d { data_queue = q; mqtt = send_data_to_homecenter_task id (some item) d.mqtt })
    event :
        (client : ℕ) (e : Event) {m : Mqtt}
        → mqtt_event_handler client e d.mqtt ≡ ok m
        → Step d (record d { mqtt = m })

  pub data Reach (d : Device) : Device → Type 0 where
    here : Reach d d
    next : {t u : Device} → Reach d t → Step t u → Reach d u

-- The texts that were published, in order.
abbrev pub payloads : List Call → List Bytes
payloads [] = []
payloads (publish c topic text ∷ cs) = text ∷ payloads cs
payloads (_ ∷ cs) = payloads cs

payloads-append : (xs ys : List Call) → payloads (xs ++ ys) ≡ payloads xs ++ payloads ys
payloads-append [] ys = refl
payloads-append (publish c topic text ∷ xs) ys = ap (λ x. text ∷ x) (payloads-append xs ys)
payloads-append (subscribe c topic ∷ xs) ys = payloads-append xs ys
payloads-append (gpio_set_level p l ∷ xs) ys = payloads-append xs ys
payloads-append (client_init u ∷ xs) ys = payloads-append xs ys
payloads-append (register_event c ∷ xs) ys = payloads-append xs ys
payloads-append (client_start c ∷ xs) ys = payloads-append xs ys

-- A call that publishes nothing.
quiet_call :
    (cs : List Call) (c : Call) → payloads (c ∷ []) ≡ [] → payloads (cs ++ c ∷ []) ≡ payloads cs
quiet_call cs c e =
    payloads-append cs (c ∷ []) ∙ (ap (λ x. payloads cs ++ x) e ∙ append-nil (payloads cs))

-- Only a temperature below 100 degrees is queued.
pub measured_fits : (t : ℕ) (item : Bytes) → read_data_ds18b20_task t ≡ ok item → t < 1600
measured_fits t item e = elim (Bool-cases (ltb t 1600)) [
  | inl l ↦ ltb→lt t 1600 l
  | inr g ↦ absurd (fault_not_ok (sym (hundred_overflow t (ground arith)) ∙ e))
]
  where
    fault_not_ok : {item : Bytes} → ¬ (◌≡◌ {A = Result Bytes} fault (ok item))
    fault_not_ok h = cc

-- A text that the task queued is that of its temperature.
queued_text : (t : ℕ) (item : Bytes) → read_data_ds18b20_task t ≡ ok item → c_str item ≡ print_f t
queued_text t item e =
    Ensures-ok (λ b. c_str b ≡ print_f t) _ item
      (Returns-Ensures (λ b. c_str b ≡ print_f t) _ (below_hundred_fits t (measured_fits t item e)))
      e

-- An event publishes nothing, and leaves the client connected.
record IsQuiet (m m' : Mqtt) : Type 0 where
  pub kept : payloads m'.calls ≡ payloads m.calls
  pub connected : (client : ℕ) × (m'.client_g ≡ some client)

control_sock_handler-IsQuiet :
    (cmd : Bytes) (client : ℕ) (m : Mqtt)
    → IsQuiet m (control_sock_handler cmd (record m { client_g = some client }))
unfolding control_sock_handler
control_sock_handler-IsQuiet cmd client m =
    let joined = record m { client_g = some client } in
    let set : ℕ → Mqtt = λ l. call (gpio_set_level sock_pin l) joined in
    if_both (IsQuiet m) (strncmp_eq 2 cmd (codes "on")) (set 1)
      (if strncmp_eq 3 cmd (codes "off") then set 0 else joined)
      (record { kept = quiet_call m.calls _ refl; connected = (client, refl) })
      (if_both (IsQuiet m) (strncmp_eq 3 cmd (codes "off")) (set 0) joined
        (record { kept = quiet_call m.calls _ refl; connected = (client, refl) })
        (record { kept = refl; connected = (client, refl) }))

on_data-IsQuiet :
    (e : Message) (client : ℕ) (m : Mqtt)
    → Ensures (IsQuiet m) (on_data e (record m { client_g = some client }))
unfolding on_data
on_data-IsQuiet e client m =
    let named = sprintf (replicate 100 0) (c_str e.topic ++ codes "\r\n") in
    Ensures->>= (λ t. Unit {0}) (IsQuiet m) named _ (Ensures-any named)
      λ t u.
        if_both (IsQuiet m) (strncmp_eq 8 t (codes "indoor/control_sock")) _ _
          (control_sock_handler-IsQuiet e.payload client m)
          (record { kept = refl; connected = (client, refl) })

event-IsQuiet :
    (client : ℕ) (e : Event) (m : Mqtt) → Ensures (IsQuiet m) (mqtt_event_handler client e m)
unfolding mqtt_event_handler
event-IsQuiet client (mqtt_event_connected id) m = record {
  kept = quiet_call m.calls _ refl;
  connected = (client, refl);
}
event-IsQuiet client (mqtt_event_data e) m = on_data-IsQuiet e client m
event-IsQuiet client mqtt_event_disconnected m = record { kept = refl; connected = (client, refl) }
event-IsQuiet client mqtt_event_subscribed m = record { kept = refl; connected = (client, refl) }
event-IsQuiet client mqtt_event_unsubscribed m = record { kept = refl; connected = (client, refl) }
event-IsQuiet client mqtt_event_published m = record { kept = refl; connected = (client, refl) }
event-IsQuiet client mqtt_event_error m = record { kept = refl; connected = (client, refl) }
event-IsQuiet client mqtt_event_other m = record { kept = refl; connected = (client, refl) }

publishes :
    (id client : ℕ) (item : Bytes) (m : Mqtt)
    → m.client_g ≡ some client
    → publish_temperature_value id item m
      ≡ call (publish client (codes "indoor/temperature") (c_str item)) (record m { msg_id = id })
unfolding publish_temperature_value
publishes id client item m e = ground arith

handed :
    (id client : ℕ) (item : Bytes) (m : Mqtt)
    → m.client_g ≡ some client
    → (payloads (send_data_to_homecenter_task id (some item) m).calls
        ≡ payloads m.calls ++ c_str item ∷ [])
      × ((send_data_to_homecenter_task id (some item) m).client_g ≡ some client)
unfolding send_data_to_homecenter_task
handed id client item m e = rw (publishes id client item m e) (payloads-append m.calls _, e)

module _ (k : Queue Bytes) where
  -- A connected device, whose published texts and then those of the queue are the measured ones.
  pub record IsOrdered (d : Device k) : Type 0 where
    pub connected : (client : ℕ) × (d.mqtt.client_g ≡ some client)
    pub texts : payloads d.mqtt.calls ++ map c_str (k.items d.data_queue) ≡ map print_f d.measured

  measured_texts :
      (d : Device k) (t : ℕ) (item : Bytes)
      → read_data_ds18b20_task t ≡ ok item
      → length (k.items d.data_queue) < queue_length
      → map c_str (k.items (k.send item d.data_queue))
        ≡ map c_str (k.items d.data_queue) ++ print_f t ∷ []
  measured_texts d t item e room =
      ap (map c_str) (k.items-send item d.data_queue ∙ rw (lt→ltb _ queue_length room) refl)
      ∙ (map-append c_str (k.items d.data_queue) (item ∷ [])
          ∙ ap (λ x. map c_str (k.items d.data_queue) ++ x ∷ []) (queued_text t item e))

  Step-IsOrdered : {d d' : Device k} → Step k d d' → IsOrdered d → IsOrdered d'
  Step-IsOrdered {d} (measure t {item} e room) o = record {
    connected = o.connected;
    texts =
        ap (λ x. payloads d.mqtt.calls ++ x) (measured_texts d t item e room)
        ∙ (sym (append_assoc (payloads d.mqtt.calls) _ _)
            ∙ (ap (λ x. x ++ print_f t ∷ []) o.texts
                ∙ sym (map-append print_f d.measured (t ∷ []))));
  }
  Step-IsOrdered {d} (hand_over id {item} {q} r) o =
      let (client, at) = o.connected in
      let (calls, still) = handed id client item d.mqtt at in
      record {
        connected = (client, still);
        texts =
            ap (λ x. x ++ map c_str (k.items q)) calls
            ∙ (append_assoc (payloads d.mqtt.calls) _ _
                ∙ (ap (λ x. payloads d.mqtt.calls ++ map c_str x)
                      (sym (items-receive k d.data_queue q item r))
                    ∙ o.texts));
      }
  Step-IsOrdered {d} (event client e {m} h) o =
      let quiet = Ensures-ok (IsQuiet d.mqtt) _ m (event-IsQuiet client e d.mqtt) h in
      record {
        connected = quiet.connected;
        texts = ap (λ x. x ++ map c_str (k.items d.data_queue)) quiet.kept ∙ o.texts;
      }

  -- From a connected device of which it holds, over every order of its two tasks and of the events of the MQTT
  -- client: the texts that were published, followed by those that wait in the queue, are those of
  -- the measured temperatures, in their order: none is lost, doubled or overtaken.
  pub every_run_publishes : {d d' : Device k} → IsOrdered d → Reach k d d' → IsOrdered d'
  every_run_publishes o here = o
  every_run_publishes o (next r s) = Step-IsOrdered s (every_run_publishes o r)
