-- ===== src/System/Gateway/Widths.antt =====
-- The widths of the gateway's variables and of what its queues hold, whose types in app_main.h and
-- http.c are `uint8_t` and `char`.
use smart_home_project.Common.{
  ℕ, inl, inr, ◌++◌, List, [], ◌∷◌, Option, none, some, Bytes, All, if_both, subst, c_str, codes,
  replicate, Option-cases, ◌==◌, Ensures, Ensures->>=, Ensures-any, Ensures-ok, read, sprintf,
  strncmp_eq, Bool-cases, arith,
}
use smart_home_project.HomeCenter.Types.{DataInformation, CommandInformation, IsByte}
use smart_home_project.HomeCenter.Queue.{items-receive, All-send}
use smart_home_project.HomeCenter.Http.Safety.{IsCommand}
use smart_home_project.HomeCenter.Http.Widths
use smart_home_project.HomeCenter.Mqtt
use smart_home_project.HomeCenter.Coap
use smart_home_project.System.Gateway.{
  Queues, Gateway, Step, Reach, mqtt_values, coap_values, send_cmd, send_cmds, send_value,
  send_values, wifi_event, reconnect, http_body, mqtt_event, coap_message, handle_value,
  wait_notification, wait_command, take_bits, take_command, here, next,
}
use smart_home_project.System.Gateway.Invariant.{IsValid, every_run-IsValid}

-- Both fields of a value, and of a command, are bytes.
abbrev pub IsDatum : DataInformation → Type 0
IsDatum d = IsByte d.temperature_value × IsByte d.id_device

abbrev pub IsOrder : CommandInformation → Type 0
IsOrder c = IsByte c.cmd × IsByte c.id_device

-- The variables of mqtt.c, and of coap.c, with the values that their calls send.
abbrev MqttTyped : Mqtt.Mqtt → Type 0
MqttTyped m = IsDatum m.temp_value_indoor × All IsDatum (mqtt_values m.calls)

abbrev ClientTyped : Coap.Client → Type 0
ClientTyped c = IsDatum c.temp_value_outdoor × All IsDatum (coap_values c.calls)

on_temperature-MqttTyped :
    (e : Mqtt.Message) (m : Mqtt.Mqtt)
    → Ensures MqttTyped (Mqtt.on_temperature e (record m { calls = [] }))
unfolding Mqtt.on_temperature Mqtt.two_digits
on_temperature-MqttTyped e m =
    Ensures->>= (λ c. Unit {0}) MqttTyped (read e.payload 0) _ (Ensures-any (read e.payload 0))
      λ c u.
        Ensures->>= (λ d. Unit {0}) MqttTyped (read e.payload 1) _ (Ensures-any (read e.payload 1))
          λ d v. omega arith

on_data-MqttTyped :
    (e : Mqtt.Message) (m : Mqtt.Mqtt)
    → IsDatum m.temp_value_indoor
    → Ensures MqttTyped (Mqtt.on_data e (record m { calls = [] }))
unfolding Mqtt.on_data
on_data-MqttTyped e m t =
    let named = sprintf (replicate 100 0) (c_str e.topic ++ codes "\r\n") in
    Ensures->>= (λ s. Unit {0}) MqttTyped named _ (Ensures-any named)
      λ s u.
        if_both (Ensures MqttTyped) (strncmp_eq 8 s (codes "indoor/temperature")) _ _
          (on_temperature-MqttTyped e m)
          (if_both (Ensures MqttTyped) (strncmp_eq 8 s (codes "indoor/light_status")) _ _ (t, tt)
            (t, tt))

mqtt_event_handler-MqttTyped :
    (client : ℕ) (e : Mqtt.Event) (m : Mqtt.Mqtt)
    → IsDatum m.temp_value_indoor
    → Ensures MqttTyped (Mqtt.mqtt_event_handler client e (record m { calls = [] }))
unfolding Mqtt.mqtt_event_handler
mqtt_event_handler-MqttTyped client (Mqtt.mqtt_event_connected i j) m t = (t, tt)
mqtt_event_handler-MqttTyped client (Mqtt.mqtt_event_data e) m t =
    on_data-MqttTyped e (record m { client_g = some client }) t
mqtt_event_handler-MqttTyped client Mqtt.mqtt_event_disconnected m t = (t, tt)
mqtt_event_handler-MqttTyped client Mqtt.mqtt_event_subscribed m t = (t, tt)
mqtt_event_handler-MqttTyped client Mqtt.mqtt_event_unsubscribed m t = (t, tt)
mqtt_event_handler-MqttTyped client Mqtt.mqtt_event_published m t = (t, tt)
mqtt_event_handler-MqttTyped client Mqtt.mqtt_event_error m t = (t, tt)
mqtt_event_handler-MqttTyped client Mqtt.mqtt_event_other m t = (t, tt)

-- The bytes of a response.
abbrev pub BodyBytes : Option Bytes → Type 0
BodyBytes none = Unit {0}
BodyBytes (some body) = All IsByte body

on_body-ClientTyped :
    (body : Bytes) (c : Coap.Client)
    → All IsByte body
    → IsDatum c.temp_value_outdoor
    → Ensures ClientTyped (Coap.on_body body (record c { calls = [] }))
unfolding Coap.on_body
on_body-ClientTyped [] c b t = tt
on_body-ClientTyped (x ∷ body) c b t = elim (Bool-cases (x == b'o')) [
  | inl e ↦ rw e (t, tt)
  | inr e ↦ rw e ((b.0, omega arith), ((b.0, omega arith), tt))
]

message_handler-ClientTyped :
    (r : Coap.Response) (c : Coap.Client)
    → BodyBytes r.body
    → IsDatum c.temp_value_outdoor
    → Ensures ClientTyped (Coap.message_handler r (record c { calls = [] }))
unfolding Coap.message_handler
message_handler-ClientTyped r c b t = elim (Bool-cases (Coap.response_class r.code == 2)) [
  | inr k ↦ rw k (t, tt)
  | inl k ↦ rw k (elim (Option-cases r.body) [
    | inl e ↦ rw e (t, tt)
    | inr (body, e) ↦ rw e (on_body-ClientTyped body c (subst BodyBytes e b) t)
  ])
]

IsCommand-IsOrder : (cs : List CommandInformation) → All IsCommand cs → All IsOrder cs
IsCommand-IsOrder [] h = tt
IsCommand-IsOrder (c ∷ cs) h = ((omega (arith, h.0), omega (arith, h.0)), IsCommand-IsOrder cs h.1)

module _ (k : Queues) where
  pub record IsTyped (g : Gateway k) : Type 0 where
    pub http : Widths.IsTyped g.http
    pub command : IsOrder g.http.cmd_enqueue
    pub indoor : IsDatum g.mqtt.temp_value_indoor
    pub outdoor : IsDatum g.client.temp_value_outdoor
    pub commands : All IsOrder (k.commands.items g.cmd_queue)
    pub values : All IsDatum (k.values.items g.data_queue)

  -- What does not follow from the commands being known ones.
  abbrev Stored : Gateway k → Type 0
  Stored g =
      Widths.IsTyped g.http
      × IsDatum g.mqtt.temp_value_indoor
      × IsDatum g.client.temp_value_outdoor
      × All IsDatum (k.values.items g.data_queue)

  send_cmds-Stored :
      (cs : List CommandInformation) (g : Gateway k) → Stored g → Stored (send_cmds k cs g)
  unfolding send_cmds
  send_cmds-Stored [] g t = t
  send_cmds-Stored (c ∷ cs) g t = send_cmds-Stored cs (send_cmd k c g) t

  send_values-Stored :
      (ds : List DataInformation) (g : Gateway k)
      → All IsDatum ds
      → Stored g
      → Stored (send_values k ds g)
  unfolding send_values
  send_values-Stored [] g h t = t
  send_values-Stored (d ∷ ds) g h t =
      send_values-Stored ds (send_value k d g) h.1
        (t.0, t.1, t.2, All-send k.values IsDatum d g.data_queue h.0 t.3)

  -- The bodies that a step, and a run, receives are bytes.
  abbrev pub StepBytes : {g g' : Gateway k} → Step k g g' → Type 0
  StepBytes (http_body body fits e) = All IsByte body
  StepBytes (coap_message r h) = BodyBytes r.body
  StepBytes _ = Unit {0}

  abbrev pub RunBytes : {g g' : Gateway k} → Reach k g g' → Type 0
  RunBytes here = Unit {0}
  RunBytes (next r s) = RunBytes r × StepBytes s

  Step-Stored : {g g' : Gateway k} (s : Step k g g') → StepBytes s → Stored g → Stored g'
  Step-Stored (wifi_event connected e h) b t = send_cmds-Stored _ _ t
  Step-Stored reconnect b t = t
  Step-Stored {g} (http_body body {h} fits e) b t =
      send_cmds-Stored _ (record g { http = h })
        (
          Ensures-ok Widths.IsTyped _ h
              (Widths.body-IsTyped body (record g.http { calls = [] }) b
                (record { array = t.0.array; len = t.0.len }))
              e,
          t.1,
          t.2,
          t.3,
        )
  Step-Stored {g} (mqtt_event client e {m} h) b t =
      let (indoor, sent) =
        Ensures-ok MqttTyped _ m (mqtt_event_handler-MqttTyped client e g.mqtt t.1) h in
      send_values-Stored _ (record g { mqtt = m }) sent (t.0, indoor, t.2, t.3)
  Step-Stored {g} (coap_message r {c} h) b t =
      let (outdoor, sent) =
        Ensures-ok ClientTyped _ c (message_handler-ClientTyped r g.client b t.2) h in
      send_values-Stored _ (record g { client = c }) sent (t.0, t.1, outdoor, t.3)
  Step-Stored {g} (handle_value {d} {q} h) b t =
      let left : IsDatum d × All IsDatum (k.values.items q) =
        subst (All IsDatum) (items-receive k.values g.data_queue q d h) t.3 in
      (t.0, t.1, t.2, left.1)
  Step-Stored (wait_notification p c) b t = t
  Step-Stored (wait_command p c) b t = t
  Step-Stored (take_bits p n) b t = t
  Step-Stored (take_command p h) b t = t

  run-Stored : {g g' : Gateway k} (r : Reach k g g') → RunBytes r → Stored g → Stored g'
  run-Stored here b t = t
  run-Stored (next r s) b t = Step-Stored s b.1 (run-Stored r b.0 t)

  -- From a valid gateway of which it holds, over every interleaving whose bodies, of at most 87 bytes
  -- over HTTP, are bytes: `cmd_data` holds bytes and `len_cmd_data` is one, and so are both
  -- fields of the command under construction, of both temperatures, and of every command and value
  -- in the queues.
  pub every_run-IsTyped :
      {g g' : Gateway k} (r : Reach k g g') → IsValid k g → IsTyped g → RunBytes r → IsTyped g'
  every_run-IsTyped r v t b =
      let valid = every_run-IsValid k v r in
      let stored = run-Stored r b (t.http, t.indoor, t.outdoor, t.values) in
      record {
        http = stored.0;
        command = omega (arith, valid.command);
        indoor = stored.1;
        outdoor = stored.2;
        commands = IsCommand-IsOrder _ valid.commands;
        values = stored.3;
      }
