-- ===== src/System/Gateway/Invariant.antt =====
-- What holds of the gateway over every interleaving of its tasks and handlers.
use smart_home_project.Common.{
  suc, ◌≤◌, ◌≡◌, refl, List, [], ◌∷◌, some, Bytes, length, All, All-append, ok, Returns-Ensures,
  Ensures-ok, arith,
}
use smart_home_project.HomeCenter.Types.{DataInformation, CommandInformation}
use smart_home_project.HomeCenter.Queue.{Queue, queue_length, items-receive, length-send, All-send}
use smart_home_project.HomeCenter.Wifi
use smart_home_project.HomeCenter.Wifi.Retry
use smart_home_project.HomeCenter.Http
use smart_home_project.HomeCenter.Http.Safety.{IsCommand, SendsCommand, short_body-IsValid}
use smart_home_project.HomeCenter.Http.Safety
use smart_home_project.System.Gateway.{
  Queues, Gateway, Step, Reach, wifi_commands, http_commands, mqtt_values, coap_values, shared,
  send_cmd, send_cmds, send_value, send_values, wifi_event, reconnect, http_body, mqtt_event,
  coap_message, handle_value, wait_notification, wait_command, take_bits, take_command, here, next,
}
use smart_home_project.System.Gateway.Sends.{
  IsValue, IsSwitch, wifi_commands-IsCommand, http_commands-IsCommand, SendsValues,
  mqtt_values-IsValue, coap_values-IsValue, notify_le, on_notification-IsSwitch,
  on_dequeued-IsSwitch,
}

module _ (k : Queues) where
  pub record IsValid (g : Gateway k) : Type 0 where
    pub wifi : Retry.IsValid g.wifi
    pub array : length g.http.cmd_data ≡ 100
    pub command : IsCommand g.http.cmd_enqueue
    pub commands : All IsCommand (k.commands.items g.cmd_queue)
    pub few_commands : length (k.commands.items g.cmd_queue) ≤ queue_length
    pub values : All IsValue (k.values.items g.data_queue)
    pub few_values : length (k.values.items g.data_queue) ≤ queue_length
    pub notified : g.notified ≤ 3
    pub commanded : All IsSwitch g.commanded
    pub automatic : All IsSwitch g.automatic

  send_cmds-IsValid :
      (cs : List CommandInformation) (g : Gateway k)
      → All IsCommand cs
      → IsValid g
      → IsValid (send_cmds k cs g)
  unfolding send_cmds
  send_cmds-IsValid [] g h v = v
  send_cmds-IsValid (c ∷ cs) g h v = send_cmds-IsValid cs (send_cmd k c g) h.1 (
      ground
        (arith, All-send k.commands IsCommand c g.cmd_queue, length-send k.commands c g.cmd_queue))

  send_values-IsValid :
      (ds : List DataInformation) (g : Gateway k)
      → All IsValue ds
      → IsValid g
      → IsValid (send_values k ds g)
  unfolding send_values
  send_values-IsValid [] g h v = v
  send_values-IsValid (d ∷ ds) g h v = send_values-IsValid ds (send_value k d g) h.1 (
      ground (arith, All-send k.values IsValue d g.data_queue, length-send k.values d g.data_queue))

  pub http_body-IsValid :
      (g : Gateway k) (body : Bytes) (h : Http.Http)
      → length body ≤ 87
      → Http.client_event_post_handler (record g.http { calls = [] }) (Http.http_event_on_data body)
        ≡ ok h
      → IsValid g
      → Safety.IsValid h
  http_body-IsValid g body h fits e v =
      Ensures-ok Safety.IsValid _ h
        (Returns-Ensures Safety.IsValid _ (
          short_body-IsValid body (record g.http { calls = [] }) fits
            (record { array = v.array; command = v.command; sent = tt })))
        e

  -- The station's variables move within their own invariant.
  moved_wifi :
      (g : Gateway k) (w : Wifi.Wifi)
      → Retry.Step (record g.wifi { calls = [] }) w
      → IsValid g
      → Retry.IsValid w
  moved_wifi g w s v =
      Retry.Reach-IsValid {w = record g.wifi { calls = [] }}
        (record { connected = v.wifi.connected; retries = v.wifi.retries })
        (Retry.next Retry.here s)

  taken :
      {A : Type 0} (q : Queue A) (P : A → Type 0) (c d : q.Carrier) (a : A)
      → q.receive c ≡ some (a, d)
      → All P (q.items c)
      → length (q.items c) ≤ queue_length
      → All P (q.items d) × (length (q.items d) ≤ queue_length)
  taken q P c d a r h n =
      let e = items-receive q c d a r in
      let all : P a × All P (q.items d) = rw e at h in
      let few : suc (length (q.items d)) ≤ queue_length = rw e at n in (all.1, omega arith)

  pub Step-IsValid : {g g' : Gateway k} → Step k g g' → IsValid g → IsValid g'
  Step-IsValid {g} (wifi_event connected e {w} h) v =
      let wifi' = moved_wifi g w (Retry.handle connected e h) v in
      send_cmds-IsValid (wifi_commands w.calls) (record g { wifi = w })
        (Ensures-ok (λ x. All IsCommand (wifi_commands x.calls)) _ w
          (wifi_commands-IsCommand connected e g.wifi) h)
        (ground arith)
  Step-IsValid {g} reconnect v =
      let wifi' : Retry.IsValid (Wifi.reconnet_wifi_task g.wifi).0 =
        Retry.Reach-IsValid v.wifi (Retry.next Retry.here (Retry.restart refl)) in
      ground arith
  Step-IsValid {g} (http_body body {h} fits e) v =
      let h' = http_body-IsValid g body h fits e v in
      send_cmds-IsValid (http_commands h.calls) (record g { http = h })
        (http_commands-IsCommand h.calls h'.sent) (ground arith)
  Step-IsValid {g} (mqtt_event client e {m} h) v =
      send_values-IsValid (mqtt_values m.calls) (record g { mqtt = m })
        (Ensures-ok SendsValues _ m (mqtt_values-IsValue client e g.mqtt) h) (ground arith)
  Step-IsValid {g} (coap_message r {c} h) v =
      send_values-IsValid (coap_values c.calls) (record g { client = c })
        (Ensures-ok (λ x. All IsValue (coap_values x.calls)) _ c (coap_values-IsValue r g.client) h)
        (ground arith)
  Step-IsValid {g} (handle_value {d} {q} h) v =
      let left = taken k.values IsValue g.data_queue q d h v.values v.few_values in
      ground (arith, notify_le d g.wifi.wifi_connected g.notified)
  Step-IsValid {g} (wait_notification p c) v = ground arith
  Step-IsValid {g} (wait_command p c) v = ground arith
  Step-IsValid {g} (take_bits p n) v = ground (
    arith,
    All-append IsSwitch g.automatic _ v.automatic
        (on_notification-IsSwitch g.notified (shared k g)),
  )
  Step-IsValid {g} (take_command {c} {q} p h) v =
      let left = taken k.commands IsCommand g.cmd_queue q c h v.commands v.few_commands in
      ground (arith, All-append IsSwitch g.commanded _ v.commanded (on_dequeued-IsSwitch c))

  -- From a gateway of which it holds, whatever bodies of at most 87 bytes, messages and events arrive,
  -- and in whatever order the tasks run: both queues hold at most ten items, each a command for device 0, 1 or 2 with CMD 0 or 1, or
  -- a value of device 1 or 2; `wifi_connected` is 0 or 1 and `s_retry_num` at most 3; at most the
  -- two bits are pending; the array of http.c keeps its 100 bytes; and every call by which the
  -- command task switched is for the motor or the sock, with the text on or off.
  pub every_run-IsValid : {g g' : Gateway k} → IsValid g → Reach k g g' → IsValid g'
  every_run-IsValid v here = v
  every_run-IsValid v (next r s) = Step-IsValid s (every_run-IsValid v r)
