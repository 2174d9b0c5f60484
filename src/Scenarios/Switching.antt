-- ===== src/Scenarios/Switching.antt =====
-- Runs from a request of Thingsboard to the pin of a device.
use smart_home_project.Common.{
  ◌≡◌, refl, [], ◌∷◌, ◌++◌, false, true, some, ok, codes, Returns, arith,
}
use smart_home_project.HomeCenter.Http
use smart_home_project.HomeCenter.Http.Request.{Request, IsRequest, request_body}
use smart_home_project.HomeCenter.Mqtt
use smart_home_project.HomeCenter.Coap
use smart_home_project.HomeCenter.Coap.Requests as CoapRequests
use smart_home_project.HomeCenter.Coap.Exchange.{put_calls}
use smart_home_project.HomeCenter.Tasks.Dispatch.{motor, sock, switch}
use smart_home_project.Device1.Server as Outdoor
use smart_home_project.Device1.Server.Requests.{before_motor}
use smart_home_project.Device2.Mqtt as Publisher
use smart_home_project.System.Gateway.{Gateway, Reach}
use smart_home_project.System.Gateway.Order.{calls_of}
use smart_home_project.System.Gateway.Progress.{IsServing}
use smart_home_project.System.Indoor.{sock_message}
use smart_home_project.System.Remote.{after_http, drained}
use smart_home_project.System.Switching.{remote_sock_switches, remote_motor_switches}
use smart_home_project.Scenarios.Tasks.{
  queues, busy, motor_on, sock_off, sock_on, sock_on-IsRequest, busy-IsServing,
}
use smart_home_project.Scenarios.Values.{publisher}
use smart_home_project.Scenarios.Outdoor.{
  demo, answers, network, network-IsReachable, moving, moving-IsValid,
}

abbrev linked : Gateway queues
linked = record busy { mqtt = record busy.mqtt { client_g = some 4 } }

linked-IsServing : IsServing queues linked
linked-IsServing = record { connected = refl; phase = refl }

remote_sock_switches_example :
    ((h : Http.Http) × (Http.client_event_post_handler
          (record linked.http { calls = [] })
          (Http.http_event_on_data (request_body sock_on))
        ≡ ok h)
      × Reach queues linked (drained queues (after_http queues linked h))
      × ((drained queues (after_http queues linked h)).commanded
          ≡ calls_of (motor_on ∷ sock_off ∷ []) ++ switch sock true ∷ [])
      × ((Mqtt.control_sock_mqtt
            (codes "on")
            (drained queues (after_http queues linked h)).mqtt).calls
          ≡ Mqtt.publish (some 4) (codes "indoor/control_sock") (codes "on") ∷ []))
    × (Publisher.mqtt_event_handler 9 (Publisher.mqtt_event_connected 3) publisher
        ≡ ok (record publisher {
          msg_id = 3;
          calls = Publisher.subscribe 9 (codes "indoor/control_sock") ∷ [];
        }))
    × (Publisher.mqtt_event_handler 9
          (Publisher.mqtt_event_data (sock_message (codes "on") (codes "off")))
          publisher
        ≡ ok (record publisher { calls = Publisher.gpio_set_level 2 1 ∷ [] }))
remote_sock_switches_example =
    remote_sock_switches queues linked sock_on true 4 9 3 (codes "off") publisher linked-IsServing
      (omega arith) refl sock_on-IsRequest (omega arith) refl refl refl

-- `{"id":7,"method":"dv1","params":false}`
abbrev motor_off : Request
motor_off = record sock_on { digit = b'1'; value = b'f'; tail = codes "alse}" }

motor_off-IsRequest : IsRequest motor_off
motor_off-IsRequest = record {
  id_plain = omega arith;
  method_plain = omega arith;
  value_plain = omega arith;
}

remote_motor_switches_example :
    let lib = network (answers (codes "off")) in
    ((h : Http.Http) × (Http.client_event_post_handler
          (record busy.http { calls = [] })
          (Http.http_event_on_data (request_body motor_off))
        ≡ ok h)
      × Reach queues busy (drained queues (after_http queues busy h))
      × ((drained queues (after_http queues busy h)).commanded
          ≡ calls_of (motor_on ∷ sock_off ∷ []) ++ switch motor false ∷ [])
      × ((c : Coap.Client) × (CoapRequests.control_motor_coap lib 1
              (codes "off")
              (record (drained queues (after_http queues busy h)).client { calls = [] })
            ≡ ok (Coap.ended c))
          × (c.calls ≡ put_calls lib demo (codes "off"))))
    × Returns
        (λ d. d.calls ≡ before_motor (codes "off") ++ Outdoor.gpio_set_level 2 0 ∷ [])
        (Outdoor.control_motor_request (codes "off") moving)
remote_motor_switches_example =
    remote_motor_switches queues busy motor_off false (network (answers (codes "off"))) demo 0 5
      moving busy-IsServing (omega arith) refl motor_off-IsRequest (omega arith) refl refl
      (network-IsReachable _) refl (omega arith) moving-IsValid
