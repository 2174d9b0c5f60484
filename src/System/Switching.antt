-- ===== src/System/Switching.antt =====
-- From a request of Thingsboard, by way of the gateway, to the pin of the device.
use smart_home_project.Common.{
  ◌≤◌, ◌<◌, ◌≡◌, ◌∙◌, ap, ℕ, suc, ◌++◌, [], ◌∷◌, Bool, some, Bytes, codes, ok, Returns, length,
}
use smart_home_project.HomeCenter.Queue.{queue_length}
use smart_home_project.HomeCenter.Http
use smart_home_project.HomeCenter.Http.Command.{first_letter}
use smart_home_project.HomeCenter.Http.Request.{Request, IsRequest, request_body}
use smart_home_project.HomeCenter.Tasks.Dispatch.{motor, sock, switch}
use smart_home_project.HomeCenter.Mqtt
use smart_home_project.HomeCenter.Coap
use smart_home_project.HomeCenter.Coap.Requests as CoapRequests
use smart_home_project.HomeCenter.Coap.Answers.{IsReachable}
use smart_home_project.HomeCenter.Coap.Exchange.{put_calls}
use smart_home_project.Device1.Server as Outdoor
use smart_home_project.Device1.Server.Requests.{IsValid, before_motor, command, level}
use smart_home_project.Device2.Mqtt as Publisher
use smart_home_project.System.Indoor.{sock_text, sock_level, sock_message, sock_command_arrives}
use smart_home_project.System.Outdoor.{response, motor_command_arrives}
use smart_home_project.System.Remote.{after_http, drained, remote_command_switches}
use smart_home_project.System.Gateway.{Queues, Gateway, Reach, http_commands}
use smart_home_project.System.Gateway.Order.{calls_of}
use smart_home_project.System.Gateway.Progress.{IsServing}
use smart_home_project.System.Gateway.Frame.{send_cmds-mqtt, cmd_turns-mqtt}

module _ (k : Queues) where
  drained-mqtt : (g : Gateway k) (h : Http.Http) → (drained k (after_http k g h)).mqtt ≡ g.mqtt
  drained-mqtt g h =
      cmd_turns-mqtt k _ (after_http k g h)
      ∙ send_cmds-mqtt k (http_commands h.calls) (record g { http = h })

  -- With a network, room in the queue and a connected broker, a request for the socket with a Boolean
  -- parameter, of at most 87 bytes, makes the command task, after the commands that wait already,
  -- switch the socket as the request says and nothing else; that call publishes the text of the
  -- command under the topic that the indoor device subscribes to when it connects, and the message
  -- makes the device set the pin of its socket, to 1 for true and 0 for false, whatever stands behind
  -- the text in its buffer.
  pub remote_sock_switches :
      (g : Gateway k) (r : Request) (on : Bool) (client client' id : ℕ) (behind : Bytes)
      (d : Publisher.Mqtt)
      → IsServing k g
      → length (k.commands.items g.cmd_queue) < queue_length
      → length g.http.cmd_data ≡ 100
      → IsRequest r
      → length (request_body r) ≤ 87
      → r.digit ≡ b'2'
      → r.value ≡ first_letter on
      → g.mqtt.client_g ≡ some client
      → ((h : Http.Http) × (Http.client_event_post_handler
              (record g.http { calls = [] })
              (Http.http_event_on_data (request_body r))
            ≡ ok h)
          × Reach k g (drained k (after_http k g h))
          × ((drained k (after_http k g h)).commanded
              ≡ g.commanded ++ (calls_of (k.commands.items g.cmd_queue) ++ switch sock on ∷ []))
          × ((Mqtt.control_sock_mqtt (sock_text on) (drained k (after_http k g h)).mqtt).calls
              ≡ g.mqtt.calls
                ++ Mqtt.publish (some client) (codes "indoor/control_sock") (sock_text on) ∷ []))
        × (Publisher.mqtt_event_handler client' (Publisher.mqtt_event_connected id) d
            ≡ ok (record d {
              client_g = some client';
              msg_id = id;
              calls = d.calls ++ Publisher.subscribe client' (codes "indoor/control_sock") ∷ [];
            }))
        × (Publisher.mqtt_event_handler client'
              (Publisher.mqtt_event_data (sock_message (sock_text on) behind))
              d
            ≡ ok (record d {
              client_g = some client';
              calls = d.calls ++ Publisher.gpio_set_level 2 (sock_level on) ∷ [];
            }))
  remote_sock_switches g r on client client' id behind d s room array q fits digit value e =
      let (h, received, reach, empty, switched) =
        remote_command_switches k g r sock on s room array q fits digit value in
      let (sent, subscribed, set) = sock_command_arrives on client client' id behind g.mqtt d e in
      (
        (
          h,
          received,
          reach,
          switched,
          ap (λ m. (Mqtt.control_sock_mqtt (sock_text on) m).calls) (drained-mqtt g h) ∙ sent,
        ),
        subscribed,
        set,
      )

  -- With a network and room in the queue, a request for the motor with a Boolean parameter, of at
  -- most 87 bytes, makes the command task, after the commands that wait already, switch the motor as
  -- the request says and nothing else; where the gateway then reaches the outdoor device and its
  -- first call delivers an answer of class 2 with the command, that call sends the command's text and
  -- ends with nothing queued, and the text makes a device with a valid server set the pin of its
  -- motor last, to 1 for true and 0 for false.
  pub remote_motor_switches :
      (g : Gateway k) (r : Request) (on : Bool) (lib : CoapRequests.Library) (uri : Coap.Uri)
      (rounds detail : ℕ) (d : Outdoor.Server)
      → IsServing k g
      → length (k.commands.items g.cmd_queue) < queue_length
      → length g.http.cmd_data ≡ 100
      → IsRequest r
      → length (request_body r) ≤ 87
      → r.digit ≡ b'1'
      → r.value ≡ first_letter on
      → IsReachable lib uri
      → (lib.io 0 1000).delivered ≡ response detail (command on) ∷ []
      → detail < 32
      → IsValid d
      → ((h : Http.Http) × (Http.client_event_post_handler
              (record g.http { calls = [] })
              (Http.http_event_on_data (request_body r))
            ≡ ok h)
          × Reach k g (drained k (after_http k g h))
          × ((drained k (after_http k g h)).commanded
              ≡ g.commanded ++ (calls_of (k.commands.items g.cmd_queue) ++ switch motor on ∷ []))
          × ((c : Coap.Client) × (CoapRequests.control_motor_coap lib
                  (suc rounds)
                  (command on)
                  (record (drained k (after_http k g h)).client { calls = [] })
                ≡ ok (Coap.ended c))
              × (c.calls ≡ put_calls lib uri (command on))))
        × Returns
            (λ d'.
              d'.calls
              ≡ d.calls ++ (before_motor (command on) ++ Outdoor.gpio_set_level 2 (level on) ∷ []))
            (Outdoor.control_motor_request (command on) d)
  remote_motor_switches g r on lib uri rounds detail d s room array q fits digit value near answer
        small v =
      let (h, received, reach, empty, switched) =
        remote_command_switches k g r motor on s room array q fits digit value in
      let ((c, done, kept, no_options, calls), moved) =
        motor_command_arrives on lib uri rounds detail (drained k (after_http k g h)).client d near
          answer small v in
      ((h, received, reach, switched, (c, done, calls)), moved)
