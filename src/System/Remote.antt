-- ===== src/System/Remote.antt =====
-- A request of Thingsboard, from the body that HomeCenter/main/http.c receives to the call by which
-- the command task of HomeCenter/main/app_main.c switches a device.
use smart_home_project.Common.{
  ◌+◌, ◌≤◌, ◌<◌, ◌≡◌, refl, ◌∙◌, ap, ◌⊎◌, inl, inr, [], ◌∷◌, ◌++◌, Bool, true, false, ok, length,
  lt→ltb, if◌then◌else◌, arith,
}
use smart_home_project.HomeCenter.Types.{CommandInformation}
use smart_home_project.HomeCenter.Queue.{queue_length}
use smart_home_project.HomeCenter.Http
use smart_home_project.HomeCenter.Http.Command.{first_letter, rpc_command}
use smart_home_project.HomeCenter.Http.Request.{Request, IsRequest, request_body}
use smart_home_project.HomeCenter.Tasks.Dispatch.{Device, motor, sock, number, switch, switches}
use smart_home_project.System.Gateway.{
  Queues, Gateway, Reach, http_commands, send_cmd, send_cmds, http_body, next, here,
}
use smart_home_project.System.Gateway.Turns.{cmd_turns}
use smart_home_project.System.Gateway.Order.{calls_of, calls_of-append}
use smart_home_project.System.Gateway.Progress.{
  IsServing, double, drains_all, Reach-Reach, cmd_turns-Reach,
}

abbrev pub command_for : Device → Bool → CommandInformation
command_for d on = record { cmd = if on then 1 else 0; id_device = number d }

switches-command_for : (d : Device) (on : Bool) → switches (command_for d on) ≡ switch d on ∷ []
switches-command_for motor true = refl
switches-command_for motor false = refl
switches-command_for sock true = refl
switches-command_for sock false = refl

number_cases : (d : Device) → (number d ≡ 1) ⊎ (number d ≡ 2)
number_cases motor = inl refl
number_cases sock = inr refl

module _ (k : Queues) where
  -- The gateway once the HTTP handler has sent its commands to the queue.
  abbrev pub after_http : Gateway k → Http.Http → Gateway k
  after_http g h = send_cmds k (http_commands h.calls) (record g { http = h })

  abbrev pub drained : Gateway k → Gateway k
  drained g = cmd_turns k (double (length (k.commands.items g.cmd_queue))) g

  after_http_lem :
      (g : Gateway k) (h : Http.Http) (c : CommandInformation)
      → h.calls ≡ Http.queue_send_cmd c ∷ []
      → after_http g h ≡ send_cmd k c (record g { http = h })
  unfolding send_cmds
  after_http_lem g h c e = ap (λ cs. send_cmds k (http_commands cs) (record g { http = h })) e

  items-send_cmd :
      (g : Gateway k) (c : CommandInformation)
      → length (k.commands.items g.cmd_queue) < queue_length
      → k.commands.items (send_cmd k c g).cmd_queue ≡ k.commands.items g.cmd_queue ++ c ∷ []
  items-send_cmd g c room =
      k.commands.items-send c g.cmd_queue
      ∙ rw (lt→ltb (length (k.commands.items g.cmd_queue)) queue_length room) refl

  -- The commands that wait, and then the new one.
  drained_lem :
      (g : Gateway k) (d : Device) (on : Bool)
      → IsServing k g
      → length (k.commands.items g.cmd_queue) < queue_length
      → let h = drained (send_cmd k (command_for d on) g) in
        (k.commands.items h.cmd_queue ≡ [])
        × (h.commanded
            ≡ g.commanded ++ (calls_of (k.commands.items g.cmd_queue) ++ switch d on ∷ []))
  drained_lem g d on s room =
      let waiting = k.commands.items g.cmd_queue in
      let one = ap (λ x. x ++ []) (switches-command_for d on) in
      let all =
        ap calls_of (items-send_cmd g (command_for d on) room)
        ∙ (calls_of-append waiting (command_for d on ∷ []) ∙ ap (λ x. calls_of waiting ++ x) one) in
      let done =
        drains_all k (send_cmd k (command_for d on) g)
          (record { connected = s.connected; phase = s.phase }) in
      (done.0.empty, done.0.commanded ∙ ap (λ x. g.commanded ++ x) all)

  -- With a network and room in the queue, a request for a device with a Boolean parameter, of at
  -- most 87 bytes, makes the command task, after the commands that wait already, switch that device
  -- as the request says, and nothing else; it then waits with the queue empty.
  pub remote_command_switches :
      (g : Gateway k) (r : Request) (d : Device) (on : Bool)
      → IsServing k g
      → length (k.commands.items g.cmd_queue) < queue_length
      → length g.http.cmd_data ≡ 100
      → IsRequest r
      → length (request_body r) ≤ 87
      → r.digit ≡ b'0' + number d
      → r.value ≡ first_letter on
      → (h : Http.Http) × (Http.client_event_post_handler
            (record g.http { calls = [] })
            (Http.http_event_on_data (request_body r))
          ≡ ok h)
        × Reach k g (drained (after_http g h))
        × (k.commands.items (drained (after_http g h)).cmd_queue ≡ [])
        × ((drained (after_http g h)).commanded
            ≡ g.commanded ++ (calls_of (k.commands.items g.cmd_queue) ++ switch d on ∷ []))
  remote_command_switches g r d on s room array q fits digit value =
      let (h, e, sent, kept) =
        rpc_command r (record g.http { calls = [] }) (number d) on q array (omega arith)
          (number_cases d) digit value in
      let g' = record g { http = h } in
      let one = after_http_lem g h (command_for d on) sent in
      let done = drained_lem g' d on (record { connected = s.connected; phase = s.phase }) room in
      (
        h,
        e,
        Reach-Reach k (next here (http_body _ fits e)) (cmd_turns-Reach k _ _),
        rw one done.0,
        rw one done.1,
      )
