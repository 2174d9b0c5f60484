-- ===== src/System/Gateway/Order.antt =====
-- The commands of `cmd_queue`: none is lost, doubled or overtaken.
use smart_home_project.Common.{
  ◌≡◌, refl, sym, ◌∙◌, ap, inl, inr, ◌++◌, append_assoc, List, [], ◌∷◌, some, length, ltb,
  Bool-cases,
}
use smart_home_project.HomeCenter.Types.{DataInformation, CommandInformation}
use smart_home_project.HomeCenter.Queue.{queue_length, items-receive}
use smart_home_project.HomeCenter.Tasks
use smart_home_project.HomeCenter.Tasks.Dispatch.{switches, on_dequeued-switches}
use smart_home_project.System.Gateway.{
  Queues, Gateway, Step, Reach, send_cmd, send_cmds, send_values, wifi_event, reconnect, http_body,
  mqtt_event, coap_message, handle_value, wait_notification, wait_command, take_bits, take_command,
  here, next,
}

-- The calls that commands ask for, one after the other.
abbrev pub calls_of : List CommandInformation → List Tasks.Call
calls_of [] = []
calls_of (c ∷ cs) = switches c ++ calls_of cs

pub calls_of-append :
    (cs ds : List CommandInformation) → calls_of (cs ++ ds) ≡ calls_of cs ++ calls_of ds
calls_of-append [] ds = refl
calls_of-append (c ∷ cs) ds =
    ap (λ x. switches c ++ x) (calls_of-append cs ds)
    ∙ sym (append_assoc (switches c) (calls_of cs) (calls_of ds))

module _ (k : Queues) where
  -- The calls that were made, and then those that the queue's commands ask for, are those that all
  -- commands that it took ask for.
  abbrev pub IsOrdered : Gateway k → Type 0
  IsOrdered g = calls_of g.history ≡ g.commanded ++ calls_of (k.commands.items g.cmd_queue)

  send_cmd-IsOrdered :
      (c : CommandInformation) (g : Gateway k) → IsOrdered g → IsOrdered (send_cmd k c g)
  send_cmd-IsOrdered c g o =
      elim (Bool-cases (ltb (length (k.commands.items g.cmd_queue)) queue_length)) [
        | inl e ↦
            rw (k.commands.items-send c g.cmd_queue, e)
              (calls_of-append g.history (c ∷ [])
                ∙ (ap (λ x. x ++ calls_of (c ∷ [])) o
                    ∙ (append_assoc g.commanded _ _
                        ∙ ap (λ x. g.commanded ++ x)
                            (sym (calls_of-append (k.commands.items g.cmd_queue) (c ∷ []))))))
        | inr e ↦ rw (k.commands.items-send c g.cmd_queue, e) o
      ]

  send_cmds-IsOrdered :
      (cs : List CommandInformation) (g : Gateway k) → IsOrdered g → IsOrdered (send_cmds k cs g)
  unfolding send_cmds
  send_cmds-IsOrdered [] g o = o
  send_cmds-IsOrdered (c ∷ cs) g o =
      send_cmds-IsOrdered cs (send_cmd k c g) (send_cmd-IsOrdered c g o)

  send_values-IsOrdered :
      (ds : List DataInformation) (g : Gateway k) → IsOrdered g → IsOrdered (send_values k ds g)
  unfolding send_values
  send_values-IsOrdered [] g o = o
  send_values-IsOrdered (d ∷ ds) g o = send_values-IsOrdered ds _ o

  Step-IsOrdered : {g g' : Gateway k} → Step k g g' → IsOrdered g → IsOrdered g'
  Step-IsOrdered (wifi_event connected e h) o = send_cmds-IsOrdered _ _ o
  Step-IsOrdered reconnect o = o
  Step-IsOrdered (http_body body fits e) o = send_cmds-IsOrdered _ _ o
  Step-IsOrdered (mqtt_event client e h) o = send_values-IsOrdered _ _ o
  Step-IsOrdered (coap_message r h) o = send_values-IsOrdered _ _ o
  Step-IsOrdered (handle_value h) o = o
  Step-IsOrdered (wait_notification p c) o = o
  Step-IsOrdered (wait_command p c) o = o
  Step-IsOrdered (take_bits p n) o = o
  Step-IsOrdered {g} (take_command {c} {q} p h) o =
      let items : calls_of (k.commands.items g.cmd_queue)
          ≡ Tasks.on_dequeued (some c) ++ calls_of (k.commands.items q) =
        ap calls_of (items-receive k.commands g.cmd_queue q c h)
        ∙ ap (λ x. x ++ calls_of (k.commands.items q)) (sym (on_dequeued-switches c)) in
      o ∙ (ap (λ x. g.commanded ++ x) items ∙ sym (append_assoc g.commanded _ _))

  -- From a gateway of which it holds, over every interleaving with bodies of at most 87 bytes: the
  -- calls made on commands, followed by those that the commands that still wait ask for, are those
  -- that all commands that the queue took ask for, in the order in which it took them: for a command
  -- for device 1 or 2 the one call that switches that device, on for CMD 1 and off for any other,
  -- and none for another device. No command taken is lost, served twice or overtaken.
  pub every_run-IsOrdered : {g g' : Gateway k} → IsOrdered g → Reach k g g' → IsOrdered g'
  every_run-IsOrdered o here = o
  every_run-IsOrdered o (next r s) = Step-IsOrdered s (every_run-IsOrdered o r)
