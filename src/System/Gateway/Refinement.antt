-- ===== src/System/Gateway/Refinement.antt =====
-- What the gateway promises of its commands, as a machine that knows a list of commands and the
-- calls made, and not the tasks, the handlers or how the queue is represented: the gateway does
-- nothing else.
use smart_home_project.Common.{
  ℕ, ◌<◌, ◌≤◌, ◌≡◌, sym, subst, inl, inr, ◌++◌, List, [], ◌∷◌, length, ltb, Bool-cases, ltb→lt, All,
  Ensures-ok, arith,
}
use smart_home_project.HomeCenter.Types.{DataInformation, CommandInformation}
use smart_home_project.HomeCenter.Queue.{queue_length, items-receive}
use smart_home_project.HomeCenter.Http.Safety.{IsCommand}
use smart_home_project.HomeCenter.Tasks
use smart_home_project.HomeCenter.Tasks.Dispatch.{switches, on_dequeued-switches}
use smart_home_project.System.Gateway.{
  Queues, Gateway, Step, Reach, shared, wifi_commands, http_commands, send_cmd, send_cmds,
  send_value, send_values, wifi_event, reconnect, http_body, mqtt_event, coap_message, handle_value,
  wait_notification, wait_command, take_bits, take_command, here, next,
}
use smart_home_project.System.Gateway.Sends.{
  IsSwitch, wifi_commands-IsCommand, http_commands-IsCommand, on_notification-IsSwitch,
}
use smart_home_project.System.Gateway.Invariant.{IsValid, every_run-IsValid, http_body-IsValid}

pub record Controller : Type 0 where
  pub pending : List CommandInformation
  pub commanded : List Tasks.Call
  pub automatic : List Tasks.Call

-- It takes a command while fewer than ten wait, serves the oldest one by the call that the command
-- asks for, and regulates by itself.
pub data Move (c : Controller) : Controller → Type 0 where
  accept :
      (x : CommandInformation)
      → IsCommand x
      → length c.pending < queue_length
      → Move c (record c { pending = c.pending ++ x ∷ [] })
  serve_first :
      {x : CommandInformation} {xs : List CommandInformation}
      → c.pending ≡ x ∷ xs
      → Move c (record c { pending = xs; commanded = c.commanded ++ switches x })
  regulate :
      (calls : List Tasks.Call)
      → All IsSwitch calls
      → length calls ≤ 1
      → Move c (record c { automatic = c.automatic ++ calls })

pub data Moves (c : Controller) : Controller → Type 0 where
  still : Moves c c
  moved : {d e : Controller} → Moves c d → Move d e → Moves c e

Moves-Moves : {c d e : Controller} → Moves c d → Moves d e → Moves c e
Moves-Moves m still = m
Moves-Moves m (moved n s) = moved (Moves-Moves m n) s

on_notification-length : (bits : ℕ) (s : Tasks.Shared) → length (Tasks.on_notification bits s) ≤ 1
unfolding Tasks.on_notification
on_notification-length bits s = ground arith

module _ (k : Queues) where
  -- What the machine knows of a gateway.
  abbrev pub controller : Gateway k → Controller
  controller g = record {
    pending = k.commands.items g.cmd_queue;
    commanded = g.commanded;
    automatic = g.automatic;
  }

  abbrev pub Simulates : Gateway k → Gateway k → Type 0
  Simulates g h = Moves (controller g) (controller h)

  send_cmd-Simulates :
      (c : CommandInformation) (g : Gateway k) → IsCommand c → Simulates g (send_cmd k c g)
  send_cmd-Simulates c g v =
      elim (Bool-cases (ltb (length (k.commands.items g.cmd_queue)) queue_length)) [
        | inl e ↦
            rw (k.commands.items-send c g.cmd_queue, e) (moved still (accept c v (ltb→lt _ _ e)))
        | inr e ↦ rw (k.commands.items-send c g.cmd_queue, e) still
      ]

  send_cmds-Simulates :
      (cs : List CommandInformation) (g : Gateway k)
      → All IsCommand cs
      → Simulates g (send_cmds k cs g)
  unfolding send_cmds
  send_cmds-Simulates [] g v = still
  send_cmds-Simulates (c ∷ cs) g v =
      Moves-Moves (send_cmd-Simulates c g v.0) (send_cmds-Simulates cs (send_cmd k c g) v.1)

  send_values-Simulates :
      (ds : List DataInformation) (g : Gateway k) → Simulates g (send_values k ds g)
  unfolding send_values
  send_values-Simulates [] g = still
  send_values-Simulates (d ∷ ds) g = send_values-Simulates ds (send_value k d g)

  Step-Simulates : {g g' : Gateway k} → Step k g g' → IsValid k g → Simulates g g'
  Step-Simulates {g} (wifi_event connected e {w} h) v =
      send_cmds-Simulates (wifi_commands w.calls) (record g { wifi = w })
        (Ensures-ok (λ x. All IsCommand (wifi_commands x.calls)) _ w
          (wifi_commands-IsCommand connected e g.wifi) h)
  Step-Simulates reconnect v = still
  Step-Simulates {g} (http_body body {h} fits e) v =
      send_cmds-Simulates (http_commands h.calls) (record g { http = h })
        (http_commands-IsCommand h.calls (http_body-IsValid k g body h fits e v).sent)
  Step-Simulates {g} (mqtt_event client e {m} h) v = send_values-Simulates _ (record g { mqtt = m })
  Step-Simulates {g} (coap_message r {c} h) v = send_values-Simulates _ (record g { client = c })
  Step-Simulates (handle_value h) v = still
  Step-Simulates (wait_notification p c) v = still
  Step-Simulates (wait_command p c) v = still
  Step-Simulates {g} (take_bits p n) v = moved still (
      regulate (Tasks.on_notification g.notified (shared k g))
        (on_notification-IsSwitch g.notified (shared k g))
        (on_notification-length g.notified (shared k g)))
  Step-Simulates {g} (take_command {c} {q} p h) v =
      subst
        (λ calls. Moves (controller g) (record (controller g) {
          pending = k.commands.items q;
          commanded = g.commanded ++ calls;
        }))
        (sym (on_dequeued-switches c))
        (moved still (serve_first (items-receive k.commands g.cmd_queue q c h)))

  -- Every run of a valid gateway, with bodies of at most 87 bytes and any implementation of the
  -- queues, is a run of a machine that accepts a command while fewer than ten wait, serves the oldest
  -- by the one call that switches its device as it says, or by none where it is for no device, and
  -- makes at most one regulating call at a time.
  pub run_refines : {g g' : Gateway k} → IsValid k g → Reach k g g' → Simulates g g'
  run_refines v here = still
  run_refines v (next r s) =
      Moves-Moves (run_refines v r) (Step-Simulates s (every_run-IsValid k v r))
