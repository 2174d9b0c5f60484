-- ===== src/System/Gateway/Delay.antt =====
-- How long a command may wait: a command task that waits for a notification looks at the network
-- again only after a temperature.
use smart_home_project.Common.{ℕ, ◌+◌, ◌≤◌, ◌≡◌, refl, sym, ◌∙◌, ap, List, [], ◌∷◌, arith}
use smart_home_project.HomeCenter.Types.{DataInformation, CommandInformation}
use smart_home_project.HomeCenter.Tasks
use smart_home_project.System.Gateway.{
  Queues, Gateway, Step, Reach, Phase, wifi_commands, http_commands, mqtt_values, coap_values,
  waiting_notification, send_cmd, send_cmds, send_value, send_values, wifi_event, reconnect,
  http_body, mqtt_event, coap_message, handle_value, wait_notification, wait_command, take_bits,
  take_command, here, next,
}

-- Where the command task stands, and what it did.
pub record Standing : Type 0 where
  pub handled : ℕ
  pub phase : Phase
  pub notified : ℕ
  pub commanded : List Tasks.Call
  pub automatic : List Tasks.Call

-- From a standing, a waiting command task did nothing unless the data task went on.
record Delays (s t : Standing) : Type 0 where
  pub grows : s.handled ≤ t.handled
  pub waits : t.handled ≡ s.handled → t ≡ record s { phase = waiting_notification; notified = 0 }

handled-Delays : {s t u : Standing} → Delays s t → u.handled ≡ t.handled + 1 → Delays s u
handled-Delays d e = record {
  grows = omega (arith, d.grows, e);
  waits = λ h. absurd (omega (arith, d.grows, e, h));
}

-- A step that the command task cannot make while it waits for a notification.
other-Delays :
    {s t u : Standing}
    → Delays s t
    → u.handled ≡ t.handled
    → (t.phase ≡ waiting_notification → t.notified ≡ 0 → ⊥)
    → Delays s u
other-Delays {s} {t} d e n = record {
  grows = omega (arith, d.grows, e);
  waits =
      λ h. let w = d.waits (sym e ∙ h) in absurd (n (ap (λ x. x.phase) w) (ap (λ x. x.notified) w));
}

module _ (k : Queues) where
  abbrev pub standing : Gateway k → Standing
  standing g = record {
    handled = g.handled;
    phase = g.phase;
    notified = g.notified;
    commanded = g.commanded;
    automatic = g.automatic;
  }

  standing-send_cmds :
      (cs : List CommandInformation) (g : Gateway k) → standing (send_cmds k cs g) ≡ standing g
  unfolding send_cmds
  standing-send_cmds [] g = refl
  standing-send_cmds (c ∷ cs) g = standing-send_cmds cs (send_cmd k c g)

  standing-send_values :
      (ds : List DataInformation) (g : Gateway k) → standing (send_values k ds g) ≡ standing g
  unfolding send_values
  standing-send_values [] g = refl
  standing-send_values (d ∷ ds) g = standing-send_values ds (send_value k d g)

  Step-Delays :
      {s : Standing} {g h : Gateway k} → Step k g h → Delays s (standing g) → Delays s (standing h)
  Step-Delays {s} {g} (wifi_event connected e {w} x) d =
      rw (standing-send_cmds (wifi_commands w.calls) (record g { wifi = w })) d
  Step-Delays reconnect d = d
  Step-Delays {s} {g} (http_body body {h} fits e) d =
      rw (standing-send_cmds (http_commands h.calls) (record g { http = h })) d
  Step-Delays {s} {g} (mqtt_event client e {m} x) d =
      rw (standing-send_values (mqtt_values m.calls) (record g { mqtt = m })) d
  Step-Delays {s} {g} (coap_message r {c} x) d =
      rw (standing-send_values (coap_values c.calls) (record g { client = c })) d
  Step-Delays (handle_value x) d = handled-Delays d refl
  Step-Delays (wait_notification p c) d = other-Delays d refl λ w n. cc (p, w)
  Step-Delays (wait_command p c) d = other-Delays d refl λ w n. cc (p, w)
  Step-Delays (take_bits p b) d = other-Delays d refl λ w n. b n
  Step-Delays (take_command p r) d = other-Delays d refl λ w n. cc (p, w)

  run-Delays :
      {g h : Gateway k}
      → g.phase ≡ waiting_notification
      → g.notified ≡ 0
      → Reach k g h
      → Delays (standing g) (standing h)
  run-Delays {g} p n here = record { grows = omega arith; waits = λ e. cc (p, n) }
  run-Delays p n (next r s) = Step-Delays s (run-Delays p n r)

  -- A command task that waits for a notification, with none pending, makes no call and stays where
  -- it is over every run in which the data task takes no value: commands that arrive wait too, and
  -- also when the network is back.
  pub command_waits_for_value :
      {g h : Gateway k}
      → g.phase ≡ waiting_notification
      → g.notified ≡ 0
      → Reach k g h
      → h.handled ≡ g.handled
      → standing h ≡ standing g
  command_waits_for_value p n r e = (run-Delays p n r).waits e ∙ cc (p, n)
