-- ===== src/System/Recovery.antt =====
-- The network is back while the command task of HomeCenter/main/app_main.c waits for a notification:
-- the next value that its data task takes wakes it.
use smart_home_project.Common.{ℕ, ◌≡◌, ◌∙◌, ap, List, [], ◌∷◌, ◌++◌}
use smart_home_project.HomeCenter.Types.{DataInformation}
use smart_home_project.HomeCenter.Tasks.Dispatch.{Device, switch, last_temperature}
use smart_home_project.System.Gateway.{Queues, Gateway, Reach, waiting_notification, shared}
use smart_home_project.System.Gateway.Order.{calls_of}
use smart_home_project.System.Gateway.Progress.{IsServing, drains_all, Reach-Reach}
use smart_home_project.System.Gateway.Frame.{settled, settled-Reach}
use smart_home_project.System.Offline.{value_of, regulated, settled-notified}
use smart_home_project.System.Remote.{drained}

module _ (k : Queues) where
  -- A command task that waits for a notification though the network is back, with a value queued.
  pub record IsOverdue (g : Gateway k) (d : Device) (t : ℕ) (ds : List DataInformation)
      : Type 0 where
    pub connected : g.wifi.wifi_connected ≡ 1
    pub phase : g.phase ≡ waiting_notification
    pub notified : g.notified ≡ 0
    pub queued : k.values.items g.data_queue ≡ value_of d t ∷ ds

  -- A command task that waits for a notification with none pending, though the network is back, and
  -- a value for device 1 or 2 that is first in data_queue: a turn of the data task and one of the
  -- command task make one call, which switches that device by its last temperature, and take the
  -- value alone; then two turns of the command task for each command that waits serve them all, in
  -- their order, and leave cmd_queue empty; and these turns are steps of the gateway.
  pub recovers :
      (g : Gateway k) (d : Device) (t : ℕ) (ds : List DataInformation)
      → IsOverdue g d t ds
      → let h = drained k (settled k g) in
        ((settled k g).automatic
          ≡ g.automatic ++ switch d (regulated (last_temperature d (shared k g))) ∷ [])
        × (k.values.items (settled k g).data_queue ≡ ds)
        × (k.commands.items h.cmd_queue ≡ [])
        × (h.commanded ≡ g.commanded ++ calls_of (k.commands.items g.cmd_queue))
        × Reach k g h
  recovers g d t ds o =
      let (q, left, e) = settled-notified k g d t ds o.phase o.notified o.queued in
      let serving : IsServing k (settled k g) = record {
        connected = ap (λ x. x.wifi.wifi_connected) e ∙ o.connected;
        phase = ap (λ x. x.phase) e;
      } in
      let (all, steps) = drains_all k (settled k g) serving in
      (
        ap (λ x. x.automatic) e,
        ap (λ x. k.values.items x.data_queue) e ∙ left,
        all.empty,
        all.commanded ∙ ap (λ x. x.commanded ++ calls_of (k.commands.items x.cmd_queue)) e,
        Reach-Reach k (settled-Reach k g) steps,
      )
