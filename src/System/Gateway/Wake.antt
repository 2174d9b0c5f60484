-- ===== src/System/Gateway/Wake.antt =====
-- That a command task which waits for a command gets on when the network of HomeCenter/main/wifi.c
-- is lost.
use smart_home_project.Common.{
  ◌≤◌, ◌≡◌, refl, ◌∙◌, ap, inl, inr, ◌++◌, Ensures, Ensures-ok, ok, List, [], ◌∷◌, Bool, some,
  length, ltb, Bool-cases, arith,
}
use smart_home_project.HomeCenter.Types.{CommandInformation}
use smart_home_project.HomeCenter.Queue.{queue_length, bounded_append}
use smart_home_project.HomeCenter.Wifi
use smart_home_project.System.Gateway.{
  Queues, Gateway, send_cmd, send_cmds, wifi_commands, waiting_notification, waiting_command,
}
use smart_home_project.System.Gateway.Turns.{cmd_turn, cmd_turns, turn_in, dequeued}
use smart_home_project.System.Gateway.Progress.{turn_offline}

module _ (k : Queues) where
  -- The step of a Wi-Fi event.
  abbrev pub after_wifi : Gateway k → Wifi.Wifi → Gateway k
  after_wifi g w = send_cmds k (wifi_commands w.calls) (record g { wifi = w })

  record GivesUp (w : Wifi.Wifi) : Type 0 where
    pub lost : w.wifi_connected ≡ 0
    pub wakes : wifi_commands w.calls ≡ Wifi.dummy_data ∷ []

  disconnected-GivesUp :
      (connected : Bool) (w : Wifi.Wifi)
      → 2 ≤ w.s_retry_num
      → w.s_retry_num ≤ 3
      → Ensures GivesUp (
          Wifi.wifi_ap_handler connected Wifi.wifi_event_sta_disconnected (record w { calls = [] }))
  unfolding Wifi.wifi_ap_handler
  disconnected-GivesUp connected w a b = ground arith

  -- A queue that took an item, or was full, is not empty.
  bounded_append-cons :
      (c : CommandInformation) (xs : List CommandInformation)
      → (d : CommandInformation) × (ds : List CommandInformation) × (bounded_append c xs ≡ d ∷ ds)
  bounded_append-cons c [] = (c, [], refl)
  bounded_append-cons c (x ∷ xs) = elim (Bool-cases (ltb (length (x ∷ xs)) queue_length)) [
    | inl e ↦ (x, xs ++ c ∷ [], rw e refl)
    | inr e ↦ (x, xs, rw e refl)
  ]

  -- Without a network, a command task that waits for a command and gets one goes on to wait for
  -- notifications.
  leaves_queue :
      (g : Gateway k) (c : CommandInformation) (cs : List CommandInformation)
      → g.phase ≡ waiting_command
      → g.wifi.wifi_connected ≡ 0
      → k.commands.items g.cmd_queue ≡ c ∷ cs
      → (cmd_turns k 2 g).phase ≡ waiting_notification
  unfolding cmd_turns cmd_turn
  leaves_queue g c cs p w e =
      let (q, taken, left) = k.commands.receive_first g.cmd_queue c cs e in
      let turn : cmd_turn k g ≡ dequeued k (some (c, q)) g =
        ap (λ x. turn_in k x g) p ∙ ap (λ o. dequeued k o g) taken in
      rw turn (ap (λ h. h.phase) (turn_offline k (dequeued k (some (c, q)) g) refl w))

  -- A command task that waits for a command while the network is lost, with two attempts to connect
  -- made, waits for notifications two turns after the disconnection, whatever the queue held: the
  -- dummy command of the handler, or one before it, lets it go on.
  pub lost_network_wakes :
      (g : Gateway k) (connected : Bool) (w : Wifi.Wifi)
      → g.phase ≡ waiting_command
      → 2 ≤ g.wifi.s_retry_num
      → g.wifi.s_retry_num ≤ 3
      → Wifi.wifi_ap_handler connected Wifi.wifi_event_sta_disconnected
          (record g.wifi { calls = [] })
        ≡ ok w
      → (cmd_turns k 2 (after_wifi g w)).phase ≡ waiting_notification
  unfolding send_cmds
  lost_network_wakes g connected w p a b e =
      let gone = Ensures-ok GivesUp _ w (disconnected-GivesUp connected g.wifi a b) e in
      let (c, cs, some_left) = bounded_append-cons Wifi.dummy_data (k.commands.items g.cmd_queue) in
      let g' = send_cmd k Wifi.dummy_data (record g { wifi = w }) in
      let after : after_wifi g w ≡ g' =
        ap (λ x. send_cmds k x (record g { wifi = w })) gone.wakes in
      rw after (
        leaves_queue g' c cs p gone.lost
          (k.commands.items-send Wifi.dummy_data g.cmd_queue ∙ some_left))
