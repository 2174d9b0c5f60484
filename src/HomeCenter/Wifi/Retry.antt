-- ===== src/HomeCenter/Wifi/Retry.antt =====
-- When the gateway gives up its network, over every interleaving of events and restarts.
use smart_home_project.Common.{
  ℕ, zero, suc, ◌-◌, ◌≤◌, ◌≡◌, ◌∙◌, ◌++◌, [], ◌∷◌, Bool, true, ltb, if◌then◌else◌, replicate_snoc,
  Result, ok, ◌>>=◌, min, replicate, append_assoc, append-nil, subst, ap, arith,
}
use smart_home_project.HomeCenter.Wifi.{
  Wifi, Event, wifi_event_sta_disconnected, esp_wifi_connect, queue_send_cmd, dummy_data,
  wifi_ap_handler, reconnet_wifi_task,
}

-- One thing that happens to the variables: an event that the handler gets through, or a round of
-- the task that restarts the station.
pub data Step (w : Wifi) : Wifi → Type 0 where
  handle :
      (connected : Bool) (e : Event) {w' : Wifi} → wifi_ap_handler connected e w ≡ ok w' → Step w w'
  restart : {w' : Wifi} → (reconnet_wifi_task w).0 ≡ w' → Step w w'

pub data Reach (w : Wifi) : Wifi → Type 0 where
  here : Reach w w
  next : {t u : Wifi} → Reach w t → Step t u → Reach w u

-- `wifi_connected` is a truth value, and the retries are counted up to their maximum.
pub record IsValid (w : Wifi) : Type 0 where
  pub connected : w.wifi_connected ≤ 1
  pub retries : w.s_retry_num ≤ 3

wifi_ap_handler-IsValid :
    (c : Bool) (e : Event) (w w' : Wifi) → wifi_ap_handler c e w ≡ ok w' → IsValid w → IsValid w'
unfolding wifi_ap_handler
wifi_ap_handler-IsValid c e w w' h v = ground arith

reconnet-IsValid : (w : Wifi) → IsValid w → IsValid (reconnet_wifi_task w).0
unfolding reconnet_wifi_task
reconnet-IsValid w v = ground arith

Step-IsValid : {w w' : Wifi} → Step w w' → IsValid w → IsValid w'
Step-IsValid {w = w} {w' = w'} (handle c e h) v = wifi_ap_handler-IsValid c e w w' h v
Step-IsValid {w = w} (restart e) v = subst IsValid e (reconnet-IsValid w v)

-- Whatever events arrive and however often the station is restarted between them.
pub Reach-IsValid : {w w' : Wifi} → IsValid w → Reach w w' → IsValid w'
Reach-IsValid v here = v
Reach-IsValid v (next r s) = Step-IsValid s (Reach-IsValid v r)

-- `n` disconnections in a row.
pub disconnections : ℕ → Wifi → Result Wifi
disconnections zero w = ok w
disconnections (suc n) w = do
  w' ← disconnections n w
  wifi_ap_handler true wifi_event_sta_disconnected w'

given_up :
    (w : Wifi)
    → w.s_retry_num ≡ 3
    → wifi_ap_handler true wifi_event_sta_disconnected w
      ≡ ok (record w { wifi_connected = 0; calls = w.calls ++ queue_send_cmd dummy_data ∷ [] })
unfolding wifi_ap_handler
given_up w e = ground arith

third :
    (w : Wifi)
    → w.s_retry_num ≡ 0
    → disconnections 3 w
      ≡ ok (record w {
        wifi_connected = 0;
        s_retry_num = 3;
        calls =
            w.calls
            ++ (esp_wifi_connect
                ∷ esp_wifi_connect
                ∷ esp_wifi_connect
                ∷ queue_send_cmd dummy_data
                ∷ []);
      })
unfolding disconnections wifi_ap_handler
third w e = ground (
  arith,
  append_assoc w.calls (esp_wifi_connect ∷ []) (esp_wifi_connect ∷ []),
  append_assoc w.calls (esp_wifi_connect ∷ esp_wifi_connect ∷ []) (esp_wifi_connect ∷ []),
  append_assoc w.calls (esp_wifi_connect ∷ esp_wifi_connect ∷ esp_wifi_connect ∷ [])
      (queue_send_cmd dummy_data ∷ []),
)

lost :
    (n : ℕ) (w : Wifi)
    → w.s_retry_num ≡ 0
    → disconnections (suc (suc (suc n))) w
      ≡ ok (record w {
        wifi_connected = 0;
        s_retry_num = 3;
        calls =
            w.calls
            ++ (replicate 3 esp_wifi_connect ++ replicate (suc n) (queue_send_cmd dummy_data));
      })
unfolding disconnections
lost zero w e = third w e
lost (suc n) w e =
    rw (lost n w e, given_up)
      (ap (λ cs. ok (record { wifi_connected = 0; s_retry_num = 3; calls = cs }))
        (simp (append_assoc, replicate_snoc)))

-- `n` disconnections after a success, with no address in between: the first three try to connect
-- again, the third and each later one declare the network lost and queue one dummy command.
pub disconnections_give_up :
    (n : ℕ) (w : Wifi)
    → w.s_retry_num ≡ 0
    → disconnections n w
      ≡ ok (record {
        wifi_connected = if ltb n 3 then w.wifi_connected else 0;
        s_retry_num = min n 3;
        calls =
            w.calls
            ++ (replicate (min n 3) esp_wifi_connect
                ++ replicate (n - 2) (queue_send_cmd dummy_data));
      })
unfolding disconnections wifi_ap_handler
disconnections_give_up zero w e = ground (arith, append-nil w.calls)
disconnections_give_up (suc zero) w e = ground arith
disconnections_give_up (suc (suc zero)) w e =
    ground (arith, append_assoc w.calls (esp_wifi_connect ∷ []) (esp_wifi_connect ∷ []))
disconnections_give_up (suc (suc (suc n))) w e = lost n w e ∙ ground arith
