-- ===== src/HomeCenter/Tasks/Startup.antt =====
-- The order in which `app_main` starts the gateway, and when it restarts the chip instead.
use smart_home_project.Common.{
  ◌≡◌, ◌⊎◌, List, [], ◌∷◌, ◌++◌, true, false, ok, abort, map, if◌then◌else◌, arith,
}
use smart_home_project.HomeCenter.Tasks.{
  Board, esp_ok, app_main, wants_erase, Start, nvs_flash_init, nvs_flash_erase, queue_create,
  esp_netif_init, event_loop_create, ap_sta_wifi_start, delay, sendto_thingsboard, mqtt_app_start,
  task_create, cmd_handler, get_temp, data_handler, receive_cmd_device1, receive_cmd_device2,
  reconnet_wifi,
}

-- The flash can be used: at once, or after the erasure that it asks for.
abbrev pub FlashWorks : Board → Type 0
FlashWorks b =
    (b.first_init ≡ esp_ok)
    ⊎ ((wants_erase b.first_init ≡ true) × (b.erased ≡ true) × (b.second_init ≡ esp_ok))

-- The calls on the flash: once, or with an erasure in between.
abbrev pub flash_calls : Board → List Start
flash_calls b =
    if wants_erase b.first_init
    then nvs_flash_init ∷ nvs_flash_erase ∷ nvs_flash_init ∷ []
    else nvs_flash_init ∷ []

-- Where the flash can be used and the network interface and the event loop are made, `app_main`
-- comes to its end: the two queues exist before Wi-Fi and MQTT start and before any task, and all
-- six tasks are created.
pub app_main_ok :
    (b : Board)
    → FlashWorks b
    → b.netif ≡ true
    → b.event_loop ≡ true
    → app_main b
      ≡ ok (
          flash_calls b
          ++ (queue_create 10 2
              ∷ queue_create 10 2
              ∷ esp_netif_init
              ∷ event_loop_create
              ∷ ap_sta_wifi_start
              ∷ delay 1500
              ∷ sendto_thingsboard 1 15
              ∷ sendto_thingsboard 2 15
              ∷ mqtt_app_start
              ∷ map
                  (λ (t, p). task_create t 4096 p)
                  ((cmd_handler, 4)
                    ∷ (get_temp, 4)
                    ∷ (data_handler, 4)
                    ∷ (receive_cmd_device1, 5)
                    ∷ (receive_cmd_device2, 5)
                    ∷ (reconnet_wifi, 5)
                    ∷ [])))
unfolding app_main
app_main_ok b f n l = ground arith

-- Otherwise it restarts the chip.
pub app_main_abort :
    (b : Board)
    → (¬ FlashWorks b) ⊎ ((b.netif ≡ false) ⊎ (b.event_loop ≡ false))
    → app_main b ≡ abort
unfolding app_main
app_main_abort b h = ground arith
