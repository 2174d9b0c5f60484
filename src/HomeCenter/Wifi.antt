-- ===== src/HomeCenter/Wifi.antt =====
-- HomeCenter/main/wifi.c and the task of app_main.c that restarts the station: the gateway is an
-- access point for the devices and a station of the house's network.
-- The Wi-Fi driver is a parameter: what `esp_wifi_connect` answers is an argument. `calls` records
-- the calls that the code makes.
pub mod Retry
pub mod Start
use smart_home_project.Common.{
  ℕ, ◌+◌, ◌++◌, List, [], ◌∷◌, Bool, true, false, Result, ok, abort, ◌==◌, ltb, if◌then◌else◌,
}
use smart_home_project.HomeCenter.Types.{CommandInformation}

-- The event bases and identifiers that the handler tells apart.
pub data Event : Type 0 where
  wifi_event_ap_start wifi_event_ap_stop wifi_event_ap_staconnected : Event
  wifi_event_ap_stadisconnected wifi_event_sta_start wifi_event_sta_connected : Event
  wifi_event_sta_disconnected wifi_event_other ip_event_sta_got_ip ip_event_other : Event
  other_base : Event

pub data Call : Type 0 where
  esp_wifi_connect esp_wifi_set_mode_apsta esp_wifi_start : Call
  queue_send_cmd : CommandInformation → Call

-- `wifi_connected` and `s_retry_num`, which are `int`, never leave 0 .. 3.
pub record Wifi : Type 0 where
  pub wifi_connected : ℕ
  pub s_retry_num : ℕ
  pub calls : List Call

abbrev pub max_connection_retries : ℕ
max_connection_retries = 3

abbrev pub call : Call → Wifi → Wifi
call c w = record w { calls = w.calls ++ c ∷ [] }

-- `{0, 0}`, which only unblocks the command task.
abbrev pub dummy_data : CommandInformation
dummy_data = record { cmd = 0; id_device = 0 }

-- The first `if` of `WIFI_EVENT_STA_DISCONNECTED`.
abbrev pub retry : Wifi → Wifi
retry w =
    if ltb w.s_retry_num max_connection_retries
    then call esp_wifi_connect (record w { s_retry_num = w.s_retry_num + 1 })
    else w

-- The second.
abbrev pub give_up : Wifi → Wifi
give_up w =
    if w.s_retry_num == max_connection_retries
    then call (queue_send_cmd dummy_data) (record w { wifi_connected = 0 })
    else w

-- `connected` is what `esp_wifi_connect` answers under ESP_ERROR_CHECK.
unfoldable pub wifi_ap_handler : Bool → Event → Wifi → Result Wifi
wifi_ap_handler connected wifi_event_sta_start w =
    if connected then ok (call esp_wifi_connect w) else abort
wifi_ap_handler connected wifi_event_sta_connected w = ok (record w { wifi_connected = 1 })
wifi_ap_handler connected wifi_event_sta_disconnected w = ok (give_up (retry w))
wifi_ap_handler connected ip_event_sta_got_ip w = ok (record w { s_retry_num = 0 })
wifi_ap_handler connected _ w = ok w

-- One round of `reconnet_wifi_task`, and the milliseconds that it then sleeps.
unfoldable pub reconnet_wifi_task : Wifi → Wifi × ℕ
reconnet_wifi_task w =
    if w.wifi_connected == 0
    then (record (call esp_wifi_start (call esp_wifi_set_mode_apsta w)) { s_retry_num = 3 }, 60000)
    else (w, 1000)
