-- ===== src/Scenarios/Network.antt =====
-- A start of the access point and of the outdoor device, with drivers that answer well.
use mathlib.Core.List.{Memᴰ}
use smart_home_project.Common.{◌≡◌, refl, List, [], ◌∷◌, ◌++◌, true, codes, ok}
use smart_home_project.HomeCenter.Wifi.Start as AccessPoint
use smart_home_project.Station
use smart_home_project.System.Network.{Joins, ip4_text, gateway_ip, netmask, devices_join}

abbrev ap_driver : AccessPoint.Driver
ap_driver = record {
  init_answer = true;
  ip_answer = true;
  dhcps_answer = true;
  mode_answer = true;
  bandwidth_answer = true;
  ps_answer = true;
  config_ap_answer = true;
  config_sta_answer = true;
  start_answer = true;
}

abbrev ap_calls : List AccessPoint.Call
ap_calls =
    AccessPoint.registered
    ++ (AccessPoint.esp_wifi_init
        ∷ AccessPoint.dhcps_stop
        ∷ AccessPoint.set_ip_info AccessPoint.ap_ip_info
        ∷ AccessPoint.dhcps_start
        ∷ AccessPoint.set_mode_apsta
        ∷ AccessPoint.set_bandwidth_ap_ht20
        ∷ AccessPoint.set_ps_none
        ∷ AccessPoint.set_config_ap AccessPoint.ap_config
        ∷ AccessPoint.set_config_sta (codes "VIP1_5G") (codes "12345679")
        ∷ AccessPoint.esp_wifi_start
        ∷ [])

ap_starts : AccessPoint.ap_sta_wifi_start ap_driver ≡ ok ap_calls
unfolding AccessPoint.ap_sta_wifi_start
ap_starts = refl

abbrev station_driver : Station.Driver
station_driver = record {
  init_answer = true;
  wifi_registered = true;
  ip_registered = true;
  mode_answer = true;
  config_answer = true;
  start_answer = true;
}

abbrev outdoor_station : Station.Station
outdoor_station = record Station.fresh {
  calls =
      Station.event_group_create
      ∷ Station.create_default_wifi_sta
      ∷ Station.esp_wifi_init
      ∷ Station.dhcpc_stop
      ∷ Station.set_ip_info (Station.gateway 2) gateway_ip netmask
      ∷ Station.handler_register Station.wifi_event_any_id
      ∷ Station.handler_register Station.ip_event_got_ip
      ∷ Station.set_mode_sta
      ∷ Station.set_config_sta (codes "ESP32_AP") (codes "password")
      ∷ Station.esp_wifi_start
      ∷ [];
}

outdoor_starts : Station.start 2 station_driver ≡ ok outdoor_station
unfolding Station.start
outdoor_starts = refl

devices_join_example :
    Memᴰ (AccessPoint.set_config_ap AccessPoint.ap_config) ap_calls
    × Memᴰ (AccessPoint.set_ip_info AccessPoint.ap_ip_info) ap_calls
    × Joins 2 outdoor_station
    × (ip4_text gateway_ip ≡ AccessPoint.ap_ip_info.ip)
    × (ip4_text netmask ≡ AccessPoint.ap_ip_info.netmask)
devices_join_example =
    devices_join ap_driver station_driver 2 ap_calls outdoor_station ap_starts outdoor_starts
