-- ===== src/HomeCenter/Wifi/Start.antt =====
-- `ap_sta_wifi_start` of HomeCenter/main/wifi.c: the access point for the devices and the station of
-- the house's network. The driver is a parameter: what its calls answer under ESP_ERROR_CHECK is an
-- argument; the addresses are the texts that `ipaddr_addr` is given.
use smart_home_project.Common.{
  ℕ, ◌++◌, List, [], ◌∷◌, Bool, true, false, Bytes, codes, Result, ok, abort, ◌>>=◌, length,
}

-- What `esp_event_handler_instance_register` is given, with any identifier.
pub data Base : Type 0 where
  wifi_event ip_event : Base

-- `ap_config.ap`, whose authmode is WIFI_AUTH_WPA2_PSK.
pub record ApConfig : Type 0 where
  pub ssid : Bytes
  pub ssid_len : ℕ
  pub password : Bytes
  pub channel : ℕ
  pub ssid_hidden : ℕ
  pub max_connection : ℕ
  pub beacon_interval : ℕ

-- `ap_ip_info`
pub record IpInfo : Type 0 where
  pub ip : Bytes
  pub gw : Bytes
  pub netmask : Bytes

pub data Call : Type 0 where
  handler_register : Base → Call
  create_default_wifi_ap create_default_wifi_sta esp_wifi_init dhcps_stop : Call
  set_ip_info : IpInfo → Call
  dhcps_start set_mode_apsta set_bandwidth_ap_ht20 set_ps_none : Call
  set_config_ap : ApConfig → Call
  set_config_sta : Bytes → Bytes → Call
  esp_wifi_start : Call

abbrev pub ap_config : ApConfig
ap_config = record {
  ssid = codes "ESP32_AP";
  ssid_len = length (codes "ESP32_AP");
  password = codes "password";
  channel = 1;
  ssid_hidden = 0;
  max_connection = 5;
  beacon_interval = 100;
}

abbrev pub ap_ip_info : IpInfo
ap_ip_info = record {
  ip = codes "192.168.0.1";
  gw = codes "192.168.0.1";
  netmask = codes "255.255.255.0";
}

-- What the calls under ESP_ERROR_CHECK answer, in their order.
pub record Driver : Type 0 where
  pub init_answer : Bool
  pub ip_answer : Bool
  pub dhcps_answer : Bool
  pub mode_answer : Bool
  pub bandwidth_answer : Bool
  pub ps_answer : Bool
  pub config_ap_answer : Bool
  pub config_sta_answer : Bool
  pub start_answer : Bool

-- `ESP_ERROR_CHECK`
abbrev pub checked : Bool → Call → List Call → Result (List Call)
checked true c calls = ok (calls ++ c ∷ [])
checked false c calls = abort

-- The calls that precede the first check.
abbrev pub registered : List Call
registered =
    handler_register wifi_event
    ∷ handler_register ip_event
    ∷ create_default_wifi_ap
    ∷ create_default_wifi_sta
    ∷ []

unfoldable pub ap_sta_wifi_start : Driver → Result (List Call)
ap_sta_wifi_start drv = do
  inited ← checked drv.init_answer esp_wifi_init registered
  addressed ← checked drv.ip_answer (set_ip_info ap_ip_info) (inited ++ dhcps_stop ∷ [])
  served ← checked drv.dhcps_answer dhcps_start addressed
  both ← checked drv.mode_answer set_mode_apsta served
  narrow ← checked drv.bandwidth_answer set_bandwidth_ap_ht20 both
  awake ← checked drv.ps_answer set_ps_none narrow
  offered ← checked drv.config_ap_answer (set_config_ap ap_config) awake
  configured ←
      checked drv.config_sta_answer (set_config_sta (codes "VIP1_5G") (codes "12345679")) offered
  checked drv.start_answer esp_wifi_start configured
