-- ===== src/System/Network.antt =====
-- The network of the three programs: the access point that HomeCenter/main/wifi.c offers and the
-- stations of wifi_conection.c of both devices, which join it.
use smart_home_project.Common.{
  ℕ, ◌≡◌, refl, ◌++◌, List, [], ◌∷◌, Bytes, codes, decimal, decimal_one, decimal_three, ok, Ensures,
  Ensures-ok, arith,
}
use mathlib.Core.List.{Memᴰ}
use mathlib.Core.List.Memᴰ.{head, tail}
use smart_home_project.HomeCenter.Wifi.Start as AccessPoint
use smart_home_project.Station
use smart_home_project.Station.{Ip4}

-- An address as text.
abbrev pub ip4_text : Ip4 → Bytes
ip4_text i = decimal i.a ++ (b'.' ∷ decimal i.b) ++ (b'.' ∷ decimal i.c) ++ (b'.' ∷ decimal i.d)

abbrev pub gateway_ip : Ip4
gateway_ip = Station.gateway 1

abbrev pub netmask : Ip4
netmask = record { a = 255; b = 255; c = 255; d = 0 }

-- All that the access point is started with.
abbrev offer : List AccessPoint.Call
offer =
    AccessPoint.registered
    ++ (AccessPoint.esp_wifi_init
        ∷ AccessPoint.dhcps_stop
        ∷ AccessPoint.set_ip_info AccessPoint.ap_ip_info
        ∷ AccessPoint.dhcps_start
        ∷ AccessPoint.set_mode_apsta
        ∷ AccessPoint.set_bandwidth_ap_ht20
        ∷ AccessPoint.set_ps_none
        ∷ AccessPoint.set_config_ap AccessPoint.ap_config
        ∷ AccessPoint.set_config_sta (codes "VIP1_5G") (codes "12345679")
        ∷ AccessPoint.esp_wifi_start
        ∷ [])

skip_registered :
    {c : AccessPoint.Call} {cs : List AccessPoint.Call}
    → Memᴰ c cs
    → Memᴰ c (AccessPoint.registered ++ cs)
skip_registered m = tail (tail (tail (tail m)))

offers : (drv : AccessPoint.Driver) → Ensures (λ cs. cs ≡ offer) (AccessPoint.ap_sta_wifi_start drv)
unfolding AccessPoint.ap_sta_wifi_start
offers drv = ground arith

gateway_text : ip4_text gateway_ip ≡ AccessPoint.ap_ip_info.ip
gateway_text =
    rw
      (
        decimal_three 192 (omega arith) (omega arith),
        decimal_three 168 (omega arith) (omega arith),
        decimal_one 0 (omega arith),
        decimal_one 1 (omega arith),
      )
      refl

netmask_text : ip4_text netmask ≡ AccessPoint.ap_ip_info.netmask
netmask_text = rw (decimal_three 255 (omega arith) (omega arith), decimal_one 0 (omega arith)) refl

-- A station whose calls join the access point, with the address of the host `host`.
pub record Joins (host : ℕ) (s : Station.Station) : Type 0 where
  pub configured :
      Memᴰ
        (Station.set_config_sta AccessPoint.ap_config.ssid AccessPoint.ap_config.password)
        s.calls
  pub addressed : Memᴰ (Station.set_ip_info (Station.gateway host) gateway_ip netmask) s.calls

-- All that a station is started with.
abbrev joining : ℕ → List Station.Call
joining host =
    Station.event_group_create
    ∷ Station.create_default_wifi_sta
    ∷ Station.esp_wifi_init
    ∷ Station.dhcpc_stop
    ∷ Station.set_ip_info (Station.gateway host) gateway_ip netmask
    ∷ Station.handler_register Station.wifi_event_any_id
    ∷ Station.handler_register Station.ip_event_got_ip
    ∷ Station.set_mode_sta
    ∷ Station.set_config_sta (codes "ESP32_AP") (codes "password")
    ∷ Station.esp_wifi_start
    ∷ []

calls-start :
    (host : ℕ) (drv : Station.Driver)
    → Ensures (λ s. s.calls ≡ joining host) (Station.start host drv)
unfolding Station.start
calls-start host drv = ground arith

start-Joins : (host : ℕ) (s : Station.Station) → s.calls ≡ joining host → Joins host s
start-Joins host s e = record {
  addressed = rw e (tail (tail (tail (tail (head refl)))));
  configured = rw e (tail (tail (tail (tail (tail (tail (tail (tail (head refl)))))))));
}

-- Whatever the drivers answer: an access point and a station that start at all have the same name
-- and password, and the station's gateway and netmask are the access point's.
pub devices_join :
    (ap : AccessPoint.Driver) (drv : Station.Driver) (host : ℕ) (cs : List AccessPoint.Call)
    (s : Station.Station)
    → AccessPoint.ap_sta_wifi_start ap ≡ ok cs
    → Station.start host drv ≡ ok s
    → Memᴰ (AccessPoint.set_config_ap AccessPoint.ap_config) cs
      × Memᴰ (AccessPoint.set_ip_info AccessPoint.ap_ip_info) cs
      × Joins host s
      × (ip4_text gateway_ip ≡ AccessPoint.ap_ip_info.ip)
      × (ip4_text netmask ≡ AccessPoint.ap_ip_info.netmask)
devices_join ap drv host cs s e h =
    let all : cs ≡ offer = Ensures-ok (λ x. x ≡ offer) _ cs (offers ap) e in
    let made = Ensures-ok (λ x. x.calls ≡ joining host) _ s (calls-start host drv) h in
    (
      rw all (skip_registered (tail (tail (tail (tail (tail (tail (tail (head refl))))))))),
      rw all (skip_registered (tail (tail (head refl)))),
      start-Joins host s made,
      gateway_text,
      netmask_text,
    )
