-- ===== src/Device1/Wifi.antt =====
-- Device1_coap/main/wifi_conection.c: the station at 192.168.0.2.
use smart_home_project.Common.{List, Option, Result}
use smart_home_project.Station
use smart_home_project.Station.{Event, Driver, Joined}

unfoldable pub wifi_init_sta : Driver → List Event → Result (Option (Station.Station × Joined))
wifi_init_sta = Station.wifi_init_sta 2
