-- ===== src/Device2/Wifi.antt =====
-- Device2_mqtt/main/wifi_conection.c: the station at 192.168.0.3.
use smart_home_project.Common.{List, Option, Result}
use smart_home_project.Station
use smart_home_project.Station.{Event, Driver, Joined}

unfoldable pub event_handler : Event → Station.Station → Station.Station
event_handler = Station.event_handler

unfoldable pub wifi_init_sta : Driver → List Event → Result (Option (Station.Station × Joined))
wifi_init_sta = Station.wifi_init_sta 3
