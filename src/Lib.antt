-- ===== src/Lib.antt =====
-- The firmware of a smart home: three ESP32 programs and what holds of them.
--
-- HomeCenter/main is the gateway. It posts two temperatures to Thingsboard and takes commands from it
-- over HTTP, talks CoAP to the outdoor device and MQTT to the indoor device, and switches the motor
-- and the socket itself while it has no network. Device1_coap/main is the outdoor device, a CoAP
-- server with a thermometer and a motor. Device2_mqtt/main is the indoor device, an MQTT client with a
-- thermometer and a socket.
--
-- Files and sources:
--   Common: C strings and arrays, decimal printing, and the outcome of code that may leave an array
--     (`fault`) or restart the chip (`abort`).
--   HomeCenter/Types: app_main.h. HomeCenter/Http: http.c (client_event_post_handler,
--     SendtoThingsboard_Device1 and 2, GetRequestToThingsboard_Device1 and 2). HomeCenter/Wifi: wifi.c
--     (wifi_ap_handler, and in Start ap_sta_wifi_start) and reconnet_wifi_task of app_main.c.
--     HomeCenter/Mqtt: mqtt.c. HomeCenter/Coap: coap.c (message_handler, coap_get_address,
--     coap_build_optlist, coap_start_psk_session, GetTemperature_Coap, ControlMotor_Coap), with the two
--     loops on one resp_wait in Sharing. HomeCenter/Tasks: the tasks and app_main of app_main.c.
--     HomeCenter/Queue: the queues of FreeRTOS, as an interface.
--   Station: wifi_conection.c of both devices, which differ in the address only; Device1/Wifi and
--     Device2/Wifi fix it.
--   Device1/Server and Device1/Main: coap_server_example_main.c; Device1/Server/Session: the server
--     over any order of requests and measurements, and what it promises.
--   Device2/Mqtt and Device2/Main: mqtt.c and app_main.c; Device2/Pipeline: its two tasks over their
--     queue.
--   Sensor: ds18b20.c, with search in Sensor/Search and ds18b20_requestTemperatures in
--     Sensor/Convert, of which both devices hold the same copy.
--   System: the programs joined at what they send each other. System/Gateway: the gateway as a
--     whole, its tasks and handlers interleaved; System/Remote: from a request of Thingsboard to
--     the call that switches, and System/Switching from there to the pin of the device;
--     System/Offline: from a temperature to the call that regulates without a network;
--     System/Recovery: the command task that its next value wakes when the network is back;
--     System/Relay: the indoor device, the broker and the gateway in any order, with the texts of the
--     temperatures, and System/Sock with those of the commands for the socket;
--     System/Network: the access point and the stations; System/Thermometer: from the word of a
--     thermometer to the gateway; System/Telemetry: from there to Thingsboard; System/Thermostat:
--     without a network, from there to the pin of the device.
--   Scenarios: runs at concrete inputs.
--
-- How the code is read. A file's variables are a record, an operation is a function to the new record,
-- and the calls that leave the program (of FreeRTOS, ESP-IDF, libcoap, the GPIO driver) are appended
-- to a list in the order of the code, with the values that they carry; what such a call answers is an
-- argument. Arrays keep the bytes of earlier contents. A `uint8_t` is a number with its cuts written
-- out, and a temperature is the number of sixteenths of a degree that the sensor reports, which a
-- float holds exactly. A loop over an array is a recursion on the rounds left; an endless loop is one
-- function for its round, and runs are lists of events or answers. The wait of coap.c has a bound on
-- its rounds, and ends within any bound whose rounds take 2000 ms together. A null pointer that is
-- handed on to libcoap is a `fault`. `char` is unsigned, as on this chip.
--
-- Not modelled: logging without an effect on the state, libcoap itself (a copy of another project's
-- library), the build output, the parts of coap.c and coap_server_example_main.c for certificates,
-- which are not compiled. The float that ds18b20_getTempF makes of a raw temperature is kept as that
-- temperature. The search has the 64 rounds of a ROM number, and ends within them; the wait for a
-- conversion has a bound on its rounds, and ends within any bound after which the clock shows 751 ms
-- more.
--
-- The gateway as a whole (System/Gateway). The queues are a parameter that keeps the documented order
-- and drops an item that finds the queue full; lists of at most ten items are one. A step is what a
-- task or a handler does between two waits, so that a handler runs as a whole, and a step relation
-- leaves their order open. The variables and the queues are those of the code; history, commanded,
-- automatic, accepted, posted and handled are logs that the code does not have. A command's and a
-- temperature's call is logged with its argument, and what the call then does stands in
-- HomeCenter/Coap and HomeCenter/Mqtt; of the requests of coap.c and http.c only the handlers are
-- steps, since what the requests change besides is read by no other file.
-- A delivered body has at most 87 bytes there, since longer ones may leave cmd_data.
--
-- The two programs over the broker (System/Relay, System/Sock). Both sides publish and subscribe with
-- QoS 0, so that the broker is a choice of steps: it hands each text over at most once, in the order of
-- the publishing, with anything behind it in the client's buffer, or loses it. Nothing else publishes
-- under the two topics. `taken` holds the texts that the broker is done with, and `asked` logs what
-- the command task publishes.
mod Common
pub mod HomeCenter
pub mod Sensor
pub mod Station
pub mod Device1
pub mod Device2
pub mod System
mod Scenarios
