-- ===== src/Sensor/Temperature/Resolution.antt =====
-- What ds18b20_setResolution of Device1_coap/main/ds18b20.c puts on the bus, seen from the device.
use smart_home_project.Common.{◌++◌, [], ◌∷◌, Bytes, take, get_or}
use smart_home_project.Sensor.{Sensor}

-- SELECTDEVICE with the address, and WRITESCRATCH with three bytes of the scratchpad.
abbrev pub written : Bytes → Bytes → Bytes
written address pad =
    85 ∷ (take 8 address ++ (78 ∷ get_or pad 2 0 ∷ get_or pad 3 0 ∷ get_or pad 4 0 ∷ []))
