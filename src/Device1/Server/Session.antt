-- ===== src/Device1/Server/Session.antt =====
-- The outdoor device over any order of requests and measurements, and what it promises: the handlers
-- that coap_example_server registers and read_data_ds18b20_task, one after the other.
pub mod Kept
use smart_home_project.Common.{
  ℕ, ◌+◌, ◌/◌, ◌≤◌, ◌<◌, ◌≡◌, refl, ◌∙◌, sym, ap, ap₂, ◌⊎◌, inl, inr, ◌++◌, List, [], ◌∷◌,
  append_assoc, append-nil, Bool, true, false, ◌&&◌, Option, none, some, Bytes, codes, length, drop,
  get_or, All, Result, ok, ◌>>=◌, Returns, Returns->>=, ◌==◌, if◌then◌else◌, subst, arith,
}
use smart_home_project.Device1.Server.{
  Server, Call, call, gpio_set_level, set_code, content, deleted, add_data, notify_observers,
  log_motor_status, log_empty_request, control_motor_handler, get_temperature_request,
  control_motor_request, delete_request, read_data_ds18b20_task,
}
use smart_home_project.Device1.Server.Requests.{
  IsValid, stored, stored-IsValid, before_motor, answered, control_motor_request-answered, level,
  short_request-IsValid, get_temperature_request_lem,
}

-- A request as it is dispatched by its method, with the data of a PUT request, or a measurement in
-- sixteenths.
pub data Turn : Type 0 where
  get_request delete_turn : Turn
  put_request : Bytes → Turn
  measurement : ℕ → Turn

abbrev pub take_turn : Turn → Server → Result Server
take_turn get_request s = get_temperature_request s
take_turn delete_turn s = ok (delete_request s)
take_turn (put_request body) s = control_motor_request body s
take_turn (measurement n) s = ok (read_data_ds18b20_task n s)

unfoldable pub session : List Turn → Server → Result Server
session [] s = ok s
session (t ∷ ts) s = take_turn t s >>= session ts

-- The level of the motor's pin after some calls, from a level before, and the data of the answers.
abbrev pub pin : List Call → ℕ → ℕ
pin [] l = l
pin (gpio_set_level p l' ∷ cs) l = pin cs (if p == 2 then l' else l)
pin (_ ∷ cs) l = pin cs l

abbrev pub replies : List Call → List Bytes
replies [] = []
replies (add_data b ∷ cs) = b ∷ replies cs
replies (_ ∷ cs) = replies cs

-- What the device promises: the level of its motor, the last temperature and its answers.
pub record Promise : Type 0 where
  pub motor : ℕ
  pub temperature : ℕ
  pub replied : List Bytes

-- What a text asks of the motor, by its first three bytes.
abbrev pub asks : Bytes → Option Bool
asks b =
    if (get_or b 0 0 == b'o') && (get_or b 1 0 == b'n')
    then some true
    else if (get_or b 0 0 == b'o') && ((get_or b 1 0 == b'f') && (get_or b 2 0 == b'f'))
    then some false
    else none

abbrev pub set_motor : Option Bool → ℕ → ℕ
set_motor none l = l
set_motor (some on) l = level on

abbrev pub promised : Turn → Promise → Promise
promised get_request p = record p { replied = p.replied ++ ((p.temperature / 16) ∷ []) ∷ [] }
promised delete_turn p = p
promised (put_request []) p = p
promised (put_request (c ∷ cs)) p = record p {
  motor = set_motor (asks (c ∷ cs)) p.motor;
  replied = p.replied ++ (c ∷ cs) ∷ [];
}
promised (measurement n) p = record p { temperature = n }

abbrev pub promised_all : List Turn → Promise → Promise
promised_all [] p = p
promised_all (t ∷ ts) p = promised_all ts (promised t p)

-- The promise that a server has kept so far; the pin is low at first.
abbrev pub shown : Server → Promise
shown s = record { motor = pin s.calls 0; temperature = s.temp_value; replied = replies s.calls }

-- What may come: a temperature that fits a byte, and a request that fits the array and is empty, the
-- command `on`, or long enough to overwrite the three bytes that the handler compares.
abbrev pub IsReady : Turn → Type 0
IsReady get_request = Unit {0}
IsReady delete_turn = Unit {0}
IsReady (put_request body) =
    (length body ≤ 99) × ((body ≡ []) ⊎ ((body ≡ codes "on") ⊎ (3 ≤ length body)))
IsReady (measurement n) = n < 4096

-- A server that can take the next turn.
abbrev pub IsFit : Server → Type 0
IsFit s = IsValid s × (s.temp_value < 4096)
