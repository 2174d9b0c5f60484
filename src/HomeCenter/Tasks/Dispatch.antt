-- ===== src/HomeCenter/Tasks/Dispatch.antt =====
-- Which device the tasks of the gateway control, and with what.
use smart_home_project.Common.{
  ℕ, zero, suc, ◌⊎◌, inl, inr, List, Option, ◌≡◌, ◌≢◌, refl, [], ◌∷◌, Bool, true, false, none, some,
  ◌==◌, ltb, if◌then◌else◌, arith,
}
use smart_home_project.HomeCenter.Types.{
  CommandInformation, DataInformation, on_command, off_command,
}
use smart_home_project.HomeCenter.Tasks.{
  Shared, Call, control_motor_coap, control_sock_mqtt, task_notify, sendto_thingsboard_device1,
  sendto_thingsboard_device2, cmd_handler_task, on_dequeued, data_handler_task, bit0, bit1,
}

-- The call that switches a device, and the temperature that was last kept of it.
pub data Device : Type 0 where
  motor sock : Device

abbrev pub number : Device → ℕ
number motor = 1
number sock = 2

abbrev pub switch : Device → Bool → Call
switch motor on = control_motor_coap (if on then on_command else off_command)
switch sock on = control_sock_mqtt (if on then on_command else off_command)

abbrev pub last_temperature : Device → Shared → ℕ
last_temperature motor s = s.temp_value_outdoor.temperature_value
last_temperature sock s = s.temp_value_indoor.temperature_value

abbrev pub posted : Device → ℕ → Call
posted motor t = sendto_thingsboard_device1 t
posted sock t = sendto_thingsboard_device2 t

-- What a command asks for and what becomes of a value, said without the tasks.
abbrev pub device_of : ℕ → Option Device
device_of (suc zero) = some motor
device_of (suc (suc zero)) = some sock
device_of _ = none

abbrev pub switch_for : Option Device → Bool → List Call
switch_for none on = []
switch_for (some d) on = switch d on ∷ []

abbrev pub posted_for : Option Device → ℕ → List Call
posted_for none t = []
posted_for (some d) t = posted d t ∷ []

-- One call, which switches the device of the command, on for CMD 1 and off for any other; none for
-- another number.
abbrev pub switches : CommandInformation → List Call
switches c = switch_for (device_of c.id_device) (c.cmd == 1)

-- One call, which posts the temperature for the device of the value; none for another number.
abbrev pub posts_value : DataInformation → List Call
posts_value d = posted_for (device_of d.id_device) d.temperature_value

-- A number is that of a device, or of none.
abbrev pub Known : ℕ → Type 0
Known n =
    ((n ≡ 1) × (device_of n ≡ some motor))
    ⊎ (((n ≡ 2) × (device_of n ≡ some sock)) ⊎ ((n ≢ 1) × (n ≢ 2) × (device_of n ≡ none)))

pub device_of_cases : (n : ℕ) → Known n
device_of_cases zero = inr (inr (omega arith, omega arith, refl))
device_of_cases (suc zero) = inl (refl, refl)
device_of_cases (suc (suc zero)) = inr (inl (refl, refl))
device_of_cases (suc (suc (suc n))) = inr (inr (omega arith, omega arith, refl))

pub on_dequeued-switches : (c : CommandInformation) → on_dequeued (some c) ≡ switches c
unfolding on_dequeued
on_dequeued-switches c = elim (device_of_cases c.id_device) [
  | inl (e, f) ↦ rw f (ground arith)
  | inr (inl (e, f)) ↦ rw f (ground arith)
  | inr (inr (e, f, h)) ↦ rw h (ground arith)
]

-- With a network, a command for a device switches that device and nothing else, on exactly for
-- CMD 1, whatever notifications are pending.
pub online_command :
    (d : Device) (cmd bits : ℕ) (s : Shared)
    → s.wifi_connected ≡ 1
    → cmd_handler_task bits (some (record { cmd = cmd; id_device = number d })) s
      ≡ switch d (cmd == 1) ∷ []
unfolding cmd_handler_task
online_command motor cmd bits s e = ground arith
online_command sock cmd bits s e = ground arith

-- A command for any other number, such as the dummy command of the Wi-Fi handler, switches nothing.
pub online_other_command :
    (c : CommandInformation) (bits : ℕ) (s : Shared)
    → s.wifi_connected ≡ 1
    → c.id_device ≢ 1
    → c.id_device ≢ 2
    → cmd_handler_task bits (some c) s ≡ []
unfolding cmd_handler_task
online_other_command c bits s e not_one not_two = ground arith

-- Without a network, a temperature of a device only notifies the command task, and a notification
-- of that device alone switches the device: off above 20 degrees and on up to 20.
pub offline_temperature :
    (d : Device) (t : ℕ) (s : Shared)
    → s.wifi_connected ≡ 0
    → last_temperature d s ≡ t
    → (data_handler_task (some (record { temperature_value = t; id_device = number d })) 0
        ≡ task_notify (number d) ∷ [])
      × (cmd_handler_task (number d) none s ≡ switch d (if ltb 20 t then false else true) ∷ [])
unfolding cmd_handler_task data_handler_task
offline_temperature motor t s e last = (refl, ground arith)
offline_temperature sock t s e last = (refl, ground arith)

-- With a network, a temperature of a device notifies the command task and is posted as it is.
pub online_temperature :
    (d : Device) (t : ℕ)
    → data_handler_task (some (record { temperature_value = t; id_device = number d })) 1
      ≡ task_notify (number d) ∷ posted d t ∷ []
unfolding data_handler_task
online_temperature motor t = refl
online_temperature sock t = refl

-- Without a network, when both devices have notified before the command task waits, which clears
-- all bits, only the motor is switched: the sock's notification is lost.
pub offline_both_bits :
    (bits : ℕ) (s : Shared)
    → s.wifi_connected ≡ 0
    → bit0 bits ≡ true
    → bit1 bits ≡ true
    → cmd_handler_task bits none s
      ≡ switch motor (if ltb 20 s.temp_value_outdoor.temperature_value then false else true) ∷ []
unfolding cmd_handler_task
offline_both_bits bits s e b0 b1 = ground arith
