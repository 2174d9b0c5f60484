-- ===== src/System/Relay/Values.antt =====
-- The values of the indoor device among those of the gateway, and what the gateway reads of a text.
use smart_home_project.Common.{
  ℕ, ◌+◌, ◌*◌, ◌/◌, ◌%◌, ◌<◌, ◌≡◌, refl, sym, ◌∙◌, ap, inl, inr, ◌++◌, List, [], ◌∷◌, Option, none,
  some, Bytes, Bool-cases, ==_ne, ltb, ltb→lt, length, ◌==◌, ok, if◌then◌else◌, arith,
}
use mathlib.Core.List.{Sublist, filter_map, filter_map-append, sublist-append_left}
use mathlib.Core.List.Sublist as Sublists
use smart_home_project.HomeCenter.Types.{DataInformation}
use smart_home_project.HomeCenter.Mqtt
use smart_home_project.HomeCenter.Mqtt.Temperature.{with_temperature}
use smart_home_project.HomeCenter.Queue.{queue_length}
use smart_home_project.HomeCenter.Tasks
use smart_home_project.HomeCenter.Tasks.Dispatch.{posts_value, device_of_cases}
use smart_home_project.Device2.Main.{print_f}
use smart_home_project.System.Gateway.{taken}
use smart_home_project.System.Gateway.Values.{posts_of}
use smart_home_project.System.Indoor.{delivered, text_arrives, cold_text_arrives}

-- The degrees that the gateway reads of the text of a temperature below 100 degrees: they are wrong
-- below ten, where the point is taken for a digit.
abbrev pub reading : ℕ → ℕ
reading t = if ltb t 160 then (t / 16 * 10 + 254) % 256 else t / 16

pub reading-delivered :
    (t client : ℕ) (behind : Bytes) (m : Mqtt.Mqtt)
    → t < 1600
    → Mqtt.mqtt_event_handler client (Mqtt.mqtt_event_data (delivered (print_f t) behind)) m
      ≡ ok (with_temperature client (reading t) (delivered (print_f t) behind) m)
reading-delivered t client behind m h = elim (Bool-cases (ltb t 160)) [
  | inl e ↦ rw e (cold_text_arrives t client behind m (ltb→lt t 160 e))
  | inr e ↦ rw e (text_arrives t client behind m (ground arith) h)
]

abbrev pub indoor_value : DataInformation → Option ℕ
indoor_value d =
    if d.id_device == 1 then none else if d.id_device == 2 then some d.temperature_value else none

abbrev pub indoor_post : Tasks.Call → Option ℕ
indoor_post (Tasks.sendto_thingsboard_device2 t) = some t
indoor_post _ = none

-- The temperatures of the values for device 2, and of the calls that post them.
abbrev pub indoor_values : List DataInformation → List ℕ
indoor_values = filter_map indoor_value

abbrev pub indoor_posts : List Tasks.Call → List ℕ
indoor_posts = filter_map indoor_post

indoor_posts-posts_value :
    (d : DataInformation) → indoor_posts (posts_value d) ≡ indoor_values (d ∷ [])
unfolding filter_map
indoor_posts-posts_value d = elim (device_of_cases d.id_device) [
  | inl (e, f) ↦ rw e refl
  | inr (inl (e, f)) ↦ rw e refl
  | inr (inr (e, f, h)) ↦ rw (==_ne d.id_device 1 e, ==_ne d.id_device 2 f, h) refl
]

pub indoor_posts-posts_of :
    (ds : List DataInformation) → indoor_posts (posts_of ds) ≡ indoor_values ds
unfolding filter_map
indoor_posts-posts_of [] = refl
indoor_posts-posts_of (d ∷ ds) =
    filter_map-append indoor_post (posts_value d) (posts_of ds)
    ∙ (ap (λ x. x ++ indoor_posts (posts_of ds)) (indoor_posts-posts_value d)
        ∙ (ap (λ x. indoor_values (d ∷ []) ++ x) (indoor_posts-posts_of ds)
            ∙ sym (filter_map-append indoor_value (d ∷ []) ds)))

-- A queue that takes a value, or is full.
pub taken-Sublist :
    (items log : List DataInformation) (d : DataInformation) (xs : List ℕ)
    → Sublist (indoor_values log) xs
    → Sublist (indoor_values (taken items d log)) (xs ++ indoor_values (d ∷ []))
taken-Sublist items log d xs s = elim (Bool-cases (ltb (length items) queue_length)) [
  | inl e ↦
      rw (e, filter_map-append indoor_value log (d ∷ []))
        (Sublists.append s (Sublists.refl (indoor_values (d ∷ []))))
  | inr e ↦ rw e (Sublists.trans s (sublist-append_left xs (indoor_values (d ∷ []))))
]
