-- ===== src/System/Relay/Invariant.antt =====
-- What every interleaving of the indoor device, the broker and the gateway keeps of the temperatures.
use smart_home_project.Common.{
  ℕ, ◌<◌, ◌≡◌, refl, sym, ◌∙◌, ap, subst, List, [], ◌∷◌, ◌++◌, append_assoc, append-nil, ap₂, map,
  Bytes, c_str, All, All-append, All-middle, Ensures, Ensures-ok, ok,
}
use mathlib.Core.List.{
  Sublist, filter_map, append_cancel_left, map-append, sublist-append_left, head-eq_of_cons-eq,
}
use mathlib.Core.List.Sublist as Sublists
use smart_home_project.HomeCenter.Types.{DataInformation}
use smart_home_project.HomeCenter.Queue.{Queue}
use smart_home_project.HomeCenter.Mqtt
use smart_home_project.Device2.Main.{print_f}
use smart_home_project.Device2.Pipeline
use smart_home_project.Device2.Pipeline.{payloads, measured_fits, every_run_publishes}
use smart_home_project.System.Gateway
use smart_home_project.System.Gateway.{Queues, Gateway, mqtt_values, send_values, mqtt_event}
use smart_home_project.System.Gateway.Values.{IsPosting, every_run-IsPosting}
use smart_home_project.System.Indoor.{delivered}
use smart_home_project.System.Relay.{
  Relay, Step, Reach, device_step, gateway_step, lose, deliver, here, next,
}
use smart_home_project.System.Relay.Others.{other_step-values}
use smart_home_project.System.Relay.Values.{
  reading, reading-delivered, indoor_values, taken-Sublist,
}

-- The first of the temperatures whose texts are known.
record First (text : Bytes) (ahead : List ℕ) : Type 0 where
  pub temperature : ℕ
  pub others : List ℕ
  pub split : ahead ≡ temperature ∷ others
  pub printed : text ≡ print_f temperature

print_f_head :
    (text : Bytes) (texts : List Bytes) (ahead : List ℕ)
    → text ∷ texts ≡ map print_f ahead
    → First text ahead
print_f_head text texts [] e = absurd cc
print_f_head text texts (t ∷ ahead) e = record {
  temperature = t;
  others = ahead;
  split = refl;
  printed = head-eq_of_cons-eq e;
}

module _ (k : Queues) (q : Queue Bytes) where
  -- The broker is done with the texts of the temperatures of `done`, and the values for device 2
  -- that the gateway's queue took are, in order, a part of what the gateway reads of them.
  pub record IsRelaying (r : Relay k q) : Type 0 where
    pub device : Pipeline.IsOrdered q r.device
    pub posting : IsPosting k r.gateway
    pub done : List ℕ
    pub ahead : List ℕ
    pub measured : r.device.measured ≡ done ++ ahead
    pub texts : r.taken ≡ map print_f done
    pub printable : All (λ t. t < 1600) r.device.measured
    pub values : Sublist (indoor_values r.gateway.accepted) (map reading done)

  -- The text that the broker takes next.
  next_text :
      (r : Relay k q) (text : Bytes) (rest : List Bytes) (i : IsRelaying r)
      → payloads r.device.mqtt.calls ≡ r.taken ++ text ∷ rest
      → First text i.ahead
  next_text r text rest i e =
      let queued = map c_str (q.items r.device.data_queue) in
      print_f_head text (rest ++ queued) i.ahead (
        append_cancel_left (map print_f i.done) (text ∷ (rest ++ queued)) (map print_f i.ahead) (
          sym (append_assoc (map print_f i.done) (text ∷ rest) queued)
          ∙ (ap (λ x. (x ++ text ∷ rest) ++ queued) (sym i.texts)
              ∙ (ap (λ x. x ++ queued) (sym e)
                  ∙ (i.device.texts
                      ∙ (ap (map print_f) i.measured ∙ map-append print_f i.done i.ahead))))))

  -- What a step of the device adds to the temperatures that it measured.
  record Grows (d d' : Pipeline.Device q) : Type 0 where
    pub more : List ℕ
    pub measured : d'.measured ≡ d.measured ++ more
    pub printable : All (λ t. t < 1600) more

  device_step-Grows : {d d' : Pipeline.Device q} → Pipeline.Step q d d' → Grows d d'
  device_step-Grows (Pipeline.measure t {item} e room) = record {
    more = t ∷ [];
    measured = refl;
    printable = (measured_fits t item e, tt);
  }
  device_step-Grows {d} (Pipeline.hand_over id x) = record {
    more = [];
    measured = sym (append-nil d.measured);
    printable = tt;
  }
  device_step-Grows {d} (Pipeline.event client e x) = record {
    more = [];
    measured = sym (append-nil d.measured);
    printable = tt;
  }

  -- The broker is done with one text more, of which the gateway's queue may have a value.
  broker_goes_on :
      (r : Relay k q) (g : Gateway k) (text : Bytes) (i : IsRelaying r) (f : First text i.ahead)
      → IsPosting k g
      → Sublist (indoor_values g.accepted) (map reading i.done ++ reading f.temperature ∷ [])
      → IsRelaying (record r { gateway = g; taken = r.taken ++ text ∷ [] })
  broker_goes_on r g text i f posting values = record {
    device = i.device;
    posting = posting;
    done = i.done ++ f.temperature ∷ [];
    ahead = f.others;
    measured =
        i.measured
        ∙ (ap (λ x. i.done ++ x) f.split ∙ sym (append_assoc i.done (f.temperature ∷ []) f.others));
    texts =
        ap₂ (λ x y. x ++ y ∷ []) i.texts f.printed
        ∙ sym (map-append print_f i.done (f.temperature ∷ []));
    printable = i.printable;
    values =
        subst (Sublist (indoor_values g.accepted))
          (sym (map-append reading i.done (f.temperature ∷ []))) values;
  }

  fits :
      (r : Relay k q) (text : Bytes) (i : IsRelaying r) (f : First text i.ahead)
      → f.temperature < 1600
  fits r text i f =
      All-middle (λ t. t < 1600) i.done f.temperature f.others
        (subst (All (λ t. t < 1600)) (i.measured ∙ ap (λ x. i.done ++ x) f.split) i.printable)

  -- A value that the gateway reads of a text.
  delivered-values :
      (g : Gateway k) (client t : ℕ) (behind : Bytes) (m : Mqtt.Mqtt) (xs : List ℕ)
      → t < 1600
      → Mqtt.mqtt_event_handler client
          (Mqtt.mqtt_event_data (delivered (print_f t) behind))
          (record g.mqtt { calls = [] })
        ≡ ok m
      → Sublist (indoor_values g.accepted) xs
      → Sublist
          (indoor_values (send_values k (mqtt_values m.calls) (record g { mqtt = m })).accepted)
          (xs ++ reading t ∷ [])
  unfolding send_values filter_map
  delivered-values g client t behind m xs h e s =
      let Holds : Mqtt.Mqtt → Type 0 = λ m.
        Sublist
          (indoor_values (send_values k (mqtt_values m.calls) (record g { mqtt = m })).accepted)
          (xs ++ reading t ∷ []) in
      let value : DataInformation = record { temperature_value = reading t; id_device = 2 } in
      Ensures-ok Holds _ m
        (subst (Ensures Holds)
          (sym (reading-delivered t client behind (record g.mqtt { calls = [] }) h))
          (taken-Sublist (k.values.items g.data_queue) g.accepted value xs s))
        e

  Step-IsRelaying : {r r' : Relay k q} → Step k q r r' → IsRelaying r → IsRelaying r'
  Step-IsRelaying {r} (device_step s) i =
      let grows = device_step-Grows s in
      record {
        device = every_run_publishes q i.device (Pipeline.next Pipeline.here s);
        posting = i.posting;
        done = i.done;
        ahead = i.ahead ++ grows.more;
        measured =
            grows.measured
            ∙ (ap (λ x. x ++ grows.more) i.measured ∙ append_assoc i.done i.ahead grows.more);
        texts = i.texts;
        printable =
            subst (All (λ t. t < 1600)) (sym grows.measured)
              (All-append (λ t. t < 1600) r.device.measured grows.more i.printable grows.printable);
        values = i.values;
      }
  Step-IsRelaying (gateway_step s o) i = record {
    device = i.device;
    posting = every_run-IsPosting k i.posting (Gateway.next Gateway.here s);
    done = i.done;
    ahead = i.ahead;
    measured = i.measured;
    texts = i.texts;
    printable = i.printable;
    values = subst (λ x. Sublist x (map reading i.done)) (sym (other_step-values k s o)) i.values;
  }
  Step-IsRelaying {r} (lose text rest e) i =
      let f = next_text r text rest i e in
      broker_goes_on r r.gateway text i f i.posting
        (Sublists.trans i.values (sublist-append_left (map reading i.done) _))
  Step-IsRelaying {r} (deliver client text behind rest {m} e x) i =
      let f = next_text r text rest i e in
      broker_goes_on r _ text i f
        (every_run-IsPosting k i.posting (Gateway.next Gateway.here (mqtt_event client _ x)))
        (delivered-values r.gateway client f.temperature behind m (map reading i.done)
          (fits r text i f)
          (subst
            (λ b.
              Mqtt.mqtt_event_handler client (Mqtt.mqtt_event_data (delivered b behind))
                (record r.gateway.mqtt { calls = [] })
              ≡ ok m)
            f.printed x)
          i.values)

  pub every_run-IsRelaying : {r r' : Relay k q} → IsRelaying r → Reach k q r r' → IsRelaying r'
  every_run-IsRelaying i here = i
  every_run-IsRelaying i (next p s) = Step-IsRelaying s (every_run-IsRelaying i p)
