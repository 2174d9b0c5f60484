-- ===== src/System/Relay/Posted.antt =====
-- What comes of the temperatures of the indoor device at Thingsboard, over every interleaving of the
-- two programs.
use smart_home_project.Common.{ℕ, ◌≡◌, refl, sym, ◌∙◌, ap, subst, [], map, Bytes, some}
use mathlib.Core.List.{Sublist, filter_map, filter_map-append, map-append, sublist-append_left}
use mathlib.Core.List.Sublist as Sublists
use smart_home_project.HomeCenter.Queue.{Queue}
use smart_home_project.Device2.Pipeline.{payloads}
use smart_home_project.System.Gateway.{Queues}
use smart_home_project.System.Relay.{Relay, Reach}
use smart_home_project.System.Relay.Values.{
  indoor_value, indoor_post, reading, indoor_values, indoor_posts, indoor_posts-posts_of,
}
use smart_home_project.System.Relay.Invariant.{IsRelaying, every_run-IsRelaying}

module _ (k : Queues) (q : Queue Bytes) where
  -- A connected device that has measured and published nothing, and a gateway that has taken and
  -- posted no value.
  pub record IsStart (r : Relay k q) : Type 0 where
    pub connected : (client : ℕ) × (r.device.mqtt.client_g ≡ some client)
    pub published : payloads r.device.mqtt.calls ≡ []
    pub queued : q.items r.device.data_queue ≡ []
    pub measured : r.device.measured ≡ []
    pub taken : r.taken ≡ []
    pub accepted : r.gateway.accepted ≡ []
    pub waiting : k.values.items r.gateway.data_queue ≡ []
    pub posted : r.gateway.posted ≡ []

  start-IsRelaying : (r : Relay k q) → IsStart r → IsRelaying k q r
  unfolding filter_map
  start-IsRelaying r s = record {
    device = record {
      connected = s.connected;
      texts = rw (s.published, s.queued, s.measured) refl;
    };
    posting = record {
      handed = [];
      accepted = s.accepted ∙ sym s.waiting;
      posted = rw s.posted (Sublists.refl []);
    };
    done = [];
    ahead = [];
    measured = s.measured;
    texts = s.taken;
    printable = rw s.measured tt;
    values = rw s.accepted (Sublists.refl []);
  }

  -- From a start with the indoor device connected and nothing measured, published, taken or posted,
  -- over every interleaving of the device, the broker, which may lose a text, and the gateway, with
  -- bodies of at most 87 bytes over HTTP: the values that the gateway sent to Thingsboard for device
  -- 2 are, in order, a part of what it reads of the texts of the temperatures that the device
  -- measured: none is made up, sent twice or overtaken. It reads the whole degrees from 10 degrees
  -- on, and ten times the degrees less 2, cut to eight bits, below.
  pub posts_measured :
      {r r' : Relay k q}
      → IsStart r
      → Reach k q r r'
      → Sublist (indoor_posts r'.gateway.posted) (map reading r'.device.measured)
  posts_measured {r} {r'} s p =
      let j = every_run-IsRelaying k q (start-IsRelaying r s) p in
      let handed = j.posting.handed in
      let queued = k.values.items r'.gateway.data_queue in
      Sublists.trans
        (subst (Sublist (indoor_posts r'.gateway.posted)) (indoor_posts-posts_of handed)
          (Sublists.filter_map indoor_post j.posting.posted))
        (Sublists.trans
          (subst (Sublist (indoor_values handed))
            (sym
              (ap indoor_values j.posting.accepted ∙ filter_map-append indoor_value handed queued))
            (sublist-append_left (indoor_values handed) (indoor_values queued)))
          (Sublists.trans j.values (
            subst (Sublist (map reading j.done))
              (sym (ap (map reading) j.measured ∙ map-append reading j.done j.ahead))
              (sublist-append_left (map reading j.done) (map reading j.ahead)))))
