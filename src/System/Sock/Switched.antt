-- ===== src/System/Sock/Switched.antt =====
-- What the socket's pin shows of the commands of the gateway, over every interleaving of the two
-- programs.
use smart_home_project.Common.{
  ℕ, ◌≡◌, refl, sym, ◌∙◌, ap, subst, List, [], ◌∷◌, ◌++◌, append_assoc, map, Bytes, All, All-append,
  All-middle, Ensures-ok,
}
use mathlib.Core.List.{Sublist, filter_map, map-append, sublist-append_left}
use mathlib.Core.List.Sublist as Sublists
use smart_home_project.HomeCenter.Queue.{Queue}
use smart_home_project.System.Gateway.{Queues}
use smart_home_project.System.Gateway.Sends.{IsText}
use smart_home_project.System.Sock.{
  Line, Step, Reach, sock_texts, calls_made, gateway_step, device_step, lose, deliver, here, next,
}
use smart_home_project.System.Sock.Kept.{
  levels, level_of, message-levels, own_step-levels, asked-IsText,
}

module _ (k : Queues) (q : Queue Bytes) where
  -- The texts that the gateway asked with are commands, the broker is done with the first of them,
  -- and the levels of the pin are, in order, a part of what these ask for.
  pub record IsSwitched (l : Line k q) : Type 0 where
    pub texts : All IsText l.asked
    pub ahead : List Bytes
    pub split : l.asked ≡ l.taken ++ ahead
    pub levels : Sublist (levels l.device.mqtt.calls) (map level_of l.taken)

  -- The broker is done with one text more.
  more_taken :
      (taken : List Bytes) (text : Bytes) (xs : List ℕ)
      → Sublist xs (map level_of taken ++ level_of text ∷ [])
      → Sublist xs (map level_of (taken ++ text ∷ []))
  more_taken taken text xs s = subst (Sublist xs) (sym (map-append level_of taken (text ∷ []))) s

  Step-IsSwitched : {l l' : Line k q} → Step k q l l' → IsSwitched l → IsSwitched l'
  Step-IsSwitched {l} (gateway_step s) i =
      let more = sock_texts (calls_made k s) in
      record {
        texts = All-append IsText l.asked more i.texts (asked-IsText k s);
        ahead = i.ahead ++ more;
        split = ap (λ x. x ++ more) i.split ∙ append_assoc l.taken i.ahead more;
        levels = i.levels;
      }
  Step-IsSwitched {l} (device_step s own) i = record {
    texts = i.texts;
    ahead = i.ahead;
    split = i.split;
    levels = subst (λ x. Sublist x (map level_of l.taken)) (sym (own_step-levels q s own)) i.levels;
  }
  Step-IsSwitched {l} (lose text rest e) i = record {
    texts = i.texts;
    ahead = rest;
    split = e ∙ sym (append_assoc l.taken (text ∷ []) rest);
    levels =
        more_taken l.taken text _
          (Sublists.trans i.levels (sublist-append_left (map level_of l.taken) _));
  }
  Step-IsSwitched {l} (deliver client text behind rest {m} e x) i =
      let before = levels l.device.mqtt.calls in
      let command = All-middle IsText l.taken text rest (subst (All IsText) e i.texts) in
      let set =
        Ensures-ok (λ m'. levels m'.calls ≡ before ++ level_of text ∷ []) _ m
          (message-levels text behind client l.device.mqtt command) x in
      record {
        texts = i.texts;
        ahead = rest;
        split = e ∙ sym (append_assoc l.taken (text ∷ []) rest);
        levels = more_taken l.taken text _ (
            subst (λ y. Sublist y (map level_of l.taken ++ level_of text ∷ [])) (sym set)
              (Sublists.append i.levels (Sublists.refl (level_of text ∷ []))));
      }

  every_run-IsSwitched : {l l' : Line k q} → IsSwitched l → Reach k q l l' → IsSwitched l'
  every_run-IsSwitched i here = i
  every_run-IsSwitched i (next p s) = Step-IsSwitched s (every_run-IsSwitched i p)

  -- From a start with nothing asked for and the pin not set, over every interleaving of the gateway,
  -- with bodies of at most 87 bytes over HTTP, the broker, which may lose a text, and the indoor
  -- device: the levels that the device gave the pin of its socket are, in order, a part of those
  -- that the calls of the command task for the socket ask for, and each call asks with the text on
  -- or off: the pin is never set unasked, twice for one call, or by an earlier call after a later
  -- one.
  pub pin_follows_calls :
      {l l' : Line k q}
      → l.asked ≡ []
      → l.taken ≡ []
      → l.device.mqtt.calls ≡ []
      → Reach k q l l'
      → Sublist (levels l'.device.mqtt.calls) (map level_of l'.asked) × All IsText l'.asked
  unfolding filter_map
  pin_follows_calls {l} {l'} asked taken quiet p =
      let start : IsSwitched l = record {
        texts = rw asked tt;
        ahead = [];
        split = rw (asked, taken) refl;
        levels = rw (quiet, taken) (Sublists.refl []);
      } in
      let i = every_run-IsSwitched start p in
      (
        Sublists.trans i.levels (
            subst (Sublist (map level_of l'.taken))
              (sym (ap (map level_of) i.split ∙ map-append level_of l'.taken i.ahead))
              (sublist-append_left (map level_of l'.taken) (map level_of i.ahead))),
        i.texts,
      )
