-- ===== src/System/Gateway/Values.antt =====
-- The values of `data_queue`, from the queue to Thingsboard.
use smart_home_project.Common.{
  ℕ, ◌≡◌, refl, sym, ◌∙◌, ap, subst, inl, inr, ◌++◌, append_assoc, append-nil, List, [], ◌∷◌, false,
  some, length, ltb, Bool-cases, ==_ne, ==_iff, ◌==◌,
}
use mathlib.Core.List.{Sublist, nil-sublist}
use mathlib.Core.List.Sublist as Sublists
use smart_home_project.HomeCenter.Types.{DataInformation, CommandInformation}
use smart_home_project.HomeCenter.Queue.{queue_length, items-receive}
use smart_home_project.HomeCenter.Tasks
use smart_home_project.HomeCenter.Tasks.Dispatch.{posts_value, device_of_cases}
use smart_home_project.System.Gateway.{
  Queues, Gateway, Step, Reach, posts, send_cmd, send_cmds, send_value, send_values, wifi_event,
  reconnect, http_body, mqtt_event, coap_message, handle_value, wait_notification, wait_command,
  take_bits, take_command, here, next,
}
use smart_home_project.System.Gateway.Turns.{data_turn, data_turns, handled_value}
use smart_home_project.System.Gateway.Progress.{Reach-Reach}

-- The calls that post values, one after the other.
abbrev pub posts_of : List DataInformation → List Tasks.Call
posts_of [] = []
posts_of (d ∷ ds) = posts_value d ++ posts_of ds

pub posts_of-append :
    (ds es : List DataInformation) → posts_of (ds ++ es) ≡ posts_of ds ++ posts_of es
posts_of-append [] es = refl
posts_of-append (d ∷ ds) es =
    ap (λ x. posts_value d ++ x) (posts_of-append ds es)
    ∙ sym (append_assoc (posts_value d) (posts_of ds) (posts_of es))

-- What a round posts with a network, and without one.
posts-data_handler_task :
    (d : DataInformation) → posts (Tasks.data_handler_task (some d) 1) ≡ posts_value d
unfolding Tasks.data_handler_task
posts-data_handler_task d = elim (device_of_cases d.id_device) [
  | inl (e, f) ↦ rw e refl
  | inr (inl (e, f)) ↦ rw e refl
  | inr (inr (e, f, h)) ↦ rw (==_ne d.id_device 1 e, ==_ne d.id_device 2 f, h) refl
]

offline_posts :
    (d : DataInformation) (connected : ℕ)
    → (connected == 1) ≡ false
    → posts (Tasks.data_handler_task (some d) connected) ≡ []
unfolding Tasks.data_handler_task
offline_posts d connected off = elim (device_of_cases d.id_device) [
  | inl (e, f) ↦ rw (e, off) refl
  | inr (inl (e, f)) ↦ rw (e, off) refl
  | inr (inr (e, f, h)) ↦ rw (==_ne d.id_device 1 e, ==_ne d.id_device 2 f) refl
]

posts-Sublist :
    (d : DataInformation) (connected : ℕ)
    → Sublist (posts (Tasks.data_handler_task (some d) connected)) (posts_value d)
posts-Sublist d connected = elim (Bool-cases (connected == 1)) [
  | inl e ↦ rw ((==_iff connected 1).0 e, posts-data_handler_task d) (Sublists.refl (posts_value d))
  | inr e ↦ rw (offline_posts d connected e) (nil-sublist (posts_value d))
]

module _ (k : Queues) where
  -- The values that the data task took of `data_queue`, and what it posted of them.
  pub record IsPosting (g : Gateway k) : Type 0 where
    pub handed : List DataInformation
    pub accepted : g.accepted ≡ handed ++ k.values.items g.data_queue
    pub posted : Sublist g.posted (posts_of handed)

  send_cmds-IsPosting :
      (cs : List CommandInformation) (g : Gateway k) → IsPosting g → IsPosting (send_cmds k cs g)
  unfolding send_cmds
  send_cmds-IsPosting [] g p = p
  send_cmds-IsPosting (c ∷ cs) g p =
      send_cmds-IsPosting cs (send_cmd k c g)
        (record { handed = p.handed; accepted = p.accepted; posted = p.posted })

  send_value-IsPosting :
      (d : DataInformation) (g : Gateway k) → IsPosting g → IsPosting (send_value k d g)
  send_value-IsPosting d g p = record {
    handed = p.handed;
    accepted = elim (Bool-cases (ltb (length (k.values.items g.data_queue)) queue_length)) [
      | inl e ↦
          rw (k.values.items-send d g.data_queue, e)
            (ap (λ x. x ++ d ∷ []) p.accepted ∙ append_assoc p.handed _ (d ∷ []))
      | inr e ↦ rw (k.values.items-send d g.data_queue, e) p.accepted
    ];
    posted = p.posted;
  }

  send_values-IsPosting :
      (ds : List DataInformation) (g : Gateway k) → IsPosting g → IsPosting (send_values k ds g)
  unfolding send_values
  send_values-IsPosting [] g p = p
  send_values-IsPosting (d ∷ ds) g p =
      send_values-IsPosting ds (send_value k d g) (send_value-IsPosting d g p)

  -- A step that leaves the values and the posts as they are.
  kept :
      (g h : Gateway k)
      → h.accepted ≡ g.accepted
      → h.data_queue ≡ g.data_queue
      → h.posted ≡ g.posted
      → IsPosting g
      → IsPosting h
  kept g h a q s p = record {
    handed = p.handed;
    accepted = a ∙ (p.accepted ∙ ap (λ x. p.handed ++ k.values.items x) (sym q));
    posted = rw s p.posted;
  }

  Step-IsPosting : {g g' : Gateway k} → Step k g g' → IsPosting g → IsPosting g'
  Step-IsPosting {g} (wifi_event connected e {w} h) p =
      send_cmds-IsPosting _ _ (kept g (record g { wifi = w }) refl refl refl p)
  Step-IsPosting {g} reconnect p = kept g _ refl refl refl p
  Step-IsPosting {g} (http_body body {h} fits e) p =
      send_cmds-IsPosting _ _ (kept g (record g { http = h }) refl refl refl p)
  Step-IsPosting {g} (mqtt_event client e {m} h) p =
      send_values-IsPosting _ _ (kept g (record g { mqtt = m }) refl refl refl p)
  Step-IsPosting {g} (coap_message r {c} h) p =
      send_values-IsPosting _ _ (kept g (record g { client = c }) refl refl refl p)
  Step-IsPosting {g} (handle_value {d} {q} h) p = record {
    handed = p.handed ++ d ∷ [];
    accepted =
        p.accepted
        ∙ (ap (λ x. p.handed ++ x) (items-receive k.values g.data_queue q d h)
            ∙ sym (append_assoc p.handed (d ∷ []) (k.values.items q)));
    posted =
        subst (Sublist (g.posted ++ posts (Tasks.data_handler_task (some d) g.wifi.wifi_connected)))
          (sym (
            posts_of-append p.handed (d ∷ [])
            ∙ ap (λ x. posts_of p.handed ++ x) (append-nil (posts_value d))))
          (Sublists.append p.posted (posts-Sublist d g.wifi.wifi_connected));
  }
  Step-IsPosting {g} (wait_notification a c) p = kept g _ refl refl refl p
  Step-IsPosting {g} (wait_command a c) p = kept g _ refl refl refl p
  Step-IsPosting {g} (take_bits a n) p = kept g _ refl refl refl p
  Step-IsPosting {g} (take_command a h) p = kept g _ refl refl refl p

  -- From a gateway of which it holds, over every interleaving with bodies of at most 87 bytes: the
  -- values that `data_queue` took are those that the data task was handed, in that order, and then
  -- those that still wait; what it sent to Thingsboard is, in the same order, a part of one call for
  -- each value of device 1 or 2 that it was handed, with that device and that temperature. No value
  -- is posted twice or overtaken, and none is lost between the queue and the task.
  pub every_run-IsPosting : {g g' : Gateway k} → IsPosting g → Reach k g g' → IsPosting g'
  every_run-IsPosting p here = p
  every_run-IsPosting p (next r s) = Step-IsPosting s (every_run-IsPosting p r)

  -- With a network, the data task posts every value that the queue holds.
  record HasPosted (g g' : Gateway k) : Type 0 where
    pub connected : g'.wifi.wifi_connected ≡ 1
    pub empty : k.values.items g'.data_queue ≡ []
    pub posted : g'.posted ≡ g.posted ++ posts_of (k.values.items g.data_queue)

  data_turn_cons :
      (g : Gateway k) (d : DataInformation) (ds : List DataInformation)
      → k.values.items g.data_queue ≡ d ∷ ds
      → (q : k.values.Carrier) × (k.values.receive g.data_queue ≡ some (d, q))
        × (k.values.items q ≡ ds)
        × (data_turn k g ≡ handled_value k (some (d, q)) g)
  unfolding data_turn
  data_turn_cons g d ds e =
      let (q, first, left) = k.values.receive_first g.data_queue d ds e in
      (q, first, left, ap (λ o. handled_value k o g) first)

  posts_list :
      (ds : List DataInformation) (g : Gateway k)
      → g.wifi.wifi_connected ≡ 1
      → k.values.items g.data_queue ≡ ds
      → HasPosted g (data_turns k (length ds) g) × Reach k g (data_turns k (length ds) g)
  unfolding data_turns
  posts_list [] g w e = (
    record {
      connected = w;
      empty = e;
      posted = sym (append-nil g.posted) ∙ ap (λ x. g.posted ++ posts_of x) (sym e);
    },
    here,
  )
  posts_list (d ∷ ds) g w e =
      let (q, first, left, turn) = data_turn_cons g d ds e in
      let h = handled_value k (some (d, q)) g in
      let (rest, reach) = posts_list ds h w left in
      rw (data_turns, turn)
        (
          record {
            connected = rest.connected;
            empty = rest.empty;
            posted =
                rest.posted
                ∙ (append_assoc g.posted _ _
                    ∙ ap (λ x. g.posted ++ x)
                        (ap
                            (λ n.
                              posts (Tasks.data_handler_task (some d) n)
                              ++ posts_of (k.values.items q))
                            w
                          ∙ (ap (λ x. x ++ posts_of (k.values.items q)) (posts-data_handler_task d)
                              ∙ ap posts_of (ap (◌∷◌ d) left ∙ sym e))));
          },
          Reach-Reach k (next here (handle_value first)) reach,
        )

  -- With a network, a round of the data task for each value of `data_queue` takes them all and leaves
  -- the queue empty; for each value of device 1 or 2 there is one call to Thingsboard, for that device
  -- and with that temperature, in the order of the values, and none for a value of another device; and
  -- the rounds are steps of the gateway.
  pub posts_all :
      (g : Gateway k)
      → g.wifi.wifi_connected ≡ 1
      → let g' = data_turns k (length (k.values.items g.data_queue)) g in
        (k.values.items g'.data_queue ≡ [])
        × (g'.posted ≡ g.posted ++ posts_of (k.values.items g.data_queue))
        × Reach k g g'
  posts_all g w =
      let (done, reach) = posts_list (k.values.items g.data_queue) g w refl in
      (done.empty, done.posted, reach)
