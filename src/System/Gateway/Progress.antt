-- ===== src/System/Gateway/Progress.antt =====
-- That the command task gets on: with a network it serves every command, without one it waits for
-- temperatures.
use smart_home_project.Common.{
  ℕ, zero, suc, ◌≡◌, refl, sym, ◌∙◌, ap, inl, inr, ◌++◌, append_assoc, append-nil, ==_iff, List, [],
  ◌∷◌, some, Option-cases, length, ◌==◌, if◌then◌else◌, Bool-cases, arith,
}
use smart_home_project.HomeCenter.Types.{CommandInformation}
use smart_home_project.HomeCenter.Tasks
use smart_home_project.HomeCenter.Tasks.Dispatch.{on_dequeued-switches}
use smart_home_project.System.Gateway.{
  Queues, Gateway, Reach, Phase, at_top, waiting_notification, waiting_command, wait_notification,
  wait_command, take_bits, take_command, here, next,
}
use smart_home_project.System.Gateway.Turns.{cmd_turn, cmd_turns, turn_in, dequeued}
use smart_home_project.System.Gateway.Order.{calls_of}

-- Two turns of the command task for each item.
abbrev pub double : ℕ → ℕ
double zero = zero
double (suc n) = suc (suc (double n))

module _ (k : Queues) where
  -- A gateway with a network whose command task is about to look at it.
  pub record IsServing (g : Gateway k) : Type 0 where
    pub connected : g.wifi.wifi_connected ≡ 1
    pub phase : g.phase ≡ at_top

  -- What two turns do to a queue that is not empty.
  record Served (g g' : Gateway k) (c : CommandInformation) (cs : List CommandInformation)
      : Type 0 where
    pub serving : IsServing g'
    pub items : k.commands.items g'.cmd_queue ≡ cs
    pub commanded : g'.commanded ≡ g.commanded ++ Tasks.on_dequeued (some c)
    pub automatic : g'.automatic ≡ g.automatic

  pub turn_at_top :
      (g : Gateway k) → IsServing g → cmd_turn k g ≡ record g { phase = waiting_command }
  unfolding cmd_turn
  turn_at_top g s =
      ap (λ p. turn_in k p g) s.phase
      ∙ ap
          (λ n.
            if n == 0
            then record g { phase = waiting_notification }
            else if n == 1
            then record g { phase = waiting_command }
            else g)
          s.connected

  pub turn_offline :
      (g : Gateway k)
      → g.phase ≡ at_top
      → g.wifi.wifi_connected ≡ 0
      → cmd_turn k g ≡ record g { phase = waiting_notification }
  unfolding cmd_turn
  turn_offline g p w =
      ap (λ p. turn_in k p g) p
      ∙ ap
          (λ n.
            if n == 0
            then record g { phase = waiting_notification }
            else if n == 1
            then record g { phase = waiting_command }
            else g)
          w

  two_turns :
      (g : Gateway k) (c : CommandInformation) (cs : List CommandInformation)
      → IsServing g
      → k.commands.items g.cmd_queue ≡ c ∷ cs
      → Served g (cmd_turn k (cmd_turn k g)) c cs
  unfolding cmd_turn
  two_turns g c cs s e =
      let (q, taken, left) = k.commands.receive_first g.cmd_queue c cs e in
      let turns : cmd_turn k (cmd_turn k g)
          ≡ dequeued k (some (c, q)) (record g { phase = waiting_command }) =
        ap (cmd_turn k) (turn_at_top g s)
        ∙ ap (λ o. dequeued k o (record g { phase = waiting_command })) taken in
      rw turns (record {
        serving = record { connected = s.connected; phase = refl };
        items = left;
        commanded = refl;
        automatic = refl;
      })

  -- The command task has served all of the queue.
  pub record IsDrained (g g' : Gateway k) : Type 0 where
    pub serving : IsServing g'
    pub empty : k.commands.items g'.cmd_queue ≡ []
    pub commanded : g'.commanded ≡ g.commanded ++ calls_of (k.commands.items g.cmd_queue)
    pub automatic : g'.automatic ≡ g.automatic

  drains_list :
      (cs : List CommandInformation) (g : Gateway k)
      → IsServing g
      → k.commands.items g.cmd_queue ≡ cs
      → IsDrained g (cmd_turns k (double (length cs)) g)
  unfolding cmd_turns
  drains_list [] g s e = record {
    serving = s;
    empty = e;
    commanded = sym (append-nil g.commanded) ∙ ap (λ x. g.commanded ++ calls_of x) (sym e);
    automatic = refl;
  }
  drains_list (c ∷ cs) g s e =
      let one = two_turns g c cs s e in
      let rest = drains_list cs (cmd_turn k (cmd_turn k g)) one.serving one.items in
      record {
        serving = rest.serving;
        empty = rest.empty;
        commanded =
            rest.commanded
            ∙ (cc (
              one.commanded,
              one.items,
              e,
              ap (λ x. x ++ calls_of cs) (on_dequeued-switches c),
              append_assoc g.commanded (Tasks.on_dequeued (some c)) (calls_of cs),
            ));
        automatic = rest.automatic ∙ one.automatic;
      }

  pub Reach-Reach : {g h i : Gateway k} → Reach k g h → Reach k h i → Reach k g i
  Reach-Reach r here = r
  Reach-Reach r (next p t) = next (Reach-Reach r p) t

  -- A turn is a step of the command task, or none where it cannot go on.
  turn_in-Reach : (p : Phase) (g : Gateway k) → g.phase ≡ p → Reach k g (turn_in k p g)
  turn_in-Reach at_top g e = elim (Bool-cases (g.wifi.wifi_connected == 0)) [
    | inl z ↦ simp (z) (next here (wait_notification e ((==_iff g.wifi.wifi_connected 0).0 z)))
    | inr z ↦ elim (Bool-cases (g.wifi.wifi_connected == 1)) [
      | inl o ↦ simp (z, o) (next here (wait_command e ((==_iff g.wifi.wifi_connected 1).0 o)))
      | inr o ↦ simp (z, o) here
    ]
  ]
  turn_in-Reach waiting_notification g e = elim (Bool-cases (g.notified == 0)) [
    | inl z ↦ simp (z) here
    | inr z ↦ simp (z) (next here (take_bits e (ground arith)))
  ]
  turn_in-Reach waiting_command g e = elim (Option-cases (k.commands.receive g.cmd_queue)) [
    | inl n ↦ rw n here
    | inr ((c, q), r) ↦ rw r (next here (take_command e r))
  ]

  pub cmd_turn-Reach : (g : Gateway k) → Reach k g (cmd_turn k g)
  unfolding cmd_turn
  cmd_turn-Reach g = turn_in-Reach g.phase g refl

  pub cmd_turns-Reach : (n : ℕ) (g : Gateway k) → Reach k g (cmd_turns k n g)
  unfolding cmd_turns
  cmd_turns-Reach zero g = here
  cmd_turns-Reach (suc n) g = Reach-Reach (cmd_turn-Reach g) (cmd_turns-Reach n (cmd_turn k g))

  -- What the command task does once it looks at the network.
  pub drains_all :
      (g : Gateway k)
      → IsServing g
      → let g' = cmd_turns k (double (length (k.commands.items g.cmd_queue))) g in
        IsDrained g g' × Reach k g g'
  drains_all g s = (drains_list (k.commands.items g.cmd_queue) g s refl, cmd_turns-Reach _ g)
