-- ===== src/Device1/Server/Session/Kept.antt =====
-- That the outdoor device keeps what it promises.
use smart_home_project.Common.{
  ℕ, ◌/◌, ◌≤◌, ◌≡◌, refl, ◌∙◌, ap, ap₂, ◌⊎◌, inl, inr, ◌++◌, List, [], ◌∷◌, append_assoc,
  append-nil, Bool, Option, none, some, Bytes, codes, length, drop, All, Returns, Returns->>=, ◌==◌,
  if◌then◌else◌, subst, arith,
}
use smart_home_project.Device1.Server.{
  Server, Call, call, gpio_set_level, set_code, content, deleted, add_data, notify_observers,
  log_motor_status, log_empty_request, control_motor_handler, control_motor_request, delete_request,
  read_data_ds18b20_task,
}
use smart_home_project.Device1.Server.Requests.{
  stored, stored-IsValid, before_motor, control_motor_request-answered, level,
  get_temperature_request_lem,
}
use smart_home_project.Device1.Server.Session.{
  Turn, get_request, delete_turn, put_request, measurement, take_turn, session, pin, replies,
  Promise, asks, set_motor, promised, promised_all, shown, IsReady, IsFit,
}

pin-append : (cs ds : List Call) (l : ℕ) → pin (cs ++ ds) l ≡ pin ds (pin cs l)
pin-append [] ds l = refl
pin-append (gpio_set_level p l' ∷ cs) ds l = pin-append cs ds (if p == 2 then l' else l)
pin-append (set_code c ∷ cs) ds l = pin-append cs ds l
pin-append (add_data b ∷ cs) ds l = pin-append cs ds l
pin-append (notify_observers ∷ cs) ds l = pin-append cs ds l
pin-append (log_empty_request ∷ cs) ds l = pin-append cs ds l
pin-append (log_motor_status ∷ cs) ds l = pin-append cs ds l

replies-append : (cs ds : List Call) → replies (cs ++ ds) ≡ replies cs ++ replies ds
replies-append [] ds = refl
replies-append (add_data b ∷ cs) ds = ap (◌∷◌ b) (replies-append cs ds)
replies-append (gpio_set_level p l ∷ cs) ds = replies-append cs ds
replies-append (set_code c ∷ cs) ds = replies-append cs ds
replies-append (notify_observers ∷ cs) ds = replies-append cs ds
replies-append (log_empty_request ∷ cs) ds = replies-append cs ds
replies-append (log_motor_status ∷ cs) ds = replies-append cs ds

abbrev Keeps : Turn → Server → Server → Type 0
Keeps t s s' = IsFit s' × (shown s' ≡ promised t (shown s))

abbrev promise_of : ℕ → ℕ → List Bytes → Promise
promise_of m t r = record { motor = m; temperature = t; replied = r }

-- What is shown after some more calls.
shown-append :
    (ds : List Call) (s : Server)
    → shown (record s { calls = s.calls ++ ds })
      ≡ promise_of (pin ds (pin s.calls 0)) s.temp_value (replies s.calls ++ replies ds)
shown-append ds s =
    ap₂ (λ m r. promise_of m s.temp_value r) (pin-append s.calls ds 0) (replies-append s.calls ds)

abbrev switched : Option Bool → Server → Server
switched none s = s
switched (some on) s = call (gpio_set_level 2 (level on)) s

switched-Keeps :
    (o : Option Bool) (s : Server)
    → IsFit s
    → IsFit (switched o s)
      × (shown (switched o s)
          ≡ promise_of (set_motor o (pin s.calls 0)) s.temp_value (replies s.calls))
switched-Keeps none s f = (f, refl)
switched-Keeps (some on) s f = (
  (record { array = f.0.array; terminated = f.0.terminated }, f.1),
  shown-append (gpio_set_level 2 (level on) ∷ []) s
      ∙ ap (promise_of (level on) s.temp_value) (append-nil (replies s.calls)),
)

-- What the handler compares is the request, whatever stood in the array.
handler_three :
    (a b c : ℕ) (rest : Bytes) (s : Server)
    → control_motor_handler (a ∷ b ∷ c ∷ rest) s ≡ switched (asks (a ∷ b ∷ c ∷ [])) s
unfolding control_motor_handler
handler_three a b c rest s = ground arith

handler_long :
    (body rest : Bytes) (s : Server)
    → 3 ≤ length body
    → control_motor_handler (body ++ rest) s ≡ switched (asks body) s
handler_long [] rest s h = absurd (omega arith)
handler_long (a ∷ []) rest s h = absurd (omega arith)
handler_long (a ∷ b ∷ []) rest s h = absurd (omega arith)
handler_long (a ∷ b ∷ c ∷ body) rest s h = handler_three a b c (body ++ rest) s

handler_lem :
    (body rest : Bytes) (s : Server)
    → (body ≡ codes "on") ⊎ (3 ≤ length body)
    → control_motor_handler (body ++ rest) s ≡ switched (asks body) s
unfolding control_motor_handler
handler_lem body rest s (inl e) = rw e refl
handler_lem body rest s (inr h) = handler_long body rest s h

-- A request that is not empty.
put_request-Keeps :
    (c : ℕ) (cs : Bytes) (s : Server)
    → length (c ∷ cs) ≤ 99
    → ((c ∷ cs) ≡ codes "on") ⊎ (3 ≤ length (c ∷ cs))
    → IsFit s
    → Returns (Keeps (put_request (c ∷ cs)) s) (control_motor_request (c ∷ cs) s)
put_request-Keeps c cs s short whole f =
    let body = c ∷ cs in
    let before = record s {
      put_res = stored body s;
      put_res_len = length body;
      calls = s.calls ++ before_motor body;
    } in
    let (array, terminated) = stored-IsValid body s short f.0 in
    let (fit, same) =
      switched-Keeps (asks body) before (record { array = array; terminated = terminated }, f.1) in
    rw
      (
        control_motor_request-answered c cs s short f.0,
        handler_lem body (drop (length body) s.put_res) before whole,
      )
      (
        fit,
        same
            ∙ ap₂ (λ l r. promise_of (set_motor (asks body) l) s.temp_value r)
                (pin-append s.calls (before_motor body) 0)
                (replies-append s.calls (before_motor body)),
      )

-- Two calls that neither set the motor's pin nor answer.
two_quiet :
    (a b : Call) (s : Server)
    → pin (a ∷ b ∷ []) (pin s.calls 0) ≡ pin s.calls 0
    → replies (a ∷ b ∷ []) ≡ []
    → shown (call b (call a s)) ≡ shown s
two_quiet a b s p r =
    ap (λ cs. shown (record s { calls = cs })) (append_assoc s.calls (a ∷ []) (b ∷ []))
    ∙ (shown-append (a ∷ b ∷ []) s
        ∙ ap₂ (λ m q. promise_of m s.temp_value q) p
            (ap (λ q. replies s.calls ++ q) r ∙ append-nil (replies s.calls)))

take_turn-Keeps :
    (t : Turn) (s : Server) → IsReady t → IsFit s → Returns (Keeps t s) (take_turn t s)
unfolding delete_request read_data_ds18b20_task control_motor_request
take_turn-Keeps get_request s r f = rw (get_temperature_request_lem s f.1) (
  (record { array = f.0.array; terminated = f.0.terminated }, f.1),
  shown-append (set_code content ∷ add_data ((s.temp_value / 16) ∷ []) ∷ []) s,
)
take_turn-Keeps delete_turn s r f = (
  (record { array = f.0.array; terminated = f.0.terminated }, f.1),
  two_quiet notify_observers (set_code deleted) s refl refl,
)
take_turn-Keeps (measurement n) s r f =
    ((record { array = f.0.array; terminated = f.0.terminated }, r), refl)
take_turn-Keeps (put_request []) s r f = (
  (record { array = f.0.array; terminated = f.0.terminated }, f.1),
  two_quiet notify_observers log_empty_request s refl refl,
)
take_turn-Keeps (put_request (c ∷ cs)) s (short, inl e) f = absurd cc
take_turn-Keeps (put_request (c ∷ cs)) s (short, inr whole) f =
    put_request-Keeps c cs s short whole f

-- A server whose array has its 100 bytes with a zero at the end and whose temperature is below 256
-- degrees, over any order of GET and DELETE requests, measurements below 256 degrees and PUT
-- requests of at most 99 bytes that are empty, the text `on`, or of three bytes or more: it handles
-- them all and is such a server again; the pin of its motor has the level that the last PUT request
-- beginning with on or off asked for, or keeps its level without one; and its answers are, in order,
-- for each GET request the whole degrees of the temperature that was measured last, or before, and
-- for each PUT request that is not empty its text.
pub session_keeps_promise :
    (ts : List Turn) (s : Server)
    → All IsReady ts
    → IsFit s
    → Returns (λ s'. IsFit s' × (shown s' ≡ promised_all ts (shown s))) (session ts s)
unfolding session
session_keeps_promise [] s r f = (f, refl)
session_keeps_promise (t ∷ ts) s r f =
    Returns->>= (Keeps t s) _ (take_turn t s) (session ts) (take_turn-Keeps t s r.0 f) λ s' k.
      subst (λ p. Returns (λ u. IsFit u × (shown u ≡ promised_all ts p)) (session ts s')) k.1
        (session_keeps_promise ts s' r.1 k.0)
