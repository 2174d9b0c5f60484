-- ===== src/Device1/Server/Requests.antt =====
-- What the handlers of the outdoor device answer and switch.
use smart_home_project.Common.{
  ℕ, ◌/◌, ◌≤◌, ◌<◌, ◌≡◌, ◌≢◌, refl, ◌∙◌, inl, inr, ◌++◌, List, [], ◌∷◌, append_assoc, Bool, true,
  false, some, Bytes, codes, length, length-memcpy, drop, get_elem?, strlen-get_elem?,
  get_elem?-memcpy, memcpy_fits, memcpy_overflow, strlen, strncmp_eq, Returns, Returns-ok, ok,
  fault, if◌then◌else◌, Bool-cases, ==_ne, subst, sym, lt→ltb, arith,
}
use smart_home_project.Device1.Server.{
  Server, Call, gpio_set_level, set_code, add_data, notify_observers, log_motor_status, content,
  control_motor_handler, get_temperature_request, control_motor_request,
}

-- The array has its 100 bytes, the last of them zero.
pub record IsValid (s : Server) : Type 0 where
  pub array : length s.put_res ≡ 100
  pub terminated : get_elem? s.put_res 99 ≡ some 0

-- What a non-empty request of at most 99 bytes leaves, but for the level that it sets.
abbrev pub stored : Bytes → Server → Bytes
stored body s = body ++ drop (length body) s.put_res

-- The calls of any non-empty request before the motor is looked at.
abbrev pub before_motor : Bytes → List Call
before_motor body = notify_observers ∷ set_code content ∷ add_data body ∷ log_motor_status ∷ []

-- What the server does on a non-empty request of at most 99 bytes.
abbrev pub answered : Bytes → Server → Server
answered body s = control_motor_handler (stored body s) (record s {
  put_res = stored body s;
  put_res_len = length body;
  calls = s.calls ++ before_motor body;
})

pub stored-IsValid :
    (body : Bytes) (s : Server)
    → length body ≤ 99
    → IsValid s
    → (length (stored body s) ≡ 100) × (get_elem? (stored body s) 99 ≡ some 0)
stored-IsValid body s short v =
    let fits : length body ≤ length s.put_res = rw v.array (omega arith) in
    (
      length-memcpy s.put_res body fits ∙ v.array,
      get_elem?-memcpy body s.put_res 99 short ∙ v.terminated,
    )

pub control_motor_request-answered :
    (c : ℕ) (cs : Bytes) (s : Server)
    → length (c ∷ cs) ≤ 99
    → IsValid s
    → control_motor_request (c ∷ cs) s ≡ ok (answered (c ∷ cs) s)
unfolding control_motor_request
control_motor_request-answered c cs s short v =
    let (n, e, le) =
      Returns-ok (λ k. k ≤ 99) (strlen (stored (c ∷ cs) s))
        (strlen-get_elem? (stored (c ∷ cs) s) 99 (stored-IsValid (c ∷ cs) s short v).1) in
    rw (memcpy_fits s.put_res (c ∷ cs) (rw v.array (omega arith)), e) (simp append_assoc)

control_motor_handler-IsValid :
    (cmd : Bytes) (s : Server) → IsValid s → IsValid (control_motor_handler cmd s)
unfolding control_motor_handler
control_motor_handler-IsValid cmd s v = elim (Bool-cases (strncmp_eq 2 cmd (codes "on"))) [
  | inl e ↦ rw e (record { array = v.array; terminated = v.terminated })
  | inr e ↦ rw e (elim (Bool-cases (strncmp_eq 3 cmd (codes "off"))) [
    | inl e' ↦ rw e' (record { array = v.array; terminated = v.terminated })
    | inr e' ↦ rw e' v
  ])
]

-- A request of at most 99 bytes is answered within the array, which keeps its closing zero.
pub short_request-IsValid :
    (body : Bytes) (s : Server)
    → length body ≤ 99
    → IsValid s
    → Returns IsValid (control_motor_request body s)
short_request-IsValid [] s short v =
    unfold control_motor_request in record { array = v.array; terminated = v.terminated }
short_request-IsValid (c ∷ cs) s short v =
    subst (Returns IsValid) (sym (control_motor_request-answered c cs s short v)) (
      control_motor_handler-IsValid (stored (c ∷ cs) s) _ (
        let (array, terminated) = stored-IsValid (c ∷ cs) s short v in
        record { array = array; terminated = terminated }))

-- The text of a command, and the level that it asks for.
abbrev pub command : Bool → Bytes
command on = if on then codes "on" else codes "off"

abbrev pub level : Bool → ℕ
level on = if on then 1 else 0

-- A request that begins with `on` or `off` is answered with its own text, and sets the motor's pin
-- accordingly as the last thing.
pub command_switches :
    (on : Bool) (rest : Bytes) (s : Server)
    → length rest ≤ 96
    → IsValid s
    → Returns
        (λ s'.
          s'.calls
          ≡ s.calls ++ (before_motor (command on ++ rest) ++ gpio_set_level 2 (level on) ∷ []))
        (control_motor_request (command on ++ rest) s)
unfolding control_motor_handler
command_switches true rest s short v =
    rw (control_motor_request-answered b'o' (b'n' ∷ rest) s (omega arith) v) (simp append_assoc)
command_switches false rest s short v =
    rw (control_motor_request-answered b'o' (b'f' ∷ b'f' ∷ rest) s (omega arith) v)
      (simp append_assoc)

-- A request that does not begin with the letter of the two commands is answered and switches
-- nothing.
pub other_request_keeps_motor :
    (c : ℕ) (cs : Bytes) (s : Server)
    → c ≢ b'o'
    → length (c ∷ cs) ≤ 99
    → IsValid s
    → Returns (λ s'. s'.calls ≡ s.calls ++ before_motor (c ∷ cs)) (control_motor_request (c ∷ cs) s)
unfolding control_motor_handler
other_request_keeps_motor c cs s ne short v =
    rw (control_motor_request-answered c cs s short v, ==_ne c b'o' ne) refl

-- A request of the one letter `o` after one that left `n` in the second byte of the array turns the
-- motor on: the comparison reads the byte of the earlier request.
pub stale_byte_switches :
    (first : ℕ) (old : Bytes) (s : Server)
    → s.put_res ≡ first ∷ b'n' ∷ old
    → IsValid s
    → Returns
        (λ s'. s'.calls ≡ s.calls ++ (before_motor (b'o' ∷ []) ++ gpio_set_level 2 1 ∷ []))
        (control_motor_request (b'o' ∷ []) s)
unfolding control_motor_handler
stale_byte_switches first old s e v =
    rw (control_motor_request-answered b'o' [] s (omega arith) v, e) (simp append_assoc)

-- A request of more than 100 bytes is copied past the end of the array.
pub long_request_overflow :
    (c : ℕ) (cs : Bytes) (s : Server)
    → length s.put_res ≡ 100
    → 100 ≤ length cs
    → control_motor_request (c ∷ cs) s ≡ fault
unfolding control_motor_request
long_request_overflow c cs s a long = rw (memcpy_overflow s.put_res (c ∷ cs) (rw a (omega arith)))

-- A temperature below 256 degrees is answered as one byte, its whole degrees.
pub get_temperature_request_lem :
    (s : Server)
    → s.temp_value < 4096
    → get_temperature_request s
      ≡ ok (record s {
        calls = s.calls ++ (set_code content ∷ add_data ((s.temp_value / 16) ∷ []) ∷ []);
      })
unfolding get_temperature_request
get_temperature_request_lem s h =
    rw (lt→ltb (s.temp_value / 16) 256 (omega arith)) (simp append_assoc)
