-- ===== src/Device1/Server/Loop.antt =====
-- The two loops of `coap_example_server`.
use smart_home_project.Common.{
  ℕ, ◌+◌, ◌≡◌, refl, ◌∙◌, List, [], ◌∷◌, Bool, true, false, Option, none, some, length, All, arith,
}
use smart_home_project.Device1.Server.{
  Library, Proto, udp, tcp, dtls, tls, Pass, served, io_round, check_ms, coap_example_server,
  contexts_left, serve, Setup, with_endpoint, new_context, set_block_mode, set_psk,
  coap_default_port, coaps_default_port,
}

-- The wait that the inner loop asks for after the answers `results`, from a first wait.
pub io_rounds : ℕ → List ℕ → ℕ → Option ℕ
io_rounds check [] wait_ms = some wait_ms
io_rounds check (r ∷ rs) wait_ms = elim (io_round check (some r) wait_ms) [
  | none ↦ none
  | some w ↦ io_rounds check rs w
]

io_round-check_ms : (check r : ℕ) → io_round check (some r) (check_ms check) ≡ some (check_ms check)
unfolding io_round
io_round-check_ms check r = ground arith

-- The wait never gets shorter: whatever `coap_io_process` answers, every round that follows asks for
-- the full time again.
pub io_rounds_full :
    (check : ℕ) (results : List ℕ)
    → io_rounds check results (check_ms check) ≡ some (check_ms check)
unfolding io_rounds
io_rounds_full check [] = refl
io_rounds_full check (r ∷ rs) = rw (io_round-check_ms check r, io_rounds) (io_rounds_full check rs)

-- libcoap makes all that the server asks of it.
pub record Makes (lib : Library) : Type 0 where
  pub context : lib.context ≡ true
  pub endpoint : (p : Proto) → lib.endpoint p ≡ true
  pub resource : lib.resource ≡ true

abbrev IsServed : Pass → Type 0
IsServed p = (calls : List Setup) × (p ≡ served calls)

module _ (lib : Library) (m : Makes lib) where
  with_endpoint-IsServed :
      (supported : Bool) (p : Proto) (port : ℕ) (calls : List Setup) (next : List Setup → Pass)
      → ((cs : List Setup) → IsServed (next cs))
      → IsServed (with_endpoint lib supported p port calls next)
  with_endpoint-IsServed true p port calls next h = rw (m.endpoint p) (h _)
  with_endpoint-IsServed false p port calls next h = h calls

  serves : IsServed (coap_example_server lib)
  unfolding coap_example_server
  serves = rw m.context (
      with_endpoint-IsServed true udp coap_default_port
        (new_context ∷ set_block_mode ∷ set_psk ∷ []) _
        λ a. with_endpoint-IsServed lib.tcp_supported tcp coap_default_port a _ λ b.
          with_endpoint-IsServed lib.dtls_supported dtls coaps_default_port b _ λ c.
            with_endpoint-IsServed lib.tls_supported tls coaps_default_port c (serve lib)
              λ d. rw m.resource (_, refl))

-- Where libcoap makes all that it is asked for, each error of `coap_io_process` makes the server
-- open one more context beside those that it has.
pub contexts_leak :
    (libs : List Library) (n : ℕ) → All Makes libs → contexts_left libs n ≡ n + length libs
unfolding contexts_left
contexts_leak [] n m = omega arith
contexts_leak (lib ∷ libs) n m =
    let (calls, e) = serves lib m.0 in rw e (contexts_leak libs (n + 1) m.1 ∙ omega arith)
