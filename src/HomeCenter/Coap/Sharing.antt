-- ===== src/HomeCenter/Coap/Sharing.antt =====
-- The waits of GetTemperature_Coap and ControlMotor_Coap of HomeCenter/main/coap.c, which two tasks
-- run: both loops are on the same `resp_wait`.
use smart_home_project.Common.{
  ℕ, ◌≡◌, ◌≢◌, refl, ◌∙◌, ap, inl, inr, ◌⊎◌, [], ◌∷◌, Bool, true, false, Option, some, Bytes,
  Result, ok, ◌>>=◌, Ensures, Ensures-ok, Ensures->>=, sym, subst, if_both, leb, Option-cases,
  if◌then◌else◌, arith,
}
use smart_home_project.HomeCenter.Coap.{
  Client, call, io_process, timeout, after_round, Response, Round, Waited, ended, unfinished,
  message_handler, on_body, deliver, wait_response, response_class,
}

-- The request of the temperature task, and that of the command task.
pub data Request : Type 0 where
  get_temperature control_motor : Request

-- The variables of the file, and which of the two loops is running.
pub record Waits : Type 0 where
  pub client : Client
  pub getting : Bool
  pub controlling : Bool

abbrev pub leave : Request → Waits → Waits
leave get_temperature w = record w { getting = false }
leave control_motor w = record w { controlling = false }

abbrev pub after_turn : Request → Waits → Waited → Waits
after_turn q w (ended c) = leave q (record w { client = c })
after_turn q w (unfinished c) = record w { client = c }

-- One turn of a loop: its test, one call of `coap_io_process`, and the test again.
unfoldable pub turn : Request → Round → Waits → Result Waits
turn q round w = wait_response (λ n t. round) 1 0 w.client >>= (λ x. ok (after_turn q w x))

-- The handler takes the message for the awaited response.
abbrev pub IsAnswer : Response → Type 0
IsAnswer r = (response_class r.code ≢ 2) ⊎ ((b : ℕ) × (bs : Bytes) × (r.body ≡ some (b ∷ bs)))

answered :
    (r : Response) (c : Client)
    → IsAnswer r
    → Ensures (λ d. d.resp_wait ≡ false) (message_handler r c)
unfolding message_handler on_body
answered r c (inl n) = ground arith
answered r c (inr (b, bs, e)) = rw e (ground arith)

abbrev client_of : Waited → Client
client_of (ended c) = c
client_of (unfinished c) = c

abbrev Stops : Waited → Type 0
Stops x = (client_of x).resp_wait ≡ false

after_answer :
    (round : Round) (c : Client)
    → c.resp_wait ≡ false
    → Ensures Stops (after_round round.result c (wait_response (λ n t. round) 0 1))
unfolding wait_response
after_answer round c e = elim (Option-cases round.result) [
  | inl n ↦ rw n (if_both (λ x. Stops x) c.resp_wait (unfinished c) (ended c) e e)
  | inr (result, n) ↦ rw n (
      if_both (Ensures Stops) (leb c.wait_ms result) (ok (ended c)) _ e
        (if_both (λ x. Stops x) c.resp_wait (unfinished _) (ended _) e e))
]

answered_turn :
    (r : Response) (result : Option ℕ) (c : Client)
    → IsAnswer r
    → c.resp_wait ≡ true
    → Ensures Stops (wait_response (λ n t. record { delivered = r ∷ []; result = result }) 1 0 c)
unfolding wait_response deliver
answered_turn r result c a e =
    let round : Round = record { delivered = r ∷ []; result = result } in
    let asked = call (io_process (timeout c.wait_ms)) c in
    let one = message_handler r asked >>= (λ d. ok d) in
    subst
      (λ b. Ensures Stops (
        if b
        then one >>= (λ d. after_round result d (wait_response (λ n t. round) 0 1))
        else ok (ended c)))
      (sym e)
      (Ensures->>= (λ d. d.resp_wait ≡ false) Stops one _
        (Ensures->>= (λ d. d.resp_wait ≡ false) (λ d. d.resp_wait ≡ false) (message_handler r asked)
          (λ d. ok d) (answered r asked a) λ d s. s)
        λ d s. after_answer round d s)

skipped {ℓ} :
    {A B : Type ℓ} (b : Bool) (m n : Result A) (f : A → Result B)
    → b ≡ false
    → ((if b then m else n) >>= f) ≡ (n >>= f)
skipped b m n f e = rw e refl

no_turn :
    (q : Request) (round : Round) (w : Waits)
    → w.client.resp_wait ≡ false
    → turn q round w ≡ ok (leave q w)
unfolding turn wait_response
no_turn get_temperature round w e = skipped w.client.resp_wait _ (ok (ended w.client)) _ e
no_turn control_motor round w e = skipped w.client.resp_wait _ (ok (ended w.client)) _ e

client-after_turn : (q : Request) (w : Waits) (x : Waited) → (after_turn q w x).client ≡ client_of x
client-after_turn get_temperature w (ended c) = refl
client-after_turn control_motor w (ended c) = refl
client-after_turn q w (unfinished c) = refl

answer_stops :
    (q : Request) (r : Response) (result : Option ℕ) (w : Waits)
    → IsAnswer r
    → w.client.resp_wait ≡ true
    → Ensures
        (λ x. x.client.resp_wait ≡ false)
        (turn q (record { delivered = r ∷ []; result = result }) w)
unfolding turn
answer_stops q r result w a e =
    Ensures->>= Stops (λ x. x.client.resp_wait ≡ false)
      (wait_response (λ n t. record { delivered = r ∷ []; result = result }) 1 0 w.client) _
      (answered_turn r result w.client a e)
      λ x s. ap (λ c. c.resp_wait) (client-after_turn q w x) ∙ s

-- The answer to either request, which one loop's turn delivers, ends the other loop at its next
-- turn, before it calls libcoap again: its own answer need not have come.
pub other_answer_ends_wait :
    (q q' : Request) (r : Response) (result : Option ℕ) (round : Round) (w w' : Waits)
    → IsAnswer r
    → w.client.resp_wait ≡ true
    → turn q (record { delivered = r ∷ []; result = result }) w ≡ ok w'
    → turn q' round w' ≡ ok (leave q' w')
other_answer_ends_wait q q' r result round w w' a e t =
    no_turn q' round w'
      (Ensures-ok (λ x. x.client.resp_wait ≡ false) _ w' (answer_stops q r result w a e) t)
