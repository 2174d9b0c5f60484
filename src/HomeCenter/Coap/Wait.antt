-- ===== src/HomeCenter/Coap/Wait.antt =====
-- The handler of responses, and the loop that waits for them.
use smart_home_project.Common.{
  ℕ, zero, suc, ◌+◌, ◌≤◌, ◌≡◌, ◌≢◌, refl, ◌∙◌, ap, inl, inr, List, [], ◌∷◌, Bool, true, false,
  Option, none, some, Option-cases, Bytes, All, Result, ok, ◌>>=◌, Returns, Returns->>=,
  Returns-mono, leb, ◌==◌, arith, Bool-cases, if◌then◌else◌,
}
use smart_home_project.HomeCenter.Coap.{
  Client, Response, Round, Waited, ended, unfinished, call, io_process, message_handler, on_body,
  deliver, after_round, wait_response, timeout, response_class,
}

-- libcoap hands over data of at least one byte.
abbrev pub HasData : Response → Type 0
HasData r = r.body ≢ some []

abbrev pub IsEnded : Waited → Type 0
IsEnded (ended c) = Unit {0}
IsEnded (unfinished c) = ⊥

-- What a call of `coap_io_process` takes off the time, nothing on an error.
abbrev pub spent : Option ℕ → ℕ
spent none = 0
spent (some result) = result

-- The time of the rounds from the n-th on.
abbrev pub total : (ℕ → ℕ) → ℕ → ℕ → ℕ
total time zero n = 0
total time (suc rounds) n = time n + total time rounds (n + 1)

on_body-wait_ms :
    (body : Bytes) (c : Client) → body ≢ [] → Returns (λ d. d.wait_ms ≡ c.wait_ms) (on_body body c)
unfolding on_body
on_body-wait_ms [] c h = absurd (h refl)
on_body-wait_ms (b ∷ bs) c h = ground arith

-- The handler leaves the time to wait alone.
message_handler-wait_ms :
    (r : Response) (c : Client)
    → HasData r
    → Returns (λ d. d.wait_ms ≡ c.wait_ms) (message_handler r c)
unfolding message_handler
message_handler-wait_ms r c h = elim (Bool-cases (response_class r.code == 2)) [
  | inr k ↦ rw k refl
  | inl k ↦ rw k (elim (Option-cases r.body) [
    | inl e ↦ rw e refl
    | inr b ↦ rw b.1 (on_body-wait_ms b.0 c λ n. h (b.1 ∙ ap some n))
  ])
]

deliver-wait_ms :
    (rs : List Response) (c : Client)
    → All HasData rs
    → Returns (λ d. d.wait_ms ≡ c.wait_ms) (deliver rs c)
unfolding deliver
deliver-wait_ms [] c h = refl
deliver-wait_ms (r ∷ rs) c h =
    Returns->>= (λ d. d.wait_ms ≡ c.wait_ms) (λ d. d.wait_ms ≡ c.wait_ms) (message_handler r c)
      (deliver rs) (message_handler-wait_ms r c h.0)
      λ d e.
        Returns-mono (λ x. x.wait_ms ≡ d.wait_ms) (λ x. x.wait_ms ≡ c.wait_ms) (deliver rs d)
          (deliver-wait_ms rs d h.1) λ x f. f ∙ e

module _ where
  after_round-IsEnded :
      (result : Option ℕ) (c : Client) (least rest : ℕ) (next : Client → Result Waited)
      → 1 ≤ c.wait_ms
      → c.wait_ms ≤ least + rest
      → least ≤ spent result
      → ((d : Client) → 1 ≤ d.wait_ms → d.wait_ms ≤ rest → Returns IsEnded (next d))
      → Returns IsEnded (after_round result c next)
  after_round-IsEnded none c least rest next p t s k = k c p (omega arith)
  after_round-IsEnded (some r) c least rest next p t s k = elim (Bool-cases (leb c.wait_ms r)) [
    | inl e ↦ rw e tt
    | inr e ↦ rw e (k _ (ground arith) (ground arith))
  ]

if_true : {A : Type 0} {b : Bool} (x y : A) → b ≡ true → (if b then x else y) ≡ x
if_true x y e = rw e refl

if_false : {A : Type 0} {b : Bool} (x y : A) → b ≡ false → (if b then x else y) ≡ y
if_false x y e = rw e refl

-- A round of the loop.
pub wait_response-waiting :
    (io : ℕ → ℕ → Round) (rounds n : ℕ) (c : Client)
    → c.resp_wait ≡ true
    → let round = io n (timeout c.wait_ms) in
      wait_response io (suc rounds) n c ≡ (
        deliver round.delivered (call (io_process (timeout c.wait_ms)) c)
        >>= (λ d. after_round round.result d (wait_response io rounds (n + 1))))
unfolding wait_response
wait_response-waiting io rounds n c e = if_true _ _ e

pub wait_response-answered :
    (io : ℕ → ℕ → Round) (rounds n : ℕ) (c : Client)
    → c.resp_wait ≡ false
    → wait_response io rounds n c ≡ ok (ended c)
unfolding wait_response
wait_response-answered io zero n c e = ap ok (if_false _ _ e)
wait_response-answered io (suc rounds) n c e = if_false _ _ e

-- From a time to wait of at least 1 ms, the wait ends within any number of rounds whose least times
-- add up to it, where each message with data has at least one byte.
pub wait_response-IsEnded :
    (io : ℕ → ℕ → Round) (time : ℕ → ℕ) (rounds n : ℕ) (c : Client)
    → ((k t : ℕ) → All HasData (io k t).delivered × (time k ≤ spent (io k t).result))
    → 1 ≤ c.wait_ms
    → c.wait_ms ≤ total time rounds n
    → Returns IsEnded (wait_response io rounds n c)
wait_response-IsEnded io time zero n c h p t = absurd (omega arith)
wait_response-IsEnded io time (suc rounds) n c h p t = elim (Bool-cases c.resp_wait) [
  | inr e ↦ rw (wait_response-answered io (suc rounds) n c e) tt
  | inl e ↦
      let round = io n (timeout c.wait_ms) in
      let left = h n (timeout c.wait_ms) in
      rw (wait_response-waiting io rounds n c e) (
        Returns->>= (λ d. d.wait_ms ≡ c.wait_ms) IsEnded _ _
          (deliver-wait_ms round.delivered (call (io_process (timeout c.wait_ms)) c) left.0)
          λ d q.
            after_round-IsEnded round.result d (time n) (total time rounds (n + 1)) _ (omega arith)
              (omega arith) left.1 λ x a b. wait_response-IsEnded io time rounds (n + 1) x h a b)
]

-- Where every call of `coap_io_process` fails and delivers nothing, no number of rounds ends the
-- wait.
wait_response_stuck :
    (io : ℕ → ℕ → Round) (rounds n : ℕ) (c : Client)
    → ((k t : ℕ) → io k t ≡ record { delivered = []; result = none })
    → c.resp_wait ≡ true
    → (d : Client) × (wait_response io rounds n c ≡ ok (unfinished d))
unfolding wait_response deliver
wait_response_stuck io zero n c h w = (c, ap ok (if_true _ _ w))
wait_response_stuck io (suc rounds) n c h w =
    let next = call (io_process (timeout c.wait_ms)) c in
    let (d, e) = wait_response_stuck io rounds (n + 1) next h w in
    (d, wait_response-waiting io rounds n c w ∙ rw (h n (timeout c.wait_ms)) e)
