-- ===== src/HomeCenter/Queue.antt =====
-- The queues of FreeRTOS that HomeCenter/main/app_main.c and Device2_mqtt/main/app_main.c create: an
-- interface of operations and laws, which the programs as a whole take as a parameter.
use smart_home_project.Common.{
  ℕ, ◌≤◌, ◌≡◌, refl, sym, ◌∙◌, inl, inr, ◌++◌, List, [], ◌∷◌, Option, none, some, length,
  length-append, All, All-append, Bool-cases, ltb, ltb→lt, if◌then◌else◌, arith,
}

-- The first argument of the calls of `xQueueCreate`.
abbrev pub queue_length : ℕ
queue_length = 10

abbrev pub bounded_append {ℓ} : {A : Type ℓ} → A → List A → List A
bounded_append a items = if ltb (length items) queue_length then items ++ a ∷ [] else items

-- What `xQueueCreate`, `xQueueSend` and `xQueueReceive` are documented to do: a queue is empty at first, one that stays full for the ticks
-- of the call drops the item, and items are received in the order in which they were sent.
pub record Queue (A : Type 0) : Type 1 where
  pub Carrier : Type 0
  pub items : Carrier → List A
  pub create : Carrier
  pub send : A → Carrier → Carrier
  pub receive : Carrier → Option (A × Carrier)
  pub items-create : items create ≡ []
  pub items-send : (a : A) (q : Carrier) → items (send a q) ≡ bounded_append a (items q)
  pub receive_empty : (q : Carrier) → items q ≡ [] → receive q ≡ none
  pub receive_first :
      (q : Carrier) (a : A) (rest : List A)
      → items q ≡ a ∷ rest
      → (q' : Carrier) × (receive q ≡ some (a, q')) × (items q' ≡ rest)

-- The list of the items is such a queue.
abbrev pub uncons : {A : Type 0} → List A → Option (A × List A)
uncons [] = none
uncons (a ∷ items) = some (a, items)

pub uncons_nil : {A : Type 0} (q : List A) → q ≡ [] → uncons q ≡ none
uncons_nil q e = rw e refl

pub uncons_cons :
    {A : Type 0} (q : List A) (a : A) (rest : List A)
    → q ≡ a ∷ rest
    → (q' : List A) × (uncons q ≡ some (a, q')) × (q' ≡ rest)
uncons_cons q a rest e = (rest, rw e refl, refl)

abbrev pub bounded_list : (A : Type 0) → Queue A
bounded_list A = record {
  Carrier = List A;
  items = λ q. q;
  create = [];
  send = bounded_append;
  receive = uncons;
  items-create = refl;
  items-send = λ a q. refl;
  receive_empty = uncons_nil;
  receive_first = uncons_cons;
}

length-bounded_append :
    {A : Type 0} (a : A) (xs : List A)
    → length xs ≤ queue_length
    → length (bounded_append a xs) ≤ queue_length
length-bounded_append a xs h = elim (Bool-cases (ltb (length xs) queue_length)) [
  | inl e ↦ rw e (omega (arith, length-append xs (a ∷ []), ltb→lt (length xs) queue_length e))
  | inr e ↦ rw e h
]

All-bounded_append :
    {A : Type 0} (P : A → Type 0) (a : A) (xs : List A)
    → P a
    → All P xs
    → All P (bounded_append a xs)
All-bounded_append P a xs p h = elim (Bool-cases (ltb (length xs) queue_length)) [
  | inl e ↦ rw e (All-append P xs (a ∷ []) h (p, tt))
  | inr e ↦ rw e h
]

none-ne-some : {A : Type 0} {a : A} → ¬ (◌≡◌ {A = Option A} none (some a))
none-ne-some h = cc

module _ {A : Type 0} (k : Queue A) where
  open k use {Carrier, items, send, receive, items-send, receive_empty, receive_first}

  received_from :
      (q q' : Carrier) (a : A) (xs : List A)
      → items q ≡ xs
      → receive q ≡ some (a, q')
      → items q ≡ a ∷ items q'
  received_from q q' a [] e r = absurd (none-ne-some (sym (receive_empty q e) ∙ r))
  received_from q q' a (b ∷ rest) e r =
      let (p, taken, left) = receive_first q b rest e in
      let same : some (b, p) ≡ some (a, q') = sym taken ∙ r in e ∙ (cc (left, same))

  -- What is received was the first item.
  pub items-receive : (q q' : Carrier) (a : A) → receive q ≡ some (a, q') → items q ≡ a ∷ items q'
  items-receive q q' a r = received_from q q' a (items q) refl r

  pub length-send :
      (a : A) (q : Carrier)
      → length (items q) ≤ queue_length
      → length (items (send a q)) ≤ queue_length
  length-send a q h = rw (items-send a q) (length-bounded_append a (items q) h)

  pub All-send :
      (P : A → Type 0) (a : A) (q : Carrier) → P a → All P (items q) → All P (items (send a q))
  All-send P a q p h = rw (items-send a q) (All-bounded_append P a (items q) p h)
