-- ===== src/Broker/Consuming/Ordered.antt =====
-- In what order the messages of `ConsumeMessage` are received.
use ormus.Prelude.{
  ℕ, ◌≤◌, ◌≡◌, refl, sym, ap, ◌∙◌, arith, Bool, true, false, List, [], ◌∷◌, ◌++◌, String, length,
  length-append, ltb, Bool-cases, inl, inr,
}
use mathlib.Core.Path.{subst}
use mathlib.Core.List.{append_assoc}
use ormus.Broker.{Message}
use ormus.Broker.Consuming.{
  Phase, ranging, sending, finished, Consuming, Step, arrive, close_msgs, turn, receive, start,
  range_next, take_turn, meet, receive_next, arrive_next, step, run,
}

abbrev pub payloads : {Uuid : Type 0} → List (Message Uuid) → List String
payloads [] = []
payloads (m ∷ ms) = m.payload ∷ payloads ms

payloads-append :
    {Uuid : Type 0} (xs ys : List (Message Uuid)) → payloads (xs ++ ys) ≡ payloads xs ++ payloads ys
payloads-append [] ys = refl
payloads-append (x ∷ xs) ys = ap (λ bodies. x.payload ∷ bodies) (payloads-append xs ys)

payloads-last :
    {Uuid : Type 0} (ms : List (Message Uuid)) (m : Message Uuid) (bodies : List String)
    → payloads (ms ++ m ∷ []) ++ bodies ≡ payloads ms ++ (m.payload ∷ bodies)
payloads-last ms m bodies =
    ap (λ xs. xs ++ bodies) (payloads-append ms (m ∷ []))
    ∙ append_assoc (payloads ms) (m.payload ∷ []) bodies

-- The body that the goroutine is about to send.
abbrev pub held : {Uuid : Type 0} → Phase Uuid → List String
held ranging = []
held (sending m) = m.payload ∷ []
held finished = []

abbrev pub AtEnd : {Uuid : Type 0} → Phase Uuid → Bool → List String → Type 0
AtEnd ranging closed msgs = Unit
AtEnd (sending m) closed msgs = Unit
AtEnd finished closed msgs = (closed ≡ true) × (msgs ≡ [])

still_open :
    {Uuid : Type 0} (p : Phase Uuid) (closed : Bool) (msgs more : List String)
    → closed ≡ false
    → AtEnd p closed msgs
    → AtEnd p closed more
still_open ranging closed msgs more e v = tt
still_open (sending m) closed msgs more e v = tt
still_open finished closed msgs more e v = cc

still_closed :
    {Uuid : Type 0} (p : Phase Uuid) (closed : Bool) (msgs : List String)
    → AtEnd p closed msgs
    → AtEnd p true msgs
still_closed ranging closed msgs v = tt
still_closed (sending m) closed msgs v = tt
still_closed finished closed msgs v = (refl, v.1)

module _ {Uuid : Type 0} (new_uuid : ℕ → Uuid) (topic : String) (chan_size : ℕ) where
  abbrev pub Lines : List (Message Uuid) → Phase Uuid → List String → Consuming Uuid → Type 0
  Lines out p msgs c = c.arrived ≡ payloads c.received ++ (payloads out ++ (held p ++ msgs))

  pub record Ordered (c : Consuming Uuid) : Type 0 where
    pub in_order : Lines c.out c.phase c.msgs c
    pub bounded : length c.out ≤ chan_size
    pub ends : AtEnd c.phase c.msgs_closed c.msgs

  range_next-Ordered :
      (msgs : List String) (c : Consuming Uuid)
      → c.phase ≡ ranging
      → c.msgs ≡ msgs
      → Ordered c
      → Ordered (range_next new_uuid topic chan_size msgs c)
  range_next-Ordered [] c p e v = elim (Bool-cases c.msgs_closed) [
    | inl closed ↦ simp closed (record {
      in_order = subst (λ q. Lines c.out q c.msgs c) p v.in_order;
      bounded = v.bounded;
      ends = (refl, e);
    })
    | inr working ↦ simp working v
  ]
  range_next-Ordered (body ∷ bodies) c p e v = record {
    in_order =
        subst (λ q. Lines c.out q (body ∷ bodies) c) p
          (subst (λ l. Lines c.out c.phase l c) e v.in_order);
    bounded = v.bounded;
    ends = tt;
  }

  take_turn-Ordered :
      (p : Phase Uuid) (c : Consuming Uuid)
      → c.phase ≡ p
      → Ordered c
      → Ordered (take_turn new_uuid topic chan_size p c)
  take_turn-Ordered ranging c e v = range_next-Ordered c.msgs c e refl v
  take_turn-Ordered (sending m) c e v = elim (Bool-cases (ltb (length c.out) chan_size)) [
    | inl room ↦ simp room (record {
      in_order =
          subst (λ q. Lines c.out q c.msgs c) e v.in_order
          ∙ ap (λ l. payloads c.received ++ l) (sym (payloads-last c.out m c.msgs));
      bounded = ground (arith, room, length-append c.out (m ∷ []));
      ends = tt;
    })
    | inr full ↦ simp full v
  ]
  take_turn-Ordered finished c e v = v

  meet-Ordered :
      (p : Phase Uuid) (c : Consuming Uuid)
      → c.phase ≡ p
      → c.out ≡ []
      → Ordered c
      → Ordered (meet new_uuid topic chan_size p c)
  meet-Ordered ranging c e o v = v
  meet-Ordered (sending m) c e o v = record {
    in_order =
        subst (λ q. Lines [] q c.msgs c) e (subst (λ l. Lines l c.phase c.msgs c) o v.in_order)
        ∙ sym (payloads-last c.received m c.msgs)
        ∙ ap (λ l. payloads (c.received ++ m ∷ []) ++ (payloads l ++ c.msgs)) (sym o);
    bounded = v.bounded;
    ends = tt;
  }
  meet-Ordered finished c e o v = v

  receive_next-Ordered :
      (out : List (Message Uuid)) (c : Consuming Uuid)
      → c.out ≡ out
      → Ordered c
      → Ordered (receive_next new_uuid topic chan_size out c)
  receive_next-Ordered [] c e v = meet-Ordered c.phase c refl e v
  receive_next-Ordered (m ∷ ms) c e v = record {
    in_order =
        subst (λ l. Lines l c.phase c.msgs c) e v.in_order
        ∙ sym (payloads-last c.received m (payloads ms ++ (held c.phase ++ c.msgs)));
    bounded = let old = v.bounded in ground (arith, e, old);
    ends = v.ends;
  }

  arrive_next-Ordered :
      (closed : Bool) (body : String) (c : Consuming Uuid)
      → c.msgs_closed ≡ closed
      → Ordered c
      → Ordered (arrive_next new_uuid topic chan_size closed body c)
  arrive_next-Ordered true body c e v = v
  arrive_next-Ordered false body c e v = record {
    in_order =
        ap (λ l. l ++ body ∷ []) v.in_order
        ∙ append_assoc (payloads c.received) _ _
        ∙ ap (λ l. payloads c.received ++ l)
            (append_assoc (payloads c.out) _ _
              ∙ ap (λ l. payloads c.out ++ l) (append_assoc (held c.phase) c.msgs (body ∷ [])));
    bounded = v.bounded;
    ends = still_open c.phase c.msgs_closed c.msgs _ e v.ends;
  }

  step-Ordered :
      (s : Step) (c : Consuming Uuid) → Ordered c → Ordered (step new_uuid topic chan_size s c)
  unfolding step
  step-Ordered (arrive body) c v = arrive_next-Ordered c.msgs_closed body c refl v
  step-Ordered close_msgs c v = record {
    in_order = v.in_order;
    bounded = v.bounded;
    ends = still_closed c.phase c.msgs_closed c.msgs v.ends;
  }
  step-Ordered turn c v = take_turn-Ordered c.phase c refl v
  step-Ordered receive c v = receive_next-Ordered c.out c refl v

  run-Ordered :
      (steps : List Step) (c : Consuming Uuid)
      → Ordered c
      → Ordered (run new_uuid topic chan_size steps c)
  unfolding run
  run-Ordered [] c v = v
  run-Ordered (s ∷ steps) c v =
      run-Ordered steps (step new_uuid topic chan_size s c) (unfold step in step-Ordered s c v)

  -- However the library, the goroutine and the receiver interleave: the bodies that arrived are, in
  -- this order, those of the messages that were received, of those in the buffer, the one that is
  -- about to be sent and those in the library's channel; the buffer keeps its size; and the
  -- channel of messages is closed only after the deliveries are at their end, with none left.
  pub run-start-Ordered : (steps : List Step) → Ordered (run new_uuid topic chan_size steps start)
  run-start-Ordered steps =
      run-Ordered steps start (record { in_order = refl; bounded = omega arith; ends = tt })
