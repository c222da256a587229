-- ===== src/Channel/Simple/Delivery.antt =====
-- What becomes of the messages of the channel in memory, and of an acknowledgement that comes late.
use ormus.Prelude.{
  ℕ, suc, ◌+◌, ◌≤◌, ◌<◌, ◌≡◌, refl, none, some, List, [], ◌∷◌, ◌++◌, ◌==◌, length, arith,
  if◌then◌else◌, Option-cases, inl, inr,
}
use ormus.Channel.Simple.{
  Attempt, SimpleChannel, Event, send, consume, publish, receive, ack, timeout, stop, new_channel,
  find, remove, start_delivery, consume_input, publish_message, receive_output, acknowledge,
  deliver_again, step, or_same, run,
}

abbrev pub count : ℕ → List ℕ → ℕ
count m [] = 0
count m (x ∷ xs) = let rest = count m xs in if x == m then suc rest else rest

-- How many deliveries of a message still wait.
abbrev pub pending : ℕ → List Attempt → ℕ
pending m [] = 0
pending m (a ∷ as') = let rest = pending m as' in if a.message == m then suc rest else rest

-- Numbers fall along the list and stay under the bound.
abbrev pub Below : ℕ → List Attempt → Type 0
Below n [] = Unit {0}
Below n (a ∷ as') = (a.number < n) × Below a.number as'

pub count-append : (m : ℕ) (xs ys : List ℕ) → count m (xs ++ ys) ≡ count m xs + count m ys
count-append m [] ys = omega arith
count-append m (x ∷ xs) ys = ground (arith, count-append m xs ys)

pending-remove :
    (m n : ℕ) (as' : List Attempt) (a : Attempt)
    → find n as' ≡ some a
    → pending m as'
      ≡ (if a.message == m then suc (pending m (remove n as')) else pending m (remove n as'))
unfolding find remove
pending-remove m n [] a h = cc
pending-remove m n (b ∷ bs) a h = ground (arith, h, pending-remove m n bs a)

Below-mono : {m n : ℕ} (as' : List Attempt) → m ≤ n → Below m as' → Below n as'
Below-mono [] h b = tt
Below-mono (a ∷ as') h b = (omega arith, b.1)

remove-Below : (n k : ℕ) (as' : List Attempt) → Below k as' → Below k (remove n as')
unfolding remove
remove-Below n k [] b = tt
remove-Below n k (a ∷ as') b =
    ground (arith, remove-Below n a.number as' b.1, Below-mono {m = a.number} {n = k} as')

find_above : (n k : ℕ) (as' : List Attempt) → Below k as' → k ≤ n → find n as' ≡ none
unfolding find
find_above n k [] b h = refl
find_above n k (a ∷ as') b h = ground (arith, find_above n a.number as' b.1)

find-remove : (n k : ℕ) (as' : List Attempt) → Below k as' → find n (remove n as') ≡ none
unfolding find remove
find-remove n k [] b = refl
find-remove n k (a ∷ as') b =
    ground (arith, find_above n a.number as' b.1, find-remove n a.number as' b.1)

find_bound :
    (n k : ℕ) (as' : List Attempt) (a : Attempt) → Below k as' → find n as' ≡ some a → n < k
unfolding find
find_bound n k [] a b h = cc
find_bound n k (x ∷ xs) a b h = ground (arith, h, find_bound n x.number xs a b.1)

pub record Inv (c : SimpleChannel) : Type 0 where
  -- What was sent is in the input, waits for an acknowledgement, or has one.
  pub kept :
      (m : ℕ) → count m c.sent ≡ count m c.input_channel + pending m c.waiting + count m c.acked
  pub fresh : Below c.next c.waiting
  pub input_bounded : length c.input_channel ≤ c.buffer_size
  pub output_bounded : length c.output_channel ≤ c.buffer_size

length-append-one : (xs : List ℕ) (x : ℕ) → length (xs ++ x ∷ []) ≡ length xs + 1
length-append-one [] x = omega arith
length-append-one (y ∷ xs) x = omega (arith, length-append-one xs x)

after_step : SimpleChannel → Event → SimpleChannel
after_step c e = or_same c (step c e)

step-kept :
    (c : SimpleChannel) (e : Event) (m : ℕ)
    → count m c.sent ≡ count m c.input_channel + pending m c.waiting + count m c.acked
    → let d = after_step c e in
      count m d.sent ≡ count m d.input_channel + pending m d.waiting + count m d.acked
unfolding after_step step consume_input publish_message receive_output acknowledge deliver_again
    start_delivery
step-kept c (send x) m v = ground (arith, count-append m c.input_channel (x ∷ []))
step-kept c consume m v = ground arith
step-kept c (publish n) m v = ground arith
step-kept c receive m v = ground arith
step-kept c (ack n) m v = elim (Option-cases (find n c.waiting)) [
  | inl e ↦ ground (arith, e)
  | inr (a, e) ↦ ground (arith, e, pending-remove m n c.waiting a e)
]
step-kept c (timeout n) m v = elim (Option-cases (find n c.waiting)) [
  | inl e ↦ ground (arith, e)
  | inr (a, e) ↦ ground (arith, e, pending-remove m n c.waiting a e)
]
step-kept c stop m v = ground arith

step-fresh :
    (c : SimpleChannel) (e : Event)
    → Below c.next c.waiting
    → Below (after_step c e).next (after_step c e).waiting
unfolding after_step step consume_input publish_message receive_output acknowledge deliver_again
    start_delivery
step-fresh c (send x) v = ground arith
step-fresh c consume v = ground arith
step-fresh c (publish n) v = ground arith
step-fresh c receive v = ground arith
step-fresh c (ack n) v = ground (arith, remove-Below n c.next c.waiting v)
step-fresh c (timeout n) v = ground (arith, remove-Below n c.next c.waiting v)
step-fresh c stop v = ground arith

length-append-attempt : (xs : List Attempt) (x : Attempt) → length (xs ++ x ∷ []) ≡ length xs + 1
length-append-attempt [] x = omega arith
length-append-attempt (y ∷ xs) x = omega (arith, length-append-attempt xs x)

step-bounds :
    (c : SimpleChannel) (e : Event)
    → length c.input_channel ≤ c.buffer_size
    → length c.output_channel ≤ c.buffer_size
    → let d = after_step c e in
      (length d.input_channel ≤ d.buffer_size) × (length d.output_channel ≤ d.buffer_size)
unfolding after_step step consume_input publish_message receive_output acknowledge deliver_again
    start_delivery
step-bounds c (send x) v w = ground (arith, length-append-one c.input_channel x)
step-bounds c consume v w = ground arith
step-bounds c (publish n) v w = elim (Option-cases (find n c.publishing)) [
  | inl e ↦ ground (arith, e)
  | inr (a, e) ↦ ground (arith, e, length-append-attempt c.output_channel a)
]
step-bounds c receive v w = ground arith
step-bounds c (ack n) v w = ground arith
step-bounds c (timeout n) v w = ground arith
step-bounds c stop v w = ground arith

step-Inv : (c : SimpleChannel) (e : Event) → Inv c → Inv (after_step c e)
step-Inv c e v = record {
  kept = λ m. step-kept c e m (v.kept m);
  fresh = step-fresh c e v.fresh;
  input_bounded = (step-bounds c e v.input_bounded v.output_bounded).0;
  output_bounded = (step-bounds c e v.input_bounded v.output_bounded).1;
}

run-Inv : (c : SimpleChannel) (es : List Event) → Inv c → Inv (run c es)
unfolding run after_step
run-Inv c [] v = v
run-Inv c (e ∷ es) v = run-Inv (or_same c (step c e)) es (step-Inv c e v)

-- Under every schedule of the goroutines, the receivers and the timers, from a new channel on: each
-- message is as often in the input, waiting in a delivery or acknowledged as it was sent, so none is
-- lost and none acknowledged more often than sent; the deliveries that wait have numbers of their
-- own; and neither buffer holds more than its size.
pub run-new_channel-Inv :
    (size instants : ℕ) (es : List Event) → Inv (run (new_channel size instants) es)
unfolding new_channel
run-new_channel-Inv size instants es = run-Inv _ es (record {
  kept = λ m. refl;
  fresh = tt;
  input_bounded = omega arith;
  output_bounded = omega arith;
})

timeout_step :
    (c : SimpleChannel) (n : ℕ) (a : Attempt)
    → find n c.waiting ≡ some a
    → step c (timeout n)
      ≡ some (start_delivery a.message (record c { waiting = remove n c.waiting }))
unfolding step deliver_again
timeout_step c n a w = ground (arith, w)

ack_step :
    (c : SimpleChannel) (n : ℕ) (a : Attempt)
    → find n c.received ≡ some a
    → find n c.waiting ≡ none
    → step c (ack n) ≡ some (record c { blocked = n ∷ c.blocked })
unfolding step acknowledge
ack_step c n a r w = ground (arith, r, w)

-- An acknowledgement after the timer: the call of `Ack` blocks for good, the message is not
-- acknowledged, and the next delivery of it waits.
pub late_ack :
    (c : SimpleChannel) (n : ℕ) (a : Attempt)
    → Inv c
    → find n c.waiting ≡ some a
    → find n c.received ≡ some a
    → let t = run c (timeout n ∷ ack n ∷ []) in
      (t.acked ≡ c.acked)
      × (t.blocked ≡ n ∷ c.blocked)
      × (pending a.message t.waiting ≡ pending a.message c.waiting)
      × (find c.next t.waiting ≡ some (record { number = c.next; message = a.message }))
unfolding run start_delivery find
late_ack c n a v w r =
    let d : SimpleChannel = start_delivery a.message (record c { waiting = remove n c.waiting }) in
    let gone : find n d.waiting ≡ none =
      ground (
        arith,
        find-remove n c.next c.waiting v.fresh,
        find_bound n c.next c.waiting a v.fresh w,
      ) in
    rw (timeout_step c n a w, ack_step d n a r gone)
      (refl, refl, ground (arith, pending-remove a.message n c.waiting a w), ground arith)
