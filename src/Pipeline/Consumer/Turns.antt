-- ===== src/Pipeline/Consumer/Turns.antt =====
-- What a turn of the consumer's reader or of one of its goroutines leaves to do.
use ormus.Prelude.{
  ℕ, ◌+◌, ◌*◌, ◌≤◌, ◌<◌, ◌≡◌, ◌≢◌, refl, ap, ◌∙◌, arith, some, true, false, List, [], ◌∷◌, Outcome,
  ok, err, panic, ltb, length, ◌==◌, Bool-cases, inl, inr, ◌⊎◌, Table, String,
}
use ormus.Prelude.TakeAt.{take_at, take_at-some, take_at-sum, sum}
use ormus.Event.{ProcessedEvent}
use ormus.Pipeline.Consumer.{
  Delivery, message, zero_delivery, Library, Goroutine, starting, sending, acking, Phase, selecting,
  returned, crashed, Consumer, go, get, channel_size, decoded, start, ack_delivery, go_on,
  handed_out, alive, step,
}
use ormus.Pipeline.Consumer.Shutdown.{Consumes}

-- The turns that a goroutine has before it, at most.
abbrev pub turns_left : {Body : Type 0} → Goroutine Body → ℕ
turns_left (starting d) = 3
turns_left (sending d e) = 2
turns_left (acking d) = 1

turn : {Body : Type 0} (g : Goroutine Body) → (1 ≤ turns_left g) × (turns_left g ≤ 3)
turn (starting d) = omega arith
turn (sending d e) = omega arith
turn (acking d) = omega arith

pub no_turns : {Body : Type 0} (gs : List (Goroutine Body)) → sum turns_left gs ≤ 0 → gs ≡ []
no_turns [] h = refl
no_turns (g ∷ gs) h = let (some_left, most) = turn g in let no : ⊥ = omega arith in elim no [ ]

pub turns-most : {Body : Type 0} (gs : List (Goroutine Body)) → sum turns_left gs ≤ 3 * length gs
turns-most [] = omega arith
turns-most (g ∷ gs) = let (least, most) = turn g in let rest = turns-most gs in omega arith

pub empty-or_not : {A : Type 0} (xs : List A) → (xs ≡ []) ⊎ (0 < length xs)
empty-or_not [] = inl refl
empty-or_not (x ∷ xs) = inr (omega arith)

module _ {B Body : Type 0} (lib : Library B Body) (size : Body → ℕ)
    (decode : Body → Outcome ProcessedEvent) (carrier : ProcessedEvent → Table String) where
  abbrev pub all_turns : Consumer B Body → ℕ
  all_turns c = sum turns_left c.goroutines

  -- A turn leaves fewer turns, and takes no delivery.
  abbrev pub Lowers : ℕ → Consumer B Body → Consumer B Body → Type 0
  Lowers n c next = (all_turns next < n) × (next.taken ≡ c.taken)

  decoded-Lowers :
      (d : Delivery Body) (others : List (Goroutine Body)) (o : Outcome ProcessedEvent)
      (c : Consumer B Body)
      → o ≢ panic
      → Lowers (3 + sum turns_left others) c (decoded lib size decode carrier d others o c)
  decoded-Lowers d others (ok e) c h = (omega arith, refl)
  decoded-Lowers d others (err x) c h = (omega arith, refl)
  decoded-Lowers d others panic c h = elim (h refl) [ ]

  start-Lowers :
      (d : Delivery Body) (others : List (Goroutine Body)) (c : Consumer B Body)
      → ((body : Body) → decode body ≢ panic)
      → Lowers (3 + sum turns_left others) c (start lib size decode carrier d others c)
  start-Lowers zero_delivery others c h = (omega arith, refl)
  start-Lowers (message n body) others c h = elim (Bool-cases (size body == 0)) [
    | inl e ↦ rw e (omega arith, refl)
    | inr e ↦ rw e (decoded-Lowers (message n body) others (decode body) c (h body))
  ]

  ack_delivery-Lowers :
      (d : Delivery Body) (others : List (Goroutine Body)) (c : Consumer B Body)
      → Lowers (1 + sum turns_left others) c (ack_delivery lib size decode carrier d others c)
  ack_delivery-Lowers zero_delivery others c = (omega arith, refl)
  ack_delivery-Lowers (message n body) others c = (omega arith, refl)

  go_on-Lowers :
      (g : Goroutine Body) (others : List (Goroutine Body)) (c : Consumer B Body)
      → ((body : Body) → decode body ≢ panic)
      → c.closed ≡ false
      → ltb (length c.events) channel_size ≡ true
      → Lowers
          (turns_left g + sum turns_left others)
          c
          (go_on lib size decode carrier (some (g, others)) c)
  unfolding go_on
  go_on-Lowers (starting d) others c h opened room = start-Lowers d others c h
  go_on-Lowers (sending d e) others c h opened room = simp (opened, room) (omega arith, refl)
  go_on-Lowers (acking d) others c h opened room = ack_delivery-Lowers d others c

  handed_out-Same :
      (es : List ProcessedEvent) (c : Consumer B Body)
      → c.events ≡ es
      → length c.events ≤ channel_size
      → let c' = handed_out lib size decode carrier es c in
        (c'.goroutines ≡ c.goroutines)
        × (c'.taken ≡ c.taken)
        × (ltb (length c'.events) channel_size ≡ true)
  handed_out-Same [] c same full = (refl, refl, rw same refl)
  handed_out-Same (e ∷ es) c same full = (refl, refl, ground (arith, ap length same))

  alive-next :
      (p : Phase) (next c : Consumer B Body)
      → p ≡ selecting
      → alive lib size decode carrier p next c ≡ next
  alive-next selecting next c h = refl
  alive-next returned next c h = refl
  alive-next crashed next c h = cc

  pub get-Same :
      (c : Consumer B Body)
      → c.phase ≡ selecting
      → length c.events ≤ channel_size
      → let c' = step lib size decode carrier get c in
        (c'.goroutines ≡ c.goroutines)
        × (c'.taken ≡ c.taken)
        × (ltb (length c'.events) channel_size ≡ true)
  unfolding step
  get-Same c p full =
      rw (alive-next c.phase (handed_out lib size decode carrier c.events c) c p)
        (handed_out-Same c.events c refl full)

  pub go-Lowers :
      (k : ℕ) (c : Consumer B Body)
      → ((body : Body) → decode body ≢ panic)
      → Consumes lib size decode carrier c
      → ltb (length c.events) channel_size ≡ true
      → k < length c.goroutines
      → Lowers (all_turns c) c (step lib size decode carrier (go k) c)
  unfolding step
  go-Lowers k c h (p, opened) room there =
      let ((g, others), e) = take_at-some k c.goroutines there in
      let whole =
        take_at-sum (sum turns_left) turns_left (λ x xs. refl) k c.goroutines (g, others) e in
      rw
        (
          alive-next c.phase (go_on lib size decode carrier (take_at k c.goroutines) c) c p,
          e,
          whole,
        )
        (go_on-Lowers g others c h opened room)

  pub go-none :
      (k : ℕ) (c : Consumer B Body)
      → c.phase ≡ selecting
      → c.goroutines ≡ []
      → step lib size decode carrier (go k) c ≡ c
  unfolding step take_at go_on
  go-none k c p none_left =
      alive-next c.phase (go_on lib size decode carrier (take_at k c.goroutines) c) c p
      ∙ ap (λ gs. go_on lib size decode carrier (take_at k gs) c) none_left
