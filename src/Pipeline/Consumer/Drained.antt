-- ===== src/Pipeline/Consumer/Drained.antt =====
-- That the consumer's goroutines come to their end, while its events are read.
use ormus.Prelude.{
  ℕ, zero, suc, ◌+◌, ◌*◌, ◌≤◌, ◌<◌, ◌≡◌, ◌≢◌, refl, ap, ◌∙◌, arith, Bool, false, List, [], Outcome,
  panic, length, inl, inr, Table, String,
}
use ormus.Prelude.TakeAt.{sum, count, All}
use ormus.Event.{ProcessedEvent}
use ormus.Pipeline.Consumer.{Delivery, Library, Consumer, Step, go, get, new_consumer, step, run}
use ormus.Pipeline.Consumer.Invariant.{Kept, event_of, weight}
use ormus.Pipeline.Consumer.Kept.{step-Kept, run-new_consumer-Kept}
use ormus.Pipeline.Consumer.Shutdown.{Consumes, is_stop, step-Consumes, run-new_consumer-Consumes}
use ormus.Pipeline.Consumer.Turns.{
  turns_left, no_turns, turns-most, empty-or_not, all_turns, Lowers, get-Same, go-Lowers, go-none,
}

module _ {B Body : Type 0} (lib : Library B Body) (size : Body → ℕ)
    (decode : Body → Outcome ProcessedEvent) (carrier : ProcessedEvent → Table String) where
  -- One turn of the reader and one of the goroutine that the scheduler picks.
  abbrev pub round : (Consumer B Body → ℕ) → Consumer B Body → Consumer B Body
  round pick c =
      let c' = step lib size decode carrier get c in step lib size decode carrier (go (pick c')) c'

  unfoldable pub rounds : (Consumer B Body → ℕ) → ℕ → Consumer B Body → Consumer B Body
  rounds pick zero c = c
  rounds pick (suc n) c = rounds pick n (round pick c)

  -- While there is a goroutine, the scheduler picks one.
  abbrev pub PicksOne : (Consumer B Body → ℕ) → Type 0
  PicksOne pick = (c : Consumer B Body) → 0 < length c.goroutines → pick c < length c.goroutines

  -- What holds between the rounds.
  record Runs (c : Consumer B Body) : Type 0 where
    kept : Kept lib size decode carrier c
    consumes : Consumes lib size decode carrier c

  step-Runs :
      (s : Step B) (c : Consumer B Body)
      → ((body : Body) → decode body ≢ panic)
      → is_stop s ≡ false
      → Runs c
      → Runs (step lib size decode carrier s c)
  step-Runs s c h q v = record {
    kept = step-Kept lib size decode carrier s c v.kept;
    consumes = step-Consumes lib size decode carrier s c h q v.consumes;
  }

  round-Runs :
      (pick : Consumer B Body → ℕ) (c : Consumer B Body)
      → ((body : Body) → decode body ≢ panic)
      → Runs c
      → Runs (round pick c)
  round-Runs pick c h v =
      let c' = step lib size decode carrier get c in
      step-Runs (go (pick c')) c' h refl (step-Runs get c h refl v)

  round-Lowers :
      (pick : Consumer B Body → ℕ) (c : Consumer B Body)
      → ((body : Body) → decode body ≢ panic)
      → PicksOne pick
      → Runs c
      → 0 < length c.goroutines
      → Lowers lib size decode carrier (all_turns lib size decode carrier c) c (round pick c)
  round-Lowers pick c h picks v some_left =
      let c' = step lib size decode carrier get c in
      let (same, taken, room) = get-Same lib size decode carrier c v.consumes.0 v.kept.bounded in
      let w = step-Runs get c h refl v in
      let there = picks c' (rw same some_left) in
      let (lower, rest) = go-Lowers lib size decode carrier (pick c') c' h w.consumes room there in
      let turns : all_turns lib size decode carrier c' ≡ all_turns lib size decode carrier c =
        ap (sum turns_left) same in
      (omega arith, rest ∙ taken)

  -- A round lowers the turns by one, or there are none.
  round-lower :
      (pick : Consumer B Body → ℕ) (n : ℕ) (c : Consumer B Body)
      → ((body : Body) → decode body ≢ panic)
      → PicksOne pick
      → Runs c
      → all_turns lib size decode carrier c ≤ suc n
      → (all_turns lib size decode carrier (round pick c) ≤ n) × ((round pick c).taken ≡ c.taken)
  round-lower pick n c h picks v enough = elim (empty-or_not c.goroutines) [
    | inl none_left ↦
        let c' = step lib size decode carrier get c in
        let (same, taken, room) = get-Same lib size decode carrier c v.consumes.0 v.kept.bounded in
        let w = step-Runs get c h refl v in
        let none_then = same ∙ none_left in
        rw (go-none lib size decode carrier (pick c') c' w.consumes.0 none_then)
          (let turns = ap (sum turns_left) none_then in omega arith, taken)
    | inr some_left ↦
        let (lower, taken) = round-Lowers pick c h picks v some_left in (omega arith, taken)
  ]

  rounds-Drained :
      (pick : Consumer B Body → ℕ) (n : ℕ) (c : Consumer B Body)
      → ((body : Body) → decode body ≢ panic)
      → PicksOne pick
      → all_turns lib size decode carrier c ≤ n
      → Runs c
      → let c' = rounds pick n c in (c'.goroutines ≡ []) × (c'.taken ≡ c.taken) × Runs c'
  unfolding rounds
  rounds-Drained pick zero c h picks enough v = (no_turns c.goroutines enough, refl, v)
  rounds-Drained pick (suc n) c h picks enough v =
      let (fewer, taken) = round-lower pick n c h picks v enough in
      let (none_left, rest, w) =
        rounds-Drained pick n (round pick c) h picks fewer (round-Runs pick c h v) in
      (none_left, rest ∙ taken, w)

  -- From wherever goroutines, reader and broker have led the consumer before its shutdown, where no
  -- message makes the decoding panic: if the reader goes on to read, then after three rounds for
  -- each goroutine there is, whichever goroutine the scheduler picks in each, none is left; each
  -- delivery that was taken, as often as it was taken, has been dropped, as it carries no event, or
  -- acknowledged; and the loop still runs.
  pub run-new_consumer-Drained :
      (steps : List (Step B)) (b : B) (pick : Consumer B Body → ℕ)
      → ((body : Body) → decode body ≢ panic)
      → All (λ s. is_stop s ≡ false) steps
      → PicksOne pick
      → let c = run lib size decode carrier steps (new_consumer b) in
        let c' = rounds pick (3 * length c.goroutines) c in
        (c'.goroutines ≡ [])
        × (c'.taken ≡ c.taken)
        × ((a : Delivery Body → Bool) → count a c.taken ≡ count a c'.dropped + count a c'.acked)
        × All (λ d. event_of lib size decode carrier d ≡ []) c'.dropped
        × Consumes lib size decode carrier c'
  run-new_consumer-Drained steps b pick h before picks =
      let c = run lib size decode carrier steps (new_consumer b) in
      let v : Runs c = record {
        kept = run-new_consumer-Kept lib size decode carrier steps b;
        consumes = run-new_consumer-Consumes lib size decode carrier steps b h before;
      } in
      let (none_left, taken, w) =
        rounds-Drained pick (3 * length c.goroutines) c h picks (turns-most c.goroutines) v in
      (
        none_left,
        taken,
        λ a.
            let each = w.kept.each a in
            let none_waits = ap (sum (weight lib size decode carrier a)) none_left in
            let same = ap (count a) taken in omega arith,
        w.kept.left,
        w.consumes,
      )
