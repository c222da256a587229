-- ===== src/Channel/Retry.antt =====
-- `publishToRabbitmq` of pkg/channel/adapter/rabbitmq/channel.go. One call of `PublishWithContext`
-- is a parameter, with the broker's state; each round is a goroutine of its own, which sleeps first
-- and starts the next. The fuel counts the calls: `tries` runs from 0 to one past the policy, so
-- `max_retry_policy + 2` of it is enough.
use ormus.Prelude.{
  ℕ, zero, suc, ◌+◌, ◌*◌, ◌≤◌, ◌<◌, Option, none, some, ◌≡◌, ◌≢◌, refl, Error, arith, ltb,
  if◌then◌else◌,
}

pub data Ended : Type 0 where
  delivered : Ended
  gave_up : ℕ → Ended
  out_of_fuel : Ended

-- How the message ended, the broker's state, the number of publications and the seconds slept.
pub record Published (B : Type 0) : Type 0 where
  pub ended : Ended
  pub broker : B
  pub calls : ℕ
  pub slept : ℕ

abbrev pub retries_to_time_ratio : ℕ
retries_to_time_ratio = 2

module _ {B : Type 0} (publish : B → Option Error × B) (max_retry_policy : ℕ) where
  abbrev pub one_more : ℕ → Published B → Published B
  one_more tries p = record p {
    calls = suc p.calls;
    slept = tries * retries_to_time_ratio + p.slept;
  }

  abbrev pub after_call : ℕ → Option Error × B → Published B → Published B
  after_call tries (none, b) next = record {
    ended = delivered;
    broker = b;
    calls = 1;
    slept = tries * retries_to_time_ratio;
  }
  after_call tries (some e, b) next = one_more tries next

  unfoldable pub publish_to_rabbitmq : ℕ → ℕ → B → Published B
  publish_to_rabbitmq zero tries b = record {
    ended = out_of_fuel;
    broker = b;
    calls = 0;
    slept = 0;
  }
  publish_to_rabbitmq (suc fuel) tries b =
      let next = publish_to_rabbitmq fuel (tries + 1) (publish b).1 in
      if ltb max_retry_policy tries
      then record { ended = gave_up tries; broker = b; calls = 0; slept = 0 }
      else after_call tries (publish b) next

  -- The broker's state after some publications.
  abbrev pub after : ℕ → B → B
  after zero b = b
  after (suc n) b = after n (publish b).1

  abbrev pub Fails : B → Type 0
  Fails b = (publish b).0 ≢ none

  abbrev pub FailsFor : ℕ → B → Type 0
  FailsFor zero b = Unit
  FailsFor (suc n) b = Fails b × FailsFor n (publish b).1

  -- The seconds that rounds from one number of tries on sleep.
  abbrev seconds : ℕ → ℕ → ℕ
  seconds tries zero = 0
  seconds tries (suc n) = tries * 2 + seconds (tries + 1) n

  seconds_closed : (tries n : ℕ) → seconds tries n + n ≡ n * (2 * tries + n)
  seconds_closed tries zero = omega arith
  seconds_closed tries (suc n) = omega (arith, seconds_closed (tries + 1) n)

  delivers_from :
      (k fuel tries : ℕ) (b : B)
      → tries + k ≤ max_retry_policy
      → k < fuel
      → FailsFor k b
      → (publish (after k b)).0 ≡ none
      → publish_to_rabbitmq fuel tries b ≡ record {
        ended = delivered;
        broker = after (suc k) b;
        calls = suc k;
        slept = seconds tries (suc k);
      }
  unfolding publish_to_rabbitmq
  delivers_from zero zero tries b h f x g = absurd (omega arith)
  delivers_from zero (suc fuel) tries b h f x g = ground arith
  delivers_from (suc k) zero tries b h f x g = absurd (omega arith)
  delivers_from (suc k) (suc fuel) tries b h f x g =
      ground (arith, delivers_from k fuel (tries + 1) (publish b).1)

  gives_up_from :
      (k fuel tries : ℕ) (b : B)
      → tries + k ≡ max_retry_policy + 1
      → k < fuel
      → FailsFor k b
      → publish_to_rabbitmq fuel tries b ≡ record {
        ended = gave_up (max_retry_policy + 1);
        broker = after k b;
        calls = k;
        slept = seconds tries k;
      }
  unfolding publish_to_rabbitmq
  gives_up_from zero zero tries b h f x = absurd (omega arith)
  gives_up_from zero (suc fuel) tries b h f x = ground arith
  gives_up_from (suc k) zero tries b h f x = absurd (omega arith)
  gives_up_from (suc k) (suc fuel) tries b h f x =
      ground (arith, gives_up_from k fuel (tries + 1) (publish b).1)

  bounded_from :
      (fuel tries : ℕ) (b : B)
      → tries ≤ max_retry_policy + 1
      → max_retry_policy + 1 < fuel + tries
      → ((publish_to_rabbitmq fuel tries b).ended ≢ out_of_fuel)
        × ((publish_to_rabbitmq fuel tries b).calls + tries ≤ max_retry_policy + 1)
  unfolding publish_to_rabbitmq
  bounded_from zero tries b h f = absurd (omega arith)
  bounded_from (suc fuel) tries b h f = ground (arith, bounded_from fuel (tries + 1) (publish b).1)

  -- Whatever the broker answers, the retries come to an end, by a delivery or by giving up, with at
  -- most one publication more than the policy has retries.
  pub publish_to_rabbitmq_ends :
      (b : B)
      → let r = publish_to_rabbitmq (max_retry_policy + 2) 0 b in
        (r.ended ≢ out_of_fuel) × (r.calls ≤ max_retry_policy + 1)
  publish_to_rabbitmq_ends b =
      let h = bounded_from (max_retry_policy + 2) 0 b (omega arith) (omega arith) in
      (h.0, omega arith)

  -- A message is delivered by the first publication that succeeds, if one of the first
  -- `max_retry_policy + 1` does: after k failures with k + 1 publications, in k * (k + 1) seconds. It
  -- is given up, unpublished, exactly after that many failures.
  pub publish_to_rabbitmq_lem :
      (b : B)
      → let r = publish_to_rabbitmq (max_retry_policy + 2) 0 b in
        ((k : ℕ)
          → k ≤ max_retry_policy
          → FailsFor k b
          → (publish (after k b)).0 ≡ none
          → (r.ended ≡ delivered)
            × (r.broker ≡ after (suc k) b)
            × (r.calls ≡ k + 1)
            × (r.slept ≡ k * (k + 1)))
        × (FailsFor (max_retry_policy + 1) b
            → (r.ended ≡ gave_up (max_retry_policy + 1))
              × (r.broker ≡ after (max_retry_policy + 1) b)
              × (r.calls ≡ max_retry_policy + 1)
              × (r.slept ≡ max_retry_policy * (max_retry_policy + 1)))
  publish_to_rabbitmq_lem b = (
    λ k h x g.
        let e = delivers_from k (max_retry_policy + 2) 0 b (omega arith) (omega arith) x g in
        rw e (refl, refl, omega arith, omega (arith, seconds_closed 0 (suc k))),
    λ x.
        let m = max_retry_policy in
        let e = gives_up_from (m + 1) (m + 2) 0 b (omega arith) (omega arith) x in
        rw e (refl, refl, refl, omega (arith, seconds_closed 0 (m + 1))),
  )
