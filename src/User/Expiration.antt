-- ===== src/User/Expiration.antt =====
-- How long the tokens last.
use ormus.Prelude.{◌*◌, ◌^◌, ◌<◌, ◌≤◌, ◌≡◌, arith}
use ormus.User.{JwtConfig, new_jwt, nanoseconds_in_day}

-- Up to 106751 days for each of the two, the durations are the days in nanoseconds, and they fit
-- the 63 bits of a positive duration.
pub new_jwt_bounds :
    (cfg : JwtConfig)
    → cfg.access_expiration_time_in_day ≤ 106751
    → cfg.refresh_expiration_time_in_day ≤ 106751
    → let jwt = new_jwt cfg in
      (jwt.access_expiration_time_in_day ≡ cfg.access_expiration_time_in_day * nanoseconds_in_day)
      × (jwt.refresh_expiration_time_in_day
          ≡ cfg.refresh_expiration_time_in_day * nanoseconds_in_day)
      × (jwt.access_expiration_time_in_day < 2 ^ 63)
      × (jwt.refresh_expiration_time_in_day < 2 ^ 63)
unfolding new_jwt
new_jwt_bounds cfg h k = (omega arith, omega arith, omega arith, omega arith)

-- At 106752 days the number has its sign bit set, so that the duration is negative.
pub new_jwt_overflow :
    (cfg : JwtConfig)
    → cfg.access_expiration_time_in_day ≡ 106752
    → 2 ^ 63 ≤ (new_jwt cfg).access_expiration_time_in_day
unfolding new_jwt
new_jwt_overflow cfg h = omega arith
