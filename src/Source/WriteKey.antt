-- ===== src/Source/WriteKey.antt =====
-- source/service/writekey/service.go. The repository, which is not implemented, is an argument; an
-- error leaves the false beside it out.
use ormus.Prelude.{String, Bool, true, false, Exec, return, ◌>>=◌, if◌then◌else◌}

pub record Repository (S : Type 0) : Type 0 where
  pub is_valid_write_key : String → Exec S Bool

unfoldable pub is_valid : {S : Type 0} → Repository S → String → Exec S Bool
is_valid repo write_key = do
  valid ← repo.is_valid_write_key write_key
  if valid then return true else return false
