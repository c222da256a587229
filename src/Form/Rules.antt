-- ===== src/Form/Rules.antt =====
-- What the forms rely on of the library of rules: each field is checked by its rules in their
-- order, up to the first that fails, and the errors are collected under the names of the fields.
-- The rules of the library are parameters.
use ormus.Prelude.{
  ℕ, String, ◌≡◌, Option, none, some, List, [], ◌∷◌, Exec, Outcome, ok, err, panic, Error, plain,
  return, ◌>>=◌,
}
use ormus.Form.{
  Rule, required, length_between, matches, by_rule, Field, Checked, valid, failed, crashed,
  Validation,
}

pub record Builtins : Type 0 where
  pub check_required : String → Option Error
  pub check_length : ℕ → ℕ → String → Option Error
  pub check_match : String → String → String → Option Error
  pub summary : List (String × Error) → String

abbrev pub or_next : {S : Type 0} → Option Error → Exec S (Option Error) → Exec S (Option Error)
or_next none m = m
or_next (some e) m = return (some e)

abbrev pub after_rule :
    {S : Type 0} → Exec S (Option Error) → Outcome (Unit {0}) × S → Outcome (Option Error) × S
after_rule m (ok _, s) = m s
after_rule m (err e, s) = (ok (some e), s)
after_rule m (panic, s) = (panic, s)

abbrev pub collect : String → Option Error → List (String × Error) → List (String × Error)
collect name none es = es
collect name (some e) es = (name, e) ∷ es

abbrev pub result_of : {S : Type 0} → Builtins → Outcome (List (String × Error)) × S → Checked × S
result_of c (ok [], s) = (valid, s)
result_of c (ok (e ∷ es), s) = (failed (plain (c.summary (e ∷ es))) (some (e ∷ es)), s)
result_of c (err e, s) = (failed e none, s)
result_of c (panic, s) = (crashed, s)

abbrev pub result_of_one : {S : Type 0} → Outcome (Option Error) × S → Checked × S
result_of_one (ok none, s) = (valid, s)
result_of_one (ok (some e), s) = (failed e none, s)
result_of_one (err e, s) = (failed e none, s)
result_of_one (panic, s) = (crashed, s)

module _ {S : Type 0} (c : Builtins) where
  unfoldable pub first_error : String → List (Rule S) → Exec S (Option Error)
  first_error v [] = return none
  first_error v (required ∷ rs) = or_next (c.check_required v) (first_error v rs)
  first_error v (length_between low high ∷ rs) =
      or_next (c.check_length low high v) (first_error v rs)
  first_error v (matches re m ∷ rs) = or_next (c.check_match re m v) (first_error v rs)
  first_error v (by_rule r ∷ rs) = λ s. after_rule (first_error v rs) (r v s)

  unfoldable pub check_fields : List (Field S) → Exec S (List (String × Error))
  unfolding first_error
  check_fields [] = return []
  check_fields (f ∷ fs) = do
    e ← first_error f.value f.rules
    es ← check_fields fs
    return (collect f.name e es)

  pub record Obeys (lib : Validation S) : Type 0 where
    pub struct :
        (fs : List (Field S)) (s : S) → lib.validate_struct fs s ≡ result_of c (check_fields fs s)
    pub value :
        (v : String) (rs : List (Rule S)) (s : S)
        → lib.validate v rs s ≡ result_of_one (first_error v rs s)
