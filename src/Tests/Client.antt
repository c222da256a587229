-- ===== src/Tests/Client.antt =====
-- The command line client over one file, on a network where nothing answers.
use ormus.Prelude.{
  String, ◌≡◌, ◌≢◌, refl, sym, ap, ◌∙◌, Option, none, some, Bool, true, false, [], ok, err, plain,
  str_eq, String-cases, inl, inr, Outcome, if◌then◌else◌,
}
use ormus.Cli.{Config, System, State, store_config, set_config, get_config, new_client}
use ormus.Cli.Session.{Keeps, new_client-set_config}

-- The one configuration that has a text here.
abbrev changed : Config
changed = record { token = "t2"; base_url = "http://localhost" }

abbrev marshal : Config → Outcome String
marshal c =
    if str_eq c.token "t2"
    then if str_eq c.base_url "http://localhost" then ok "{t2}" else err (plain "marshal")
    else err (plain "marshal")

abbrev file_exists : Option String → Bool
file_exists none = false
file_exists (some j) = true

abbrev read_all : Option String → Outcome String × Option String
read_all none = (err (plain "no file"), none)
read_all (some j) = (ok j, some j)

abbrev one_file : System (Option String)
one_file = record {
  file_exists = file_exists;
  truncate = λ f. (ok tt, some "");
  write = λ j f. (ok tt, some j);
  read_all = read_all;
  marshal = marshal;
  unmarshal = λ j. ok changed;
  unmarshal_table = λ j. ok [];
  unmarshal_token = λ j. ok "t2";
  new_request = λ r. ok tt;
  do_request = λ r f. (err (plain "no route"), f);
}

reads_back : (c : Config) (j : String) → marshal c ≡ ok j → one_file.unmarshal j ≡ ok c
reads_back c j h = elim (String-cases c.token "t2") [
  | inl (p, a) ↦ elim (String-cases c.base_url "http://localhost") [
    | inl (q, b) ↦
        ap (λ t. ok (record { token = t; base_url = "http://localhost" })) (sym p)
        ∙ ap (λ u. ok (record { token = c.token; base_url = u })) (sym q)
    | inr (q, b) ↦ let h' = rw (a, b) at h in cc
  ]
  | inr (p, a) ↦ let h' = rw a at h in cc
]

one_file-Keeps : Keeps one_file
one_file-Keeps = record {
  exists = λ j s t w. refl;
  reads = λ j s t w. refl;
  round_trip = reads_back;
}

abbrev started : State (Option String)
started = record { config = record { token = "t1"; base_url = "http://localhost" }; system = none }

sets : (set_config one_file "token" "t2" started).0 ≡ ok tt
unfolding set_config store_config
sets = refl

new_client-set_config_example :
    let n = new_client one_file (set_config one_file "token" "t2" started).1.system in
    (n.0 ≡ ok tt)
    × (get_config one_file "token" n.1 ≡ ok "t2")
    × ((other : String)
        → other ≢ "token"
        → get_config one_file other n.1 ≡ get_config one_file other started)
new_client-set_config_example =
    new_client-set_config one_file "token" "t2" started one_file-Keeps sets
