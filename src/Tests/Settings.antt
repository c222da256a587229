-- ===== src/Tests/Settings.antt =====
-- A koanf for one value, the key of the tokens, with no file and one variable of the environment.
use ormus.Prelude.{
  String, ◌≡◌, refl, Option, none, some, Error, ok, plain, concat, if◌then◌else◌, str_eq,
  Bool-cases, inl, inr,
}
use ormus.Settings.{
  Config, Options, Strings, Provider, of_struct, of_file, of_env, Library, default_config,
  load_layers, init, new_config,
}
use ormus.Settings.Layers.{IsKoanf, layered, default_options, new_config-layered, over}

abbrev path : String
path = "manager.jwt_config.secret_key"

abbrev Settings : Type 0
Settings = Config (Unit {0})

abbrev given : Provider Settings → Option String
given (of_struct c) = some c.manager.jwt_config.secret_key
given (of_file f) = none
given (of_env prefix delimiter callback) = some "from the environment"

abbrev refused : Provider Settings → Option Error
refused (of_struct c) = none
refused (of_file f) = some (plain "no such file")
refused (of_env prefix delimiter callback) = none

abbrev with_secret : Option String → Settings → Settings
with_secret none c = c
with_secret (some secret) c = record c {
  manager = record c.manager { jwt_config = record c.manager.jwt_config { secret_key = secret } };
}

abbrev lib : Library (Option String) Settings
lib = record {
  new = λ d. none;
  load = λ r k. (refused r, over (given r) k);
  unmarshal = λ k c. (none, with_secret k c);
}

abbrev at_path : String → Option String → Option String
at_path p o = if str_eq p path then o else none

at_path-over :
    (p : String) (a b : Option String) → at_path p (over a b) ≡ over (at_path p a) (at_path p b)
at_path-over p a b = elim (Bool-cases (str_eq p path)) [ inl h ↦ rw h refl | inr h ↦ rw h refl ]

load_failed :
    (r : Provider Settings) (k : Option String) (e : Error)
    → refused r ≡ some e
    → over (given r) k ≡ k
load_failed (of_struct c) k e h = cc
load_failed (of_file f) k e h = refl
load_failed (of_env prefix delimiter callback) k e h = cc

with_secret-over :
    (k : Option String) (c : Settings)
    → some (with_secret k c).manager.jwt_config.secret_key
      ≡ over k (some c.manager.jwt_config.secret_key)
with_secret-over none c = refl
with_secret-over (some v) c = refl

lib-IsKoanf : IsKoanf String lib
lib-IsKoanf = record {
  value = λ k p. at_path p k;
  field = λ c p. at_path p (some c.manager.jwt_config.secret_key);
  provides = λ r p. at_path p (given r);
  new_value = λ d p. elim (Bool-cases (str_eq p path)) [ inl h ↦ rw h refl | inr h ↦ rw h refl ];
  load_over = λ r k p h. at_path-over p (given r) k;
  load_failed = λ r k p e h. rw (load_failed r k e h) refl;
  unmarshal_over = λ k c p h. rw (with_secret-over k c) (at_path-over p k _);
}

-- Functions on texts that leave them as they are but for the last argument.
abbrev strings : Strings
strings = record {
  to_lower = λ s. s;
  trim_prefix = λ s p. s;
  replace_all = λ s old new. concat s new;
}

abbrev options : Options
options = record {
  prefix = "TEST_";
  delimiter = ".";
  separator = "__";
  yaml_file_path = "test.yml";
  callback_env = λ s. s;
}

abbrev before : Settings
before = default_config tt 1

init_ok : (init lib tt 1 strings before).0 ≡ ok tt
unfolding init load_layers
init_ok = refl

abbrev started : Settings
started = (init lib tt 1 strings before).1

new_ok : (new_config lib tt 1 options started).0 ≡ ok (new_config lib tt 1 options started).1
unfolding init new_config load_layers
new_ok = refl

new_config-layered_example :
    let c1 = started in
    let r = new_config lib tt 1 options c1 in
    (lib-IsKoanf.field c1 path
      ≡ layered String lib tt 1 lib-IsKoanf (default_options strings) before path)
    × (lib-IsKoanf.field r.1 path ≡ layered String lib tt 1 lib-IsKoanf options c1 path)
    × (r.1 ≡ r.1)
new_config-layered_example =
    new_config-layered String lib tt 1 lib-IsKoanf strings options before
      (new_config lib tt 1 options started).1 path init_ok new_ok
