-- ===== src/Settings/Layers.antt =====
-- Which layer a value of the configuration comes from.
use ormus.Prelude.{
  ℕ, String, ◌≡◌, refl, ap, sym, ◌∙◌, ◌^◌, ◌≤◌, arith, Option, none, some, Error, Outcome, ok, err,
  panic, Option-cases, ok-injective, and_then-eq-ok, inl, inr,
}
use ormus.Database as Database
use ormus.Database.{new_storage_adapter}
use ormus.User.{JwtConfig, new_jwt}
use ormus.Settings.{
  Config, Options, Strings, Provider, of_struct, of_file, of_env, Library, default_config,
  default_callback_env, default_prefix, default_delimiter, default_yaml_file_path, or_fatal,
  load_layers, unmarshal_into, init, new_config,
}

-- The first that is there.
abbrev pub over : {V : Type 0} → Option V → Option V → Option V
over (some v) o = some v
over none o = o

over-layers :
    {V : Type 0} (a b c d : Option V)
    → over (over a (over b (over c none))) d ≡ over a (over b (over c d))
over-layers (some v) b c d = refl
over-layers none (some v) c d = refl
over-layers none none (some v) d = refl
over-layers none none none d = refl

-- What a provider gives, if it loads.
abbrev pub from_load : {V : Type 0} → Option Error → Option V → Option V
from_load none o = o
from_load (some e) o = none

abbrev pub default_options : Strings → Options
default_options strings = record {
  prefix = default_prefix;
  delimiter = default_delimiter;
  separator = default_delimiter;
  yaml_file_path = default_yaml_file_path;
  callback_env = default_callback_env strings;
}

module _ {K Rest : Type 0} (V : Type 0) (lib : Library K (Config Rest)) where
  -- What koanf documents, on the values at paths: a provider that loads comes over what is there, one
  -- that does not changes nothing, and what is there comes over the configuration it is unmarshalled
  -- into.
  pub record IsKoanf : Type 0 where
    pub value : K → String → Option V
    pub field : Config Rest → String → Option V
    pub provides : Provider (Config Rest) → String → Option V
    pub new_value : (d p : String) → value (lib.new d) p ≡ none
    pub load_over :
        (r : Provider (Config Rest)) (k : K) (p : String)
        → (lib.load r k).0 ≡ none
        → value (lib.load r k).1 p ≡ over (provides r p) (value k p)
    pub load_failed :
        (r : Provider (Config Rest)) (k : K) (p : String) (e : Error)
        → (lib.load r k).0 ≡ some e
        → value (lib.load r k).1 p ≡ value k p
    pub unmarshal_over :
        (k : K) (c : Config Rest) (p : String)
        → (lib.unmarshal k c).0 ≡ none
        → field (lib.unmarshal k c).1 p ≡ over (value k p) (field c p)

  module _ (zero_rest : Rest) (gocql_one : ℕ) (d : IsKoanf) where
    load-value :
        (r : Provider (Config Rest)) (k : K) (p : String)
        → d.value (lib.load r k).1 p
          ≡ over (from_load (lib.load r k).0 (d.provides r p)) (d.value k p)
    load-value r k p = elim (Option-cases (lib.load r k).0) [
      | inl h ↦ rw h (d.load_over r k p h)
      | inr (e, h) ↦ rw h (d.load_failed r k p e h)
    ]

    -- What the layers say of a path: the environment, else the file, else the default, else what the
    -- configuration said before. A layer that does not load says nothing.
    abbrev pub layered : Options → Config Rest → String → Option V
    layered opt c p =
        let default = of_struct (default_config zero_rest gocql_one) in
        let k = (lib.load default (lib.new opt.separator)).1 in
        let file = of_file opt.yaml_file_path in
        let env = of_env opt.prefix opt.delimiter opt.callback_env in
        over (from_load (lib.load env (lib.load file k).1).0 (d.provides env p)) (
          over (from_load (lib.load file k).0 (d.provides file p))
            (over (d.provides default p) (d.field c p)))

    or_fatal-ok :
        {A : Type 0} (e : Option Error) (a b : A)
        → or_fatal lib zero_rest gocql_one e a ≡ ok b
        → (e ≡ none) × (a ≡ b)
    or_fatal-ok none a b h = (refl, ok-injective h)
    or_fatal-ok (some e) a b h = cc

    unmarshal_into-ok :
        (o : Outcome K) (c : Config Rest)
        → (unmarshal_into lib zero_rest gocql_one o c).0 ≡ ok tt
        → (k : K) × (o ≡ ok k)
          × ((unmarshal_into lib zero_rest gocql_one o c).1 ≡ (lib.unmarshal k c).1)
          × ((lib.unmarshal k c).0 ≡ none)
    unmarshal_into-ok (ok k) c h = (k, refl, refl, (or_fatal-ok _ tt tt h).0)
    unmarshal_into-ok (err x) c h = cc
    unmarshal_into-ok panic c h = cc

    load_layers-layered :
        (opt : Options) (c : Config Rest) (p : String)
        → (unmarshal_into lib zero_rest gocql_one (load_layers lib zero_rest gocql_one opt) c).0
          ≡ ok tt
        → d.field
            (unmarshal_into lib zero_rest gocql_one (load_layers lib zero_rest gocql_one opt) c).1
            p
          ≡ layered opt c p
    unfolding load_layers
    load_layers-layered opt c p h =
        let default = of_struct (default_config zero_rest gocql_one) in
        let first = lib.load default (lib.new opt.separator) in
        let file = lib.load (of_file opt.yaml_file_path) first.1 in
        let env = of_env opt.prefix opt.delimiter opt.callback_env in
        let (k, made, state, unmarshalled) = unmarshal_into-ok _ c h in
        let (fine, same) = or_fatal-ok first.0 _ k made in
        let given : (e : Option Error)
            → e ≡ none
            → from_load e (d.provides default p) ≡ d.provides default p =
          λ e q. ap (λ e'. from_load e' (d.provides default p)) q in
        let at_default : d.value first.1 p ≡ over (d.provides default p) none =
          load-value default (lib.new opt.separator) p
          ∙ ap (λ o. over o (d.value (lib.new opt.separator) p)) (given first.0 fine)
          ∙ ap (over (d.provides default p)) (d.new_value opt.separator p) in
        let from_file = from_load file.0 (d.provides (of_file opt.yaml_file_path) p) in
        let from_env = from_load (lib.load env file.1).0 (d.provides env p) in
        let at_file =
          load-value (of_file opt.yaml_file_path) first.1 p ∙ ap (over from_file) at_default in
        let at_env = load-value env file.1 p ∙ ap (over from_env) at_file in
        ap (λ c'. d.field c' p) state
        ∙ d.unmarshal_over k c p unmarshalled
        ∙ ap (λ k'. over (d.value k' p) (d.field c p)) (sym same)
        ∙ ap (λ o. over o (d.field c p)) at_env
        ∙ over-layers from_env from_file (d.provides default p) (d.field c p)

    -- Over a koanf that keeps its word, where the loading does not end the program: after `init`,
    -- each value of the configuration is that of the environment, else that of the file, else the
    -- default, else what the variable had, where a layer that does not load says nothing; and a call
    -- of `New` with options of its own answers such a configuration and leaves it in the variable
    -- that `C` reads, over what `init` has put there.
    pub new_config-layered :
        (strings : Strings) (opt : Options) (c answer : Config Rest) (p : String)
        → (init lib zero_rest gocql_one strings c).0 ≡ ok tt
        → (new_config lib zero_rest gocql_one opt (init lib zero_rest gocql_one strings c).1).0
          ≡ ok answer
        → let c1 = (init lib zero_rest gocql_one strings c).1 in
          let r = new_config lib zero_rest gocql_one opt c1 in
          (d.field c1 p ≡ layered (default_options strings) c p)
          × (d.field answer p ≡ layered opt c1 p)
          × (r.1 ≡ answer)
    unfolding init new_config
    new_config-layered strings opt c answer p h g =
        let c1 = (init lib zero_rest gocql_one strings c).1 in
        let loading =
          unmarshal_into lib zero_rest gocql_one (load_layers lib zero_rest gocql_one opt) c1 in
        let (u, fine, same, whole) = and_then-eq-ok loading (λ _ c'. (ok c', c')) answer g in
        let result = load_layers-layered opt c1 p fine in
        let answered : loading.1 ≡ answer = ok-injective same in
        (
          load_layers-layered (default_options strings) c p h,
          ap (λ c'. d.field c' p) (sym answered) ∙ result,
          ap (λ r. r.1) whole ∙ answered,
        )

-- With the defaults alone the manager's part of the configuration has no host of the database, and
-- its repository ends the program.
default_config-panic :
    {S Rest : Type 0} (lib : Database.Library S) (zero_rest : Rest) (gocql_one : ℕ) (s : S)
    → new_storage_adapter lib (default_config zero_rest gocql_one).manager.scylla_db_config s
      ≡ (panic, s)
unfolding new_storage_adapter default_config
default_config-panic lib zero_rest gocql_one s = refl

-- The number of days in config.yml is one of seconds: its product with a day is past the 63 bits of
-- a positive duration, which is negative then.
new_jwt-overflow :
    (cfg : JwtConfig)
    → cfg.access_expiration_time_in_day ≡ 604800
    → 2 ^ 63 ≤ (new_jwt cfg).access_expiration_time_in_day
unfolding new_jwt
new_jwt-overflow cfg h = omega arith
