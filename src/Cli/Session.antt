-- ===== src/Cli/Session.antt =====
-- What the client keeps from one command to the next, and what it sends.
use ormus.Prelude.{
  String, ◌≡◌, ◌≢◌, refl, sym, ap, ◌∙◌, true, false, ◌||◌, ok, Outcome-cases, Bool-cases,
  String-cases, inl, inr, str_eq,
}
use ormus.Cli.{
  Config, System, State, store_config, set_config, get_config, new_client, read_config, user_login,
  login_request, send_request, http_request, get_url,
}

module _ {S : Type 0} (os : System S) where
  -- What a file that was emptied and written holds, and that what was marshalled reads back.
  pub record Keeps : Type 0 where
    pub exists :
        (j : String) (s : S)
        → (os.truncate s).0 ≡ ok tt
        → (os.write j (os.truncate s).1).0 ≡ ok tt
        → os.file_exists (os.write j (os.truncate s).1).1 ≡ true
    pub reads :
        (j : String) (s : S)
        → (os.truncate s).0 ≡ ok tt
        → (os.write j (os.truncate s).1).0 ≡ ok tt
        → (os.read_all (os.write j (os.truncate s).1).1).0 ≡ ok j
    pub round_trip : (c : Config) (j : String) → os.marshal c ≡ ok j → os.unmarshal j ≡ ok c

  -- The next client on this system has the configuration.
  abbrev pub Reads : Config → State S → Type 0
  Reads c t = let n = new_client os t.system in (n.0 ≡ ok tt) × (n.1.config ≡ c)

  new_client-written :
      (c : Config) (j : String) (s : S)
      → Keeps
      → os.marshal c ≡ ok j
      → (os.truncate s).0 ≡ ok tt
      → (os.write j (os.truncate s).1).0 ≡ ok tt
      → Reads c (record { config = c; system = (os.write j (os.truncate s).1).1 })
  unfolding new_client read_config
  new_client-written c j s k m t w =
      rw (k.exists j s t w, k.reads j s t w, k.round_trip c j m) (refl, refl)

  store_config-Reads :
      (s : State S) → Keeps → (store_config os s).0 ≡ ok tt → Reads s.config (store_config os s).1
  unfolding store_config
  store_config-Reads s k h = elim (Outcome-cases (os.truncate s.system).0) [
    | inl (u, t) ↦ elim (Outcome-cases (os.marshal s.config)) [
      | inl (j, m) ↦ elim (Outcome-cases (os.write j (os.truncate s.system).1).0) [
        | inl (v, w) ↦ rw (t, m) (new_client-written s.config j s.system k m t w)
        | inr (inl (e, w)) ↦ let h' = rw (t, m, w) at h in cc
        | inr (inr w) ↦ let h' = rw (t, m, w) at h in cc
      ]
      | inr (inl (e, m)) ↦ let h' = rw (t, m) at h in cc
      | inr (inr m) ↦ let h' = rw (t, m) at h in cc
    ]
    | inr (inl (e, t)) ↦ let h' = rw t at h in cc
    | inr (inr t) ↦ let h' = rw t at h in cc
  ]

  -- A key whose name is another's is the same key.
  other_key :
      (key other name : String) → str_eq key name ≡ true → other ≢ key → str_eq other name ≡ false
  other_key key other name h n = elim (String-cases other name) [
    | inl (p, b) ↦ elim (String-cases key name) [
      | inl (q, c) ↦ absurd (n (p ∙ sym q))
      | inr (q, c) ↦ cc
    ]
    | inr (q, b) ↦ b
  ]

  -- Where a value is set for a key without an error, the client that the next command starts with
  -- reads its whole configuration from the file, gives this value for the key, and for every other
  -- key what was given before.
  pub new_client-set_config :
      (key value : String) (s : State S)
      → Keeps
      → (set_config os key value s).0 ≡ ok tt
      → let n = new_client os (set_config os key value s).1.system in
        (n.0 ≡ ok tt)
        × (get_config os key n.1 ≡ ok value)
        × ((other : String) → other ≢ key → get_config os other n.1 ≡ get_config os other s)
  unfolding set_config get_config
  new_client-set_config key value s k h = elim (Bool-cases (str_eq key "token")) [
    | inl t ↦
        let d = record s { config = record s.config { token = value } } in
        let (made, full) = store_config-Reads d k (rw t at h) in
        rw t (
          made,
          ap ok (ap (λ c. c.token) full),
          λ other n. rw (other_key key other "token" t n, full) refl,
        )
    | inr t ↦ elim (Bool-cases (str_eq key "base_url")) [
      | inl b ↦
          let d = record s { config = record s.config { base_url = value } } in
          let (made, full) = store_config-Reads d k (rw (t, b) at h) in
          rw (t, b)
            (
              made,
              ap ok (ap (λ c. c.base_url) full),
              λ other n. rw (other_key key other "base_url" b n, full) refl,
            )
      | inr b ↦ let h' = rw (t, b) at h in cc
    ]
  ]

  -- The login sends the same request and ends the same way for any two pairs of an address and a
  -- password, none of them empty.
  pub user_login_blind :
      (email password email' password' : String) (s : State S)
      → (str_eq password "" || str_eq email "") ≡ false
      → (str_eq password' "" || str_eq email' "") ≡ false
      → user_login os email password s ≡ user_login os email' password' s
  unfolding user_login send_request http_request get_url login_request
  user_login_blind email password email' password' s h k = rw (h, k) refl
