-- ===== src/User/Policy.antt =====
-- What the password policy accepts.
use ormus.Prelude.{◌≡◌, refl, Bool, false, ◌&&◌, ◌||◌, not, List, [], ◌∷◌, arith}
use ormus.User.{Unicode, Seen, see, see_all, is_password_valid}

abbrev pub any : {A : Type 0} → (A → Bool) → List A → Bool
any p [] = false
any p (x ∷ xs) = p x || any p xs

module _ {Rune : Type 0} (u : Unicode Rune) where
  -- A rune counts for the first class that it is in, in the order of the switch.
  abbrev pub as_lower : Rune → Bool
  as_lower r = not (u.is_number r) && u.is_lower r

  abbrev pub as_upper : Rune → Bool
  as_upper r = not (u.is_number r) && not (u.is_lower r) && u.is_upper r

  abbrev pub as_special : Rune → Bool
  as_special r =
      not (u.is_number r)
      && not (u.is_lower r)
      && not (u.is_upper r)
      && (u.is_symbol r || u.is_punct r)

  see_all_lem :
      (rs : List Rune) (s : Seen)
      → let t = see_all u rs s in
        (t.numeric ≡ (s.numeric || any u.is_number rs))
        × (t.lower ≡ (s.lower || any as_lower rs))
        × (t.upper ≡ (s.upper || any as_upper rs))
        × (t.special ≡ (s.special || any as_special rs))
  unfolding see_all see
  see_all_lem [] s = ground arith
  see_all_lem (r ∷ rs) s = let ih = see_all_lem rs (see u r s) in ground (arith, ih)

  -- A password is accepted exactly if, of each of the four classes, some rune counts for it.
  pub is_password_valid_lem :
      (rs : List Rune)
      → is_password_valid u rs
        ≡ (any u.is_number rs && any as_lower rs && any as_upper rs && any as_special rs)
  unfolding is_password_valid
  is_password_valid_lem rs =
      let (n, l, p, s) =
        see_all_lem rs
          (record { lower = false; upper = false; numeric = false; special = false }) in
      rw (n, l, p, s) refl
