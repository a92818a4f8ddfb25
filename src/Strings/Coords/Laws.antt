-- ===== src/Strings/Coords/Laws.antt =====
-- What string2coords of src/lib/common/string.cpp returns.
use fiware_orion.Base.{
  Str, ◌≡◌, refl, ◌⊎◌, inl, inr, ◌==◌, str_eq, Bool, true, false, some, arith, Bool-cases,
  Option-cases, [], str_beq_iff, str_beq, subst, sym,
}
use fiware_orion.Strings.Bytes.{c_str}
use fiware_orion.Strings.Strip.{ws_strip}
use fiware_orion.Strings.Coords.{
  Double, Coords, in_range, a_to_f, check_a_to_f, split_comma, string2coords,
}

module _ (D : Double) where
  -- A latitude from -90 to 90 and a longitude from -180 to 180.
  pub record IsInRange (c : Coords D) : Type 0 where
    pub north : D.above c.latitude 90 ≡ false
    pub south : D.below c.latitude 90 ≡ false
    pub east : D.above c.longitude 180 ≡ false
    pub west : D.below c.longitude 180 ≡ false

  IsInRange-in_range : (c : Coords D) → in_range D c ≡ true → IsInRange c
  unfolding in_range
  IsInRange-in_range c h = record {
    north = ground (arith, h);
    south = ground (arith, h);
    east = ground (arith, h);
    west = ground (arith, h);
  }

  -- The two numbers of a text without error.
  abbrev pub HasNumbers : Str → Coords D → Type 0
  HasNumbers s c =
      (left : Str) × (right : Str) × (split_comma (ws_strip (c_str s)) ≡ some (left, right))
      × (check_a_to_f (ws_strip left) ≡ [])
      × (check_a_to_f (ws_strip right) ≡ [])
      × (c.latitude ≡ D.atof (ws_strip left))
      × (c.longitude ≡ D.atof (ws_strip right))

  a_to_f-cases :
      (s : Str)
      → ((check_a_to_f s ≡ []) × (a_to_f D s ≡ ([], D.atof s))) ⊎ (((a_to_f D s).0 == []) ≡ false)
  unfolding a_to_f
  a_to_f-cases s = elim (Bool-cases (check_a_to_f s == [])) [
    | inl y ↦
        let e : check_a_to_f s ≡ [] = (str_beq_iff (check_a_to_f s) []).0 y in
        inl (e, rw (y, e) refl)
    | inr n ↦ inr (rw n n)
  ]

  absurd_true {ℓ} : {A : Type ℓ} {b : Bool} → b ≡ false → b ≡ true → A
  absurd_true e h = cc

  -- If string2coords returns true, the text has a comma, what stands on its two sides are numbers
  -- without error, the coordinates are these numbers, and they are in range.
  pub string2coords-IsInRange :
      (s : Str) (old : Coords D)
      → (string2coords D s old).0 ≡ true
      → IsInRange (string2coords D s old).1 × HasNumbers s (string2coords D s old).1
  unfolding string2coords str_beq
  string2coords-IsInRange s old h = elim (Option-cases (split_comma (ws_strip (c_str s)))) [
    | inl e ↦ absurd_true (rw (string2coords, e) refl) h
    | inr ((left, right), e) ↦ elim (a_to_f-cases (ws_strip left)) [
      | inr n ↦ absurd_true (rw (string2coords, e, n) refl) h
      | inl (f, g) ↦ elim (a_to_f-cases (ws_strip right)) [
        | inr n ↦ absurd_true (rw (string2coords, e, g, n) refl) h
        | inl (k, l) ↦
            let c : Coords D = record {
              latitude = D.atof (ws_strip left);
              longitude = D.atof (ws_strip right);
            } in
            let same : string2coords D s old ≡ (in_range D c, c) =
              rw (string2coords, e, g, l) refl in
            let fine : in_range D c ≡ true = subst (λ x. x.0 ≡ true) same h in
            subst (λ x. IsInRange x.1 × HasNumbers s x.1) (sym same)
              (IsInRange-in_range c fine, (left, right, e, f, k, refl, refl))
      ]
    ]
  ]
