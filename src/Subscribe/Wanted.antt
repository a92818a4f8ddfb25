-- ===== src/Subscribe/Wanted.antt =====
-- What the texts of a subscribeContext or updateContextSubscription request ask for: the values that
-- parse8601 of src/lib/common/globals.cpp reads, and the conditions of src/lib/mongoBackend/MongoGlobal.cpp.
pub mod Conditions
use fiware_orion.Base.{
  ℕ, zero, suc, ◌+◌, ◌^◌, ◌≤◌, Str, ◌≡◌, ◌≢◌, refl, ap, ◌⊎◌, inl, inr, ◌==◌, str_eq, str_beq, leb,
  true, false, if◌then◌else◌, Bool-cases, Option, none, some, List, [], ◌∷◌, codes, arith,
}
use fiware_orion.Base.Int.{ℤ, pos, negsuc, eqb_ℤ}
use fiware_orion.Strings.Duration.{Parsed, error, undefined, seconds, parse8601}
use fiware_orion.Subscribe.{
  NotifyCondition, Condition, interval, change, duration_seconds, expiration_after,
}
use fiware_orion.Subscribe.Operations.{
  expires, throttling_field, changed_throttling, changed_expiration, duration_or_default,
}

-- The property holds of the value, if there is one.
abbrev pub OfSome {ℓ} : {A : Type ℓ} → (A → Type 0) → Option A → Type 0
OfSome P none = Unit
OfSome P (some x) = P x

-- The second before
abbrev before : ℕ → ℤ
before zero = negsuc 0
before (suc n) = pos n

-- An end for what was read: the time and the seconds, or the second before where nothing was read.
abbrev EndsFor : ℕ → Parsed → ℤ → Type 0
EndsFor now error e = e ≡ before now
EndsFor now undefined e = ⊥
EndsFor now (seconds n) e = e ≡ pos (now + n)

abbrev pub EndsAt : ℕ → Str → ℤ → Type 0
EndsAt now text e = EndsFor now (parse8601 text) e

-- The seconds that were read, or -1
abbrev LastsFor : Parsed → ℤ → Type 0
LastsFor error z = z ≡ negsuc 0
LastsFor undefined z = ⊥
LastsFor (seconds n) z = z ≡ pos n

abbrev pub Lasts : Str → ℤ → Type 0
Lasts text z = LastsFor (parse8601 text) z

-- No text asks for no throttling.
abbrev pub Throttles : Str → Option ℤ → Type 0
Throttles [] t = t ≡ none
Throttles (b ∷ s) t = (z : ℤ) × Lasts (b ∷ s) z × (t ≡ some z)

-- No text leaves the throttling as it is, and zero seconds take it out.
abbrev pub RethrottlesTo : Str → Option ℤ → Option ℤ → Type 0
RethrottlesTo [] old t = t ≡ old
RethrottlesTo (b ∷ s) old t =
    (z : ℤ) × Lasts (b ∷ s) z × (((z ≡ pos 0) × (t ≡ none)) ⊎ ((z ≢ pos 0) × (t ≡ some z)))

-- No text leaves the end as it is.
abbrev pub MovesTo : ℕ → Str → ℤ → ℤ → Type 0
MovesTo now [] old e = e ≡ old
MovesTo now (b ∷ s) old e = EndsAt now (b ∷ s) e

abbrev pub wanted_duration : Str → Str
wanted_duration [] = codes "PT24H"
wanted_duration (b ∷ s) = b ∷ s

-- The stored conditions for those of a request, in their order: those of another type are left out.
pub data AreConditions : List NotifyCondition → List Condition → Type 0 where
  no_more : AreConditions [] []
  on_interval :
      (nc : NotifyCondition) (value : Str) (values : List Str) (z : ℤ) (ncs : List NotifyCondition)
      (cs : List Condition)
      → nc.type ≡ codes "ONTIMEINTERVAL"
      → nc.values ≡ value ∷ values
      → Lasts value z
      → AreConditions ncs cs
      → AreConditions (nc ∷ ncs) (interval z ∷ cs)
  on_change :
      (nc : NotifyCondition) (ncs : List NotifyCondition) (cs : List Condition)
      → nc.type ≡ codes "ONCHANGE"
      → AreConditions ncs cs
      → AreConditions (nc ∷ ncs) (change nc.values ∷ cs)
  of_other_type :
      (nc : NotifyCondition) (ncs : List NotifyCondition) (cs : List Condition)
      → nc.type ≢ codes "ONTIMEINTERVAL"
      → nc.type ≢ codes "ONCHANGE"
      → AreConditions ncs cs
      → AreConditions (nc ∷ ncs) cs

-- A change without conditions leaves them as they are.
abbrev pub Reconditions : List NotifyCondition → List Condition → List Condition → Type 0
Reconditions [] old cs = cs ≡ old
Reconditions (nc ∷ ncs) old cs = AreConditions (nc ∷ ncs) cs

seconds_of : Parsed → Option ℤ
seconds_of p = elim p [ error ↦ some (negsuc 0) | undefined ↦ none | seconds n ↦ some (pos n) ]

end_of : ℕ → Option ℤ → Option ℤ
unfolding expiration_after
end_of now o = elim o [ none ↦ none | some n ↦ expiration_after now n ]

end-EndsFor : (now : ℕ) (p : Parsed) → OfSome (EndsFor now p) (end_of now (seconds_of p))
unfolding end_of seconds_of expiration_after
end-EndsFor zero error = refl
end-EndsFor (suc n) error = elim (Bool-cases (leb 1 (suc n))) [
  | inl y ↦ rw y (ap pos (omega arith))
  | inr m ↦ absurd (ground arith)
]
end-EndsFor now undefined = tt
end-EndsFor now (seconds n) = ground arith

end-none :
    (now : ℕ) (p : Parsed)
    → end_of now (seconds_of p) ≡ none
    → (p ≡ undefined) ⊎ ((n : ℕ) × (p ≡ seconds n) × (2 ^ 63 ≤ now + n))
unfolding end_of seconds_of expiration_after
end-none now error h = absurd (ground (arith, h))
end-none now undefined h = inl refl
end-none now (seconds n) h = inr (n, refl, ground (arith, h))

pub expires-EndsAt : (now : ℕ) (text : Str) → OfSome (EndsAt now text) (expires now text)
unfolding expires duration_seconds end_of seconds_of
expires-EndsAt now text = end-EndsFor now (parse8601 text)

-- An expiration that there is not: what was read, or its sum with the time, is too large.
pub expires-none :
    (now : ℕ) (text : Str)
    → expires now text ≡ none
    → (parse8601 text ≡ undefined) ⊎ ((n : ℕ) × (parse8601 text ≡ seconds n) × (2 ^ 63 ≤ now + n))
unfolding expires duration_seconds end_of seconds_of
expires-none now text h = end-none now (parse8601 text) h

seconds-LastsFor : (p : Parsed) → OfSome (LastsFor p) (seconds_of p)
unfolding seconds_of
seconds-LastsFor error = refl
seconds-LastsFor undefined = tt
seconds-LastsFor (seconds n) = refl

pub duration_seconds-Lasts : (text : Str) → OfSome (Lasts text) (duration_seconds text)
unfolding duration_seconds seconds_of
duration_seconds-Lasts text = seconds-LastsFor (parse8601 text)

throttled :
    (text : Str) (o : Option ℤ)
    → OfSome (Lasts text) o
    → OfSome
        (λ t. (z : ℤ) × Lasts text z × (t ≡ some z))
        (elim o as (λ x. Option (Option ℤ)) [ none ↦ none | some n ↦ some (some n) ])
throttled text none h = tt
throttled text (some n) h = (n, h, refl)

pub throttling_field-Throttles : (text : Str) → OfSome (Throttles text) (throttling_field text)
unfolding throttling_field str_beq
throttling_field-Throttles [] = refl
throttling_field-Throttles (b ∷ s) =
    throttled (b ∷ s) (duration_seconds (b ∷ s)) (duration_seconds-Lasts (b ∷ s))

zero-cases :
    (n : ℤ) → ((eqb_ℤ n (pos 0) ≡ true) × (n ≡ pos 0)) ⊎ ((eqb_ℤ n (pos 0) ≡ false) × (n ≢ pos 0))
zero-cases (pos zero) = inl (refl, refl)
zero-cases (pos (suc n)) = inr (ground arith, (λ e. ground (arith, e)))
zero-cases (negsuc n) = inr (refl, (λ e. ground (arith, e)))

rethrottled :
    (text : Str) (o : Option ℤ)
    → OfSome (Lasts text) o
    → OfSome
        (λ t. (z : ℤ) × Lasts text z × (((z ≡ pos 0) × (t ≡ none)) ⊎ ((z ≢ pos 0) × (t ≡ some z))))
        (elim o as (λ x. Option (Option ℤ)) [
          | none ↦ none
          | some n ↦ some (if eqb_ℤ n (pos 0) then none else some n)
        ])
rethrottled text none h = tt
rethrottled text (some n) h = elim (zero-cases n) [
  | inl (y, e) ↦ (n, h, inl (e, rw y refl))
  | inr (m, ne) ↦ (n, h, inr (ne, rw m refl))
]

pub changed_throttling-RethrottlesTo :
    (text : Str) (old : Option ℤ) → OfSome (RethrottlesTo text old) (changed_throttling text old)
unfolding changed_throttling str_beq
changed_throttling-RethrottlesTo [] old = refl
changed_throttling-RethrottlesTo (b ∷ s) old =
    rethrottled (b ∷ s) (duration_seconds (b ∷ s)) (duration_seconds-Lasts (b ∷ s))

pub changed_expiration-MovesTo :
    (now : ℕ) (text : Str) (old : ℤ)
    → OfSome (MovesTo now text old) (changed_expiration now text old)
unfolding changed_expiration str_beq
changed_expiration-MovesTo now [] old = refl
changed_expiration-MovesTo now (b ∷ s) old = expires-EndsAt now (b ∷ s)

pub duration_or_default-eq : (text : Str) → duration_or_default text ≡ wanted_duration text
unfolding duration_or_default
duration_or_default-eq [] = refl
duration_or_default-eq (b ∷ s) = refl
