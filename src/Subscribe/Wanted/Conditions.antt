-- ===== src/Subscribe/Wanted/Conditions.antt =====
-- What processConditionVector of src/lib/mongoBackend/MongoGlobal.cpp stores are the conditions of the request.
use fiware_orion.Base.{
  ℕ, Str, ◌≡◌, refl, ◌==◌, str_eq, str_sound, str_beq_iff, ◌≢◌, ◌||◌, false, Bool-cases, inl, inr,
  Option, none, some, List, [], ◌∷◌, arith,
}
use fiware_orion.Base.Int.{ℤ}
use fiware_orion.Subscribe.{
  NotifyCondition, interval, change, Store, Caller, on_time_interval_condition, on_change_condition,
  duration_seconds, to_int,
}
use fiware_orion.Subscribe.Conditions.{
  Target, Processed, process_on_change_condition, process_condition_vector,
}
use fiware_orion.Subscribe.Wanted.{
  OfSome, Lasts, AreConditions, no_more, on_interval, on_change, of_other_type,
  duration_seconds-Lasts,
}

different : (s t : Str) → (s == t) ≡ false → s ≢ t
different s t n e = let y = (str_beq_iff s t).1 e in absurd (ground (arith, n, y))

module _ (decimal : ℕ → Str) (S : Store) (c : Caller) where
  abbrev AreStored : List NotifyCondition → Option (Processed S.World) → Type 0
  AreStored ncs = OfSome (λ p. AreConditions ncs p.conditions)

  extended-AreStored :
      (ncs ncs' : List NotifyCondition) (f : Processed S.World → Processed S.World)
      → ((p : Processed S.World)
          → AreConditions ncs p.conditions
          → AreConditions ncs' (f p).conditions)
      → (o : Option (Processed S.World)) → AreStored ncs o
      → AreStored ncs' (elim o [ none ↦ none | some p ↦ some (f p) ])
  extended-AreStored ncs ncs' f k none h = tt
  extended-AreStored ncs ncs' f k (some p) h = k p h

  skipped-AreStored :
      (nc : NotifyCondition) (ncs : List NotifyCondition)
      → nc.type ≢ on_time_interval_condition
      → nc.type ≢ on_change_condition
      → (o : Option (Processed S.World)) → AreStored ncs o
      → AreStored (nc ∷ ncs) o
  skipped-AreStored nc ncs i j none h = tt
  skipped-AreStored nc ncs i j (some p) h = of_other_type nc ncs p.conditions i j h

  after_read-AreStored :
      (nc : NotifyCondition) (ncs : List NotifyCondition) (value : Str) (vs : List Str)
      → nc.type ≡ on_time_interval_condition
      → nc.values ≡ value ∷ vs
      → (o : Option ℤ) (k : ℤ → Option (Processed S.World)) → OfSome (Lasts value) o
      → ((n : ℤ) → AreStored ncs (k n))
      → AreStored (nc ∷ ncs) (elim o [
        | none ↦ none
        | some n ↦ elim (k n) [
          | none ↦ none
          | some p ↦ some (record p { conditions = interval n ∷ p.conditions })
        ]
      ])
  after_read-AreStored nc ncs value vs t e none k h g = tt
  after_read-AreStored nc ncs value vs t e (some n) k h g =
      extended-AreStored ncs (nc ∷ ncs) (λ p. record p { conditions = interval n ∷ p.conditions })
        (λ p a. on_interval nc value vs n ncs p.conditions t e h a) (k n) (g n)

  interval-AreStored :
      (nc : NotifyCondition) (ncs : List NotifyCondition)
      → nc.type ≡ on_time_interval_condition
      → (values : List Str) → nc.values ≡ values
      → (k : ℤ → Option (Processed S.World)) → ((n : ℤ) → AreStored ncs (k n))
      → AreStored (nc ∷ ncs) (elim values [
        | [] ↦ none
        | value ∷ vs ↦ elim (duration_seconds value) [
          | none ↦ none
          | some n ↦ elim (k n) [
            | none ↦ none
            | some p ↦ some (record p { conditions = interval n ∷ p.conditions })
          ]
        ]
      ])
  interval-AreStored nc ncs t [] e k g = tt
  interval-AreStored nc ncs t (value ∷ vs) e k g =
      after_read-AreStored nc ncs value vs t e (duration_seconds value) k
        (duration_seconds-Lasts value) g

  pub conditions-AreConditions :
      (t : Target) (ncs : List NotifyCondition) (w : S.World)
      → OfSome (λ p. AreConditions ncs p.conditions) (process_condition_vector decimal S c t ncs w)
  unfolding process_condition_vector
  conditions-AreConditions t [] w = no_more
  conditions-AreConditions t (nc ∷ ncs) w =
      elim (Bool-cases (nc.type == on_time_interval_condition)) [
        | inl y ↦ rw y (
            interval-AreStored nc ncs (str_sound nc.type on_time_interval_condition y) nc.values
              refl
              (λ n.
                process_condition_vector decimal S c t ncs
                  (S.start_interval t.id (to_int n) c.tenant w))
              (λ n. conditions-AreConditions t ncs _))
        | inr n ↦ rw n (elim (Bool-cases (nc.type == on_change_condition)) [
          | inl y ↦
              let (sent, w1) = process_on_change_condition decimal S c t nc.values w in
              rw y (
                extended-AreStored ncs (nc ∷ ncs)
                  (λ p. record p {
                    conditions = change nc.values ∷ p.conditions;
                    notified = sent || p.notified;
                  })
                  (λ p a. on_change nc ncs p.conditions (str_sound nc.type on_change_condition y) a)
                  (process_condition_vector decimal S c t ncs w1)
                  (conditions-AreConditions t ncs w1))
          | inr m ↦ rw m (
              skipped-AreStored nc ncs (different nc.type on_time_interval_condition n)
                (different nc.type on_change_condition m)
                (process_condition_vector decimal S c t ncs w) (conditions-AreConditions t ncs w))
        ])
      ]
