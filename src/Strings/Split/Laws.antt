-- ===== src/Strings/Split/Laws.antt =====
-- What stringSplit of src/lib/common/string.cpp returns.
use fiware_orion.Base.{
  ℕ, suc, Str, ◌≡◌, refl, ◌≢◌, ap, ap₂, sym, nat_beq_iff, ◌∙◌, ◌+◌, ◌==◌, nat_eq, List, [], ◌∷◌,
  ◌++◌, length, All, All-append, arith, if◌then◌else◌, inl, inr, Bool-cases,
}
use fiware_orion.Strings.Bytes.{c_str, Lacks, c_str-eq_self, Lacks-c_str}
use fiware_orion.Strings.Split.{
  skip, blank, count, after_zero, pick_up, components_of, string_split,
}

-- The text that components make with the delimiter between them.
unfoldable pub join : ℕ → List Str → Str
join d [] = []
join d (p ∷ []) = p
join d (p ∷ (q ∷ ps)) = p ++ (d ∷ join d (q ∷ ps))

-- The pieces between the delimiters, by one pass.
abbrev pub onto_head : ℕ → List Str → List Str
onto_head c [] = (c ∷ []) ∷ []
onto_head c (p ∷ ps) = (c ∷ p) ∷ ps

unfoldable pub cut : ℕ → Str → List Str
cut d [] = [] ∷ []
cut d (c ∷ s) = let rest = cut d s in if c == d then [] ∷ rest else onto_head c rest

pub cut-ne-nil : (d : ℕ) (s : Str) → cut d s ≢ []
unfolding cut
cut-ne-nil d [] = cc
cut-ne-nil d (c ∷ s) = ground (arith, cut-ne-nil d s)

length-cut : (d : ℕ) (s : Str) → length (cut d s) ≡ suc (count d s)
unfolding cut count
length-cut d [] = refl
length-cut d (c ∷ s) = ground (arith, length-cut d s, cut-ne-nil d s)

join-onto_head : (d c : ℕ) (ps : List Str) → ps ≢ [] → join d (onto_head c ps) ≡ c ∷ join d ps
unfolding join
join-onto_head d c [] ne = absurd (ne refl)
join-onto_head d c (p ∷ []) ne = refl
join-onto_head d c (p ∷ (q ∷ ps)) ne = refl

join-nil_head : (d : ℕ) (ps : List Str) → ps ≢ [] → join d ([] ∷ ps) ≡ d ∷ join d ps
unfolding join
join-nil_head d [] ne = absurd (ne refl)
join-nil_head d (q ∷ ps) ne = refl

join-cut : (d : ℕ) (s : Str) → join d (cut d s) ≡ s
unfolding cut
join-cut d [] = unfold join in refl
join-cut d (c ∷ s) = elim (Bool-cases (c == d)) [
  | inl y ↦ rw y (
      join-nil_head d (cut d s) (cut-ne-nil d s)
      ∙ ap₂ ◌∷◌ (sym ((nat_beq_iff c d).0 y)) (join-cut d s))
  | inr n ↦ rw n (join-onto_head d c (cut d s) (cut-ne-nil d s) ∙ ap (◌∷◌ c) (join-cut d s))
]

cut-Lacks : (d : ℕ) (s : Str) → All (Lacks d) (cut d s)
unfolding cut
cut-Lacks d [] = (tt, tt)
cut-Lacks d (c ∷ s) = ground (arith, cut-Lacks d s)

-- One component read off the blanked buffer.
pick_up-step :
    (d c n : ℕ) (s : Str)
    → c ≢ d
    → c ≢ 0
    → pick_up (suc n) (blank d (c ∷ s)) ≡ onto_head c (pick_up (suc n) (blank d s))
unfolding pick_up blank c_str after_zero
pick_up-step d c n s p q = ground arith

one_more : (n : ℕ) → 1 + n ≡ suc n
one_more n = omega arith

none_more : (n : ℕ) → 0 + n ≡ n
none_more n = omega arith

pick_up-zero : (d n : ℕ) (s : Str) → pick_up (suc n) (blank d (d ∷ s)) ≡ [] ∷ pick_up n (blank d s)
unfolding pick_up blank c_str after_zero
pick_up-zero d n s = ground arith

pick_up-cut : (d : ℕ) (s : Str) → Lacks 0 s → pick_up (suc (count d s)) (blank d s) ≡ cut d s
unfolding count cut
pick_up-cut d [] h = unfold pick_up blank c_str in refl
pick_up-cut d (c ∷ s) h = elim (Bool-cases (c == d)) [
  | inl y ↦
      let e = (nat_beq_iff c d).0 y in
      rw (y, e, pick_up-zero d (1 + count d s) s, one_more (count d s), pick_up-cut d s h.1)
  | inr n ↦
      let ne : c ≢ d = λ e. cc (n, (nat_beq_iff c d).1 e) in
      rw (n, none_more (count d s), pick_up-step d c (count d s) s ne h.0, pick_up-cut d s h.1)
]

skip-Lacks : (d : ℕ) (s : Str) → Lacks 0 s → Lacks 0 (skip d s)
unfolding skip
skip-Lacks d [] h = tt
skip-Lacks d (c ∷ s) h = ground (arith, skip-Lacks d s h.1)

skip_self : (d c : ℕ) (s : Str) → c ≢ d → skip d (c ∷ s) ≡ c ∷ s
unfolding skip
skip_self d c s ne = ground arith

-- What is split.
abbrev pub body : ℕ → Str → Str
body d s = skip d (c_str s)

split_body :
    (d : ℕ) (b : Str) → b ≢ [] → Lacks 0 b → components_of d b [] ≡ (length (cut d b), cut d b)
unfolding components_of
split_body d [] ne h = absurd (ne refl)
split_body d (c ∷ b) ne h = rw (pick_up-cut d (c ∷ b) h, length-cut d (c ∷ b))

-- The components are what `cut` finds in the text behind the leading delimiters.
string_split-eq :
    (s : Str) (d : ℕ)
    → body d s ≢ []
    → string_split s d [] ≡ (length (cut d (body d s)), cut d (body d s))
unfolding string_split
string_split-eq s d ne = split_body d (body d s) ne (skip-Lacks d (c_str s) (Lacks-c_str s))

-- If something stands behind the leading delimiters, stringSplit returns the number of components it
-- appends; joined by the delimiter they give the text behind the leading delimiters, up to its first
-- zero byte; and no component holds the delimiter.
pub string_split_lem :
    (s : Str) (d : ℕ)
    → body d s ≢ []
    → ((string_split s d []).0 ≡ length (string_split s d []).1)
      × (join d (string_split s d []).1 ≡ body d s)
      × All (Lacks d) (string_split s d []).1
string_split_lem s d ne =
    rw (string_split-eq s d ne) (refl, join-cut d (body d s), cut-Lacks d (body d s))

count_body :
    (d : ℕ) (b : Str) → Lacks 0 b → (components_of d b []).0 ≡ length (components_of d b []).1
unfolding components_of
count_body d [] h = refl
count_body d (c ∷ b) h =
    let e = split_body d (c ∷ b) (λ e. cc e) h in ap (λ x. x.0) e ∙ sym (ap (λ x. length x.1) e)

-- stringSplit returns the number of the components that it finds.
pub string_split_count :
    (s : Str) (d : ℕ) → (string_split s d []).0 ≡ length (string_split s d []).1
unfolding string_split
string_split_count s d = count_body d (body d s) (skip-Lacks d (c_str s) (Lacks-c_str s))

cut-piece : (d : ℕ) (p : Str) → Lacks d p → cut d p ≡ p ∷ []
unfolding cut
cut-piece d [] h = refl
cut-piece d (c ∷ p) h = ground (arith, h.0, cut-piece d p h.1)

cut-delimiter : (d : ℕ) (p s : Str) → Lacks d p → cut d (p ++ (d ∷ s)) ≡ p ∷ cut d s
unfolding cut
cut-delimiter d [] s h = ground arith
cut-delimiter d (c ∷ p) s h = ground (arith, h.0, cut-delimiter d p s h.1)

cut-join :
    (d : ℕ) (p : Str) (ps : List Str) → All (Lacks d) (p ∷ ps) → cut d (join d (p ∷ ps)) ≡ p ∷ ps
unfolding join
cut-join d p [] h = cut-piece d p h.0
cut-join d p (q ∷ ps) h = cut-delimiter d p (join d (q ∷ ps)) h.0 ∙ ap (◌∷◌ p) (cut-join d q ps h.1)

join-Lacks : (d e : ℕ) (ps : List Str) → d ≢ e → All (Lacks e) ps → Lacks e (join d ps)
unfolding join
join-Lacks d e [] ne h = tt
join-Lacks d e (p ∷ []) ne h = h.0
join-Lacks d e (p ∷ (q ∷ ps)) ne h =
    All-append (λ c. c ≢ e) p (d ∷ join d (q ∷ ps)) h.0 (ne, join-Lacks d e (q ∷ ps) ne h.1)

join-head : (d c : ℕ) (p : Str) (ps : List Str) → (s : Str) × (join d ((c ∷ p) ∷ ps) ≡ c ∷ s)
unfolding join
join-head d c p [] = (p, refl)
join-head d c p (q ∷ ps) = (p ++ (d ∷ join d (q ∷ ps)), refl)

body-join :
    (d c : ℕ) (p : Str) (ps : List Str)
    → d ≢ 0
    → All (Lacks d) ((c ∷ p) ∷ ps)
    → All (Lacks 0) ((c ∷ p) ∷ ps)
    → body d (join d ((c ∷ p) ∷ ps)) ≡ join d ((c ∷ p) ∷ ps)
body-join d c p ps nz h z =
    let (s, e) = join-head d c p ps in
    rw (c_str-eq_self (join d ((c ∷ p) ∷ ps)) (join-Lacks d 0 ((c ∷ p) ∷ ps) nz z), e)
      (skip_self d c s h.0.0)

-- Components that hold neither the delimiter (which is not zero) nor a zero byte, the first of them
-- not empty, come back from stringSplit of their join, with their number.
pub string_split-join :
    (d c : ℕ) (p : Str) (ps : List Str)
    → d ≢ 0
    → All (Lacks d) ((c ∷ p) ∷ ps)
    → All (Lacks 0) ((c ∷ p) ∷ ps)
    → string_split (join d ((c ∷ p) ∷ ps)) d [] ≡ (suc (length ps), (c ∷ p) ∷ ps)
string_split-join d c p ps nz h z =
    let same = body-join d c p ps nz h z in
    let (s, e) = join-head d c p ps in
    string_split-eq (join d ((c ∷ p) ∷ ps)) d (λ n. cc (n, same, e))
    ∙ rw (same, cut-join d (c ∷ p) ps h)
