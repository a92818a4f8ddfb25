-- ===== src/Rest/ServicePath/Laws.antt =====
-- Which service paths of a request are accepted.
use fiware_orion.Base.{
  ℕ, zero, suc, ◌≤◌, Str, ◌≡◌, refl, ap, ◌≢◌, ◌↔◌, ◌⊎◌, inl, inr, ◌==◌, str_eq, nat_eq, str_beq_iff,
  str_beq, ◌&&◌, true, false, none, List, [], ◌∷◌, codes, all, ltb, if◌then◌else◌, length, All,
  arith, Bool-cases, Option-cases,
}
use fiware_orion.Strings.Bytes.{c_str, is_alnum, is_digit}
use fiware_orion.Strings.Strip.{ws_strip}
use fiware_orion.Strings.Split.{string_split}
use fiware_orion.Strings.Split.Laws.{string_split_count}
use fiware_orion.Rest.ServicePath.{
  split_paths, max_components, max_component_len, max_paths, is_name_byte, check_component,
  check_components, is_absolute, check_service_path, cut_slashes, remove_trailing_slash, tidy_path,
  tidy_paths, check_paths, service_path_split,
}

-- A letter, a digit or an underscore.
abbrev pub IsNameByte : ℕ → Type 0
IsNameByte c =
    ((b'A' ≤ c) × (c ≤ b'Z')) ⊎ ((b'a' ≤ c) × (c ≤ b'z')) ⊎ ((b'0' ≤ c) × (c ≤ b'9')) ⊎ (c ≡ b'_')

abbrev pub IsName : Str → Type 0
IsName s = All IsNameByte (c_str s)

-- The last component may be a number sign alone.
abbrev pub AreComponents : List Str → Type 0
AreComponents [] = Unit
AreComponents (p ∷ []) = (length (c_str p) ≤ max_component_len) × ((p ≡ codes "#") ⊎ IsName p)
AreComponents (p ∷ (q ∷ qs)) =
    ((length (c_str p) ≤ max_component_len) × IsName p) × AreComponents (q ∷ qs)

pub record IsLegal (path : Str) : Type 0 where
  pub absolute : (s : Str) × (path ≡ b'/' ∷ s)
  pub few : (string_split path b'/' []).0 ≤ max_components
  pub components : AreComponents (string_split path b'/' []).1

is_name_byte_iff : (c : ℕ) → (is_name_byte c ≡ true) ↔ IsNameByte c
unfolding is_name_byte is_alnum is_digit
is_name_byte_iff c = ground arith

all_name_iff : (s : Str) → (all is_name_byte s ≡ true) ↔ All IsNameByte s
unfolding all
all_name_iff [] = ground arith
all_name_iff (c ∷ s) = ground (arith, is_name_byte_iff c, all_name_iff s)

check_last_iff : (p : Str) → (check_component true p ≡ none) ↔ AreComponents (p ∷ [])
unfolding check_component
check_last_iff p = ground (arith, str_beq_iff p (codes "#"), all_name_iff (c_str p))

check_inner_iff :
    (p : Str)
    → (check_component false p ≡ none) ↔ ((length (c_str p) ≤ max_component_len) × IsName p)
unfolding check_component
check_inner_iff p = ground (arith, all_name_iff (c_str p))

check_components_iff : (ps : List Str) → (check_components ps ≡ none) ↔ AreComponents ps
unfolding check_components
check_components_iff [] = ground arith
check_components_iff (p ∷ []) = check_last_iff p
check_components_iff (p ∷ (q ∷ qs)) =
    ground (arith, check_inner_iff p, check_components_iff (q ∷ qs))

-- Where the header was there, servicePathCheck of the front end returns 0 exactly for a path that
-- starts with a slash and has ten components at most, each of fifty bytes at most, all letters,
-- digits and underscores, but for a last component that is a number sign alone.
pub check_service_path_iff : (path : Str) → (check_service_path true path ≡ none) ↔ IsLegal path
unfolding check_service_path is_absolute
check_service_path_iff [] = ((λ h. ground (arith, h)), (λ h. cc (h.absolute.1)))
check_service_path_iff (c ∷ s) =
    let comps = check_components_iff (string_split (c ∷ s) b'/' []).1 in
    (
      (λ h.
          let slash : c ≡ b'/' = ground (arith, h) in
          record {
            absolute = (s, ap (λ d. d ∷ s) slash);
            few = ground (arith, h);
            components = ground (arith, h, comps);
          }),
      (λ legal.
          let slash : c ≡ b'/' = ground (arith, legal.absolute.1) in
          ground (arith, slash, legal.few, legal.components, comps)),
    )

-- The text does not end in a slash.
abbrev pub LastNotSlash : Str → Type 0
LastNotSlash [] = Unit
LastNotSlash (c ∷ []) = c ≢ b'/'
LastNotSlash (c ∷ (d ∷ s)) = LastNotSlash (d ∷ s)

-- Only as its first byte may a path have a slash at its end.
abbrev pub IsTidy : Str → Type 0
IsTidy [] = Unit
IsTidy (c ∷ s) = LastNotSlash s

cut_step :
    (c : ℕ) (rest : Str)
    → LastNotSlash rest
    → LastNotSlash (if c == b'/' && rest == [] then [] else c ∷ rest)
unfolding str_beq
cut_step c [] h = elim (Bool-cases (c == b'/')) [
  | inl y ↦ rw y tt
  | inr n ↦ rw n (λ e. ground (arith, n, e))
]
cut_step c (d ∷ s) h = elim (Bool-cases (c == b'/')) [ inl y ↦ rw y h | inr n ↦ rw n h ]

LastNotSlash-cut : (s : Str) → LastNotSlash (cut_slashes s)
unfolding cut_slashes
LastNotSlash-cut [] = tt
LastNotSlash-cut (c ∷ s) = cut_step c (cut_slashes s) (LastNotSlash-cut s)

IsTidy-remove : (s : Str) → IsTidy (remove_trailing_slash s)
unfolding remove_trailing_slash
IsTidy-remove [] = tt
IsTidy-remove (c ∷ s) = LastNotSlash-cut s

AllTidy : (ps : List Str) → All IsTidy (tidy_paths ps)
unfolding tidy_paths tidy_path
AllTidy [] = tt
AllTidy (p ∷ ps) = (IsTidy-remove (ws_strip (c_str p)), AllTidy ps)

check_paths_iff : (ps : List Str) → (check_paths true ps ≡ none) ↔ All IsLegal ps
unfolding check_paths
check_paths_iff [] = ground arith
check_paths_iff (p ∷ ps) = elim (Option-cases (check_service_path true p)) [
  | inl e ↦
      rw (check_paths, e)
        (
          (λ h. ((check_service_path_iff p).0 e, (check_paths_iff ps).0 h)),
          (λ h. (check_paths_iff ps).1 h.1),
        )
  | inr (fault, e) ↦
      rw (check_paths, e) ((λ h. cc h), (λ h. cc (e, (check_service_path_iff p).1 h.0)))
]

length-tidy : (ps : List Str) → length (tidy_paths ps) ≡ length ps
unfolding tidy_paths
length-tidy [] = refl
length-tidy (p ∷ ps) = ap suc (length-tidy ps)

split_kept :
    (n : ℕ) (paths : List Str)
    → n ≡ length paths
    → (split_paths true n paths).1 ≡ none
    → All IsLegal (split_paths true n paths).0
      × All IsTidy (split_paths true n paths).0
      × (length (split_paths true n paths).0 ≤ max_paths)
unfolding split_paths
split_kept zero [] e h = (tt, tt, omega arith)
split_kept zero (p ∷ ps) e h = ground (arith, e)
split_kept (suc n) paths e h = elim (Bool-cases (ltb max_paths (suc n))) [
  | inl y ↦ ground (arith, h, y)
  | inr y ↦
      let few : length (tidy_paths paths) ≤ max_paths = ground (arith, y, e, length-tidy paths) in
      let legal : check_paths true (tidy_paths paths) ≡ none = ground (arith, h, y) in
      let more : (suc n == 0) ≡ false = ground arith in
      rw (more, y) ((check_paths_iff (tidy_paths paths)).0 legal, AllTidy paths, few)
]

-- Where servicePathSplit returns 0 for a header that was there, all the paths that it leaves are
-- legal, none ends in a slash but the root, and there are ten at most.
pub service_path_split-IsLegal :
    (text : Str)
    → (service_path_split true text).1 ≡ none
    → All IsLegal (service_path_split true text).0
      × All IsTidy (service_path_split true text).0
      × (length (service_path_split true text).0 ≤ max_paths)
unfolding service_path_split
service_path_split-IsLegal text h =
    split_kept (string_split text b',' []).0 (string_split text b',' []).1
      (string_split_count text b',') h
