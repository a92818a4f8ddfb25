-- ===== src/Rest/ServicePath.antt =====
-- The service paths of a request: servicePathCheck, removeTrailingSlash, servicePathSplit,
-- defaultServicePath and urlCheck of src/lib/rest/rest.cpp. A C string is the text before its zero
-- byte.
pub mod Laws
use fiware_orion.Base.{
  ℕ, zero, suc, Str, ◌==◌, str_eq, nat_eq, ◌&&◌, ◌||◌, not, Bool, true, false, Option, none, some,
  List, [], ◌∷◌, codes, all, ltb, if◌then◌else◌, length,
}
use fiware_orion.Base.Int.{ℤ, pos, negsuc}
use fiware_orion.Strings.Bytes.{c_str, is_alnum, contains_nocase, strcasecmp_eq}
use fiware_orion.Strings.Strip.{ws_strip}
use fiware_orion.Strings.Split.{string_split}

abbrev pub max_components : ℕ
max_components = 10

abbrev pub max_component_len : ℕ
max_component_len = 50

abbrev pub max_paths : ℕ
max_paths = 10

-- What a check returns: the number that says what is wrong, and the details of the answer.
abbrev pub Fault : Type 0
Fault = ℤ × Str

unfoldable pub is_name_byte : ℕ → Bool
unfolding is_alnum
is_name_byte c = is_alnum c || c == b'_'

unfoldable pub check_component : Bool → Str → Option Fault
unfolding is_name_byte
check_component is_last comp =
    if ltb max_component_len (length (c_str comp))
    then some (pos 3, codes "component-name too long in ServicePath")
    else if is_last && comp == codes "#"
    then none
    else if all is_name_byte (c_str comp)
    then none
    else some (pos 4, codes "a component of ServicePath contains an illegal character")

-- The loop over the components
unfoldable pub check_components : List Str → Option Fault
check_components [] = none
check_components (comp ∷ []) = check_component true comp
check_components (comp ∷ (q ∷ qs)) = elim (check_component false comp) [
  | some fault ↦ some fault
  | none ↦ check_components (q ∷ qs)
]

-- servicePath[0] != '/'
unfoldable pub is_absolute : Str → Bool
is_absolute [] = false
is_absolute (c ∷ s) = c == b'/'

-- servicePathCheck: none where it returns 0.
unfoldable pub check_service_path : Bool → Str → Option Fault
unfolding is_absolute string_split
check_service_path received path =
    let (components, comps) = string_split path b'/' [] in
    if not received
    then none
    else if not (is_absolute path)
    then some
        (pos 1, codes "Only /absolute/ Service Paths allowed [a service path must begin with /]")
    else if ltb max_components components
    then some (pos 2, codes "too many components in ServicePath")
    else check_components comps

-- The slashes at the end, but for the first byte of the text.
unfoldable pub cut_slashes : Str → Str
cut_slashes [] = []
cut_slashes (c ∷ s) = let rest = cut_slashes s in if c == b'/' && rest == [] then [] else c ∷ rest

unfoldable pub remove_trailing_slash : Str → Str
unfolding cut_slashes
remove_trailing_slash [] = []
remove_trailing_slash (c ∷ s) = c ∷ cut_slashes s

-- The first loop of servicePathSplit
unfoldable pub tidy_path : Str → Str
unfolding remove_trailing_slash ws_strip
tidy_path path = remove_trailing_slash (ws_strip (c_str path))

unfoldable pub tidy_paths : List Str → List Str
tidy_paths [] = []
tidy_paths (p ∷ ps) = tidy_path p ∷ tidy_paths ps

-- The second loop
unfoldable pub check_paths : Bool → List Str → Option Fault
check_paths received [] = none
check_paths received (p ∷ ps) = elim (check_service_path received p) [
  | some fault ↦ some fault
  | none ↦ check_paths received ps
]

-- servicePathSplit, on the number and the list that stringSplit gives
unfoldable pub split_paths : Bool → ℕ → List Str → List Str × Option Fault
unfolding tidy_paths check_paths
split_paths received n paths =
    if n == 0
    then (paths, none)
    else if ltb max_paths n
    then (
      paths,
      some (negsuc 0, codes "too many service paths - a maximum of ten service paths is allowed"),
    )
    else (tidy_paths paths, check_paths received (tidy_paths paths))

-- servicePathSplit: the paths that it leaves, and none where it returns 0.
unfoldable pub service_path_split : Bool → Str → List Str × Option Fault
unfolding string_split split_paths
service_path_split received text =
    let (n, paths) = string_split text b',' [] in split_paths received n paths

abbrev pub default_path : Str
default_path = codes "/"

abbrev pub default_path_recursive : Str
default_path_recursive = codes "/#"

-- The first word of the list that the URL contains chooses.
unfoldable pub first_word : Str → List (Str × Str) → Option Str
unfolding contains_nocase
first_word url [] = none
first_word url ((word, path) ∷ words) =
    if contains_nocase word url then some path else first_word url words

abbrev pub operation_words : List (Str × Str)
operation_words =
    (codes "updateContextAvailabilitySubscription", default_path_recursive)
    ∷ (codes "unsubscribeContextAvailability", default_path_recursive)
    ∷ (codes "subscribeContextAvailability", default_path_recursive)
    ∷ (codes "discoverContextAvailability", default_path_recursive)
    ∷ (codes "notifyContextAvailability", default_path)
    ∷ (codes "updateContextSubscription", default_path_recursive)
    ∷ (codes "unsubscribeContext", default_path_recursive)
    ∷ (codes "subscribeContext", default_path_recursive)
    ∷ (codes "registerContext", default_path)
    ∷ (codes "updateContext", default_path)
    ∷ (codes "notifyContext", default_path)
    ∷ (codes "queryContext", default_path_recursive)
    ∷ (codes "contextAvailabilitySubscriptions", default_path_recursive)
    ∷ (codes "contextSubscriptions", default_path_recursive)
    ∷ []

unfoldable pub default_service_path : Str → Str → Str
unfolding first_word
default_service_path url method = elim (first_word url operation_words) [
  | some path ↦ path
  | none ↦ if strcasecmp_eq method (codes "GET") then default_path_recursive else default_path
]
