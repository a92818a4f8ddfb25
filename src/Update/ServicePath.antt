-- ===== src/Update/ServicePath.antt =====
-- The regular expression for the service paths of subscriptions:
-- servicePathSubscriptionRegex of src/lib/mongoBackend/MongoCommonUpdate.cpp.
use fiware_orion.Base.{ℕ, zero, suc, Str, List, [], ◌∷◌, ◌++◌, codes, ◌==◌, str_eq, if◌then◌else◌}
use fiware_orion.Strings.Split.{string_split}

-- "\\/" of the source: a backslash and a slash
abbrev pub escaped_slash : Str
escaped_slash = 0x5c ∷ b'/' ∷ []

abbrev pub up_to_end : Str
up_to_end = codes "#$"

-- The components so far, each behind an escaped slash.
unfoldable pub escaped_path : List Str → Str
escaped_path [] = []
escaped_path (c ∷ cs) = escaped_slash ++ (c ++ escaped_path cs)

-- The loop of step 2: one alternative for each component, for the path that ends there.
unfoldable pub prefix_alternatives : Str → List Str → Str
prefix_alternatives acc [] = []
prefix_alternatives acc (c ∷ cs) =
    let path = acc ++ (escaped_slash ++ c) in
    codes "|^" ++ (path ++ (escaped_slash ++ (up_to_end ++ prefix_alternatives path cs)))

unfoldable pub path_regex : ℕ → List Str → Str
path_regex zero spath =
    codes "^$|^" ++ (escaped_slash ++ (codes "#$|^" ++ (escaped_slash ++ codes "$")))
path_regex (suc n) spath =
    codes "^$|^"
    ++ (escaped_slash
        ++ (up_to_end
            ++ (prefix_alternatives [] spath ++ (codes "|^" ++ (escaped_path spath ++ codes "$")))))

-- The regular expression, and `spathV` after the call.
unfoldable pub service_path_subscription_regex : Str → List Str → Str × List Str
service_path_subscription_regex service_path spath =
    if service_path == []
    then (path_regex 0 spath, spath)
    else (let (n, out) = string_split service_path b'/' spath in (path_regex n out, out))
