-- ===== src/Rest/Connection/Checked.antt =====
-- What is true of a connection after the first call of connectionTreat.
use fiware_orion.Base.{
  ℕ, ◌≤◌, Str, ◌≡◌, refl, sym, ap₂, ◌∙◌, subst, ◌⊎◌, inl, inr, ◌==◌, str_eq, nat_eq, str_beq, Bool,
  true, false, none, some, List, [], length, All, arith, Bool-cases, Option-cases, all,
}
use fiware_orion.Strings.Checks.{forbidden_chars}
use fiware_orion.Update.{scc_ok}
use fiware_orion.Update.Subscriptions.{Format, no_format, xml, json}
use fiware_orion.Rest.{store, HttpHeaders}
use fiware_orion.Rest.UriParams.{notify_format, UriState, uri_arguments}
use fiware_orion.Rest.UriParams.Laws.{
  IsValid, uri_arguments-IsValid, uri_arguments-IsReported, IsNotifyFormat,
}
use fiware_orion.Strings.Lower.{str_to_lower}
use fiware_orion.Strings.Bytes.{is_digit, strcasecmp_eq}
use fiware_orion.Strings.Url.{leading_digits}
use fiware_orion.Rest.Mime.{content_type_error, wanted_format}
use fiware_orion.Rest.ServicePath.{max_paths, service_path_split}
use fiware_orion.Rest.ServicePath.Laws.{IsLegal, service_path_split-IsLegal}
use fiware_orion.Rest.Connection.{
  Connection, Effect, Opening, first_call, check_request, url_check, read_service_paths, read_types,
  default_notify_format, notify_format_of, default_params, new_connection, tenant_buffer_size,
  read_headers, read_tenant, read_accept,
}
use fiware_orion.Rest.Connection.Session.{IsChecked, HasAnswer, IsSound}

Format-cases : (f : Format) → (f ≡ no_format) ⊎ (f ≡ xml) ⊎ (f ≡ json)
Format-cases no_format = inl refl
Format-cases xml = inr (inl refl)
Format-cases json = inr (inr refl)

-- What the paths are where no fault was found.
abbrev HasPaths : Connection → Type 0
HasPaths c =
    (c.headers.service_path_received ≡ false)
    ⊎ (All IsLegal c.service_paths × (length c.service_paths ≤ max_paths))

abbrev with_paths : Connection → Connection
with_paths c = record c {
  service_path = c.headers.service_path;
  service_paths = (service_path_split c.headers.service_path_received c.headers.service_path).0;
}

split_HasPaths :
    (received : Bool) (text : Str)
    → (service_path_split received text).1 ≡ none
    → (received ≡ false)
      ⊎ (All IsLegal (service_path_split received text).0
          × (length (service_path_split received text).0 ≤ max_paths))
split_HasPaths false text h = inl refl
split_HasPaths true text h =
    let (legal, tidy, few) = service_path_split-IsLegal text h in inr (legal, few)

paths-cases :
    (c : Connection)
    → HasAnswer (read_service_paths c).0
      ⊎ (HasPaths (with_paths c) × ((read_service_paths c).0 ≡ with_paths c))
unfolding read_service_paths
paths-cases c =
    let split = service_path_split c.headers.service_path_received c.headers.service_path in
    elim (Option-cases split.1) [
      | inl e ↦ inr (
        split_HasPaths c.headers.service_path_received c.headers.service_path e,
        rw (read_service_paths, e) refl,
      )
      | inr (fault, e) ↦ inl (rw (read_service_paths, e) (_, refl))
    ]

-- The parts of a connection that no check changes.
abbrev SameRequest : Connection → Connection → Type 0
SameRequest c d =
    (d.uri_params ≡ c.uri_params)
    × (d.url ≡ c.url)
    × (d.headers ≡ c.headers)
    × (d.service_paths ≡ c.service_paths)
    × (d.payload ≡ c.payload)

types-cases :
    (text_xml : Bool) (c : Connection)
    → SameRequest c (read_types text_xml c).0
      × (HasAnswer (read_types text_xml c).0
          ⊎ ((content_type_error text_xml c.headers ≡ none)
              × ((read_types text_xml c).0.answer ≡ c.answer)))
unfolding read_types
types-cases text_xml c = elim (Option-cases (content_type_error text_xml c.headers)) [
  | inl e ↦ elim (Format-cases (wanted_format text_xml c.headers.accept)) [
    | inl f ↦ rw (read_types, e, f) ((refl, refl, refl, refl, refl), inl (_, refl))
    | inr (inl f) ↦ rw (read_types, e, f) ((refl, refl, refl, refl, refl), inr (refl, refl))
    | inr (inr f) ↦ rw (read_types, e, f) ((refl, refl, refl, refl, refl), inr (refl, refl))
  ]
  | inr (d, e) ↦ rw (read_types, e) ((refl, refl, refl, refl, refl), inl (_, refl))
]

notify-IsValid :
    (c : Connection) → IsValid c.uri_params → IsValid (default_notify_format c).uri_params
unfolding default_notify_format store str_beq
notify-IsValid c v = elim (Bool-cases (c.uri_params notify_format == [])) [
  | inl y ↦
      rw (default_notify_format, y)
        (record {
          format = format_lem c.out_format;
          offset = v.offset;
          limit = v.limit;
          details = v.details;
        })
  | inr n ↦ rw (default_notify_format, n) v
]
  where
    format_lem : (f : Format) → IsNotifyFormat (notify_format_of f)
    format_lem no_format = inr (inl refl)
    format_lem xml = inr (inl refl)
    format_lem json = inr (inr refl)

-- The default of the notification format changes that parameter alone.
notify-same :
    (c : Connection)
    → ((default_notify_format c).answer ≡ c.answer)
      × ((default_notify_format c).url ≡ c.url)
      × ((default_notify_format c).headers ≡ c.headers)
      × ((default_notify_format c).service_paths ≡ c.service_paths)
      × ((default_notify_format c).payload ≡ c.payload)
unfolding default_notify_format
notify-same c = elim (Bool-cases (c.uri_params notify_format == [])) [
  | inl y ↦ rw (default_notify_format, y) (refl, refl, refl, refl, refl)
  | inr n ↦ rw (default_notify_format, n) (refl, refl, refl, refl, refl)
]

-- The connection after the check of the types, and after the default of the notification format.
module _ (text_xml : Bool) (c : Connection) where
  abbrev typed : Connection
  typed = (read_types text_xml c).0

  abbrev ready : Connection
  ready = default_notify_format typed

module _ (text_xml : Bool) (c : Connection) (v : IsValid c.uri_params)
    (empty : c.payload ≡ none) where
  ready_empty : (ready text_xml c).payload ≡ none
  ready_empty = (notify-same (typed text_xml c)).4 ∙ (types-cases text_xml c).0.4 ∙ empty

  ready-IsChecked :
      forbidden_chars (some c.url) ≡ false
      → HasPaths c
      → content_type_error text_xml c.headers ≡ none
      → IsChecked text_xml (ready text_xml c)
  ready-IsChecked u p e =
      let same = notify-same (typed text_xml c) in
      let ((params, url, headers, paths, payload), _) = types-cases text_xml c in
      record {
        params = notify-IsValid (typed text_xml c) (subst IsValid (sym params) v);
        url = subst (λ s. forbidden_chars (some s) ≡ false) (sym (same.1 ∙ url)) u;
        paths =
            subst
              (λ (x : HttpHeaders × List Str).
                (x.0.service_path_received ≡ false) ⊎ (All IsLegal x.1 × (length x.1 ≤ max_paths)))
              (ap₂ (λ a b. (a, b)) (sym (same.2 ∙ headers)) (sym (same.3 ∙ paths))) p;
        type = subst (λ h. content_type_error text_xml h ≡ none) (sym (same.2 ∙ headers)) e;
      }

  ready-IsSound :
      forbidden_chars (some c.url) ≡ false
      → HasAnswer c ⊎ HasPaths c
      → IsSound text_xml (ready text_xml c)
  ready-IsSound u (inl (text, a)) =
      let (_, answer) = types-cases text_xml c in
      record {
        room = inl ready_empty;
        checked = inl (elim answer [
          | inl (t, b) ↦ (t, (notify-same (typed text_xml c)).0 ∙ b)
          | inr (_, b) ↦ (text, (notify-same (typed text_xml c)).0 ∙ b ∙ a)
        ]);
      }
  ready-IsSound u (inr p) =
      let (_, answer) = types-cases text_xml c in
      record {
        room = inl ready_empty;
        checked = elim answer [
          | inl (t, b) ↦ inl (t, (notify-same (typed text_xml c)).0 ∙ b)
          | inr (e, _) ↦ inr (ready-IsChecked u p e)
        ];
      }

module _ (text_xml : Bool) (c : Connection) (v : IsValid c.uri_params)
    (empty : c.payload ≡ none) where
  paths_same :
      ((read_service_paths c).0.uri_params ≡ c.uri_params)
      × ((read_service_paths c).0.url ≡ c.url)
      × ((read_service_paths c).0.payload ≡ c.payload)
      × ((read_service_paths c).0.headers ≡ c.headers)
  unfolding read_service_paths
  paths_same =
      let split = service_path_split c.headers.service_path_received c.headers.service_path in
      elim (Option-cases split.1) [
        | inl e ↦ rw (read_service_paths, e) (refl, refl, refl, refl)
        | inr (fault, e) ↦ rw (read_service_paths, e) (refl, refl, refl, refl)
      ]

  paths_read :
      forbidden_chars (some c.url) ≡ false
      → IsSound text_xml (ready text_xml (read_service_paths c).0)
  paths_read u =
      let (params, url, payload, headers) = paths_same in
      let d : Connection = (read_service_paths c).0 in
      let found : HasAnswer d ⊎ HasPaths d = elim (paths-cases c) [
        | inl a ↦ inl a
        | inr (p, e) ↦ inr (subst HasPaths (sym e) p)
      ] in
      ready-IsSound text_xml d (subst IsValid (sym params) v) (payload ∙ empty)
        (subst (λ s. forbidden_chars (some s) ≡ false) (sym url) u) found

  check-IsSound : IsSound text_xml (check_request text_xml c).0
  unfolding check_request url_check
  check-IsSound = elim (Bool-cases (forbidden_chars (some c.url))) [
    | inl y ↦ rw (check_request, y) (record { room = inl empty; checked = inl (_, refl) })
    | inr n ↦ rw (check_request, n) (paths_read n)
  ]

pub default-IsValid : IsValid default_params
unfolding default_params store str_beq all is_digit leading_digits strcasecmp_eq
default-IsValid = record {
  format = inl refl;
  offset = refl;
  limit = (refl, omega arith, omega arith);
  details = inr refl;
}

tenant-same :
    (o : Opening) (c d : Connection)
    → read_tenant o c ≡ some d
    → (d.uri_params ≡ c.uri_params) × (d.payload ≡ c.payload)
unfolding read_tenant
tenant-same o c d h =
    elim (Option-cases (str_to_lower o.tenant_buffer c.headers.tenant tenant_buffer_size)) [
      | inl e ↦ ground (arith, h, e)
      | inr (b, e) ↦ ground (arith, h, e)
    ]

-- The state before and after the arguments of the URI
abbrev pub uri_state : Connection → UriState
uri_state c = record { uri_params = c.uri_params; status = c.status; answer = c.answer }

abbrev pub after_uri : Opening → UriState → Connection
after_uri o st = record (new_connection o) {
  uri_params = st.uri_params;
  status = st.status;
  answer = st.answer;
}

-- Where the URI is fine
open-IsSound :
    (text_xml : Bool) (o : Opening) (st : UriState) (c : Connection) (log : List Effect)
    → IsValid st.uri_params
    → (elim (read_tenant o (read_headers o (after_uri o st))) [
      | none ↦ none
      | some d ↦ some (check_request text_xml (read_accept text_xml d))
    ])
      ≡ some (c, log)
    → IsSound text_xml c
unfolding read_headers read_accept new_connection
open-IsSound text_xml o st c log v h =
    elim (Option-cases (read_tenant o (read_headers o (after_uri o st)))) [
      | inl e ↦ ground (arith, h, e)
      | inr (d, e) ↦
          let (params, payload) = tenant-same o (read_headers o (after_uri o st)) d e in
          let same : check_request text_xml (read_accept text_xml d) ≡ (c, log) =
            ground (arith, h, e) in
          let sound =
            check-IsSound text_xml (read_accept text_xml d) (subst IsValid (sym params) v)
              payload in
          subst (λ x. IsSound text_xml x.0) same sound
    ]

absurd_ok {ℓ} : {A : Type ℓ} {n : ℕ} → (n == scc_ok) ≡ false → n ≡ scc_ok → A
absurd_ok h e = ground (arith, h, e)

-- The first call leaves a sound connection, whatever the request is.
pub first_call-IsSound :
    (text_xml : Bool) (o : Opening) (c : Connection) (log : List Effect)
    → first_call text_xml o ≡ some (c, log)
    → IsSound text_xml c
unfolding first_call new_connection
first_call-IsSound text_xml o c log h =
    elim (Option-cases (uri_arguments xml o.arguments (uri_state (new_connection o)))) [
      | inl e ↦ ground (arith, h, e)
      | inr (st, e) ↦
          let start = uri_state (new_connection o) in
          let v = uri_arguments-IsValid xml o.arguments start st e default-IsValid in
          elim (Bool-cases (st.status == scc_ok)) [
            | inl y ↦ open-IsSound text_xml o st c log v (rw (first_call, e, y) at h)
            | inr n ↦
                let same : after_uri o st ≡ c = ground (arith, h, e, n) in
                let bad : HasAnswer (after_uri o st) =
                  elim (uri_arguments-IsReported xml o.arguments start st e (inl refl)) [
                    | inl ok ↦ absurd_ok n ok
                    | inr a ↦ a
                  ] in
                subst (IsSound text_xml) same (record { room = inl refl; checked = inl bad })
          ]
    ]
