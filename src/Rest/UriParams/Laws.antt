-- ===== src/Rest/UriParams/Laws.antt =====
-- What the URI parameters can be after uriArgumentGet has seen all arguments.
use fiware_orion.Base.{
  Str, ◌≡◌, refl, sym, subst, ◌⊎◌, inl, inr, ◌≤◌, ◌==◌, str_eq, str_beq, str_beq_iff, true, false,
  Option, none, some, List, [], ◌∷◌, ◌++◌, codes, all, if◌then◌else◌, arith, Bool-cases,
  Option-cases,
}
use fiware_orion.Strings.Bytes.{is_digit, strcasecmp_eq}
use fiware_orion.Strings.Url.{leading_digits}
use fiware_orion.Update.Subscriptions.{Format}
use fiware_orion.Update.{scc_ok}
use fiware_orion.Rest.{ErrorText, Params, store, scc_bad_request}
use fiware_orion.Rest.UriParams.{
  UriState, Verdict, undefined, bad, good, notify_format, pagination_offset, pagination_limit,
  pagination_details, attributes_format, attribute_format, max_pagination_limit, verdict_on,
  notify_format_verdict, offset_verdict, limit_verdict, details_verdict, store_twin,
  uri_argument_get, uri_arguments, value_or_empty, read_value,
}

abbrev pub IsNotifyFormat : Str → Type 0
IsNotifyFormat v = (v ≡ []) ⊎ (v ≡ codes "XML") ⊎ (v ≡ codes "JSON")

-- Decimal digits only: the empty text has none, and is one of these.
abbrev pub AreDigits : Str → Type 0
AreDigits v = all is_digit v ≡ true

abbrev pub IsSwitch : Str → Type 0
IsSwitch v = (strcasecmp_eq v (codes "on") ≡ true) ⊎ (strcasecmp_eq v (codes "off") ≡ true)

-- A number from 1 to the maximum.
abbrev pub IsLimit : Str → Type 0
IsLimit v = AreDigits v × (1 ≤ leading_digits 0 v) × (leading_digits 0 v ≤ max_pagination_limit)

-- What the backend relies on when it reads the parameters with atoi.
pub record IsValid (params : Params) : Type 0 where
  pub format : IsNotifyFormat (params notify_format)
  pub offset : AreDigits (params pagination_offset)
  pub limit : IsLimit (params pagination_limit)
  pub details : IsSwitch (params pagination_details)

IsNotifyFormat-good : (val v : Str) → notify_format_verdict val ≡ good v → IsNotifyFormat v
unfolding notify_format_verdict
IsNotifyFormat-good val v h = ground arith

AreDigits-good : (val v : Str) → offset_verdict val ≡ good v → AreDigits v
unfolding offset_verdict
AreDigits-good val v h = ground arith

IsLimit-good : (val v : Str) → limit_verdict val ≡ good v → IsLimit v
unfolding limit_verdict
IsLimit-good val v h = ground arith

IsSwitch-good : (val v : Str) → details_verdict val ≡ good v → IsSwitch v
unfolding details_verdict
IsSwitch-good val v h = ground arith

-- What is stored under each of the four keys is good.
IsNotifyFormat-stored :
    (val : Option Str) (v : Str) → verdict_on notify_format val ≡ good v → IsNotifyFormat v
unfolding verdict_on str_beq
IsNotifyFormat-stored none v h = cc
IsNotifyFormat-stored (some val) v h = IsNotifyFormat-good val v h

AreDigits-stored :
    (val : Option Str) (v : Str) → verdict_on pagination_offset val ≡ good v → AreDigits v
unfolding verdict_on str_beq
AreDigits-stored none v h = cc
AreDigits-stored (some val) v h = AreDigits-good val v h

IsLimit-stored : (val : Option Str) (v : Str) → verdict_on pagination_limit val ≡ good v → IsLimit v
unfolding verdict_on str_beq
IsLimit-stored none v h = cc
IsLimit-stored (some val) v h = IsLimit-good val v h

IsSwitch-stored :
    (val : Option Str) (v : Str) → verdict_on pagination_details val ≡ good v → IsSwitch v
unfolding verdict_on str_beq value_or_empty
IsSwitch-stored none v h = IsSwitch-good [] v h
IsSwitch-stored (some val) v h = IsSwitch-good val v h

module _ (key : Str) (val : Option Str) (w v : Str) (params : Params) where
  abbrev stored : Params
  stored = store key v (store_twin key w params)

  -- A key that is no spelling of the attribute format holds `v` or what it did.
  twin_lookup :
      (k : Str)
      → (k == attribute_format) ≡ false
      → (k == attributes_format) ≡ false
      → store_twin key w params k ≡ params k
  unfolding store_twin store
  twin_lookup k m n = elim (Bool-cases (key == attributes_format)) [
    | inl y ↦ rw (y, m)
    | inr y ↦ elim (Bool-cases (key == attribute_format)) [
      | inl z ↦ rw (y, z, n)
      | inr z ↦ rw (y, z)
    ]
  ]

  stored_lookup :
      (k : Str)
      → ((k == attribute_format) ≡ false) × ((k == attributes_format) ≡ false)
      → stored k ≡ (if k == key then v else params k)
  unfolding store
  stored_lookup k h = rw (twin_lookup k h.0 h.1)

  stored-at :
      (k : Str) (P : Str → Type 0)
      → ((k == attribute_format) ≡ false) × ((k == attributes_format) ≡ false)
      → ((u : Str) → verdict_on k val ≡ good u → P u)
      → verdict_on key val ≡ good v
      → P (params k)
      → P (stored k)
  stored-at k P m f h p = rw (stored_lookup k m) (elim (Bool-cases (k == key)) [
    | inl y ↦ rw y (f v (subst (λ j. verdict_on j val ≡ good v) (sym ((str_beq_iff k key).0 y)) h))
    | inr n ↦ rw n p
  ])

  stored-IsValid : verdict_on key val ≡ good v → IsValid params → IsValid stored
  unfolding str_beq
  stored-IsValid h valid = record {
    format =
        stored-at notify_format IsNotifyFormat (refl, refl) (IsNotifyFormat-stored val) h
          valid.format;
    offset =
        stored-at pagination_offset AreDigits (refl, refl) (AreDigits-stored val) h valid.offset;
    limit = stored-at pagination_limit IsLimit (refl, refl) (IsLimit-stored val) h valid.limit;
    details =
        stored-at pagination_details IsSwitch (refl, refl) (IsSwitch-stored val) h valid.details;
  }

Verdict-cases :
    (x : Verdict) → (x ≡ undefined) ⊎ ((d : Str) × (x ≡ bad d)) ⊎ ((v : Str) × (x ≡ good v))
Verdict-cases undefined = inl refl
Verdict-cases (bad d) = inr (inl (d, refl))
Verdict-cases (good v) = inr (inr (v, refl))

module _ (out_format : Format) where
  get-IsValid :
      (key : Str) (val : Option Str) (st st' : UriState)
      → uri_argument_get out_format key val st ≡ some st'
      → IsValid st.uri_params
      → IsValid st'.uri_params
  unfolding uri_argument_get
  get-IsValid key val st st' h valid = elim (Verdict-cases (verdict_on key val)) [
    | inl e ↦ ground (arith, h, e)
    | inr (inl (d, e)) ↦
        let same : st'.uri_params ≡ st.uri_params = ground (arith, h, e) in
        subst IsValid (sym same) valid
    | inr (inr (v, e)) ↦
        (let same : st'.uri_params ≡ stored key val (value_or_empty val) v st.uri_params =
            ground (arith, h, e) in
          subst IsValid (sym same)
            (stored-IsValid key val (value_or_empty val) v st.uri_params e valid))
  ]

  -- Whatever arguments a URI has, in whatever order and however often: where the parameters of the
  -- connection were valid before, as the defaults are, they are so after the last argument that is
  -- read without undefined behaviour. The notification format is XML, JSON or none, the offset has no
  -- bytes but decimal digits and may be empty, the limit is a number from 1 to 1000, and `details` is on or off.
  pub uri_arguments-IsValid :
      (args : List (Str × Option Str)) (st st' : UriState)
      → uri_arguments out_format args st ≡ some st'
      → IsValid st.uri_params
      → IsValid st'.uri_params
  unfolding uri_arguments
  uri_arguments-IsValid [] st st' h valid =
      let same : st.uri_params ≡ st'.uri_params = ground (arith, h) in subst IsValid same valid
  uri_arguments-IsValid ((key, val) ∷ args) st st' h valid =
      elim (Option-cases (uri_argument_get out_format key val st)) [
        | inl e ↦ ground (arith, h, e)
        | inr (next, e) ↦
            let later : uri_arguments out_format args next ≡ some st' = ground (arith, h, e) in
            uri_arguments-IsValid args next st' later (get-IsValid key val st next e valid)
      ]

-- A status that is not 200 comes with an answer.
abbrev pub IsReported : UriState → Type 0
IsReported st = (st.status ≡ scc_ok) ⊎ ((text : ErrorText) × (st.answer ≡ some text))

pub uri_arguments-IsReported :
    (out_format : Format) (args : List (Str × Option Str)) (st st' : UriState)
    → uri_arguments out_format args st ≡ some st'
    → IsReported st
    → IsReported st'
unfolding uri_arguments uri_argument_get
uri_arguments-IsReported f [] st st' h r =
    let same : st ≡ st' = ground (arith, h) in subst IsReported same r
uri_arguments-IsReported f ((key, val) ∷ args) st st' h r =
    elim (Verdict-cases (verdict_on key val)) [
      | inl e ↦ ground (arith, h, e)
      | inr (inl (d, e)) ↦
          let error : ErrorText = record {
            format = f;
            request = [];
            code = scc_bad_request;
            details = d;
          } in
          let next : UriState = record st { status = scc_bad_request; answer = some error } in
          let later : uri_arguments f args next ≡ some st' = ground (arith, h, e) in
          uri_arguments-IsReported f args next st' later (inr (error, refl))
      | inr (inr (v, e)) ↦
          let next : UriState = record st {
            uri_params = store key v (store_twin key (value_or_empty val) st.uri_params);
          } in
          let later : uri_arguments f args next ≡ some st' = ground (arith, h, e) in
          uri_arguments-IsReported f args next st' later r
    ]

-- The parameters whose value the callback reads without a test for NULL.
abbrev pub IsRead : Str → Type 0
IsRead key = (key ≡ notify_format) ⊎ (key ≡ pagination_offset) ⊎ (key ≡ pagination_limit)

undefined_on : (key : Str) → IsRead key → verdict_on key none ≡ undefined
unfolding verdict_on read_value str_beq
undefined_on key (inl e) = rw e refl
undefined_on key (inr (inl e)) = rw e refl
undefined_on key (inr (inr e)) = rw e refl

get_null :
    (out_format : Format) (key : Str) (st : UriState)
    → IsRead key
    → uri_argument_get out_format key none st ≡ none
unfolding uri_argument_get
get_null out_format key st r = rw (uri_argument_get, undefined_on key r) refl

-- A URI that gives notifyFormat, offset or limit no value, as in "?limit", makes the callback read
-- through a null pointer, whatever other arguments stand before and behind it.
pub uri_arguments-null :
    (out_format : Format) (key : Str) (before behind : List (Str × Option Str)) (st : UriState)
    → IsRead key
    → uri_arguments out_format (before ++ (key, none) ∷ behind) st ≡ none
unfolding uri_arguments
uri_arguments-null out_format key [] behind st r =
    rw (uri_arguments, get_null out_format key st r) refl
uri_arguments-null out_format key ((k, v) ∷ before) behind st r =
    elim (Option-cases (uri_argument_get out_format k v st)) [
      | inl e ↦ rw (uri_arguments, e) refl
      | inr (next, e) ↦
          rw (uri_arguments, e) (uri_arguments-null out_format key before behind next r)
    ]
