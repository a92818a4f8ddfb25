-- ===== src/Rest/Connection/Tenant.antt =====
-- The tenant of the header in the first call of connectionTreat: it is copied to a local buffer.
use fiware_orion.Base.{
  ℕ, ◌<◌, ◌≤◌, Str, ◌≡◌, refl, subst, ◌↔◌, ◌⊎◌, inl, inr, ◌==◌, nat_eq, Bool, true, none, some, ltb,
  length, arith, Bool-cases,
}
use fiware_orion.Strings.Bytes.{c_str}
use fiware_orion.Strings.Lower.{str_to_lower, str_to_lower_lem}
use fiware_orion.Update.{scc_ok}
use fiware_orion.Update.Subscriptions.{xml}
use fiware_orion.Rest.UriParams.{UriState, uri_arguments}
use fiware_orion.Rest.Mime.{http_headers}
use fiware_orion.Rest.Connection.{
  Connection, Opening, no_headers, tenant_buffer_size, new_connection, read_headers, read_tenant,
  first_call,
}
use fiware_orion.Rest.Connection.Checked.{uri_state, after_uri}

abbrev pub tenant_header : Opening → Str
tenant_header o = (http_headers o.header_lines no_headers).tenant

tenant-headers :
    (o : Opening) (st : UriState)
    → (read_headers o (after_uri o st)).headers.tenant ≡ tenant_header o
unfolding read_headers new_connection
tenant-headers o st =
    elim (Bool-cases ((http_headers o.header_lines no_headers).service_path_received)) [
      | inl y ↦ rw (read_headers, y) refl
      | inr n ↦ rw (read_headers, n) refl
    ]

-- strToLower of a text into a buffer of `n` bytes
copied-cases :
    (from to : Str) (n : ℕ)
    → length to ≡ n
    → ((length (c_str from) < n) × (b : Str) × (str_to_lower to from n ≡ some b))
      ⊎ ((n ≤ length (c_str from)) × (str_to_lower to from n ≡ none))
copied-cases from to n e =
    let whole = str_to_lower_lem from to in
    subst
      (λ m.
        ((length (c_str from) < m) × (b : Str) × (str_to_lower to from m ≡ some b))
        ⊎ ((m ≤ length (c_str from)) × (str_to_lower to from m ≡ none)))
      e
      (elim (Bool-cases (ltb (length (c_str from)) (length to))) [
        | inl y ↦ inl (ground (arith, y), _, rw y at whole)
        | inr n ↦ inr (ground (arith, n), rw n at whole)
      ])

tenant-cases :
    (o : Opening) (c : Connection)
    → length o.tenant_buffer ≡ tenant_buffer_size
    → ((length (c_str c.headers.tenant) < tenant_buffer_size)
        × (d : Connection) × (read_tenant o c ≡ some d))
      ⊎ ((tenant_buffer_size ≤ length (c_str c.headers.tenant)) × (read_tenant o c ≡ none))
unfolding read_tenant
tenant-cases o c e = elim (copied-cases c.headers.tenant o.tenant_buffer tenant_buffer_size e) [
  | inl (small, b, f) ↦
      inl (small, record c { tenant_from_header = c_str b }, rw (read_tenant, f) refl)
  | inr (big, f) ↦ inr (big, rw (read_tenant, f) refl)
]

-- For a request whose URI parameters are accepted, the first call writes past the end of the buffer
-- for the tenant exactly where the Fiware-Service header has 128 bytes or more.
pub first_call_undefined_iff :
    (text_xml : Bool) (o : Opening) (st : UriState)
    → uri_arguments xml o.arguments (uri_state (new_connection o)) ≡ some st
    → st.status ≡ scc_ok
    → length o.tenant_buffer ≡ tenant_buffer_size
    → (first_call text_xml o ≡ none) ↔ (tenant_buffer_size ≤ length (c_str (tenant_header o)))
unfolding first_call new_connection
first_call_undefined_iff text_xml o st e ok size =
    let c = read_headers o (after_uri o st) in
    let same = tenant-headers o st in
    let fine : (st.status == scc_ok) ≡ true = ground (arith, ok) in
    elim (tenant-cases o c size) [
      | inl (small, d, f) ↦
          let small' = subst (λ s. length (c_str s) < tenant_buffer_size) same small in
          rw (first_call, e, fine, f) ((λ h. cc h), (λ h. absurd (omega (arith, h, small'))))
      | inr (big, f) ↦
          let big' = subst (λ s. tenant_buffer_size ≤ length (c_str s)) same big in
          rw (first_call, e, fine, f) ((λ h. big'), (λ h. refl))
    ]
