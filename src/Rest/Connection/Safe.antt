-- ===== src/Rest/Connection/Safe.antt =====
-- What holds of a connection after any sequence of calls of connectionTreat.
use fiware_orion.Base.{
  ℕ, ◌+◌, ◌<◌, ◌≤◌, Str, ◌≡◌, refl, ◌⊎◌, inl, inr, ◌++◌, ◌==◌, nat_eq, Bool, List, [], ◌∷◌, leb,
  ltb, if◌then◌else◌, length, arith, Bool-cases, Option-cases,
}
use fiware_orion.Rest.{ErrorText}
use fiware_orion.Rest.Connection.{
  Connection, Effect, replied, served, payload_max_size, static_buffer_size, data_call,
  lacks_payload, last_call,
}
use fiware_orion.Rest.Connection.Session.{
  IsChecked, HasRoom, IsSound, Session, fresh, active, closed, Step, opens, uploads, ends, Reach,
  start, next,
}
use fiware_orion.Rest.Connection.Checked.{first_call-IsSound}

-- The last call has replied, or called the service for a request with nothing wrong.
abbrev pub Ended : Bool → Connection → List Effect → Type 0
Ended text_xml c log =
    ((before : List Effect) × (status : ℕ) × (text : ErrorText) × (log
        ≡ before ++ replied status text ∷ []))
    ⊎ ((before : List Effect) × (log ≡ before ++ served ∷ []) × IsChecked text_xml c)

abbrev pub IsSafe : Bool → Session → Type 0
IsSafe text_xml fresh = Unit
IsSafe text_xml (active c log) = IsSound text_xml c
IsSafe text_xml (closed c log) = HasRoom c × Ended text_xml c log

room_fits :
    (n : ℕ)
    → n ≤ payload_max_size
    → n < (if ltb static_buffer_size n then n + 1 else static_buffer_size + 1)
room_fits n h = ground arith

module _ (text_xml : Bool) (decimal : ℕ → Str) where
  data-IsSound :
      (upload : Str) (c : Connection)
      → IsSound text_xml c
      → IsSound text_xml (data_call decimal upload c).0
  unfolding data_call
  data-IsSound upload c s = elim (Bool-cases (length upload == c.headers.content_length)) [
    | inl y ↦
        let n = c.headers.content_length in
        let whole : length upload ≡ n = ground (arith, y) in
        elim (Bool-cases (leb n payload_max_size)) [
          | inl small ↦
              let fits : n ≤ payload_max_size = ground (arith, small) in
              rw (data_call, y, small)
                (record {
                  room = inr (
                    upload,
                    refl,
                    whole,
                    refl,
                    omega (arith, whole, fits),
                    omega (arith, whole, room_fits n fits),
                  );
                  checked = elim s.checked [
                    | inl a ↦ inl a
                    | inr k ↦
                        inr (record {
                          params = k.params;
                          url = k.url;
                          paths = k.paths;
                          type = k.type;
                        })
                  ];
                })
          | inr big ↦ rw (data_call, y, big) (record { room = s.room; checked = inl (_, refl) })
        ]
    | inr n ↦ rw (data_call, n) s
  ]

  last-IsSafe :
      (c : Connection) (log : List Effect)
      → IsSound text_xml c
      → IsSafe text_xml (closed (last_call c).0 (log ++ (last_call c).1))
  unfolding last_call
  last-IsSafe c log s = elim (Bool-cases (lacks_payload c)) [
    | inl y ↦ rw (last_call, y) (s.room, inl (log, _, _, refl))
    | inr n ↦ elim (Option-cases c.answer) [
      | inr (text, e) ↦ rw (last_call, n, e) (s.room, inl (log, _, _, refl))
      | inl e ↦
          rw (last_call, n, e)
            (
              s.room,
              elim s.checked [ inl (text, a) ↦ ground (arith, e, a) | inr k ↦ inr (log, refl, k) ],
            )
    ]
  ]

  Step-IsSafe : {s t : Session} → Step text_xml decimal s t → IsSafe text_xml s → IsSafe text_xml t
  Step-IsSafe (opens o c log e) h = first_call-IsSound text_xml o c log e
  Step-IsSafe (uploads c log upload) h = data-IsSound upload c h
  Step-IsSafe (ends c log) h = last-IsSafe c log h

  -- Whatever request comes in, and however the HTTP library cuts its payload: the payload that a
  -- connection holds is as long as its header says and no longer than the maximum, and its buffer has
  -- room for one byte more. When the connection has ended, its last effect is a reply or the service,
  -- and the service is called only for a request whose URI parameters and service paths are valid, and
  -- whose URL and content type were accepted.
  pub Reach-IsSafe : {s : Session} → Reach text_xml decimal s → IsSafe text_xml s
  Reach-IsSafe start = tt
  Reach-IsSafe (next r st) = Step-IsSafe st (Reach-IsSafe r)
