-- ===== src/Server/Bounds.antt =====
-- The limits that the callbacks of tools/branchscore_server.cpp keep.
use branchscore.Base.{
  ℕ, ◌+◌, ◌≤◌, ◌≡◌, refl, Bool, true, false, List, [], ◌∷◌, ◌++◌, Bytes, String, suc, length,
  length-append, min, arith, ltb, Bool-cases, inl, inr, if◌then◌else◌,
}
use branchscore.Base.Words.{sub64, sub64-exact}
use branchscore.Server.Authorization.{lowercase, trim}
use branchscore.Server.Context.{
  ParseContext, Signal, go_on, halt, pause, add_header_bytes, counted, overruns, fail, store_header,
  finish_header, max_request_body_bytes, max_request_header_bytes, on_method, on_url, on_version,
  on_header_field, on_header_field_complete, on_header_value, on_header_value_complete,
  on_headers_complete, on_body, on_message_complete,
}
use branchscore.Server.Intake.{
  Event, method, url, version, header_field, header_value, body, header_field_complete,
  header_value_complete, message_complete, headers_complete, callback, callbacks, unless_stopped,
}

-- The limits on what a context holds.
pub record IsBounded (c : ParseContext) : Type 0 where
  pub headers_bounded : c.header_bytes ≤ max_request_header_bytes
  pub method_bounded : length c.request.method ≤ 32
  pub url_bounded : length c.request.url ≤ 4096
  pub name_bounded : length c.header_name ≤ max_request_header_bytes
  pub value_bounded : length c.header_value ≤ max_request_header_bytes
  pub body_bounded : length c.request.body ≤ max_request_body_bytes

abbrev Kept : Signal × ParseContext → Type 0
Kept (signal, c) = IsBounded c

-- Within the limit, the two unsigned subtractions of a guard do not wrap around.
overruns-append :
    (limit : ℕ) (stored bytes : Bytes)
    → limit ≤ 16384
    → length stored ≤ limit
    → overruns (length bytes) limit (length stored) ≡ false
    → length (stored ++ bytes) ≤ limit
overruns-append limit stored bytes small fits h =
    let exact = sub64-exact limit (min limit (length stored)) (omega arith) (omega arith) in
    ground (arith, length-append stored bytes, exact)

counted-Kept :
    (c : ParseContext) (count : ℕ) (rest : ParseContext → Signal × ParseContext)
    → IsBounded c
    → ((n : ℕ) → n ≤ max_request_header_bytes → Kept (rest (record c { header_bytes = n })))
    → Kept (counted c count rest)
unfolding add_header_bytes
counted-Kept c count rest b k =
    elim (Bool-cases (ltb (sub64 max_request_header_bytes c.header_bytes) count)) [
      | inl full ↦ rw (full) (omega arith)
      | inr room ↦ rw (room) (
          k (c.header_bytes + count)
            (ground (arith, sub64-exact max_request_header_bytes c.header_bytes)))
    ]

-- A callback that appends to a text of limited length.
guarded-Kept :
    (limit status : ℕ) (code : String) (stored bytes : Bytes) (c : ParseContext)
    (rest : ParseContext → Signal × ParseContext)
    → limit ≤ 16384
    → length stored ≤ limit
    → IsBounded c
    → ((n : ℕ)
        → n ≤ max_request_header_bytes
        → length (stored ++ bytes) ≤ limit
        → Kept (rest (record c { header_bytes = n })))
    → Kept (
        if overruns (length bytes) limit (length stored)
        then fail status code c
        else counted c (length bytes) rest)
guarded-Kept limit status code stored bytes c rest small fits b k =
    elim (Bool-cases (overruns (length bytes) limit (length stored))) [
      | inl long ↦ rw (long) (omega arith)
      | inr short ↦ rw (short) (
          counted-Kept c (length bytes) rest b
            λ n h. k n h (overruns-append limit stored bytes small fits short))
    ]

on_method-Kept : (c : ParseContext) (bytes : Bytes) → IsBounded c → Kept (on_method c bytes)
unfolding on_method
on_method-Kept c bytes b =
    guarded-Kept 32 _ _ c.request.method bytes c _ (omega arith) b.method_bounded b
      λ n h fits. omega arith

on_url-Kept : (c : ParseContext) (bytes : Bytes) → IsBounded c → Kept (on_url c bytes)
unfolding on_url
on_url-Kept c bytes b =
    guarded-Kept 4096 _ _ c.request.url bytes c _ (omega arith) b.url_bounded b
      λ n h fits. omega arith

on_header_field-Kept :
    (c : ParseContext) (bytes : Bytes) → IsBounded c → Kept (on_header_field c bytes)
unfolding on_header_field
on_header_field-Kept c bytes b =
    guarded-Kept 16384 _ _ c.header_name bytes c _ (omega arith) b.name_bounded b
      λ n h fits. omega arith

on_header_value-Kept :
    (c : ParseContext) (bytes : Bytes) → IsBounded c → Kept (on_header_value c bytes)
unfolding on_header_value
on_header_value-Kept c bytes b =
    guarded-Kept 16384 _ _ c.header_value bytes c _ (omega arith) b.value_bounded b
      λ n h fits. omega arith

length-lowercase : (v : Bytes) → length (lowercase v) ≡ length v
unfolding lowercase
length-lowercase [] = refl
length-lowercase (c ∷ cs) = omega (arith, length-lowercase cs)

store_header-IsBounded :
    (c : ParseContext) (value : Bytes) → IsBounded c → IsBounded (store_header c value)
unfolding store_header
store_header-IsBounded c value b = ground arith

finish_header-Kept : (b : Bool) (c : ParseContext) → IsBounded c → Kept (finish_header (b, c))
unfolding finish_header
finish_header-Kept false c b = omega arith
finish_header-Kept true c b = elim (Bool-cases (ltb 64 c.header_count)) [
  | inl many ↦ rw (many) (omega arith)
  | inr few ↦
      rw (few) (let stored = store_header-IsBounded c (trim c.header_value) b in omega arith)
]

add_header_bytes-IsBounded :
    (c : ParseContext) (count : ℕ) → IsBounded c → IsBounded (add_header_bytes c count).1
unfolding add_header_bytes
add_header_bytes-IsBounded c count b =
    elim (Bool-cases (ltb (sub64 max_request_header_bytes c.header_bytes) count)) [
      | inl full ↦ rw (full) (omega arith)
      | inr room ↦ rw (room) (ground (arith, sub64-exact max_request_header_bytes c.header_bytes))
    ]

on_header_value_complete-Kept : (c : ParseContext) → IsBounded c → Kept (on_header_value_complete c)
unfolding on_header_value_complete
on_header_value_complete-Kept c b =
    finish_header-Kept _ _
      (add_header_bytes-IsBounded (record c { header_count = suc c.header_count }) 4 (omega arith))

on_headers_complete-Kept :
    (c : ParseContext) (content_length : ℕ)
    → IsBounded c
    → Kept (on_headers_complete c content_length)
unfolding on_headers_complete
on_headers_complete-Kept c content_length b = ground arith

on_body-Kept : (c : ParseContext) (bytes : Bytes) → IsBounded c → Kept (on_body c bytes)
unfolding on_body
on_body-Kept c bytes b =
    let exact =
      sub64-exact max_request_body_bytes (length c.request.body) b.body_bounded (omega arith) in
    elim (Bool-cases (ltb (sub64 max_request_body_bytes (length c.request.body)) (length bytes))) [
      | inl long ↦ rw (long) (omega arith)
      | inr short ↦ rw (short) (ground (arith, length-append c.request.body bytes))
    ]

callback-Kept : (c : ParseContext) (event : Event) → IsBounded c → Kept (callback c event)
unfolding callback
callback-Kept c (method bytes) b = on_method-Kept c bytes b
callback-Kept c (url bytes) b = on_url-Kept c bytes b
callback-Kept c (version bytes) b =
    unfold on_version in counted-Kept c (length bytes) _ b λ n h. omega arith
callback-Kept c (header_field bytes) b = on_header_field-Kept c bytes b
callback-Kept c header_field_complete b =
    unfold on_header_field_complete in omega (arith, length-lowercase c.header_name)
callback-Kept c (header_value bytes) b = on_header_value-Kept c bytes b
callback-Kept c header_value_complete b = on_header_value_complete-Kept c b
callback-Kept c (headers_complete content_length) b = on_headers_complete-Kept c content_length b
callback-Kept c (body bytes) b = on_body-Kept c bytes b
callback-Kept c message_complete b = unfold on_message_complete in omega arith

unless_stopped-Kept :
    (r : Signal × ParseContext) (rest : ParseContext → Signal × ParseContext)
    → Kept r
    → ((c : ParseContext) → IsBounded c → Kept (rest c))
    → Kept (unless_stopped r rest)
unless_stopped-Kept (go_on, c) rest b k = k c b
unless_stopped-Kept (halt, c) rest b k = b
unless_stopped-Kept (pause, c) rest b k = b

-- Whatever callbacks llhttp makes, a context within the limits stays within them: request line,
-- headers and body.
pub callbacks-IsBounded :
    (c : ParseContext) (events : List Event) → IsBounded c → IsBounded (callbacks c events).1
unfolding callbacks
callbacks-IsBounded c [] b = b
callbacks-IsBounded c (event ∷ events) b =
    unless_stopped-Kept (callback c event) (λ c'. callbacks c' events) (callback-Kept c event b)
      λ c' b'. callbacks-IsBounded c' events b'
