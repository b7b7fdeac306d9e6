-- ===== src/Server/Gate.antt =====
-- The gate of tools/branchscore_server.cpp: what the headers must be before a body is read.
use branchscore.Base.{
  ℕ, ◌+◌, ◌≤◌, ◌≡◌, ◌↔◌, ◌⊎◌, refl, sym, ap, suc, ◌∙◌, if◌then◌else◌, Bool, true, false, String,
  List, [], ◌∷◌, ◌++◌, Bytes, codes, equal, arith, inl, inr,
}
use branchscore.Server.Authorization.{is_empty, trim}
use branchscore.Server.Context.{
  ParseContext, Signal, go_on, halt, pause, is_authorized, add_header_bytes, unless_full, counted,
  fail, store_header, finish_header, max_request_body_bytes, on_method, on_url, on_version,
  on_header_field, on_header_field_complete, on_header_value, on_header_value_complete,
  on_headers_complete, on_body,
}
use branchscore.Server.Intake.{
  Event, method, url, version, header_field, header_value, body, header_field_complete,
  header_value_complete, message_complete, headers_complete, callback, callbacks, unless_stopped,
}

-- What the headers of a request that is let through satisfy.
abbrev pub IsCleared : ParseContext → ℕ → Type 0
IsCleared c content_length =
    (c.authorization_count ≤ 1)
    × (c.content_type_count ≤ 1)
    × (c.require_bearer ≡ true → equal c.request.url (codes "/ui") ≡ false → is_authorized c ≡ true)
    × (content_length ≤ max_request_body_bytes)
    × (is_empty c.request.expect ≡ true)
    × ((is_empty c.request.content_encoding ≡ true)
        ⊎ (equal c.request.content_encoding (codes "identity") ≡ true))

-- `on_headers_complete` lets exactly the cleared requests through.
on_headers_complete_iff :
    (c : ParseContext) (content_length : ℕ)
    → (on_headers_complete c content_length ≡ (go_on, c)) ↔ IsCleared c content_length
unfolding on_headers_complete
on_headers_complete_iff c content_length = ground arith

on_headers_complete-signal :
    (c : ParseContext) (n : ℕ)
    → (on_headers_complete c n ≡ (go_on, c))
      ⊎ (((on_headers_complete c n).0 ≡ halt)
          × ((on_headers_complete c n).1.request ≡ c.request)
          × ((on_headers_complete c n).1.complete ≡ c.complete))
unfolding on_headers_complete
on_headers_complete-signal c n = ground arith

-- What the callbacks before the end of the message leave alone.
abbrev Keeps : ParseContext → Signal × ParseContext → Type 0
Keeps c r =
    (r.1.complete ≡ c.complete)
    × (r.1.require_bearer ≡ c.require_bearer)
    × (r.1.bearer_token ≡ c.bearer_token)

abbrev IsEnd : Event → Type 0
IsEnd message_complete = Unit
IsEnd _ = ⊥

abbrev pub HasNoEnd : List Event → Type 0
HasNoEnd [] = Unit
HasNoEnd (message_complete ∷ events) = ⊥
HasNoEnd (event ∷ events) = HasNoEnd events

counted-Keeps :
    (c : ParseContext) (count : ℕ) (rest : ParseContext → Signal × ParseContext)
    → ((n : ℕ) → Keeps c (rest (record c { header_bytes = n })))
    → Keeps c (unless_full (add_header_bytes c count) rest)
unfolding add_header_bytes
counted-Keeps c count rest k = ground (arith, k (c.header_bytes + count))

store_header-Keeps : (c : ParseContext) (v : Bytes) → Keeps c (go_on, store_header c v)
unfolding store_header
store_header-Keeps c v = ground arith

guarded-Keeps :
    (long : Bool) (c : ParseContext) (status count : ℕ) (code : String)
    (rest : ParseContext → Signal × ParseContext)
    → ((n : ℕ) → Keeps c (rest (record c { header_bytes = n })))
    → Keeps c (if long then fail status code c else counted c count rest)
guarded-Keeps true c status count code rest k = (refl, refl, refl)
guarded-Keeps false c status count code rest k = counted-Keeps c count rest k

finish_header-Keeps :
    (c : ParseContext) (r : Bool × ParseContext)
    → (r.1.complete ≡ c.complete)
      × (r.1.require_bearer ≡ c.require_bearer)
      × (r.1.bearer_token ≡ c.bearer_token)
    → Keeps c (finish_header r)
unfolding finish_header
finish_header-Keeps c (false, c') k = k
finish_header-Keeps c (true, c') k = ground (arith, store_header-Keeps c' (trim c'.header_value))

on_header_value_complete-Keeps : (c : ParseContext) → Keeps c (on_header_value_complete c)
unfolding on_header_value_complete add_header_bytes
on_header_value_complete-Keeps c =
    finish_header-Keeps c (add_header_bytes (record c { header_count = suc c.header_count }) 4)
      (ground arith)

callback-Keeps : (c : ParseContext) (e : Event) → (IsEnd e → ⊥) → Keeps c (callback c e)
unfolding callback
callback-Keeps c (method bytes) h =
    unfold on_method in guarded-Keeps _ c _ _ _ _ λ n. (refl, refl, refl)
callback-Keeps c (url bytes) h = unfold on_url in guarded-Keeps _ c _ _ _ _ λ n. (refl, refl, refl)
callback-Keeps c (version bytes) h =
    unfold on_version in counted-Keeps c _ _ λ n. (refl, refl, refl)
callback-Keeps c (header_field bytes) h =
    unfold on_header_field in guarded-Keeps _ c _ _ _ _ λ n. (refl, refl, refl)
callback-Keeps c header_field_complete h = unfold on_header_field_complete in (refl, refl, refl)
callback-Keeps c (header_value bytes) h =
    unfold on_header_value in guarded-Keeps _ c _ _ _ _ λ n. (refl, refl, refl)
callback-Keeps c header_value_complete h = on_header_value_complete-Keeps c
callback-Keeps c (headers_complete n) h = unfold on_headers_complete in ground arith
callback-Keeps c (body bytes) h = unfold on_body in ground arith
callback-Keeps c message_complete h = absurd (h tt)

unless_stopped-Keeps :
    (c : ParseContext) (r : Signal × ParseContext) (rest : ParseContext → Signal × ParseContext)
    → Keeps c r
    → ((c' : ParseContext) → Keeps c' (rest c'))
    → Keeps c (unless_stopped r rest)
unless_stopped-Keeps c (go_on, c') rest k h =
    let next = h c' in (next.0 ∙ k.0, next.1 ∙ k.1, next.2 ∙ k.2)
unless_stopped-Keeps c (halt, c') rest k h = k
unless_stopped-Keeps c (pause, c') rest k h = k

HasNoEnd-head :
    (e : Event) (events : List Event) → HasNoEnd (e ∷ events) → (IsEnd e → ⊥) × HasNoEnd events
HasNoEnd-head message_complete events h = absurd h
HasNoEnd-head e events h = (λ x. x, h)

callbacks-Keeps :
    (c : ParseContext) (events : List Event) → HasNoEnd events → Keeps c (callbacks c events)
unfolding callbacks
callbacks-Keeps c [] h = (refl, refl, refl)
callbacks-Keeps c (e ∷ events) h =
    let parts = HasNoEnd-head e events h in
    unless_stopped-Keeps c (callback c e) (λ c'. callbacks c' events) (callback-Keeps c e parts.0)
      λ c'. callbacks-Keeps c' events parts.1

unless_stopped_assoc :
    (r : Signal × ParseContext) (f g : ParseContext → Signal × ParseContext)
    → unless_stopped r (λ c. unless_stopped (f c) g) ≡ unless_stopped (unless_stopped r f) g
unless_stopped_assoc (go_on, c) f g = refl
unless_stopped_assoc (halt, c) f g = refl
unless_stopped_assoc (pause, c) f g = refl

callbacks-append :
    (c : ParseContext) (pre post : List Event)
    → callbacks c (pre ++ post) ≡ unless_stopped (callbacks c pre) (λ c'. callbacks c' post)
unfolding callbacks
callbacks-append c [] post = refl
callbacks-append c (e ∷ pre) post =
    ap (unless_stopped (callback c e)) (λ i c'. callbacks-append c' pre post i)
    ∙ unless_stopped_assoc (callback c e) (λ c'. callbacks c' pre) (λ c'. callbacks c' post)

-- The state of a message whose headers were let through.
abbrev pub IsOpen : ParseContext → ParseContext → ℕ → Type 0
IsOpen start mid content_length =
    (mid.require_bearer ≡ start.require_bearer)
    × (mid.bearer_token ≡ start.bearer_token)
    × IsCleared mid content_length

gate_step :
    (start : ParseContext) (r : Signal × ParseContext) (n : ℕ) (post : List Event)
    → start.complete ≡ false
    → Keeps start r
    → (unless_stopped r
        (λ c. unless_stopped (on_headers_complete c n) (λ c'. callbacks c' post))).1.complete
      ≡ true
    → IsOpen start r.1 n
gate_step start (halt, c) n post h k done = absurd (cc)
gate_step start (pause, c) n post h k done = absurd (cc)
gate_step start (go_on, c) n post h k done = elim (on_headers_complete-signal c n) [
  | inl through ↦ (k.1, k.2, (on_headers_complete_iff c n).0 through)
  | inr (stopped, _, same) ↦ absurd (halted (on_headers_complete c n) stopped (same ∙ k.0 ∙ h) done)
]
  where
    halted :
        (r : Signal × ParseContext)
        → r.0 ≡ halt
        → r.1.complete ≡ false
        → (unless_stopped r (λ c'. callbacks c' post)).1.complete ≡ true
        → ⊥
    halted (go_on, c') s f d = cc
    halted (halt, c') s f d = cc
    halted (pause, c') s f d = cc

-- A message that completes was cleared: if the callbacks are those before the headers' end, then
-- `headers_complete`, then any others, and the context is complete behind them, then the state in
-- which the headers ended had one authorization header at most, a valid bearer token where one is
-- required and the target is not `/ui`, an announced length within the limit, and no expectation or
-- unknown encoding. The bearer settings are those the connection started with.
pub complete-IsOpen :
    (start : ParseContext) (pre post : List Event) (content_length : ℕ)
    → start.complete ≡ false
    → HasNoEnd pre
    → (callbacks start (pre ++ headers_complete content_length ∷ post)).1.complete ≡ true
    → IsOpen start (callbacks start pre).1 content_length
complete-IsOpen start pre post content_length h ne done =
    gate_step start (callbacks start pre) content_length post h (callbacks-Keeps start pre ne) (
      unfold callbacks callback in
      rw (sym (callbacks-append start pre (headers_complete content_length ∷ post))) done)
