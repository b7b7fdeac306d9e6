-- ===== src/Server/Budget.antt =====
-- The budget of positions that `handle_connection` of tools/branchscore_server.cpp keeps.
use branchscore.Adapter.Request.{ChoiceQuestion}
use branchscore.Base.{
  ℕ, ◌+◌, ◌≤◌, ◌≡◌, ◌↔◌, refl, ap, ◌∙◌, List, [], ◌∷◌, arith, ltb, Bool-cases, inl, inr,
}
use mathlib.Core.Path.{subst}
use branchscore.Base.Words.{sub64, sub64-exact}
use branchscore.Decision.{max_request_prefill_positions}
use branchscore.Result.{ok, ok_of_bind, ok-injective}
use branchscore.Server.Handle.{Engine, request_positions}

-- The engine estimates each question, and `n` is the sum.
abbrev pub Sums : Engine → List ChoiceQuestion → ℕ → Type 0
Sums engine [] n = n ≡ 0
Sums engine (q ∷ qs) n =
    (p : ℕ) × (m : ℕ) × (engine.estimate_prefill_positions q.decision ≡ ok p)
    × (n ≡ p + m)
    × Sums engine qs m

charged :
    (engine : Engine) (total : ℕ) (qs : List ChoiceQuestion) (n : ℕ)
    → total ≤ max_request_prefill_positions
    → request_positions engine total qs ≡ ok n
    → (m : ℕ) × Sums engine qs m × (n ≡ total + m) × (n ≤ max_request_prefill_positions)
unfolding request_positions
charged engine total [] n h e =
    let same = ok-injective e in (0, refl, omega (arith, same), omega (arith, same))
charged engine total (q ∷ qs) n h e =
    let (p, hp, rest) = ok_of_bind (engine.estimate_prefill_positions q.decision) _ n e in
    let exact = sub64-exact max_request_prefill_positions total h (omega arith) in
    elim (Bool-cases (ltb (sub64 max_request_prefill_positions total) p)) [
      | inl over ↦ absurd (ground arith)
      | inr fits ↦
          let left : request_positions engine (total + p) qs ≡ ok n = ground arith in
          let (m, sums, whole, bound) =
            charged engine (total + p) qs n (ground (arith, exact)) left in
          (p + m, (p, m, hp, refl, sums), omega (arith, whole), bound)
    ]

within :
    (engine : Engine) (total : ℕ) (qs : List ChoiceQuestion) (m : ℕ)
    → Sums engine qs m
    → total + m ≤ max_request_prefill_positions
    → request_positions engine total qs ≡ ok (total + m)
unfolding request_positions
within engine total [] m s h = ground arith
within engine total (q ∷ qs) m (p, k, hp, e, s) h =
    let exact = sub64-exact max_request_prefill_positions total (omega (arith, e)) (omega arith) in
    let later = within engine (total + p) qs k s (omega (arith, e)) in ground (arith, exact)

-- The loop over the questions returns `n` exactly if the engine estimates every question, the sum of
-- the estimates is `n`, and that is at most 32768.
pub request_positions_iff :
    (engine : Engine) (questions : List ChoiceQuestion) (n : ℕ)
    → (request_positions engine 0 questions ≡ ok n)
      ↔ (Sums engine questions n × (n ≤ max_request_prefill_positions))
request_positions_iff engine questions n = (
  λ e.
      let (m, sums, whole, bound) = charged engine 0 questions n (omega arith) e in
      let same : m ≡ n = omega (arith, whole) in (subst (Sums engine questions) same sums, bound),
  λ (sums, bound).
      let fits : 0 + n ≤ max_request_prefill_positions = omega arith in
      let none_yet : 0 + n ≡ n = omega arith in
      within engine 0 questions n sums fits ∙ ap ok none_yet,
)
