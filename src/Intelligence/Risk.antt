-- ===== src/Intelligence/Risk.antt =====
-- `RiskEngine` of apps/change-intelligence-service/src/sentinel_intelligence/domain.py. A score is
-- an integer, written as in the library over the native numbers.
use sentinel_keyvault.Common.{
  ℕ, suc, ◌+◌, ◌-◌, ◌≤◌, ◌≡◌, ◌↔◌, refl, min, Bool, true, inl, inr, Option, none, some, List, [],
  ◌∷◌, arith, Text, ltb, Has, Bool-cases, Option-cases, if◌then◌else◌,
}
use sentinel_keyvault.Platform.Json.{Json}

pub data ℤ : Type 0 where
  pos : ℕ → ℤ
  negsuc : ℕ → ℤ

infixl 60 ◌+ℤ◌
abbrev pub ◌+ℤ◌ : ℤ → ℤ → ℤ
pos m +ℤ pos n = pos (m + n)
pos m +ℤ negsuc n = if ltb n m then pos (m - suc n) else negsuc (n - m)
negsuc m +ℤ pos n = if ltb m n then pos (n - suc m) else negsuc (m - n)
negsuc m +ℤ negsuc n = negsuc (suc (m + n))

pub record AssessmentInput : Type 0 where
  pub action_type : Text
  pub target_resource_id : Text
  pub parameters : Json
  pub dependency_count : ℤ
  pub environment : Option Text
  pub recoverable : Bool

pub record RiskFinding : Type 0 where
  pub rule_id : Text
  pub score : ℤ
  pub severity : Text
  pub title : Text
  pub description : Text
  pub evidence : Json
  pub remediation : Option Text

pub record RiskRule : Type 0 where
  pub rule_id : Text
  pub version : Text
  pub supports : AssessmentInput → Bool
  pub evaluate : AssessmentInput → Option RiskFinding

pub data Level : Type 0 where
  low : Level
  medium : Level
  high : Level

-- `RiskEngine.__init__`; `none` is the `ValueError`.
pub engine : List RiskRule → Option (List RiskRule)
engine [] = none
engine (r ∷ rules) = some (r ∷ rules)

-- The list comprehension.
unfoldable pub findings : AssessmentInput → List RiskRule → List RiskFinding
findings input [] = []
findings input (r ∷ rules) =
    let rest = findings input rules in
    if r.supports input then elim (r.evaluate input) [ none ↦ rest | some f ↦ f ∷ rest ] else rest

abbrev pub total : List RiskFinding → ℤ
total [] = pos 0
total (f ∷ fs) = f.score +ℤ total fs

-- `min(100, n)`
abbrev pub capped : ℤ → ℤ
capped (pos n) = pos (min 100 n)
capped (negsuc n) = negsuc n

abbrev pub less : ℤ → ℕ → Bool
less (pos n) k = ltb n k
less (negsuc n) k = true

abbrev pub level_of : ℤ → Level
level_of score = if less score 30 then low else if less score 70 then medium else high

unfoldable pub evaluate : List RiskRule → AssessmentInput → ℤ × Level × List RiskFinding
unfolding findings
evaluate rules input =
    let score = capped (total (findings input rules)) in
    (score, level_of score, findings input rules)

-- The rule applies to the input and yields the finding.
abbrev pub Yields : RiskRule → AssessmentInput → RiskFinding → Type 0
Yields r input f = (r.supports input ≡ true) × (r.evaluate input ≡ some f)

findings-Has :
    (input : AssessmentInput) (rules : List RiskRule) (f : RiskFinding)
    → Has f (findings input rules)
    → (r : RiskRule) × Has r rules × Yields r input f
unfolding findings
findings-Has input [] f m = absurd m
findings-Has input (r ∷ rules) f m = elim (Bool-cases (r.supports input)) [
  | inr s ↦ let (q, k, y) = findings-Has input rules f (rw s at m) in (q, inr k, y)
  | inl s ↦ elim (Option-cases (r.evaluate input)) [
    | inl e ↦ let (q, k, y) = findings-Has input rules f (rw (s, e) at m) in (q, inr k, y)
    | inr (g, e) ↦ elim (rw (s, e) at m) [
      | inl p ↦ (r, inl refl, (s, rw p e))
      | inr n ↦ let (q, k, y) = findings-Has input rules f n in (q, inr k, y)
    ]
  ]
]

Has-findings :
    (input : AssessmentInput) (rules : List RiskRule) (r : RiskRule) (f : RiskFinding)
    → Has r rules
    → Yields r input f
    → Has f (findings input rules)
unfolding findings
Has-findings input [] r f m y = absurd m
Has-findings input (q ∷ rules) r f (inl e) y =
    let s : q.supports input ≡ true = rw (← e) y.0 in
    let v : q.evaluate input ≡ some f = rw (← e) y.1 in rw (s, v) (inl refl)
Has-findings input (q ∷ rules) r f (inr m) y =
    let ih = Has-findings input rules r f m y in
    elim (Bool-cases (q.supports input)) [
      | inr s ↦ rw s ih
      | inl s ↦ elim (Option-cases (q.evaluate input)) [
        | inl e ↦ rw (s, e) ih
        | inr (g, e) ↦ rw (s, e) (inr ih)
      ]
    ]

capped-less : (z : ℤ) (k : ℕ) → k ≤ 100 → less (capped z) k ≡ less z k
capped-less (pos n) k h = ground arith
capped-less (negsuc n) k h = refl

capped-level : (z : ℤ) → level_of (capped z) ≡ level_of z
capped-level z = rw (capped-less z 30 (omega arith), capped-less z 70 (omega arith)) refl

-- The findings are those that the supporting rules yield, and no others; the score is never above
-- 100; and the level is that of the sum of the scores, on which the cap has no effect.
pub evaluate_lem :
    (rules : List RiskRule) (input : AssessmentInput)
    → ((f : RiskFinding)
        → Has f (evaluate rules input).2 ↔ ((r : RiskRule) × Has r rules × Yields r input f))
      × (less (evaluate rules input).0 101 ≡ true)
      × ((evaluate rules input).1 ≡ level_of (total (evaluate rules input).2))
unfolding evaluate
evaluate_lem rules input = (
  (λ f. (findings-Has input rules f, λ (r, m, y). Has-findings input rules r f m y)),
  below (total (findings input rules)),
  capped-level (total (findings input rules)),
)
  where
    below : (z : ℤ) → less (capped z) 101 ≡ true
    below (pos n) = ground arith
    below (negsuc n) = refl
