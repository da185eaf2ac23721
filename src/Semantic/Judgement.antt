-- ===== src/Semantic/Judgement.antt =====
-- What a judgement of `Evaluate` (internal/canary/semantic.go) holds, and which part of its answer
-- is read as JSON.
use canary.Base.{
  ℕ, suc, ◌+◌, ◌-◌, ◌≤◌, ◌<◌, Text, lit, text_eq, nat_eq, ◌==◌, length, take, trim_space, ok,
  Result-cases, Option-cases, Bool-cases, ◌≡◌, ◌≢◌, ◌∙◌, inl, inr, refl, sym, ap, arith, true, none,
  some, List, [], ◌∷◌, ◌++◌, All,
}
use canary.Evidence.Bounds.{length-truncate_text}
use canary.Report.{SemanticResult}
use canary.Effect.{History}
use canary.Auditor.Evaluation.Points.{IsScoring}
use canary.Semantic.{
  ModelVerdict, ModelReply, ModelApi, LiteLlmEvaluator, payload_of, user_prompt, drop, index,
  last_index, braced, judge, read_content, read_choices, read_reply, evaluate,
}

pub record IsJudgement (r : SemanticResult) : Type 0 where
  pub attempted : r.attempted ≡ true
  pub score : r.score ≤ 100
  pub reason : length r.reason ≤ 303
  pub no_error : r.error ≡ []

judge-IsJudgement :
    (model : Text) (verdict : ModelVerdict) (r : SemanticResult)
    → judge model verdict ≡ ok r
    → IsJudgement r
unfolding judge
judge-IsJudgement model verdict r h = record {
  attempted = ground arith;
  score = ground arith;
  reason = grind (arith, length-truncate_text);
  no_error = ground arith;
}

read_content-IsJudgement :
    (api : ModelApi) (model content : Text) (r : SemanticResult)
    → read_content api model content ≡ ok r
    → IsJudgement r
unfolding read_content
read_content-IsJudgement api model content r h = elim (Option-cases (braced (trim_space content))) [
  | inl missing ↦ absurd (ground arith)
  | inr (text, there) ↦ elim (Option-cases (api.decode_verdict text)) [
    | inl bad ↦ absurd (ground arith)
    | inr (verdict, read) ↦ judge-IsJudgement model verdict r (ground arith)
  ]
]

read_choices-IsJudgement :
    (api : ModelApi) (model : Text) (choices : List Text) (r : SemanticResult)
    → read_choices api (record { model = model; choices = choices }) ≡ ok r
    → IsJudgement r
unfolding read_choices
read_choices-IsJudgement api model [] r h = absurd (cc)
read_choices-IsJudgement api model (content ∷ more) r h =
    read_content-IsJudgement api model content r h

read_reply-IsJudgement :
    (api : ModelApi) (reply : ModelReply) (r : SemanticResult)
    → read_reply api reply ≡ ok r
    → (200 ≤ reply.status_code) × (reply.status_code < 300) × IsJudgement r
unfolding read_reply
read_reply-IsJudgement api reply r h = elim (Result-cases reply.decoded) [
  | inr (e, bad) ↦ absurd (ground arith)
  | inl (completion, decoded) ↦ (
    ground arith,
    ground arith,
    read_choices-IsJudgement api completion.model completion.choices r (ground arith),
  )
]

-- What the evaluator returns is a judgement: it was attempted, its score lies between 0 and 100, its
-- reason has at most 303 bytes, and it has no error.
pub evaluate-IsJudgement :
    (api : ModelApi) (e : LiteLlmEvaluator) (expectation response_body : Text) (status_code : ℕ)
    (content_type : Text) (h : History) (r : SemanticResult)
    → evaluate api e expectation response_body status_code content_type h ≡ ok r
    → IsJudgement r
unfolding evaluate
evaluate-IsJudgement api e expectation response_body status_code content_type h r done =
    elim (Result-cases (
      api.marshal
        (payload_of e.model (user_prompt expectation response_body status_code content_type)))) [
          | inr (m, bad) ↦ absurd (ground arith)
          | inl (encoded, encodes) ↦
              elim (Result-cases
                (api.post (e.base_url ++ lit "/v1/chat/completions") e.token encoded h)) [
                  | inr (m, bad) ↦ absurd (ground arith)
                  | inl (reply, replied) ↦
                      let (_, _, judged) = read_reply-IsJudgement api reply r (ground arith) in
                      judged
                ]
        ]

-- The evaluator scores from 0 to 100, as the auditor assumes.
pub evaluate-IsScoring : (api : ModelApi) (e : LiteLlmEvaluator) → IsScoring (some (evaluate api e))
evaluate-IsScoring api e expectation input status content_type h r done =
    (evaluate-IsJudgement api e expectation input status content_type h r done).score

-- The part of a text from its first opening to its last closing brace.
pub record IsBraced (content t : Text) : Type 0 where
  pub before : Text
  pub middle : Text
  pub after : Text
  pub splits : content ≡ before ++ (b'{' ∷ (middle ++ b'}' ∷ after))
  pub is_part : t ≡ b'{' ∷ middle ++ b'}' ∷ []
  pub first_open : All (λ c. c ≢ b'{') before
  pub last_close : All (λ c. c ≢ b'}') after

index_sound :
    (b i : ℕ) (s : Text)
    → index b s ≡ some i
    → (before : Text) × (after : Text) × (s ≡ before ++ b ∷ after)
      × (length before ≡ i)
      × All (λ c. c ≢ b) before
unfolding index
index_sound b i [] h = absurd (cc)
index_sound b i (c ∷ s) h = elim (Bool-cases (c == b)) [
  | inl here ↦ ([], s, ground arith, ground arith, tt)
  | inr other ↦ elim (Option-cases (index b s)) [
    | inl missing ↦ absurd (ground arith)
    | inr (j, later) ↦
        let (before, after, same, size, all) = index_sound b j s later in
        (c ∷ before, after, ap (λ u. c ∷ u) same, ground arith, (ground arith, all))
  ]
]

last_index-none : (b : ℕ) (s : Text) → last_index b s ≡ none → All (λ c. c ≢ b) s
unfolding last_index
last_index-none b [] h = tt
last_index-none b (c ∷ s) h = (ground arith, last_index-none b s (ground arith))

last_index_sound :
    (b i : ℕ) (s : Text)
    → last_index b s ≡ some i
    → (before : Text) × (after : Text) × (s ≡ before ++ b ∷ after)
      × (length before ≡ i)
      × All (λ c. c ≢ b) after
unfolding last_index
last_index_sound b i [] h = absurd (cc)
last_index_sound b i (c ∷ s) h = elim (Option-cases (last_index b s)) [
  | inl last ↦ ([], s, ground arith, ground arith, last_index-none b s last)
  | inr (j, later) ↦
      let (before, after, same, size, all) = last_index_sound b j s later in
      (c ∷ before, after, ap (λ u. c ∷ u) same, ground arith, all)
]

drop-append : (before s : Text) → drop (length before) (before ++ s) ≡ s
drop-append [] s = refl
drop-append (c ∷ before) s = drop-append before s

take-append :
    (middle after : Text) (b : ℕ)
    → take (suc (length middle)) (middle ++ b ∷ after) ≡ middle ++ b ∷ []
take-append [] after b = refl
take-append (c ∷ middle) after b = ap (λ u. c ∷ u) (take-append middle after b)

-- Two places of one text, the first in front of the second.
between :
    (first second s after : Text)
    → first ++ b'{' ∷ s ≡ second ++ b'}' ∷ after
    → length first ≤ length second
    → (middle : Text) × (s ≡ middle ++ b'}' ∷ after)
      × (length second ≡ length first + suc (length middle))
between [] [] s after h le = absurd (ground arith)
between [] (d ∷ second) s after h le = (second, ground arith, ground arith)
between (c ∷ first) [] s after h le = absurd (ground arith)
between (c ∷ first) (d ∷ second) s after h le =
    let (middle, same, size) = between first second s after (ground arith) (ground arith) in
    (middle, same, ground arith)

braced_part :
    (first middle after content : Text) (i j : ℕ)
    → content ≡ first ++ (b'{' ∷ (middle ++ b'}' ∷ after))
    → length first ≡ i
    → j ≡ length first + suc (length middle)
    → take (j + 1 - i) (drop i content) ≡ b'{' ∷ middle ++ b'}' ∷ []
braced_part first middle after content i j same size last =
    let count : j + 1 - i ≡ suc (suc (length middle)) = omega (arith, size, last) in
    rw count (
      rw same (
        rw (← size) (
          rw (drop-append first (b'{' ∷ (middle ++ b'}' ∷ after)))
            (ap (λ u. b'{' ∷ u) (take-append middle after b'}')))))

taken_part :
    (content t : Text) (i j : ℕ)
    → braced content ≡ some t
    → index b'{' content ≡ some i
    → last_index b'}' content ≡ some j
    → t ≡ take (j + 1 - i) (drop i content)
unfolding braced
taken_part content t i j h opened closed = ground arith

-- What is decoded as the verdict is the part of the answer from its first opening brace to its last
-- closing brace.
pub braced-IsBraced : (content t : Text) → braced content ≡ some t → IsBraced content t
unfolding braced
braced-IsBraced content t h = elim (Option-cases (index b'{' content)) [
  | inl missing ↦ absurd (ground arith)
  | inr (i, opened) ↦ elim (Option-cases (last_index b'}' content)) [
    | inl missing ↦ absurd (ground arith)
    | inr (j, closed) ↦
        let (first, s, split, i_size, no_open) = index_sound b'{' i content opened in
        let (second, after, split', j_size, no_close) = last_index_sound b'}' j content closed in
        let (middle, rest, size) =
          between first second s after (sym split ∙ split') (ground arith) in
        record {
          before = first;
          middle = middle;
          after = after;
          splits = split ∙ ap (λ u. first ++ (b'{' ∷ u)) rest;
          is_part =
              taken_part content t i j h opened closed
              ∙ braced_part first middle after content i j
                  (split ∙ ap (λ u. first ++ (b'{' ∷ u)) rest) i_size (sym j_size ∙ size);
          first_open = no_open;
          last_close = no_close;
        }
  ]
]
