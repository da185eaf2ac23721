-- ===== src/Evidence/Bounds.antt =====
-- Sizes and content of what a report takes over from a target (internal/canary/auditor.go).
use canary.Base.{
  ℕ, ◌+◌, ◌≤◌, Text, lit, length, length-append, length-take_le, trim_space, leb, Bool-cases, inl,
  inr, ◌≡◌, refl, arith, All, true, [], ◌∷◌,
}
use canary.Evidence.{truncate_text, is_kept, drop_controls}

length-ellipsis : length (lit "…") ≡ 3
unfolding lit
length-ellipsis = refl

-- A truncated text is the trimmed text, or its first `limit` bytes and the three bytes of "…".
pub length-truncate_text :
    (value : Text) (limit : ℕ) → length (truncate_text value limit) ≤ limit + 3
unfolding truncate_text
length-truncate_text value limit = elim (Bool-cases (leb (length (trim_space value)) limit)) [
  | inl fits ↦ rw fits (ground arith)
  | inr long ↦
      rw (long, length-append)
        (omega (arith, length-take_le limit (trim_space value), length-ellipsis))
]

drop_controls-All : (s : Text) → All (λ c. is_kept c ≡ true) (drop_controls s)
unfolding drop_controls
drop_controls-All [] = tt
drop_controls-All (c ∷ s) = elim (Bool-cases (is_kept c)) [
  | inl kept ↦ rw kept (kept, drop_controls-All s)
  | inr dropped ↦ rw dropped (drop_controls-All s)
]
