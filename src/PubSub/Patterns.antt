-- ===== src/PubSub/Patterns.antt =====
-- What a pattern accepts, without its search for the star.
use mathlib.Core.Path.{sym, subst, ◌∙◌}
use sbs_server.Prelude.{
  Bool, ◌&&◌, ℕ, ◌≡◌, ◌≢◌, ◌↔◌, inl, inr, refl, true, false, none, some, [], ◌∷◌, arith, ==_iff,
  ◌==◌, Bool-cases,
}
use sbs_server.Prelude.Bytes.{Bytes, codes, str_eq, str_eq_iff}
use sbs_server.PubSub.{strncmp_eq, star_at, topic_matches_pattern}

-- A pattern stands for itself, or for what starts as it does before its first star.
pub data Accepts : Bytes → Bytes → Type 0 where
  exactly : (p : Bytes) → Accepts p p
  any : (rest t : Bytes) → Accepts (b'*' ∷ rest) t
  then_more : (c : ℕ) (p t : Bytes) → c ≢ b'*' → Accepts p t → Accepts (c ∷ p) (c ∷ t)

-- The matching without the special case.
abbrev plain_matches : Bytes → Bytes → Bool
plain_matches t p = elim (star_at p) [ none ↦ str_eq t p | some n ↦ strncmp_eq n t p ]

topic_matches-plain : (t p : Bytes) → topic_matches_pattern t p ≡ plain_matches t p
unfolding topic_matches_pattern star_at strncmp_eq str_eq
topic_matches-plain t [] = refl
topic_matches-plain t (c ∷ p) = ground (arith, str_eq_iff (c ∷ p) (codes "*"))

-- A first character other than the star.
plain_matches-char :
    (c x : ℕ) (t p : Bytes)
    → (c == b'*') ≡ false
    → plain_matches (x ∷ t) (c ∷ p) ≡ ((x == c) && plain_matches t p)
unfolding star_at strncmp_eq str_eq
plain_matches-char c x t p miss = ground arith

plain_matches-star : (t p : Bytes) → plain_matches t (b'*' ∷ p) ≡ true
unfolding star_at strncmp_eq
plain_matches-star t p = ground arith

plain_matches-nil : (c : ℕ) (p : Bytes) → (c == b'*') ≡ false → plain_matches [] (c ∷ p) ≡ false
unfolding star_at strncmp_eq str_eq
plain_matches-nil c p miss = ground arith

both_parts : (c x : ℕ) (b : Bool) → ((x == c) && b) ≡ true → (x ≡ c) × (b ≡ true)
both_parts c x b h = ground (arith, ==_iff x c)

starred : (c : ℕ) (p t : Bytes) → (c == b'*') ≡ true → Accepts (c ∷ p) t
starred c p t hit = subst (λ k. Accepts (k ∷ p) t) (sym ((==_iff c b'*').0 hit)) (any p t)

plain-Accepts : (p t : Bytes) → plain_matches t p ≡ true → Accepts p t
unfolding star_at strncmp_eq str_eq
plain-Accepts [] [] h = exactly []
plain-Accepts [] (x ∷ t) h = cc
plain-Accepts (c ∷ p) [] h = elim (Bool-cases (c == b'*')) [
  | inl hit ↦ starred c p [] hit
  | inr miss ↦ absurd (ground (arith, plain_matches-nil c p miss))
]
plain-Accepts (c ∷ p) (x ∷ t) h = elim (Bool-cases (c == b'*')) [
  | inl hit ↦ starred c p (x ∷ t) hit
  | inr miss ↦
      let (same, rest) =
        both_parts c x (plain_matches t p) (sym (plain_matches-char c x t p miss) ∙ h) in
      subst (λ y. Accepts (c ∷ p) (y ∷ t)) (sym same)
        (then_more c p t (λ e. absurd (ground (arith, ==_iff c b'*'))) (plain-Accepts p t rest))
]

plain_matches_refl : (p : Bytes) → plain_matches p p ≡ true
unfolding star_at strncmp_eq str_eq
plain_matches_refl [] = refl
plain_matches_refl (c ∷ p) = elim (Bool-cases (c == b'*')) [
  | inl hit ↦ ground arith
  | inr miss ↦ plain_matches-char c c p p miss ∙ ground (arith, plain_matches_refl p, ==_iff c c)
]

Accepts-plain : (p t : Bytes) → Accepts p t → plain_matches t p ≡ true
Accepts-plain _ _ (exactly p) = plain_matches_refl p
Accepts-plain _ _ (any rest t) = plain_matches-star t rest
Accepts-plain _ _ (then_more c p t other a) =
    plain_matches-char c c t p (ground (arith, ==_iff c b'*'))
    ∙ ground (arith, Accepts-plain p t a, ==_iff c c)

-- The matching accepts a topic exactly if the pattern is the topic itself, or has a star and the topic
-- starts with what the pattern has before its first star.
pub topic_matches_pattern-Accepts : (t p : Bytes) → (topic_matches_pattern t p ≡ true) ↔ Accepts p t
topic_matches_pattern-Accepts t p = (
  λ h. plain-Accepts p t (sym (topic_matches-plain t p) ∙ h),
  λ a. topic_matches-plain t p ∙ Accepts-plain p t a,
)
