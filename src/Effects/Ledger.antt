-- ===== src/Effects/Ledger.antt =====
-- How often something stands in a list of calls.
use sbs_server.Prelude.{
  ℕ, ◌+◌, ◌≡◌, Option, none, some, List, [], ◌∷◌, ◌++◌, arith, if◌then◌else◌, ◌==◌,
}
use sbs_server.Effects.{Effect, opens, closes, forks, reaps, adds, removes, ends}

abbrev pub tally : (Effect → ℕ) → List Effect → ℕ
tally w [] = 0
tally w (e ∷ es) = w e + tally w es

pub tally-append :
    (w : Effect → ℕ) (xs ys : List Effect) → tally w (xs ++ ys) ≡ tally w xs + tally w ys
tally-append w [] ys = omega arith
tally-append w (x ∷ xs) ys = omega (arith, tally-append w xs ys)

-- 1 if the two are equal.
abbrev pub is_it : ℕ → ℕ → ℕ
is_it x y = if y == x then 1 else 0

-- 1 if an optional descriptor is `x`.
abbrev pub holds : ℕ → Option ℕ → ℕ
holds x none = 0
holds x (some y) = is_it x y

abbrev pub opened : ℕ → Effect → ℕ
opened x (opens y) = is_it x y
opened x _ = 0

abbrev pub closed : ℕ → Effect → ℕ
closed x (closes y) = is_it x y
closed x _ = 0

abbrev pub forked : ℕ → Effect → ℕ
forked x (forks y) = is_it x y
forked x _ = 0

abbrev pub reaped : ℕ → Effect → ℕ
reaped x (reaps y) = is_it x y
reaped x _ = 0

abbrev pub added : ℕ → Effect → ℕ
added x (adds y) = is_it x y
added x _ = 0

abbrev pub removed : ℕ → Effect → ℕ
removed x (removes y) = is_it x y
removed x (ends y) = is_it x y
removed x _ = 0
