-- ===== src/Session/Wildcard.antt =====
-- wildcardMatches of src/native_smb/NativeSmbSession.cpp, with bytes for characters.
pub mod Meaning
pub mod Equivalence
use smb_browser.Base.{
  Bool, List, Option, [], drop, false, if◌then◌else◌, leb, length, none, some, suc, true, zero,
  ◌&&◌, ◌==◌, ◌||◌, ◌∷◌, ℕ, ◌+◌, ◌%◌, ◌^◌,
}

-- std::tolower in the "C" locale.
unfoldable pub lower_ascii : ℕ → ℕ
lower_ascii c = if leb 0x41 c && leb c 0x5a then c + 0x20 else c

-- `pattern[patternIndex] == '?' || lowerAscii(…) == lowerAscii(…)`
unfoldable pub accepts : ℕ → ℕ → Bool
accepts c b = (c == 0x3f) || (lower_ascii c == lower_ascii b)

-- The loop that skips the stars at the end, and the test behind it.
unfoldable pub only_stars : List ℕ → Bool
only_stars [] = true
only_stars (c ∷ pattern) = if c == 0x2a then only_stars pattern else false

-- `starIndex`: what stands behind the last star, and the text from `retryTextIndex` on.
pub data Star : Type 0 where
  no_star : Star
  star_at : List ℕ → List ℕ → Star

-- What a round of the loop comes to: a result, or the rest of the pattern, of the text and the star
-- for the next round.
pub data Round : Type 0 where
  decided : Bool → Round
  going : List ℕ → List ℕ → Star → Round

-- The text is tried again behind the last star, one byte further.
unfoldable pub retry : Star → Round
retry no_star = decided false
retry (star_at pattern text) = going pattern (drop 1 text) (star_at pattern (drop 1 text))

unfoldable pub wildcard_round : List ℕ → List ℕ → Star → Round
wildcard_round pattern [] star = decided (only_stars pattern)
wildcard_round [] (b ∷ text) star = retry star
wildcard_round (c ∷ pattern) (b ∷ text) star =
    if accepts c b
    then going pattern text star
    else if c == 0x2a
    then going pattern (b ∷ text) (star_at pattern (b ∷ text))
    else retry star

-- The loop; `none` when it needs more rounds.
unfoldable pub run_rounds : ℕ → Round → Option Bool
run_rounds rounds (decided b) = some b
run_rounds zero (going pattern text star) = none
run_rounds (suc rounds) (going pattern text star) =
    run_rounds rounds (wildcard_round pattern text star)

-- `a * b`, added up.
unfoldable pub times : ℕ → ℕ → ℕ
times zero b = 0
times (suc a) b = b + times a b

-- Rounds that are enough for every run of the loop.
unfoldable pub wildcard_rounds : List ℕ → List ℕ → ℕ
wildcard_rounds pattern text = times (suc (suc (length text))) (2 + length text + length pattern)

unfoldable pub wildcard_result : List ℕ → List ℕ → Option Bool
wildcard_result pattern text =
    run_rounds (wildcard_rounds pattern text) (going pattern text no_star)

unfoldable pub wildcard_matches : List ℕ → List ℕ → Bool
wildcard_matches pattern text = elim (wildcard_result pattern text) [ none ↦ false | some b ↦ b ]
