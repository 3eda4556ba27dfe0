-- ===== src/Session/Wildcard/Equivalence.antt =====
-- The loop of wildcardMatches against the meaning of a pattern.
use smb_browser.Base.{
  ==→eq, ap, some, subst, Bool-cases, inl, inr, All, Bool, List, [], arith, drop, false, length,
  length-drop, refl, suc, sym, true, zero, ◌<◌, ◌==◌, ◌||◌, ◌∷◌, ◌≡◌, ◌≤◌, ℕ, ◌+◌,
}
use smb_browser.Session.Wildcard.{
  run_rounds, wildcard_result, wildcard_round, wildcard_rounds, accepts, lower_ascii, only_stars,
  Round, Star, decided, going, no_star, retry, star_at, times,
}
use smb_browser.Session.Wildcard.Meaning.{
  starred_longer, starred_twice, only_stars-matches, starred-nil, starred_onward, matches, starred,
  starred-cons,
}

-- What a star may still find, one byte further.
abbrev fallback : Star → Bool
fallback no_star = false
fallback (star_at pattern text) = starred pattern (drop 1 text)

abbrev found : List ℕ → List ℕ → Star → Bool
found pattern text star = matches pattern text || fallback star

-- A byte that is no star.
abbrev pub Plain : ℕ → Type 0
Plain b = (b == 0x2a) ≡ false

-- The text that a star tries has at most `left` bytes, none of them a star.
abbrev Tried : ℕ → ℕ → Star → Type 0
Tried width left no_star = Unit {0}
Tried width left (star_at pattern text) =
    (length pattern + length text < width) × (length text ≤ left) × All Plain text

-- The state of the loop before a round: what the star may find, a star here would find too, and the
-- rounds are enough.
record IsState (width rounds : ℕ) (pattern text : List ℕ) (star : Star) : Type 0 where
  left : ℕ
  later : fallback star ≡ true → starred pattern (drop 1 text) ≡ true
  plain : All Plain text
  bounded : length pattern + length text < width
  text_left : length text ≤ left
  tried : Tried width left star
  enough : times left width + length text + length pattern < rounds

-- What a round comes to: the value, or a state of the loop that has it.
abbrev Fine : ℕ → ℕ → Bool → Round → Type 0
Fine width rounds v (decided b) = b ≡ v
Fine width rounds v (going pattern text star) =
    IsState width rounds pattern text star × (found pattern text star ≡ v)

drop-Plain : (text : List ℕ) → All Plain text → All Plain (drop 1 text)
drop-Plain [] h = h
drop-Plain (b ∷ text) h = h.1

found_behind :
    (pattern text : List ℕ)
    → (matches pattern text || starred pattern (drop 1 text)) ≡ starred pattern text
found_behind pattern [] = ground (arith, starred-nil pattern)
found_behind pattern (b ∷ text) = sym (starred-cons pattern b text)

retry-Fine :
    (width rounds left : ℕ) (star : Star)
    → 1 ≤ left
    → Tried width left star
    → times left width < suc rounds
    → Fine width rounds (fallback star) (retry star)
unfolding retry times
retry-Fine width rounds left no_star low h enough = refl
retry-Fine width rounds zero (star_at pattern text) low h enough = absurd (omega arith)
retry-Fine width rounds (suc left) (star_at pattern text) low (small, shorter, plain) enough = (
  record {
    left = left;
    later = λ e. e;
    plain = drop-Plain text plain;
    bounded = omega (arith, length-drop 1 text);
    text_left = omega (arith, length-drop 1 text);
    tried = (
      omega (arith, length-drop 1 text),
      omega (arith, length-drop 1 text),
      drop-Plain text plain,
    );
    enough = omega (arith, length-drop 1 text);
  },
  found_behind pattern (drop 1 text),
)

-- No plain byte is taken by a star.
accepts-Plain : (c b : ℕ) → Plain b → accepts c b ≡ true → (c == 0x2a) ≡ false
unfolding accepts lower_ascii
accepts-Plain c b plain h = ground arith

nothing_more :
    (width rounds : ℕ) (pattern : List ℕ) (star : Star)
    → IsState width rounds pattern [] star
    → only_stars pattern ≡ found pattern [] star
nothing_more width rounds pattern star s = elim (Bool-cases (fallback star)) [
  | inl e ↦ rw (only_stars-matches pattern, sym (starred-nil pattern), s.later e) refl
  | inr e ↦ rw (only_stars-matches pattern, e) (ground arith)
]

-- A star in the pattern takes the place of the one before.
starring_found :
    (c b : ℕ) (pattern text : List ℕ) (before : Bool)
    → c ≡ 0x2a
    → (before ≡ true → starred (c ∷ pattern) text ≡ true)
    → (matches pattern (b ∷ text) || starred pattern text)
      ≡ (matches (c ∷ pattern) (b ∷ text) || before)
starring_found c b pattern text false i later = rw i (ground (arith, starred-cons pattern b text))
starring_found c b pattern text true i later =
    let twice =
      starred_twice pattern text (subst (λ d. starred (d ∷ pattern) text ≡ true) i (later refl)) in
    ground (arith, twice, starred_longer pattern b text twice, starred-cons pattern b text)

-- The three turns of a round.
module _ (width rounds c b : ℕ) (pattern text : List ℕ) (star : Star)
    (s : IsState width (suc rounds) (c ∷ pattern) (b ∷ text) star) where
  accepting-Fine :
      accepts c b ≡ true
      → Fine width rounds (found (c ∷ pattern) (b ∷ text) star) (going pattern text star)
  unfolding matches
  accepting-Fine h =
      let other = accepts-Plain c b s.plain.0 h in
      (
        record {
          left = s.left;
          later = λ e. starred_onward c pattern text other (s.later e);
          plain = s.plain.1;
          bounded = omega (arith, s.bounded);
          text_left = omega (arith, s.text_left);
          tried = s.tried;
          enough = omega (arith, s.enough);
        },
        rw (other, h) refl,
      )

  starring-Fine :
      (c == 0x2a) ≡ true
      → Fine width rounds
          (found (c ∷ pattern) (b ∷ text) star)
          (going pattern (b ∷ text) (star_at pattern (b ∷ text)))
  starring-Fine h = (
    record {
      left = s.left;
      later = λ e. e;
      plain = s.plain;
      bounded = omega (arith, s.bounded);
      text_left = s.text_left;
      tried = (omega (arith, s.bounded), s.text_left, s.plain);
      enough = omega (arith, s.enough);
    },
    starring_found c b pattern text (fallback star) (==→eq c 0x2a h) s.later,
  )

  missing-Fine :
      accepts c b ≡ false
      → (c == 0x2a) ≡ false
      → Fine width rounds (found (c ∷ pattern) (b ∷ text) star) (retry star)
  unfolding matches
  missing-Fine h other =
      rw (other, h)
        (retry-Fine width rounds s.left star (omega (arith, s.text_left)) s.tried
          (omega (arith, s.enough)))

no_text-Fine :
    (width rounds : ℕ) (pattern : List ℕ) (star : Star)
    → IsState width (suc rounds) pattern [] star
    → Fine width rounds (found pattern [] star) (wildcard_round pattern [] star)
unfolding wildcard_round
no_text-Fine width rounds pattern star s = nothing_more width (suc rounds) pattern star s

no_pattern-Fine :
    (width rounds b : ℕ) (text : List ℕ) (star : Star)
    → IsState width (suc rounds) [] (b ∷ text) star
    → Fine width rounds (found [] (b ∷ text) star) (wildcard_round [] (b ∷ text) star)
unfolding wildcard_round matches
no_pattern-Fine width rounds b text star s =
    retry-Fine width rounds s.left star (omega (arith, s.text_left)) s.tried
      (omega (arith, s.enough))

-- The round of two bytes, whatever the value that is asked for.
round_of_bytes :
    (P : Round → Type 0) (c b : ℕ) (pattern text : List ℕ) (star : Star)
    → (accepts c b ≡ true → P (going pattern text star))
    → ((c == 0x2a) ≡ true → P (going pattern (b ∷ text) (star_at pattern (b ∷ text))))
    → (accepts c b ≡ false → (c == 0x2a) ≡ false → P (retry star))
    → P (wildcard_round (c ∷ pattern) (b ∷ text) star)
unfolding wildcard_round
round_of_bytes P c b pattern text star first second third = elim (Bool-cases (accepts c b)) [
  | inl h ↦ rw h (first h)
  | inr h ↦ elim (Bool-cases (c == 0x2a)) [
    | inl i ↦ rw (h, i) (second i)
    | inr i ↦ rw (h, i) (third h i)
  ]
]

round-Fine :
    (width rounds : ℕ) (pattern text : List ℕ) (star : Star)
    → IsState width (suc rounds) pattern text star
    → Fine width rounds (found pattern text star) (wildcard_round pattern text star)
round-Fine width rounds pattern [] star s = no_text-Fine width rounds pattern star s
round-Fine width rounds [] (b ∷ text) star s = no_pattern-Fine width rounds b text star s
round-Fine width rounds (c ∷ pattern) (b ∷ text) star s =
    round_of_bytes (Fine width rounds (found (c ∷ pattern) (b ∷ text) star)) c b pattern text star
      (accepting-Fine width rounds c b pattern text star s)
      (starring-Fine width rounds c b pattern text star s)
      (missing-Fine width rounds c b pattern text star s)

run_rounds-Fine :
    (width rounds : ℕ) (v : Bool) (r : Round) → Fine width rounds v r → run_rounds rounds r ≡ some v
unfolding run_rounds
run_rounds-Fine width rounds v (decided b) h = ap some h
run_rounds-Fine width zero v (going pattern text star) (s, e) = absurd (omega (arith, s.enough))
run_rounds-Fine width (suc rounds) v (going pattern text star) (s, e) =
    run_rounds-Fine width rounds v (wildcard_round pattern text star) (
      subst (λ w. Fine width rounds w (wildcard_round pattern text star)) e
        (round-Fine width rounds pattern text star s))

-- For every pattern and every name without the byte of a star, the loop of wildcardMatches ends
-- within the rounds that the model gives it, and its answer is the meaning of the pattern: a
-- star stands for any bytes, a question mark for one, another byte for itself in either case of
-- its letter.
pub wildcard_result-matches :
    (pattern text : List ℕ)
    → All Plain text
    → wildcard_result pattern text ≡ some (matches pattern text)
unfolding wildcard_result wildcard_rounds times
wildcard_result-matches pattern text plain =
    run_rounds-Fine (2 + length text + length pattern) _ _ (going pattern text no_star) (
      record {
        left = suc (length text);
        later = λ e. absurd (ground arith);
        plain = plain;
        bounded = omega arith;
        text_left = omega arith;
        tried = tt;
        enough = omega arith;
      },
      ground arith,
    )
