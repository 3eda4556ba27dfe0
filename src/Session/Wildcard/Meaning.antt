-- ===== src/Session/Wildcard/Meaning.antt =====
-- The meaning of a pattern for wildcardMatches of src/native_smb/NativeSmbSession.cpp.
use smb_browser.Base.{
  Bool-cases, arith, drop, inl, inr, sym, ◌∙◌, Bool, List, [], false, if◌then◌else◌, refl, true,
  ◌&&◌, ◌==◌, ◌||◌, ◌∷◌, ◌≡◌, ℕ,
}
use smb_browser.Session.Wildcard.{accepts, only_stars}

-- What a pattern means: a star stands for any bytes, a question mark for one, another byte for itself
-- in either case.
unfoldable pub matches : List ℕ → List ℕ → Bool
matches [] [] = true
matches [] (b ∷ text) = false
matches (c ∷ pattern) [] = if c == 0x2a then matches pattern [] else false
matches (c ∷ pattern) (b ∷ text) =
    if c == 0x2a
    then matches pattern (b ∷ text) || matches (c ∷ pattern) text
    else accepts c b && matches pattern text

-- The same with a star in front.
abbrev pub starred : List ℕ → List ℕ → Bool
starred pattern text = matches (0x2a ∷ pattern) text

pub only_stars-matches : (pattern : List ℕ) → only_stars pattern ≡ matches pattern []
unfolding only_stars matches
only_stars-matches [] = refl
only_stars-matches (c ∷ pattern) = rw (only_stars-matches pattern) refl

pub starred-nil : (pattern : List ℕ) → starred pattern [] ≡ matches pattern []
unfolding matches
starred-nil pattern = refl

pub starred-cons :
    (pattern : List ℕ) (b : ℕ) (text : List ℕ)
    → starred pattern (b ∷ text) ≡ (matches pattern (b ∷ text) || starred pattern text)
unfolding matches
starred-cons pattern b text = refl

-- What matches here matches behind a star.
starred_here : (pattern text : List ℕ) → matches pattern text ≡ true → starred pattern text ≡ true
starred_here pattern [] h = starred-nil pattern ∙ h
starred_here pattern (b ∷ text) h = rw (starred-cons pattern b text, h) refl

-- A star takes more bytes.
pub starred_longer :
    (pattern : List ℕ) (b : ℕ) (text : List ℕ)
    → starred pattern text ≡ true
    → starred pattern (b ∷ text) ≡ true
starred_longer pattern b text h = ground (arith, starred-cons pattern b text)

starred-drop :
    (pattern text : List ℕ) → starred pattern (drop 1 text) ≡ true → starred pattern text ≡ true
starred-drop pattern [] h = h
starred-drop pattern (b ∷ text) h = starred_longer pattern b text h

-- A byte of the pattern behind a star needs a byte of the text.
pub starred_onward :
    (c : ℕ) (pattern text : List ℕ)
    → (c == 0x2a) ≡ false
    → starred (c ∷ pattern) text ≡ true
    → starred pattern (drop 1 text) ≡ true
unfolding matches
starred_onward c pattern [] plain h = absurd (ground (arith, starred-nil (c ∷ pattern)))
starred_onward c pattern (b ∷ text) plain h =
    let behind = λ (e : starred (c ∷ pattern) text ≡ true).
      starred-drop pattern text (starred_onward c pattern text plain e) in
    let here = starred_here pattern text in
    elim (Bool-cases (starred (c ∷ pattern) text)) [
      | inl e ↦ behind e
      | inr e ↦ here (ground (arith, starred-cons (c ∷ pattern) b text))
    ]

-- Two stars are one.
pub starred_twice :
    (pattern text : List ℕ) → starred (0x2a ∷ pattern) text ≡ true → starred pattern text ≡ true
starred_twice pattern [] h = sym (starred-nil (0x2a ∷ pattern)) ∙ h
starred_twice pattern (b ∷ text) h = elim (Bool-cases (starred (0x2a ∷ pattern) text)) [
  | inl e ↦ starred_longer pattern b text (starred_twice pattern text e)
  | inr e ↦ ground (arith, starred-cons (0x2a ∷ pattern) b text)
]
