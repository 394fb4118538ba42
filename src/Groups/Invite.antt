-- ===== src/Groups/Invite.antt =====
-- internal/groups/invite.go, on lists of runes. strings.ToUpper is the one of ASCII here: a rune above it
-- is refused either way, but for the few whose upper case is a letter of the alphabet.
use chirpy.Prelude.{
  ℕ, ◌+◌, ◌-◌, ◌%◌, ◌<◌, ◌≤◌, ◌≡◌, refl, Bool, true, not, ◌&&◌, ◌||◌, Option, none, some, List, [],
  ◌∷◌, if◌then◌else◌, ltb, leb, ◌==◌, length, All, arith, Bool-cases, inl, inr,
}

abbrev pub invite_len : ℕ
invite_len = 8

-- A to Z without I and O, and 2 to 9.
abbrev pub in_alphabet : ℕ → Bool
in_alphabet c =
    (leb b'A' c && (leb c b'Z' && (not (c == b'I') && not (c == b'O'))))
    || (leb b'2' c && leb c b'9')

-- The letter at a place of inviteAlphabet.
abbrev pub letter_at : ℕ → ℕ
letter_at i =
    if ltb i 8
    then b'A' + i
    else if ltb i 13
    then b'J' + (i - 8)
    else if ltb i 24
    then b'P' + (i - 13)
    else b'2' + (i - 24)

-- NewInviteCode, from its random bytes.
unfoldable pub new_code_of : List ℕ → List ℕ
new_code_of [] = []
new_code_of (b ∷ bs) = letter_at (b % 32) ∷ new_code_of bs

abbrev pub to_upper : ℕ → ℕ
to_upper c = if leb b'a' c && leb c b'z' then c - 32 else c

abbrev pub is_separator : ℕ → Bool
is_separator c = (c == b'-') || (c == b' ')

-- The loop of NormalizeInviteCode.
unfoldable pub clean_code : List ℕ → Option (List ℕ)
clean_code [] = some []
clean_code (c ∷ cs) =
    let rest = clean_code cs in
    if is_separator (to_upper c)
    then rest
    else if in_alphabet (to_upper c)
    then (elim rest [ none ↦ none | some s ↦ some (to_upper c ∷ s) ])
    else none

abbrev pub of_length : Option (List ℕ) → Option (List ℕ)
of_length none = none
of_length (some s) = if length s == invite_len then some s else none

unfoldable pub normalize_invite_code : List ℕ → Option (List ℕ)
unfolding clean_code
normalize_invite_code s = of_length (clean_code s)

abbrev dashed : List ℕ → List ℕ
dashed (a ∷ b ∷ c ∷ d ∷ rest) = a ∷ b ∷ c ∷ d ∷ b'-' ∷ rest
dashed other = other

-- FormatInviteCode: four, a dash, and the other four.
unfoldable pub format_invite_code : List ℕ → List ℕ
format_invite_code s = if length s == invite_len then dashed s else s

-- What a user may type for a code: small letters for large ones, and dashes and spaces anywhere.
pub data Typed : List ℕ → List ℕ → Type 0 where
  nothing : Typed [] []
  same : (c : ℕ) {s t : List ℕ} → Typed s t → Typed (c ∷ s) (c ∷ t)
  small : (c : ℕ) {s t : List ℕ} → b'A' ≤ c → c ≤ b'Z' → Typed s t → Typed (c ∷ s) ((c + 32) ∷ t)
  separated : (c : ℕ) {s t : List ℕ} → is_separator c ≡ true → Typed s t → Typed s (c ∷ t)

abbrev pub IsCode : List ℕ → Type 0
IsCode s = All (λ (c : ℕ). in_alphabet c ≡ true) s

clean_code-Typed : (s t : List ℕ) → Typed s t → IsCode s → clean_code t ≡ some s
unfolding clean_code
clean_code-Typed _ _ nothing h = refl
clean_code-Typed _ _ (same c {s} {t} w) h = ground (arith, clean_code-Typed s t w)
clean_code-Typed _ _ (small c {s} {t} lo hi w) h = ground (arith, clean_code-Typed s t w)
clean_code-Typed s _ (separated c {s = s'} {t} e w) h = ground (arith, clean_code-Typed s' t w)

letter_at-alphabet : (i : ℕ) → i < 32 → in_alphabet (letter_at i) ≡ true
letter_at-alphabet i h = ground arith

new_code_of-IsCode : (bs : List ℕ) → IsCode (new_code_of bs)
unfolding new_code_of
new_code_of-IsCode [] = tt
new_code_of-IsCode (b ∷ bs) = (letter_at-alphabet (b % 32) (omega arith), new_code_of-IsCode bs)

length-new_code_of : (bs : List ℕ) → length (new_code_of bs) ≡ length bs
unfolding new_code_of
length-new_code_of [] = refl
length-new_code_of (b ∷ bs) = omega (arith, length-new_code_of bs)

normalize-Typed :
    (s t : List ℕ) → length s ≡ invite_len → IsCode s → Typed s t → normalize_invite_code t ≡ some s
unfolding normalize_invite_code
normalize-Typed s t n h w = rw (clean_code-Typed s t w h) (rw n refl)

Typed-refl : (s : List ℕ) → Typed s s
Typed-refl [] = nothing
Typed-refl (c ∷ s) = same c (Typed-refl s)

dashed-Typed : (s : List ℕ) → Typed s (dashed s)
dashed-Typed [] = nothing
dashed-Typed (a ∷ []) = Typed-refl (a ∷ [])
dashed-Typed (a ∷ b ∷ []) = Typed-refl (a ∷ b ∷ [])
dashed-Typed (a ∷ b ∷ c ∷ []) = Typed-refl (a ∷ b ∷ c ∷ [])
dashed-Typed (a ∷ b ∷ c ∷ d ∷ s) =
    same a (same b (same c (same d (separated b'-' refl (Typed-refl s)))))

format-Typed : (s : List ℕ) → Typed s (format_invite_code s)
unfolding format_invite_code
format-Typed s = elim (Bool-cases (length s == invite_len)) [
  | inl e ↦ rw e (dashed-Typed s)
  | inr e ↦ rw e (Typed-refl s)
]

-- A code made from eight random bytes is read back from the form in which it is shown, and from
-- whatever a user types for it: small letters for large ones, and dashes and spaces anywhere.
pub new_code-normalize :
    (bs t : List ℕ)
    → length bs ≡ invite_len
    → Typed (new_code_of bs) t
    → (normalize_invite_code (format_invite_code (new_code_of bs)) ≡ some (new_code_of bs))
      × (normalize_invite_code t ≡ some (new_code_of bs))
new_code-normalize bs t n w =
    let size : length (new_code_of bs) ≡ invite_len = omega (arith, length-new_code_of bs) in
    (
      normalize-Typed (new_code_of bs) (format_invite_code (new_code_of bs)) size
          (new_code_of-IsCode bs) (format-Typed (new_code_of bs)),
      normalize-Typed (new_code_of bs) t size (new_code_of-IsCode bs) w,
    )
