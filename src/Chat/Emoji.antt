-- ===== src/Chat/Emoji.antt =====
-- internal/chat/emoji.go: ValidateEmoji, on the runes of a valid UTF-8 text. A text that is not valid
-- UTF-8 has no runes here; the code refuses it first.
use chirpy.Prelude.{
  ℕ, ◌+◌, ◌≤◌, ◌≡◌, refl, Bool, true, false, not, ◌||◌, ◌&&◌, List, [], ◌∷◌, if◌then◌else◌, leb,
  ltb, ◌==◌, arith, Bool-cases, inl, inr, ==_iff, ◌↔◌, ◌⊎◌,
}

abbrev pub max_emoji_bytes : ℕ
max_emoji_bytes = 64

abbrev pub between : ℕ → ℕ → ℕ → Bool
between a b r = leb a r && leb r b

unfoldable pub is_pictographic : ℕ → Bool
is_pictographic r =
    between 127744 129791 r
    || (between 9728 10175 r
        || (between 11008 11263 r
            || (between 8592 8703 r
                || (between 8960 9215 r
                    || (between 126976 127743 r
                        || ((r == 169)
                            || ((r == 174)
                                || ((r == 8252)
                                    || ((r == 8265)
                                        || ((r == 8482)
                                            || ((r == 8505)
                                                || ((r == 12336)
                                                    || ((r == 12349)
                                                        || ((r == 12951)
                                                            || (r == 12953)))))))))))))))

abbrev pub zwj : ℕ
zwj = 8205

abbrev pub vs16 : ℕ
vs16 = 65039

abbrev pub keycap_mark : ℕ
keycap_mark = 8419

abbrev pub is_skin_tone : ℕ → Bool
is_skin_tone r = between 127995 127999 r

abbrev pub is_regional : ℕ → Bool
is_regional r = between 127462 127487 r

abbrev pub is_tag : ℕ → Bool
is_tag r = between 917536 917631 r

-- How many bytes UTF-8 takes.
abbrev pub rune_len : ℕ → ℕ
rune_len r = if ltb r 128 then 1 else if ltb r 2048 then 2 else if ltb r 65536 then 3 else 4

abbrev pub byte_len : List ℕ → ℕ
byte_len [] = 0
byte_len (r ∷ rs) = rune_len r + byte_len rs

abbrev pub is_modifier : ℕ → Bool
is_modifier r = (r == vs16) || (is_skin_tone r || is_tag r)

-- The loop over the runes, with `expectBase`.
unfoldable pub scan_sequence : Bool → List ℕ → Bool
scan_sequence expect_base [] = not expect_base
scan_sequence true (r ∷ rs) = is_pictographic r && scan_sequence false rs
scan_sequence false (r ∷ rs) =
    let after_base = scan_sequence false rs in
    let after_join = scan_sequence true rs in
    if is_modifier r then after_base else if r == zwj then after_join else false

abbrev pub is_flag_rest : List ℕ → Bool
is_flag_rest (b ∷ []) = is_regional b
is_flag_rest _ = false

abbrev pub is_keycap_start : ℕ → Bool
is_keycap_start r = between 48 57 r || ((r == 35) || (r == 42))

abbrev pub is_keycap_rest : List ℕ → Bool
is_keycap_rest (a ∷ []) = a == keycap_mark
is_keycap_rest (a ∷ b ∷ []) = (a == vs16) && (b == keycap_mark)
is_keycap_rest _ = false

unfoldable pub validate_emoji : List ℕ → Bool
unfolding scan_sequence
validate_emoji [] = false
validate_emoji (r ∷ rs) =
    if ltb max_emoji_bytes (byte_len (r ∷ rs))
    then false
    else if is_regional r
    then is_flag_rest rs
    else if is_keycap_start r
    then is_keycap_rest rs
    else scan_sequence true (r ∷ rs)

-- The grammar: the text is cut at each joiner.
abbrev push_rune : ℕ → List (List ℕ) → List (List ℕ)
push_rune r [] = (r ∷ []) ∷ []
push_rune r (p ∷ ps) = (r ∷ p) ∷ ps

unfoldable pub split_zwj : List ℕ → List (List ℕ)
split_zwj [] = [] ∷ []
split_zwj (r ∷ rs) = if r == zwj then [] ∷ split_zwj rs else push_rune r (split_zwj rs)

abbrev pub all_true {ℓ} : {A : Type ℓ} → (A → Bool) → List A → Bool
all_true test [] = true
all_true test (x ∷ xs) = test x && all_true test xs

-- One part: a pictograph, and modifiers of it.
abbrev pub is_part : List ℕ → Bool
is_part [] = false
is_part (b ∷ ms) = is_pictographic b && all_true is_modifier ms

abbrev part_rest : List (List ℕ) → Bool
part_rest [] = true
part_rest (p ∷ ps) = all_true is_modifier p && all_true is_part ps

-- The two kinds of emoji with a form of their own.
abbrev pub is_flag : List ℕ → Bool
is_flag [] = false
is_flag (a ∷ rs) = is_regional a && is_flag_rest rs

abbrev pub is_keycap : List ℕ → Bool
is_keycap [] = false
is_keycap (a ∷ rs) = is_keycap_start a && is_keycap_rest rs

abbrev pub starts_special : List ℕ → Bool
starts_special [] = true
starts_special (a ∷ rs) = is_regional a || is_keycap_start a

zwj_alone : (is_pictographic zwj ≡ false) × (is_modifier zwj ≡ false)
unfolding is_pictographic
zwj_alone = (refl, refl)

split_zwj-cons : (rs : List ℕ) → (p : List ℕ) × (ps : List (List ℕ)) × (split_zwj rs ≡ p ∷ ps)
unfolding split_zwj
split_zwj-cons [] = ([], [], refl)
split_zwj-cons (r ∷ rs) =
    let (p, ps, e) = split_zwj-cons rs in
    elim (Bool-cases (r == zwj)) [
      | inl j ↦ ([], split_zwj rs, rw j)
      | inr n ↦ (r ∷ p, ps, rw (n, e))
    ]

scan_sequence-split :
    (rs : List ℕ)
    → (scan_sequence true rs ≡ all_true is_part (split_zwj rs))
      × (scan_sequence false rs ≡ part_rest (split_zwj rs))
unfolding scan_sequence split_zwj
scan_sequence-split [] = (refl, refl)
scan_sequence-split (r ∷ rs) =
    let (p, ps, e) = split_zwj-cons rs in
    let (based, joined) = scan_sequence-split rs in
    elim (Bool-cases (r == zwj)) [
      | inl j ↦
          let here : r ≡ zwj = (==_iff r zwj).0 j in
          (ground (arith, zwj_alone, j, here), ground (arith, zwj_alone, j, here))
      | inr n ↦ (
        ground (arith, n, e, joined),
        elim (Bool-cases (is_modifier r)) [
          | inl m ↦ ground (arith, m, n, e)
          | inr m ↦ ground (arith, m, n, e)
        ],
      )
    ]

-- The order of the tests does not matter, since no text starts both ways.
verdict_iff :
    (n : ℕ) (regional flag keycap marked seq : Bool)
    → (regional && keycap) ≡ false
    → ((if ltb max_emoji_bytes n
          then false
          else if regional
          then flag
          else if keycap
          then marked
          else seq)
        ≡ true)
      ↔ ((n ≤ max_emoji_bytes)
          × (((regional && flag) ≡ true)
              ⊎ (((keycap && marked) ≡ true) ⊎ (((regional || keycap) ≡ false) × (seq ≡ true)))))
verdict_iff n true flag true marked seq e = cc
verdict_iff n true flag false marked seq e = ground arith
verdict_iff n false flag true marked seq e = ground arith
verdict_iff n false flag false marked seq e = ground arith

starts-apart : (r : ℕ) → (is_regional r && is_keycap_start r) ≡ false
starts-apart r = ground arith

-- A text is taken for one emoji exactly when it has at most 64 bytes and is two regional
-- indicators, or a keycap, or, if it starts like neither, is such that each part between its
-- joiners is a pictograph with modifiers after it.
pub validate_emoji_iff :
    (rs : List ℕ)
    → (validate_emoji rs ≡ true) ↔ (
        (byte_len rs ≤ max_emoji_bytes)
        × ((is_flag rs ≡ true)
            ⊎ ((is_keycap rs ≡ true)
                ⊎ ((starts_special rs ≡ false) × (all_true is_part (split_zwj rs) ≡ true)))))
unfolding validate_emoji
validate_emoji_iff [] = ground arith
validate_emoji_iff (r ∷ rs) = rw (← (scan_sequence-split (r ∷ rs)).0) (
    verdict_iff (byte_len (r ∷ rs)) (is_regional r) (is_flag_rest rs) (is_keycap_start r)
      (is_keycap_rest rs) (scan_sequence true (r ∷ rs)) (starts-apart r))
