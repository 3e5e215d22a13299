-- ===== src/Main/Texts.antt =====
-- What src/main.cpp uses of the C and C++ libraries to read texts, in the C locale.
use cpu_x.Shared.{
  ℕ, ◌+◌, ◌-◌, ◌*◌, ◌^◌, ◌==◌, ltb, leb, if◌then◌else◌, Bool, true, false, ◌&&◌, ◌||◌, List, [],
  ◌∷◌, ◌++◌, Option, none, some,
}

-- `strcmp` of two texts that are equal.
abbrev pub same_text : List ℕ → List ℕ → Bool
same_text [] [] = true
same_text [] (c ∷ t) = false
same_text (c ∷ s) [] = false
same_text (c ∷ s) (d ∷ t) = (c == d) && same_text s t

abbrev pub is_digit : ℕ → Bool
is_digit c = leb b'0' c && leb c b'9'

abbrev pub is_blank : ℕ → Bool
is_blank c = c == b' ' || (leb 9 c && leb c 13)

abbrev pub to_lower : ℕ → ℕ
to_lower c = if leb b'A' c && leb c b'Z' then c + 32 else c

-- The number that the digits at the start of a text stand for, behind those of `acc`.
abbrev pub digits_from : ℕ → List ℕ → ℕ
digits_from acc [] = acc
digits_from acc (c ∷ s) =
    let rest = digits_from (acc * 10 + (c - b'0')) s in if is_digit c then rest else acc

-- `std::stoul` of a text that starts with a digit: it throws where the number has more than 64 bits.
abbrev pub stoul : List ℕ → Option ℕ
stoul s = if ltb (digits_from 0 s) (2 ^ 64) then some (digits_from 0 s) else none

-- The loop over `stream >> tmp`: the words of a text, `word` being the letters read of the current one.
abbrev flush : List ℕ → List (List ℕ) → List (List ℕ)
flush [] rest = rest
flush (c ∷ word) rest = (c ∷ word) ∷ rest

abbrev pub words_from : List ℕ → List ℕ → List (List ℕ)
words_from word [] = flush word []
words_from word (c ∷ s) =
    if is_blank c then flush word (words_from [] s) else words_from (word ++ c ∷ []) s

-- `std::list::remove`.
abbrev pub remove : List ℕ → List (List ℕ) → List (List ℕ)
remove s [] = []
remove s (t ∷ ts) = let rest = remove s ts in if same_text s t then rest else t ∷ rest
