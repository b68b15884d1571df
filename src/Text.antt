-- ===== src/Text.antt =====
-- `strings.TrimSpace` and `strings.HasPrefix` over the code points of a text.
pub mod Trim
pub mod Prefix
use Prim.Native.Char.{Char, code}
use forgeiq.Prelude.{
  ltb, true, false, ◌∷◌, [], List, ℕ, ◌≡◌, refl, Bool, ◌||◌, ◌&&◌, String, leb, eqb, if◌then◌else◌,
  ◌==◌,
}

-- unicode.IsSpace
unfoldable pub is_space : ℕ → Bool
is_space c =
    (leb 9 c && leb c 13)
    || (c_is 32
        || (c_is 0x85
            || (c_is 0xA0
                || (c_is 0x1680
                    || ((leb 0x2000 c && leb c 0x200A)
                        || (c_is 0x2028
                            || (c_is 0x2029 || (c_is 0x202F || (c_is 0x205F || c_is 0x3000)))))))))
  where
    c_is : ℕ → Bool
    c_is d = eqb c d

unfoldable pub trim_left : String → String
unfolding is_space
trim_left String.[] = String.[]
trim_left (String.◌∷◌ c s) = if is_space (code c) then trim_left s else String.◌∷◌ c s

-- Drops the white space at the end: `c` stays if something stays behind it, or it is no space.
abbrev pub keep_char : Char → String → String
keep_char c String.[] = if is_space (code c) then String.[] else String.◌∷◌ c String.[]
keep_char c (String.◌∷◌ d s) = String.◌∷◌ c (String.◌∷◌ d s)

unfoldable pub trim_right : String → String
unfolding is_space
trim_right String.[] = String.[]
trim_right (String.◌∷◌ c s) = keep_char c (trim_right s)

-- strings.TrimSpace
unfoldable pub trim_space : String → String
unfolding trim_left trim_right
trim_space s = trim_right (trim_left s)

-- `strings.TrimSpace(s) == ""`
abbrev pub is_blank : String → Bool
is_blank s = trim_space s == ""

-- `strings.TrimRight(s, cutset)` for a cutset of one character.
abbrev pub keep_unless : ℕ → Char → String → String
keep_unless cut c String.[] = if eqb (code c) cut then String.[] else String.◌∷◌ c String.[]
keep_unless cut c (String.◌∷◌ d s) = String.◌∷◌ c (String.◌∷◌ d s)

unfoldable pub trim_right_char : ℕ → String → String
trim_right_char cut String.[] = String.[]
trim_right_char cut (String.◌∷◌ c s) = keep_unless cut c (trim_right_char cut s)

-- `a < b` on strings: the order of the code points, which is that of the bytes in UTF-8.
unfoldable pub str_lt : String → String → Bool
str_lt a String.[] = false
str_lt String.[] (String.◌∷◌ d t) = true
str_lt (String.◌∷◌ c s) (String.◌∷◌ d t) =
    let rest = str_lt s t in
    if ltb (code c) (code d) then true else if eqb (code c) (code d) then rest else false

-- `strings.Split(s, ",")`: the first part, and those after it.
abbrev push_char : Char → String × List String → String × List String
push_char c (part, parts) = (String.◌∷◌ c part, parts)

abbrev start_part : String × List String → String × List String
start_part (part, parts) = (String.[], part ∷ parts)

unfoldable pub split_parts : ℕ → String → String × List String
split_parts sep String.[] = (String.[], [])
split_parts sep (String.◌∷◌ c s) =
    let rest = split_parts sep s in if eqb (code c) sep then start_part rest else push_char c rest

unfoldable pub split : ℕ → String → List String
unfolding split_parts
split sep s = let (part, parts) = split_parts sep s in part ∷ parts

-- `strings.HasPrefix` and `strings.Contains`
unfoldable pub has_prefix : String → String → Bool
has_prefix s String.[] = true
has_prefix String.[] (String.◌∷◌ d p) = false
has_prefix (String.◌∷◌ c s) (String.◌∷◌ d p) =
    let rest = has_prefix s p in if eqb (code c) (code d) then rest else false

unfoldable pub contains_text : String → String → Bool
unfolding has_prefix
contains_text String.[] p = has_prefix String.[] p
contains_text (String.◌∷◌ c s) p =
    let rest = contains_text s p in if has_prefix (String.◌∷◌ c s) p then true else rest

inside : (contains_text "show the logs" "logs" ≡ true) × (contains_text "a blog" "logs" ≡ false)
unfolding contains_text
inside = (refl, refl)

split_both :
    (split b',' "a,,b" ≡ "a" ∷ "" ∷ "b" ∷ [])
    × (trim_right_char b'/' "http://x//" ≡ "http://x")
    × (str_lt "ab" "b" ≡ true)
    × (str_lt "b" "ba" ≡ true)
    × (str_lt "a" "a" ≡ false)
unfolding split trim_right_char str_lt
split_both = (refl, refl, refl, refl, refl)

trim_both : trim_space "  ab c\n" ≡ "ab c"
unfolding trim_space
trim_both = refl
