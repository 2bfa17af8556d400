-- ===== src/Text.antt =====
-- Text as the program's runtime sees it: a list of UTF-16 code units, with the methods of `String`
-- that the source calls. `Unicode` is what comes from the Unicode tables, a parameter.
pub mod Equality
use Prim.Native.Char.{code}
use Prim.Native.String.{String, [], ◌∷◌}
use ai_content_operating_sys.Base.{
  ℕ, ◌+◌, Bool, true, false, ◌&&◌, ◌||◌, List, [], ◌∷◌, Option, none, some, leb, ltb, ◌-◌, ◌*◌,
  zero, suc, ◌==◌, if◌then◌else◌,
}

abbrev pub Text : Type 0
Text = List ℕ

-- a literal of the source in ASCII
abbrev pub units : String → Text
units [] = []
units (c ∷ s) = code c ∷ units s

abbrev pub is_empty : Text → Bool
is_empty [] = true
is_empty (_ ∷ _) = false

abbrev pub between : ℕ → ℕ → ℕ → Bool
between lo hi c = leb lo c && leb c hi

-- `\s`, and what `trim` removes
unfoldable pub is_space : ℕ → Bool
is_space c =
    between 0x9 0xd c
    || c == 0x20
    || c == 0xa0
    || c == 0x1680
    || between 0x2000 0x200a c
    || c == 0x2028
    || c == 0x2029
    || c == 0x202f
    || c == 0x205f
    || c == 0x3000
    || c == 0xfeff

pub trim_start : Text → Text
trim_start [] = []
trim_start (c ∷ s) = let rest = trim_start s in if is_space c then rest else c ∷ s

pub trim_end : Text → Text
trim_end [] = []
trim_end (c ∷ s) = let rest = trim_end s in if is_space c && is_empty rest then [] else c ∷ rest

-- `value.trim()`
unfoldable pub trim : Text → Text
unfolding trim_start trim_end is_space
trim s = trim_end (trim_start s)

-- `value.replace(/p+/g, unit)` for a class `p` of characters; `inside` is true just after one of them.
unfoldable pub collapse_from : (ℕ → Bool) → ℕ → Bool → Text → Text
collapse_from p unit inside [] = []
collapse_from p unit inside (c ∷ s) =
    let rest = collapse_from p unit (p c) s in
    if p c then (if inside then rest else unit ∷ rest) else c ∷ rest

unfoldable pub collapse : (ℕ → Bool) → ℕ → Text → Text
unfolding collapse_from
collapse p unit s = collapse_from p unit false s

-- `value.replace(/\s+/g, ' ')`
unfoldable pub collapse_spaces : Text → Text
unfolding collapse is_space
collapse_spaces s = collapse is_space 0x20 s

-- `value?.trim() || null`
unfoldable pub optional_text : Option Text → Option Text
unfolding trim
optional_text none = none
optional_text (some v) = if is_empty (trim v) then none else some (trim v)

-- `input.x ? { x: f(input.x) } : {}`
abbrev pub edited_text : (Text → Text) → Option Text → Text → Text
edited_text f none old = old
edited_text f (some []) old = old
edited_text f (some (c ∷ s)) old = f (c ∷ s)

-- `Buffer.byteLength(value, 'utf8')`: a surrogate pair takes four bytes, a lone surrogate three.
unfoldable pub byte_length : Text → ℕ
byte_length [] = 0
byte_length (c ∷ []) = if leb c 0x7f then 1 else if leb c 0x7ff then 2 else 3
byte_length (c ∷ d ∷ s) =
    let one = byte_length (d ∷ s) in
    let pair = byte_length s in
    if leb c 0x7f
    then 1 + one
    else if leb c 0x7ff
    then 2 + one
    else if between 0xd800 0xdbff c && between 0xdc00 0xdfff d
    then 4 + pair
    else 3 + one

abbrev pub surrogates : ℕ → ℕ → ℕ
surrogates c d = 0x10000 + (c - 0xd800) * 0x400 + (d - 0xdc00)

-- The code points, as a regular expression with the flag `u` reads them.
unfoldable pub code_points : Text → List ℕ
code_points [] = []
code_points (c ∷ []) = c ∷ []
code_points (c ∷ d ∷ s) =
    let one = code_points (d ∷ s) in
    let pair = code_points s in
    if between 0xd800 0xdbff c && between 0xdc00 0xdfff d then surrogates c d ∷ pair else c ∷ one

-- `value.replace(/[^p]/gu, '')` for a class `p` of code points
unfoldable pub keep : (ℕ → Bool) → Text → Text
keep p [] = []
keep p (c ∷ []) = if p c then c ∷ [] else []
keep p (c ∷ d ∷ s) =
    let one = keep p (d ∷ s) in
    let pair = keep p s in
    if between 0xd800 0xdbff c && between 0xdc00 0xdfff d
    then (if p (surrogates c d) then c ∷ d ∷ pair else pair)
    else (if p c then c ∷ one else one)

-- `value.slice(0, n)`
unfoldable pub take : ℕ → Text → Text
take zero s = []
take (suc n) [] = []
take (suc n) (c ∷ s) = c ∷ take n s

-- `value.startsWith(prefix)`, with what follows the prefix
unfoldable pub after_prefix : Text → Text → Option Text
after_prefix [] s = some s
after_prefix (a ∷ w) [] = none
after_prefix (a ∷ w) (c ∷ s) = let rest = after_prefix w s in if c == a then rest else none

-- `a < b` on strings: by code units
unfoldable pub before : Text → Text → Bool
before [] [] = false
before [] (_ ∷ _) = true
before (_ ∷ _) [] = false
before (a ∷ s) (b ∷ t) = let rest = before s t in ltb a b || a == b && rest

-- `a === b` on strings
unfoldable pub equal : Text → Text → Bool
equal [] [] = true
equal [] (_ ∷ _) = false
equal (_ ∷ _) [] = false
equal (a ∷ s) (b ∷ t) = let rest = equal s t in a == b && rest

-- What the runtime takes from the Unicode tables.
pub record Unicode : Type 0 where
  pub to_lower_case : Text → Text
  pub to_locale_lower_case : Text → Text
  pub nfkd : Text → Text
  pub nfkc : Text → Text
  pub is_letter_or_number : ℕ → Bool  -- [\p{L}\p{N}]
