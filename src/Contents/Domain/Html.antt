-- ===== src/Contents/Domain/Html.antt =====
-- content-domain.ts: the checks and the measures of a content's HTML. The package `sanitize-html` is
-- a parameter, called with the options of the source.
use Prim.Native.String.{String, [], ◌∷◌}
use ai_content_operating_sys.Base.{
  ℕ, ◌+◌, ◌-◌, ◌/◌, Bool, true, false, not, ◌||◌, List, [], ◌∷◌, Option, none, some, ◌==◌, is_some,
  zero, suc, map, length, if◌then◌else◌,
}
use ai_content_operating_sys.Text.{
  Text, Unicode, units, is_space, between, code_points, trim, collapse_spaces,
}
use ai_content_operating_sys.Database.ContentRows.{ContentItem}

-- What the source passes to `sanitizeHtml`.
pub record SanitizeOptions : Type 0 where
  pub allowed_tags : List String
  pub allowed_attributes : List (String × List String)
  pub allowed_schemes : Option (List String)  -- when given
  pub allow_protocol_relative : Option Bool
  pub enforce_html_boundary : Bool
  pub no_opener_on_blank : Bool  -- `transformTags.a`: `rel` for a link with `target="_blank"`

-- The package, and the letters and numbers of the Unicode tables.
pub record HtmlLibrary : Type 0 where
  pub sanitize_html : SanitizeOptions → Text → Text
  pub unicode : Unicode

abbrev pub reading_words_per_minute : ℕ
reading_words_per_minute = 225

abbrev pub max_content_html_bytes : ℕ
max_content_html_bytes = 500000

-- an ASCII letter in lower case, whatever its case (the flag `i`)
abbrev pub lower : ℕ → ℕ
lower c = if between 0x41 0x5a c then c + 32 else c

-- `\b` after a word character: `[A-Za-z0-9_]` does not follow
abbrev pub is_word : ℕ → Bool
is_word c = between 0x30 0x39 c || between 0x61 0x7a (lower c) || c == 0x5f

abbrev pub at_boundary : Text → Bool
at_boundary [] = true
at_boundary (c ∷ _) = not (is_word c)

-- `\s*`
unfoldable pub skip_spaces : Text → Text
unfolding is_space
skip_spaces [] = []
skip_spaces (c ∷ s) = let rest = skip_spaces s in if is_space c then rest else c ∷ s

-- a literal, and the text after it
unfoldable pub after_literal : Text → Text → Option Text
after_literal [] s = some s
after_literal (a ∷ w) [] = none
after_literal (a ∷ w) (c ∷ s) = let rest = after_literal w s in if lower c == a then rest else none

abbrev pub then_parse : Option Text → (Text → Option Text) → Option Text
then_parse none f = none
then_parse (some s) f = f s

abbrev first_bounded : Option Text → Option Text → Option Text
first_bounded none other = other
first_bounded (some t) other = if at_boundary t then some t else other

-- `(?:w₁|w₂|…)\b`: the text after the first word that matches
unfoldable pub after_one_of : List Text → Text → Option Text
unfolding after_literal
after_one_of [] s = none
after_one_of (w ∷ ws) s = let rest = after_one_of ws s in first_bounded (after_literal w s) rest

-- `<`, at the start of a text
abbrev pub after_unit : ℕ → Text → Option Text
after_unit u [] = none
after_unit u (c ∷ s) = if c == u then some s else none

abbrev pub executable_tags : List Text
executable_tags =
    units "script"
    ∷ units "iframe"
    ∷ units "object"
    ∷ units "embed"
    ∷ units "svg"
    ∷ units "math"
    ∷ []

-- `<\s*(?:script|…)\b`
unfoldable pub executable_tag_at : Text → Bool
unfolding skip_spaces after_one_of
executable_tag_at s =
    is_some (then_parse (after_unit b'<' s) (λ t. after_one_of executable_tags (skip_spaces t)))

-- `[a-z]*`
unfoldable pub skip_letters : Text → Text
skip_letters [] = []
skip_letters (c ∷ s) =
    let rest = skip_letters s in if between 0x61 0x7a (lower c) then rest else c ∷ s

abbrev after_letters : Text → Option Text
after_letters [] = none
after_letters (c ∷ s) =
    let rest = skip_letters s in if between 0x61 0x7a (lower c) then some rest else none

abbrev after_space : Text → Option Text
after_space [] = none
after_space (c ∷ s) = if is_space c then some s else none

-- `\son[a-z]+\s*=`
unfoldable pub event_handler_at : Text → Bool
unfolding skip_letters skip_spaces after_literal is_space
event_handler_at s = is_some (
    then_parse (after_space s) (λ t.
      then_parse (after_literal (units "on") t)
        (λ u. then_parse (after_letters u) (λ v. after_unit b'=' (skip_spaces v)))))

-- `(?:javascript|vbscript)\s*:`
unfoldable pub script_scheme_at : Text → Bool
unfolding skip_spaces after_literal
script_scheme_at s =
    is_some
      (then_parse (after_literal (units "javascript") s) (λ t. after_unit b':' (skip_spaces t)))
    || is_some
        (then_parse (after_literal (units "vbscript") s) (λ t. after_unit b':' (skip_spaces t)))

-- `data\s*:\s*text\/html`
unfoldable pub data_scheme_at : Text → Bool
unfolding skip_spaces after_literal
data_scheme_at s = is_some (
    then_parse (after_literal (units "data") s) (λ t.
      then_parse (after_unit b':' (skip_spaces t))
        (λ u. after_literal (units "text/html") (skip_spaces u))))

-- `executableHtml` at one position
unfoldable pub executable_at : Text → Bool
unfolding executable_tag_at event_handler_at script_scheme_at data_scheme_at
executable_at s =
    executable_tag_at s || event_handler_at s || script_scheme_at s || data_scheme_at s

-- `containsExecutableHtml`
unfoldable pub contains_executable_html : Text → Bool
unfolding executable_at
contains_executable_html [] = executable_at []
contains_executable_html (c ∷ s) =
    let later = contains_executable_html s in executable_at (c ∷ s) || later

-- the options of `sanitizeEditorialHtml`
abbrev pub editorial_options : SanitizeOptions
editorial_options = record {
  allowed_tags =
      "p" ∷ "br" ∷ "h1" ∷ "h2" ∷ "h3" ∷ "h4" ∷ "h5" ∷ "h6" ∷ "strong" ∷ "em" ∷ "b" ∷ "i" ∷ "u" ∷ "s"
      ∷ "ul" ∷ "ol" ∷ "li" ∷ "blockquote" ∷ "a" ∷ "table" ∷ "thead" ∷ "tbody" ∷ "tr" ∷ "th" ∷ "td"
      ∷ "caption" ∷ "code" ∷ "pre" ∷ "hr" ∷ "span" ∷ [];
  allowed_attributes =
      ("a", "href" ∷ "title" ∷ "target" ∷ "rel" ∷ [])
      ∷ ("th", "colspan" ∷ "rowspan" ∷ "scope" ∷ [])
      ∷ ("td", "colspan" ∷ "rowspan" ∷ [])
      ∷ ("span", "lang" ∷ [])
      ∷ ("*", "dir" ∷ [])
      ∷ [];
  allowed_schemes = some ("http" ∷ "https" ∷ "mailto" ∷ []);
  allow_protocol_relative = some false;
  enforce_html_boundary = true;
  no_opener_on_blank = true;
}

-- `{ allowedTags: [], allowedAttributes: {} }`
abbrev pub text_options : SanitizeOptions
text_options = record {
  allowed_tags = [];
  allowed_attributes = [];
  allowed_schemes = none;
  allow_protocol_relative = none;
  enforce_html_boundary = false;
  no_opener_on_blank = false;
}

abbrev pub block_tags : List Text
block_tags =
    units "p"
    ∷ units "h1"
    ∷ units "h2"
    ∷ units "h3"
    ∷ units "h4"
    ∷ units "h5"
    ∷ units "h6"
    ∷ units "li"
    ∷ units "blockquote"
    ∷ units "tr"
    ∷ units "td"
    ∷ units "th"
    ∷ units "br"
    ∷ units "hr"
    ∷ []

-- `\/?`
abbrev skip_slash : Text → Text
skip_slash [] = []
skip_slash (c ∷ s) = if c == b'/' then s else c ∷ s

-- `[^>]*>`
unfoldable pub after_close : Text → Option Text
after_close [] = none
after_close (c ∷ s) = let rest = after_close s in if c == b'>' then some s else rest

-- `<\s*\/?\s*(?:p|h[1-6]|…)\b[^>]*>` at the start of a text: what follows it
unfoldable pub after_block_tag : Text → Option Text
unfolding skip_spaces after_one_of after_close
after_block_tag s = then_parse (after_unit b'<' s) (λ t.
    then_parse (after_one_of block_tags (skip_spaces (skip_slash (skip_spaces t)))) after_close)

-- `html.replace(…, ' ')`: what a match has taken is passed over.
unfoldable pub space_blocks : ℕ → Text → Text
unfolding after_block_tag
space_blocks skip [] = []
space_blocks (suc skip) (c ∷ s) = space_blocks skip s
space_blocks zero (c ∷ s) = elim (after_block_tag (c ∷ s)) [
  | none ↦ c ∷ space_blocks zero s
  | some rest ↦ 0x20 ∷ space_blocks (length s - length rest) s
]

-- `plainTextFromHtml`, with `.replace(/\u00a0/g, ' ')`
unfoldable pub plain_text_from_html : HtmlLibrary → Text → Text
unfolding space_blocks collapse_spaces trim
plain_text_from_html lib html = trim (
    collapse_spaces (
      map (λ c. if c == 0xa0 then 0x20 else c)
        (lib.sanitize_html text_options (space_blocks 0 html))))

-- `sanitizeEditorialHtml`
unfoldable pub sanitize_editorial_html : HtmlLibrary → Text → Text
unfolding trim
sanitize_editorial_html lib html = trim (lib.sanitize_html editorial_options html)

-- `['’_-]`
abbrev pub is_joiner : ℕ → Bool
is_joiner c = c == 0x27 || c == 0x2019 || c == 0x5f || c == 0x2d

-- where the scan for words stands
pub data Scan : Type 0 where
  outside inside joined : Scan

abbrev after_point : Scan → Bool → Scan
after_point inside joiner = if joiner then joined else outside
after_point _ joiner = outside

abbrev starts_word : Scan → ℕ
starts_word outside = 1
starts_word _ = 0

-- The matches of `/[\p{L}\p{N}]+(?:['’_-][\p{L}\p{N}]+)*/gu` in the code points that are left.
unfoldable pub count_words : (ℕ → Bool) → Scan → List ℕ → ℕ
count_words letter scan [] = 0
count_words letter scan (c ∷ s) =
    let within = count_words letter inside s in
    let beyond = count_words letter (after_point scan (is_joiner c)) s in
    if letter c then starts_word scan + within else beyond

pub record Metrics : Type 0 where
  pub plain_text_content : Text
  pub word_count : ℕ
  pub estimated_reading_minutes : ℕ

-- `wordCount === 0 ? 0 : Math.ceil(wordCount / 225)`
unfoldable pub reading_minutes : ℕ → ℕ
reading_minutes words =
    if words == 0 then 0 else (words + (reading_words_per_minute - 1)) / reading_words_per_minute

-- `calculateContentMetrics`
unfoldable pub calculate_content_metrics : HtmlLibrary → Text → Metrics
unfolding plain_text_from_html count_words reading_minutes code_points
calculate_content_metrics lib html =
    let text = plain_text_from_html lib html in
    let words = count_words lib.unicode.is_letter_or_number outside (code_points text) in
    record {
      plain_text_content = text;
      word_count = words;
      estimated_reading_minutes = reading_minutes words;
    }

-- `...metrics`
abbrev pub set_metrics : Metrics → ContentItem → ContentItem
set_metrics m r = record r {
  plain_text_content = m.plain_text_content;
  word_count = m.word_count;
  estimated_reading_minutes = m.estimated_reading_minutes;
}
