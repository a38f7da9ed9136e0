-- ===== src/Text.antt =====
-- Text handling of the models: `str.strip`, `str.upper`, `str.lower` and the length and symbol
-- constraints that the pydantic fields state (app/domain, app/data_sources). Letters are mapped
-- within ASCII; other code points are left as they are.
pub mod Laws
pub mod Render
use stock_master.Prelude.{
  ℕ, ◌+◌, ◌-◌, Text, List, [], ◌∷◌, ◌++◌, Bool, true, false, ◌&&◌, ◌||◌, leb, ◌==◌, if◌then◌else◌,
  length, map,
}

-- `str.isspace` of one code point
unfoldable pub is_space : ℕ → Bool
is_space c =
    (leb 9 c && leb c 13)
    || (leb 28 c && leb c 32)
    || (c == 133)
    || (c == 160)
    || (c == 5760)
    || (leb 8192 c && leb c 8202)
    || (c == 8232)
    || (c == 8233)
    || (c == 8239)
    || (c == 8287)
    || (c == 12288)

unfoldable pub strip_left : Text → Text
strip_left [] = []
strip_left (c ∷ s) = elim (is_space c) [ true ↦ strip_left s | false ↦ c ∷ s ]

-- one code point in front of a text that is stripped on its right
unfoldable pub strip_cons : ℕ → Text → Text
strip_cons c [] = if is_space c then [] else c ∷ []
strip_cons c (d ∷ s) = c ∷ d ∷ s

unfoldable pub strip_right : Text → Text
unfolding strip_cons
strip_right [] = []
strip_right (c ∷ s) = strip_cons c (strip_right s)

-- `str.strip()`
unfoldable pub strip : Text → Text
unfolding strip_left strip_right
strip s = strip_right (strip_left s)

unfoldable pub upper_code : ℕ → ℕ
upper_code c = if leb b'a' c && leb c b'z' then c - 32 else c

unfoldable pub lower_code : ℕ → ℕ
lower_code c = if leb b'A' c && leb c b'Z' then c + 32 else c

-- `str.upper()`
unfoldable pub upper : Text → Text
unfolding upper_code
upper = map upper_code

-- `str.lower()`
unfoldable pub lower : Text → Text
unfolding lower_code
lower = map lower_code

unfoldable pub is_upper : ℕ → Bool
is_upper c = leb b'A' c && leb c b'Z'

-- `[A-Z0-9.-]`
unfoldable pub is_symbol_code : ℕ → Bool
unfolding is_upper
is_symbol_code c = is_upper c || (leb b'0' c && leb c b'9') || (c == b'.') || (c == b'-')

unfoldable pub all_codes : (ℕ → Bool) → Text → Bool
all_codes p [] = true
all_codes p (c ∷ s) = p c && all_codes p s

-- `min_length=lo, max_length=hi`
unfoldable pub length_within : ℕ → ℕ → Text → Bool
length_within lo hi s = leb lo (length s) && leb (length s) hi

-- `min_length=1, max_length=15, pattern=r"^[A-Z][A-Z0-9.-]*$"`
unfoldable pub is_symbol : Text → Bool
unfolding is_upper is_symbol_code all_codes length_within
is_symbol [] = false
is_symbol (c ∷ s) = is_upper c && all_codes is_symbol_code s && length_within 1 15 (c ∷ s)

-- `[a-z]`
unfoldable pub is_lower : ℕ → Bool
is_lower c = leb b'a' c && leb c b'z'

-- `[a-z0-9_]`
unfoldable pub is_name_code : ℕ → Bool
unfolding is_lower
is_name_code c = is_lower c || (leb b'0' c && leb c b'9') || (c == b'_')

-- `min_length=1, max_length=100, pattern=r"^[a-z][a-z0-9_]*$"`
unfoldable pub is_event_type : Text → Bool
unfolding is_lower is_name_code all_codes length_within
is_event_type [] = false
is_event_type (c ∷ s) = is_lower c && all_codes is_name_code s && length_within 1 100 (c ∷ s)

-- the `normalize_symbol` validators
unfoldable pub normalize_symbol : Text → Text
unfolding strip upper
normalize_symbol s = upper (strip s)
