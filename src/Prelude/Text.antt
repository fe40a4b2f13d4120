-- ===== src/Prelude/Text.antt =====
-- The regular expressions that bound identifiers and codes, as tests on code points.
use Prim.Native.Char.{code}
use Prim.Native.Nat.{ℕ, suc, zero, ◌/◌, ◌%◌}
use Prim.Native.String.{String, ◌++◌ as ◌<>◌}
use mathlib.Core.Bool.{Bool, true, false, ◌&&◌, ◌||◌}
use mathlib.Core.List.{List, [], ◌∷◌}
use azure_llm_governance_api.Prelude.Tests.{if◌then◌else◌, ltb, leb, ◌==◌}
use azure_llm_governance_api.Prelude.Lists.{length, every}

abbrev pub codes : String → List ℕ
codes String.[] = []
codes (String.◌∷◌ c s) = code c ∷ codes s

pub is_lower : ℕ → Bool
is_lower c = leb b'a' c && leb c b'z'

pub is_upper : ℕ → Bool
is_upper c = leb b'A' c && leb c b'Z'

pub is_digit : ℕ → Bool
is_digit c = leb b'0' c && leb c b'9'

within : ℕ → ℕ → List ℕ → Bool
within low high cs = leb low (length cs) && leb (length cs) high

is_id_char : ℕ → Bool
unfolding is_lower is_upper is_digit
is_id_char c =
    is_upper c || is_lower c || is_digit c || c == b'.' || c == b'_' || c == b':' || c == b'-'

-- /^[A-Za-z0-9._:-]{1,128}$/
unfoldable pub is_safe_id : String → Bool
unfolding within is_id_char
is_safe_id s = within 1 128 (codes s) && every is_id_char (codes s)

is_code_char : ℕ → Bool
unfolding is_lower is_digit
is_code_char c = is_lower c || is_digit c || c == b'-'

code_shape : ℕ → ℕ → List ℕ → Bool
unfolding is_lower within is_code_char
code_shape low high [] = false
code_shape low high (c ∷ cs) = is_lower c && (within low high cs && every is_code_char cs)

-- /^[a-z][a-z0-9-]{2,63}$/
unfoldable pub is_code : String → Bool
unfolding code_shape
is_code s = code_shape 2 63 (codes s)

-- /^[a-z][a-z0-9-]{1,62}$/
unfoldable pub is_tier_code : String → Bool
unfolding code_shape
is_tier_code s = code_shape 1 62 (codes s)

is_alias_char : ℕ → Bool
unfolding is_lower is_upper is_digit
is_alias_char c = is_upper c || is_lower c || is_digit c || c == b'.' || c == b'_' || c == b'-'

-- /^[A-Za-z0-9._-]{1,64}$/
unfoldable pub is_alias : String → Bool
unfolding within is_alias_char
is_alias s = within 1 64 (codes s) && every is_alias_char (codes s)

-- One hexadecimal digit of either case: the pattern carries the `i` flag.
digits_then : List ℕ → Bool
unfolding is_digit within is_alias_char
digits_then [] = false
digits_then (c ∷ cs) =
    let rest = digits_then cs in
    if is_digit c then rest else c == b'-' && (within 16 120 cs && every is_alias_char cs)

starts_with_digit : List ℕ → Bool
unfolding is_digit
starts_with_digit [] = false
starts_with_digit (c ∷ cs) = is_digit c

application_key_shape : List ℕ → Bool
unfolding digits_then starts_with_digit
application_key_shape (a ∷ k ∷ cs) =
    a == b'a' && (k == b'k' && (starts_with_digit cs && digits_then cs))
application_key_shape _ = false

-- /^ak[0-9]+-[A-Za-z0-9._-]{16,120}$/
unfoldable pub is_application_key : String → Bool
unfolding application_key_shape
is_application_key s = application_key_shape (codes s)

is_hex : ℕ → Bool
unfolding is_digit
is_hex c = is_digit c || (leb b'a' c && leb c b'f') || (leb b'A' c && leb c b'F')

-- `n` hexadecimal digits, and then the groups that are left, each behind a dash.
groups : List ℕ → ℕ → List ℕ → Bool
unfolding is_hex
groups [] zero [] = true
groups (n ∷ ns) zero (c ∷ cs) = c == b'-' && groups ns n cs
groups ns (suc n) (c ∷ cs) = is_hex c && groups ns n cs
groups _ _ _ = false

-- /^[0-9a-f]{8}-[0-9a-f]{4}-[0-9a-f]{4}-[0-9a-f]{4}-[0-9a-f]{12}$/i
unfoldable pub is_raw_principal : String → Bool
unfolding groups
is_raw_principal s = groups (4 ∷ 4 ∷ 4 ∷ 12 ∷ []) 8 (codes s)

-- The default order of `Array.prototype.sort` on strings: by code unit.
lt_codes : List ℕ → List ℕ → Bool
lt_codes [] [] = false
lt_codes [] (d ∷ ds) = true
lt_codes (c ∷ cs) [] = false
lt_codes (c ∷ cs) (d ∷ ds) = ltb c d || (c == d && lt_codes cs ds)

unfoldable pub lt_text : String → String → Bool
unfolding lt_codes
lt_text s t = lt_codes (codes s) (codes t)

entry : List String → ℕ → String
entry [] n = ""
entry (x ∷ xs) zero = x
entry (x ∷ xs) (suc n) = entry xs n

digit : ℕ → String
unfolding entry
digit = entry ("0" ∷ "1" ∷ "2" ∷ "3" ∷ "4" ∷ "5" ∷ "6" ∷ "7" ∷ "8" ∷ "9" ∷ [])

-- `${index}` of an index below a hundred.
unfoldable pub index_text : ℕ → String
unfolding digit
index_text n = if ltb n 10 then digit n else digit (n / 10) <> digit (n % 10)

-- `${n}`: the digits of `n`, written before those that are there. Fuel above `n` is enough.
digits_before : ℕ → ℕ → String → String
unfolding digit
digits_before zero n s = s
digits_before (suc fuel) n s =
    let rest = digits_before fuel (n / 10) (digit (n % 10) <> s) in
    if ltb n 10 then digit n <> s else rest

unfoldable pub decimal : ℕ → String
unfolding digits_before
decimal n = digits_before (suc n) n ""
