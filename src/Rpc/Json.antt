-- ===== src/Rpc/Json.antt =====
-- kernel/src/rpc.rs: the structural JSON reader. An index into the text is the text from there on,
-- and the end of the text is the empty one.
pub mod Escape
pub mod Numbers
use kernai.Base.{
  ℕ, zero, suc, ◌+◌, ◌-◌, ◌*◌, ◌^◌, Bool, true, false, ◌&&◌, ◌||◌, Option, none, some, [], ◌∷◌, ltb,
  leb, ◌==◌, if◌then◌else◌, length, take, drop, min, ◌>>=?◌,
}
use kernai.Text.{Text, is_continuation, same}
use kernai.Text.Utf8.{trim}

abbrev pub is_ws : ℕ → Bool
is_ws b = (b == b' ') || ((b == 9) || ((b == 10) || (b == 13)))

unfoldable pub skip_ws : Text → Text
skip_ws [] = []
skip_ws (b ∷ s) = let rest = skip_ws s in if is_ws b then rest else b ∷ s

-- The loop of `skip_string`; after a backslash the next byte is passed over.
unfoldable pub in_string : Bool → Text → Text
in_string escaped [] = []
in_string true (b ∷ s) = in_string false s
in_string false (b ∷ s) = let rest = in_string (b == b'\\') s in if b == b'"' then s else rest

-- From an opening quote on.
unfoldable pub skip_string : Text → Text
unfolding in_string
skip_string [] = []
skip_string (b ∷ s) = in_string false s

abbrev pub opens : ℕ → Bool
opens b = (b == b'{') || (b == b'[')

abbrev pub closes : ℕ → Bool
closes b = (b == b'}') || (b == b']')

-- The loop of `skip_container`, a round for each byte at most, at the depth given.
unfoldable pub in_container : ℕ → ℕ → Text → Text
unfolding skip_string
in_container zero depth s = []
in_container (suc fuel) depth [] = []
in_container (suc fuel) depth (b ∷ s) =
    let depth' = if opens b then depth + 1 else (if closes b then depth - 1 else depth) in
    let next = if b == b'"' then skip_string (b ∷ s) else s in
    let rest = in_container fuel depth' next in if closes b && (depth' == 0) then s else rest

-- From an opening bracket on.
unfoldable pub skip_container : Text → Text
unfolding in_container
skip_container s = in_container (length s) 0 s

-- To the next structural byte.
unfoldable pub skip_scalar : Text → Text
skip_scalar [] = []
skip_scalar (b ∷ s) = let rest = skip_scalar s in if (b == b',') || closes b then b ∷ s else rest

-- The value at the first byte that is not white space.
unfoldable pub skip_at : Text → Text
unfolding skip_string skip_container skip_scalar
skip_at [] = []
skip_at (b ∷ s) =
    if b == b'"'
    then skip_string (b ∷ s)
    else (if opens b then skip_container (b ∷ s) else skip_scalar (b ∷ s))

unfoldable pub skip_value : Text → Text
unfolding skip_ws skip_at
skip_value s = skip_at (skip_ws s)

-- A code point does not begin here.
abbrev pub is_inside : Text → Bool
is_inside [] = false
is_inside (b ∷ s) = is_continuation b

-- `get(i..j)` for the text from i on and the length j - i.
unfoldable pub slice : ℕ → Text → Option Text
slice n s =
    if ltb (length s) n || (is_inside s || is_inside (drop n s)) then none else some (take n s)

-- The key between an opening quote, passed over, and what follows its string.
unfoldable pub key_before : Text → Text → Option Text
unfolding slice
key_before after s =
    if ltb (length s) (length after + 1) then none else slice (length s - length after - 1) s

-- The value from here to what follows it, trimmed.
unfoldable pub value_before : Text → Text → Option Text
unfolding slice
value_before after s = slice (length s - length after) s >>=? λ v. some (trim v)

-- After a key: the text from the value on, if a colon comes first.
unfoldable pub past_colon : Text → Option Text
past_colon [] = none
past_colon (b ∷ s) = if b == b':' then some (skip_ws s) else none

-- After a value: the text from the next member on, if a comma comes first.
unfoldable pub past_comma : Text → Option Text
past_comma [] = none
past_comma (b ∷ s) = if b == b',' then some (skip_ws s) else none

-- One round at a member: its key, its value from there on, and what follows the value.
unfoldable pub member_at : Text → Option (Text × Text × Text)
unfolding skip_string key_before past_colon skip_value
member_at [] = none
member_at (q ∷ s) =
    let key_end = skip_string (q ∷ s) in
    if q == b'"'
    then (key_before key_end s >>=? λ key.
        past_colon (skip_ws key_end) >>=? λ value. some (key, value, skip_value value))
    else none

-- The loop of `object_get`: each round takes at least one byte.
unfoldable pub find_member : ℕ → Text → Text → Option Text
unfolding member_at value_before past_comma same
find_member zero key s = none
find_member (suc fuel) key s = elim (member_at s) [
  | none ↦ none
  | some (this_key, value, after) ↦
      let next = past_comma (skip_ws after) in
      let rest : Option Text = elim next [ none ↦ none | some s' ↦ find_member fuel key s' ] in
      if same this_key key then value_before after value else rest
]

unfoldable pub object_get : Text → Text → Option Text
unfolding find_member skip_ws
object_get key obj = elim (skip_ws obj) [
  | [] ↦ none
  | b ∷ s ↦ if b == b'{' then find_member (length s + 1) key (skip_ws s) else none
]

-- The bytes before the last one, and the last one.
unfoldable pub split_last : ℕ → Text → Text × ℕ
split_last b [] = ([], b)
split_last b (c ∷ s) = let (init, last) = split_last c s in (b ∷ init, last)

-- The inside of a value that is a string.
unfoldable pub as_string : Text → Option Text
unfolding split_last slice
as_string [] = none
as_string (q ∷ []) = none
as_string (q ∷ b ∷ s) =
    let (init, last) = split_last b s in
    if (q == b'"') && (last == b'"') then slice (length init) (b ∷ s) else none

abbrev pub is_digit : ℕ → Bool
is_digit b = leb b'0' b && leb b b'9'

unfoldable pub all_digits : Text → Bool
all_digits [] = true
all_digits (b ∷ s) = is_digit b && all_digits s

abbrev pub u32_max : ℕ
u32_max = 2 ^ 32 - 1

-- The loop of `parse_u32`, saturating.
unfoldable pub digits_value : ℕ → Text → ℕ
digits_value n [] = n
digits_value n (b ∷ s) = digits_value (min (min (n * 10) u32_max + (b - b'0')) u32_max) s

unfoldable pub parse_digits : Text → Option ℕ
unfolding all_digits digits_value
parse_digits [] = none
parse_digits (b ∷ s) = if all_digits (b ∷ s) then some (digits_value 0 (b ∷ s)) else none

unfoldable pub parse_u32 : Text → Option ℕ
unfolding as_string parse_digits
parse_u32 raw = elim (as_string raw) [
  | some s ↦ parse_digits (trim s)
  | none ↦ parse_digits (trim raw)
]
