-- ===== src/Server/Args.antt =====
-- crates/server/src/control.rs: `ServerConfig`, `parse_server_args`, with `str::parse` of unsigned
-- numbers and `eq_ignore_ascii_case` of the standard library. Arguments are UTF-8 bytes.
pub mod Printed
use droidmirror.Base.{
  ℕ, ◌+◌, ◌-◌, ◌*◌, Bool, true, false, ◌&&◌, ◌||◌, Option, none, some, List, [], ◌∷◌, leb, ◌==◌,
  drop, if◌then◌else◌,
}
use droidmirror.Base.Bytes.{starts_with}
use droidmirror.Base.Text.{ascii}

pub record ServerConfig : Type 0 where
  pub bitrate : ℕ
  pub max_fps : ℕ
  pub max_size : ℕ
  pub h265 : Bool
  pub lib : Option (List ℕ)

abbrev pub default_config : ServerConfig
default_config = record {
  bitrate = 8_000_000;
  max_fps = 60;
  max_size = 0;
  h265 = false;
  lib = none;
}

-- One more decimal digit, if it is one and the number stays at most `top`.
unfoldable pub push_digit : ℕ → ℕ → ℕ → Option ℕ
push_digit top acc c =
    if (leb b'0' c && leb c b'9') && leb (acc * 10 + (c - b'0')) top
    then some (acc * 10 + (c - b'0'))
    else none

unfoldable pub digits_from : ℕ → ℕ → List ℕ → Option ℕ
unfolding push_digit
digits_from top acc [] = some acc
digits_from top acc (c ∷ cs) = elim (push_digit top acc c) [
  | none ↦ none
  | some acc' ↦ digits_from top acc' cs
]

-- `s.parse()` of an unsigned type with the largest value `top`: a sign `+` may stand in front.
unfoldable pub parse_uint : ℕ → List ℕ → Option ℕ
unfolding digits_from
parse_uint top [] = none
parse_uint top (c ∷ []) = digits_from top 0 (c ∷ [])
parse_uint top (c ∷ d ∷ cs) = digits_from top 0 (if c == b'+' then d ∷ cs else c ∷ d ∷ cs)

unfoldable pub bytes_eq : List ℕ → List ℕ → Bool
bytes_eq [] [] = true
bytes_eq (a ∷ as') (b ∷ bs) = a == b && bytes_eq as' bs
bytes_eq _ _ = false

abbrev to_lower : ℕ → ℕ
to_lower c = if leb b'A' c && leb c b'Z' then c + 32 else c

unfoldable pub eq_ignore_case : List ℕ → List ℕ → Bool
eq_ignore_case [] [] = true
eq_ignore_case (a ∷ as') (b ∷ bs) = to_lower a == to_lower b && eq_ignore_case as' bs
eq_ignore_case _ _ = false

abbrev pub map_some : {A B : Type 0} → (A → B) → Option A → Option B
map_some g none = none
map_some g (some a) = some (g a)

-- The arms that take the next argument too, where it fits; `none` consumes only the option.
unfoldable pub with_value : List ℕ → List ℕ → ServerConfig → Option ServerConfig
unfolding bytes_eq eq_ignore_case
with_value a v cfg =
    if bytes_eq a (ascii "--bitrate")
    then map_some (λ n. record cfg { bitrate = n }) (parse_uint 4294967295 v)
    else if bytes_eq a (ascii "--max-fps")
    then map_some (λ n. record cfg { max_fps = n }) (parse_uint 4294967295 v)
    else if bytes_eq a (ascii "--max-size")
    then map_some (λ n. record cfg { max_size = n }) (parse_uint 65535 v)
    else if bytes_eq a (ascii "--codec")
    then some
        (record cfg { h265 = eq_ignore_case v (ascii "h265") || eq_ignore_case v (ascii "hevc") })
    else none

unfoldable pub without_value : List ℕ → ServerConfig → ServerConfig
without_value a cfg =
    if starts_with a (ascii "--lib=") then record cfg { lib = some (drop 6 a) } else cfg

-- The list is `args[i..]`.
unfoldable pub parse_args_from : List (List ℕ) → ServerConfig → ServerConfig
unfolding with_value without_value
parse_args_from [] cfg = cfg
parse_args_from (a ∷ []) cfg = without_value a cfg
parse_args_from (a ∷ v ∷ rest) cfg = elim (with_value a v cfg) [
  | some cfg' ↦ parse_args_from rest cfg'
  | none ↦ parse_args_from (v ∷ rest) (without_value a cfg)
]

unfoldable pub parse_server_args : List (List ℕ) → ServerConfig
parse_server_args args = parse_args_from args default_config
