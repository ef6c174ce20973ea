-- ===== src/Gettext/Format.antt =====
-- gettext/fmt.go: formats with numbered arguments. A format is the list of its bytes. `fmt.Sprintf` is the
-- parameter `printf`; a nil slice of indices is `none`.
pub mod Rewritten
pub mod Picked
use sadbox.Prelude.{
  ℕ, zero, suc, ◌+◌, ◌-◌, ◌*◌, ◌^◌, Bool, true, false, ◌&&◌, Option, none, some, List, [], ◌∷◌,
  ◌++◌, Text, codes, ◌==◌, leb, ltb, if◌then◌else◌, length, get_or, set, replicate,
}
use sadbox.Prelude.Int.{ℤ, pos, negsuc}

-- The loop up to the next percent sign: what it passes, and what is left from the sign on.
unfoldable pub before_percent : Text → Text
before_percent [] = []
before_percent (c ∷ s) = let rest = before_percent s in if c == b'%' then [] else c ∷ rest

unfoldable pub from_percent : Text → Text
from_percent [] = []
from_percent (c ∷ s) = let rest = from_percent s in if c == b'%' then c ∷ s else rest

-- `unicode.IsDigit` of a byte.
unfoldable pub is_digit : ℕ → Bool
is_digit c = leb b'0' c && leb c b'9'

-- The loop over the digits.
unfoldable pub digits_front : Text → Text
digits_front [] = []
digits_front (c ∷ s) = let rest = digits_front s in if is_digit c then c ∷ rest else []

unfoldable pub after_digits : Text → Text
after_digits [] = []
after_digits (c ∷ s) = let rest = after_digits s in if is_digit c then rest else c ∷ s

-- `strconv.ParseInt` of digits, whose answer on an overflow is the largest `int`.
unfoldable pub digits_value : ℕ → Text → ℕ
digits_value n [] = n
digits_value n (d ∷ s) = digits_value (n * 10 + (d - b'0')) s

unfoldable pub parse_int : Text → ℤ
parse_int s = let n = digits_value 0 s in pos (if ltb n (2 ^ 63) then n else 2 ^ 63 - 1)

-- `append(idx, v)`.
abbrev pub append_index : Option (List ℤ) → ℤ → Option (List ℤ)
append_index none v = some (v ∷ [])
append_index (some l) v = some (l ++ (v ∷ []))

-- The rest of the loop, from what is left of the format, what was written and the indices.
abbrev pub Rounds : Type 0
Rounds = Text → Text → Option (List ℤ) → Text × Option (List ℤ)

-- Behind a percent sign and these digits.
unfoldable pub numbered : Rounds → Text → Rounds
numbered again [] s buf idx = again s buf idx
numbered again (d ∷ ds) [] buf idx = again [] (buf ++ d ∷ ds) idx
numbered again (d ∷ ds) (c ∷ s) buf idx =
    if c == b'$'
    then again s buf (append_index idx (parse_int (d ∷ ds)))
    else again (c ∷ s) (buf ++ d ∷ ds) idx

-- Behind a percent sign.
unfoldable pub directive : Rounds → Rounds
directive again [] buf idx = again [] (buf ++ codes "%") idx
directive again (c ∷ s) buf idx =
    if c == b'%'
    then again s (buf ++ codes "%%") idx
    else numbered again (digits_front (c ∷ s)) (after_digits (c ∷ s)) (buf ++ codes "%") idx

-- From a percent sign on, or at the end.
unfoldable pub percent_or_end : Rounds → Rounds
percent_or_end again [] buf idx = (buf, idx)
percent_or_end again (c ∷ s) buf idx = directive again s buf idx

-- Each round but the last takes a percent sign, so the length of the format is fuel enough.
unfoldable pub parse_loop : ℕ → Rounds
parse_loop zero s buf idx = (buf, idx)
parse_loop (suc k) s buf idx =
    percent_or_end (parse_loop k) (from_percent s) (buf ++ before_percent s) idx

unfoldable pub parse_fmt : Text → Text × Option (List ℤ)
parse_fmt trn = parse_loop (suc (length trn)) trn [] none

module _ {ℓ} {Arg : Type ℓ} (nil : Arg) (printf : Text → List Arg → Text) where
  -- The loop of `sprintf`; `none` is the panic of a negative index.
  unfoldable pub pick_args : List Arg → ℕ → List ℤ → List Arg → Option (List Arg)
  pick_args a k [] b = some b
  pick_args a k (negsuc v ∷ order) b = none
  pick_args a k (pos v ∷ order) b =
      pick_args a (k + 1) order (if ltb v (length a) then set b k (get_or a v nil) else b)

  abbrev printed : Text → Option (List Arg) → Option Text
  printed format none = none
  printed format (some b) = some (printf format b)

  unfoldable pub sprintf : Text → Option (List ℤ) → List Arg → Option Text
  sprintf format none a = some (printf format a)
  sprintf format (some order) a =
      printed format (pick_args a 0 order (replicate (length order) nil))
