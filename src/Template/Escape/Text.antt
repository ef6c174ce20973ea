-- ===== src/Template/Escape/Text.antt =====
-- template/escape/escape.go: the context behind a piece of text. `strings.ToLower` and
-- `html.UnescapeString` are parameters, `to_lower` and `unescape`.
pub mod Returns
use sadbox.Prelude.{
  ℕ, zero, suc, ◌+◌, ◌*◌, Bool, true, false, Option, none, some, [], ◌∷◌, Text, codes, ◌==◌, ltb,
  if◌then◌else◌, length, take, drop,
}
use sadbox.Template.Escape.Context.{
  state_tag, Delim, delim_none, delim_double_quote, delim_single_quote, delim_space_or_tag_end,
  err_bad_html, Context, zero_context,
}
use sadbox.Template.Escape.Html.{Step, error_context, t_special_tag_end, has_any}
use sadbox.Template.Escape.Script.{index_any}
use sadbox.Template.Escape.Transition.{transition_func}

-- `out_of_fuel` has no counterpart in the program.
pub data Outcome (A : Type 0) : Type 0 where
  done : A → Outcome A
  panics : Outcome A
  out_of_fuel : Outcome A

-- The entry of `delimNone` is empty, and nothing reads it.
unfoldable pub delim_ends : Delim → Text
delim_ends delim_none = []
delim_ends delim_double_quote = codes "\""
delim_ends delim_single_quote = codes "'"
delim_ends delim_space_or_tag_end = b' ' ∷ b'\t' ∷ b'\n' ∷ 12 ∷ b'\r' ∷ b'>' ∷ []

-- The loop of `contextAfterText` over the text of an attribute. The slice panics out of bounds.
unfoldable pub attr_loop : (Text → Text) → ℕ → Context → Text → Outcome Context
attr_loop to_lower f c [] = done c
attr_loop to_lower zero c (x ∷ xs) = out_of_fuel
attr_loop to_lower (suc f) c (x ∷ xs) = elim (transition_func to_lower c.state c (x ∷ xs)) [
  | none ↦ panics
  | some (c1, i1) ↦
      let rest = attr_loop to_lower f c1 (drop i1 (x ∷ xs)) in
      if ltb (length (x ∷ xs)) i1 then panics else rest
]

abbrev pub is_delim_none : Delim → Bool
is_delim_none delim_none = true
is_delim_none _ = false

abbrev pub is_space_or_tag_end : Delim → Bool
is_space_or_tag_end delim_space_or_tag_end = true
is_space_or_tag_end _ = false

abbrev pub or_else : ℕ → Option ℕ → ℕ
or_else n none = n
or_else n (some i) = i

abbrev pub to_outcome : Option Step → Outcome Step
to_outcome none = panics
to_outcome (some r) = done r

-- Outside of attributes, with what `tSpecialTagEnd` returned. The slice panics out of bounds.
unfoldable pub outside_attr : (Text → Text) → Context → Text → Step → Outcome Step
outside_attr to_lower c s (c1, i) =
    if i == 0
    then done (c1, 0)
    else if ltb (length s) i
    then panics
    else to_outcome (transition_func to_lower c.state c (take i s))

abbrev pub with_length : ℕ → Outcome Context → Outcome Step
with_length n (done c) = done (c, n)
with_length n panics = panics
with_length n out_of_fuel = out_of_fuel

-- In an attribute's value, whose delimiter stands at `i`, or which fills the text.
unfoldable pub inside_attr : (Text → Text) → (Text → Text) → Context → Text → ℕ → Outcome Step
inside_attr to_lower unescape c s i =
    let u = unescape s in
    let all = with_length (length s) (attr_loop to_lower (3 * length u + 2) c u) in
    let j = if is_space_or_tag_end c.delim then i else i + 1 in
    if (if is_space_or_tag_end c.delim then has_any (codes "\"'<=`") (take i s) else false)
    then done (error_context err_bad_html, length s)
    else if i == length s
    then all
    else done (record zero_context { state = state_tag; element = c.element }, j)

unfoldable pub context_after_text : (Text → Text) → (Text → Text) → Context → Text → Outcome Step
context_after_text to_lower unescape c s =
    if is_delim_none c.delim
    then outside_attr to_lower c s (t_special_tag_end to_lower c s)
    else inside_attr to_lower unescape c s (or_else (length s) (index_any (delim_ends c.delim) s))
