-- ===== src/Template/Escape/Strip.antt =====
-- template/escape/html.go: the text of a piece of HTML without its tags, and the escapers of attributes.
pub mod Falls
pub mod Returns
use sadbox.Prelude.{
  ℕ, zero, suc, ◌+◌, ◌*◌, Bool, true, false, not, ◌&&◌, ◌||◌, Option, none, some, List, [], ◌∷◌,
  ◌++◌, Text, ◌==◌, ltb, if◌then◌else◌, length, take, drop,
}
use sadbox.Template.Escape.Attr.{ContentType, content_type_html}
use sadbox.Template.Escape.Content.{Arg, stringify}
use sadbox.Template.Escape.Context.{
  State, state_text, state_tag, state_rcdata, Context, zero_context, is_in_tag,
}
use sadbox.Template.Escape.Html.{Step, is_none}
use sadbox.Template.Escape.Join.{state_number}
use sadbox.Template.Escape.Markup.{
  html_replacer, html_norm_replacement_table, html_replacement_table,
  html_nospace_replacement_table, html_nospace_norm_replacement_table,
}
use sadbox.Template.Escape.Script.{index_any}
use sadbox.Template.Escape.Text.{
  Outcome, done, panics, out_of_fuel, delim_ends, is_delim_none, is_space_or_tag_end,
}
use sadbox.Template.Escape.Transition.{transition_func}

abbrev pub is_text : State → Bool
is_text state_text = true
is_text state_rcdata = true
is_text _ = false

abbrev pub strip_state : Context → State
strip_state c = if not (is_none c.element) && not (is_in_tag c.state) then state_rcdata else c.state

-- The text in front of the last `<`, if there is one.
unfoldable pub before_last : Text → Option Text
before_last [] = none
before_last (x ∷ xs) = elim (before_last xs) [
  | some t ↦ some (x ∷ t)
  | none ↦ if x == b'<' then some [] else none
]

abbrev pub or_text : Text → Option Text → Text
or_text t none = t
or_text t (some u) = u

-- What is emitted of the text `t`, which led from `c` to `d`.
abbrev pub emitted : Context → Context → Text → Text
emitted c d t =
    if not (is_text c.state)
    then []
    else if state_number d.state == state_number c.state
    then t
    else or_text t (before_last t)

-- The context at the end of the loop, the text that is left and the buffer, and whether all was text.
abbrev pub Stripped : Type 0
Stripped = Context × Text × Text × Bool

-- The loop of `stripTags`, on what is left of the text. `b` is the buffer. A slice panics out of bounds.
unfoldable pub strip_loop : (Text → Text) → ℕ → Context → Text → Text → Bool → Outcome Stripped
strip_loop to_lower f c [] b all = done (c, [], b, all)
strip_loop to_lower zero c (x ∷ xs) b all = out_of_fuel
strip_loop to_lower (suc f) c (x ∷ xs) b all =
    if is_delim_none c.delim
    then (elim (transition_func to_lower (strip_state c) c (x ∷ xs)) [
      | none ↦ panics
      | some (d, n) ↦
          let more = emitted c d (take n (x ∷ xs)) in
          let rest =
            strip_loop to_lower f d (drop n (x ∷ xs)) (b ++ more) (all && is_text c.state) in
          if ltb (length (x ∷ xs)) n then panics else rest
    ])
    else (elim (index_any (delim_ends c.delim) (x ∷ xs)) [
      | none ↦ done (c, x ∷ xs, b, all)
      | some i ↦
          strip_loop to_lower f (record zero_context { state = state_tag; element = c.element })
            (drop (if is_space_or_tag_end c.delim then i else i + 1) (x ∷ xs)) b all
    ])

abbrev pub stripped : Text → Outcome Stripped → Outcome Text
stripped html (done (c, rest, b, true)) = done html
stripped html (done (c, rest, b, false)) = done (if is_text c.state then b ++ rest else b)
stripped html panics = panics
stripped html out_of_fuel = out_of_fuel

-- `stripTags`; `to_lower` is `strings.ToLower`.
unfoldable pub strip_tags : (Text → Text) → Text → Outcome Text
strip_tags to_lower html =
    stripped html (strip_loop to_lower (6 * length html) zero_context html [] true)

abbrev pub replaced_in : Outcome Text → (Text → Option Text) → Outcome Text
replaced_in (done t) f = elim (f t) [ none ↦ panics | some u ↦ done u ]
replaced_in panics f = panics
replaced_in out_of_fuel f = out_of_fuel

unfoldable pub html_nospace_of : (Text → Text) → Text × ContentType → Outcome Text
html_nospace_of to_lower (s, content_type_html) =
    replaced_in (strip_tags to_lower s)
      λ t. html_replacer t html_nospace_norm_replacement_table false
html_nospace_of to_lower (s, t) =
    replaced_in (done s) λ u. html_replacer u html_nospace_replacement_table false

unfoldable pub attr_of_text : (Text → Text) → Text × ContentType → Outcome Text
attr_of_text to_lower (s, content_type_html) =
    replaced_in (strip_tags to_lower s) λ t. html_replacer t html_norm_replacement_table true
attr_of_text to_lower (s, t) = replaced_in (done s) λ u. html_replacer u html_replacement_table true

module _ {V : Type 0} (sprint : List (Arg V) → Text) where
  unfoldable pub html_nospace_escaper : (Text → Text) → List (Arg V) → Outcome Text
  html_nospace_escaper to_lower args = html_nospace_of to_lower (stringify sprint args)

  unfoldable pub attr_escaper : (Text → Text) → List (Arg V) → Outcome Text
  attr_escaper to_lower args = attr_of_text to_lower (stringify sprint args)
