-- ===== src/Template/Escape/Advance/Table.antt =====
-- template/escape/transition.go: no transition of the table panics or stands still.
use sadbox.Prelude.{ℕ, ◌≤◌, ◌<◌, Option, none, some, Text, arith, length}
use sadbox.Template.Escape.Advance.Scripts.{
  Goes, index-Lies, t_html_cmt-Advances, t_js-Advances, t_js_delimited-Advances, t_block_cmt-Goes,
  t_line_cmt-Goes,
}
use sadbox.Template.Escape.Advance.Styles.{t_css-Advances, t_css_str-Goes}
use sadbox.Template.Escape.Advance.Tags.{tags-Advances}
use sadbox.Template.Escape.Advance.{Advances, consumes, leaves, if-Advances, at, Lies, rank}
use sadbox.Template.Escape.Context.{
  State, state_text, state_tag, state_attr_name, state_after_name, state_before_value,
  state_html_cmt, state_rcdata, state_attr, state_url, state_js, state_js_dq_str, state_js_sq_str,
  state_js_regexp, state_js_block_cmt, state_js_line_cmt, state_css, state_css_dq_str,
  state_css_sq_str, state_css_dq_url, state_css_sq_url, state_css_url, state_css_block_cmt,
  state_css_line_cmt, state_error, Context,
}
use sadbox.Template.Escape.Html.{
  is_none, special_tag_end_to, special_tag_end_markers, t_special_tag_end, t_attr, t_url, t_error,
}
use sadbox.Template.Escape.Transition.{transition_func}

special_tag_end_to-Advances :
    (c : Context) (m n : ℕ) (o : Option ℕ)
    → 0 < n
    → Lies m n o
    → rank state_text < rank c.state
    → Advances c n (special_tag_end_to c n o)
unfolding special_tag_end_to
special_tag_end_to-Advances c m n none p h e = consumes c n _ (omega arith) p
special_tag_end_to-Advances c m n (some i) p h e = leaves c n _ (omega arith) e

pub Lies-longer : (m n k : ℕ) (o : Option ℕ) → n ≤ k → Lies m n o → Lies m k o
Lies-longer m n k none h g = tt
Lies-longer m n k (some i) h g = omega arith

module _ (to_lower : Text → Text) (c : Context) (s : Text) (some_text : 0 < length s)
    (no_longer : length (to_lower s) ≤ length s) where
  t_special_tag_end-Advances :
      Advances (at state_rcdata c) (length s) (t_special_tag_end to_lower (at state_rcdata c) s)
  unfolding t_special_tag_end
  t_special_tag_end-Advances =
      let marker = special_tag_end_markers c.element in
      if-Advances (is_none c.element) _ (length s) _ _
        (λ _. consumes _ (length s) _ (omega arith) some_text)
        λ _.
          special_tag_end_to-Advances _ (length marker) (length s) _ some_text
            (Lies-longer _ _ _ _ no_longer (index-Lies marker (to_lower s))) (omega arith)

  transition_at-Goes :
      (t : State) → Goes (at t c) (length s) (transition_func to_lower t (at t c) s)
  unfolding transition_func t_attr t_url t_error
  transition_at-Goes state_text = (tags-Advances to_lower (at state_text c) s some_text).0
  transition_at-Goes state_tag = (tags-Advances to_lower (at state_tag c) s some_text).1
  transition_at-Goes state_attr_name = (tags-Advances to_lower c s some_text).2
  transition_at-Goes state_after_name = (tags-Advances to_lower c s some_text).3
  transition_at-Goes state_before_value = (tags-Advances to_lower c s some_text).4
  transition_at-Goes state_html_cmt = t_html_cmt-Advances (at state_html_cmt c) s some_text
  transition_at-Goes state_rcdata = t_special_tag_end-Advances
  transition_at-Goes state_attr = consumes _ (length s) _ (omega arith) some_text
  transition_at-Goes state_url = consumes _ (length s) _ (omega arith) some_text
  transition_at-Goes state_js = t_js-Advances (at state_js c) s some_text
  transition_at-Goes state_js_dq_str = t_js_delimited-Advances (at state_js_dq_str c) s some_text
  transition_at-Goes state_js_sq_str = t_js_delimited-Advances (at state_js_sq_str c) s some_text
  transition_at-Goes state_js_regexp = t_js_delimited-Advances (at state_js_regexp c) s some_text
  transition_at-Goes state_js_block_cmt = (t_block_cmt-Goes c s some_text).0
  transition_at-Goes state_js_line_cmt = (t_line_cmt-Goes c s some_text).0
  transition_at-Goes state_css = t_css-Advances (at state_css c) s some_text
  transition_at-Goes state_css_dq_str = (t_css_str-Goes c s some_text).0
  transition_at-Goes state_css_sq_str = (t_css_str-Goes c s some_text).1
  transition_at-Goes state_css_dq_url = (t_css_str-Goes c s some_text).2
  transition_at-Goes state_css_sq_url = (t_css_str-Goes c s some_text).3
  transition_at-Goes state_css_url = (t_css_str-Goes c s some_text).4
  transition_at-Goes state_css_block_cmt = (t_block_cmt-Goes c s some_text).1
  transition_at-Goes state_css_line_cmt = (t_line_cmt-Goes c s some_text).1
  transition_at-Goes state_error = consumes _ (length s) _ (omega arith) some_text

  -- On a text that is not empty, and that `strings.ToLower` does not make longer, the transition of
  -- every state returns, without a panic. It consumes no more than the text, and it consumes a byte or
  -- leaves for a state of lower rank.
  pub transition_func-Goes : Goes c (length s) (transition_func to_lower c.state c s)
  transition_func-Goes = transition_at-Goes c.state
