-- ===== src/Template/Escape/Join/Total.antt =====
-- template/escape/escape.go: `join` ends, and errors stay errors.
use sadbox.Prelude.{
  ℕ, ◌≡◌, ◌⊎◌, refl, ap, ◌∙◌, Bool, true, false, ◌&&◌, inl, inr, ◌==◌, ==_iff, Bool-cases,
  if◌then◌else◌,
}
use sadbox.Template.Escape.Context.{
  State, state_text, state_tag, state_attr_name, state_after_name, state_before_value,
  state_html_cmt, state_rcdata, state_attr, state_url, state_js, state_js_dq_str, state_js_sq_str,
  state_js_regexp, state_js_block_cmt, state_js_line_cmt, state_css, state_css_dq_str,
  state_css_sq_str, state_css_dq_url, state_css_sq_url, state_css_url, state_css_block_cmt,
  state_css_line_cmt, state_error, attr_none, attr_script, attr_style, attr_url, Attr, Context,
  url_part_unknown, js_ctx_unknown, err_branch_end,
}
use sadbox.Template.Escape.Html.{attr_start_states, error_context}
use sadbox.Template.Escape.Join.{eq, nudge_in, nudge, is_error, or_branch_end, join}
use sadbox.Template.Escape.Text.Returns.{Returns}
use sadbox.Template.Escape.Text.{Outcome, done, panics, out_of_fuel}

same_number : (n : ℕ) → (n == n) ≡ true
same_number n = (==_iff n n).1 refl

eq_refl : (c : Context) → eq c c ≡ true
unfolding eq
eq_refl c = simp same_number

start_nudged : (a : Attr) (c : Context) → nudge_in (attr_start_states a) c ≡ c
unfolding nudge_in attr_start_states
start_nudged attr_none c = refl
start_nudged attr_script c = refl
start_nudged attr_style c = refl
start_nudged attr_url c = refl

-- Nothing is left to nudge in a nudged context.
nudge_in_idem : (t : State) (c : Context) → c.state ≡ t → nudge (nudge_in t c) ≡ nudge_in t c
unfolding nudge nudge_in
nudge_in_idem state_text c h = ap (λ u. nudge_in u c) h
nudge_in_idem state_tag c h = refl
nudge_in_idem state_attr_name c h = ap (λ u. nudge_in u c) h
nudge_in_idem state_after_name c h = refl
nudge_in_idem state_before_value c h = start_nudged c.attr _
nudge_in_idem state_html_cmt c h = ap (λ u. nudge_in u c) h
nudge_in_idem state_rcdata c h = ap (λ u. nudge_in u c) h
nudge_in_idem state_attr c h = ap (λ u. nudge_in u c) h
nudge_in_idem state_url c h = ap (λ u. nudge_in u c) h
nudge_in_idem state_js c h = ap (λ u. nudge_in u c) h
nudge_in_idem state_js_dq_str c h = ap (λ u. nudge_in u c) h
nudge_in_idem state_js_sq_str c h = ap (λ u. nudge_in u c) h
nudge_in_idem state_js_regexp c h = ap (λ u. nudge_in u c) h
nudge_in_idem state_js_block_cmt c h = ap (λ u. nudge_in u c) h
nudge_in_idem state_js_line_cmt c h = ap (λ u. nudge_in u c) h
nudge_in_idem state_css c h = ap (λ u. nudge_in u c) h
nudge_in_idem state_css_dq_str c h = ap (λ u. nudge_in u c) h
nudge_in_idem state_css_sq_str c h = ap (λ u. nudge_in u c) h
nudge_in_idem state_css_dq_url c h = ap (λ u. nudge_in u c) h
nudge_in_idem state_css_sq_url c h = ap (λ u. nudge_in u c) h
nudge_in_idem state_css_url c h = ap (λ u. nudge_in u c) h
nudge_in_idem state_css_block_cmt c h = ap (λ u. nudge_in u c) h
nudge_in_idem state_css_line_cmt c h = ap (λ u. nudge_in u c) h
nudge_in_idem state_error c h = ap (λ u. nudge_in u c) h

nudge_idem : (c : Context) → nudge (nudge c) ≡ nudge c
unfolding nudge
nudge_idem c = nudge_in_idem c.state c refl

eq-nudge : (c : Context) → eq (nudge (nudge c)) (nudge c) ≡ true
eq-nudge c = ap (λ d. eq d (nudge c)) (nudge_idem c) ∙ eq_refl (nudge c)

if-Returns :
    (P : Context → Type 0) (b : Bool) (o p : Outcome Context)
    → (b ≡ true → Returns P o)
    → (b ≡ false → Returns P p)
    → Returns P (if b then o else p)
if-Returns P true o p h g = h refl
if-Returns P false o p h g = g refl

both_true : (p q : Bool) → p ≡ true → q ≡ true → (p && q) ≡ true
both_true true true h g = refl
both_true true false h g = g
both_true false q h g = h

-- On nudged contexts `join` does not call itself.
join_nudged :
    (a b : Context)
    → eq (nudge a) a ≡ true
    → eq (nudge b) b ≡ true
    → Returns (λ _. Unit {0}) (join 1 a b)
unfolding join
join_nudged a b h g =
    let both = both_true (eq (nudge a) a) (eq (nudge b) b) h g in
    if-Returns (λ _. Unit) (is_error a.state) _ _ (λ _. tt)
      λ _.
        if-Returns (λ _. Unit) (is_error b.state) _ _ (λ _. tt)
          λ _.
            if-Returns (λ _. Unit) (eq a b) _ _ (λ _. tt)
              λ _.
                if-Returns (λ _. Unit) (eq (record a { url_part = b.url_part }) b) _ _ (λ _. tt)
                  λ _.
                    if-Returns (λ _. Unit) (eq (record a { js_ctx = b.js_ctx }) b) _ _ (λ _. tt)
                      λ _.
                        if-Returns (λ _. Unit) (eq (nudge a) a && eq (nudge b) b) _ _ (λ _. tt)
                          λ e. absurd cc

-- Neither of two contexts is an error, or what they are joined to is one.
abbrev pub KeepsErrors : Context → Context → Context → Type 0
KeepsErrors a b c =
    ((is_error a.state ≡ false) × (is_error b.state ≡ false)) ⊎ (is_error c.state ≡ true)

or_branch_end-Returns :
    (P : Context → Type 0) (o : Outcome Context)
    → ((c : Context) → P c)
    → Returns (λ _. Unit {0}) o
    → Returns P (or_branch_end o)
or_branch_end-Returns P (done e) h g =
    if-Returns P (is_error e.state) _ _ (λ _. h (error_context err_branch_end)) λ _. h e
or_branch_end-Returns P panics h g = absurd g
or_branch_end-Returns P out_of_fuel h g = absurd g

-- `join` returns for every two contexts after at most one call of itself, since nothing is left to
-- nudge in nudged contexts. It returns an error where one of the two is one, and of two equal contexts
-- it returns the context.
pub join-KeepsErrors :
    (a b : Context) → Returns (KeepsErrors a b) (join 2 a b) × (join 2 a a ≡ done a)
unfolding join
join-KeepsErrors a b = (
  if-Returns (KeepsErrors a b) (is_error a.state) _ _ (λ e. inr e)
      λ ea.
        if-Returns (KeepsErrors a b) (is_error b.state) _ _ (λ e. inr e)
          λ eb.
            let any : (c : Context) → KeepsErrors a b c = λ c. inl (ea, eb) in
            if-Returns (KeepsErrors a b) (eq a b) _ _ (λ _. any a)
              λ _.
                if-Returns (KeepsErrors a b) (eq (record a { url_part = b.url_part }) b) _ _
                  (λ _. any (record a { url_part = url_part_unknown }))
                  λ _.
                    if-Returns (KeepsErrors a b) (eq (record a { js_ctx = b.js_ctx }) b) _ _
                      (λ _. any (record a { js_ctx = js_ctx_unknown }))
                      λ _.
                        if-Returns (KeepsErrors a b) (eq (nudge a) a && eq (nudge b) b) _ _
                          (λ _. any (error_context err_branch_end))
                          λ _.
                            or_branch_end-Returns (KeepsErrors a b) (join 1 (nudge a) (nudge b)) any
                              (join_nudged (nudge a) (nudge b) (eq-nudge a) (eq-nudge b)),
  elim (Bool-cases (is_error a.state)) [
    | inl error ↦ rw (join, error)
    | inr fine ↦ rw (join, fine, eq_refl a)
  ],
)
