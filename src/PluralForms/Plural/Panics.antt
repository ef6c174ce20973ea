-- ===== src/PluralForms/Plural/Panics.antt =====
-- gettext/pluralforms: where a plural function panics.
use sadbox.Prelude.{◌≡◌, true, none}
use sadbox.Prelude.Int.{ℤ}
use sadbox.PluralForms.Node.{Node, or_node, some_bool, eval}
use sadbox.PluralForms.Operators.{ok}
use sadbox.PluralForms.Plural.Table.{apply_plural}
use sadbox.PluralForms.Plural.{plural_index, create_plural_func}
use sadbox.PluralForms.Printer.RoundTrip.{IsPrintable, parse-string}
use sadbox.PluralForms.Printer.{string}

-- `||` does not stop at a left operand that is true: where the right operand divides by zero, the
-- plural function of the printed disjunction panics.
pub create_plural_func-or_panics :
    (a b : Node) (ctx : ℤ)
    → IsPrintable a
    → IsPrintable b
    → eval a ctx ≡ some_bool true
    → eval b ctx ≡ none
    → apply_plural (create_plural_func (string (or_node a b))) ctx ≡ ok none
unfolding create_plural_func plural_index eval
create_plural_func-or_panics a b ctx ha hb left right =
    rw (parse-string (or_node a b) (ha, hb), left, right)
