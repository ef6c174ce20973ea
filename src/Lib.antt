-- ===== src/Lib.antt =====
-- Models of the packages of sadbox, a collection of Go packages for the web.
--
-- gettext/pluralforms: the expressions that choose the plural form of a message. The lexer turns a
-- text into tokens (PluralForms/Token, PluralForms/Lexer), a stream puts tokens back
-- (PluralForms/Stream), a precedence climbing parser builds a tree (PluralForms/Operators,
-- PluralForms/Parser), and the tree is evaluated at a number and printed (PluralForms/Node,
-- PluralForms/Printer). PluralForms/Plural is pluralforms.go: `Parse` looks a text up in a table of
-- precomputed functions, or compiles it. PluralForms/Grammar is no code of the program: it is the
-- grammar that the parser is held against.
--
-- The names are those of the source in snake case: `nextRun` of lexer.go is `next_run`,
-- `parsePrimary` of parser.go is `parse_primary`. `Parse` of pluralforms.go is `parse_plural`,
-- since parser.go has a `parse`. The `for` loop of `parseExpression` is `parse_operators`. A method
-- that changes its receiver returns the new one: `next` of a lexer, `pop` and `push` of a stream,
-- and the methods of the parser, whose only state is the stream.
--
-- gettext/gettext.go: a catalog of messages (Gettext/Message, Gettext/Catalog) with an active
-- context, and the order in which its messages are written (Gettext/Sorted). gettext/mo.go: the
-- reader (Gettext/Mo/Reader, with the header in Gettext/Mo) and the writer (Gettext/Mo/Writer) of
-- the files that catalogs are kept in; what they use of the standard library on bytes is
-- Gettext/Bytes. gettext/fmt.go: formats with numbered arguments (Gettext/Format). A method of a
-- catalog that changes it returns the new one. The reader chooses the plural function by
-- `parse_plural`, so a catalog answers `GetPlural` with the model of pluralforms. `Read` and
-- `Write` are `read_mo` and `write_mo`; `read_mo` returns the catalog as the error leaves it, with
-- the error.
--
-- http/parser/parser.go: lists and pairs in headers (Http/Parser). `step` is the body of the loop
-- of `ParseList`, whose variables are a `ListState`, and `assign` is the loop of `ParsePairs`.
-- Http/Parser/Format is no code of the program: it writes what `ParsePairs` is to read.
--
-- http/auth/auth.go: the header Authorization (Http/Auth), with the Base64 decoder of the standard
-- library (Http/Auth/Base64). `Parse` is `parse_authorization`; a request is its header, a list of
-- fields with their values. Digest credentials go to `ParsePairs` of http/parser, so a panic there
-- is one here.
--
-- template/escape: the contexts that text of a template leaves an HTML parser in
-- (Template/Escape/Context), and the transitions from one to the next: scanners
-- (Template/Escape/Scan), tags, attributes, comments and URLs (Template/Escape/Html), scripts and
-- comments (Template/Escape/Script, with `nextJSCtx` of js.go), style sheets (Template/Escape/Css,
-- with `decodeCSS` of css.go), the types of attributes (Template/Escape/Attr), and the table of all
-- of them (Template/Escape/Transition); Template/Escape/Text is `contextAfterText` of escape.go,
-- which runs them on a piece of text, and Template/Escape/Join is `nudge` and `join`, which find
-- the context behind a branch. `tText` is `t_text`; a transition returns the new context and the
-- number of bytes that it consumed, and `none` where the source panics. Template/Escape/Action is
-- `escapeAction`, with the edit that it records as a result, and Template/Escape/Pipeline is
-- `ensurePipelineContains`, which `commit` calls with that edit; a pipeline is the list of its
-- commands, and an argument that is no identifier is left open. The functions of `FuncMap` that
-- `redundantFuncs` names are run as the model has them (Template/Escape/Pipeline/Commands).
--
-- The escapers of template/escape: the kinds of content (Template/Escape/Content), the loop over
-- the runes of a text that html.go, js.go and css.go write out three times
-- (Template/Escape/Replace), the escapers of html.go (Template/Escape/Markup), of strings in js.go
-- and css.go (Template/Escape/Strings) and of url.go (Template/Escape/Percent). An escaper that may
-- panic returns `none` then. Template/Escape/Strip is `stripTags`, which runs the transitions on
-- HTML that goes into an attribute, and the two escapers of html.go that call it.
--
-- template/parse/lex.go: the lexer of templates. Template/Parse/Lex holds its state and the
-- operations that every state function is made of (`next` without its answer is `advance`),
-- Template/Parse/Lex/Scan the loops and Template/Parse/Lex/Actions the state functions, which are
-- the cases of `call_state`, and `run`, which is `run_lexer`. The lexer runs in a goroutine of its
-- own and sends items to a channel that holds none; here its items are a list, which the client
-- reads (Template/Parse/Lex/Lines). `backup` puts back the rune that was just read; here the lexer
-- before the reading is used again.
--
-- color/hex.go: colors as hexadecimal texts (Color/Hex).
--
-- Numbers: an `int` has 64 bits, as on the platforms that Go calls 64-bit, and its operations wrap
-- around (Prelude/Int). A rune and a byte are native numbers. In pluralforms, http/parser and
-- template/parse a text is the list of its runes, and a position counts runes where the source
-- counts bytes; the source moves by whole runes only. In color/hex.go, gettext, http/auth and
-- template/escape a text is the list of its bytes.
--
-- Errors and panics: the parser panics with a message and recovers; here the panic is the value
-- `failed`, with the tokens that the message would show, not with its text. A panic that nothing
-- recovers, that of a division by zero in an evaluation, is `none`.
--
-- Maps: a map is an association list in which a key stands once (Prelude/Maps). Its order is the
-- one in which `range` visits it, which Go leaves open; a theorem for every list holds for every
-- order.
--
-- Loops: the lexer's loops run on a bound, one more than the runes ahead, and each round takes a
-- rune. The parser runs on fuel, of which each call takes one unit; `parse` hands out two units for
-- each rune and two more, since a call that reads no token calls one that does. A loop over a text
-- in http/parser and template/escape is structural recursion on what is left of it. `decode_css`
-- has the length of its text as fuel, of which each round needs one and takes two bytes.
-- `contextAfterText` runs the transitions over the text of an attribute on fuel three times its
-- length and two more: a transition takes a byte, or goes down in a rank of the states that is at
-- most 2. `stripTags` has six times the length, of which a byte that is consumed pays six, and a
-- step that consumes nothing goes down in a measure of the contexts that is at most 5. `join` calls
-- itself at most once, on nudged contexts, so its fuel is 2. `parse_fmt` has one more than the
-- length of the format, since each round but the last takes a percent sign. `run_lexer` has three
-- calls of state functions for each rune and three more: a call takes a rune, or goes down in a
-- rank of the states that is at most 3.
--
-- Not modelled: the packages on input and output or on reflection (sessions, appengine, the
-- execution of templates), those on floating point (color/hsl.go, color/hsv.go) or regular
-- expressions (css/scanner), and, so far, the parser of template, zap, and of template/escape what
-- escapes JavaScript values, funcs.go, and of escape.go `escapeText` and the walk over a template
-- with the transitions. `strings.ToLower` (beyond ASCII, in gettext), `html.UnescapeString` and
-- `unicode.IsLetter`, which rest on tables that are not in the repository, are parameters of the
-- definitions that use them, and so are `fmt.Sprintf`, `fmt.Sprint` and the sink that a file is
-- written to.
pub mod Prelude
pub mod PluralForms
pub mod Color
pub mod Http
pub mod Template
pub mod Gettext
