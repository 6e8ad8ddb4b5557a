-- ===== src/Console/Tests.antt =====
-- The theorems of the console at concrete inputs.
use pyodide.Base.{
  ℕ, Text, codes, text_beq, text_eq, ◌≡◌, refl, true, false, ◌||◌, ◌&&◌, List, [], ◌∷◌, ◌++◌, none,
  some, ◌≤◌, ◌<◌, ◌+◌, length, elem, nat_eq, ok, Exception, if◌then◌else◌, arith,
}
use pyodide.Base.Strings.Methods.{slice_from}
use pyodide.Runner.Quiet.{Token, op, endmarker, should_quiet, quiet_tokens, is_semicolon}
use pyodide.Runner.Transform.{Statement, expression, compound}
use pyodide.Runner.Code.{
  Compiler, CodeRunner, code, only_ast, last_expr, compiled_runner, new_code_runner, parse, compile,
  finish_compile, transform,
}
use pyodide.Console.Shorten.{shorten}
use pyodide.Console.Shorten.Laws.{kept, shorten_lem, shorten_bound}
use pyodide.Console.Buffer.{Compiled, needs_more, compiles}
use pyodide.Console.Streams.{
  Streams, own, handled, Callbacks, Redirection, Program, finishes, raises, uses, assigns, within,
  stdin, stdout, run,
}
use pyodide.Console.Streams.Laws.{reference, inside, merged, run_lem}
use pyodide.Console.Compile.{Compile, compile_call}
use pyodide.Console.Compile.Laws.{
  compiled_flags, IsUntransformed, compile_call-flags, compile_call-quiet,
}

abbrev long_text : Text
long_text = codes "abcdefg"

abbrev separator : Text
separator = codes "_"

shorten_lem_example :
    (length long_text ≤ 6 → shorten long_text 6 (some 1) separator ≡ ok long_text)
    × (6 < length long_text
        → 0 < kept long_text 6 (some 1)
        → (first middle last : Text) × (shorten long_text 6 (some 1) separator
            ≡ ok (first ++ (separator ++ last)))
          × (long_text ≡ first ++ (middle ++ last))
          × (length first ≡ kept long_text 6 (some 1))
          × (length last ≡ kept long_text 6 (some 1)))
unfolding codes
shorten_lem_example = shorten_lem long_text separator 6 (some 1) (omega arith)

shorten_bound_example : length (codes "ab_fg") ≤ 5 + length separator
unfolding codes shorten slice_from
shorten_bound_example = shorten_bound long_text separator (codes "ab_fg") 5 refl

abbrev format_error : Exception → Text
format_error x = codes "SyntaxError"

-- A compiler that wants a second line after a colon.
abbrev compile_text : ℕ → Text → Compiled ℕ × ℕ
compile_text k source =
    if elem 58 source && (if elem 10 source then false else true)
    then (needs_more, k)
    else (compiles k, k)

abbrev terminal : Streams ℕ
terminal = record {
  stdin_stream = own none;
  stdout_stream = own (some (codes "out"));
  stderr_stream = own none;
}

abbrev console_callbacks : Callbacks ℕ
console_callbacks = record {
  stdin_callback = none;
  stdout_callback = some 1;
  stderr_callback = some 2;
}

-- It sets sys.stdout and sys.stdin in a redirected block.
abbrev printing : Program ℕ
printing = uses stdout (codes "a") (
    within
      (within (assigns stdout (own none) (uses stdout (codes "b") finishes))
        (assigns stdin (handled 3 []) raises))
      finishes)

abbrev direct : Redirection ℕ
direct = record { sys = terminal; streams_redirected = false; stream_generator = none }

run_lem_example :
    let o = reference console_callbacks printing false terminal in
    ((run console_callbacks printing direct).trace ≡ o.trace)
    × ((run console_callbacks printing direct).raised ≡ o.raised)
    × ((run console_callbacks printing direct).left ≡ record direct { sys = o.streams })
run_lem_example = run_lem console_callbacks printing direct

-- The stream that has no callback is as the block left it.
run_left :
    (reference console_callbacks printing false terminal).streams
    ≡ record terminal { stdin_stream = handled 3 [] }
unfolding reference inside merged codes
run_left = refl

abbrev last_semicolon : List Token
last_semicolon =
    record { token_type = op; string = codes ";" }
    ∷ record { token_type = endmarker; string = [] }
    ∷ []

-- A compiler for which a source is one expression, its own text, and then a semicolon.
abbrev one_expression : Compiler Text Text
one_expression = record {
  dedent = λ source. source;
  generate_tokens = λ source. ok last_semicolon;
  compile_source = λ source filename mode flags. ok (expression (compound source) ∷ []);
  compile_module = λ body filename mode flags. ok (20 ∷ flags);
}

abbrev features : List ℕ
features = 20 ∷ []

abbrev console_compile : Compile
console_compile = record {
  flags = 13 ∷ [];
  return_mode = last_expr;
  quiet_trailing_semicolon = false;
}

compile_call-flags_example :
    let (compiled, self') =
      compile_call one_expression features console_compile
        (codes "x;")
        (codes "<console>")
        (codes "single")
        true in
    elem 20 self'.flags ≡ (
      elem 20 console_compile.flags
      || (elem 20 features && elem 20 (compiled_flags one_expression features compiled)))
compile_call-flags_example =
    compile_call-flags one_expression features console_compile (codes "x;") (codes "<console>")
      (codes "single") true 20

abbrev untransformed : CodeRunner Text Text
untransformed = record {
  compiled = true;
  source = codes "x;";
  options = record {
    return_mode = last_expr;
    quiet_trailing_semicolon = true;
    mode = codes "single";
    filename = codes "<console>";
    flags = 13 ∷ [];
  };
  ast = expression (compound (codes "x;")) ∷ [];
  code_attribute = code (record {
    co_filename = codes "<console>";
    co_flags = 20 ∷ 13 ∷ [];
    statements = expression (compound (codes "x;")) ∷ [];
  });
}

compile_call-quiet_example :
    (body : List (Statement Text Text)) × (one_expression.compile_source
        (one_expression.dedent (codes "x;"))
        (codes "<console>")
        (codes "single")
        (only_ast ∷ console_compile.flags)
      ≡ ok body)
    × IsUntransformed one_expression features body untransformed
unfolding codes text_beq should_quiet quiet_tokens is_semicolon compile_call compiled_runner
    new_code_runner parse compile finish_compile transform
compile_call-quiet_example =
    compile_call-quiet one_expression features console_compile (codes "x;") (codes "<console>")
      (codes "single") true untransformed refl refl
