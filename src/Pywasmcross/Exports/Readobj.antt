-- ===== src/Pywasmcross/Exports/Readobj.antt =====
-- The parser of llvm-readobj's output reads back what is printed.
use pyodide.Base.{
  ℕ, Text, codes, ◌≡◌, refl, sym, ◌∙◌, ◌≢◌, Bool, true, false, not, ◌&&◌, List, [], ◌∷◌, ◌++◌, map,
  append-nil, append_assoc, none, some, any, filter, All, ◌==◌, text_eq, text_beq, if◌then◌else◌,
  ok, arith, Bool-cases, inl, inr, ◌>>=◌,
}
use pyodide.Base.Strings.Methods.{starts_with, starts_with_any, remove_prefix, strip, join}
use pyodide.Base.Strings.Laws.{AllLack, split-join}
use pyodide.Pywasmcross.Exports.{
  Parse, hiding_flags, end_symbol, note_flags, parse_line, parse_lines, parse_start,
  calculate_object_exports_readobj_parse,
}

-- A symbol as the tool prints it: what stands behind `Name:`, and the lines after that, stripped.
pub record Symbol : Type 0 where
  pub label : Text
  pub details : List Text

abbrev pub opening : Text
opening = codes "Symbol {"

abbrev pub closing : Text
closing = codes "}"

unfoldable pub name_line : Symbol → Text
name_line s = codes "Name:" ++ s.label

unfoldable pub printed : Symbol → List Text
unfolding name_line
printed s = opening ∷ (name_line s ∷ (s.details ++ closing ∷ []))

unfoldable pub printed_all : List Symbol → List Text
unfolding printed
printed_all [] = []
printed_all (s ∷ l) = printed s ++ printed_all l

module _ (space : ℕ → Bool) where
  unfoldable pub symbol_name : Symbol → Text
  symbol_name s = strip space s.label

  -- A detail is a stripped line that neither opens, names nor closes a symbol.
  pub record IsDetail (line : Text) : Type 0 where
    pub stripped : strip space line ≡ line
    pub not_opening : (line == opening) ≡ false
    pub not_closing : (line == closing) ≡ false
    pub not_name : starts_with line (codes "Name:") ≡ false

  pub record IsPrintable (s : Symbol) : Type 0 where
    pub name_stripped : strip space (name_line s) ≡ name_line s
    pub named : symbol_name s ≢ []
    pub all_details : All IsDetail s.details

  -- The marks of the ends are stripped: `space` takes none of their characters.
  pub record KeepsMarks : Type 0 where
    pub opening_stripped : strip space opening ≡ opening
    pub closing_stripped : strip space closing ≡ closing

unfoldable pub is_exported : Symbol → Bool
is_exported s = not (any (λ line. starts_with_any line hiding_flags) s.details)

module _ (space : ℕ → Bool) where
  detail_step :
      (line : Text) (p : Parse)
      → IsDetail space line
      → p.insymbol ≡ true
      → (parse_line space (strip space line) p)
        ≡ ok (note_flags line (record p { symbol_lines = p.symbol_lines ++ line ∷ [] }))
  unfolding parse_line
  detail_step line p d i =
      let e = d.stripped in
      let o = d.not_opening in
      let c = d.not_closing in let n = d.not_name in rw (e, o, i, c, n) refl

  details_step :
      (ls rest : List Text) (p : Parse)
      → All (IsDetail space) ls
      → p.insymbol ≡ true
      → (p' : Parse) × (parse_lines space (ls ++ rest) p ≡ parse_lines space rest p')
        × (p'.result ≡ p.result)
        × (p'.insymbol ≡ true)
        × (p'.name ≡ p.name)
        × (p'.export ≡ (p.export && not (any (λ line. starts_with_any line hiding_flags) ls)))
  unfolding parse_lines any
  details_step [] rest p d i = (p, refl, refl, i, refl, ground arith)
  details_step (l ∷ ls) rest p d i =
      let q = note_flags l (record p { symbol_lines = p.symbol_lines ++ l ∷ [] }) in
      let (p', run, r, ins, n, x) = details_step ls rest q d.1 (flags_keep l p i) in
      (
        p',
        rw (detail_step l p d.0 i) run,
        unfold note_flags in ground (arith, r),
        ins,
        unfold note_flags in ground (arith, n),
        unfold note_flags in ground (arith, x),
      )
    where
      flags_keep :
          (line : Text) (r : Parse)
          → r.insymbol ≡ true
          → (note_flags line (record r { symbol_lines = r.symbol_lines ++ line ∷ [] })).insymbol
            ≡ true
      flags_keep line r h = unfold note_flags in ground arith

  -- What the symbol adds to the exports.
  abbrev pub exported_names : Symbol → List Text
  exported_names s = if is_exported s then symbol_name space s ∷ [] else []

  end_step :
      (p : Parse) (n : Text)
      → p.name ≡ some n
      → n ≢ []
      → (p' : Parse) × (end_symbol p ≡ ok p')
        × (p'.insymbol ≡ false)
        × (p'.result ≡ p.result ++ (if p.export then n ∷ [] else []))
  unfolding end_symbol
  end_step p [] e ne = absurd (ne refl)
  end_step p (c ∷ n) e ne = elim (Bool-cases p.export) [
    | inl x ↦ (
      record p { insymbol = false; result = p.result ++ (c ∷ n) ∷ [] },
      ground arith,
      refl,
      rw x refl,
    )
    | inr x ↦ (record p { insymbol = false }, ground arith, refl, rw x (sym (append-nil p.result)))
  ]

  abbrev opened : Parse → Parse
  opened p = record p { insymbol = true; export = true; name = none; symbol_lines = opening ∷ [] }

  opening_step : (p : Parse) → parse_line space opening p ≡ ok (opened p)
  unfolding parse_line text_beq codes
  opening_step p = refl

  abbrev named : Symbol → Parse → Parse
  named s p = record p {
    name = some (symbol_name space s);
    symbol_lines = p.symbol_lines ++ name_line s ∷ [];
  }

  name_step :
      (s : Symbol) (p : Parse)
      → p.insymbol ≡ true
      → parse_line space (name_line s) p ≡ ok (named s p)
  unfolding parse_line name_line symbol_name text_beq codes starts_with starts_with_any
      remove_prefix
  name_step s p i = rw i refl

  closing_step :
      (p : Parse)
      → p.insymbol ≡ true
      → parse_line space closing p
        ≡ end_symbol (record p { symbol_lines = p.symbol_lines ++ closing ∷ [] })
  unfolding parse_line text_beq codes starts_with starts_with_any
  closing_step p i = rw i refl

  -- The lines of one symbol add its name to the result, if it is exported.
  symbol_step :
      (s : Symbol) (rest : List Text) (p : Parse)
      → KeepsMarks space
      → IsPrintable space s
      → (p' : Parse) × (parse_lines space (printed s ++ rest) p ≡ parse_lines space rest p')
        × (p'.insymbol ≡ false)
        × (p'.result ≡ p.result ++ exported_names s)
  unfolding printed
  symbol_step s rest p k h =
      let start = named s (opened p) in
      let (q, run_q, r, i, n, x) =
        details_step s.details (closing ∷ rest) start h.all_details refl in
      let q' = record q { symbol_lines = q.symbol_lines ++ closing ∷ [] } in
      let (p', run_end, ins, res) = end_step q' (symbol_name space s) n h.named in
      let shape : (s.details ++ closing ∷ []) ++ rest ≡ s.details ++ closing ∷ rest =
        append_assoc s.details (closing ∷ []) rest in
      let opened_run : parse_lines space (opening ∷ name_line s ∷ (s.details ++ closing ∷ rest)) p
          ≡ parse_lines space (s.details ++ closing ∷ rest) start =
        (let a = k.opening_stripped in
          let b = h.name_stripped in
          unfold parse_lines in rw (a, opening_step p, b, name_step s (opened p) refl) refl) in
      let closed_run : parse_lines space (closing ∷ rest) q ≡ parse_lines space rest p' =
        (let a = k.closing_stripped in
          unfold parse_lines in rw (a, closing_step q i, run_end) refl) in
      (p', rw shape (opened_run ∙ run_q ∙ closed_run), ins, unfold is_exported in cc (res, r, x))

  printed_step :
      (l : List Symbol) (p : Parse)
      → KeepsMarks space
      → All (IsPrintable space) l
      → (p' : Parse) × (parse_lines space (printed_all l) p ≡ ok p')
        × (p'.result ≡ p.result ++ map (symbol_name space) (filter is_exported l))
  unfolding printed_all filter
  printed_step [] p k h = (p, unfold parse_lines in refl, sym (append-nil p.result))
  printed_step (s ∷ l) p k h =
      let (q, run_q, _, res_q) = symbol_step s (printed_all l) p k h.0 in
      let (p', run, res) = printed_step l q k h.1 in
      (
        p',
        run_q ∙ run,
        ground (
          arith,
          res,
          res_q,
          append_assoc p.result (exported_names s) (map (symbol_name space) (filter is_exported l)),
        ),
      )

parse_lines-printed_all :
    (space : ℕ → Bool) (l : List Symbol)
    → KeepsMarks space
    → All (IsPrintable space) l
    → (parse_lines space (printed_all l) parse_start >>= λ p. ok p.result)
      ≡ ok (map (symbol_name space) (filter is_exported l))
parse_lines-printed_all space l k h =
    let (p', run, res) = printed_step space l parse_start k h in rw (run, res) refl

-- The parser reads back the printed text of one symbol or more: it returns the names of those with
-- none of the hiding flags among their details, in order. Each symbol has a name and stripped
-- details, no line holds a newline, and stripping leaves the marks of a symbol's two ends alone.
pub readobj_parse-print :
    (space : ℕ → Bool) (s : Symbol) (l : List Symbol)
    → KeepsMarks space
    → All (IsPrintable space) (s ∷ l)
    → AllLack 10 (printed_all (s ∷ l))
    → calculate_object_exports_readobj_parse space (join (10 ∷ []) (printed_all (s ∷ l)))
      ≡ ok (map (symbol_name space) (filter is_exported (s ∷ l)))
unfolding calculate_object_exports_readobj_parse printed_all printed
readobj_parse-print space s l k h n =
    rw (split-join 10 opening _ n) (parse_lines-printed_all space (s ∷ l) k h)
