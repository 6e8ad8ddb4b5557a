-- ===== src/Webloop/Handlers/Laws.antt =====
-- What leaves the exception handling of the loop, and which loop the policy gives.
use pyodide.Base.{
  Text, text_eq, ◌≡◌, ap, ◌∙◌, inl, inr, true, Option, none, some, Bool-cases, arith,
}
use pyodide.Webloop.Raised.{Raised}
use pyodide.Webloop.Handlers.{is_fatal, Outcome, guarded, call_exception_handler}

-- Nothing but SystemExit and KeyboardInterrupt.
abbrev pub OnlyFatal : Outcome → Type 0
OnlyFatal o = (x : Raised) → o.1 ≡ some x → is_fatal x ≡ true

guarded-OnlyFatal :
    (o : Outcome) (handle : Raised → Outcome)
    → ((x : Raised) → OnlyFatal (handle x))
    → OnlyFatal (guarded o handle)
unfolding guarded
guarded-OnlyFatal (printed, none) handle h x e = cc
guarded-OnlyFatal (printed, some y) handle h x e = elim (Bool-cases (is_fatal y)) [
  | inl fatal ↦ ground arith
  | inr other ↦ ground (arith, h y x)
]

guarded_fatal :
    (o : Outcome) (handle : Raised → Outcome) (x : Raised)
    → o.1 ≡ some x
    → is_fatal x ≡ true
    → (guarded o handle).1 ≡ some x
unfolding guarded
guarded_fatal (printed, none) handle x e g = cc
guarded_fatal (printed, some y) handle x e g = ground arith

-- Whatever the handler and the default handler raise, the call raises nothing but SystemExit and
-- KeyboardInterrupt; and it raises those that the handler raises.
pub call_exception_handler_lem :
    (Context : Type 0) (default : Context → Outcome) (unhandled : Raised → Context → Context)
    (print_exc : Raised → Text) (handler : Option (Context → Outcome)) (context : Context)
    → OnlyFatal (call_exception_handler Context default unhandled print_exc handler context)
      × ((h : Context → Outcome) (x : Raised)
          → handler ≡ some h
          → (h context).1 ≡ some x
          → is_fatal x ≡ true
          → (call_exception_handler Context default unhandled print_exc handler context).1 ≡ some x)
unfolding call_exception_handler
call_exception_handler_lem Context default unhandled print_exc none context =
    (guarded-OnlyFatal (default context) _ (λ y x e. cc), λ h x e. cc)
call_exception_handler_lem Context default unhandled print_exc (some handler) context = (
  guarded-OnlyFatal (handler context) _
      (λ y. guarded-OnlyFatal (default (unhandled y context)) _ (λ z x e. cc)),
  λ h x e f g.
      let same : handler ≡ h = cc in
      guarded_fatal (handler context) _ x (ap (λ k. (k context).1) same ∙ f) g,
)
