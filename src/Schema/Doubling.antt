-- ===== src/Schema/Doubling.antt =====
-- `sgb_array` of c/util/schema_gbnf.h writes the items twice, so that nested arrays double the text.
use moty.Base.{
  ℕ, zero, suc, ◌+◌, ◌^◌, ◌≤◌, ◌<◌, ◌≡◌, refl, sym, ap, ◌∙◌, Bool, true, false, Option, none, some,
  List, ◌++◌, length, if◌then◌else◌, arith, if_cases, length-append, bytes_equal,
}
use mathlib.Core.Path.{subst}
use moty.Json.Values.{Jval, j_str, j_obj, no_fields, field}
use moty.Schema.Texts.{
  kw_type, kw_items, type_array, type_null, open_optional, more_items, close_optional, lit_null,
  root_rule, end_root, rule_jws,
}
use moty.Schema.Writer.{Fault, SgbCtx, has_failed, sgb_put}
use moty.Schema.Values.{
  sgb_known, sgb_value, put_items, sgb_root, gbnf, sgb_empty, with_rules, put_if, compiled,
}

-- An array of arrays and so on of `null`.
abbrev pub nested_arrays : ℕ → Jval
nested_arrays zero = j_obj (field kw_type (j_str type_null) no_fields)
nested_arrays (suc n) =
    j_obj (field kw_type (j_str type_array) (field kw_items (nested_arrays n) no_fields))

-- A writer that added so much to the text, without a failure.
record Adds (n : ℕ) (C D : SgbCtx) : Type 0 where
  pub good : D.err ≡ none
  pub longer : length C.s + n ≤ length D.s

not_failing : (C : SgbCtx) → C.err ≡ none → has_failed C ≡ false
not_failing C good = ap (λ o. elim o [ none ↦ false | some what ↦ true ]) good

module _ (number_lit : ℕ → List ℕ) where
  module _ (value : SgbCtx → Jval → SgbCtx) where
    array_node :
        (C : SgbCtx) (v : Jval)
        → sgb_known number_lit value C
            (j_obj (field kw_type (j_str type_array) (field kw_items v no_fields)))
          ≡ put_items number_lit value C false v
    unfolding bytes_equal
    array_node C v = refl

    null_node :
        (C : SgbCtx)
        → sgb_known number_lit value C (j_obj (field kw_type (j_str type_null) no_fields))
          ≡ sgb_put C lit_null
    unfolding bytes_equal
    null_node C = refl

    items_twice :
        (n : ℕ) (C : SgbCtx) (v : Jval)
        → C.err ≡ none
        → ((D : SgbCtx) → D.err ≡ none → Adds n D (value D v))
        → Adds (n + n) C (put_items number_lit value C false v)
    items_twice n C v good adds =
        let C1 = sgb_put C open_optional in
        let one = adds C1 good in
        let C2 = sgb_put (value C1 v) more_items in
        let two = adds C2 one.good in
        record {
          good = two.good;
          longer = omega (
            arith,
            one.longer,
            two.longer,
            length-append C.s open_optional,
            length-append (value C1 v).s more_items,
            length-append (value C2 v).s close_optional,
          );
        }

  unguarded :
      (C E : SgbCtx) (n : ℕ) → C.err ≡ none → Adds n C E → Adds n C (if has_failed C then C else E)
  unguarded C E n good h =
      if_cases (Adds n C) (has_failed C) C E
        (λ e. absurd (let x = sym (not_failing C good) ∙ e in ground arith)) (λ e. h)

  sgb_value-Adds :
      (levels n : ℕ) (C : SgbCtx)
      → n < levels
      → C.err ≡ none
      → Adds (2 ^ n) C (sgb_value number_lit levels C (nested_arrays n))
  unfolding sgb_value
  sgb_value-Adds zero n C lt good = absurd (omega arith)
  sgb_value-Adds (suc levels) zero C lt good = unguarded C _ 1 good (
      subst (Adds 1 C) (sym (null_node (λ D v. sgb_value number_lit levels D v) C))
        (record { good = good; longer = omega (arith, length-append C.s lit_null) }))
  sgb_value-Adds (suc levels) (suc n) C lt good = unguarded C _ (2 ^ suc n) good (
      subst (Adds (2 ^ suc n) C)
        (sym (array_node (λ D v. sgb_value number_lit levels D v) C (nested_arrays n)))
        (subst
          (λ k. Adds k C (
            put_items number_lit (λ D v. sgb_value number_lit levels D v) C false
              (nested_arrays n)))
          (omega arith)
          (items_twice (λ D v. sgb_value number_lit levels D v) (2 ^ n) C (nested_arrays n) good
            (λ D h. sgb_value-Adds levels n D (omega (arith, lt)) h))))

  put_if-Adds :
      (b : Bool) (n : ℕ) (C D : SgbCtx) (t : List ℕ) → Adds n C D → Adds n C (put_if b D t)
  put_if-Adds true n C D t h = record {
    good = h.good;
    longer = omega (arith, h.longer, length-append D.s t);
  }
  put_if-Adds false n C D t h = h

  with_rules-Adds : (n : ℕ) (C D : SgbCtx) → Adds n C D → Adds n C (with_rules D)
  with_rules-Adds n C D h = put_if-Adds D.use_int n C _ _ (
      put_if-Adds D.use_num n C _ _ (
        put_if-Adds D.use_str n C _ _ (record {
          good = h.good;
          longer = omega (
            arith,
            h.longer,
            length-append D.s end_root,
            length-append (D.s ++ end_root) rule_jws,
          );
        })))

  written_text :
      (n : ℕ) (C D : SgbCtx) (o : Option Fault)
      → o ≡ none
      → Adds n C D
      → (text : List ℕ) × (compiled D o ≡ gbnf text) × (n ≤ length text)
  written_text n C D none e h = (D.s, refl, omega (arith, h.longer))
  written_text n C D (some what) e h = absurd (ground arith)

  -- A schema of `n` arrays one in the other, `n` not above `SGB_MAX_DEPTH`, compiles to a text of
  -- `2^n` bytes at least.
  pub sgb_root-doubles :
      (n : ℕ)
      → n ≤ 32
      → (text : List ℕ) × (sgb_root number_lit (nested_arrays n) ≡ gbnf text)
        × (2 ^ n ≤ length text)
  unfolding sgb_root
  sgb_root-doubles n le =
      let start = sgb_put sgb_empty root_rule in
      let h = with_rules-Adds (2 ^ n) start _ (sgb_value-Adds 33 n start (omega arith) refl) in
      written_text (2 ^ n) start _ _ h.good h
