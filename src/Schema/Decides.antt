-- ===== src/Schema/Decides.antt =====
-- `schema_to_gbnf` of c/util/schema_gbnf.h takes the supported schemas and no others.
use moty.Base.{
  ℕ, zero, suc, ◌≡◌, refl, ◌∙◌, inl, inr, Bool, true, false, not, ◌&&◌, ◌||◌, Option, none, some,
  List, if◌then◌else◌, arith, Bool-cases,
}
use mathlib.Core.Logic.{◌↔◌}
use moty.Json.Values.{Jval, j_null, j_bool, j_num, j_str, j_arr, j_obj, Fields, no_fields, field}
use moty.Json.Access.{same_str, json_get}
use moty.Schema.Texts.{
  kw_properties, kw_required, kw_items, kw_enum, kw_const, kw_type, kw_min_items, type_object,
  type_array, type_string, type_number, type_integer, type_boolean, type_null, lit_null, root_rule,
}
use moty.Schema.Writer.{Fault, unknown_type, const_type, SgbCtx, has_failed, sgb_put, sgb_fail}
use moty.Schema.Values.{
  is_keyword, is_annotation, unknown_keyword, sgb_type, sgb_form, sgb_node, sgb_known, sgb_value,
  sgb_root, gbnf, compiled, with_rules, sgb_empty, put_if,
}
use moty.Schema.Supported.{known_keywords, type_ok, form_ok, node_ok, supported}
use moty.Schema.Parts.{
  Tells, or_true, or_false, written, guarded, sgb_const-Tells, sgb_enum-Tells, object-Tells,
  array-Tells,
}

no_unknown :
    (fs : Fields)
    → known_keywords fs ≡ not (elim (unknown_keyword fs) [ none ↦ false | some k ↦ true ])
no_unknown no_fields = refl
no_unknown (field k v fs) = elim (Bool-cases (is_keyword k || is_annotation k)) [
  | inl e ↦ rw e (no_unknown fs)
  | inr e ↦ rw e refl
]

ends :
    (C : SgbCtx) (o : Option Fault) (good : Bool)
    → elim o [ none ↦ false | some what ↦ true ] ≡ not good
    → (good ≡ true) ↔ ((text : List ℕ) × (compiled C o ≡ gbnf text))
ends C none true e = (λ h. (C.s, refl), λ h. refl)
ends C none false e = absurd (ground arith)
ends C (some what) true e = absurd (ground arith)
ends C (some what) false e = (λ h. absurd (ground arith), λ h. absurd (let x = h.1 in ground arith))

module _ (number_lit : ℕ → List ℕ) where
  module _ (value : SgbCtx → Jval → SgbCtx) (ok : Jval → Bool)
      (tells : (C : SgbCtx) (v : Jval) → Tells C (value C v) (ok v)) where
    last_type :
        (b : Bool) (C D E : SgbCtx) (x : Bool)
        → has_failed D ≡ has_failed C
        → Tells C E x
        → Tells C (if b then D else E) (b || x)
    last_type true C D E x e h = e ∙ or_false (has_failed C)
    last_type false C D E x e h = h

    null_or_not :
        (b : Bool) (C : SgbCtx) (t : List ℕ)
        → Tells C (if b then sgb_put C lit_null else sgb_fail C (unknown_type t)) b
    null_or_not true C t = written C
    null_or_not false C t = or_true (has_failed C)

    type-Tells :
        (C : SgbCtx) (t : List ℕ) (sc : Jval)
        → Tells C (sgb_type number_lit value C t sc) (type_ok ok t sc)
    type-Tells C t sc = elim (Bool-cases (same_str t type_object)) [
      | inl e ↦ rw e (
          object-Tells number_lit value ok tells C (json_get (some sc) kw_properties)
            (json_get (some sc) kw_required))
      | inr e ↦ elim (Bool-cases (same_str t type_array)) [
        | inl f ↦
            rw (e, f)
              (array-Tells number_lit value ok tells C (json_get (some sc) kw_items)
                (json_get (some sc) kw_min_items))
        | inr f ↦
            rw (e, f)
              (last_type (same_str t type_string) C _ _ _ refl (
                last_type (same_str t type_number) C _ _ _ refl (
                  last_type (same_str t type_integer) C _ _ _ refl (
                    last_type (same_str t type_boolean) C _ _ _ refl
                      (null_or_not (same_str t type_null) C t)))))
      ]
    ]

    form-Tells :
        (C : SgbCtx) (cst en ty : Option Jval) (sc : Jval)
        → Tells C (sgb_form number_lit value C cst en ty sc) (form_ok ok cst en ty sc)
    form-Tells C (some cst) en ty sc = sgb_const-Tells number_lit C cst const_type
    form-Tells C none (some en) ty sc = sgb_enum-Tells number_lit C en
    form-Tells C none none (some (j_str t)) sc = type-Tells C t sc
    form-Tells C none none (some (j_obj fs)) sc = or_true (has_failed C)
    form-Tells C none none (some (j_arr ks)) sc = or_true (has_failed C)
    form-Tells C none none (some (j_num d)) sc = or_true (has_failed C)
    form-Tells C none none (some (j_bool b)) sc = or_true (has_failed C)
    form-Tells C none none (some j_null) sc = or_true (has_failed C)
    form-Tells C none none none sc = or_true (has_failed C)

    known_case :
        (C : SgbCtx) (sc : Jval) (o : Option (List ℕ))
        → Tells C (sgb_node number_lit value C sc o) (
            not (elim o [ none ↦ false | some k ↦ true ])
            && form_ok ok
                (json_get (some sc) kw_const)
                (json_get (some sc) kw_enum)
                (json_get (some sc) kw_type)
                sc)
    known_case C sc (some k) = or_true (has_failed C)
    known_case C sc none =
        form-Tells C (json_get (some sc) kw_const) (json_get (some sc) kw_enum)
          (json_get (some sc) kw_type) sc

    node-Tells :
        (C : SgbCtx) (sc : Jval) → Tells C (sgb_known number_lit value C sc) (node_ok ok sc)
    node-Tells C (j_obj fs) = rw (no_unknown fs) (known_case C (j_obj fs) (unknown_keyword fs))
    node-Tells C (j_arr ks) = or_true (has_failed C)
    node-Tells C (j_str s) = or_true (has_failed C)
    node-Tells C (j_num d) = or_true (has_failed C)
    node-Tells C (j_bool b) = or_true (has_failed C)
    node-Tells C j_null = or_true (has_failed C)

  sgb_value-Tells :
      (levels : ℕ) (C : SgbCtx) (sc : Jval)
      → Tells C (sgb_value number_lit levels C sc) (supported levels sc)
  unfolding sgb_value supported
  sgb_value-Tells zero C sc = guarded C _ false (or_true (has_failed C))
  sgb_value-Tells (suc levels) C sc = guarded C _ _ (
      node-Tells (λ D v. sgb_value number_lit levels D v) (λ v. supported levels v)
        (λ D v. sgb_value-Tells levels D v) C sc)

  put_if-has_failed :
      (b : Bool) (C : SgbCtx) (t : List ℕ) → has_failed (put_if b C t) ≡ has_failed C
  put_if-has_failed true C t = refl
  put_if-has_failed false C t = refl

  with_rules-has_failed : (C : SgbCtx) → has_failed (with_rules C) ≡ has_failed C
  with_rules-has_failed C =
      put_if-has_failed C.use_int _ _
      ∙ put_if-has_failed C.use_num _ _
      ∙ put_if-has_failed C.use_str _ _

  -- `schema_to_gbnf` writes a grammar for the supported schemas of at most 33 levels, the depths from
  -- 0 to `SGB_MAX_DEPTH`, and for no others.
  pub sgb_root-supported :
      (sc : Jval)
      → (supported 33 sc ≡ true) ↔ ((text : List ℕ) × (sgb_root number_lit sc ≡ gbnf text))
  unfolding sgb_root
  sgb_root-supported sc =
      let start = sgb_put sgb_empty root_rule in
      let C = with_rules (sgb_value number_lit 33 start sc) in
      ends C C.err (supported 33 sc)
        (with_rules-has_failed (sgb_value number_lit 33 start sc) ∙ sgb_value-Tells 33 start sc)
